-- ===== src/Loader/Closed.antt =====
-- What load_file leaves in the table of elements, and that it ends.
use bst_staging.Prelude.{
  ℕ, zero, suc, ◌≡◌, refl, sym, ap, ◌∙◌, subst, String, Bool, true, false, Option, none, some, List,
  [], ◌∷◌, lookup, insert, lookup-insert, All, All-map, arith, if◌then◌else◌, string_eq, Bool-cases,
  Option-cases, inl, inr, none-some, some_inj,
}
use bst_staging.Yaml.Get.{invalid_variant, Loaded, loaded, failed}
use bst_staging.Loader.LoadElement.{
  Dependency, Variant, LoadElement, Elements, given, lookup_variant,
}
use bst_staging.Loader.Files.{
  Project, Files, table, load_error, out_of_fuel, and_then, possible_deps, has_variant, load_each,
  read_element, load_file,
}

-- The file of a dependency is loaded, with the variant that the dependency asks for, if it does.
pub record IsLoaded (t : Elements) (d : Dependency) : Type 0 where
  pub element : LoadElement
  pub found : lookup d.filename t ≡ some element
  pub variant :
      (v : String)
      → given d.variant_name ≡ some v
      → (x : Variant) × (lookup_variant v element.variants ≡ some x)

-- What is loaded stays.
abbrev pub Extends : Elements → Elements → Type 0
Extends old new = (k : String) (e : LoadElement) → lookup k old ≡ some e → lookup k new ≡ some e

-- An element comes from its file, and all its possible dependencies are loaded.
abbrev pub IsClosed : Project → Elements → String → LoadElement → Type 0
IsClosed p t k e = (read_element p k ≡ loaded e) × All (IsLoaded t) (possible_deps e)

pub record Loads (p : Project) (ds : List Dependency) (old new : Elements) : Type 0 where
  pub extends : Extends old new
  pub met : All (IsLoaded new) ds
  pub complete :
      (k : String) (e : LoadElement)
      → lookup k new ≡ some e
      → lookup k old ≡ none
      → IsClosed p new k e

abbrev pub OnTable : (Elements → Type 0) → Files → Type 0
OnTable P (table t) = P t
OnTable P _ = Unit

IsLoaded-Extends : (t t' : Elements) (d : Dependency) → Extends t t' → IsLoaded t d → IsLoaded t' d
IsLoaded-Extends t t' d x h = record {
  element = h.element;
  found = x d.filename h.element h.found;
  variant = h.variant;
}

has_variant-IsLoaded : (t : Elements) (d : Dependency) → has_variant t d ≡ true → IsLoaded t d
unfolding has_variant
has_variant-IsLoaded t d h = elim (Option-cases (lookup d.filename t)) [
  | inl e ↦ absurd (ground arith)
  | inr (e, found) ↦ record {
    element = e;
    found = found;
    variant = λ v asked. elim (Option-cases (lookup_variant v e.variants)) [
      | inl missing ↦ absurd (ground arith)
      | inr there ↦ there
    ];
  }
]

-- One dependency after another
Loads-append :
    (p : Project) (ds es : List Dependency) (t t' t'' : Elements)
    → Loads p ds t t'
    → Loads p es t' t''
    → Extends t t''
      × All (IsLoaded t'') ds
      × ((k : String) (e : LoadElement)
          → lookup k t'' ≡ some e
          → lookup k t ≡ none
          → IsClosed p t'' k e)
Loads-append p ds es t t' t'' first rest = (
  λ k e h. rest.extends k e (first.extends k e h),
  All-map (IsLoaded t') (IsLoaded t'') ds (λ d. IsLoaded-Extends t' t'' d rest.extends) first.met,
  λ k e now before. elim (Option-cases (lookup k t')) [
    | inl fresh ↦ rest.complete k e now fresh
    | inr (e', found) ↦
        let same : e' ≡ e = some_inj (sym (rest.extends k e' found) ∙ now) in
        let own = first.complete k e (subst (λ x. lookup k t' ≡ some x) same found) before in
        (
          own.0,
          All-map (IsLoaded t') (IsLoaded t'') (possible_deps e)
              (λ d. IsLoaded-Extends t' t'' d rest.extends) own.1,
        )
  ],
)

abbrev pub Present : Project → String → Elements → Elements → Type 0
Present p n t t' = ((e : LoadElement) × (lookup n t' ≡ some e)) × Loads p [] t t'

module _ (p : Project) where
  unchanged : (t : Elements) → Loads p [] t t
  unchanged t = record {
    extends = λ k e h. h;
    met = tt;
    complete = λ k e now before. absurd (none-some before now);
  }

  load_each-Loads :
      (load : String → Elements → Files)
      → ((n : String) (t : Elements) → OnTable (Present p n t) (load n t))
      → (ds : List Dependency) (t : Elements) → OnTable (Loads p ds t) (load_each load ds t)
  unfolding load_each
  load_each-Loads load ih [] t = unchanged t
  load_each-Loads load ih (d ∷ ds) t =
      go (load d.filename t) (ih d.filename t) (load_each-Loads load ih ds)
    where
      checked :
          (t' : Elements) (b : Bool) (after : Files)
          → has_variant t' d ≡ b
          → Loads p [] t t'
          → OnTable (Loads p ds t') after
          → OnTable (Loads p (d ∷ ds) t) (if b then after else load_error invalid_variant)
      checked t' false after e first rest = tt
      checked t' true (load_error x) e first rest = tt
      checked t' true out_of_fuel e first rest = tt
      checked t' true (table t'') e first rest =
          let both = Loads-append p [] ds t t' t'' first rest in
          record {
            extends = both.0;
            met = (IsLoaded-Extends t' t'' d rest.extends (has_variant-IsLoaded t' d e), rest.met);
            complete = both.2;
          }

      go :
          (f : Files)
          → OnTable (Present p d.filename t) f
          → ((t' : Elements) → OnTable (Loads p ds t') (load_each load ds t'))
          → OnTable (Loads p (d ∷ ds) t) (
              and_then f
                λ t'. if has_variant t' d then load_each load ds t' else load_error invalid_variant)
      go (table t') h rest = checked t' (has_variant t' d) (load_each load ds t') refl h.1 (rest t')
      go (load_error x) h rest = tt
      go out_of_fuel h rest = tt

  entered :
      (n : String) (e : LoadElement) (t : Elements)
      → lookup n t ≡ none
      → read_element p n ≡ loaded e
      → (f : Files) → OnTable (Loads p (possible_deps e) (insert n e t)) f
      → OnTable (Present p n t) f
  entered n e t fresh own (load_error x) h = tt
  entered n e t fresh own out_of_fuel h = tt
  entered n e t fresh own (table t') h = (
    (e, h.extends n e there),
    record {
      extends = λ k x found. h.extends k x (kept k x found);
      met = tt;
      complete = λ k x now before. elim (Bool-cases (string_eq.beq n k)) [
        | inl same ↦
            let name : n ≡ k = (string_eq.beq_iff n k).0 same in
            let equal : e ≡ x =
              some_inj (sym (subst (λ m. lookup m t' ≡ some e) name (h.extends n e there)) ∙ now) in
            (
              subst (λ m. read_element p m ≡ loaded x) name (own ∙ ap loaded equal),
              subst (λ y. All (IsLoaded t') (possible_deps y)) equal h.met,
            )
        | inr other ↦ h.complete k x now (ground (arith, lookup-insert n k e t))
      ];
    },
  )
    where
      there : lookup n (insert n e t) ≡ some e
      there = ground (arith, lookup-insert n n e t, string_eq.beq_iff n n)

      kept : (k : String) (x : LoadElement) → lookup k t ≡ some x → lookup k (insert n e t) ≡ some x
      kept k x found = elim (Bool-cases (string_eq.beq n k)) [
        | inl same ↦ absurd (
            none-some (subst (λ m. lookup m t ≡ none) ((string_eq.beq_iff n k).0 same) fresh) found)
        | inr other ↦ ground (arith, lookup-insert n k e t)
      ]

  pub load_file-Loads :
      (fuel : ℕ) (n : String) (t : Elements) → OnTable (Present p n t) (load_file p fuel n t)
  unfolding load_file
  load_file-Loads zero n t = tt
  load_file-Loads (suc fuel) n t =
      go (lookup n t) refl (read_element p n) refl (load_file-Loads fuel)
    where
      go :
          (o : Option LoadElement)
          → lookup n t ≡ o
          → (r : Loaded LoadElement) → read_element p n ≡ r
          → ((m : String) (t' : Elements) → OnTable (Present p m t') (load_file p fuel m t'))
          → OnTable (Present p n t) (elim o [
            | some e ↦ table t
            | none ↦ elim r [
              | failed e ↦ load_error e
              | loaded e ↦ load_each (load_file p fuel) (possible_deps e) (insert n e t)
            ]
          ])
      go (some e) found r own ih = ((e, found), unchanged t)
      go none fresh (failed x) own ih = tt
      go none fresh (loaded e) own ih =
          entered n e t fresh own (load_each (load_file p fuel) (possible_deps e) (insert n e t))
            (load_each-Loads (load_file p fuel) ih (possible_deps e) (insert n e t))

-- A load that succeeds leaves the target in the table, and a table that is complete: each element
-- is the one that its file says, and the file of each dependency that the element can have, in
-- whatever variant, is loaded too and has the variant that the dependency asks for.
pub load_file_complete :
    (p : Project) (fuel : ℕ) (n : String) (t : Elements)
    → load_file p fuel n [] ≡ table t
    → ((e : LoadElement) × (lookup n t ≡ some e))
      × ((k : String) (e : LoadElement) → lookup k t ≡ some e → IsClosed p t k e)
load_file_complete p fuel n t done =
    let h : Present p n [] t =
      subst (OnTable (Present p n [])) done (load_file-Loads p fuel n []) in
    (h.0, λ k e found. h.1.complete k e found refl)
