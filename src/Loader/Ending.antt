-- ===== src/Loader/Ending.antt =====
-- load_file ends: each file that is read was not in the table before.
use bst_staging.Prelude.{
  ℕ, zero, suc, ◌<◌, ◌≤◌, ◌≡◌, ◌≢◌, refl, sym, subst, String, Bool, true, false, Option, none, some,
  List, [], ◌∷◌, lookup, insert, lookup-insert, arith, if◌then◌else◌, string_eq, contains,
  Bool-cases, Option-cases, inl, inr, none-some,
}
use bst_staging.Yaml.Node.{Fields}
use bst_staging.Yaml.Get.{missing_file, invalid_variant, Loaded, loaded, failed}
use bst_staging.Loader.LoadElement.{Dependency, LoadElement, Elements}
use bst_staging.Loader.Files.{
  Project, Files, table, load_error, out_of_fuel, and_then, possible_deps, has_variant, load_each,
  read_element, load_file,
}
use bst_staging.Loader.Closed.{Extends, OnTable, Present, load_file-Loads}

-- The files that there are
abbrev pub Lists : Project → List String → Type 0
Lists p names = (n : String) (fs : Fields) → p.parsed n ≡ some fs → contains names n ≡ true

-- How many of the files are not loaded yet.
abbrev pub unread : List String → Elements → ℕ
unread [] t = 0
unread (n ∷ names) t = elim (lookup n t) [ none ↦ suc (unread names t) | some e ↦ unread names t ]

abbrev Ends : Files → Type 0
Ends out_of_fuel = ⊥
Ends _ = Unit

unread-Extends :
    (names : List String) (old new : Elements)
    → Extends old new
    → unread names new ≤ unread names old
unread-Extends [] old new x = omega arith
unread-Extends (n ∷ names) old new x = elim (Option-cases (lookup n old)) [
  | inl h ↦ elim (Option-cases (lookup n new)) [
    | inl k ↦ ground (arith, h, k, unread-Extends names old new x)
    | inr (e, k) ↦ ground (arith, h, k, unread-Extends names old new x)
  ]
  | inr (e, h) ↦ ground (arith, h, x n e h, unread-Extends names old new x)
]

insert-Extends :
    (n : String) (e : LoadElement) (t : Elements) → lookup n t ≡ none → Extends t (insert n e t)
insert-Extends n e t fresh k x h = elim (Bool-cases (string_eq.beq n k)) [
  | inl same ↦
      absurd (none-some (subst (λ m. lookup m t ≡ none) ((string_eq.beq_iff n k).0 same) fresh) h)
  | inr other ↦ ground (arith, lookup-insert n k e t)
]

unread-insert :
    (names : List String) (n : String) (e : LoadElement) (t : Elements)
    → contains names n ≡ true
    → lookup n t ≡ none
    → unread names (insert n e t) < unread names t
unread-insert [] n e t there fresh = cc
unread-insert (j ∷ names) n e t there fresh = elim (Bool-cases (string_eq.beq j n)) [
  | inl same ↦
      let name = (string_eq.beq_iff j n).0 same in
      let fresh' : lookup j t ≡ none = subst (λ k. lookup k t ≡ none) (sym name) fresh in
      let now : lookup j (insert n e t) ≡ some e =
        ground (arith, lookup-insert n j e t, string_eq.beq_iff n j, name) in
      ground
        (arith, now, fresh', unread-Extends names t (insert n e t) (insert-Extends n e t fresh))
  | inr other ↦
      let there' : contains names n ≡ true = ground arith in
      let kept : lookup j (insert n e t) ≡ lookup j t =
        ground (arith, lookup-insert n j e t, string_eq.beq_iff n j, string_eq.beq_iff j n) in
      elim (Option-cases (lookup j t)) [
        | inl h ↦ ground (arith, kept, h, unread-insert names n e t there' fresh)
        | inr (x, h) ↦ ground (arith, kept, h, unread-insert names n e t there' fresh)
      ]
]

module _ (p : Project) (names : List String) (listed : Lists p names) where
  load_each-Ends :
      (load : String → Elements → Files) (fuel : ℕ)
      → ((n : String) (t : Elements) → OnTable (Present p n t) (load n t))
      → ((n : String) (t : Elements) → unread names t < fuel → Ends (load n t))
      → (ds : List Dependency) (t : Elements) → unread names t < fuel
      → Ends (load_each load ds t)
  unfolding load_each
  load_each-Ends load fuel sound ih [] t low = tt
  load_each-Ends load fuel sound ih (d ∷ ds) t low =
      go (load d.filename t) (sound d.filename t) (ih d.filename t low)
        λ t' x. load_each-Ends load fuel sound ih ds t' (omega (arith, unread-Extends names t t' x))
    where
      checked :
          (b : Bool) (after : Files)
          → Ends after
          → Ends (if b then after else load_error invalid_variant)
      checked true after h = h
      checked false after h = tt

      go :
          (f : Files)
          → OnTable (Present p d.filename t) f
          → Ends f
          → ((t' : Elements) → Extends t t' → Ends (load_each load ds t'))
          → Ends (
              and_then f
                λ t'. if has_variant t' d then load_each load ds t' else load_error invalid_variant)
      go (table t') h k rest =
          checked (has_variant t' d) (load_each load ds t') (rest t' h.1.extends)
      go (load_error x) h k rest = tt
      go out_of_fuel h k rest = k

  -- A file that is read is one of the files.
  read-listed :
      (n : String) (e : LoadElement) → read_element p n ≡ loaded e → contains names n ≡ true
  unfolding read_element
  read-listed n e h = elim (Option-cases (p.parsed n)) [
    | inl missing ↦
        let same : failed (missing_file n) ≡ loaded e = ground (arith, missing, h) in
        let clash : ⊥ = cc in absurd clash
    | inr (fs, found) ↦ listed n fs found
  ]

  load_file-Ends :
      (fuel : ℕ) (n : String) (t : Elements) → unread names t < fuel → Ends (load_file p fuel n t)
  unfolding load_file
  load_file-Ends zero n t low = absurd (omega arith)
  load_file-Ends (suc fuel) n t low =
      go (lookup n t) refl (read_element p n) refl (load_file-Ends fuel)
    where
      go :
          (o : Option LoadElement)
          → lookup n t ≡ o
          → (r : Loaded LoadElement) → read_element p n ≡ r
          → ((m : String) (t' : Elements) → unread names t' < fuel → Ends (load_file p fuel m t'))
          → Ends (elim o [
            | some e ↦ table t
            | none ↦ elim r [
              | failed e ↦ load_error e
              | loaded e ↦ load_each (load_file p fuel) (possible_deps e) (insert n e t)
            ]
          ])
      go (some e) found r own ih = tt
      go none fresh (failed x) own ih = tt
      go none fresh (loaded e) own ih =
          load_each-Ends (load_file p fuel) fuel (load_file-Loads p fuel) ih (possible_deps e)
            (insert n e t) (omega (arith, unread-insert names n e t (read-listed n e own) fresh))

-- With more fuel than the project has files the loading of files ends, whatever the files say,
-- circular dependencies included.
pub load_file_ends :
    (p : Project) (names : List String) (fuel : ℕ) (n : String)
    → Lists p names
    → unread names [] < fuel
    → load_file p fuel n [] ≢ out_of_fuel
load_file_ends p names fuel n listed low stops =
    subst Ends stops (load_file-Ends p names listed fuel n [] low)
