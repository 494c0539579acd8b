-- ===== src/Loader/Agreement.antt =====
-- The steps of resolve_project_variant keep the elements in agreement.
use bst_staging.Prelude.{
  ◌≡◌, ◌≢◌, refl, sym, ap, ◌∙◌, subst, String, true, Option, none, some, List, ◌∷◌, contains,
  lookup, string_eq, arith, Bool-cases, inl, inr, some_inj, none-some,
}
use bst_staging.Prelude.{Bool, false}
use bst_staging.Yaml.Node.{Node, null, boolean, number, decimal, text, sequence, mapping, get}
use bst_staging.Yaml.Get.{Strings, LoadError, loaded, failed, value_or, as_str}
use bst_staging.Loader.Parse.{optional}
use bst_staging.Loader.LoadElement.{LoadElement, Elements}
use bst_staging.Loader.ProjectVariant.{
  ProjectVariant, Agreement, agreed, disagreement, load_error, key_error, out_of_fuel,
  project_variant_of, and_then, request, mark_resolved,
}

-- The element of a name requests a project variant.
pub record Wants (p : Strings) (elements : Elements) (n v : String) : Type 0 where
  pub element : LoadElement
  pub found : lookup n elements ≡ some element
  pub wanted : project_variant_of p element ≡ loaded (some v)

-- The resolved elements agree on the project variant, and its requester does request it.
pub record Agrees (p : Strings) (elements : Elements) (current : ProjectVariant)
    (resolved : List String) : Type 0 where
  pub agree :
      (n v : String)
      → contains resolved n ≡ true
      → Wants p elements n v
      → (requester : String) × (current ≡ some (v, requester))
  pub asked : (v requester : String) → current ≡ some (v, requester) → Wants p elements requester v

abbrev pub Keeps : ProjectVariant → ProjectVariant → Type 0
Keeps old new = (x : String × String) → old ≡ some x → new ≡ some x

pub record Differ (p : Strings) (elements : Elements) (n m : String) : Type 0 where
  pub v : String
  pub w : String
  pub first : Wants p elements n v
  pub second : Wants p elements m w
  pub different : v ≢ w

-- A value that is neither text nor converted to it
abbrev pub is_no_text : Node → Bool
is_no_text null = true
is_no_text (sequence xs) = true
is_no_text (mapping fs) = true
is_no_text _ = false

-- An element's file has a value for the project variant that cannot be one.
pub record IsMalformed (elements : Elements) : Type 0 where
  pub name : String
  pub element : LoadElement
  pub found : lookup name elements ≡ some element
  pub value : Node
  pub there : get "project-variant" element.fields ≡ some value
  pub no_text : is_no_text value ≡ true

-- What an outcome says when the names in `names` are those that were to be resolved: these are, and
-- agree, or two elements do request different variants, or a file has no text where the variant
-- should be; nothing else.
abbrev pub Settles :
    Strings → Elements → ProjectVariant → (names : List String) → Agreement → Type 0
Settles p elements old names (agreed current resolved) =
    (resolved ≡ names) × Agrees p elements current resolved × Keeps old current
Settles p elements old names (disagreement n m) = Differ p elements n m
Settles p elements old names (load_error x) = IsMalformed elements
Settles p elements old names (key_error n) = ⊥
Settles p elements old names out_of_fuel = ⊥

-- A missing variant is no error.
pub malformed :
    (p : Strings) (elements : Elements) (n : String) (e : LoadElement) (x : LoadError)
    → lookup n elements ≡ some e
    → project_variant_of p e ≡ failed x
    → IsMalformed elements
unfolding optional value_or as_str
malformed p elements n e x found h = go (get "project-variant" e.fields) refl h
  where
    go :
        (o : Option Node)
        → get "project-variant" e.fields ≡ o
        → project_variant_of p e ≡ failed x
        → IsMalformed elements
    go none at k = absurd (ground (arith, at, k))
    go (some null) at k = record {
      name = n;
      element = e;
      found = found;
      value = null;
      there = at;
      no_text = refl;
    }
    go (some (sequence xs)) at k = record {
      name = n;
      element = e;
      found = found;
      value = sequence xs;
      there = at;
      no_text = refl;
    }
    go (some (mapping fs)) at k = record {
      name = n;
      element = e;
      found = found;
      value = mapping fs;
      there = at;
      no_text = refl;
    }
    go (some (text s)) at k = absurd (ground (arith, at, k))
    go (some (number m)) at k = absurd (ground (arith, at, k))
    go (some (decimal m)) at k = absurd (ground (arith, at, k))
    go (some (boolean b)) at k = absurd (ground (arith, at, k))

module _ (p : Strings) (elements : Elements) where
  pub widen :
      (old v : ProjectVariant) (later : List String) (a : Agreement)
      → Keeps old v
      → Settles p elements v later a
      → Settles p elements old later a
  widen old v later (agreed w xs) kept (e, ok, more) = (e, ok, λ x h. more x (kept x h))
  widen old v later (disagreement n m) kept h = h
  widen old v later (load_error x) kept h = h
  widen old v later (key_error n) kept h = h
  widen old v later out_of_fuel kept h = h

  -- Two steps in a row
  pub Settles-then :
      (current : ProjectVariant) (names later : List String) (a : Agreement)
      (next : ProjectVariant → List String → Agreement)
      → Settles p elements current names a
      → ((v : ProjectVariant)
          → Keeps current v
          → Agrees p elements v names
          → Settles p elements v later (next v names))
      → Settles p elements current later (and_then a next)
  Settles-then current names later (agreed v resolved) next (same, agrees, kept) rest =
      widen current v later (next v resolved) kept (
        subst (λ xs. Settles p elements v later (next v xs)) (sym same)
          (rest v kept (subst (Agrees p elements v) same agrees)))
  Settles-then current names later (disagreement n m) next h rest = h
  Settles-then current names later (load_error x) next h rest = h
  Settles-then current names later (key_error n) next h rest = h
  Settles-then current names later out_of_fuel next h rest = h

  -- The state has what the element requests, if it requests anything.
  abbrev pub Has : ProjectVariant → Option String → Type 0
  Has current wanted =
      (v : String) → wanted ≡ some v → (requester : String) × (current ≡ some (v, requester))

  pub request-Settles :
      (n : String) (wanted : Option String) (current : ProjectVariant) (names : List String)
      → ((v : String) → wanted ≡ some v → Wants p elements n v)
      → Agrees p elements current names
      → (later : List String) (next : ProjectVariant → List String → Agreement)
      → ((v : ProjectVariant)
          → Agrees p elements v names
          → Has v wanted
          → Settles p elements v later (next v names))
      → Settles p elements current later (and_then (request n wanted current names) next)
  unfolding request
  request-Settles n none current names wants agrees later next rest =
      rest current agrees (λ v h. absurd (none-some refl h))
  request-Settles n (some v) none names wants agrees later next rest =
      widen none (some (v, n)) later (next (some (v, n)) names) (λ x h. absurd (none-some refl h))
        (rest (some (v, n))
          (record {
            agree = λ m w inside asks. absurd (none-some refl (agrees.agree m w inside asks).1);
            asked = λ w requester h.
                let same = some_inj h in subst (λ x. Wants p elements x.1 x.0) same (wants v refl);
          })
          (λ u h. (n, ap (λ x. some (x, n)) (some_inj h))))
  request-Settles n (some v) (some (w, requester)) names wants agrees later next rest =
      elim (Bool-cases (string_eq.beq v w)) [
        | inl same ↦
            let eq = (string_eq.beq_iff v w).0 same in
            rw same (
              rest (some (w, requester)) agrees
                (λ u h. (requester, ap (λ x. some (x, requester)) (sym eq ∙ some_inj h))))
        | inr other ↦ rw other (record {
          v = w;
          w = v;
          first = agrees.asked w requester refl;
          second = wants v refl;
          different = λ e. let true_too = (string_eq.beq_iff v w).1 (sym e) in cc;
        })
      ]

  -- An element and all that it depends on are resolved.
  pub mark-Settles :
      (n : String) (wanted : Option String) (current v : ProjectVariant) (names : List String)
      (a : Agreement)
      → ((u : String) → Wants p elements n u → wanted ≡ some u)
      → Has v wanted
      → Settles p elements v names a
      → Settles p elements v (n ∷ names) (mark_resolved n a)
  mark-Settles n wanted current v names (agreed x resolved) only has (same, agrees, kept) = (
    ap (λ xs. n ∷ xs) same,
    record {
      agree = λ m u inside asks. elim (Bool-cases (string_eq.beq n m)) [
        | inl own ↦
            let name = (string_eq.beq_iff n m).0 own in
            let (requester, now) =
              has u (only u (subst (λ k. Wants p elements k u) (sym name) asks)) in
            (requester, kept (u, requester) now)
        | inr other ↦ agrees.agree m u (ground arith) asks
      ];
      asked = agrees.asked;
    },
    kept,
  )
  mark-Settles n wanted current v names (disagreement m k) only has h = h
  mark-Settles n wanted current v names (load_error x) only has h = h
  mark-Settles n wanted current v names (key_error m) only has h = h
  mark-Settles n wanted current v names out_of_fuel only has h = h
