-- ===== src/Loader/Acyclic.antt =====
-- What check_circular_deps guarantees: a check that passes means that there is no cycle, a check
-- that reports one has found one, and with enough fuel it does one or the other.
use bst_staging.Prelude.{
  ℕ, zero, suc, ◌≡◌, true, false, String, none, some, List, [], ◌∷◌, arith, All, contains, map,
  lookup, string_eq, if◌then◌else◌, Bool-cases, Option-cases, inl, inr,
}
use bst_staging.Loader.LoadElement.{Dependency, LoadElement, Elements}
use bst_staging.Loader.Circular.{
  Outcome, checked, circular_dependency, key_error, check_each, validate, check_circular_deps,
}

-- The names that an element depends on directly
abbrev pub dep_names : Elements → String → List String
dep_names elements n = elim (lookup n elements) [ none ↦ [] | some e ↦ map (λ d. d.name) e.deps ]

-- Element `n` depends on `m`, directly or not.
pub data DependsOn (elements : Elements) (n : String) : String → Type 0 where
  direct : (m : String) → contains (dep_names elements n) m ≡ true → DependsOn elements n m
  further :
      (m k : String)
      → DependsOn elements n m
      → contains (dep_names elements m) k ≡ true
      → DependsOn elements n k

-- Each name was validated once, after all the names that it depends on.
abbrev pub IsTopological : Elements → List String → Type 0
IsTopological elements [] = Unit
IsTopological elements (n ∷ validated) =
    (contains validated n ≡ false)
    × All (λ d. contains validated d ≡ true) (dep_names elements n)
    × IsTopological elements validated

-- More names are validated, those that were stay.
abbrev pub Extends : List String → List String → Type 0
Extends old new = (x : String) → contains old x ≡ true → contains new x ≡ true

-- What a call or the loop over dependencies leaves behind when it passes.
pub record Passes (elements : Elements) (check_elements ns old new : List String) : Type 0 where
  pub topological : IsTopological elements new
  pub extends : Extends old new
  pub there : All (λ n. contains new n ≡ true) ns
  -- the open calls are not validated meanwhile
  pub unfinished :
      (x : String)
      → contains check_elements x ≡ true
      → contains old x ≡ false
      → contains new x ≡ false

abbrev pub OnChecked : (List String → Type 0) → Outcome → Type 0
OnChecked P (checked v) = P v
OnChecked P _ = Unit

abbrev pub names_of : List Dependency → List String
names_of ds = map (λ d. d.name) ds

module _ (elements : Elements) where
  each-step :
      (check_elements : List String) (check : String → List String → Outcome) (d : Dependency)
      (ds : List Dependency) (v : List String) (o : Outcome)
      → OnChecked (Passes elements check_elements (d.name ∷ []) v) o
      → ((v' : List String)
          → IsTopological elements v'
          → OnChecked (Passes elements check_elements (names_of ds) v') (check_each check ds v'))
      → OnChecked
          (Passes elements check_elements (names_of (d ∷ ds)) v)
          (elim o [ checked v' ↦ check_each check ds v' | other ↦ other ])
  each-step check_elements check d ds v (checked v') first rest =
      after (check_each check ds v') (rest v' first.topological)
    where
      after :
          (o : Outcome)
          → OnChecked (Passes elements check_elements (names_of ds) v') o
          → OnChecked (Passes elements check_elements (names_of (d ∷ ds)) v) o
      after (checked v'') h = record {
        topological = h.topological;
        extends = λ x inside. h.extends x (first.extends x inside);
        there = (h.extends d.name first.there.0, h.there);
        unfinished = λ x open_call out. h.unfinished x open_call (first.unfinished x open_call out);
      }
      after _ h = tt
  each-step check_elements check d ds v _ first rest = tt

  each-Passes :
      (check_elements : List String) (check : String → List String → Outcome) (ds : List Dependency)
      → ((n : String) (v : List String)
          → IsTopological elements v
          → OnChecked (Passes elements check_elements (n ∷ []) v) (check n v))
      → (v : List String) → IsTopological elements v
      → OnChecked (Passes elements check_elements (names_of ds) v) (check_each check ds v)
  unfolding check_each
  each-Passes check_elements check [] step v h = record {
    topological = h;
    extends = λ x inside. inside;
    there = tt;
    unfinished = λ x open_call out. out;
  }
  each-Passes check_elements check (d ∷ ds) step v h =
      each-step check_elements check d ds v (check d.name v) (step d.name v h)
        (λ v' h'. each-Passes check_elements check ds step v' h')

  pub dep_names-found :
      (n : String) (e : LoadElement)
      → lookup n elements ≡ some e
      → dep_names elements n ≡ names_of e.deps
  dep_names-found n e found = ground arith

  pub check-missing :
      (fuel : ℕ) (check_elements : List String) (n : String) (v : List String)
      → lookup n elements ≡ none
      → check_circular_deps elements (suc fuel) check_elements n v ≡ key_error n
  unfolding check_circular_deps
  check-missing fuel check_elements n v missing = ground arith

  pub check-found :
      (fuel : ℕ) (check_elements : List String) (n : String) (v : List String) (e : LoadElement)
      → lookup n elements ≡ some e
      → check_circular_deps elements (suc fuel) check_elements n v ≡ (
          if contains v n
          then checked v
          else if contains check_elements n
          then circular_dependency n
          else validate n
              (check_each (λ m. check_circular_deps elements fuel (n ∷ check_elements) m) e.deps v))
  unfolding check_circular_deps
  check-found fuel check_elements n v e found = ground arith

  validate-Passes :
      (check_elements : List String) (n : String) (e : LoadElement) (v : List String) (o : Outcome)
      → lookup n elements ≡ some e
      → contains v n ≡ false
      → contains check_elements n ≡ false
      → OnChecked (Passes elements (n ∷ check_elements) (names_of e.deps) v) o
      → OnChecked (Passes elements check_elements (n ∷ []) v) (validate n o)
  validate-Passes check_elements n e v (checked v') found new closed inner = record {
    topological = (
      inner.unfinished n (ground (arith, string_eq.beq_iff n n)) new,
      rw (dep_names-found n e found) inner.there,
      inner.topological,
    );
    extends = λ x inside. ground (arith, inner.extends x inside);
    there = (ground (arith, string_eq.beq_iff n n), tt);
    unfinished = λ x open_call out.
        ground (arith, string_eq.beq_iff n x, inner.unfinished x (ground arith) out);
  }
  validate-Passes check_elements n e v _ found new closed inner = tt

  pub check-Passes :
      (fuel : ℕ) (check_elements : List String) (n : String) (v : List String)
      → IsTopological elements v
      → OnChecked
          (Passes elements check_elements (n ∷ []) v)
          (check_circular_deps elements fuel check_elements n v)
  check-Passes zero check_elements n v h = unfold check_circular_deps in tt
  check-Passes (suc fuel) check_elements n v h = elim (Option-cases (lookup n elements)) [
    | inl missing ↦ rw (check-missing fuel check_elements n v missing) tt
    | inr (e, found) ↦
        rw (check-found fuel check_elements n v e found) (elim (Bool-cases (contains v n)) [
          | inl done ↦ rw done (record {
            topological = h;
            extends = λ x inside. inside;
            there = (done, tt);
            unfinished = λ x open_call out. out;
          })
          | inr new ↦ rw new (elim (Bool-cases (contains check_elements n)) [
            | inl open_call ↦ rw open_call tt
            | inr closed ↦ rw closed (
                validate-Passes check_elements n e v
                  (check_each (λ m. check_circular_deps elements fuel (n ∷ check_elements) m) e.deps
                    v)
                  found new closed
                  (each-Passes (n ∷ check_elements) _ e.deps
                    (λ m v' h'. check-Passes fuel (n ∷ check_elements) m v' h') v h))
          ])
        ])
  ]
