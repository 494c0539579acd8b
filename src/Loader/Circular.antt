-- ===== src/Loader/Circular.antt =====
-- Loader.check_circular_deps (buildstream/_loader.py).
use bst_staging.Prelude.{
  ℕ, zero, suc, String, none, some, List, [], ◌∷◌, contains, lookup, if◌then◌else◌, string_eq,
}
use bst_staging.Loader.LoadElement.{Dependency, Elements}

-- How a check ends: with the validated names, with LoadErrorReason.CIRCULAR_DEPENDENCY at an
-- element, with a KeyError on `self.elements`, or without fuel.
pub data Outcome : Type 0 where
  checked : (validated : List String) → Outcome
  circular_dependency : String → Outcome
  key_error : String → Outcome
  out_of_fuel : Outcome

-- `for dep in element.deps: self.check_circular_deps(dep.name, ...)`
unfoldable pub check_each :
    (String → List String → Outcome) → List Dependency → List String → Outcome
check_each check [] validated = checked validated
check_each check (d ∷ ds) validated = elim (check d.name validated) [
  | checked validated' ↦ check_each check ds validated'
  | other ↦ other
]

-- The last line of a call: the element is validated.
abbrev pub validate : String → Outcome → Outcome
validate n (checked validated) = checked (n ∷ validated)
validate n other = other

-- `check_elements` holds the names of the calls that are open; a call that returns takes its own
-- name out again. The fuel bounds how deep the calls go.
unfoldable pub check_circular_deps :
    Elements
    → (fuel : ℕ) → (check_elements : List String) → String
    → (validated : List String) → Outcome
unfolding check_each
check_circular_deps elements zero check_elements n validated = out_of_fuel
check_circular_deps elements (suc fuel) check_elements n validated = elim (lookup n elements) [
  | none ↦ key_error n
  | some e ↦
      let inner =
        check_each (λ m. check_circular_deps elements fuel (n ∷ check_elements) m) e.deps
          validated in
      if contains validated n
      then checked validated
      else if contains check_elements n
      then circular_dependency n
      else validate n inner
]
