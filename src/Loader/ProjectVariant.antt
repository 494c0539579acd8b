-- ===== src/Loader/ProjectVariant.antt =====
-- Loader.resolve_project_variant (buildstream/_loader.py): self.project_variant with its requester
-- is state that is passed on.
use bst_staging.Prelude.{
  ℕ, zero, suc, String, Option, none, some, List, [], ◌∷◌, contains, lookup, if◌then◌else◌,
  string_eq,
}
use bst_staging.Yaml.Get.{Strings, LoadError, Loaded, loaded, failed}
use bst_staging.Loader.LoadElement.{Dependency, LoadElement, Elements}
use bst_staging.Loader.Parse.{optional}

-- self.project_variant and self.project_variant_requester, which are set together
abbrev pub ProjectVariant : Type 0
ProjectVariant = Option (String × String)

-- How a call ends: with the state and the names in `resolved`, or with an exception.
pub data Agreement : Type 0 where
  agreed : ProjectVariant → (resolved : List String) → Agreement
  disagreement : (requester other : String) → Agreement
  load_error : LoadError → Agreement
  key_error : String → Agreement
  out_of_fuel : Agreement

abbrev pub project_variant_of : Strings → LoadElement → Loaded (Option String)
project_variant_of p e = optional p "project-variant" e.fields

abbrev pub and_then : Agreement → (ProjectVariant → List String → Agreement) → Agreement
and_then (agreed v resolved) next = next v resolved
and_then other next = other

-- An element requests a project variant, or none.
unfoldable pub request : String → Option String → ProjectVariant → List String → Agreement
request n none current resolved = agreed current resolved
request n (some v) none resolved = agreed (some (v, n)) resolved
request n (some v) (some (w, requester)) resolved =
    if string_eq.beq v w then agreed (some (w, requester)) resolved else disagreement requester n

-- `for dep in element.deps: self.resolve_project_variant(dep.name, resolved)`
unfoldable pub resolve_each :
    (String → ProjectVariant → List String → Agreement)
    → List Dependency
    → ProjectVariant
    → List String
    → Agreement
resolve_each resolve [] v resolved = agreed v resolved
resolve_each resolve (d ∷ ds) v resolved =
    and_then (resolve d.name v resolved) (resolve_each resolve ds)

-- The last line of a call
abbrev pub mark_resolved : String → Agreement → Agreement
mark_resolved n (agreed v resolved) = agreed v (n ∷ resolved)
mark_resolved n other = other

-- The fuel bounds how deep the calls go.
unfoldable pub resolve_project_variant :
    Strings → Elements → (fuel : ℕ) → String → ProjectVariant → (resolved : List String) → Agreement
unfolding request resolve_each
resolve_project_variant p elements zero n v resolved = out_of_fuel
resolve_project_variant p elements (suc fuel) n v resolved =
    let inner : Agreement = elim (lookup n elements) [
      | none ↦ key_error n
      | some e ↦ elim (project_variant_of p e) [
        | failed x ↦ load_error x
        | loaded wanted ↦ and_then (request n wanted v resolved) λ v' names.
            mark_resolved n (resolve_each (resolve_project_variant p elements fuel) e.deps v' names)
      ]
    ] in
    if contains resolved n then agreed v resolved else inner
