-- ===== src/Loader/Variants.antt =====
-- The choice of variants (buildstream/_loader.py): LoadElementConfig, try_element_configuration and
-- configure_dependency_variants. An element is loaded once, under its filename, so its identity in
-- the code is the filename here. Of an exception only the class is kept.
use bst_staging.Prelude.{
  ℕ, zero, suc, String, Bool, true, false, Option, none, some, List, [], ◌∷◌, map, lookup, insert,
  if◌then◌else◌, string_eq,
}
use bst_staging.Loader.LoadElement.{Dependency, LoadElement, Elements, given, deps_for_variant}

pub record LoadElementConfig : Type 0 where
  pub filename : String
  pub variant_name : Option String
  pub deps : List Dependency

unfoldable pub new_config : LoadElement → Option String → LoadElementConfig
new_config e variant_name = record {
  filename = e.name;
  variant_name = variant_name;
  deps = deps_for_variant variant_name e;
}

-- The dictionaries `pool` and `restriction_pool`
abbrev pub Pool : Type 0
Pool = List (String × LoadElementConfig)

abbrev pub Restrictions : Type 0
Restrictions = List (String × String)

-- How an attempt ends: with the new pools, with VariantDisagreement, with a KeyError on
-- `self.elements`, or without fuel.
pub data Attempt : Type 0 where
  resolved : Pool → Restrictions → Attempt
  disagreement key_error out_of_fuel : Attempt

-- `a == b` on optional names
unfoldable pub same_variant : Option String → Option String → Bool
same_variant none none = true
same_variant (some m) (some n) = string_eq.beq m n
same_variant _ _ = false

-- Whether a configuration wants another variant than the restriction on its element.
unfoldable pub is_restricted : Restrictions → LoadElementConfig → Bool
is_restricted r c = elim (lookup c.filename r) [
  | none ↦ false
  | some wanted ↦ elim (given c.variant_name) [
    | none ↦ false
    | some v ↦ if string_eq.beq v wanted then false else true
  ]
]

-- The loop over `element_config.deps` that adds restrictions
unfoldable pub restrict : List Dependency → Restrictions → Restrictions
restrict [] r = r
restrict (d ∷ ds) r = elim (given d.variant_name) [
  | none ↦ restrict ds r
  | some v ↦ restrict ds (insert d.name v r)
]

-- `try_element_configuration`, where `configure` is `configure_dependency_variants`.
unfoldable pub try_element_configuration :
    (configure : List Dependency → Pool → Restrictions → Attempt)
    → LoadElementConfig
    → Pool
    → Restrictions
    → Attempt
unfolding same_variant is_restricted restrict
try_element_configuration configure c pool r = elim (lookup c.filename pool) [
  | some config ↦
      if same_variant config.variant_name c.variant_name then resolved pool r else disagreement
  | none ↦
      let deeper = configure c.deps (insert c.filename c pool) (restrict c.deps r) in
      if is_restricted r c then disagreement else deeper
]

-- The variants of `element_configs_to_try`
unfoldable pub variants_to_try : Dependency → LoadElement → List (Option String)
variants_to_try d e = elim (given d.variant_name) [
  | some v ↦ some v ∷ []
  | none ↦ elim e.variants [ [] ↦ none ∷ [] | v ∷ vs ↦ map (λ x. some x.name) (v ∷ vs) ]
]

-- The recursion into the sibling elements
abbrev pub then_siblings : (Pool → Restrictions → Attempt) → Attempt → Attempt
then_siblings siblings (resolved pool r) = siblings pool r
then_siblings siblings other = other

-- The loop over `element_configs_to_try`: the first one without any disagreement.
unfoldable pub first_valid : (Option String → Attempt) → List (Option String) → Attempt
first_valid attempt [] = disagreement
first_valid attempt (v ∷ vs) = elim (attempt v) [
  | disagreement ↦ first_valid attempt vs
  | other ↦ other
]

-- The fuel bounds how deep the calls go.
unfoldable pub configure_dependency_variants :
    Elements → (fuel : ℕ) → List Dependency → Pool → Restrictions → Attempt
unfolding new_config variants_to_try first_valid try_element_configuration
configure_dependency_variants elements zero deps pool r = out_of_fuel
configure_dependency_variants elements (suc fuel) [] pool r = resolved pool r
configure_dependency_variants elements (suc fuel) (d ∷ ds) pool r = elim (lookup d.name elements) [
  | none ↦ key_error
  | some e ↦
      first_valid
        (λ v. then_siblings (configure_dependency_variants elements fuel ds) (
          try_element_configuration (configure_dependency_variants elements fuel) (new_config e v)
            pool r))
        (variants_to_try d e)
]

-- The variant of the target: the one that was asked for, or else the first one.
unfoldable pub toplevel_variant : Option String → LoadElement → Option String
toplevel_variant wanted e = elim (given wanted) [
  | some v ↦ wanted
  | none ↦ elim e.variants [ [] ↦ wanted | v ∷ vs ↦ some v.name ]
]

-- `resolve_variants` up to the pool that it applies
unfoldable pub resolve_variants :
    Elements → (fuel : ℕ) → (target : String) → (target_variant : Option String) → Attempt
unfolding toplevel_variant
resolve_variants elements fuel target target_variant = elim (lookup target elements) [
  | none ↦ key_error
  | some e ↦
      try_element_configuration (configure_dependency_variants elements fuel)
        (new_config e (toplevel_variant target_variant e)) [] []
]
