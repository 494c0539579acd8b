-- ===== src/Loader/LoadElement.antt =====
-- The loader's own types (buildstream/_loader.py): Dependency, Variant and LoadElement.
use bst_staging.Prelude.{String, Option, none, some, List, [], ◌∷◌, string_eq, if◌then◌else◌}
use bst_staging.Yaml.Node.{Fields}

-- Symbol.BUILD and Symbol.RUNTIME
pub data DepType : Type 0 where
  build runtime : DepType

pub record Dependency : Type 0 where
  pub owner : String
  pub name : String
  pub variant_name : Option String
  pub filename : String
  pub dep_type : Option DepType

pub record Variant : Type 0 where
  pub fields : Fields
  pub name : String
  pub dependencies : List Dependency

pub record LoadElement : Type 0 where
  pub name : String
  pub fields : Fields
  pub base_deps : List Dependency
  pub variants : List Variant
  pub deps : List Dependency
  pub variant_name : Option String

-- The loader's dictionary `elements`
abbrev pub Elements : Type 0
Elements = List (String × LoadElement)

-- Python's truth of an optional name: the empty name counts as none.
abbrev pub given : Option String → Option String
given none = none
given (some n) = if string_eq.beq n "" then none else some n

unfoldable pub lookup_variant : String → List Variant → Option Variant
lookup_variant n [] = none
lookup_variant n (v ∷ vs) =
    let rest = lookup_variant n vs in if string_eq.beq v.name n then some v else rest

-- The inner loop of `deps_for_variant`: replace the dependency on the same file, or append.
unfoldable pub override_dep : Dependency → List Dependency → List Dependency
override_dep d [] = d ∷ []
override_dep d (x ∷ xs) =
    let rest = override_dep d xs in if string_eq.beq x.filename d.filename then d ∷ xs else x ∷ rest

unfoldable pub override_deps : List Dependency → List Dependency → List Dependency
unfolding override_dep
override_deps [] deps = deps
override_deps (d ∷ ds) deps = override_deps ds (override_dep d deps)

abbrev pub chosen_variant : Option String → List Variant → Option Variant
chosen_variant none vs = none
chosen_variant (some n) vs = lookup_variant n vs

unfoldable pub deps_for_variant : Option String → LoadElement → List Dependency
unfolding lookup_variant override_deps
deps_for_variant variant_name e = elim (chosen_variant (given variant_name) e.variants) [
  | none ↦ e.base_deps
  | some v ↦ override_deps v.dependencies e.base_deps
]
