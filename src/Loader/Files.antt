-- ===== src/Loader/Files.antt =====
-- Loader.load_file and load_dependency_file (buildstream/_loader.py). The parsed files of the project
-- are a parameter; a file that is not there has none.
use bst_staging.Prelude.{
  ℕ, zero, suc, String, Bool, true, false, Option, none, some, List, [], ◌∷◌, ◌++◌, lookup, insert,
  if◌then◌else◌, string_eq,
}
use bst_staging.Yaml.Node.{Fields}
use bst_staging.Yaml.Get.{Strings, LoadError, missing_file, invalid_variant, Loaded, loaded, failed}
use bst_staging.Loader.LoadElement.{
  Dependency, Variant, LoadElement, Elements, given, lookup_variant,
}
use bst_staging.Loader.Parse.{LoadOptions, new_load_element}

pub record Project : Type 0 where
  pub strings : Strings
  pub options : LoadOptions
  pub parsed : String → Option Fields

-- The outcome of a load; the recursion can run out of fuel.
pub data Files : Type 0 where
  table : Elements → Files
  load_error : LoadError → Files
  out_of_fuel : Files

abbrev pub and_then : Files → (Elements → Files) → Files
and_then (table t) next = next t
and_then other next = other

-- All dependencies that an element can have: the base ones, and those of each variant.
abbrev pub variant_deps : List Variant → List Dependency
variant_deps [] = []
variant_deps (v ∷ vs) = v.dependencies ++ variant_deps vs

abbrev pub possible_deps : LoadElement → List Dependency
possible_deps e = e.base_deps ++ variant_deps e.variants

-- Whether the dependency asks for no variant or for one that the element has
unfoldable pub has_variant : Elements → Dependency → Bool
has_variant t d = elim (lookup d.filename t) [
  | none ↦ false
  | some e ↦ elim (given d.variant_name) [
    | none ↦ true
    | some v ↦ elim (lookup_variant v e.variants) [ none ↦ false | some x ↦ true ]
  ]
]

-- load_dependency_file, for each dependency in turn; `load` is load_file.
unfoldable pub load_each : (String → Elements → Files) → List Dependency → Elements → Files
unfolding has_variant
load_each load [] t = table t
load_each load (d ∷ ds) t =
    and_then (load d.filename t)
      λ t'. if has_variant t' d then load_each load ds t' else load_error invalid_variant

-- The element of a file that is read
unfoldable pub read_element : Project → String → Loaded LoadElement
read_element p filename = elim (p.parsed filename) [
  | none ↦ failed (missing_file filename)
  | some fs ↦ new_load_element p.strings p.options filename fs
]

-- The fuel bounds how deep the calls go.
unfoldable pub load_file : Project → (fuel : ℕ) → String → Elements → Files
unfolding load_each read_element
load_file p zero filename t = out_of_fuel
load_file p (suc fuel) filename t = elim (lookup filename t) [
  | some e ↦ table t
  | none ↦ elim (read_element p filename) [
    | failed e ↦ load_error e
    | loaded e ↦ load_each (load_file p fuel) (possible_deps e) (insert filename e t)
  ]
]
