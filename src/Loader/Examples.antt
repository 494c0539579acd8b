-- ===== src/Loader/Examples.antt =====
-- The loader at small projects: tests, and the theorems applied.
use bst_staging.Prelude.{
  String, ◌≡◌, ◌≢◌, refl, List, [], ◌∷◌, ◌++◌, Option, none, some, arith, string_eq,
}
use bst_staging.Yaml.Node.{end}
use bst_staging.Loader.LoadElement.{
  Dependency, Variant, LoadElement, Elements, lookup_variant, deps_for_variant,
}
use bst_staging.Loader.Overrides.{
  first_on, last_on, or_else, filenames, IsUnambiguous, deps_for_variant_lem,
}
use bst_staging.Loader.Circular.{checked, circular_dependency, check_circular_deps}
use bst_staging.Loader.Cycles.{Decides, check_circular_deps-Decides}

abbrev dependency : String → String → Option String → Dependency
dependency owner n variant = record {
  owner = owner;
  name = n;
  variant_name = variant;
  filename = n;
  dep_type = none;
}

abbrev element : String → List Dependency → LoadElement
element n deps = record {
  name = n;
  fields = end;
  base_deps = deps;
  variants = [];
  deps = deps;
  variant_name = none;
}

abbrev project : Elements
project =
    (
      "app.bst",
      element "app.bst"
          (dependency "app.bst" "lib.bst" none ∷ dependency "app.bst" "base.bst" none ∷ []),
    )
    ∷ ("lib.bst", element "lib.bst" (dependency "lib.bst" "base.bst" none ∷ []))
    ∷ ("base.bst", element "base.bst" [])
    ∷ []

check_test :
    check_circular_deps project 4 [] "app.bst" []
    ≡ checked ("app.bst" ∷ "lib.bst" ∷ "base.bst" ∷ [])
unfolding check_circular_deps
check_test = refl

check_circular :
    check_circular_deps
      (("a.bst", element "a.bst" (dependency "a.bst" "a.bst" none ∷ [])) ∷ [])
      2
      []
      "a.bst"
      []
    ≡ circular_dependency "a.bst"
unfolding check_circular_deps
check_circular = refl

check_circular_deps-Decides_example :
    Decides project "app.bst" (check_circular_deps project 4 [] "app.bst" [])
check_circular_deps-Decides_example = check_circular_deps-Decides project 4 "app.bst" (omega arith)

-- A variant that asks for another variant of one dependency and adds a dependency of its own
abbrev debug : Variant
debug = record {
  fields = end;
  name = "debug";
  dependencies =
      dependency "app.bst" "lib.bst" (some "debug") ∷ dependency "app.bst" "gdb.bst" none ∷ [];
}

abbrev app : LoadElement
app =
    record (element "app.bst"
      (dependency "app.bst" "lib.bst" none ∷ dependency "app.bst" "base.bst" none ∷ [])) {
        variants = debug ∷ [];
      }

deps_test :
    deps_for_variant (some "debug") app
    ≡ dependency "app.bst" "lib.bst" (some "debug")
      ∷ dependency "app.bst" "base.bst" none
      ∷ dependency "app.bst" "gdb.bst" none
      ∷ []
unfolding deps_for_variant
deps_test = refl

debug_named : ◌≢◌ {A = String} "debug" ""
debug_named = ground (arith, string_eq.beq_iff "debug" "")

debug_found : lookup_variant "debug" app.variants ≡ some debug
unfolding lookup_variant
debug_found = refl

deps_for_variant_lem_example :
    ((f : String)
      → first_on f (deps_for_variant (some "debug") app)
        ≡ or_else (last_on f debug.dependencies) (first_on f app.base_deps))
    × ((more : List String) × (filenames (deps_for_variant (some "debug") app)
          ≡ filenames app.base_deps ++ more))
    × IsUnambiguous (deps_for_variant (some "debug") app)
deps_for_variant_lem_example =
    deps_for_variant_lem "debug" app debug debug_named debug_found (refl, (refl, tt))
