-- ===== src/Loader/VariantExamples.antt =====
-- The choice of variants at small projects: tests, and the theorems applied.
use bst_staging.Prelude.{
  String, ◌≡◌, ◌≢◌, ◌≤◌, length, subst, Option-cases, refl, List, [], ◌∷◌, Option, none, some,
  arith, All, lookup, string_eq, Bool-cases, inl, inr,
}
use bst_staging.Yaml.Node.{end}
use bst_staging.Loader.LoadElement.{
  Dependency, Variant, LoadElement, Elements, lookup_variant, deps_for_variant, given,
}
use bst_staging.Loader.Variants.{
  LoadElementConfig, Pool, resolved, disagreement, out_of_fuel, resolve_variants,
  configure_dependency_variants, new_config,
}
use bst_staging.Loader.Pools.{IsKeyed, IsMet}
use bst_staging.Loader.Consistent.{resolve_variants_consistent}
use bst_staging.Loader.Enough.{HasAtMost, resolve_variants_ends}

abbrev needs : String → Option String → Dependency
needs n variant = record {
  owner = "";
  name = n;
  variant_name = variant;
  filename = n;
  dep_type = none;
}

abbrev variant : String → Variant
variant n = record { fields = end; name = n; dependencies = [] }

abbrev loaded : String → List Dependency → List Variant → LoadElement
loaded n deps variants = record {
  name = n;
  fields = end;
  base_deps = deps;
  variants = variants;
  deps = [];
  variant_name = none;
}

-- The library has two variants, of which the tool needs the second one.
abbrev library : LoadElement
library = loaded "lib.bst" [] (variant "fast" ∷ variant "safe" ∷ [])

abbrev tool : LoadElement
tool = loaded "tool.bst" (needs "lib.bst" (some "safe") ∷ []) []

abbrev app : LoadElement
app = loaded "app.bst" (needs "lib.bst" none ∷ needs "tool.bst" none ∷ []) []

abbrev project : Elements
project = ("app.bst", app) ∷ ("tool.bst", tool) ∷ ("lib.bst", library) ∷ []

-- The first variant disagrees with the tool, so the second one is tried.
abbrev chosen : Pool
chosen =
    ("app.bst", record { filename = "app.bst"; variant_name = none; deps = app.base_deps })
    ∷ ("lib.bst", record { filename = "lib.bst"; variant_name = some "safe"; deps = [] })
    ∷ ("tool.bst", record { filename = "tool.bst"; variant_name = none; deps = tool.base_deps })
    ∷ []

resolved_project :
    resolve_variants project 9 "app.bst" none ≡ resolved chosen (("lib.bst", "safe") ∷ [])
unfolding resolve_variants configure_dependency_variants new_config deps_for_variant
resolved_project = refl

-- With another element between the application and the library, the library's first variant has
-- been settled when the tool disagrees with it, and no other one is tried.
abbrev settled : Elements
settled =
    ("app.bst", loaded "app.bst" (needs "ui.bst" none ∷ needs "tool.bst" none ∷ []) [])
    ∷ ("ui.bst", loaded "ui.bst" (needs "lib.bst" none ∷ []) [])
    ∷ ("tool.bst", tool)
    ∷ ("lib.bst", library)
    ∷ []

settled_too_early : resolve_variants settled 9 "app.bst" none ≡ disagreement
unfolding resolve_variants configure_dependency_variants new_config deps_for_variant
settled_too_early = refl

project-IsKeyed : IsKeyed project
project-IsKeyed n e h = elim (Bool-cases (string_eq.beq "app.bst" n)) [
  | inl a ↦ ground (arith, string_eq.beq_iff "app.bst" n)
  | inr a ↦ elim (Bool-cases (string_eq.beq "tool.bst" n)) [
    | inl b ↦ ground (arith, string_eq.beq_iff "tool.bst" n)
    | inr b ↦ ground (arith, string_eq.beq_iff "lib.bst" n)
  ]
]

resolve_variants_consistent_example :
    ((c : LoadElementConfig) × (lookup {V = LoadElementConfig} "app.bst" chosen ≡ some c))
    × ((k : String) (c : LoadElementConfig)
        → lookup k chosen ≡ some c
        → All (IsMet project chosen) c.deps)
resolve_variants_consistent_example =
    resolve_variants_consistent project 9 "app.bst" none chosen (("lib.bst", "safe") ∷ [])
      project-IsKeyed refl resolved_project

-- Two elements that depend on each other
abbrev circle : Elements
circle =
    ("a.bst", loaded "a.bst" (needs "b.bst" none ∷ []) [])
    ∷ ("b.bst", loaded "b.bst" (needs "a.bst" none ∷ []) [])
    ∷ []

circle-IsKeyed : IsKeyed circle
circle-IsKeyed n e h = elim (Bool-cases (string_eq.beq "a.bst" n)) [
  | inl a ↦ ground (arith, string_eq.beq_iff "a.bst" n)
  | inr a ↦ ground (arith, string_eq.beq_iff "b.bst" n)
]

without_variants :
    (v : Option String) (n : String) (deps : List Dependency)
    → deps_for_variant v (loaded n deps []) ≡ deps
unfolding deps_for_variant lookup_variant
without_variants v n deps = elim (Option-cases (given v)) [
  | inl e ↦ ground (arith, e)
  | inr (x, e) ↦ ground (arith, e)
]

circle-HasAtMost : HasAtMost 1 circle
circle-HasAtMost n e v h = elim (Bool-cases (string_eq.beq "a.bst" n)) [
  | inl a ↦
      let same : loaded "a.bst" (needs "b.bst" none ∷ []) [] ≡ e = ground arith in
      subst (λ x. length (deps_for_variant v x) ≤ 1) same
        (rw (without_variants v "a.bst" (needs "b.bst" none ∷ [])) (omega arith))
  | inr a ↦
      let same : loaded "b.bst" (needs "a.bst" none ∷ []) [] ≡ e = ground arith in
      subst (λ x. length (deps_for_variant v x) ≤ 1) same
        (rw (without_variants v "b.bst" (needs "a.bst" none ∷ [])) (omega arith))
]

resolve_variants_ends_example : resolve_variants circle 5 "a.bst" none ≢ out_of_fuel
resolve_variants_ends_example =
    resolve_variants_ends 1 circle 5 "a.bst" none circle-IsKeyed circle-HasAtMost (omega arith)
