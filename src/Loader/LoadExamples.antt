-- ===== src/Loader/LoadExamples.antt =====
-- Loading at small projects: tests, and the theorems applied.
use bst_staging.Prelude.{
  String, ◌≡◌, ◌≢◌, refl, [], ◌∷◌, none, some, arith, lookup, string_eq, Bool-cases, inl, inr,
  if◌then◌else◌,
}
use bst_staging.Yaml.Node.{text, sequence, mapping, nil, item, Fields, end, field, get}
use bst_staging.Yaml.Get.{
  Strings, as_str, as_list, as_mapping, value_or, delete, missing_file, invalid_variant,
}
use bst_staging.Loader.LoadElement.{build, LoadElement, Elements, lookup_variant}
use bst_staging.Loader.Parse.{LoadOptions, new_load_element}
use bst_staging.Loader.Files.{Project, table, load_error, out_of_fuel, load_file}
use bst_staging.Prelude.{List}
use bst_staging.Loader.LoadElement.{Dependency}
use bst_staging.Loader.Parse.{optional}
use bst_staging.Loader.Circular.{checked, check_circular_deps}
use bst_staging.Loader.ProjectVariant.{agreed, disagreement, resolve_project_variant}
use bst_staging.Loader.Agreeing.{resolve_project_variant_lem}
use bst_staging.Loader.Agreement.{Settles}
use bst_staging.Loader.Closed.{IsClosed, load_file_complete}
use bst_staging.Loader.Ending.{Lists, load_file_ends}

abbrev unchanged : Strings
unchanged = record { str_of = λ v. ""; strip = λ s. s }

abbrev options : LoadOptions
options = record { host_arch = "x86_64"; target_arch = none; project_variants = [] }

-- The library has two variants.
abbrev lib_file : Fields
lib_file =
    field "variants"
      (sequence (
        item (mapping (field "variant" (text "fast") end))
          (item (mapping (field "variant" (text "safe") end)) nil)))
      end

-- The application needs one of them, to be built.
abbrev app_file : String → Fields
app_file v =
    field "depends"
      (sequence (
        item
          (mapping (
            field "filename" (text "lib.bst")
              (field "variant" (text v) (field "type" (text "build") end))))
          nil))
      end

abbrev project : String → Project
project v = record {
  strings = unchanged;
  options = options;
  parsed = λ n.
      if string_eq.beq n "app.bst"
      then some (app_file v)
      else if string_eq.beq n "lib.bst"
      then some lib_file
      else none;
}

abbrev app : LoadElement
app = record {
  name = "app.bst";
  fields = end;
  base_deps =
      record {
        owner = "app.bst";
        name = "lib.bst";
        variant_name = some "safe";
        filename = "lib.bst";
        dep_type = some build;
      }
      ∷ [];
  variants = [];
  deps = [];
  variant_name = none;
}

abbrev lib : LoadElement
lib = record {
  name = "lib.bst";
  fields = end;
  base_deps = [];
  variants =
      record { fields = end; name = "fast"; dependencies = [] }
      ∷ record { fields = end; name = "safe"; dependencies = [] }
      ∷ [];
  deps = [];
  variant_name = none;
}

abbrev both : Elements
both = ("app.bst", app) ∷ ("lib.bst", lib) ∷ []

loaded_both : load_file (project "safe") 3 "app.bst" [] ≡ table both
unfolding load_file new_load_element as_str as_list as_mapping value_or delete get lookup_variant
loaded_both = refl

other_variant : load_file (project "small") 3 "app.bst" [] ≡ load_error invalid_variant
unfolding load_file new_load_element as_str as_list as_mapping value_or delete get lookup_variant
other_variant = refl

no_file : load_file (project "safe") 3 "web.bst" [] ≡ load_error (missing_file "web.bst")
unfolding load_file
no_file = refl

load_file_complete_example :
    ((e : LoadElement) × (lookup "app.bst" both ≡ some e))
    × ((k : String) (e : LoadElement) → lookup k both ≡ some e → IsClosed (project "safe") both k e)
load_file_complete_example = load_file_complete (project "safe") 3 "app.bst" both loaded_both

project-Lists : (v : String) → Lists (project v) ("app.bst" ∷ "lib.bst" ∷ [])
project-Lists v n fs h = elim (Bool-cases (string_eq.beq n "app.bst")) [
  | inl a ↦ ground (arith, string_eq.beq_iff n "app.bst", string_eq.beq_iff "app.bst" n)
  | inr a ↦ elim (Bool-cases (string_eq.beq n "lib.bst")) [
    | inl b ↦ ground (arith, string_eq.beq_iff n "lib.bst", string_eq.beq_iff "lib.bst" n)
    | inr b ↦ absurd (ground arith)
  ]
]

load_file_ends_example : load_file (project "safe") 3 "app.bst" [] ≢ out_of_fuel
load_file_ends_example =
    load_file_ends (project "safe") ("app.bst" ∷ "lib.bst" ∷ []) 3 "app.bst" (project-Lists "safe")
      (omega arith)

-- Two elements that request a project variant each
abbrev requesting : String → String → List Dependency → LoadElement
requesting n v deps = record {
  name = n;
  fields = field "project-variant" (text v) end;
  base_deps = [];
  variants = [];
  deps = deps;
  variant_name = none;
}

abbrev needs_lib : Dependency
needs_lib = record {
  owner = "app.bst";
  name = "lib.bst";
  variant_name = none;
  filename = "lib.bst";
  dep_type = none;
}

abbrev requests : String → Elements
requests v =
    ("app.bst", requesting "app.bst" "debug" (needs_lib ∷ []))
    ∷ ("lib.bst", requesting "lib.bst" v [])
    ∷ []

requests_agree :
    resolve_project_variant unchanged (requests "debug") 3 "app.bst" none []
    ≡ agreed (some ("debug", "app.bst")) ("app.bst" ∷ "lib.bst" ∷ [])
unfolding resolve_project_variant optional as_str value_or get
requests_agree = refl

requests_differ :
    resolve_project_variant unchanged (requests "release") 3 "app.bst" none []
    ≡ disagreement "app.bst" "lib.bst"
unfolding resolve_project_variant optional as_str value_or get
requests_differ = refl

requests_checked :
    check_circular_deps (requests "debug") 3 [] "app.bst" [] ≡ checked ("app.bst" ∷ "lib.bst" ∷ [])
unfolding check_circular_deps
requests_checked = refl

resolve_project_variant_lem_example :
    Settles unchanged
      (requests "debug")
      none
      ("app.bst" ∷ "lib.bst" ∷ [])
      (resolve_project_variant unchanged (requests "debug") 3 "app.bst" none [])
resolve_project_variant_lem_example =
    resolve_project_variant_lem unchanged (requests "debug") 3 "app.bst"
      ("app.bst" ∷ "lib.bst" ∷ []) requests_checked
