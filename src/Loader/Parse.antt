-- ===== src/Loader/Parse.antt =====
-- From a parsed file to a LoadElement (buildstream/_loader.py): resolve_arch, assert_project_variant,
-- extract_depends_from_node, Variant, LoadElement and apply_element_config.
use bst_staging.Prelude.{
  String, true, Option, none, some, List, [], ◌∷◌, contains, if◌then◌else◌, string_eq,
}
use bst_staging.Yaml.Node.{Node, text, sequence, mapping, Items, nil, item, Fields, end}
use bst_staging.Yaml.Composite.{array_append, composite_dict, ok, type_error}
use bst_staging.Yaml.Get.{
  Strings, invalid_dependency_type, invalid_project_variant, illegal_composite, invalid_dependency,
  single_variant, Loaded, loaded, failed, ◌>>=◌, as_str, as_list, as_mapping, node_get, delete,
}
use bst_staging.Loader.LoadElement.{
  DepType, build, runtime, Dependency, Variant, LoadElement, given, chosen_variant,
}
use bst_staging.Loader.Variants.{LoadElementConfig}

-- The arguments of the loader that a LoadElement is made with
pub record LoadOptions : Type 0 where
  pub host_arch : String
  pub target_arch : Option String
  pub project_variants : List String

-- An optional string of a dictionary: the empty one counts as none.
unfoldable pub optional : Strings → String → Fields → Loaded (Option String)
optional p k fs = node_get (as_str p) (some (text "")) k fs >>= λ s. loaded (given (some s))

-- composite_dict with ARRAY_APPEND, type safe
unfoldable pub composite_into : Fields → Fields → Loaded Fields
composite_into target source = elim (composite_dict array_append true [] target source) [
  | ok fs ↦ loaded fs
  | type_error e ↦ failed (illegal_composite "")
]

-- An empty dictionary is false, and is not composited.
abbrev pub composite_given : Fields → Fields → Loaded Fields
composite_given target end = loaded target
composite_given target source = composite_into target source

-- resolve_single_arch_conditional
unfoldable pub resolve_single_arch_conditional :
    String → (active_arch : String) → Fields → Loaded Fields
unfolding composite_into
resolve_single_arch_conditional symbol active_arch fs =
    node_get as_mapping (some (mapping end)) symbol fs >>= λ arches.
    node_get as_mapping (some (mapping end)) active_arch arches >>= λ arch.
    composite_given fs arch >>= λ fs'. loaded (delete symbol fs')

abbrev pub arch_of : LoadOptions → String
arch_of o = elim (given o.target_arch) [ none ↦ o.host_arch | some a ↦ a ]

unfoldable pub resolve_arch : LoadOptions → Fields → Loaded Fields
unfolding resolve_single_arch_conditional
resolve_arch o fs = resolve_single_arch_conditional "host-arches" o.host_arch fs >>= λ fs'.
    resolve_single_arch_conditional "arches" (arch_of o) fs'

unfoldable pub assert_project_variant : Strings → LoadOptions → Fields → Loaded (Option String)
unfolding optional
assert_project_variant p o fs = optional p "project-variant" fs >>= λ variant. elim variant [
  | none ↦ loaded none
  | some v ↦
      if contains o.project_variants v then loaded (some v) else failed (invalid_project_variant v)
]

-- "type" of a dependency: none for a missing, an empty one and "all"
unfoldable pub dep_type_of : String → Loaded (Option DepType)
dep_type_of s =
    if string_eq.beq s ""
    then loaded none
    else if string_eq.beq s "all"
    then loaded none
    else if string_eq.beq s "build"
    then loaded (some build)
    else if string_eq.beq s "runtime"
    then loaded (some runtime)
    else failed (invalid_dependency_type s)

-- One item of "depends"
unfoldable pub parse_dependency : Strings → (owner : String) → Node → Loaded Dependency
unfolding optional dep_type_of
parse_dependency p owner (text n) =
    loaded (record { owner = owner; name = n; variant_name = none; filename = n; dep_type = none })
parse_dependency p owner (mapping fs) = optional p "variant" fs >>= λ variant.
    node_get (as_str p) (some (text "")) "type" fs >>= λ s. dep_type_of s >>= λ dep_type.
    node_get (as_str p) none "filename" fs >>= λ filename. loaded (record {
      owner = owner;
      name = filename;
      variant_name = variant;
      filename = filename;
      dep_type = dep_type;
    })
parse_dependency p owner _ = failed invalid_dependency

unfoldable pub parse_dependencies : Strings → (owner : String) → Items → Loaded (List Dependency)
unfolding parse_dependency
parse_dependencies p owner nil = loaded []
parse_dependencies p owner (item v rest) =
    parse_dependency p owner v >>= λ d. parse_dependencies p owner rest >>= λ ds. loaded (d ∷ ds)

unfoldable pub extract_depends_from_node :
    Strings → (owner : String) → Fields → Loaded (List Dependency × Fields)
unfolding parse_dependencies
extract_depends_from_node p owner fs =
    node_get as_list (some (sequence nil)) "depends" fs >>= λ depends.
    parse_dependencies p owner depends >>= λ ds. loaded (ds, delete "depends" fs)

-- Variant.__init__, and the resolution of its arches
unfoldable pub new_variant : Strings → LoadOptions → (owner : String) → Fields → Loaded Variant
unfolding extract_depends_from_node assert_project_variant resolve_arch
new_variant p o owner fs = node_get (as_str p) none "variant" fs >>= λ n.
    extract_depends_from_node p owner fs >>= λ extracted.
    assert_project_variant p o extracted.1 >>= λ _.
    resolve_arch o (delete "variant" extracted.1) >>= λ fs'.
    loaded (record { fields = fs'; name = n; dependencies = extracted.0 })

unfoldable pub new_variants :
    Strings → LoadOptions → (owner : String) → Items → Loaded (List Variant)
unfolding new_variant
new_variants p o owner nil = loaded []
new_variants p o owner (item v rest) = as_mapping "variants" v >>= λ fs.
    new_variant p o owner fs >>= λ x. new_variants p o owner rest >>= λ xs. loaded (x ∷ xs)

-- A single variant is refused.
abbrev pub not_single : List Variant → Loaded (List Variant)
not_single (v ∷ []) = failed single_variant
not_single vs = loaded vs

-- LoadElement.__init__
unfoldable pub new_load_element :
    Strings → LoadOptions → (filename : String) → Fields → Loaded LoadElement
unfolding new_variants
new_load_element p o filename data_fields = resolve_arch o data_fields >>= λ fs.
    assert_project_variant p o fs >>= λ _. extract_depends_from_node p filename fs >>= λ extracted.
    node_get as_list (some (sequence nil)) "variants" extracted.1 >>= λ nodes.
    new_variants p o filename nodes >>= λ all_variants. not_single all_variants >>= λ variants.
    loaded (record {
      name = filename;
      fields = delete "variants" extracted.1;
      base_deps = extracted.0;
      variants = variants;
      deps = [];
      variant_name = none;
    })

-- apply_element_config
unfoldable pub apply_element_config : LoadElement → LoadElementConfig → Loaded LoadElement
unfolding composite_into
apply_element_config e c = elim (chosen_variant (given c.variant_name) e.variants) [
  | none ↦ loaded (record e { variant_name = c.variant_name; deps = c.deps })
  | some v ↦ composite_into e.fields v.fields >>= λ fs.
      loaded (record e { fields = fs; variant_name = c.variant_name; deps = c.deps })
]
