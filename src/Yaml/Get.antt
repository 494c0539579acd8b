-- ===== src/Yaml/Get.antt =====
-- node_get and its errors (buildstream/_yaml.py). Python's own str() of a scalar and str.strip are
-- a parameter.
use bst_staging.Prelude.{String, Option, none, some, if◌then◌else◌, string_eq}
use bst_staging.Yaml.Node.{Node, null, text, sequence, mapping, Items, Fields, end, field, get}

-- str(value) of a scalar, and str.strip
pub record Strings : Type 0 where
  pub str_of : Node → String
  pub strip : String → String

-- LoadErrorReason, with what the message names
pub data LoadError : Type 0 where
  missing_key wrong_type : (key : String) → LoadError
  invalid_dependency_type invalid_project_variant illegal_composite missing_file :
      String → LoadError
  invalid_dependency single_variant invalid_variant variant_disagreement : LoadError

pub data Loaded (A : Type 0) : Type 0 where
  loaded : A → Loaded A
  failed : LoadError → Loaded A

infixl 5 ◌>>=◌
abbrev pub ◌>>=◌ : {A B : Type 0} → Loaded A → (A → Loaded B) → Loaded B
loaded a >>= next = next a
failed e >>= next = failed e

-- `node.get(key, default_value)`; a null value counts as a missing one, without the default.
unfoldable pub value_or : Option Node → String → Fields → Option Node
value_or default k fs = elim (get k fs) [ none ↦ default | some null ↦ none | some v ↦ some v ]

-- The conversions to str; lists and dictionaries are not converted.
unfoldable pub as_str : Strings → String → Node → Loaded String
as_str p k (text s) = loaded (p.strip s)
as_str p k (sequence xs) = failed (wrong_type k)
as_str p k (mapping fs) = failed (wrong_type k)
as_str p k v = loaded (p.strip (p.str_of v))

unfoldable pub as_list : String → Node → Loaded Items
as_list k (sequence xs) = loaded xs
as_list k _ = failed (wrong_type k)

unfoldable pub as_mapping : String → Node → Loaded Fields
as_mapping k (mapping fs) = loaded fs
as_mapping k _ = failed (wrong_type k)

abbrev pub node_get :
    {A : Type 0} → (String → Node → Loaded A) → Option Node → String → Fields → Loaded A
node_get convert default k fs = elim (value_or default k fs) [
  | none ↦ failed (missing_key k)
  | some v ↦ convert k v
]

-- `del node[key]`
unfoldable pub delete : String → Fields → Fields
delete k end = end
delete k (field j v fs) =
    let rest = delete k fs in if string_eq.beq j k then rest else field j v rest
