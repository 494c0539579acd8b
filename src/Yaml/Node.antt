-- ===== src/Yaml/Node.antt =====
-- The values that buildstream/_yaml.py works on. The provenance that the code keeps in a dictionary
-- under a key of its own, for error messages, is not part of a value here. A float is a `decimal`, of
-- which only the type counts.
use bst_staging.Prelude.{ℕ, String, Bool, true, false, Option, none, some, string_eq, if◌then◌else◌}

mutual
  pub data Node : Type 0 where
    null : Node
    boolean : Bool → Node
    number : ℕ → Node
    decimal : ℕ → Node
    text : String → Node
    sequence : Items → Node
    mapping : Fields → Node

  pub data Items : Type 0 where
    nil : Items
    item : Node → Items → Items

  pub data Fields : Type 0 where
    end : Fields
    field : String → Node → Fields → Fields

-- The Python type of a value
pub data Kind : Type 0 where
  null_kind boolean_kind number_kind decimal_kind text_kind sequence_kind mapping_kind : Kind

unfoldable pub kind_of : Node → Kind
kind_of null = null_kind
kind_of (boolean b) = boolean_kind
kind_of (number n) = number_kind
kind_of (decimal n) = decimal_kind
kind_of (text s) = text_kind
kind_of (sequence xs) = sequence_kind
kind_of (mapping fs) = mapping_kind

-- isinstance(value, type): a bool is an int too, but no float is.
unfoldable pub is_instance : Kind → Kind → Bool
is_instance null_kind null_kind = true
is_instance boolean_kind boolean_kind = true
is_instance boolean_kind number_kind = true
is_instance number_kind number_kind = true
is_instance decimal_kind decimal_kind = true
is_instance text_kind text_kind = true
is_instance sequence_kind sequence_kind = true
is_instance mapping_kind mapping_kind = true
is_instance _ _ = false

-- node.get(key)
unfoldable pub get : String → Fields → Option Node
get k end = none
get k (field j v fs) = let rest = get k fs in if string_eq.beq j k then some v else rest

-- node[key] = value
unfoldable pub put : String → Node → Fields → Fields
put k v end = field k v end
put k v (field j w fs) =
    let rest = put k v fs in if string_eq.beq j k then field k v fs else field j w rest

-- The list `xs + ys`
unfoldable pub append : Items → Items → Items
append nil ys = ys
append (item x xs) ys = item x (append xs ys)
