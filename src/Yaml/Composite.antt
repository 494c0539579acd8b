-- ===== src/Yaml/Composite.antt =====
-- composite_dict of buildstream/_yaml.py.
use bst_staging.Prelude.{
  String, Bool, true, false, not, Option, none, some, List, [], ◌∷◌, ◌++◌, if◌then◌else◌,
}
use bst_staging.Yaml.Node.{
  Node, null, sequence, mapping, Fields, end, field, Kind, mapping_kind, kind_of, is_instance, get,
  put, append,
}

pub data CompositePolicy : Type 0 where
  overwrite array_append : CompositePolicy

-- class CompositeTypeError; a path is the list of its keys.
pub record CompositeTypeError : Type 0 where
  pub path : List String
  pub expected_type : Kind
  pub actual_type : Kind

pub data Result (A : Type 0) : Type 0 where
  ok : A → Result A
  type_error : CompositeTypeError → Result A

infixl 5 ◌>>=◌
abbrev pub ◌>>=◌ : {A B : Type 0} → Result A → (A → Result B) → Result B
ok a >>= f = f a
type_error e >>= f = type_error e

-- `target.get(key)`: Python's None stands for a missing key and for a null value.
unfoldable pub value_at : String → Fields → Node
value_at k fs = elim (get k fs) [ none ↦ null | some v ↦ v ]

-- Whether the type of a new value is refused at an old one.
unfoldable pub clashes : (typesafe : Bool) → Node → Node → Bool
clashes false old new = false
clashes true null new = false
clashes true old new = not (is_instance (kind_of new) (kind_of old))

-- What the code writes for a value that is no dictionary.
unfoldable pub combine : CompositePolicy → Node → Node → Node
combine array_append (sequence xs) (sequence ys) = sequence (append xs ys)
combine policy old new = new

-- The dictionary in the target that a dictionary in the source is composed into, if there is one.
unfoldable pub target_fields : Node → Option Fields
target_fields null = some end
target_fields (mapping fs) = some fs
target_fields _ = none

module _ (policy : CompositePolicy) (typesafe : Bool) where
  -- The path is that of the target; the loop is over the items of the source.
  unfoldable pub composite_dict : List String → Fields → Fields → Result Fields
  composite_dict path target end = ok target
  composite_dict path target (field k (mapping inner) rest) =
      elim (target_fields (value_at k target)) [
        | none ↦ type_error (record {
          path = path ++ (k ∷ []);
          expected_type = kind_of (value_at k target);
          actual_type = mapping_kind;
        })
        | some fs ↦ composite_dict (path ++ (k ∷ [])) fs inner >>= λ fs'.
            composite_dict path (put k (mapping fs') target) rest
      ]
  composite_dict path target (field k new rest) =
      let old = value_at k target in
      let go = composite_dict path (put k (combine policy old new) target) rest in
      if clashes typesafe old new
      then type_error (record {
        path = path ++ (k ∷ []);
        expected_type = kind_of old;
        actual_type = kind_of new;
      })
      else go
