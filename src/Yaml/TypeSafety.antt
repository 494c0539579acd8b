-- ===== src/Yaml/TypeSafety.antt =====
-- A type safe composition never changes the type of a value that the target has.
use mathlib.Core.Path.{subst}
use bst_staging.Prelude.{
  String, ◌≡◌, refl, Bool, true, false, some, List, [], ◌∷◌, ◌++◌, arith, inl, inr, Bool-cases,
  string_eq, ◌∙◌,
}
use bst_staging.Yaml.Node.{
  Node, null, mapping, Fields, end, field, Kind, kind_of, is_instance, get, put,
}
use bst_staging.Yaml.Composite.{
  CompositePolicy, overwrite, array_append, ok, value_at, clashes, combine, target_fields,
  composite_dict,
}
use bst_staging.Yaml.KeyWise.{composite_value, composed_field, get-put}

is_instance_trans :
    (a b c : Kind) → is_instance a b ≡ true → is_instance b c ≡ true → is_instance a c ≡ true
unfolding is_instance
is_instance_trans a b c h k = ground arith

is_instance_refl : (a : Kind) → is_instance a a ≡ true
unfolding is_instance
is_instance_refl a = ground arith

abbrev pub is_null : Node → Bool
is_null null = true
is_null _ = false

composite_value-kind :
    (policy : CompositePolicy) (path : List String) (old v v' : Node)
    → is_null old ≡ false
    → composite_value policy true path old v ≡ ok v'
    → (is_instance (kind_of v') (kind_of old) ≡ true) × (is_null v' ≡ false)
unfolding clashes combine target_fields kind_of is_instance
composite_value-kind policy path old (mapping inner) v' h e = ground arith
composite_value-kind overwrite path old v v' h e = ground arith
composite_value-kind array_append path old v v' h e = ground arith

-- The value at a key of a dictionary that has one there, and one that is not null.
abbrev HasValue : String → Fields → Kind → Type 0
HasValue k fs kind =
    (v : Node) × (get k fs ≡ some v) × (is_instance (kind_of v) kind ≡ true) × (is_null v ≡ false)

put-HasValue :
    (policy : CompositePolicy) (path : List String) (target : Fields) (j k : String) (v v' : Node)
    (kind : Kind)
    → composite_value policy true (path ++ (j ∷ [])) (value_at j target) v ≡ ok v'
    → HasValue k target kind
    → HasValue k (put j v' target) kind
unfolding value_at
put-HasValue policy path target j k v v' kind now (old, found, fits, there) =
    elim (Bool-cases (string_eq.beq j k)) [
      | inr other ↦ (old, get-put j k v' target ∙ rw other found, fits, there)
      | inl same ↦
          let at : j ≡ k = (string_eq.beq_iff j k).0 same in
          let old_at : value_at j target ≡ old = rw (at, value_at) (rw found refl) in
          let (fits', there') =
            composite_value-kind policy (path ++ (j ∷ [])) old v v' there (rw old_at at now) in
          (
            v',
            get-put j k v' target ∙ rw same refl,
            is_instance_trans (kind_of v') (kind_of old) kind fits' fits,
            there',
          )
    ]

composite_dict-HasValue :
    (policy : CompositePolicy) (path : List String) (target source result : Fields) (k : String)
    (kind : Kind)
    → composite_dict policy true path target source ≡ ok result
    → HasValue k target kind
    → HasValue k result kind
unfolding composite_dict
composite_dict-HasValue policy path target end result k kind e h =
    let same : target ≡ result = cc in subst (λ fs. HasValue k fs kind) same h
composite_dict-HasValue policy path target (field j v rest) result k kind e h =
    let (v', now, later) = composed_field policy true path target j v rest result e in
    composite_dict-HasValue policy path (put j v' target) rest result k kind later
      (put-HasValue policy path target j k v v' kind now h)

-- A type safe composition that succeeds keeps every value of the target that is not null, as a
-- value of the same type (a bool may come to stand where an int stood), and not null.
pub composite_dict-keeps_kind :
    (policy : CompositePolicy) (path : List String) (target source result : Fields) (k : String)
    (old : Node)
    → composite_dict policy true path target source ≡ ok result
    → get k target ≡ some old
    → is_null old ≡ false
    → (new : Node) × (get k result ≡ some new)
      × (is_instance (kind_of new) (kind_of old) ≡ true)
      × (is_null new ≡ false)
composite_dict-keeps_kind policy path target source result k old e found h =
    composite_dict-HasValue policy path target source result k (kind_of old) e
      (old, found, is_instance_refl (kind_of old), h)
