-- ===== src/Yaml/KeyWise.antt =====
-- composite_dict works key by key: what stands at a key of the result depends on that key alone.
use mathlib.Core.Path.{subst}
use bst_staging.Prelude.{
  String, ◌≡◌, refl, Bool, false, Option, none, some, List, [], ◌∷◌, ◌++◌, arith, inl, inr,
  Bool-cases, string_eq, if◌then◌else◌, sym, ap, ◌∙◌,
}
use bst_staging.Yaml.Node.{
  Node, null, boolean, number, decimal, text, sequence, mapping, Fields, end, field, mapping_kind,
  kind_of, get, put,
}
use bst_staging.Yaml.Composite.{
  CompositePolicy, CompositeTypeError, Result, ok, type_error, ◌>>=◌, value_at, clashes, combine,
  target_fields, composite_dict,
}

pub get-put :
    (k j : String) (v : Node) (fs : Fields)
    → get j (put k v fs) ≡ (if string_eq.beq k j then some v else get j fs)
unfolding get put
get-put k j v end = refl
get-put k j v (field i w fs) =
    ground
      (arith, string_eq.beq_iff k j, string_eq.beq_iff i k, string_eq.beq_iff i j, get-put k j v fs)

-- No key of a dictionary occurs twice, at any depth.
abbrev pub HasKeysOnce : Fields → Type 0
HasKeysOnce end = Unit
HasKeysOnce (field k (mapping inner) rest) =
    (get k rest ≡ none) × HasKeysOnce inner × HasKeysOnce rest
HasKeysOnce (field k v rest) = (get k rest ≡ none) × HasKeysOnce rest

bind_mapping :
    (r : Result Fields) (g : Node → Result Fields)
    → (r >>= λ fs. g (mapping fs)) ≡ (r >>= (λ fs. ok (mapping fs)) >>= g)
bind_mapping (ok fs) g = refl
bind_mapping (type_error e) g = refl

bind_fields :
    (o : Option Fields) (e : CompositeTypeError) (r : Fields → Result Fields)
    (g : Node → Result Fields)
    → ◌≡◌ {A = Result Fields}
        (elim o [ none ↦ type_error e | some fs ↦ r fs >>= λ fs'. g (mapping fs') ])
        ((elim o as (λ _. Result Node) [
          | none ↦ type_error e
          | some fs ↦ r fs >>= λ fs'. ok (mapping fs')
        ])
          >>= g)
bind_fields none e r g = refl
bind_fields (some fs) e r g = bind_mapping (r fs) g

>>=-eq-ok :
    {A B : Type 0} {end : B} (next : A → Result B) (first : Result A)
    → (first >>= next) ≡ ok end
    → (mid : A) × (next mid ≡ ok end) × (first ≡ ok mid)
>>=-eq-ok next (type_error wrong) e = cc
>>=-eq-ok next (ok mid) e = (mid, e, refl)

module _ (policy : CompositePolicy) (typesafe : Bool) where
  -- What composition makes of one value of the source and the value at its key in the target.
  abbrev pub composite_value : List String → Node → Node → Result Node
  composite_value path old (mapping inner) = elim (target_fields old) [
    | none ↦
        type_error (record { path = path; expected_type = kind_of old; actual_type = mapping_kind })
    | some fs ↦ composite_dict policy typesafe path fs inner >>= λ fs'. ok (mapping fs')
  ]
  composite_value path old new =
      if clashes typesafe old new
      then type_error
          (record { path = path; expected_type = kind_of old; actual_type = kind_of new })
      else ok (combine policy old new)

  -- One round of the loop composes one value and goes on.
  pub composite_dict-field :
      (path : List String) (target : Fields) (k : String) (v : Node) (rest : Fields)
      → composite_dict policy typesafe path target (field k v rest) ≡ (
          composite_value (path ++ (k ∷ [])) (value_at k target) v >>= λ v'.
          composite_dict policy typesafe path (put k v' target) rest)
  unfolding composite_dict
  composite_dict-field path target k (mapping inner) rest =
      bind_fields (target_fields (value_at k target)) _ _ _
  composite_dict-field path target k null rest = ground arith
  composite_dict-field path target k (boolean b) rest = ground arith
  composite_dict-field path target k (number n) rest = ground arith
  composite_dict-field path target k (decimal n) rest = ground arith
  composite_dict-field path target k (text s) rest = ground arith
  composite_dict-field path target k (sequence xs) rest = ground arith

-- What a successful composition leaves at a key.
abbrev pub IsComposedAt :
    CompositePolicy → Bool → List String → Fields → Fields → Fields → String → Type 0
IsComposedAt policy typesafe path target source result k =
    (get k source ≡ none → get k result ≡ get k target)
    × ((v : Node)
        → get k source ≡ some v
        → (v' : Node) × (get k result ≡ some v')
          × (composite_value policy typesafe (path ++ (k ∷ [])) (value_at k target) v ≡ ok v'))

tail-HasKeysOnce :
    (k : String) (v : Node) (rest : Fields)
    → HasKeysOnce (field k v rest)
    → (get k rest ≡ none) × HasKeysOnce rest
tail-HasKeysOnce k (mapping inner) rest h = (h.0, h.2)
tail-HasKeysOnce k null rest h = h
tail-HasKeysOnce k (boolean b) rest h = h
tail-HasKeysOnce k (number n) rest h = h
tail-HasKeysOnce k (decimal n) rest h = h
tail-HasKeysOnce k (text s) rest h = h
tail-HasKeysOnce k (sequence xs) rest h = h

-- A successful composition of a field, taken apart
pub composed_field :
    (policy : CompositePolicy) (typesafe : Bool) (path : List String) (target : Fields) (k : String)
    (v : Node) (rest result : Fields)
    → composite_dict policy typesafe path target (field k v rest) ≡ ok result
    → (v' : Node) × (composite_value policy typesafe (path ++ (k ∷ [])) (value_at k target) v
        ≡ ok v')
      × (composite_dict policy typesafe path (put k v' target) rest ≡ ok result)
composed_field policy typesafe path target k v rest result e =
    let (v', later, now) =
      >>=-eq-ok (λ v'. composite_dict policy typesafe path (put k v' target) rest)
        (composite_value policy typesafe (path ++ (k ∷ [])) (value_at k target) v)
        (sym (composite_dict-field policy typesafe path target k v rest) ∙ e) in
    (v', now, later)

get-field_self : (k : String) (v : Node) (rest : Fields) → get k (field k v rest) ≡ some v
unfolding get
get-field_self k v rest = ground (arith, string_eq.beq_iff k k)

get-field_other :
    (j k : String) (v : Node) (rest : Fields)
    → string_eq.beq j k ≡ false
    → get k (field j v rest) ≡ get k rest
unfolding get
get-field_other j k v rest h = rw h

value_at-put :
    (j k : String) (v : Node) (fs : Fields)
    → string_eq.beq j k ≡ false
    → value_at k (put j v fs) ≡ value_at k fs
unfolding value_at
value_at-put j k v fs h = ground (arith, get-put j k v fs)

-- A key that the source does not mention keeps its value, and a key that it does mention gets what
-- composition makes of the two values at that key, whatever else the dictionaries hold; for a
-- composition that succeeds and a source that has each key once.
pub composite_dict-IsComposedAt :
    (policy : CompositePolicy) (typesafe : Bool) (path : List String)
    (target source result : Fields) (k : String)
    → HasKeysOnce source
    → composite_dict policy typesafe path target source ≡ ok result
    → IsComposedAt policy typesafe path target source result k
unfolding composite_dict get
composite_dict-IsComposedAt policy typesafe path target end result k h e =
    let same : target ≡ result = cc in (λ _. ap (get k) (sym same), λ v q. cc)
composite_dict-IsComposedAt policy typesafe path target (field j v rest) result k h e =
    let (v', now, later) = composed_field policy typesafe path target j v rest result e in
    let once = tail-HasKeysOnce j v rest h in
    let (kept, composed) =
      composite_dict-IsComposedAt policy typesafe path (put j v' target) rest result k once.1
        later in
    elim (Bool-cases (string_eq.beq j k)) [
      | inl same ↦
          let at : j ≡ k = (string_eq.beq_iff j k).0 same in
          let here =
            subst (λ x. get k (field x v rest) ≡ some v) (sym at) (get-field_self k v rest) in
          let absent = subst (λ x. get x rest ≡ none) at once.0 in
          let now' =
            subst
              (λ x.
                composite_value policy typesafe (path ++ (x ∷ [])) (value_at x target) v ≡ ok v')
              at now in
          let written : get k result ≡ some v' =
            kept absent ∙ get-put j k v' target ∙ rw same refl in
          (
            λ q. cc here,
            λ u q.
                let value : v ≡ u = cc here in
                (
                  v',
                  written,
                  subst
                      (λ x.
                        composite_value policy typesafe (path ++ (k ∷ [])) (value_at k target) x
                        ≡ ok v')
                      value now',
                ),
          )
      | inr other ↦
          let there = get-field_other j k v rest other in
          (
            λ q. kept (sym there ∙ q) ∙ get-put j k v' target ∙ rw other refl,
            λ u q.
                let (u', found, made) = composed u (sym there ∙ q) in
                (
                  u',
                  found,
                  subst (λ x. composite_value policy typesafe (path ++ (k ∷ [])) x u ≡ ok u')
                      (value_at-put j k v' target other) made,
                ),
          )
    ]
