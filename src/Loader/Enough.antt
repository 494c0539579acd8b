-- ===== src/Loader/Enough.antt =====
-- With enough fuel the choice of variants ends: each configuration that is tried takes an element
-- that no configuration in the pool had before.
use bst_staging.Prelude.{
  ℕ, zero, suc, ◌+◌, ◌<◌, ◌≤◌, ◌≡◌, ◌≢◌, refl, sym, subst, String, Bool, true, false, Option, none,
  some, List, [], ◌∷◌, lookup, insert, lookup-insert, arith, if◌then◌else◌, string_eq, length,
  Bool-cases, Option-cases, inl, inr,
}
use bst_staging.Loader.LoadElement.{Dependency, LoadElement, Elements, deps_for_variant}
use bst_staging.Loader.Variants.{
  LoadElementConfig, new_config, Pool, Restrictions, Attempt, resolved, disagreement, key_error,
  out_of_fuel, same_variant, is_restricted, restrict, try_element_configuration, variants_to_try,
  then_siblings, first_valid, configure_dependency_variants, toplevel_variant, resolve_variants,
}
use bst_staging.Loader.Pools.{IsKeyed, IsOneOf, Extends, Configures, OnResolved, insert-Extends}
use bst_staging.Loader.Consistent.{try-Configures, configure-Configures}

-- No element has more than `most` dependencies, whatever its variant is.
abbrev pub HasAtMost : ℕ → Elements → Type 0
HasAtMost most elements =
    (n : String) (e : LoadElement) (v : Option String)
    → lookup n elements ≡ some e
    → length (deps_for_variant v e) ≤ most

-- What is left to configure: each element that the pool does not have, and its dependencies.
abbrev pub left : ℕ → Elements → Pool → ℕ
left most [] pool = 0
left most ((n, e) ∷ elements) pool = elim (lookup n pool) [
  | none ↦ suc most + left most elements pool
  | some c ↦ left most elements pool
]

abbrev Ends : Attempt → Type 0
Ends out_of_fuel = ⊥
Ends _ = Unit

left-Extends :
    (most : ℕ) (elements : Elements) (old new : Pool)
    → Extends old new
    → left most elements new ≤ left most elements old
left-Extends most [] old new x = omega arith
left-Extends most ((n, e) ∷ elements) old new x = elim (Option-cases (lookup n old)) [
  | inl h ↦ elim (Option-cases (lookup n new)) [
    | inl k ↦ ground (arith, h, k, left-Extends most elements old new x)
    | inr (c, k) ↦ ground (arith, h, k, left-Extends most elements old new x)
  ]
  | inr (c, h) ↦ ground (arith, h, x n c h, left-Extends most elements old new x)
]

left-insert :
    (most : ℕ) (elements : Elements) (n : String) (e : LoadElement) (c : LoadElementConfig)
    (pool : Pool)
    → lookup n elements ≡ some e
    → lookup n pool ≡ none
    → left most elements (insert n c pool) + suc most ≤ left most elements pool
left-insert most [] n e c pool found fresh = cc
left-insert most ((j, f) ∷ elements) n e c pool found fresh =
    elim (Bool-cases (string_eq.beq j n)) [
      | inl same ↦
          let name = (string_eq.beq_iff j n).0 same in
          let fresh' : lookup j pool ≡ none = subst (λ k. lookup k pool ≡ none) (sym name) fresh in
          let now : lookup j (insert n c pool) ≡ some c =
            ground (arith, lookup-insert n j c pool, string_eq.beq_iff n j, name) in
          ground (
            arith,
            now,
            fresh',
            left-Extends most elements pool (insert n c pool) (insert-Extends n c pool fresh),
          )
      | inr other ↦
          let found' : lookup n elements ≡ some e = ground arith in
          let kept : lookup j (insert n c pool) ≡ lookup j pool =
            ground
              (arith, lookup-insert n j c pool, string_eq.beq_iff n j, string_eq.beq_iff j n) in
          elim (Option-cases (lookup j pool)) [
            | inl h ↦ ground (arith, kept, h, left-insert most elements n e c pool found' fresh)
            | inr (x, h) ↦
                ground (arith, kept, h, left-insert most elements n e c pool found' fresh)
          ]
    ]

Ends-siblings :
    (P : Pool → Type 0) (siblings : Pool → Restrictions → Attempt) (a : Attempt)
    → Ends a
    → OnResolved P a
    → ((p : Pool) (r : Restrictions) → P p → Ends (siblings p r))
    → Ends (then_siblings siblings a)
Ends-siblings P siblings (resolved p r) h k f = f p r k
Ends-siblings P siblings disagreement h k f = tt
Ends-siblings P siblings key_error h k f = tt
Ends-siblings P siblings out_of_fuel h k f = h

Ends-first_valid :
    (attempt : Option String → Attempt) (vs : List (Option String))
    → ((v : Option String) → IsOneOf v vs → Ends (attempt v))
    → Ends (first_valid attempt vs)
unfolding first_valid
Ends-first_valid attempt [] h = tt
Ends-first_valid attempt (v ∷ vs) h =
    next (attempt v) (h v (inl refl)) (Ends-first_valid attempt vs (λ x m. h x (inr m)))
  where
    next :
        (a : Attempt)
        → Ends a
        → Ends (first_valid attempt vs)
        → Ends (elim a [ disagreement ↦ first_valid attempt vs | other ↦ other ])
    next (resolved p r) h k = tt
    next disagreement h k = k
    next key_error h k = tt
    next out_of_fuel h k = h

Ends-guard : (b : Bool) (a : Attempt) → Ends a → Ends (if b then disagreement else a)
Ends-guard true a h = tt
Ends-guard false a h = h

module _ (most : ℕ) (elements : Elements) (keyed : IsKeyed elements)
    (bounded : HasAtMost most elements) where
  -- The measure of a call
  abbrev todo : List Dependency → Pool → ℕ
  todo ds pool = length ds + left most elements pool

  try-Ends :
      (configure : List Dependency → Pool → Restrictions → Attempt) (fuel : ℕ)
      → ((ds : List Dependency) (p : Pool) (r : Restrictions)
          → todo ds p < fuel
          → Ends (configure ds p r))
      → (n : String) (e : LoadElement) (v : Option String) (pool : Pool) (r : Restrictions)
      → lookup n elements ≡ some e
      → left most elements pool < fuel
      → Ends (try_element_configuration configure (new_config e v) pool r)
  unfolding try_element_configuration new_config
  try-Ends configure fuel ih n e v pool r loaded low =
      let c = new_config e v in
      elim (Option-cases (lookup e.name pool)) [
        | inl fresh ↦
            let name = keyed n e loaded in
            let own : lookup e.name elements ≡ some e =
              subst (λ k. lookup k elements ≡ some e) (sym name) loaded in
            let less = left-insert most elements e.name e c pool own fresh in
            let few = bounded n e v loaded in
            let deeper = configure c.deps (insert e.name c pool) (restrict c.deps r) in
            let same : (if is_restricted r c then disagreement else deeper)
                ≡ try_element_configuration configure c pool r =
              ground (arith, fresh) in
            subst Ends same (
              Ends-guard (is_restricted r c) deeper
                (ih c.deps (insert e.name c pool) (restrict c.deps r) (omega (arith, less, few))))
        | inr (config, found) ↦
            let same : (if same_variant config.variant_name v
                  then resolved pool r
                  else disagreement)
                ≡ try_element_configuration configure c pool r =
              ground (arith, found) in
            subst Ends same (settled (same_variant config.variant_name v))
      ]
    where
      settled : (b : Bool) → Ends (if b then resolved pool r else disagreement)
      settled true = tt
      settled false = tt

  step-Ends :
      (fuel : ℕ) (configure : List Dependency → Pool → Restrictions → Attempt)
      → ((ds : List Dependency) (p : Pool) (r : Restrictions)
          → todo ds p < fuel
          → Ends (configure ds p r))
      → ((ds : List Dependency) (p : Pool) (r : Restrictions)
          → OnResolved (Configures elements ds p) (configure ds p r))
      → (d : Dependency) (ds : List Dependency) (pool : Pool) (r : Restrictions)
        (o : Option LoadElement)
      → lookup d.name elements ≡ o
      → todo (d ∷ ds) pool < suc fuel
      → Ends (elim o [
        | none ↦ key_error
        | some e ↦
            first_valid
              (λ v.
                then_siblings
                  (configure ds)
                  (try_element_configuration configure (new_config e v) pool r))
              (variants_to_try d e)
      ])
  step-Ends fuel configure ih sound d ds pool r none h low = tt
  step-Ends fuel configure ih sound d ds pool r (some e) loaded low =
      Ends-first_valid _ (variants_to_try d e) λ v allowed.
        Ends-siblings (Configures elements (d ∷ []) pool) (configure ds) _
          (try-Ends configure fuel ih d.name e v pool r loaded (omega arith))
          (try-Configures elements keyed configure sound d e v pool r loaded allowed)
          (λ p r' k. ih ds p r' (omega (arith, left-Extends most elements pool p k.extends)))

  configure-Ends :
      (fuel : ℕ) (ds : List Dependency) (pool : Pool) (r : Restrictions)
      → todo ds pool < fuel
      → Ends (configure_dependency_variants elements fuel ds pool r)
  unfolding configure_dependency_variants
  configure-Ends zero ds pool r low = absurd (omega arith)
  configure-Ends (suc fuel) [] pool r low = tt
  configure-Ends (suc fuel) (d ∷ ds) pool r low =
      step-Ends fuel (configure_dependency_variants elements fuel) (configure-Ends fuel)
        (configure-Configures elements keyed fuel) d ds pool r (lookup d.name elements) refl low

-- With more fuel than one more than the most dependencies that an element can have, for each
-- element, the choice of variants ends, for every project, circular dependencies included.
pub resolve_variants_ends :
    (most : ℕ) (elements : Elements) (fuel : ℕ) (target : String) (target_variant : Option String)
    → IsKeyed elements
    → HasAtMost most elements
    → left most elements [] < fuel
    → resolve_variants elements fuel target target_variant ≢ out_of_fuel
unfolding resolve_variants
resolve_variants_ends most elements fuel target target_variant keyed bounded low stops =
    elim (Option-cases (lookup target elements)) [
      | inl e ↦ let same : key_error ≡ out_of_fuel = ground (arith, e, stops) in cc
      | inr (e, loaded) ↦
          let same : try_element_configuration (configure_dependency_variants elements fuel)
                (new_config e (toplevel_variant target_variant e)) [] []
              ≡ out_of_fuel =
            ground (arith, loaded, stops) in
          subst Ends same (
            try-Ends most elements keyed bounded (configure_dependency_variants elements fuel) fuel
              (configure-Ends most elements keyed bounded fuel) target e
              (toplevel_variant target_variant e) [] [] loaded low)
    ]
