-- ===== src/Loader/Consistent.antt =====
-- The pool of configurations that resolve_variants chooses: each dependency of each configuration
-- is there, with the variant that was asked for.
use bst_staging.Prelude.{
  ℕ, zero, suc, ◌≡◌, refl, sym, ◌∙◌, subst, String, Option, none, some, List, [], ◌∷◌, map, lookup,
  insert, lookup-insert, All, arith, if◌then◌else◌, string_eq, Bool-cases, Option-cases, inl, inr,
}
use bst_staging.Loader.LoadElement.{Dependency, LoadElement, Elements, given}
use bst_staging.Loader.Variants.{
  LoadElementConfig, new_config, Pool, Restrictions, Attempt, resolved, disagreement, key_error,
  same_variant, is_restricted, restrict, try_element_configuration, variants_to_try, then_siblings,
  first_valid, configure_dependency_variants, toplevel_variant, resolve_variants,
}
use bst_staging.Loader.Pools.{
  IsKeyed, IsOneOf, IsMet, Configures, OnResolved, same_variant-eq, insert-Extends,
  Configures-append, OnResolved-guard, OnResolved-map, OnResolved-siblings, OnResolved-first_valid,
}

module _ (elements : Elements) (keyed : IsKeyed elements) where
  -- One configuration of the element of a dependency
  pub try-Configures :
      (configure : List Dependency → Pool → Restrictions → Attempt)
      → ((ds : List Dependency) (p : Pool) (r : Restrictions)
          → OnResolved (Configures elements ds p) (configure ds p r))
      → (d : Dependency) (e : LoadElement) (v : Option String) (pool : Pool) (r : Restrictions)
      → lookup d.name elements ≡ some e
      → IsOneOf v (variants_to_try d e)
      → OnResolved
          (Configures elements (d ∷ []) pool)
          (try_element_configuration configure (new_config e v) pool r)
  unfolding try_element_configuration new_config
  try-Configures configure ih d e v pool r loaded allowed = go (lookup d.name pool) refl
    where
      name : e.name ≡ d.name
      name = keyed d.name e loaded

      c : LoadElementConfig
      c = new_config e v

      pool₁ : Pool
      pool₁ = insert e.name c pool

      there : lookup d.name pool₁ ≡ some c
      there =
          ground (arith, lookup-insert e.name d.name c pool, string_eq.beq_iff e.name d.name, name)

      entered :
          (p : Pool)
          → lookup d.name pool ≡ none
          → Configures elements c.deps pool₁ p
          → Configures elements (d ∷ []) pool p
      entered p fresh k = record {
        extends = λ j x h. k.extends j x (
            insert-Extends e.name c pool (subst (λ n. lookup n pool ≡ none) (sym name) fresh) j x
              h);
        met = (
          record {
            element = e;
            config = c;
            loaded = loaded;
            chosen = k.extends d.name c there;
            allowed = allowed;
          },
          tt,
        );
        new_met = λ j x now before. elim (Bool-cases (string_eq.beq e.name j)) [
          | inl same ↦
              let at : d.name ≡ j = sym name ∙ (string_eq.beq_iff e.name j).0 same in
              let own : lookup j p ≡ some c =
                subst (λ n. lookup n p ≡ some c) at (k.extends d.name c there) in
              let equal : c ≡ x = cc in subst (λ y. All (IsMet elements p) y.deps) equal k.met
          | inr other ↦
              let fresh' : lookup j pool₁ ≡ none = ground (arith, lookup-insert e.name j c pool) in
              k.new_met j x now fresh'
        ];
      }

      unchanged :
          (config : LoadElementConfig)
          → lookup d.name pool ≡ some config
          → config.variant_name ≡ v
          → Configures elements (d ∷ []) pool pool
      unchanged config found same = record {
        extends = λ j x h. h;
        met = (
          record {
            element = e;
            config = config;
            loaded = loaded;
            chosen = found;
            allowed = subst (λ w. IsOneOf w (variants_to_try d e)) (sym same) allowed;
          },
          tt,
        );
        new_met = λ j x now before. absurd (clash now before);
      }
        where
          clash : {o : Option LoadElementConfig} {x : LoadElementConfig} → o ≡ some x → o ≡ none → ⊥
          clash h k = cc

      go :
          (o : Option LoadElementConfig)
          → lookup d.name pool ≡ o
          → OnResolved
              (Configures elements (d ∷ []) pool)
              (try_element_configuration configure c pool r)
      go none fresh =
          let fresh' : lookup e.name pool ≡ none =
            subst (λ n. lookup n pool ≡ none) (sym name) fresh in
          let deeper = configure c.deps pool₁ (restrict c.deps r) in
          let same : (if is_restricted r c then disagreement else deeper)
              ≡ try_element_configuration configure c pool r =
            ground (arith, fresh') in
          subst (OnResolved (Configures elements (d ∷ []) pool)) same (
            OnResolved-guard (Configures elements (d ∷ []) pool) (is_restricted r c) deeper (
              OnResolved-map _ _ deeper (ih c.deps pool₁ (restrict c.deps r))
                (λ p. entered p fresh)))
      go (some config) found =
          let found' : lookup e.name pool ≡ some config =
            subst (λ n. lookup n pool ≡ some config) (sym name) found in
          elim (Bool-cases (same_variant config.variant_name v)) [
            | inl agree ↦
                let same : resolved pool r ≡ try_element_configuration configure c pool r =
                  ground (arith, found', agree) in
                subst (OnResolved (Configures elements (d ∷ []) pool)) same
                  (unchanged config found (same_variant-eq config.variant_name v agree))
            | inr differ ↦
                let same : disagreement ≡ try_element_configuration configure c pool r =
                  ground (arith, found', differ) in
                subst (OnResolved (Configures elements (d ∷ []) pool)) same tt
          ]

  -- The first dependency of a list, with the others left to do
  configure-step :
      (configure : List Dependency → Pool → Restrictions → Attempt)
      → ((ds : List Dependency) (p : Pool) (r : Restrictions)
          → OnResolved (Configures elements ds p) (configure ds p r))
      → (d : Dependency) (ds : List Dependency) (pool : Pool) (r : Restrictions)
        (o : Option LoadElement)
      → lookup d.name elements ≡ o
      → OnResolved (Configures elements (d ∷ ds) pool) (elim o [
        | none ↦ key_error
        | some e ↦
            first_valid
              (λ v.
                then_siblings
                  (configure ds)
                  (try_element_configuration configure (new_config e v) pool r))
              (variants_to_try d e)
      ])
  configure-step configure ih d ds pool r none h = tt
  configure-step configure ih d ds pool r (some e) loaded =
      OnResolved-first_valid (Configures elements (d ∷ ds) pool) _ (variants_to_try d e)
        λ v allowed.
          OnResolved-siblings (Configures elements (d ∷ ds) pool)
            (Configures elements (d ∷ []) pool) (configure ds) _
            (try-Configures configure ih d e v pool r loaded allowed)
            (λ p r' first.
              OnResolved-map _ _ (configure ds p r') (ih ds p r')
                (λ p' rest. Configures-append elements d ds pool p p' first rest))

  pub configure-Configures :
      (fuel : ℕ) (ds : List Dependency) (pool : Pool) (r : Restrictions)
      → OnResolved
          (Configures elements ds pool)
          (configure_dependency_variants elements fuel ds pool r)
  unfolding configure_dependency_variants
  configure-Configures zero ds pool r = tt
  configure-Configures (suc fuel) [] pool r = record {
    extends = λ k c h. h;
    met = tt;
    new_met = λ k c now before. absurd (clash now before);
  }
    where
      clash : {o : Option LoadElementConfig} {x : LoadElementConfig} → o ≡ some x → o ≡ none → ⊥
      clash h k = cc
  configure-Configures (suc fuel) (d ∷ ds) pool r =
      configure-step (configure_dependency_variants elements fuel) (configure-Configures fuel) d ds
        pool r (lookup d.name elements) refl

  -- The target as a dependency of nothing
  abbrev as_dependency : String → Option String → Dependency
  as_dependency n variant_name = record {
    owner = "";
    name = n;
    variant_name = variant_name;
    filename = n;
    dep_type = none;
  }

  toplevel-allowed :
      (n : String) (wanted : Option String) (e : LoadElement)
      → given wanted ≡ wanted
      → IsOneOf (toplevel_variant wanted e) (variants_to_try (as_dependency n wanted) e)
  unfolding toplevel_variant variants_to_try
  toplevel-allowed n none e h =
      elim e.variants
        as (λ vs.
          IsOneOf (elim vs [ [] ↦ none | v ∷ vs' ↦ some v.name ])
            (elim vs [ [] ↦ none ∷ [] | v ∷ vs' ↦ map (λ x. some x.name) (v ∷ vs') ])) [
              | [] ↦ inl refl
              | v ∷ vs ↦ inl refl
            ]
  toplevel-allowed n (some v) e h =
      let top : toplevel_variant (some v) e ≡ some v = ground (arith, h) in
      let tried : variants_to_try (as_dependency n (some v)) e ≡ some v ∷ [] = ground (arith, h) in
      subst (λ x. IsOneOf x (variants_to_try (as_dependency n (some v)) e)) (sym top)
        (subst (λ xs. IsOneOf (some v) xs) (sym tried) (inl refl))

-- The variants that resolve_variants chooses fit together: the target is configured, and for every
-- chosen configuration each of its dependencies is configured too, with the variant that the
-- dependency asks for, or if it asks for none with one that its element declares. For a target
-- variant that is not the empty name.
pub resolve_variants_consistent :
    (elements : Elements) (fuel : ℕ) (target : String) (target_variant : Option String) (p : Pool)
    (r : Restrictions)
    → IsKeyed elements
    → given target_variant ≡ target_variant
    → resolve_variants elements fuel target target_variant ≡ resolved p r
    → ((c : LoadElementConfig) × (lookup target p ≡ some c))
      × ((k : String) (c : LoadElementConfig) → lookup k p ≡ some c → All (IsMet elements p) c.deps)
unfolding resolve_variants
resolve_variants_consistent elements fuel target target_variant p r keyed proper done =
    elim (Option-cases (lookup target elements)) [
      | inl e ↦
          let same : key_error ≡ resolved p r = ground (arith, e, done) in
          let clash : ⊥ = cc in absurd clash
      | inr (e, loaded) ↦
          let top = toplevel_variant target_variant e in
          let d = as_dependency elements keyed target target_variant in
          let same : try_element_configuration (configure_dependency_variants elements fuel)
                (new_config e top) [] []
              ≡ resolved p r =
            ground (arith, loaded, done) in
          let k : Configures elements (d ∷ []) [] p =
            subst (OnResolved (Configures elements (d ∷ []) [])) same (
              try-Configures elements keyed (configure_dependency_variants elements fuel)
                (configure-Configures elements keyed fuel) d e top [] [] loaded
                (toplevel-allowed elements keyed target target_variant e proper)) in
          ((k.met.0.config, k.met.0.chosen), λ n c found. k.new_met n c found refl)
    ]
