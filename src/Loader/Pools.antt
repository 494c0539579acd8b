-- ===== src/Loader/Pools.antt =====
-- Pools of configurations: what it means that a pool meets dependencies, and how attempts combine.
use bst_staging.Prelude.{
  ◌≡◌, refl, sym, ap, ◌∙◌, subst, String, Bool, true, false, Option, none, some, List, [], ◌∷◌,
  lookup, insert, lookup-insert, All, arith, if◌then◌else◌, string_eq, Bool-cases, Option-cases,
  ◌⊎◌, inl, inr,
}
use bst_staging.Loader.LoadElement.{Dependency, LoadElement, Elements}
use bst_staging.Loader.Variants.{
  LoadElementConfig, Pool, Restrictions, Attempt, resolved, disagreement, key_error, out_of_fuel,
  same_variant, variants_to_try, then_siblings, first_valid,
}

-- Every element is loaded under its own name.
abbrev pub IsKeyed : Elements → Type 0
IsKeyed elements = (n : String) (e : LoadElement) → lookup n elements ≡ some e → e.name ≡ n

-- The variant is one that the dependency allows.
abbrev pub IsOneOf : Option String → List (Option String) → Type 0
IsOneOf v [] = ⊥
IsOneOf v (x ∷ xs) = (v ≡ x) ⊎ IsOneOf v xs

-- A dependency is met by a pool: its element is configured, with a variant that it allows.
pub record IsMet (elements : Elements) (p : Pool) (d : Dependency) : Type 0 where
  pub element : LoadElement
  pub config : LoadElementConfig
  pub loaded : lookup d.name elements ≡ some element
  pub chosen : lookup d.name p ≡ some config
  pub allowed : IsOneOf config.variant_name (variants_to_try d element)

-- Configurations stay as they were chosen.
abbrev pub Extends : Pool → Pool → Type 0
Extends old new =
    (k : String) (c : LoadElementConfig) → lookup k old ≡ some c → lookup k new ≡ some c

-- The dependencies of all configurations that are new in a pool are met.
abbrev pub NewAreMet : Elements → Pool → Pool → Type 0
NewAreMet elements old new =
    (k : String) (c : LoadElementConfig)
    → lookup k new ≡ some c
    → lookup k old ≡ none
    → All (IsMet elements new) c.deps

-- What holds of the pool that an attempt leaves, where `deps` are the dependencies it configured.
pub record Configures (elements : Elements) (deps : List Dependency) (old new : Pool) : Type 0 where
  pub extends : Extends old new
  pub met : All (IsMet elements new) deps
  pub new_met : NewAreMet elements old new

abbrev pub OnResolved : (Pool → Type 0) → Attempt → Type 0
OnResolved P (resolved p r) = P p
OnResolved P _ = Unit

pub same_variant-eq : (v w : Option String) → same_variant v w ≡ true → v ≡ w
unfolding same_variant
same_variant-eq none none h = refl
same_variant-eq (some m) (some n) h = ap some ((string_eq.beq_iff m n).0 h)
same_variant-eq none (some n) h = cc
same_variant-eq (some m) none h = cc

pub IsMet-Extends :
    (elements : Elements) (p p' : Pool) (ds : List Dependency)
    → Extends p p'
    → All (IsMet elements p) ds
    → All (IsMet elements p') ds
IsMet-Extends elements p p' [] x h = tt
IsMet-Extends elements p p' (d ∷ ds) x (m, h) = (
  record {
    element = m.element;
    config = m.config;
    loaded = m.loaded;
    chosen = x d.name m.config m.chosen;
    allowed = m.allowed;
  },
  IsMet-Extends elements p p' ds x h,
)

pub insert-Extends :
    (k : String) (c : LoadElementConfig) (pool : Pool)
    → lookup k pool ≡ none
    → Extends pool (insert k c pool)
insert-Extends k c pool fresh j x h = elim (Bool-cases (string_eq.beq k j)) [
  | inl e ↦
      let same : lookup k pool ≡ lookup j pool =
        ap (λ n. lookup n pool) ((string_eq.beq_iff k j).0 e) in
      cc
  | inr e ↦ ground (arith, lookup-insert k j c pool)
]

pub Configures-append :
    (elements : Elements) (d : Dependency) (ds : List Dependency) (pool p p' : Pool)
    → Configures elements (d ∷ []) pool p
    → Configures elements ds p p'
    → Configures elements (d ∷ ds) pool p'
Configures-append elements d ds pool p p' first rest = record {
  extends = λ k c h. rest.extends k c (first.extends k c h);
  met = ((IsMet-Extends elements p p' (d ∷ []) rest.extends first.met).0, rest.met);
  new_met = λ k c now before. elim (Option-cases (lookup k p)) [
    | inl e ↦ rest.new_met k c now e
    | inr (c', e) ↦
        let same : c' ≡ c = some-eq (sym (rest.extends k c' e) ∙ now) in
        IsMet-Extends elements p p' c.deps rest.extends
          (subst (λ x. All (IsMet elements p) x.deps) same (first.new_met k c' e before))
  ];
}
  where
    some-eq : {x y : LoadElementConfig} → some x ≡ some y → x ≡ y
    some-eq h = cc

pub OnResolved-guard :
    (P : Pool → Type 0) (b : Bool) (a : Attempt)
    → OnResolved P a
    → OnResolved P (if b then disagreement else a)
OnResolved-guard P true a h = tt
OnResolved-guard P false a h = h

pub OnResolved-map :
    (P Q : Pool → Type 0) (a : Attempt) → OnResolved P a → ((p : Pool) → P p → Q p) → OnResolved Q a
OnResolved-map P Q (resolved p r) h f = f p h
OnResolved-map P Q disagreement h f = tt
OnResolved-map P Q key_error h f = tt
OnResolved-map P Q out_of_fuel h f = tt

pub OnResolved-siblings :
    (Q P : Pool → Type 0) (siblings : Pool → Restrictions → Attempt) (a : Attempt)
    → OnResolved P a
    → ((p : Pool) (r : Restrictions) → P p → OnResolved Q (siblings p r))
    → OnResolved Q (then_siblings siblings a)
OnResolved-siblings Q P siblings (resolved p r) h f = f p r h
OnResolved-siblings Q P siblings disagreement h f = tt
OnResolved-siblings Q P siblings key_error h f = tt
OnResolved-siblings Q P siblings out_of_fuel h f = tt

pub OnResolved-first_valid :
    (Q : Pool → Type 0) (attempt : Option String → Attempt) (vs : List (Option String))
    → ((v : Option String) → IsOneOf v vs → OnResolved Q (attempt v))
    → OnResolved Q (first_valid attempt vs)
unfolding first_valid
OnResolved-first_valid Q attempt [] h = tt
OnResolved-first_valid Q attempt (v ∷ vs) h =
    next (attempt v) (h v (inl refl)) (OnResolved-first_valid Q attempt vs (λ x m. h x (inr m)))
  where
    next :
        (a : Attempt)
        → OnResolved Q a
        → OnResolved Q (first_valid attempt vs)
        → OnResolved Q (elim a [ disagreement ↦ first_valid attempt vs | other ↦ other ])
    next (resolved p r) h k = h
    next disagreement h k = k
    next key_error h k = h
    next out_of_fuel h k = h
