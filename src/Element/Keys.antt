-- ===== src/Element/Keys.antt =====
-- The cache keys of an element (buildstream/element.py): _get_cache_key, __calculate_cache_key and
-- what they remember. Hashing a dictionary, utils._generate_key, is a parameter here, with the
-- parts of the dictionary that the element itself has.
use bst_staging.Prelude.{
  ℕ, zero, suc, String, Bool, true, false, Option, none, some, List, [], ◌∷◌, map, lookup, insert,
  nat_eq, if◌then◌else◌,
}
use bst_staging.Element.Graph.{Element, Graph}
use bst_staging.Element.Dependencies.{build, dependencies}

pub data KeyStrength : Type 0 where
  strong weak : KeyStrength

-- self.__cache_key and self.__weak_cache_key
pub record Keys : Type 0 where
  pub cache_key : Option String
  pub weak_cache_key : Option String

-- The keys that each element remembers; the others have none yet.
abbrev pub KeyStore : Type 0
KeyStore = List (Element × Keys)

abbrev pub keys_of : Element → KeyStore → Keys
keys_of e s = elim (lookup e s) [
  | none ↦ record { cache_key = none; weak_cache_key = none }
  | some k ↦ k
]

abbrev pub pick : KeyStrength → Keys → Option String
pick strong k = k.cache_key
pick weak k = k.weak_cache_key

-- The strings of a list without None in it
unfoldable pub all_given : List (Option String) → Option (List String)
all_given [] = some []
all_given (none ∷ xs) = none
all_given (some x ∷ xs) = elim (all_given xs) [ none ↦ none | some ys ↦ some (x ∷ ys) ]

-- What the keys depend on: whether the sources of an element are inconsistent, BST_STRICT_REBUILD,
-- and the hash of an element with the entry "dependencies".
pub record KeySources : Type 0 where
  pub graph : Graph
  pub is_inconsistent : Element → Bool
  pub strict_rebuild : Element → Bool
  pub generate_key : Element → (dependencies : List String) → String

unfoldable pub calculate_cache_key : KeySources → Element → List (Option String) → Option String
unfolding all_given
calculate_cache_key w e deps = elim (all_given deps) [
  | none ↦ none
  | some names ↦ some (w.generate_key e names)
]

-- `[e._get_cache_key(...) for e in deps]`
unfoldable pub get_each :
    (Element → KeyStore → Option String × KeyStore)
    → List Element
    → KeyStore
    → List (Option String) × KeyStore
get_each get [] s = ([], s)
get_each get (d ∷ ds) s =
    let (k, s') = get d s in let (ks, s'') = get_each get ds s' in (k ∷ ks, s'')

-- self.dependencies(Scope.BUILD), and with recurse=False
abbrev pub build_scope : KeySources → (fuel : ℕ) → Element → List Element
build_scope w fuel e = dependencies w.graph fuel build true e

abbrev pub direct_names : KeySources → Element → List (Option String)
direct_names w e = map (λ d. some (w.graph.name d)) (dependencies w.graph 2 build false e)

-- The part of `_get_cache_key` that calculates both keys; `get` is the call for a dependency.
unfoldable pub compute_keys :
    KeySources
    → (scope_fuel : ℕ) → (get : KeyStrength → Element → KeyStore → Option String × KeyStore)
    → Element
    → KeyStore
    → Keys × KeyStore
unfolding calculate_cache_key get_each
compute_keys w scope_fuel get e s =
    let deps = build_scope w scope_fuel e in
    let (strong_keys, s₁) = get_each (get strong) deps s in
    let with_strong : Keys = record {
      cache_key = calculate_cache_key w e strong_keys;
      weak_cache_key = (keys_of e s₁).weak_cache_key;
    } in
    let s₂ = insert e with_strong s₁ in
    let (weak_keys, s₃) = get_each (get weak) deps s₂ in
    let s₄ = if w.strict_rebuild e then s₃ else s₂ in
    let dependencies = if w.strict_rebuild e then weak_keys else direct_names w e in
    let with_weak : Keys = record {
      cache_key = (keys_of e s₄).cache_key;
      weak_cache_key = calculate_cache_key w e dependencies;
    } in
    (with_weak, insert e with_weak s₄)

-- `scope_fuel` is the fuel of a walk over the dependencies; `fuel` bounds how deep the calls go.
unfoldable pub get_cache_key :
    KeySources → (scope_fuel fuel : ℕ) → KeyStrength → Element → KeyStore → Option String × KeyStore
unfolding compute_keys
get_cache_key w scope_fuel zero strength e s = (none, s)
get_cache_key w scope_fuel (suc fuel) strength e s =
    let (fresh, s') = compute_keys w scope_fuel (get_cache_key w scope_fuel fuel) e s in
    elim (keys_of e s).cache_key [
      | some k ↦ (pick strength (keys_of e s), s)
      | none ↦ if w.is_inconsistent e then (none, s) else (pick strength fresh, s')
    ]
