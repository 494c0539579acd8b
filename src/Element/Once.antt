-- ===== src/Element/Once.antt =====
-- Element.dependencies yields no name twice.
use bst_staging.Prelude.{
  ℕ, zero, suc, ◌+◌, ◌≤◌, ◌≡◌, sym, ap, ◌∙◌, subst, String, Bool, true, false, not, ◌&&◌, ◌||◌,
  List, [], ◌∷◌, ◌++◌, contains, keep, one_if, arith, if◌then◌else◌, string_eq, nat_eq, Bool-cases,
  inl, inr,
}
use bst_staging.Element.Graph.{Element, Graph}
use bst_staging.Element.Dependencies.{
  Scope, all, build, run, Yield, yields_self, each, descend, visit, dependencies,
}

-- How many elements of a list have a name
abbrev pub named : Graph → String → List Element → ℕ
named g n [] = 0
named g n (e ∷ es) = one_if (string_eq.beq (g.name e) n) + named g n es

-- What a walk yields had not been visited, is visited behind it, and has each name once.
abbrev IsFresh : Graph → String → List String → Yield → Type 0
IsFresh g n visited y = named g n y.0 + one_if (contains visited n) ≤ one_if (contains y.1 n)

named-append :
    (g : Graph) (n : String) (xs ys : List Element)
    → named g n (xs ++ ys) ≡ named g n xs + named g n ys
named-append g n [] ys = omega arith
named-append g n (x ∷ xs) ys = omega (arith, named-append g n xs ys)

contains-add :
    (visited : List String) (k n : String)
    → contains (visited ++ (k ∷ [])) n ≡ (string_eq.beq k n || contains visited n)
contains-add [] k n = ground arith
contains-add (v ∷ visited) k n = ground (arith, contains-add visited k n)

each-IsFresh :
    (g : Graph) (n : String) (f : List String → Element → Yield)
    → ((visited : List String) (e : Element) → IsFresh g n visited (f visited e))
    → (visited : List String) (ds : List Element) → IsFresh g n visited (each f visited ds)
unfolding each
each-IsFresh g n f h visited [] = omega arith
each-IsFresh g n f h visited (d ∷ ds) =
    let y = f visited d in
    omega (arith, h visited d, each-IsFresh g n f h y.1 ds, named-append g n y.0 (each f y.1 ds).0)

descend-IsFresh :
    (g : Graph) (n : String) (f : Scope → List String → Element → Yield)
    → ((scope : Scope) (visited : List String) (e : Element)
        → IsFresh g n visited (f scope visited e))
    → (scope : Scope) (visited : List String) (e : Element)
    → IsFresh g n visited (descend g f scope visited e)
unfolding descend
descend-IsFresh g n f h build visited e =
    each-IsFresh g n (f run) (h run) visited (g.build_dependencies e)
descend-IsFresh g n f h run visited e =
    each-IsFresh g n (f run) (h run) visited (g.runtime_dependencies e)
descend-IsFresh g n f h all visited e =
    let built = each (f all) visited (g.build_dependencies e) in
    let others = keep (λ d. not (contains (g.build_dependencies e) d)) (g.runtime_dependencies e) in
    omega (
      arith,
      each-IsFresh g n (f all) (h all) visited (g.build_dependencies e),
      each-IsFresh g n (f all) (h all) built.1 others,
      named-append g n built.0 (each (f all) built.1 others).0,
    )

-- One call: the element itself is yielded last, if at all.
own-IsFresh :
    (g : Graph) (n : String) (e : Element) (visited : List String) (y : Yield) (self : Bool)
    → contains visited (g.name e) ≡ false
    → IsFresh g n (visited ++ (g.name e ∷ [])) y
    → IsFresh g n visited (y.0 ++ (if self then e ∷ [] else []), y.1)
own-IsFresh g n e visited y false h below =
    ground (arith, below, named-append g n y.0 [], contains-add visited (g.name e) n)
own-IsFresh g n e visited y true h below = elim (Bool-cases (string_eq.beq (g.name e) n)) [
  | inl same ↦
      let name = (string_eq.beq_iff (g.name e) n).0 same in
      let unseen : contains visited n ≡ false = ap (contains visited) (sym name) ∙ h in
      ground (
        arith,
        same,
        unseen,
        below,
        named-append g n y.0 (e ∷ []),
        contains-add visited (g.name e) n,
      )
  | inr other ↦
      ground (arith, other, below, named-append g n y.0 (e ∷ []), contains-add visited (g.name e) n)
]

visit-IsFresh :
    (g : Graph) (n : String) (fuel : ℕ) (recurse did_recurse : Bool) (scope : Scope)
    (visited : List String) (e : Element)
    → IsFresh g n visited (visit g fuel recurse did_recurse scope visited e)
unfolding visit
visit-IsFresh g n zero recurse did_recurse scope visited e = omega arith
visit-IsFresh g n (suc fuel) recurse did_recurse scope visited e =
    let visited' = visited ++ (g.name e ∷ []) in
    let inner : Yield =
      if recurse || not did_recurse
      then descend g (visit g fuel recurse true) scope visited' e
      else ([], visited') in
    let inner_fresh : IsFresh g n visited' inner = elim (Bool-cases (recurse || not did_recurse)) [
      | inl e₁ ↦
          subst
            (λ b. IsFresh g n visited' (
              if b then descend g (visit g fuel recurse true) scope visited' e else ([], visited')))
            (sym e₁)
            (descend-IsFresh g n (visit g fuel recurse true) (visit-IsFresh g n fuel recurse true)
              scope visited' e)
      | inr e₁ ↦
          subst
            (λ b. IsFresh g n visited' (
              if b then descend g (visit g fuel recurse true) scope visited' e else ([], visited')))
            (sym e₁) (omega arith)
    ] in
    let self = (recurse || did_recurse) && yields_self scope in
    let found : Yield = (inner.0 ++ (if self then e ∷ [] else []), inner.1) in
    elim (Bool-cases (contains visited (g.name e))) [
      | inl seen ↦
          subst (λ b. IsFresh g n visited (if b then ([], visited) else found)) (sym seen)
            (omega arith)
      | inr unseen ↦
          subst (λ b. IsFresh g n visited (if b then ([], visited) else found)) (sym unseen)
            (own-IsFresh g n e visited inner self unseen inner_fresh)
    ]

-- In every scope, with or without recursion, no two elements that `dependencies` yields have the
-- same name, whether the graph has cycles or not.
pub dependencies_once :
    (g : Graph) (n : String) (fuel : ℕ) (scope : Scope) (recurse : Bool) (e : Element)
    → named g n (dependencies g fuel scope recurse e) ≤ 1
unfolding dependencies
dependencies_once g n fuel scope recurse e =
    let fresh = visit-IsFresh g n fuel recurse false scope [] e in
    let most = one_if_bound (contains (visit g fuel recurse false scope [] e).1 n) in
    omega (arith, fresh, most)
  where
    one_if_bound : (b : Bool) → one_if b ≤ 1
    one_if_bound true = omega arith
    one_if_bound false = omega arith
