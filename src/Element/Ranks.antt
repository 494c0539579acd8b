-- ===== src/Element/Ranks.antt =====
-- Element.dependencies on an acyclic graph: nothing above the element is yielded.
use bst_staging.Prelude.{
  ℕ, zero, suc, ◌<◌, String, Bool, true, false, not, ◌&&◌, ◌||◌, List, [], ◌∷◌, ◌++◌, contains,
  keep, arith, All, All-append, All-map, if◌then◌else◌, string_eq, nat_eq, Bool-cases, inl, inr,
  sym, subst,
}
use bst_staging.Element.Graph.{Element, Graph, IsRanked}
use bst_staging.Element.Dependencies.{
  Scope, all, build, run, Yield, yields_self, each, descend, visit, dependencies,
}

pub keep-All :
    (P : Element → Type 0) (p : Element → Bool) (xs : List Element) → All P xs → All P (keep p xs)
keep-All P p [] h = tt
keep-All P p (x ∷ xs) h = elim (Bool-cases (p x)) [
  | inl e ↦ rw e (h.0, keep-All P p xs h.1)
  | inr e ↦ rw e (keep-All P p xs h.1)
]

module _ (g : Graph) (rank : Element → ℕ) (ranked : IsRanked g rank) where
  abbrev IsBelow : ℕ → Element → Type 0
  IsBelow n x = rank x < n

  -- A walk that yields an element yields nothing above it.
  abbrev Descends : (List String → Element → Yield) → Type 0
  Descends f = (visited : List String) (e : Element) → All (IsBelow (suc (rank e))) (f visited e).0

  each-All :
      (n : ℕ) (f : List String → Element → Yield)
      → Descends f
      → (visited : List String) (ds : List Element) → All (λ d. rank d < n) ds
      → All (IsBelow n) (each f visited ds).0
  unfolding each
  each-All n f h visited [] low = tt
  each-All n f h visited (d ∷ ds) low =
      let y = f visited d in
      All-append (IsBelow n) y.0 (each f y.1 ds).0
        (All-map (IsBelow (suc (rank d))) (IsBelow n) y.0 (λ x k. omega (arith, low.0))
          (h visited d))
        (each-All n f h y.1 ds low.1)

  descend-All :
      (f : Scope → List String → Element → Yield)
      → ((scope : Scope) → Descends (f scope))
      → (scope : Scope) (visited : List String) (e : Element)
      → All (IsBelow (rank e)) (descend g f scope visited e).0
  unfolding descend
  descend-All f h build visited e =
      each-All (rank e) (f run) (h run) visited (g.build_dependencies e) (ranked.build e)
  descend-All f h run visited e =
      each-All (rank e) (f run) (h run) visited (g.runtime_dependencies e) (ranked.runtime e)
  descend-All f h all visited e =
      let built = each (f all) visited (g.build_dependencies e) in
      let p = λ (d : Element). not (contains (g.build_dependencies e) d) in
      let others = keep p (g.runtime_dependencies e) in
      All-append (IsBelow (rank e)) built.0 (each (f all) built.1 others).0
        (each-All (rank e) (f all) (h all) visited (g.build_dependencies e) (ranked.build e))
        (each-All (rank e) (f all) (h all) built.1 others
          (keep-All (λ d. rank d < rank e) p (g.runtime_dependencies e) (ranked.runtime e)))

  self-All : (b : Bool) (e : Element) → All (IsBelow (suc (rank e))) (if b then e ∷ [] else [])
  self-All true e = (omega arith, tt)
  self-All false e = tt

  abbrev yielded : Bool → Yield → Yield → List Element
  yielded b x y = (if◌then◌else◌ {A = Yield} b x y).0

  visit-All :
      (fuel : ℕ) (recurse did_recurse : Bool) (scope : Scope)
      → Descends (visit g fuel recurse did_recurse scope)
  unfolding visit
  visit-All zero recurse did_recurse scope visited e = tt
  visit-All (suc fuel) recurse did_recurse scope visited e =
      let visited' = visited ++ (g.name e ∷ []) in
      let deeper = descend g (visit g fuel recurse true) scope visited' e in
      let inner : Yield = if recurse || not did_recurse then deeper else ([], visited') in
      let self : List Element =
        if (recurse || did_recurse) && yields_self scope then e ∷ [] else [] in
      let low : All (IsBelow (suc (rank e))) deeper.0 =
        All-map (IsBelow (rank e)) (IsBelow (suc (rank e))) deeper.0 (λ x k. omega arith)
          (descend-All (visit g fuel recurse true) (visit-All fuel recurse true) scope visited'
            e) in
      let inner_low : All (IsBelow (suc (rank e))) inner.0 =
        elim (Bool-cases (recurse || not did_recurse)) [
          | inl c ↦
              subst (λ b. All (IsBelow (suc (rank e))) (yielded b deeper ([], visited'))) (sym c)
                low
          | inr c ↦
              subst (λ b. All (IsBelow (suc (rank e))) (yielded b deeper ([], visited'))) (sym c) tt
        ] in
      let found : All (IsBelow (suc (rank e))) (inner.0 ++ self) =
        All-append (IsBelow (suc (rank e))) inner.0 self inner_low
          (self-All ((recurse || did_recurse) && yields_self scope) e) in
      elim (Bool-cases (contains visited (g.name e))) [
        | inl seen ↦
            subst
              (λ b.
                All (IsBelow (suc (rank e))) (yielded b ([], visited) (inner.0 ++ self, inner.1)))
              (sym seen) tt
        | inr unseen ↦
            subst
              (λ b.
                All (IsBelow (suc (rank e))) (yielded b ([], visited) (inner.0 ++ self, inner.1)))
              (sym unseen) found
      ]

  -- The outermost call in the build scope: the element itself is not yielded.
  pub dependencies-IsBelow :
      (fuel : ℕ) (e : Element) → All (IsBelow (rank e)) (dependencies g fuel build true e)
  unfolding dependencies visit
  dependencies-IsBelow zero e = tt
  dependencies-IsBelow (suc fuel) e =
      All-append (IsBelow (rank e)) (descend g (visit g fuel true true) build (g.name e ∷ []) e).0
        [] (descend-All (visit g fuel true true) (visit-All fuel true true) build (g.name e ∷ []) e)
        tt
