-- ===== src/Element/Walks.antt =====
-- Element.dependencies on an acyclic graph: what a walk yields is in the staging order.
use bst_staging.Prelude.{
  ℕ, zero, suc, ◌<◌, ◌≡◌, refl, sym, ap, ◌∙◌, subst, String, Bool, true, false, ◌||◌, List, [], ◌∷◌,
  ◌++◌, contains, arith, All, All-map, string_eq, nat_eq, Bool-cases, inl, inr,
}
use bst_staging.Element.Graph.{Element, Graph, IsRanked}
use bst_staging.Element.Dependencies.{
  Scope, all, build, run, Yield, yields_self, each, descend, visit, dependencies,
}
use bst_staging.Element.Staging.{
  IsNamed, direct, behind, names, IsStaged, contains-append, append_assoc, names-append,
  IsStaged-append, descend-each, direct-ranked,
}

module _ (g : Graph) (rank : Element → ℕ) (ranked : IsRanked g rank) (named : IsNamed g) where
  -- Before a call: what is visited is yielded or open, and the open elements are above.
  record Enters (before open_names visited : List String) (e : Element) : Type 0 where
    covers : (n : String) → contains visited n ≡ (contains before n || contains open_names n)
    above : (x : Element) → contains open_names (g.name x) ≡ true → rank e < rank x

  -- After a walk over some elements
  record Leaves (scope : Scope) (before visited : List String) (ds : List Element) (y : Yield)
      : Type 0 where
    staged : IsStaged g scope before y.0
    visits : (n : String) → contains y.1 n ≡ (contains visited n || contains (names g y.0) n)
    there : All (λ d. contains (before ++ names g y.0) (g.name d) ≡ true) ds

  abbrev Walks : Scope → ℕ → (List String → Element → Yield) → Type 0
  Walks scope n f =
      (before open_names visited : List String) (e : Element)
      → rank e < n
      → Enters before open_names visited e
      → Leaves scope before visited (e ∷ []) (f visited e)

  Leaves-append :
      (scope : Scope) (before visited : List String) (d : Element) (ds : List Element) (y z : Yield)
      → Leaves scope before visited (d ∷ []) y
      → Leaves scope (before ++ names g y.0) y.1 ds z
      → Leaves scope before visited (d ∷ ds) (y.0 ++ z.0, z.1)
  Leaves-append scope before visited d ds y z first rest =
      let same : (before ++ names g y.0) ++ names g z.0 ≡ before ++ names g (y.0 ++ z.0) =
        append_assoc before (names g y.0) (names g z.0)
        ∙ ap (λ l. before ++ l) (sym (names-append g y.0 z.0)) in
      record {
        staged = IsStaged-append g scope before y.0 z.0 first.staged rest.staged;
        visits = λ n.
            let joined : contains (names g (y.0 ++ z.0)) n
                ≡ (contains (names g y.0) n || contains (names g z.0) n) =
              ap (λ l. contains l n) (names-append g y.0 z.0)
              ∙ contains-append (names g y.0) (names g z.0) n in
            ground (arith, first.visits n, rest.visits n, joined);
        there = (
          subst (λ l. contains l (g.name d) ≡ true) same
              (let h = first.there.0 in
                ground
                  (arith, h, contains-append (before ++ names g y.0) (names g z.0) (g.name d))),
          subst (λ l. All (λ x. contains l (g.name x) ≡ true) ds) same rest.there,
        );
      }

  each-Leaves :
      (scope : Scope) (n : ℕ) (f : List String → Element → Yield)
      → Walks scope n f
      → (before open_names visited : List String) (ds : List Element)
      → All
          (λ d.
            (rank d < n)
            × ((x : Element) → contains open_names (g.name x) ≡ true → rank d < rank x))
          ds
      → ((m : String) → contains visited m ≡ (contains before m || contains open_names m))
      → Leaves scope before visited ds (each f visited ds)
  unfolding each
  each-Leaves scope n f h before open_names visited [] low covers = record {
    staged = tt;
    visits = λ m. ground arith;
    there = tt;
  }
  each-Leaves scope n f h before open_names visited (d ∷ ds) ((low, above), later) covers =
      let y = f visited d in
      let first = h before open_names visited d low (record { covers = covers; above = above }) in
      Leaves-append scope before visited d ds y (each f y.1 ds) first (
        each-Leaves scope n f h (before ++ names g y.0) open_names y.1 ds later
          (λ m. ground (arith, first.visits m, covers m, contains-append before (names g y.0) m)))

  -- An element that is yielded behind the walk over its direct dependencies
  Leaves-self :
      (scope : Scope) (before open_names visited : List String) (e : Element) (y : Yield)
      → contains visited (g.name e) ≡ false
      → Leaves scope before (visited ++ (g.name e ∷ [])) (direct g scope e) y
      → Leaves scope before visited (e ∷ []) (y.0 ++ (e ∷ []), y.1)
  Leaves-self scope before open_names visited e y fresh below =
      let joined : (n : String)
          → contains (names g (y.0 ++ (e ∷ []))) n
            ≡ (contains (names g y.0) n || string_eq.beq (g.name e) n) =
        λ n.
          let split : contains (names g (y.0 ++ (e ∷ []))) n
              ≡ (contains (names g y.0) n || contains (g.name e ∷ []) n) =
            ap (λ l. contains l n) (names-append g y.0 (e ∷ []))
            ∙ contains-append (names g y.0) (g.name e ∷ []) n in
          ground (arith, split) in
      record {
        staged = IsStaged-append g scope before y.0 (e ∷ []) below.staged (below.there, tt);
        visits = λ n.
            ground (arith, below.visits n, joined n, contains-append visited (g.name e ∷ []) n);
        there = (
          ground (
            arith,
            joined (g.name e),
            contains-append before (names g (y.0 ++ (e ∷ []))) (g.name e),
            string_eq.beq_iff (g.name e) (g.name e),
          ),
          tt,
        );
      }

  -- The direct dependencies of an element are walked through while the element is open.
  below-open :
      (scope : Scope) (n : ℕ) (before open_names visited : List String) (e : Element)
      → rank e < suc n
      → Enters before open_names visited e
      → All
          (λ d.
            (rank d < n)
            × ((x : Element)
                → contains (g.name e ∷ open_names) (g.name x) ≡ true
                → rank d < rank x))
          (direct g scope e)
  below-open scope n before open_names visited e low enters =
      All-map (λ d. rank d < rank e) _ (direct g scope e)
        (λ d b. (
          omega (arith, b),
          λ x h. elim (Bool-cases (string_eq.beq (g.name e) (g.name x))) [
            | inl same ↦
                let own : e ≡ x = named e x ((string_eq.beq_iff (g.name e) (g.name x)).0 same) in
                subst (λ y. rank d < rank y) own b
            | inr other ↦
                let outer : contains open_names (g.name x) ≡ true = ground arith in
                omega (arith, b, enters.above x outer)
          ],
        ))
        (direct-ranked g rank ranked scope e)

  behind-own : (scope : Scope) → yields_self scope ≡ true → behind scope ≡ scope
  behind-own all h = refl
  behind-own run h = refl
  behind-own build h = cc

  visit-Walks :
      (scope : Scope)
      → yields_self scope ≡ true
      → (fuel : ℕ) (did_recurse : Bool) → Walks scope fuel (visit g fuel true did_recurse scope)
  unfolding visit
  visit-Walks scope own zero did_recurse before open_names visited e low enters =
      absurd (omega arith)
  visit-Walks scope own (suc fuel) did_recurse before open_names visited e low enters =
      let y =
        each (visit g fuel true true (behind scope)) (visited ++ (g.name e ∷ []))
          (direct g scope e) in
      let inner : descend g (visit g fuel true true) scope (visited ++ (g.name e ∷ [])) e ≡ y =
        descend-each g (visit g fuel true true) scope (visited ++ (g.name e ∷ [])) e in
      elim (Bool-cases (contains visited (g.name e))) [
        | inl seen ↦
            let same : ([], visited) ≡ visit g (suc fuel) true did_recurse scope visited e =
              ground (arith, seen) in
            subst (Leaves scope before visited (e ∷ [])) same
              (record { staged = tt; visits = λ n. ground arith; there = (finished seen, tt) })
        | inr fresh ↦
            let same : (y.0 ++ (e ∷ []), y.1)
                ≡ visit g (suc fuel) true did_recurse scope visited e =
              ground (arith, fresh, inner, own) in
            subst (Leaves scope before visited (e ∷ [])) same (
              Leaves-self scope before open_names visited e y fresh (
                each-Leaves scope fuel (visit g fuel true true (behind scope))
                  (walks (visit-Walks scope own fuel true)) before (g.name e ∷ open_names)
                  (visited ++ (g.name e ∷ [])) (direct g scope e)
                  (below-open scope fuel before open_names visited e low enters)
                  (λ m.
                    ground (arith, enters.covers m, contains-append visited (g.name e ∷ []) m))))
      ]
    where
      finished : contains visited (g.name e) ≡ true → contains (before ++ []) (g.name e) ≡ true
      finished seen = elim (Bool-cases (contains open_names (g.name e))) [
        | inl opened ↦ absurd (omega (arith, enters.above e opened))
        | inr other ↦ ground (arith, enters.covers (g.name e), contains-append before [] (g.name e))
      ]

      walks :
          Walks scope fuel (visit g fuel true true scope)
          → Walks scope fuel (visit g fuel true true (behind scope))
      walks h =
          subst (λ t. Walks scope fuel (visit g fuel true true t)) (sym (behind-own scope own)) h

  -- What a recursive call in a scope yields, from the outside
  pub dependencies-Leaves :
      (scope : Scope)
      → yields_self scope ≡ true
      → (fuel : ℕ) (e : Element) → rank e < fuel
      → IsStaged g scope [] (dependencies g fuel scope true e)
        × (contains (names g (dependencies g fuel scope true e)) (g.name e) ≡ true)
  unfolding dependencies
  dependencies-Leaves scope own fuel e low =
      let y =
        visit-Walks scope own fuel false [] [] [] e low
          (record { covers = λ n. refl; above = λ x h. cc }) in
      (y.staged, y.there.0)

  pub dependencies-Leaves_build :
      (fuel : ℕ) (e : Element)
      → rank e < fuel
      → IsStaged g run [] (dependencies g fuel build true e)
        × All
            (λ d. contains (names g (dependencies g fuel build true e)) (g.name d) ≡ true)
            (g.build_dependencies e)
  unfolding dependencies visit
  dependencies-Leaves_build zero e low = absurd (omega arith)
  dependencies-Leaves_build (suc fuel) e low =
      let y = each (visit g fuel true true run) (g.name e ∷ []) (g.build_dependencies e) in
      let below =
        below-open build fuel [] [] [] e low (record { covers = λ n. refl; above = λ x h. cc }) in
      let k =
        each-Leaves run fuel (visit g fuel true true run) (visit-Walks run refl fuel true) []
          (g.name e ∷ []) (g.name e ∷ []) (g.build_dependencies e) below (λ m. refl) in
      subst
        (λ es.
          IsStaged g run [] es
          × All (λ d. contains (names g es) (g.name d) ≡ true) (g.build_dependencies e))
        (sym (element-append_nil y.0)) (k.staged, k.there)
    where
      element-append_nil : (es : List Element) → es ++ [] ≡ es
      element-append_nil [] = refl
      element-append_nil (x ∷ es) = ap (λ l. x ∷ l) (element-append_nil es)
