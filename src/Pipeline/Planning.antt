-- ===== src/Pipeline/Planning.antt =====
-- Planner.plan_element on an acyclic graph: every depth that a use asks for is reached.
use mathlib.Core.Path.{subst}
use bst_staging.Prelude.{
  ℕ, zero, suc, ◌+◌, ◌<◌, ◌≡◌, refl, sym, ◌∙◌, true, false, List, [], ◌∷◌, arith, All-map,
  Bool-cases, inl, inr, ◌==◌, ==_iff, contains, without, insert, if◌then◌else◌, nat_eq,
}
use bst_staging.Element.Graph.{Element, IsRanked}
use bst_staging.Pipeline.Planner.{
  Elements, Planner, new_planner, needs_build, run_dependencies, build_dependencies, plan_each,
  is_planned, plan_element,
}
use bst_staging.Pipeline.Depths.{
  IsDeep, IsClosed, IsPlanned, Plans, each-IsPlanned, is_planned-IsDeep, leave-IsPlanned,
  run_dependencies-All, build_dependencies-All,
}

module _ (w : Elements) (rank : Element → ℕ) (ranked : IsRanked w.graph rank) where
  -- The elements that are being visited stand above `e`.
  abbrev IsBelow : List Element → Element → Type 0
  IsBelow visiting e = (v : Element) → contains visiting v ≡ true → rank e < rank v

  IsBelow-enter :
      (visiting : List Element) (e d : Element)
      → IsBelow visiting e
      → rank d < rank e
      → IsBelow (e ∷ visiting) d
  IsBelow-enter visiting e d below lower v h = elim (Bool-cases (e == v)) [
    | inl same ↦ subst (λ x. rank d < rank x) ((==_iff e v).0 same) lower
    | inr other ↦ let h' : contains visiting v ≡ true = ground arith in omega (arith, below v h')
  ]

  not-contains_of_below :
      (visiting : List Element) (e : Element) → IsBelow visiting e → contains visiting e ≡ false
  not-contains_of_below visiting e below = elim (Bool-cases (contains visiting e)) [
    | inl inside ↦ absurd (omega (arith, below e inside))
    | inr outside ↦ outside
  ]

  -- The two loops of a call, over the direct dependencies.
  module _ (fuel depth : ℕ) (e : Element) (p : Planner)
      (step : (deeper : ℕ) (d : Element)
        → rank d < rank e
        → Plans w rank
            (rank e)
            deeper
            (e ∷ p.visiting_elements)
            (λ x. plan_element w fuel x deeper)
            d)
      (closed : IsClosed w p.depth_map) where
    abbrev entered : Planner
    entered = record p { visiting_elements = e ∷ p.visiting_elements }

    abbrev after_run : Planner
    after_run = plan_each (λ d. plan_element w fuel d depth) (run_dependencies w e) entered

    abbrev after_build : Planner
    after_build =
        if needs_build w e
        then plan_each (λ d. plan_element w fuel d (depth + 1)) (build_dependencies w e) after_run
        else after_run

    run-IsPlanned : IsPlanned w rank (rank e) depth (run_dependencies w e) entered after_run
    run-IsPlanned =
        each-IsPlanned w rank (rank e) depth (e ∷ p.visiting_elements) _ (run_dependencies w e)
          entered
          (All-map _ _ (run_dependencies w e) (step depth)
            (run_dependencies-All _ w e (ranked.runtime e)))
          closed refl

    build-IsPlanned :
        IsPlanned w rank
          (rank e)
          (depth + 1)
          (build_dependencies w e)
          after_run
          (plan_each (λ d. plan_element w fuel d (depth + 1)) (build_dependencies w e) after_run)
    build-IsPlanned =
        each-IsPlanned w rank (rank e) (depth + 1) (e ∷ p.visiting_elements) _
          (build_dependencies w e) after_run
          (All-map _ _ (build_dependencies w e) (step (depth + 1))
            (build_dependencies-All _ w e (ranked.build e)))
          run-IsPlanned.closed run-IsPlanned.restored

    loops-IsPlanned :
        (k : ℕ)
        → rank e < k
        → contains p.visiting_elements e ≡ false
        → is_planned e depth p ≡ false
        → IsPlanned w rank k depth (e ∷ []) p (record after_build {
          depth_map = insert e depth after_build.depth_map;
          visiting_elements = without e after_build.visiting_elements;
        })
    loops-IsPlanned k low free unplanned = elim (Bool-cases (needs_build w e)) [
      | inl needed ↦
          let ran = run-IsPlanned in
          let built = build-IsPlanned in
          rw needed (
            leave-IsPlanned w rank k depth e p _ low free unplanned (built.restored ∙ ran.restored)
              built.closed (λ x d deep. built.grows x d (ran.grows x d deep))
              (λ x le. built.above x le ∙ ran.above x le)
              (record {
                ran =
                    All-map _ _ (run_dependencies w e) (λ r deep. built.grows r depth deep)
                      ran.deep;
                built = λ _. built.deep;
              }))
      | inr idle ↦
          let ran = run-IsPlanned in
          rw idle (
            leave-IsPlanned w rank k depth e p _ low free unplanned ran.restored ran.closed
              ran.grows ran.above (record { ran = ran.deep; built = λ needed. cc }))
    ]

  plan_element-IsPlanned :
      (fuel depth k : ℕ) (e : Element) (visiting : List Element)
      → rank e < fuel
      → rank e < k
      → IsBelow visiting e
      → Plans w rank k depth visiting (λ x. plan_element w fuel x depth) e
  unfolding plan_element
  plan_element-IsPlanned zero depth k e visiting f low below p c v = absurd (omega arith)
  plan_element-IsPlanned (suc fuel) depth k e visiting f low below p c v =
      let below' : IsBelow p.visiting_elements e = subst (λ l. IsBelow l e) (sym v) below in
      let free = not-contains_of_below p.visiting_elements e below' in
      elim (Bool-cases (is_planned e depth p)) [
        | inl planned ↦
            rw (free, planned)
              (record {
                closed = c;
                grows = λ x d deep. deep;
                restored = refl;
                deep = (is_planned-IsDeep w rank e depth p planned, tt);
                above = λ x le. refl;
              })
        | inr unplanned ↦
            rw (free, unplanned)
              (loops-IsPlanned fuel depth e p
                (λ deeper d lower.
                  plan_element-IsPlanned fuel deeper (rank e) d (e ∷ p.visiting_elements)
                    (omega arith) lower (IsBelow-enter p.visiting_elements e d below' lower))
                c k low free unplanned)
      ]

  -- The planner on an acyclic graph, with more fuel than the root's rank: the root is planned, and
  -- every planned element has what it needs planned as deep as it has to be.
  pub plan_element-IsClosed :
      (fuel : ℕ) (root : Element)
      → rank root < fuel
      → IsClosed w (plan_element w fuel root 0 new_planner).depth_map
        × IsDeep (plan_element w fuel root 0 new_planner).depth_map root 0
  plan_element-IsClosed fuel root h =
      let done =
        plan_element-IsPlanned fuel 0 (suc (rank root)) root [] h (omega arith) (λ v inside. cc)
          new_planner (λ e d found. cc) refl in
      (done.closed, done.deep.0)
