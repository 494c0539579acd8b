-- ===== src/Pipeline/Examples.antt =====
-- The planner at a small project: a test, and the theorem applied.
use bst_staging.Prelude.{
  ℕ, ◌<◌, ◌≡◌, refl, true, false, [], ◌∷◌, All, arith, contains, if◌then◌else◌, ◌==◌, nat_eq, ◌⊎◌,
  Bool-cases, inl, inr,
}
use bst_staging.Element.Graph.{Element, Graph, IsRanked}
use bst_staging.Element.Dependencies.{dependencies}
use bst_staging.Pipeline.Planner.{Elements, plan}
use bst_staging.Pipeline.BuildOrder.{
  IsNeededToBuild, build_dependency, run_dependency, plan_root, plan_order,
}

-- Element 3 is built from element 2, which needs element 1 to run.
abbrev project : Graph
project = record {
  name = λ e. if e == 1 then "base.bst" else if e == 2 then "tool.bst" else "app.bst";
  build_dependencies = λ e. if e == 3 then 2 ∷ [] else [];
  runtime_dependencies = λ e. if e == 2 then 1 ∷ [] else [];
}

abbrev uncached : Elements
uncached = record { graph = project; is_cached = λ e. false; is_remotely_cached = λ e. false }

project-IsRanked : IsRanked project (λ e. e)
project-IsRanked = record { build = build_ranked; runtime = runtime_ranked }
  where
    build_ranked : (e : Element) → All (λ d. d < e) (project.build_dependencies e)
    build_ranked e = elim (Bool-cases (e == 3)) [
      | inl h ↦ rw h (ground arith, tt)
      | inr h ↦ rw h tt
    ]

    runtime_ranked : (e : Element) → All (λ d. d < e) (project.runtime_dependencies e)
    runtime_ranked e = elim (Bool-cases (e == 2)) [
      | inl h ↦ rw h (ground arith, tt)
      | inr h ↦ rw h tt
    ]

plan_test : plan uncached 4 3 ≡ 1 ∷ 2 ∷ 3 ∷ []
unfolding plan dependencies
plan_test = refl

tool_needed : IsNeededToBuild uncached 3 1
unfolding dependencies
tool_needed = run_dependency 2 1 (build_dependency 2 refl) refl

plan_root_example : (uncached.is_cached 3 ≡ true) ⊎ (contains (plan uncached 4 3) 3 ≡ true)
plan_root_example = plan_root uncached (λ e. e) project-IsRanked 4 3 (omega arith)

plan_order_example : contains {K = ℕ} (1 ∷ 2 ∷ []) 1 ≡ true
plan_order_example =
    plan_order uncached (λ e. e) project-IsRanked 4 3 (1 ∷ 2 ∷ []) [] 3 1 (omega arith) plan_test
      refl tool_needed refl
