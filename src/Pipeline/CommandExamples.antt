-- ===== src/Pipeline/CommandExamples.antt =====
-- The commands at a small project: tests, and the theorems applied.
use bst_staging.Prelude.{◌≤◌, ◌≡◌, refl, true, false, List, [], ◌∷◌, some, arith, nat_eq}
use bst_staging.Element.Graph.{Element}
use bst_staging.Element.Dependencies.{all, dependencies}
use bst_staging.Element.Examples.{diamond}
use bst_staging.Scheduler.Queue.{Queue}
use bst_staging.Scheduler.Session.{new_scheduler, run}
use bst_staging.Scheduler.Events.{here}
use bst_staging.Scheduler.Conservation.{all_held}
use bst_staging.Scheduler.Examples.{toy, configured}
use bst_staging.Pipeline.Planner.{Elements}
use bst_staging.Pipeline.Removal.{kept, no_element, candidates, candidates_of, remove_elements}
use bst_staging.Pipeline.Remaining.{IsRemainder, remove_elements-IsRemainder}
use bst_staging.Pipeline.Commands.{
  in_scope, deps_elements, validate_workspace_index, started, first_enqueues, build_queues,
  build_start,
}
use bst_staging.Pipeline.Sessions.{builds_once}

-- The application is built from the tool, and both run with the base.
abbrev project : Elements
project = record { graph = diamond; is_cached = λ e. false; is_remotely_cached = λ e. false }

-- Without the tool the application still keeps the base; without the application nothing is left.
without_tool : deps_elements project 4 9 3 (in_scope all) ("tool.bst" ∷ []) ≡ kept (1 ∷ 3 ∷ [])
unfolding deps_elements remove_elements dependencies
without_tool = refl

without_app : deps_elements project 4 9 3 (in_scope all) ("app.bst" ∷ []) ≡ kept []
unfolding deps_elements remove_elements dependencies
without_app = refl

without_other : deps_elements project 4 9 3 (in_scope all) ("web.bst" ∷ []) ≡ no_element "web.bst"
unfolding deps_elements remove_elements dependencies
without_other = refl

-- An index that no source has is accepted.
any_index : validate_workspace_index 1 (some 7) ≡ some 7
unfolding validate_workspace_index
any_index = refl

tool_candidates :
    candidates_of diamond 4 (1 ∷ 2 ∷ 3 ∷ []) ("tool.bst" ∷ []) [] ≡ candidates (1 ∷ 2 ∷ [])
unfolding candidates_of dependencies
tool_candidates = refl

remove_elements-IsRemainder_example :
    (es : List Element) × (remove_elements diamond 4 9 (1 ∷ 2 ∷ 3 ∷ []) ("tool.bst" ∷ []) ≡ kept es)
    × IsRemainder diamond (1 ∷ 2 ∷ 3 ∷ []) ("tool.bst" ∷ []) (1 ∷ 2 ∷ []) es
remove_elements-IsRemainder_example =
    remove_elements-IsRemainder diamond 3 9 (1 ∷ 2 ∷ 3 ∷ []) ("tool.bst" ∷ []) (1 ∷ 2 ∷ [])
      tool_candidates (omega arith)

abbrev first_queues : List Queue
first_queues = first_enqueues toy [] (1 ∷ 2 ∷ 3 ∷ []) (build_queues toy false false true)

build_begins : build_start toy project 4 [] true false false true 3 ≡ started first_queues 3
unfolding build_start dependencies
build_begins = refl

builds_once_example :
    all_held 1 (run toy [] 2 100 first_queues (new_scheduler configured)).queues ≤ 1
builds_once_example =
    builds_once toy project 4 [] true false false true 3 1 first_queues 3 2 100
      (new_scheduler configured) refl build_begins here
