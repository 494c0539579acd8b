-- ===== src/Pipeline/Commands.antt =====
-- How the commands of class Pipeline (buildstream/_pipeline.py) start a session: which elements they
-- give to which queues. The graph and the planner's answers are those of Planner, what else they
-- ask of an element is ElementOps.
use bst_staging.Prelude.{
  ℕ, zero, suc, Bool, true, false, not, ◌||◌, Option, none, some, String, List, [], ◌∷◌, ◌++◌, keep,
  length, if◌then◌else◌, nat_eq,
}
use bst_staging.Element.Graph.{Element}
use bst_staging.Element.Dependencies.{Scope, all, dependencies}
use bst_staging.Scheduler.Elements.{ElementOps, Consistency, inconsistent}
use bst_staging.Scheduler.Kinds.{
  Kind, track_queue, pull_queue, fetch_queue, build_queue, push_queue, is_fully_cached,
}
use bst_staging.Scheduler.Queue.{Queue, new_queue, enqueue}
use bst_staging.Scheduler.Session.{SchedStatus, success}
use bst_staging.Pipeline.Planner.{Elements, plan}
use bst_staging.Pipeline.Removal.{Removal, remove_elements}

-- The values of --deps
pub data DepsMode : Type 0 where
  only_target planned : DepsMode
  in_scope : Scope → DepsMode

-- `fuel` is that of the walks and of the planner, `rounds` that of remove_elements.
unfoldable pub deps_elements :
    Elements → (fuel rounds : ℕ) → (target : Element) → DepsMode → (except : List String) → Removal
deps_elements w fuel rounds target only_target except =
    remove_elements w.graph fuel rounds (target ∷ []) except
deps_elements w fuel rounds target planned except =
    remove_elements w.graph fuel rounds (plan w fuel target) except
deps_elements w fuel rounds target (in_scope s) except =
    remove_elements w.graph fuel rounds (dependencies w.graph fuel s true target) except

-- The index of a source that a workspace command works on, or a PipelineError
unfoldable pub validate_workspace_index : (source_count : ℕ) → Option ℕ → Option ℕ
validate_workspace_index zero index = none
validate_workspace_index (suc n) (some i) = some i
validate_workspace_index (suc zero) none = some 0
validate_workspace_index (suc (suc n)) none = none

-- How a command begins: with the queues that scheduler.run is given and the number of elements, or
-- with the elements for which it raises PipelineError.
pub data Start : Type 0 where
  started : List Queue → (session_elements : ℕ) → Start
  inconsistent_pipeline : List Element → Start

abbrev pub is_inconsistent : Consistency → Bool
is_inconsistent inconsistent = true
is_inconsistent _ = false

-- `raise PipelineError()` behind scheduler.run
abbrev pub is_failure : SchedStatus → Bool
is_failure success = false
is_failure _ = true

module _ {World : Type 0} (ops : ElementOps World) where
  -- assert_consistent, which raises if there are any
  abbrev pub inconsistent_elements : World → List Element → List Element
  inconsistent_elements w es = keep (λ e. is_inconsistent (ops.consistency w e)) es

  abbrev pub if_all_consistent :
      (track_first : Bool) → (inconsistent : List Element) → Start → Start
  if_all_consistent true es start = start
  if_all_consistent false [] start = start
  if_all_consistent false (e ∷ es) start = inconsistent_pipeline (e ∷ es)

  -- `queues[0].enqueue(plan)`
  abbrev pub first_enqueues : World → List Element → List Queue → List Queue
  first_enqueues w es [] = []
  first_enqueues w es (q ∷ qs) = enqueue ops w es q ∷ qs

  abbrev pub track_start : World → List Element → Start
  track_start w es = started (first_enqueues w es (new_queue track_queue ∷ [])) (length es)

  unfoldable pub fetch_start : World → (track_first : Bool) → List Element → Start
  fetch_start w track_first es =
      let missing = keep (λ e. not (is_fully_cached (ops.consistency w e))) es in
      let queues =
        if track_first
        then new_queue track_queue ∷ new_queue (fetch_queue false) ∷ []
        else new_queue (fetch_queue false) ∷ [] in
      if_all_consistent track_first (inconsistent_elements w es)
        (started (first_enqueues w missing queues) (length missing))

  abbrev pub optional_queue : Bool → Kind → List Queue
  optional_queue b kind = if b then new_queue kind ∷ [] else []

  abbrev pub build_queues : (track_first can_fetch can_push : Bool) → List Queue
  build_queues track_first can_fetch can_push =
      optional_queue track_first track_queue
      ++ (optional_queue can_fetch pull_queue
          ++ (new_queue (fetch_queue true)
              ∷ new_queue build_queue
              ∷ optional_queue can_push push_queue))

  unfoldable pub build_start :
      Elements
      → (fuel : ℕ) → World
      → (build_all track_first can_fetch can_push : Bool) → (target : Element) → Start
  build_start g fuel w build_all track_first can_fetch can_push target =
      let es =
        if build_all || track_first
        then dependencies g.graph fuel all true target
        else plan g fuel target in
      if_all_consistent track_first (inconsistent_elements w es)
        (started (first_enqueues w es (build_queues track_first can_fetch can_push)) (length es))
