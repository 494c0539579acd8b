-- ===== src/Pipeline/Sessions.antt =====
-- The session that the command `build` starts.
use bst_staging.Prelude.{
  ℕ, ◌≤◌, ◌≡◌, sym, ap, Bool, true, false, ◌||◌, List, [], ◌∷◌, length, count, arith, nat_eq,
  string_eq, ◌==◌, ==_iff, Bool-cases, inl, inr,
}
use bst_staging.Element.Graph.{Element, Graph}
use bst_staging.Element.Dependencies.{all, dependencies}
use bst_staging.Element.Once.{named, dependencies_once}
use bst_staging.Scheduler.Elements.{ElementOps}
use bst_staging.Scheduler.Kinds.{Kind, track_queue, pull_queue, fetch_queue}
use bst_staging.Scheduler.Queue.{Queue, new_queue, enqueue}
use bst_staging.Scheduler.Session.{Scheduler, run}
use bst_staging.Scheduler.Events.{Reach}
use bst_staging.Scheduler.Ledger.{held, filed-enqueue}
use bst_staging.Scheduler.Conservation.{all_held, elements_never_duplicated}
use bst_staging.Pipeline.Planner.{Elements}
use bst_staging.Pipeline.Commands.{
  Start, started, inconsistent_pipeline, inconsistent_elements, if_all_consistent, first_enqueues,
  build_queues, build_start,
}

-- An element has its own name.
count-named : (g : Graph) (a : Element) (es : List Element) → count a es ≤ named g (g.name a) es
count-named g a [] = omega arith
count-named g a (e ∷ es) = elim (Bool-cases (a == e)) [
  | inl same ↦
      let name : string_eq.beq (g.name e) (g.name a) ≡ true =
        (string_eq.beq_iff (g.name e) (g.name a)).1 (ap g.name (sym ((==_iff a e).0 same))) in
      ground (arith, same, name, count-named g a es)
  | inr other ↦ elim (Bool-cases (string_eq.beq (g.name e) (g.name a))) [
    | inl name ↦ ground (arith, other, name, count-named g a es)
    | inr name ↦ ground (arith, other, name, count-named g a es)
  ]
]

abbrev queues_of : Start → List Queue
queues_of (started qs n) = qs
queues_of (inconsistent_pipeline es) = []

module _ {World : Type 0} (ops : ElementOps World) (a : Element) (w : World)
    (es : List Element) where
  held-new : (k : Kind) → held a (enqueue ops w es (new_queue k)) ≡ count a es
  held-new k = omega (arith, (filed-enqueue ops a w es (new_queue k)).1)

  -- The first queue gets the elements, the others are empty.
  held-first_enqueues :
      (track_first can_fetch can_push : Bool)
      → all_held a (first_enqueues ops w es (build_queues ops track_first can_fetch can_push))
        ≡ count a es
  held-first_enqueues true true true = omega (arith, held-new track_queue)
  held-first_enqueues true true false = omega (arith, held-new track_queue)
  held-first_enqueues true false true = omega (arith, held-new track_queue)
  held-first_enqueues true false false = omega (arith, held-new track_queue)
  held-first_enqueues false true true = omega (arith, held-new pull_queue)
  held-first_enqueues false true false = omega (arith, held-new pull_queue)
  held-first_enqueues false false true = omega (arith, held-new (fetch_queue true))
  held-first_enqueues false false false = omega (arith, held-new (fetch_queue true))

  -- A command that starts does so with its queues.
  started_queues :
      (track_first : Bool) (missing : List Element) (qs qs' : List Queue) (n m : ℕ)
      → if_all_consistent ops track_first missing (started qs n) ≡ started qs' m
      → all_held a qs' ≡ all_held a qs
  started_queues true missing qs qs' n m h = ap (λ x. all_held a (queues_of x)) (sym h)
  started_queues false [] qs qs' n m h = ap (λ x. all_held a (queues_of x)) (sym h)
  started_queues false (e ∷ missing) qs qs' n m h = cc

-- A build of all elements, or one that tracks first: however its session goes, no element is in its
-- queues more than once, waiting, running, done or failed, whether or not the graph has cycles.
pub builds_once :
    {World : Type 0} (ops : ElementOps World) (g : Elements) (fuel : ℕ) (w : World)
    (build_all track_first can_fetch can_push : Bool) (target a : Element) (qs : List Queue) (n : ℕ)
    (network_retries now : ℕ) (s : Scheduler) {w' : World} {s' : Scheduler}
    → (build_all || track_first) ≡ true
    → build_start ops g fuel w build_all track_first can_fetch can_push target ≡ started qs n
    → Reach ops w (run ops w network_retries now qs s) w' s'
    → all_held a s'.queues ≤ 1
unfolding build_start
builds_once ops g fuel w build_all track_first can_fetch can_push target a qs n network_retries now
      s whole begins r =
    let es = dependencies g.graph fuel all true target in
    let first = first_enqueues ops w es (build_queues ops track_first can_fetch can_push) in
    let same : if_all_consistent ops track_first (inconsistent_elements ops w es)
          (started first (length es))
        ≡ started qs n =
      ground (arith, whole, begins) in
    omega (
      arith,
      elements_never_duplicated ops a w network_retries now qs s r,
      started_queues ops a w es track_first (inconsistent_elements ops w es) first qs (length es) n
          same,
      held-first_enqueues ops a w es track_first can_fetch can_push,
      count-named g.graph a es,
      dependencies_once g.graph (g.graph.name a) fuel all true target,
    )
