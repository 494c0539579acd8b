-- ===== src/Scheduler/Kinds.antt =====
-- The queue classes of buildstream/_scheduler: trackqueue.py, pullqueue.py, fetchqueue.py,
-- buildqueue.py and pushqueue.py. A class is a constructor, a virtual method matches on it.
use bst_staging.Prelude.{
  ℕ, Bool, true, false, not, ◌||◌, ◌&&◌, Option, none, some, List, [], ◌∷◌, ◌==◌, if◌then◌else◌,
}
use bst_staging.Scheduler.Tokens.{QueueType, fetch, build, push}
use bst_staging.Scheduler.Elements.{Element, ElementOps, Consistency, cached}

pub data Kind : Type 0 where
  track_queue pull_queue build_queue push_queue : Kind
  fetch_queue : (skip_cached : Bool) → Kind

-- The class attribute `queue_type`
abbrev pub queue_type : Kind → QueueType
queue_type track_queue = fetch
queue_type pull_queue = fetch
queue_type build_queue = build
queue_type push_queue = push
queue_type (fetch_queue _) = fetch

-- What `process` returned in the child process: nothing, a truth value, a unique id, or the new
-- references of tracked sources. A reference is known up to equality only.
pub data JobResult : Type 0 where
  flag : Bool → JobResult
  unique_id : ℕ → JobResult
  refs : List (ℕ × ℕ) → JobResult

-- Python's truth of an optional result
abbrev pub truth : Option JobResult → Bool
truth none = false
truth (some (flag b)) = b
truth (some (unique_id n)) = not (n == 0)
truth (some (refs [])) = false
truth (some (refs (r ∷ rs))) = true

abbrev pub is_fully_cached : Consistency → Bool
is_fully_cached cached = true
is_fully_cached _ = false

module _ {World : Type 0} (ops : ElementOps World) where
  -- pullqueue.py, PullQueue.skip
  abbrev pull_skip : World → Element → Bool
  pull_skip w e =
      if ops.is_strong_cached w e
      then true
      else if ops.is_strong_remotely_cached w e
      then false
      else if ops.is_cached w e
      then true
      else if ops.is_remotely_cached w e
      then false
      else true

  unfoldable pub skip : Kind → World → Element → Bool
  skip track_queue w e = ops.source_count w e == 0
  skip pull_queue w e = pull_skip w e
  skip build_queue w e = ops.is_cached w e
  skip push_queue w e = ops.skip_push w e
  skip (fetch_queue skip_cached) w e =
      if skip_cached && ops.is_cached w e then true else is_fully_cached (ops.consistency w e)

  unfoldable pub ready : Kind → World → Element → Bool
  ready build_queue w e = ops.buildable w e
  ready _ w e = true

  -- The loop of TrackQueue.done over the new references.
  set_refs : World → List (ℕ × ℕ) → Bool × World
  set_refs w [] = (false, w)
  set_refs w ((source, ref) ∷ rest) =
      let (this, w') = ops.set_ref w source ref in
      let (more, w'') = set_refs w' rest in (this || more, w'')

  -- The references that a track job returned.
  abbrev refs_of : Option JobResult → List (ℕ × ℕ)
  refs_of (some (refs rs)) = rs
  refs_of _ = []

  -- What a successful job (returncode 0) tells the element; the flag is False for "skipped".
  unfoldable pub done_ok : Kind → World → Element → Option JobResult → Bool × World
  unfolding set_refs
  done_ok track_queue w e result =
      let (changed, w') = set_refs w (refs_of result) in (changed, ops.recalculate_consistency w' e)
  done_ok pull_queue w e result =
      let w' = ops.recalculate_cached w e in
      (truth result, if ops.is_cached w' e then ops.recalculate_cache_key w' e else w')
  done_ok build_queue w e result = (true, ops.recalculate_cached w e)
  done_ok push_queue w e result = (truth result, w)
  done_ok (fetch_queue _) w e result = (true, ops.bump_consistency w e cached)

  -- After a failed job only BuildQueue.done answers True.
  unfoldable pub done_failed : Kind → Bool
  done_failed build_queue = true
  done_failed _ = false

  unfoldable pub done : Kind → World → Element → Option JobResult → ℕ → Bool × World
  unfolding done_ok done_failed
  done k w e result returncode =
      if returncode == 0 then done_ok k w e result else (done_failed k, w)
