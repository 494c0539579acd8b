-- ===== src/Scheduler/Job.antt =====
-- buildstream/_scheduler/job.py, the parent's side of a job: spawning, retries, the messages and
-- the result that the child process sends, suspension.
use bst_staging.Prelude.{
  ℕ, ◌+◌, Bool, true, false, not, ◌&&◌, Option, none, some, List, [], ◌∷◌, ◌==◌, leb, if◌then◌else◌,
}
use bst_staging.Scheduler.Elements.{Element}
use bst_staging.Scheduler.Kinds.{JobResult}

pub record Job : Type 0 where
  pub element : Element
  pub tries : ℕ
  pub max_retries : ℕ
  pub listening : Bool
  pub suspended : Bool
  pub result : Option JobResult

-- Job.__init__; `max_retries` has no meaning before `spawn` sets it.
unfoldable pub create : Element → Job
create e = record {
  element = e;
  tries = 0;
  max_retries = 0;
  listening = false;
  suspended = false;
  result = none;
}

unfoldable pub spawn : Job → ℕ → Job
spawn j max_retries = record j { tries = j.tries + 1; max_retries = max_retries; listening = true }

-- What a child process puts on the queue of its job. A message is passed on to the frontend.
pub data Envelope : Type 0 where
  message : (text : ℕ) → Envelope
  result : JobResult → Envelope

-- `none` is the failure of `assert(self.result is None)`.
unfoldable pub parent_process_envelope : Job → Envelope → Option Job
parent_process_envelope j (message text) = some j
parent_process_envelope j (result r) =
    if j.listening
    then elim j.result [ none ↦ some (record j { result = some r }) | some _ ↦ none ]
    else some j

unfoldable pub parent_process_queue : Job → List Envelope → Option Job
unfolding parent_process_envelope
parent_process_queue j [] = some j
parent_process_queue j (e ∷ rest) = elim (parent_process_envelope j e) [
  | none ↦ none
  | some j' ↦ parent_process_queue j' rest
]

unfoldable pub parent_stop_listening : Job → Job
parent_stop_listening j = record j { listening = false }

unfoldable pub shutdown : Job → List Envelope → Option Job
unfolding parent_process_queue parent_stop_listening
shutdown j envelopes = elim (parent_process_queue j envelopes) [
  | none ↦ none
  | some j' ↦ some (parent_stop_listening j')
]

-- What `child_complete` decides: run the action again, or call `complete`.
pub data Completion : Type 0 where
  retried : Job → Completion
  completed : Job → Completion

-- Whether a failed child is spawned again.
unfoldable pub will_retry : Job → ℕ → Bool
will_retry j returncode = not (returncode == 0) && leb j.tries j.max_retries

unfoldable pub child_complete : Job → List Envelope → ℕ → Option Completion
unfolding will_retry shutdown spawn
child_complete j envelopes returncode =
    if will_retry j returncode
    then elim (shutdown j envelopes) [
      | none ↦ none
      | some j' ↦ some (retried (spawn j' j'.max_retries))
    ]
    else some (completed j)

-- Job.suspend: whether the child still runs is known to the operating system only.
unfoldable pub suspend : (alive : Bool) → Job → Job × ℕ
suspend alive j =
    if j.suspended then (j, 0) else if alive then (record j { suspended = true }, 1) else (j, 0)

unfoldable pub resume : Job → Job
resume j = if j.suspended then record j { suspended = false } else j
