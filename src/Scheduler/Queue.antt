-- ===== src/Scheduler/Queue.antt =====
-- buildstream/_scheduler/queue.py: one queue of the session and its methods.
use bst_staging.Prelude.{
  ℕ, Bool, true, false, not, Option, none, some, List, [], ◌∷◌, ◌++◌, ◌==◌, keep, extendleft,
  if◌then◌else◌,
}
use bst_staging.Scheduler.Tokens.{QueueType, build, Tokens, get_job_token, put_job_token}
use bst_staging.Scheduler.Elements.{Element, ElementOps}
use bst_staging.Scheduler.Kinds.{Kind, queue_type, skip, ready, done}
use bst_staging.Scheduler.Job.{Job, Envelope, create, spawn, shutdown}

pub record Queue : Type 0 where
  pub kind : Kind
  pub wait_queue : List Element
  pub done_queue : List Element
  pub active_jobs : List Job
  pub max_retries : ℕ
  pub failed_elements : List Element
  pub processed_elements : List Element
  pub skipped_elements : List Element

-- Queue.__init__
abbrev pub new_queue : Kind → Queue
new_queue k = record {
  kind = k;
  wait_queue = [];
  done_queue = [];
  active_jobs = [];
  max_retries = 0;
  failed_elements = [];
  processed_elements = [];
  skipped_elements = [];
}

abbrev pub type_of : Queue → QueueType
type_of q = queue_type q.kind

-- Whether the jobs of a type use the network.
abbrev uses_network : QueueType → Bool
uses_network build = false
uses_network _ = true

-- `network_retries` is the user's setting `sched_network_retries`.
unfoldable pub attach : (network_retries : ℕ) → Queue → Queue
attach network_retries q =
    if uses_network (type_of q) then record q { max_retries = network_retries } else q

-- The job at hand, the jobs in front of it and the jobs behind it in `active_jobs`.
pub record Active : Type 0 where
  pub before : List Job
  pub job : Job
  pub after : List Job

abbrev pub all_jobs : Active → List Job
all_jobs a = a.before ++ (a.job ∷ a.after)

-- The tail of `job_done` once the job has been shut down, up to the call of the scheduler.
unfoldable pub file_element : Bool → ℕ → Element → Queue → Queue
file_element appears_processed returncode e q =
    if returncode == 0
    then (if appears_processed
        then record q {
          done_queue = q.done_queue ++ (e ∷ []);
          processed_elements = q.processed_elements ++ (e ∷ []);
        }
        else record q {
          done_queue = q.done_queue ++ (e ∷ []);
          skipped_elements = q.skipped_elements ++ (e ∷ []);
        })
    else record q { failed_elements = q.failed_elements ++ (e ∷ []) }

-- The local variables of `process_ready`.
pub record Pass : Type 0 where
  pub queue : Queue
  pub tokens : Tokens
  pub unready : List Element

-- `list(queue.dequeue())`: everything on the done queue, and the queue without it.
unfoldable pub dequeue : Queue → List Element × Queue
dequeue q = (q.done_queue, record q { done_queue = [] })

module _ {World : Type 0} (ops : ElementOps World) where
  unfoldable pub enqueue : World → List Element → Queue → Queue
  enqueue w [] q = q
  enqueue w (e ∷ es) q =
      let skipping = keep (skip ops q.kind w) (e ∷ es) in
      let waiting = keep (λ x. not (skip ops q.kind w x)) (e ∷ es) in
      record q {
        wait_queue = q.wait_queue ++ waiting;
        done_queue = q.done_queue ++ skipping;
        skipped_elements = q.skipped_elements ++ skipping;
      }

  -- One element of the loop, once its token is taken.
  unfoldable pub visit : World → Element → Pass → Pass
  visit w e p =
      let q = p.queue in
      if not (ready ops q.kind w e)
      then record p { tokens = put_job_token (type_of q) p.tokens; unready = p.unready ++ (e ∷ []) }
      else if skip ops q.kind w e
      then record p {
        tokens = put_job_token (type_of q) p.tokens;
        queue = record q {
          done_queue = q.done_queue ++ (e ∷ []);
          skipped_elements = q.skipped_elements ++ (e ∷ []);
        };
      }
      else record p {
        queue = record q { active_jobs = q.active_jobs ++ (spawn (create e) q.max_retries ∷ []) };
      }

  -- The loop over `wait_queue`: `rest` is what the loop has not popped yet.
  unfoldable pub process_loop : World → (rest : List Element) → Pass → Pass × List Element
  unfolding visit
  process_loop w [] p = (p, [])
  process_loop w (e ∷ rest) p =
      let taken = get_job_token (type_of p.queue) p.tokens in
      let go = process_loop w rest (visit w e (record p { tokens = taken.1 })) in
      if taken.0 then go else (p, e ∷ rest)

  unfoldable pub process_ready : World → Queue → Tokens → Queue × Tokens
  unfolding process_loop
  process_ready w q tokens =
      let (p, rest) =
        process_loop w q.wait_queue (record { queue = q; tokens = tokens; unready = [] }) in
      (record p.queue { wait_queue = extendleft p.unready rest }, p.tokens)

  -- The part of `job_done` behind `job.shutdown()`.
  unfoldable pub finish_job :
      World → Queue → Active → (returncode : ℕ) → Tokens → Job → World × Queue × Tokens
  finish_job w q a returncode tokens j =
      let (appears_processed, w') = done ops q.kind w j.element j.result returncode in
      let q' = record q { active_jobs = a.before ++ a.after } in
      (w', file_element appears_processed returncode j.element q', put_job_token (type_of q) tokens)

  -- `job_done` up to the call of `scheduler.sched()`; `none` is a failed assertion in `shutdown`.
  unfoldable pub job_done :
      World
      → Queue
      → Active
      → List Envelope
      → (returncode : ℕ) → Tokens
      → Option (World × Queue × Tokens)
  unfolding finish_job
  job_done w q a envelopes returncode tokens = elim (shutdown a.job envelopes) [
    | none ↦ none
    | some j ↦ some (finish_job w q a returncode tokens j)
  ]
