-- ===== src/Scheduler/Events.antt =====
-- What happens to a running scheduler: a child process ends, the process is suspended and resumed,
-- the session is told to stop or to terminate.
use bst_staging.Prelude.{
  ℕ, zero, suc, ◌+◌, ◌-◌, ◌≡◌, Bool, true, false, Option, none, some, List, [], ◌∷◌, ◌++◌, map,
  if◌then◌else◌,
}
use bst_staging.Scheduler.Tokens.{Tokens}
use bst_staging.Scheduler.Elements.{ElementOps}
use bst_staging.Scheduler.Job.{
  Job, Envelope, Completion, retried, completed, child_complete, suspend, resume,
  parent_stop_listening,
}
use bst_staging.Scheduler.Queue.{Queue, Active, all_jobs, job_done}
use bst_staging.Scheduler.Session.{Scheduler, sched, stop_queueing}

-- A queue of the session with the queues in front of it and behind it, and one of its jobs.
pub record Place : Type 0 where
  pub front : List Queue
  pub queue : Queue
  pub back : List Queue
  pub active : Active

abbrev pub with_queue : Place → Queue → List Queue
with_queue p q = p.front ++ (q ∷ p.back)

-- The place is one of the session's.
pub record IsAt (p : Place) (queues : List Queue) : Type 0 where
  pub queues_split : queues ≡ with_queue p p.queue
  pub jobs_split : p.queue.active_jobs ≡ all_jobs p.active

-- Job.terminate
unfoldable pub terminate_job : Job → Job
terminate_job j = parent_stop_listening (resume j)

abbrev pub map_jobs : (Job → Job) → List Queue → List Queue
map_jobs f [] = []
map_jobs f (q ∷ qs) = record q { active_jobs = map f q.active_jobs } ∷ map_jobs f qs

-- The jobs of one queue after `job.suspend()`, with the number of stops that were counted.
unfoldable pub suspend_each : (Job → Bool) → List Job → List Job × ℕ
suspend_each alive [] = ([], 0)
suspend_each alive (j ∷ js) =
    let (j', stop) = suspend (alive j) j in
    let (js', stops) = suspend_each alive js in (j' ∷ js', stop + stops)

unfoldable pub suspend_queues : (Job → Bool) → List Queue → List Queue × ℕ
unfolding suspend_each
suspend_queues alive [] = ([], 0)
suspend_queues alive (q ∷ qs) =
    let (js, stops) = suspend_each alive q.active_jobs in
    let (qs', more) = suspend_queues alive qs in (record q { active_jobs = js } ∷ qs', stops + more)

unfoldable pub suspend_jobs : (alive : Job → Bool) → (now : ℕ) → Scheduler → Scheduler
suspend_jobs alive now s =
    if s.suspended
    then s
    else let (qs, stops) = suspend_queues alive s.queues in
      record s {
        suspendtime = some now;
        suspended = true;
        queues = qs;
        internal_stops = s.internal_stops + stops;
      }

-- `starttime += now - suspendtime`; both are set while jobs are suspended.
abbrev shift_start : (now : ℕ) → Option ℕ → Option ℕ → Option ℕ
shift_start now (some start) (some since) = some (start + (now - since))
shift_start now start since = start

unfoldable pub resume_jobs : (now : ℕ) → Scheduler → Scheduler
resume_jobs now s =
    if s.suspended
    then record s {
      queues = map_jobs resume s.queues;
      suspended = false;
      starttime = shift_start now s.starttime s.suspendtime;
      suspendtime = none;
    }
    else s

-- SIGTSTP: the process stops itself at `before` and is continued at `after`.
unfoldable pub suspend_event : (alive : Job → Bool) → (before after : ℕ) → Scheduler → Scheduler
unfolding suspend_jobs resume_jobs
suspend_event alive before after s = elim s.internal_stops [
  | zero ↦ resume_jobs after (suspend_jobs alive before s)
  | suc n ↦ record s { internal_stops = n }
]

abbrev pub terminate_jobs : Scheduler → Scheduler
terminate_jobs s = record s { terminated = true }

-- The call that `terminate_jobs` schedules; waiting for the children and killing them is the
-- operating system's.
unfoldable pub terminate_jobs_real : Scheduler → Scheduler
unfolding terminate_job
terminate_jobs_real s = record s { queues = map_jobs terminate_job s.queues; running = false }

module _ {World : Type 0} (ops : ElementOps World) where
  -- The end of `job_done`: another round of scheduling.
  unfoldable pub reschedule :
      Scheduler → Place → Option (World × Queue × Tokens) → Option (World × Scheduler)
  reschedule s p none = none
  reschedule s p (some (w, q, tokens)) =
      some (w, sched ops w (record s { queues = with_queue p q; job_tokens = tokens }))

  unfoldable pub after_exit :
      World
      → Scheduler
      → Place
      → List Envelope
      → (returncode : ℕ) → Option Completion
      → Option (World × Scheduler)
  unfolding reschedule
  after_exit w s p envelopes returncode none = none
  after_exit w s p envelopes returncode (some (retried j)) =
      let jobs = p.active.before ++ (j ∷ p.active.after) in
      some (w, record s { queues = with_queue p (record p.queue { active_jobs = jobs }) })
  after_exit w s p envelopes returncode (some (completed j)) =
      let active = record p.active { job = j } in
      reschedule s p (job_done ops w p.queue active envelopes returncode s.job_tokens)

  -- A child process ended: Job.child_complete, then Queue.job_done, then Scheduler.sched.
  unfoldable pub child_exit :
      World → Scheduler → Place → List Envelope → (returncode : ℕ) → Option (World × Scheduler)
  unfolding after_exit
  child_exit w s p envelopes returncode =
      after_exit w s p envelopes returncode (child_complete p.active.job envelopes returncode)

  -- One event of the main loop.
  pub data Step (w : World) (s : Scheduler) : World → Scheduler → Type 0 where
    child_exits :
        {w' : World} {s' : Scheduler} (p : Place) (envelopes : List Envelope) (returncode : ℕ)
        → IsAt p s.queues
        → child_exit w s p envelopes returncode ≡ some (w', s')
        → Step w s w' s'
    stops_queueing : Step w s w (stop_queueing s)
    terminates : Step w s w (terminate_jobs s)
    really_terminates : s.terminated ≡ true → Step w s w (terminate_jobs_real s)
    is_suspended :
        (alive : Job → Bool) (before after : ℕ) → Step w s w (suspend_event alive before after s)
    -- what other processes and the user do to the elements meanwhile
    world_changes : (w' : World) → Step w s w' s

  pub data Reach (w : World) (s : Scheduler) : World → Scheduler → Type 0 where
    here : Reach w s w s
    next :
        {w' w'' : World} {s' s'' : Scheduler}
        → Reach w s w' s'
        → Step w' s' w'' s''
        → Reach w s w'' s''
