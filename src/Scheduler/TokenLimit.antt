-- ===== src/Scheduler/TokenLimit.antt =====
-- However the session goes, no type of job runs more often at once than the user configured.
use bst_staging.Prelude.{
  ℕ, suc, ◌+◌, ◌≡◌, ◌≤◌, refl, Bool, true, List, [], ◌∷◌, ◌++◌, arith, All, length, length-append,
  length-map, ◌∙◌, some, none, Option, ap, map, one_if,
}
use bst_staging.Scheduler.Tokens.{QueueType, Tokens, tokens_of, same_type}
use bst_staging.Scheduler.Elements.{ElementOps}
use bst_staging.Scheduler.Job.{
  Job, Envelope, Completion, child_complete, retried, completed, resume,
}
use bst_staging.Scheduler.Queue.{Queue, Active, all_jobs, type_of, attach, file_element, job_done}
use bst_staging.Scheduler.Session.{Scheduler, new_scheduler, run}
use bst_staging.Scheduler.Events.{
  Place, IsAt, with_queue, map_jobs, terminate_job, suspend_each, suspend_queues, suspend_jobs,
  resume_jobs, suspend_event, terminate_jobs_real, child_exit, after_exit, reschedule, Step, Reach,
  child_exits, stops_queueing, terminates, really_terminates, is_suspended, world_changes, here,
  next,
}
use bst_staging.Scheduler.TokenBalance.{
  in_use, all_in_use, supply, tokens_of-put, in_use-append, supply-sched,
}

in_use-map_jobs :
    (t : QueueType) (f : Job → Job) (qs : List Queue)
    → all_in_use t (map_jobs f qs) ≡ all_in_use t qs
in_use-map_jobs t f [] = refl
in_use-map_jobs t f (q ∷ qs) = ground (arith, in_use-map_jobs t f qs, length-map q.active_jobs f)

length-suspend_each :
    (alive : Job → Bool) (js : List Job) → length (suspend_each alive js).0 ≡ length js
unfolding suspend_each
length-suspend_each alive [] = refl
length-suspend_each alive (j ∷ js) = ap suc (length-suspend_each alive js)

in_use-suspend_queues :
    (t : QueueType) (alive : Job → Bool) (qs : List Queue)
    → all_in_use t (suspend_queues alive qs).0 ≡ all_in_use t qs
unfolding suspend_queues
in_use-suspend_queues t alive [] = refl
in_use-suspend_queues t alive (q ∷ qs) =
    ground (arith, in_use-suspend_queues t alive qs, length-suspend_each alive q.active_jobs)

supply-suspend_jobs :
    (t : QueueType) (alive : Job → Bool) (now : ℕ) (s : Scheduler)
    → supply t (suspend_jobs alive now s) ≡ supply t s
unfolding suspend_jobs
supply-suspend_jobs t alive now s = ground (arith, in_use-suspend_queues t alive s.queues)

supply-resume_jobs :
    (t : QueueType) (now : ℕ) (s : Scheduler) → supply t (resume_jobs now s) ≡ supply t s
unfolding resume_jobs
supply-resume_jobs t now s = ground (arith, in_use-map_jobs t resume s.queues)

supply-suspend_event :
    (t : QueueType) (alive : Job → Bool) (before after : ℕ) (s : Scheduler)
    → supply t (suspend_event alive before after s) ≡ supply t s
unfolding suspend_event
supply-suspend_event t alive before after s = ground (
  arith,
  supply-resume_jobs t after (suspend_jobs alive before s),
  supply-suspend_jobs t alive before s,
)

in_use-all_jobs :
    (t : QueueType) (q : Queue) (a : Active)
    → q.active_jobs ≡ all_jobs a
    → in_use t q
      ≡ in_use t (record q { active_jobs = a.before ++ a.after }) + one_if (same_type t (type_of q))
in_use-all_jobs t q a h =
    ground (arith, h, length-append a.before (a.job ∷ a.after), length-append a.before a.after)

module _ {World : Type 0} (ops : ElementOps World) where
  -- A finished job gives its token back.
  job_done_balance :
      (t : QueueType) (w : World) (q : Queue) (a : Active) (envelopes : List Envelope)
      (returncode : ℕ) (tok : Tokens) {w' : World} {q' : Queue} {tok' : Tokens}
      → job_done ops w q a envelopes returncode tok ≡ some (w', q', tok')
      → tokens_of t tok' + in_use t q'
        ≡ tokens_of t tok
          + in_use t (record q { active_jobs = a.before ++ a.after })
          + one_if (same_type t (type_of q))
  unfolding job_done file_element
  job_done_balance t w q a envelopes returncode tok e =
      ground (arith, tokens_of-put t (type_of q) tok)

  reschedule-supply :
      (t : QueueType) (s : Scheduler) (p : Place) (a : Active) (r : Option (World × Queue × Tokens))
      {w' : World} {s' : Scheduler}
      → ((w : World) (q : Queue) (tok : Tokens)
          → r ≡ some (w, q, tok)
          → tokens_of t tok + in_use t q ≡ tokens_of t s.job_tokens + in_use t p.queue)
      → s.queues ≡ with_queue p p.queue
      → reschedule ops s p r ≡ some (w', s')
      → supply t s' ≡ supply t s
  unfolding reschedule
  reschedule-supply t s p a none h at e = cc
  reschedule-supply t s p a (some (w, q, tok)) h at e = ground (
    arith,
    h w q tok refl,
    supply-sched ops t w (record s { queues = with_queue p q; job_tokens = tok }),
    in_use-append t p.front (q ∷ p.back),
    in_use-append t p.front (p.queue ∷ p.back),
  )

  after_exit-supply :
      (t : QueueType) (w : World) (s : Scheduler) (p : Place) (envelopes : List Envelope)
      (returncode : ℕ) (c : Option Completion) {w' : World} {s' : Scheduler}
      → IsAt p s.queues
      → after_exit ops w s p envelopes returncode c ≡ some (w', s')
      → supply t s' ≡ supply t s
  unfolding after_exit
  after_exit-supply t w s p envelopes returncode none at e = cc
  after_exit-supply t w s p envelopes returncode (some (retried j)) at e = ground (
    arith,
    at.queues_split,
    in_use-all_jobs t p.queue p.active at.jobs_split,
    length-append p.active.before (j ∷ p.active.after),
    length-append p.active.before (p.active.job ∷ p.active.after),
    in_use-append t p.front (p.queue ∷ p.back),
    in_use-append t p.front
        (record p.queue { active_jobs = p.active.before ++ (j ∷ p.active.after) } ∷ p.back),
  )
  after_exit-supply t w s p envelopes returncode (some (completed j)) at e =
      let a = record p.active { job = j } in
      reschedule-supply t s p a (job_done ops w p.queue a envelopes returncode s.job_tokens)
        (λ w' q tok d. omega (
          arith,
          job_done_balance t w p.queue a envelopes returncode s.job_tokens d,
          in_use-all_jobs t p.queue p.active at.jobs_split,
        ))
        at.queues_split e

  Step-supply :
      (t : QueueType) {w w' : World} {s s' : Scheduler}
      → Step ops w s w' s'
      → supply t s' ≡ supply t s
  unfolding child_exit terminate_jobs_real
  Step-supply t {w = w} {s = s} (child_exits p envelopes returncode at e) =
      after_exit-supply t w s p envelopes returncode
        (child_complete p.active.job envelopes returncode) at e
  Step-supply t stops_queueing = refl
  Step-supply t terminates = refl
  Step-supply t {s = s} (really_terminates h) =
      omega (arith, in_use-map_jobs t terminate_job s.queues)
  Step-supply t {s = s} (is_suspended alive before after) =
      supply-suspend_event t alive before after s
  Step-supply t (world_changes w') = refl

  Reach-supply :
      (t : QueueType) {w : World} {s : Scheduler} {w' : World} {s' : Scheduler}
      → Reach ops w s w' s'
      → supply t s' ≡ supply t s
  Reach-supply t here = refl
  Reach-supply t (next r step) = Step-supply t step ∙ Reach-supply t r

-- A queue that has not started a job, as the pipeline hands it to the scheduler.
abbrev pub IsIdle : Queue → Type 0
IsIdle q = q.active_jobs ≡ []

in_use-attach :
    (t : QueueType) (network_retries : ℕ) (qs : List Queue)
    → All IsIdle qs
    → all_in_use t (map (attach network_retries) qs) ≡ 0
unfolding attach
in_use-attach t network_retries [] h = refl
in_use-attach t network_retries (q ∷ qs) h =
    ground (arith, in_use-attach t network_retries qs h.1, h.0)

-- In every state that a session reaches, the free tokens of a type and the jobs of that type that
-- run add up to the number that the user configured, if the queues had no job when the session
-- started. So no more jobs of a type run at once than are configured, and no token is lost.
pub running_jobs_limit :
    {World : Type 0} (ops : ElementOps World) (t : QueueType) (configured : Tokens) (w : World)
    (network_retries now : ℕ) (qs : List Queue) {w' : World} {s' : Scheduler}
    → All IsIdle qs
    → Reach ops w (run ops w network_retries now qs (new_scheduler configured)) w' s'
    → (tokens_of t s'.job_tokens + all_in_use t s'.queues ≡ tokens_of t configured)
      × (all_in_use t s'.queues ≤ tokens_of t configured)
unfolding run
running_jobs_limit ops t configured w network_retries now qs {s' = s'} h r =
    let start = record (new_scheduler configured) {
      starttime = some now;
      queues = map (attach network_retries) qs;
      running = true;
    } in
    let total : supply t s' ≡ tokens_of t configured = omega (
      arith,
      Reach-supply ops t r,
      supply-sched ops t w start,
      in_use-attach t network_retries qs h,
    ) in
    (total, omega arith)
