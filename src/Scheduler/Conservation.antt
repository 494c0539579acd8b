-- ===== src/Scheduler/Conservation.antt =====
-- Elements move forward through the queues of a session; none is lost or runs twice.
use bst_staging.Prelude.{
  ℕ, ◌+◌, ◌≤◌, ◌≡◌, refl, Bool, true, List, [], ◌∷◌, ◌++◌, arith, Option, none, some, count, map,
  if◌then◌else◌,
}
use bst_staging.Scheduler.Tokens.{Tokens}
use bst_staging.Scheduler.Elements.{Element, ElementOps}
use bst_staging.Scheduler.Job.{
  Job, Envelope, Completion, retried, completed, child_complete, resume, suspend,
  parent_stop_listening,
}
use bst_staging.Scheduler.Queue.{Queue, attach, enqueue, dequeue, job_done}
use bst_staging.Scheduler.Session.{
  Scheduler, pull_forward, process_queues, schedule_round, sched, run,
}
use bst_staging.Scheduler.Events.{
  Place, IsAt, with_queue, map_jobs, terminate_job, suspend_each, suspend_queues, suspend_jobs,
  resume_jobs, suspend_event, terminate_jobs_real, child_exit, after_exit, reschedule, Step, Reach,
  child_exits, stops_queueing, terminates, really_terminates, is_suspended, world_changes, here,
  next,
}
use bst_staging.Scheduler.Ledger.{
  job_elements, held, count-job_elements, filed-enqueue, filed-process_ready, filed-job_done,
}
use bst_staging.Scheduler.Retries.{child_complete-IsCompletionOf}

-- How often an element is in the queues of a session.
abbrev pub all_held : Element → List Queue → ℕ
all_held a [] = 0
all_held a (q ∷ qs) = held a q + all_held a qs

all_held-append :
    (a : Element) (qs rs : List Queue) → all_held a (qs ++ rs) ≡ all_held a qs + all_held a rs
all_held-append a [] rs = omega arith
all_held-append a (q ∷ qs) rs = omega (arith, all_held-append a qs rs)

held-dequeue : (a : Element) (q : Queue) → held a (dequeue q).1 + count a (dequeue q).0 ≡ held a q
unfolding dequeue
held-dequeue a q = omega arith

module _ {World : Type 0} (ops : ElementOps World) where
  -- What the first loop of a round takes out of the last queue.
  abbrev pub departed : World → Scheduler → List Element
  departed w s = if s.queue_jobs then (pull_forward ops w [] s.queues).1 else []

  held-pull_forward :
      (a : Element) (w : World) (es : List Element) (qs : List Queue)
      → all_held a (pull_forward ops w es qs).0 + count a (pull_forward ops w es qs).1
        ≡ all_held a qs + count a es
  unfolding pull_forward
  held-pull_forward a w es [] = omega arith
  held-pull_forward a w es (q ∷ qs) =
      let q' = enqueue ops w es q in
      omega (
        arith,
        filed-enqueue ops a w es q,
        held-dequeue a q',
        held-pull_forward a w (dequeue q').0 qs,
      )

  held-process_queues :
      (a : Element) (w : World) (qs : List Queue) (tok : Tokens)
      → all_held a (process_queues ops w qs tok).0 ≡ all_held a qs
  unfolding process_queues
  held-process_queues a w [] tok = refl
  held-process_queues a w (q ∷ qs) tok = omega (
    arith,
    held-process_queues a w qs tok,
    filed-process_ready ops a w q (process_queues ops w qs tok).1,
  )

  -- A round of scheduling moves elements between and within queues: the elements in the queues
  -- before it are those in the queues after it and those that left the last queue, each as often.
  pub held-sched :
      (a : Element) (w : World) (s : Scheduler)
      → all_held a (sched ops w s).queues + count a (departed w s) ≡ all_held a s.queues
  unfolding sched schedule_round
  held-sched a w s = ground (
    arith,
    held-pull_forward a w [] s.queues,
    held-process_queues a w (pull_forward ops w [] s.queues).0 s.job_tokens,
  )

  held-reschedule :
      (a : Element) (s : Scheduler) (p : Place) (r : Option (World × Queue × Tokens)) {w' : World}
      {s' : Scheduler}
      → ((w : World) (q : Queue) (tok : Tokens) → r ≡ some (w, q, tok) → held a q ≡ held a p.queue)
      → s.queues ≡ with_queue p p.queue
      → reschedule ops s p r ≡ some (w', s')
      → all_held a s'.queues ≤ all_held a s.queues
  unfolding reschedule
  held-reschedule a s p none h at e = cc
  held-reschedule a s p (some (w, q, tok)) h at e = ground (
    arith,
    h w q tok refl,
    held-sched a w (record s { queues = with_queue p q; job_tokens = tok }),
    all_held-append a p.front (q ∷ p.back),
    all_held-append a p.front (p.queue ∷ p.back),
  )

  held-after_exit :
      (a : Element) (w : World) (s : Scheduler) (p : Place) (envelopes : List Envelope)
      (returncode : ℕ) (c : Option Completion) {w' : World} {s' : Scheduler}
      → IsAt p s.queues
      → child_complete p.active.job envelopes returncode ≡ c
      → after_exit ops w s p envelopes returncode c ≡ some (w', s')
      → all_held a s'.queues ≤ all_held a s.queues
  unfolding after_exit
  held-after_exit a w s p envelopes returncode none at c e = cc
  held-after_exit a w s p envelopes returncode (some (retried j)) at c e = ground (
    arith,
    at.queues_split,
    at.jobs_split,
    child_complete-IsCompletionOf p.active.job envelopes returncode (retried j) c,
    count-job_elements a p.active.before (j ∷ p.active.after),
    count-job_elements a p.active.before (p.active.job ∷ p.active.after),
    all_held-append a p.front (p.queue ∷ p.back),
    all_held-append a p.front
        (record p.queue { active_jobs = p.active.before ++ (j ∷ p.active.after) } ∷ p.back),
  )
  held-after_exit a w s p envelopes returncode (some (completed j)) at c e =
      let same = child_complete-IsCompletionOf p.active.job envelopes returncode (completed j) c in
      let active = record p.active { job = j } in
      held-reschedule a s p (job_done ops w p.queue active envelopes returncode s.job_tokens)
        (λ w' q tok d.
          (filed-job_done ops a w p.queue active envelopes returncode s.job_tokens
            (rw same.0 at.jobs_split) d).1)
        at.queues_split e

-- A change of the jobs that keeps their elements
held-map_jobs :
    (a : Element) (f : Job → Job) (qs : List Queue)
    → ((j : Job) → (f j).element ≡ j.element)
    → all_held a (map_jobs f qs) ≡ all_held a qs
held-map_jobs a f [] h = refl
held-map_jobs a f (q ∷ qs) h = omega (arith, held-map_jobs a f qs h, each q.active_jobs)
  where
    each : (js : List Job) → count a (job_elements (map f js)) ≡ count a (job_elements js)
    each [] = refl
    each (j ∷ js) = ground (arith, h j, each js)

elements-suspend_each :
    (a : Element) (alive : Job → Bool) (js : List Job)
    → count a (job_elements (suspend_each alive js).0) ≡ count a (job_elements js)
unfolding suspend_each suspend
elements-suspend_each a alive [] = refl
elements-suspend_each a alive (j ∷ js) = ground (arith, elements-suspend_each a alive js)

held-suspend_queues :
    (a : Element) (alive : Job → Bool) (qs : List Queue)
    → all_held a (suspend_queues alive qs).0 ≡ all_held a qs
unfolding suspend_queues
held-suspend_queues a alive [] = refl
held-suspend_queues a alive (q ∷ qs) =
    omega (arith, held-suspend_queues a alive qs, elements-suspend_each a alive q.active_jobs)

element-resume : (j : Job) → (resume j).element ≡ j.element
unfolding resume
element-resume j = ground arith

element-terminate_job : (j : Job) → (terminate_job j).element ≡ j.element
unfolding terminate_job parent_stop_listening
element-terminate_job j = element-resume j

held-suspend_event :
    (a : Element) (alive : Job → Bool) (before after : ℕ) (s : Scheduler)
    → all_held a (suspend_event alive before after s).queues ≡ all_held a s.queues
unfolding suspend_event suspend_jobs resume_jobs
held-suspend_event a alive before after s = ground (
  arith,
  held-suspend_queues a alive s.queues,
  held-map_jobs a resume s.queues element-resume,
  held-map_jobs a resume (suspend_queues alive s.queues).0 element-resume,
)

module _ {World : Type 0} (ops : ElementOps World) (a : Element) where
  Step-held :
      {w w' : World} {s s' : Scheduler}
      → Step ops w s w' s'
      → all_held a s'.queues ≤ all_held a s.queues
  unfolding child_exit terminate_jobs_real
  Step-held {w = w} {s = s} (child_exits p envelopes returncode at e) =
      held-after_exit ops a w s p envelopes returncode
        (child_complete p.active.job envelopes returncode) at refl e
  Step-held stops_queueing = omega arith
  Step-held terminates = omega arith
  Step-held {s = s} (really_terminates h) =
      omega (arith, held-map_jobs a terminate_job s.queues element-terminate_job)
  Step-held {s = s} (is_suspended alive before after) =
      omega (arith, held-suspend_event a alive before after s)
  Step-held (world_changes w') = omega arith

  Reach-held :
      {w : World} {s : Scheduler} {w' : World} {s' : Scheduler}
      → Reach ops w s w' s'
      → all_held a s'.queues ≤ all_held a s.queues
  Reach-held here = omega arith
  Reach-held (next r step) = omega (arith, Step-held step, Reach-held r)

held-attach :
    (a : Element) (network_retries : ℕ) (qs : List Queue)
    → all_held a (map (attach network_retries) qs) ≡ all_held a qs
unfolding attach
held-attach a network_retries [] = refl
held-attach a network_retries (q ∷ qs) = ground (arith, held-attach a network_retries qs)

-- However a session goes, an element is never in its queues more often than when it started, so
-- one that was given to it once never waits, runs, is done or has failed in two places at once.
pub elements_never_duplicated :
    {World : Type 0} (ops : ElementOps World) (a : Element) (w : World) (network_retries now : ℕ)
    (qs : List Queue) (s : Scheduler) {w' : World} {s' : Scheduler}
    → Reach ops w (run ops w network_retries now qs s) w' s'
    → all_held a s'.queues ≤ all_held a qs
unfolding run
elements_never_duplicated ops a w network_retries now qs s r = omega (
  arith,
  Reach-held ops a r,
  held-attach a network_retries qs,
  held-sched ops a w
      (record s { starttime = some now; queues = map (attach network_retries) qs; running = true }),
)
