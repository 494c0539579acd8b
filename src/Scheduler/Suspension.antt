-- ===== src/Scheduler/Suspension.antt =====
-- Suspending and resuming a session: the elapsed time, the jobs, and the signals that are expected.
use bst_staging.Prelude.{
  ℕ, ◌+◌, ◌-◌, ◌≤◌, ◌≡◌, refl, Bool, false, not, ◌&&◌, List, [], ◌∷◌, arith, All, one_if, some, map,
}
use bst_staging.Scheduler.Job.{Job, suspend, resume}
use bst_staging.Scheduler.Queue.{Queue}
use bst_staging.Scheduler.Session.{Scheduler, elapsed_time}
use bst_staging.Scheduler.Events.{
  map_jobs, suspend_each, suspend_queues, suspend_jobs, resume_jobs, suspend_event,
}

-- The jobs that `suspend` can stop: they run and are not suspended already.
abbrev pub stoppable_jobs : (Job → Bool) → List Job → ℕ
stoppable_jobs alive [] = 0
stoppable_jobs alive (j ∷ js) = one_if (not j.suspended && alive j) + stoppable_jobs alive js

abbrev pub stoppable : (Job → Bool) → List Queue → ℕ
stoppable alive [] = 0
stoppable alive (q ∷ qs) = stoppable_jobs alive q.active_jobs + stoppable alive qs

abbrev pub AreRunning : List Queue → Type 0
AreRunning = All (λ q. All (λ j. j.suspended ≡ false) q.active_jobs)

stops-suspend_each :
    (alive : Job → Bool) (js : List Job) → (suspend_each alive js).1 ≡ stoppable_jobs alive js
unfolding suspend_each suspend
stops-suspend_each alive [] = refl
stops-suspend_each alive (j ∷ js) = ground (arith, stops-suspend_each alive js)

stops-suspend_queues :
    (alive : Job → Bool) (qs : List Queue) → (suspend_queues alive qs).1 ≡ stoppable alive qs
unfolding suspend_queues
stops-suspend_queues alive [] = refl
stops-suspend_queues alive (q ∷ qs) =
    omega (arith, stops-suspend_each alive q.active_jobs, stops-suspend_queues alive qs)

running-map_jobs : (qs : List Queue) → AreRunning (map_jobs resume qs)
unfolding resume
running-map_jobs [] = tt
running-map_jobs (q ∷ qs) = (each q.active_jobs, running-map_jobs qs)
  where
    each : (js : List Job) → All (λ j. j.suspended ≡ false) (map resume js)
    each [] = tt
    each (j ∷ js) = (ground arith, each js)

-- SIGTSTP and SIGCONT on a session that is not suspended: the time for which it slept does not
-- count as elapsed, every job runs again, and one feedback signal is expected for each child
-- process that was stopped.
pub suspend_event_lem :
    (alive : Job → Bool) (start before after now : ℕ) (s : Scheduler)
    → s.internal_stops ≡ 0
    → s.suspended ≡ false
    → s.starttime ≡ some start
    → start ≤ before
    → before ≤ after
    → after ≤ now
    → (elapsed_time now (suspend_event alive before after s) + (after - before)
        ≡ elapsed_time now s)
      × AreRunning (suspend_event alive before after s).queues
      × ((suspend_event alive before after s).internal_stops ≡ stoppable alive s.queues)
      × ((suspend_event alive before after s).suspended ≡ false)
unfolding suspend_event suspend_jobs resume_jobs elapsed_time
suspend_event_lem alive start before after now s none_left runs started h h' h'' =
    rw (none_left, runs, started)
      (
        omega arith,
        running-map_jobs (suspend_queues alive s.queues).0,
        omega (arith, stops-suspend_queues alive s.queues),
        refl,
      )
