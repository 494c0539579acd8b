-- ===== src/Scheduler/Examples.antt =====
-- The scheduler at small inputs: tests, and the theorems applied.
use bst_staging.Prelude.{
  ◌<◌, ◌≢◌, ◌==◌, Bool-cases, inr, if◌then◌else◌, ℕ, ◌+◌, ◌≤◌, ◌≡◌, refl, Bool, true, false, List,
  [], ◌∷◌, none, some, arith, inl, contains, nat_eq, All, count,
}
use bst_staging.Scheduler.Tokens.{QueueType, push, Tokens, tokens_of, get_job_token, put_job_token}
use bst_staging.Scheduler.Elements.{Element, ElementOps, cached}
use bst_staging.Scheduler.Kinds.{build_queue, push_queue, skip, ready, done, unique_id}
use bst_staging.Scheduler.Job.{
  Job, Envelope, result, completed, create, spawn, shutdown, child_complete,
}
use bst_staging.Scheduler.Queue.{
  Queue, new_queue, attach, enqueue, dequeue, process_ready, job_done, file_element,
}
use bst_staging.Scheduler.Session.{
  Scheduler, new_scheduler, ticking, pull_forward, process_queues, schedule_round, sched, run,
  elapsed_time,
}
use bst_staging.Scheduler.Events.{Place, child_exit, suspend_event, child_exits, here, next, Reach}
use bst_staging.Scheduler.TokenBalance.{all_in_use, supply}
use bst_staging.Scheduler.TokenLimit.{running_jobs_limit}
use bst_staging.Scheduler.Ledger.{filed, held, queue_ledger, job_ledger}
use bst_staging.Scheduler.Conservation.{all_held, departed, held-sched, elements_never_duplicated}
use bst_staging.Scheduler.Retries.{
  IsCompletionOf, attempts, results, child_complete-IsCompletionOf, attempts_total,
}
use bst_staging.Scheduler.Progress.{IsStarved, stop_leaves_nothing_ready}
use bst_staging.Scheduler.Suspension.{AreRunning, suspend_event_lem}

-- A world that knows which elements are cached; element 9 is never buildable.
abbrev pub toy : ElementOps (List Element)
toy = record {
  is_cached = λ w e. contains w e;
  is_strong_cached = λ w e. contains w e;
  is_remotely_cached = λ w e. false;
  is_strong_remotely_cached = λ w e. false;
  consistency = λ w e. cached;
  buildable = λ w e. nat_eq.beq e 1;
  skip_push = λ w e. false;
  source_count = λ w e. 1;
  recalculate_cached = λ w e. e ∷ w;
  recalculate_cache_key = λ w e. w;
  recalculate_consistency = λ w e. w;
  bump_consistency = λ w e c. w;
  set_ref = λ w source ref. (true, w);
}

abbrev pub configured : Tokens
configured = record { fetchers = 1; builders = 1; pushers = 1 }

-- Elements 1 and 2 wait to be built, then to be pushed; only element 1 is ready.
abbrev waiting : Queue
waiting = record (new_queue build_queue) { wait_queue = 1 ∷ 2 ∷ [] }

abbrev queues : List Queue
queues = waiting ∷ new_queue push_queue ∷ []

abbrev started : Scheduler
started = run toy [] 2 100 queues (new_scheduler configured)

program : Unit {0}
unfolding run sched schedule_round pull_forward process_queues process_ready get_job_token
    put_job_token enqueue dequeue attach skip ready create spawn
program = tt

abbrev building : Job
building = spawn (create 1) 0

abbrev started_value : Scheduler
started_value = record (new_scheduler configured) {
  queues =
      record (new_queue build_queue) {
        wait_queue = 2 ∷ [];
        active_jobs =
            record {
              element = 1;
              tries = 1;
              max_retries = 0;
              listening = true;
              suspended = false;
              result = none;
            }
            ∷ [];
      }
      ∷ record (new_queue push_queue) { max_retries = 2 }
      ∷ [];
  job_tokens = record { fetchers = 1; builders = 0; pushers = 1 };
  starttime = some 100;
  running = true;
}

-- The only build token goes to the element that is ready.
run_test : started ≡ started_value
unfolding program
run_test = refl

abbrev place : Place
place = record {
  front = [];
  queue = record (new_queue build_queue) {
    wait_queue = 2 ∷ [];
    active_jobs =
        record {
          element = 1;
          tries = 1;
          max_retries = 0;
          listening = true;
          suspended = false;
          result = none;
        }
        ∷ [];
  };
  back = record (new_queue push_queue) { max_retries = 2 } ∷ [];
  active = record {
    before = [];
    job = record {
      element = 1;
      tries = 1;
      max_retries = 0;
      listening = true;
      suspended = false;
      result = none;
    };
    after = [];
  };
}

-- Element 1 is built and passed on; its push starts at once.
abbrev pushing : Scheduler
pushing = record (new_scheduler configured) {
  queues =
      record (new_queue build_queue) { wait_queue = 2 ∷ []; processed_elements = 1 ∷ [] }
      ∷ record (new_queue push_queue) {
        max_retries = 2;
        active_jobs =
            record {
              element = 1;
              tries = 1;
              max_retries = 2;
              listening = true;
              suspended = false;
              result = none;
            }
            ∷ [];
      }
      ∷ [];
  job_tokens = record { fetchers = 1; builders = 1; pushers = 0 };
  starttime = some 100;
  running = true;
}

reached : Reach toy [] started (1 ∷ []) pushing
unfolding program child_exit child_complete job_done shutdown done file_element
reached = next here (
    child_exits place (result (unique_id 1) ∷ []) 0
      (record { queues_split = refl; jobs_split = refl }) refl)

running_jobs_limit_example :
    (tokens_of push pushing.job_tokens + all_in_use push pushing.queues ≡ 1)
    × (all_in_use push pushing.queues ≤ 1)
running_jobs_limit_example =
    running_jobs_limit toy push configured [] 2 100 queues {s' = pushing} (refl, (refl, tt)) reached

elements_never_duplicated_example : all_held 1 pushing.queues ≤ 1
elements_never_duplicated_example =
    elements_never_duplicated toy 1 [] 2 100 queues (new_scheduler configured) {s' = pushing}
      reached

held-sched_example :
    all_held 2 (sched toy [] started_value).queues + count 2 (departed toy [] started_value) ≡ 1
held-sched_example = held-sched toy 2 [] started_value

-- Element 2 alone: nothing can be done.
abbrev stuck : Scheduler
stuck = record (new_scheduler configured) {
  queues = record (new_queue build_queue) { wait_queue = 2 ∷ [] } ∷ [];
  running = true;
}

positive : (t : QueueType) → 1 ≤ supply t stuck
positive t = ground arith

stuck_stops : (sched toy [] stuck).running ≡ false
unfolding program
stuck_stops = refl

stop_leaves_nothing_ready_example :
    (ticking (sched toy [] stuck).queues ≡ 0) × All (IsStarved toy []) (sched toy [] stuck).queues
stop_leaves_nothing_ready_example =
    stop_leaves_nothing_ready toy [] stuck refl refl positive stuck_stops

-- The first child sends a message and fails, the second one sends a message and its result.
abbrev flaky : ℕ → List Envelope × ℕ
flaky n =
    if n == 2
    then (Envelope.message 5 ∷ Envelope.result (unique_id 9) ∷ [], 0)
    else (Envelope.message 4 ∷ [], 1)

flaky_fails : (n : ℕ) → n < 2 → ((flaky n).1 ≢ 0) × (results (flaky n).0 ≡ [])
flaky_fails n h = elim (Bool-cases (n == 2)) [
  | inl e ↦ absurd (ground arith)
  | inr e ↦ rw e (λ x. omega arith, refl)
]

attempts_total_example :
    (j : Job) × (attempts 2 flaky (spawn (create 7) 3) ≡ some j)
    × (j.tries ≡ 2)
    × (j.element ≡ 7)
    × (j.result ≡ some (unique_id 9))
attempts_total_example =
    attempts_total 7 3 flaky 2 (omega arith) (omega arith) flaky_fails (inl refl) (omega arith)

ended : child_complete place.active.job [] 1 ≡ some (completed place.active.job)
unfolding child_complete
ended = refl

child_complete-IsCompletionOf_example :
    IsCompletionOf place.active.job 1 (completed place.active.job)
child_complete-IsCompletionOf_example =
    child_complete-IsCompletionOf place.active.job [] 1 (completed place.active.job) ended

built :
    job_done toy [] place.queue place.active [] 0 configured
    ≡ some (
      1 ∷ [],
      record (new_queue build_queue) {
        wait_queue = 2 ∷ [];
        done_queue = 1 ∷ [];
        processed_elements = 1 ∷ [];
      },
      record configured { builders = 2 },
    )
unfolding program job_done shutdown done file_element
built = refl

queue_ledger_example :
    (filed 1 (enqueue toy [] (1 ∷ 3 ∷ []) place.queue) ≡ 2)
    × (filed 1 (process_ready toy [] place.queue configured).0 ≡ 1)
queue_ledger_example = queue_ledger toy 1 [] place.queue (1 ∷ 3 ∷ []) configured

abbrev finished : Queue
finished = record (new_queue build_queue) {
  wait_queue = 2 ∷ [];
  done_queue = 1 ∷ [];
  processed_elements = 1 ∷ [];
}

job_ledger_example : (filed 1 finished ≡ 1) × (held 1 finished ≡ 1)
job_ledger_example = job_ledger toy 1 [] place.queue place.active [] 0 configured refl built

abbrev all_alive : Job → Bool
all_alive j = true

suspend_event_lem_example :
    (elapsed_time 200 (suspend_event all_alive 120 150 pushing) + 30 ≡ 100)
    × AreRunning (suspend_event all_alive 120 150 pushing).queues
    × ((suspend_event all_alive 120 150 pushing).internal_stops ≡ 1)
    × ((suspend_event all_alive 120 150 pushing).suspended ≡ false)
unfolding elapsed_time
suspend_event_lem_example =
    suspend_event_lem all_alive 100 120 150 200 pushing refl refl refl (omega arith) (omega arith)
      (omega arith)
