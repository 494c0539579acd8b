-- ===== src/Scheduler/Session.antt =====
-- buildstream/_scheduler/scheduler.py: the scheduler's state, one round of scheduling, and the
-- start and the end of a session. The asyncio loop is the field `running`.
use bst_staging.Prelude.{
  ℕ, ◌+◌, ◌-◌, Bool, true, false, Option, none, some, List, [], ◌∷◌, ◌==◌, length, map,
  if◌then◌else◌,
}
use bst_staging.Scheduler.Tokens.{Tokens}
use bst_staging.Scheduler.Elements.{Element, ElementOps}
use bst_staging.Scheduler.Queue.{Queue, attach, enqueue, dequeue, process_ready}

pub record Scheduler : Type 0 where
  pub queues : List Queue
  pub job_tokens : Tokens
  pub queue_jobs : Bool
  pub terminated : Bool
  pub suspended : Bool
  pub internal_stops : ℕ
  pub starttime : Option ℕ
  pub suspendtime : Option ℕ
  pub running : Bool

-- class SchedStatus
pub data SchedStatus : Type 0 where
  success error terminated : SchedStatus

-- Scheduler.__init__, from the three numbers that the user configured.
abbrev pub new_scheduler : Tokens → Scheduler
new_scheduler configured = record {
  queues = [];
  job_tokens = configured;
  queue_jobs = true;
  terminated = false;
  suspended = false;
  internal_stops = 0;
  starttime = none;
  suspendtime = none;
  running = false;
}

abbrev pub stop_queueing : Scheduler → Scheduler
stop_queueing s = record s { queue_jobs = false }

-- The sum that `sched` computes to see whether anything is ticking.
abbrev pub ticking : List Queue → ℕ
ticking [] = 0
ticking (q ∷ qs) = length q.active_jobs + ticking qs

unfoldable pub failed_elements : List Queue → Bool
failed_elements [] = false
failed_elements (q ∷ qs) = elim q.failed_elements [ [] ↦ failed_elements qs | _ ↦ true ]

unfoldable pub elapsed_time : (now : ℕ) → Scheduler → ℕ
elapsed_time now s = elim s.starttime [ none ↦ now - now | some start ↦ now - start ]

-- The status with which `run` returns.
unfoldable pub status : Scheduler → SchedStatus
unfolding failed_elements
status s = if failed_elements s.queues then error else if s.terminated then terminated else success

module _ {World : Type 0} (ops : ElementOps World) where
  -- The first loop of `sched`; what leaves the last queue comes back beside the queues.
  unfoldable pub pull_forward : World → List Element → List Queue → List Queue × List Element
  pull_forward w elements [] = ([], elements)
  pull_forward w elements (q ∷ qs) =
      let (elements', q') = dequeue (enqueue ops w elements q) in
      let (qs', leaving) = pull_forward w elements' qs in (q' ∷ qs', leaving)

  -- The second loop of `sched`, over the reversed queues.
  unfoldable pub process_queues : World → List Queue → Tokens → List Queue × Tokens
  process_queues w [] tokens = ([], tokens)
  process_queues w (q ∷ qs) tokens =
      let (qs', tokens') = process_queues w qs tokens in
      let (q', tokens'') = process_ready ops w q tokens' in (q' ∷ qs', tokens'')

  -- The part of `sched` under `if self.queue_jobs`.
  unfoldable pub schedule_round : World → Scheduler → Scheduler
  schedule_round w s =
      let (pulled, leaving) = pull_forward w [] s.queues in
      let (qs, tokens) = process_queues w pulled s.job_tokens in
      record s { queues = qs; job_tokens = tokens }

  unfoldable pub sched : World → Scheduler → Scheduler
  sched w s =
      let s' = if s.queue_jobs then schedule_round w s else s in
      if ticking s'.queues == 0 then record s' { running = false } else s'

  -- `run` up to `loop.run_forever()`.
  unfoldable pub run : World → (network_retries now : ℕ) → List Queue → Scheduler → Scheduler
  unfolding sched
  run w network_retries now queues s = sched w (record s {
    starttime = some now;
    queues = map (attach network_retries) queues;
    running = true;
  })
