-- ===== src/Scheduler/TokenBalance.antt =====
-- The tokens that are free and the jobs that run add up to what the user configured.
use bst_staging.Prelude.{
  ℕ, ◌+◌, ◌≡◌, refl, true, List, [], ◌∷◌, ◌++◌, arith, one_if, Bool-cases, inl, inr, length,
  length-append, if◌then◌else◌,
}
use bst_staging.Scheduler.Tokens.{
  QueueType, Tokens, tokens_of, get_job_token, put_job_token, same_type,
}
use bst_staging.Scheduler.Elements.{Element, ElementOps}
use bst_staging.Scheduler.Job.{create, spawn}
use bst_staging.Scheduler.Queue.{
  Queue, Pass, type_of, visit, process_loop, process_ready, enqueue, dequeue,
}
use bst_staging.Scheduler.Session.{Scheduler, pull_forward, process_queues, schedule_round, sched}

-- The tokens of a type that the jobs of a queue hold.
abbrev pub in_use : QueueType → Queue → ℕ
in_use t q = if same_type t (type_of q) then length q.active_jobs else 0

abbrev pub all_in_use : QueueType → List Queue → ℕ
all_in_use t [] = 0
all_in_use t (q ∷ qs) = in_use t q + all_in_use t qs

-- Free tokens and running jobs of a type
abbrev pub supply : QueueType → Scheduler → ℕ
supply t s = tokens_of t s.job_tokens + all_in_use t s.queues

pub tokens_of-put :
    (t k : QueueType) (tok : Tokens)
    → tokens_of t (put_job_token k tok) ≡ tokens_of t tok + one_if (same_type t k)
unfolding put_job_token
tokens_of-put t k tok = ground arith

pub tokens_of-get :
    (t k : QueueType) (tok : Tokens)
    → (get_job_token k tok).0 ≡ true
    → tokens_of t (get_job_token k tok).1 + one_if (same_type t k) ≡ tokens_of t tok
unfolding get_job_token
tokens_of-get t k tok h = ground arith

pub in_use-append :
    (t : QueueType) (all_in : List Queue) (more : List Queue)
    → all_in_use t (all_in ++ more) ≡ all_in_use t all_in + all_in_use t more
in_use-append t [] more = omega arith
in_use-append t (q ∷ qs) more = omega (arith, in_use-append t qs more)

module _ {World : Type 0} (ops : ElementOps World) where
  -- A visit gives its token back or turns it into a running job.
  pub visit_balance :
      (t : QueueType) (w : World) (e : Element) (p : Pass)
      → tokens_of t (visit ops w e p).tokens + in_use t (visit ops w e p).queue
        ≡ tokens_of t p.tokens + one_if (same_type t (type_of p.queue)) + in_use t p.queue
  unfolding visit
  visit_balance t w e p = ground (
    arith,
    tokens_of-put t (type_of p.queue) p.tokens,
    length-append p.queue.active_jobs (spawn (create e) p.queue.max_retries ∷ []),
  )

  pub kind-visit :
      (w : World) (e : Element) (p : Pass) → (visit ops w e p).queue.kind ≡ p.queue.kind
  unfolding visit
  kind-visit w e p = ground arith

  loop_balance :
      (t : QueueType) (w : World) (rest : List Element) (p : Pass)
      → tokens_of t (process_loop ops w rest p).0.tokens
          + in_use t (process_loop ops w rest p).0.queue
        ≡ tokens_of t p.tokens + in_use t p.queue
  unfolding process_loop
  loop_balance t w [] p = refl
  loop_balance t w (e ∷ rest) p =
      let tok = get_job_token (type_of p.queue) p.tokens in
      let p' = record p { tokens = tok.1 } in
      elim (Bool-cases tok.0) [
        | inl taken ↦ rw taken (
            omega (
              arith,
              loop_balance t w rest (visit ops w e p'),
              visit_balance t w e p',
              tokens_of-get t (type_of p.queue) p.tokens taken,
            ))
        | inr empty ↦ rw empty
      ]

  process_ready_balance :
      (t : QueueType) (w : World) (q : Queue) (tok : Tokens)
      → tokens_of t (process_ready ops w q tok).1 + in_use t (process_ready ops w q tok).0
        ≡ tokens_of t tok + in_use t q
  unfolding process_ready
  process_ready_balance t w q tok =
      loop_balance t w q.wait_queue (record { queue = q; tokens = tok; unready = [] })

  pub process_queues_balance :
      (t : QueueType) (w : World) (qs : List Queue) (tok : Tokens)
      → tokens_of t (process_queues ops w qs tok).1 + all_in_use t (process_queues ops w qs tok).0
        ≡ tokens_of t tok + all_in_use t qs
  unfolding process_queues
  process_queues_balance t w [] tok = refl
  process_queues_balance t w (q ∷ qs) tok = omega (
    arith,
    process_queues_balance t w qs tok,
    process_ready_balance t w q (process_queues ops w qs tok).1,
  )

  in_use-enqueue :
      (t : QueueType) (w : World) (es : List Element) (q : Queue)
      → in_use t (enqueue ops w es q) ≡ in_use t q
  unfolding enqueue
  in_use-enqueue t w [] q = refl
  in_use-enqueue t w (e ∷ es) q = refl

  pub in_use-pull_forward :
      (t : QueueType) (w : World) (es : List Element) (qs : List Queue)
      → all_in_use t (pull_forward ops w es qs).0 ≡ all_in_use t qs
  unfolding pull_forward dequeue
  in_use-pull_forward t w es [] = refl
  in_use-pull_forward t w es (q ∷ qs) =
      omega (
        arith,
        in_use-enqueue t w es q,
        in_use-pull_forward t w (dequeue (enqueue ops w es q)).0 qs,
      )

  pub supply-sched :
      (t : QueueType) (w : World) (s : Scheduler) → supply t (sched ops w s) ≡ supply t s
  unfolding sched schedule_round
  supply-sched t w s = ground (
    arith,
    in_use-pull_forward t w [] s.queues,
    process_queues_balance t w (pull_forward ops w [] s.queues).0 s.job_tokens,
  )
