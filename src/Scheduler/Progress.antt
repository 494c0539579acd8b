-- ===== src/Scheduler/Progress.antt =====
-- When a round of scheduling stops the main loop, nothing that could run is left waiting.
use bst_staging.Prelude.{
  ◌≤◌, ◌<◌, ◌≡◌, refl, true, false, List, [], ◌∷◌, arith, Bool-cases, inl, inr, All, All-append,
  All-extendleft, length, length-append, extendleft,
}
use bst_staging.Scheduler.Tokens.{QueueType, Tokens, tokens_of, get_job_token, same_type}
use bst_staging.Scheduler.Elements.{Element, ElementOps}
use bst_staging.Scheduler.Kinds.{ready, skip}
use bst_staging.Scheduler.Job.{create, spawn}
use bst_staging.Scheduler.Queue.{
  Queue, Pass, type_of, visit, process_loop, process_ready, enqueue, dequeue,
}
use bst_staging.Scheduler.Session.{
  Scheduler, ticking, pull_forward, process_queues, schedule_round, sched,
}
use bst_staging.Scheduler.TokenBalance.{
  all_in_use, supply, tokens_of-get, visit_balance, kind-visit, process_queues_balance,
}

same_type_refl : (t : QueueType) → same_type t t ≡ true
same_type_refl t = ground arith

get-positive : (t : QueueType) (tok : Tokens) → 0 < tokens_of t tok → (get_job_token t tok).0 ≡ true
unfolding get_job_token
get-positive t tok h = ground arith

module _ {World : Type 0} (ops : ElementOps World) (w : World) where
  -- A queue all of whose waiting elements are not ready
  abbrev pub IsStarved : Queue → Type 0
  IsStarved q = All (λ e. ready ops q.kind w e ≡ false) q.wait_queue

  active-visit :
      (e : Element) (p : Pass)
      → length p.queue.active_jobs ≤ length (visit ops w e p).queue.active_jobs
  unfolding visit
  active-visit e p =
      ground (arith, length-append p.queue.active_jobs (spawn (create e) p.queue.max_retries ∷ []))

  active-loop :
      (rest : List Element) (p : Pass)
      → length p.queue.active_jobs ≤ length (process_loop ops w rest p).0.queue.active_jobs
  unfolding process_loop
  active-loop [] p = omega arith
  active-loop (e ∷ rest) p =
      let tok = get_job_token (type_of p.queue) p.tokens in
      let p' = record p { tokens = tok.1 } in
      elim (Bool-cases tok.0) [
        | inl taken ↦
            rw taken (omega (arith, active-loop rest (visit ops w e p'), active-visit e p'))
        | inr empty ↦ rw empty (omega arith)
      ]

  -- What the loop has put aside is not ready.
  unready-visit :
      (e : Element) (p : Pass)
      → All (λ x. ready ops p.queue.kind w x ≡ false) p.unready
      → All (λ x. ready ops (visit ops w e p).queue.kind w x ≡ false) (visit ops w e p).unready
  unfolding visit
  unready-visit e p h = elim (Bool-cases (ready ops p.queue.kind w e)) [
    | inl is_ready ↦
        rw is_ready
          (elim (Bool-cases (skip ops p.queue.kind w e)) [ inl s ↦ rw s h | inr s ↦ rw s h ])
    | inr unready ↦ rw unready (All-append _ p.unready (e ∷ []) h (unready, tt))
  ]

  -- A visit that starts no job gives its token back.
  tokens-visit_idle :
      (e : Element) (p : Pass)
      → 0 < tokens_of (type_of p.queue) p.tokens
      → length
          (visit ops w e
            (record p { tokens = (get_job_token (type_of p.queue) p.tokens).1 })).queue.active_jobs
        ≡ 0
      → 0
        < tokens_of
            (type_of p.queue)
            (visit ops w e
              (record p { tokens = (get_job_token (type_of p.queue) p.tokens).1 })).tokens
  tokens-visit_idle e p h idle =
      let t = type_of p.queue in
      let p' = record p { tokens = (get_job_token t p.tokens).1 } in
      ground (
        arith,
        visit_balance ops t w e p',
        tokens_of-get t t p.tokens (get-positive t p.tokens h),
        same_type_refl t,
        kind-visit ops w e p',
        active-visit e p',
      )

  IsStarved-loop :
      (rest : List Element) (p : Pass)
      → 0 < tokens_of (type_of p.queue) p.tokens
      → length (process_loop ops w rest p).0.queue.active_jobs ≡ 0
      → All (λ x. ready ops p.queue.kind w x ≡ false) p.unready
      → IsStarved (record (process_loop ops w rest p).0.queue {
        wait_queue = extendleft (process_loop ops w rest p).0.unready (process_loop ops w rest p).1;
      })
  unfolding process_loop
  IsStarved-loop [] p h idle aside = All-extendleft _ p.unready [] aside tt
  IsStarved-loop (e ∷ rest) p h idle aside =
      let t = type_of p.queue in
      let tok = get_job_token t p.tokens in
      let p' = record p { tokens = tok.1 } in
      let taken : tok.0 ≡ true = get-positive t p.tokens h in
      let idle' : length (process_loop ops w rest (visit ops w e p')).0.queue.active_jobs ≡ 0 =
        rw taken at idle in
      rw taken (
        IsStarved-loop rest (visit ops w e p')
          (rw (kind-visit ops w e p')
            (tokens-visit_idle e p h (omega (arith, idle', active-loop rest (visit ops w e p')))))
          idle' (unready-visit e p' aside))

  IsStarved-process_ready :
      (q : Queue) (tok : Tokens)
      → 0 < tokens_of (type_of q) tok
      → length (process_ready ops w q tok).0.active_jobs ≡ 0
      → IsStarved (process_ready ops w q tok).0
  unfolding process_ready
  IsStarved-process_ready q tok h idle =
      IsStarved-loop q.wait_queue (record { queue = q; tokens = tok; unready = [] }) h idle tt

  active-process_ready :
      (q : Queue) (tok : Tokens)
      → length q.active_jobs ≤ length (process_ready ops w q tok).0.active_jobs
  unfolding process_ready
  active-process_ready q tok =
      active-loop q.wait_queue (record { queue = q; tokens = tok; unready = [] })

  ticking-process_queues :
      (qs : List Queue) (tok : Tokens) → ticking qs ≤ ticking (process_queues ops w qs tok).0
  unfolding process_queues
  ticking-process_queues [] tok = omega arith
  ticking-process_queues (q ∷ qs) tok =
      omega (
        arith,
        ticking-process_queues qs tok,
        active-process_ready q (process_queues ops w qs tok).1,
      )

in_use-le-ticking : (t : QueueType) (qs : List Queue) → all_in_use t qs ≤ ticking qs
in_use-le-ticking t [] = omega arith
in_use-le-ticking t (q ∷ qs) = ground (arith, in_use-le-ticking t qs)

module _ {World : Type 0} (ops : ElementOps World) (w : World) where
  IsStarved-process_queues :
      (qs : List Queue) (tok : Tokens)
      → ((t : QueueType) → 0 < tokens_of t tok)
      → ticking (process_queues ops w qs tok).0 ≡ 0
      → All (IsStarved ops w) (process_queues ops w qs tok).0
  unfolding process_queues
  IsStarved-process_queues [] tok h idle = tt
  IsStarved-process_queues (q ∷ qs) tok h idle =
      let r = process_queues ops w qs tok in
      let t = type_of q in
      (
        IsStarved-process_ready ops w q r.1
            (omega
              (arith, h t, process_queues_balance ops t w qs tok, in_use-le-ticking t r.0, idle))
            (omega (arith, idle)),
        IsStarved-process_queues qs tok h (omega (arith, idle)),
      )

  ticking-pull_forward :
      (es : List Element) (qs : List Queue) → ticking (pull_forward ops w es qs).0 ≡ ticking qs
  unfolding pull_forward dequeue enqueue
  ticking-pull_forward es [] = refl
  ticking-pull_forward [] (q ∷ qs) =
      omega (arith, ticking-pull_forward (dequeue (enqueue ops w [] q)).0 qs)
  ticking-pull_forward (e ∷ es) (q ∷ qs) =
      omega (arith, ticking-pull_forward (dequeue (enqueue ops w (e ∷ es) q)).0 qs)

  abbrev round_queues : Scheduler → List Queue
  round_queues s = (process_queues ops w (pull_forward ops w [] s.queues).0 s.job_tokens).0

  queues-sched : (s : Scheduler) → s.queue_jobs ≡ true → (sched ops w s).queues ≡ round_queues s
  unfolding sched schedule_round
  queues-sched s h = ground arith

  ticking-sched :
      (s : Scheduler)
      → s.queue_jobs ≡ true
      → s.running ≡ true
      → (sched ops w s).running ≡ false
      → ticking (round_queues s) ≡ 0
  unfolding sched schedule_round
  ticking-sched s h running stopped = ground arith

  -- A round of scheduling that stops the running main loop has no job running and leaves no
  -- element waiting that is ready, in any queue, if jobs are still to be queued and the user
  -- configured at least one job of each type.
  pub stop_leaves_nothing_ready :
      (s : Scheduler)
      → s.queue_jobs ≡ true
      → s.running ≡ true
      → ((t : QueueType) → 0 < supply t s)
      → (sched ops w s).running ≡ false
      → (ticking (sched ops w s).queues ≡ 0) × All (IsStarved ops w) (sched ops w s).queues
  stop_leaves_nothing_ready s queueing running h stopped =
      let pulled = (pull_forward ops w [] s.queues).0 in
      let idle = ticking-sched s queueing running stopped in
      rw (queues-sched s queueing) (
        idle,
        IsStarved-process_queues pulled s.job_tokens
            (λ t. omega (
              arith,
              h t,
              in_use-le-ticking t s.queues,
              ticking-pull_forward [] s.queues,
              ticking-process_queues ops w pulled s.job_tokens,
              idle,
            ))
            idle,
      )
