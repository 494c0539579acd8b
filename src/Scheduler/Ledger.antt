-- ===== src/Scheduler/Ledger.antt =====
-- Where the elements of a queue are: no operation of a queue loses or duplicates an element.
use bst_staging.Prelude.{
  ℕ, ◌+◌, ◌≡◌, refl, Bool, not, List, [], ◌∷◌, ◌++◌, arith, Bool-cases, inl, inr, some, count,
  count-append, count-extendleft, count-keep, keep, Option-cases, one_if, extendleft, ◌==◌,
}
use bst_staging.Scheduler.Tokens.{Tokens, get_job_token}
use bst_staging.Scheduler.Elements.{Element, ElementOps}
use bst_staging.Scheduler.Kinds.{skip, done}
use bst_staging.Scheduler.Job.{Job, Envelope, create, spawn, shutdown, parent_process_queue}
use bst_staging.Scheduler.Queue.{
  Queue, Pass, Active, all_jobs, type_of, file_element, visit, process_loop, process_ready, enqueue,
  job_done,
}

abbrev pub job_elements : List Job → List Element
job_elements [] = []
job_elements (j ∷ js) = j.element ∷ job_elements js

-- How often an element was given to a queue: it waits, it runs, or the queue has filed it.
abbrev pub filed : Element → Queue → ℕ
filed a q =
    count a q.wait_queue
    + count a (job_elements q.active_jobs)
    + count a q.failed_elements
    + count a q.processed_elements
    + count a q.skipped_elements

-- How often an element is in a queue: it waits, it runs, it is done and not yet passed on, or it
-- failed and stays.
abbrev pub held : Element → Queue → ℕ
held a q =
    count a q.wait_queue
    + count a (job_elements q.active_jobs)
    + count a q.failed_elements
    + count a q.done_queue

pub count-job_elements :
    (a : Element) (js ks : List Job)
    → count a (job_elements (js ++ ks)) ≡ count a (job_elements js) + count a (job_elements ks)
count-job_elements a [] ks = omega arith
count-job_elements a (j ∷ js) ks = omega (arith, count-job_elements a js ks)

-- A job's element never changes.
element-parent_process_queue :
    (j : Job) (envelopes : List Envelope) {j' : Job}
    → parent_process_queue j envelopes ≡ some j'
    → j'.element ≡ j.element
unfolding parent_process_queue
element-parent_process_queue j [] h = cc
element-parent_process_queue j (Envelope.message text ∷ rest) h =
    element-parent_process_queue j rest h
element-parent_process_queue j (Envelope.result r ∷ rest) {j' = j'} h = ground (
  arith,
  element-parent_process_queue j rest {j' = j'},
  element-parent_process_queue (record j { result = some r }) rest {j' = j'},
)

pub element-shutdown :
    (j : Job) (envelopes : List Envelope) {j' : Job}
    → shutdown j envelopes ≡ some j'
    → j'.element ≡ j.element
unfolding shutdown
element-shutdown j envelopes h = elim (Option-cases (parent_process_queue j envelopes)) [
  | inl e ↦ ground arith
  | inr (j₁, e) ↦ ground (arith, element-parent_process_queue j envelopes e)
]

module _ {World : Type 0} (ops : ElementOps World) (a : Element) (w : World) where
  pub filed-enqueue :
      (es : List Element) (q : Queue)
      → (filed a (enqueue ops w es q) ≡ filed a q + count a es)
        × (held a (enqueue ops w es q) ≡ held a q + count a es)
  unfolding enqueue
  filed-enqueue [] q = omega arith
  filed-enqueue (e ∷ es) q =
      let skipping = keep (skip ops q.kind w) (e ∷ es) in
      let waiting = keep (λ x. not (skip ops q.kind w x)) (e ∷ es) in
      omega (
        arith,
        count-keep a (skip ops q.kind w) (e ∷ es),
        count-append a q.wait_queue waiting,
        count-append a q.done_queue skipping,
        count-append a q.skipped_elements skipping,
      )

  abbrev settle : Pass → List Element → Queue
  settle p rest = record p.queue { wait_queue = extendleft p.unready rest }

  settle-visit :
      (e : Element) (p : Pass) (rest : List Element)
      → (filed a (settle (visit ops w e p) rest) ≡ filed a (settle p (e ∷ rest)))
        × (held a (settle (visit ops w e p) rest) ≡ held a (settle p (e ∷ rest)))
  unfolding visit create spawn
  settle-visit e p rest = ground (
    arith,
    count-extendleft a p.unready rest,
    count-extendleft a p.unready (e ∷ rest),
    count-extendleft a (p.unready ++ (e ∷ [])) rest,
    count-append a p.unready (e ∷ []),
    count-append a p.queue.done_queue (e ∷ []),
    count-append a p.queue.skipped_elements (e ∷ []),
    count-job_elements a p.queue.active_jobs (spawn (create e) p.queue.max_retries ∷ []),
  )

  settle-loop :
      (rest : List Element) (p : Pass)
      → (filed a (settle (process_loop ops w rest p).0 (process_loop ops w rest p).1)
          ≡ filed a (settle p rest))
        × (held a (settle (process_loop ops w rest p).0 (process_loop ops w rest p).1)
            ≡ held a (settle p rest))
  unfolding process_loop
  settle-loop [] p = (refl, refl)
  settle-loop (e ∷ rest) p =
      let tok = get_job_token (type_of p.queue) p.tokens in
      let p' = record p { tokens = tok.1 } in
      elim (Bool-cases tok.0) [
        | inl taken ↦
            rw taken (omega (arith, settle-loop rest (visit ops w e p'), settle-visit e p' rest))
        | inr empty ↦ rw empty (refl, refl)
      ]

  pub filed-process_ready :
      (q : Queue) (tok : Tokens)
      → (filed a (process_ready ops w q tok).0 ≡ filed a q)
        × (held a (process_ready ops w q tok).0 ≡ held a q)
  unfolding process_ready
  filed-process_ready q tok =
      settle-loop q.wait_queue (record { queue = q; tokens = tok; unready = [] })

  filed-file_element :
      (processed : Bool) (returncode : ℕ) (e : Element) (q : Queue)
      → (filed a (file_element processed returncode e q) ≡ filed a q + one_if (a == e))
        × (held a (file_element processed returncode e q) ≡ held a q + one_if (a == e))
  unfolding file_element
  filed-file_element processed returncode e q = ground (
    arith,
    count-append a q.done_queue (e ∷ []),
    count-append a q.failed_elements (e ∷ []),
    count-append a q.processed_elements (e ∷ []),
    count-append a q.skipped_elements (e ∷ []),
  )

  pub filed-job_done :
      (q : Queue) (at : Active) (envelopes : List Envelope) (returncode : ℕ) (tok : Tokens)
      {w' : World} {q' : Queue} {tok' : Tokens}
      → q.active_jobs ≡ all_jobs at
      → job_done ops w q at envelopes returncode tok ≡ some (w', q', tok')
      → (filed a q' ≡ filed a q) × (held a q' ≡ held a q)
  unfolding job_done
  filed-job_done q at envelopes returncode tok h e =
      elim (Option-cases (shutdown at.job envelopes)) [
        | inl fails ↦ ground arith
        | inr (j, ends) ↦
            let r = done ops q.kind w j.element j.result returncode in
            let q₁ = record q { active_jobs = at.before ++ at.after } in
            ground (
              arith,
              element-shutdown at.job envelopes ends,
              filed-file_element r.0 returncode j.element q₁,
              count-job_elements a at.before at.after,
              count-job_elements a at.before (at.job ∷ at.after),
            )
      ]

  -- What was given to a queue is filed, element by element: enqueueing files what it is given, and
  -- processing what is ready files nothing new and loses nothing, whatever the queue is doing.
  pub queue_ledger :
      (q : Queue) (es : List Element) (tok : Tokens)
      → (filed a (enqueue ops w es q) ≡ filed a q + count a es)
        × (filed a (process_ready ops w q tok).0 ≡ filed a q)
  queue_ledger q es tok = ((filed-enqueue es q).0, (filed-process_ready q tok).0)

  -- Finishing a job that a queue has, when that raises nothing, files nothing new and loses nothing,
  -- and every element is in the queue as often as before.
  pub job_ledger :
      (q : Queue) (at : Active) (envelopes : List Envelope) (returncode : ℕ) (tok : Tokens)
      {w' : World} {q' : Queue} {tok' : Tokens}
      → q.active_jobs ≡ all_jobs at
      → job_done ops w q at envelopes returncode tok ≡ some (w', q', tok')
      → (filed a q' ≡ filed a q) × (held a q' ≡ held a q)
  job_ledger q at envelopes returncode tok h e = filed-job_done q at envelopes returncode tok h e
