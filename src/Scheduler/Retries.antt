-- ===== src/Scheduler/Retries.antt =====
-- Job.child_complete: how often a job is tried, and what a retry keeps.
use bst_staging.Prelude.{
  ℕ, zero, suc, ◌+◌, ◌≤◌, ◌<◌, ◌≡◌, ◌≢◌, ◌⊎◌, inl, inr, refl, true, List, [], ◌∷◌, arith, Option,
  none, some, Option-cases, false, subst, sym, ap, length,
}
use bst_staging.Scheduler.Elements.{Element}
use bst_staging.Scheduler.Job.{
  Job, Envelope, Completion, retried, completed, create, spawn, child_complete, shutdown,
  parent_process_queue, parent_stop_listening,
}
use bst_staging.Scheduler.Kinds.{JobResult}
use bst_staging.Scheduler.Ledger.{element-shutdown}

-- What `child_complete` promises about the job that it was called on.
abbrev pub IsCompletionOf : Job → ℕ → Completion → Type 0
IsCompletionOf j returncode (retried j') =
    (j'.element ≡ j.element)
    × (j'.tries ≡ j.tries + 1)
    × (j'.max_retries ≡ j.max_retries)
    × (j'.tries ≤ j'.max_retries + 1)
    × (returncode ≢ 0)
IsCompletionOf j returncode (completed j') =
    (j' ≡ j) × ((returncode ≡ 0) ⊎ (j.max_retries < j.tries))

tries-parent_process_queue :
    (j : Job) (envelopes : List Envelope) {j' : Job}
    → parent_process_queue j envelopes ≡ some j'
    → (j'.tries ≡ j.tries) × (j'.max_retries ≡ j.max_retries)
unfolding parent_process_queue
tries-parent_process_queue j [] h = ground arith
tries-parent_process_queue j (Envelope.message text ∷ rest) h = tries-parent_process_queue j rest h
tries-parent_process_queue j (Envelope.result r ∷ rest) {j' = j'} h = ground (
  arith,
  tries-parent_process_queue j rest {j' = j'},
  tries-parent_process_queue (record j { result = some r }) rest {j' = j'},
)

tries-shutdown :
    (j : Job) (envelopes : List Envelope) {j' : Job}
    → shutdown j envelopes ≡ some j'
    → (j'.tries ≡ j.tries) × (j'.max_retries ≡ j.max_retries)
unfolding shutdown parent_stop_listening
tries-shutdown j envelopes {j' = j'} h = elim (Option-cases (parent_process_queue j envelopes)) [
  | inl e ↦ ground arith
  | inr (j₁, e) ↦ ground (arith, tries-parent_process_queue j envelopes e)
]

-- When a child process ends, its job is tried again only after a failure, with one more try and
-- never with more than max_retries + 1 tries; otherwise the job completes as it is, and it
-- completes after a failure only when more tries were made than there are retries.
pub child_complete-IsCompletionOf :
    (j : Job) (envelopes : List Envelope) (returncode : ℕ) (c : Completion)
    → child_complete j envelopes returncode ≡ some c
    → IsCompletionOf j returncode c
unfolding child_complete
child_complete-IsCompletionOf j envelopes returncode (retried j') h =
    elim (Option-cases (shutdown j envelopes)) [
      | inl e ↦ ground arith
      | inr (j₁, e) ↦ ground (arith, tries-shutdown j envelopes e, element-shutdown j envelopes e)
    ]
child_complete-IsCompletionOf j envelopes returncode (completed j') h = ground arith

-- The results that a child sends among its messages
abbrev pub results : List Envelope → List JobResult
results [] = []
results (Envelope.message text ∷ rest) = results rest
results (Envelope.result r ∷ rest) = r ∷ results rest

abbrev pub first : List JobResult → Option JobResult
first [] = none
first (r ∷ rs) = some r

-- The life of a job: `child n` is what the child of the try with number n sends, and how it ends.
-- The job when it completes and has read what its last child sent; `none` if an assertion fails, or
-- if the job has not completed within `fuel` tries.
pub attempts : (fuel : ℕ) → (child : ℕ → List Envelope × ℕ) → Job → Option Job
attempts zero child j = none
attempts (suc fuel) child j = elim (child_complete j (child j.tries).0 (child j.tries).1) [
  | none ↦ none
  | some (completed j') ↦ shutdown j' (child j.tries).0
  | some (retried j') ↦ attempts fuel child j'
]

messages_only :
    (j : Job) (envelopes : List Envelope)
    → results envelopes ≡ []
    → parent_process_queue j envelopes ≡ some j
unfolding parent_process_queue
messages_only j [] h = refl
messages_only j (Envelope.message text ∷ rest) h = messages_only j rest h
messages_only j (Envelope.result r ∷ rest) h = cc

one_result :
    (j : Job) (envelopes : List Envelope)
    → j.listening ≡ true
    → j.result ≡ none
    → length (results envelopes) ≤ 1
    → parent_process_queue j envelopes ≡ some (record j { result = first (results envelopes) })
unfolding parent_process_queue
one_result j [] l e h = ground arith
one_result j (Envelope.message text ∷ rest) l e h = one_result j rest l e h
one_result j (Envelope.result r ∷ rest) l e h =
    let no_more : results rest ≡ [] = empty (results rest) (omega arith) in
    ground (arith, messages_only (record j { result = some r }) rest no_more)
  where
    empty : (rs : List JobResult) → suc (length rs) ≤ 1 → rs ≡ []
    empty [] k = refl
    empty (x ∷ xs) k = absurd (omega arith)

child_complete-retry :
    (j : Job) (envelopes : List Envelope) (returncode : ℕ)
    → returncode ≢ 0
    → j.tries ≤ j.max_retries
    → results envelopes ≡ []
    → child_complete j envelopes returncode
      ≡ some (
          retried (record j { tries = j.tries + 1; max_retries = j.max_retries; listening = true }))
unfolding child_complete
child_complete-retry j envelopes returncode h p quiet =
    ground (arith, messages_only j envelopes quiet)

child_complete-end :
    (j : Job) (envelopes : List Envelope) (returncode : ℕ)
    → (returncode ≡ 0) ⊎ (j.max_retries < j.tries)
    → child_complete j envelopes returncode ≡ some (completed j)
unfolding child_complete
child_complete-end j envelopes returncode h = ground arith

shutdown-result :
    (j : Job) (envelopes : List Envelope)
    → j.listening ≡ true
    → j.result ≡ none
    → length (results envelopes) ≤ 1
    → shutdown j envelopes
      ≡ some (record j { result = first (results envelopes); listening = false })
unfolding shutdown parent_stop_listening
shutdown-result j envelopes l e h = ground (arith, one_result j envelopes l e h)

attempts-from :
    (fuel : ℕ) (child : ℕ → List Envelope × ℕ) (last : ℕ) (j : Job)
    → j.listening ≡ true
    → j.result ≡ none
    → j.tries + fuel ≡ last + 1
    → 0 < fuel
    → last ≤ j.max_retries + 1
    → ((n : ℕ) → n < last → ((child n).1 ≢ 0) × (results (child n).0 ≡ []))
    → ((child last).1 ≡ 0) ⊎ (last ≡ j.max_retries + 1)
    → length (results (child last).0) ≤ 1
    → (j' : Job) × (attempts fuel child j ≡ some j')
      × (j'.tries ≡ last)
      × (j'.element ≡ j.element)
      × (j'.result ≡ first (results (child last).0))
unfolding attempts
attempts-from zero child last j l e f p h fails ends once = absurd (omega arith)
attempts-from (suc zero) child last j l e f p h fails ends once =
    let now : j.tries ≡ last = omega arith in
    let at : (child j.tries).0 ≡ (child last).0 = ap (λ n. (child n).0) now in
    let few : length (results (child j.tries).0) ≤ 1 =
      subst (λ es. length (results es) ≤ 1) (sym at) once in
    (
      record j { result = first (results (child j.tries).0); listening = false },
      rw
          (
            child_complete-end j (child j.tries).0 (child j.tries).1 (
                subst (λ n. ((child n).1 ≡ 0) ⊎ (j.max_retries < j.tries)) (sym now)
                  (over ends now)),
            attempts,
          )
          (shutdown-result j (child j.tries).0 l e few),
      now,
      refl,
      ap (λ es. first (results es)) at,
    )
  where
    over :
        ((child last).1 ≡ 0) ⊎ (last ≡ j.max_retries + 1)
        → j.tries ≡ last
        → ((child last).1 ≡ 0) ⊎ (j.max_retries < j.tries)
    over (inl k) now = inl k
    over (inr k) now = inr (omega arith)
attempts-from (suc (suc fuel)) child last j l e f p h fails ends once =
    let j₁ = record j { tries = j.tries + 1; max_retries = j.max_retries; listening = true } in
    let (fails_now, quiet) = fails j.tries (omega arith) in
    let again =
      child_complete-retry j (child j.tries).0 (child j.tries).1 fails_now (omega arith) quiet in
    let (j', made, t, same, sent) =
      attempts-from (suc fuel) child last j₁ refl e (omega arith) (omega arith) h fails ends once in
    (j', rw (again, attempts) made, t, same, sent)

-- A job that is spawned with `max_retries`, and whose children may send any messages, but a result
-- only in the last try, and one at most: it ends with its first try that succeeds, or with try
-- max_retries + 1 if none does. Then it has been tried exactly that often, on the same element, and
-- has the result of the last try, if that sent one.
pub attempts_total :
    (e : Element) (max_retries : ℕ) (child : ℕ → List Envelope × ℕ) (last : ℕ)
    → 0 < last
    → last ≤ max_retries + 1
    → ((n : ℕ) → n < last → ((child n).1 ≢ 0) × (results (child n).0 ≡ []))
    → ((child last).1 ≡ 0) ⊎ (last ≡ max_retries + 1)
    → length (results (child last).0) ≤ 1
    → (j : Job) × (attempts last child (spawn (create e) max_retries) ≡ some j)
      × (j.tries ≡ last)
      × (j.element ≡ e)
      × (j.result ≡ first (results (child last).0))
unfolding create spawn
attempts_total e max_retries child last p h fails ends once =
    attempts-from last child last (spawn (create e) max_retries) refl refl (omega arith) p h fails
      ends once
