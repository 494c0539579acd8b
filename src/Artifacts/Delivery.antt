-- ===== src/Artifacts/Delivery.antt =====
-- A push that both sides complete: what each of them sends, and the refs that the remote then has.
use bst_staging.Prelude.{
  ℕ, suc, ◌≡◌, ◌≢◌, refl, sym, ap, ◌∙◌, String, Bool, true, false, Option, none, some, List, [],
  ◌∷◌, ◌++◌, arith, lookup, insert, lookup-insert, string_eq, Bool-cases, Option-cases, inl, inr,
  subst,
}
use bst_staging.Artifacts.Receiver.{
  Update, Packet, info_packet, update_packet, putobjects_packet, done_packet, objects_packet,
  status_packet, Repo, returns, install, set_each, has_all, known_refs, do_run,
}
use bst_staging.Artifacts.RefSteps.{updated}
use bst_staging.Artifacts.Pusher.{no_revision, updates, collected, collect, completed, run}

-- A dictionary has each branch once.
abbrev pub HasBranchesOnce : List (String × String) → Type 0
HasBranchesOnce [] = Unit
HasBranchesOnce ((branch, rev) ∷ refs) = (lookup branch refs ≡ none) × HasBranchesOnce refs

-- The updates of other branches leave a branch as it is.
set_updates-other :
    (b : String) (refs remote_refs base : List (String × String))
    → lookup b refs ≡ none
    → lookup b (updated (updates refs remote_refs) base) ≡ lookup b base
unfolding updates
set_updates-other b [] remote_refs base h = refl
set_updates-other b ((j, v) ∷ refs) remote_refs base h =
    let other : string_eq.beq j b ≡ false = ground arith in
    let rest : lookup b refs ≡ none = ground arith in
    ground (
      arith,
      other,
      lookup-insert j b v base,
      set_updates-other b refs remote_refs base rest,
      set_updates-other b refs remote_refs (insert j v base) rest,
    )

set_updates-own :
    (b rev : String) (refs remote_refs base : List (String × String))
    → lookup b refs ≡ none
    → rev ≢ no_revision
    → ((old : String) → lookup b remote_refs ≡ some old → lookup b base ≡ some old)
    → lookup b (updated (updates ((b, rev) ∷ refs) remote_refs) base) ≡ some rev
unfolding updates
set_updates-own b rev refs remote_refs base gone real right =
    let before = set_updates-other b refs remote_refs base gone in
    let after = set_updates-other b refs remote_refs (insert b rev base) gone in
    let set = lookup-insert b b rev base in
    let own : string_eq.beq b b ≡ true = (string_eq.beq_iff b b).1 refl in
    elim (Option-cases (lookup b remote_refs)) [
      | inl e ↦ ground (arith, e, before, after, set, own, string_eq.beq_iff rev no_revision)
      | inr (old, e) ↦
          let there : lookup b base ≡ some old = right old e in
          ground (arith, e, there, before, after, set, own, string_eq.beq_iff rev old)
    ]

-- After the updates a branch is where it is locally, if the remote reported its refs rightly.
set_updates :
    (b rev : String) (refs remote_refs base : List (String × String))
    → HasBranchesOnce refs
    → lookup b refs ≡ some rev
    → rev ≢ no_revision
    → ((old : String) → lookup b remote_refs ≡ some old → lookup b base ≡ some old)
    → lookup b (updated (updates refs remote_refs) base) ≡ some rev
unfolding updates
set_updates b rev [] remote_refs base once found real right = cc
set_updates b rev ((j, v) ∷ refs) remote_refs base once found real right =
    elim (Bool-cases (string_eq.beq j b)) [
      | inl here ↦
          let name : j ≡ b = (string_eq.beq_iff j b).0 here in
          let at : v ≡ rev = ground arith in
          let gone : lookup b refs ≡ none = subst (λ k. lookup k refs ≡ none) name once.0 in
          subst (λ k. lookup b (updated (updates ((k, v) ∷ refs) remote_refs) base) ≡ some rev)
            (sym name)
            (subst (λ x. lookup b (updated (updates ((b, x) ∷ refs) remote_refs) base) ≡ some rev)
              (sym at) (set_updates-own b rev refs remote_refs base gone real right))
      | inr there ↦
          let found' : lookup b refs ≡ some rev = ground arith in
          let kept = lookup-insert j b v base in
          let right' : (old : String)
              → lookup b remote_refs ≡ some old
              → lookup b (insert j v base) ≡ some old =
            λ old e. let old_right = right old e in ground arith in
          ground (
            arith,
            set_updates b rev refs remote_refs base once.1 found' real right,
            set_updates b rev refs remote_refs (insert j v base) once.1 found' real right',
          )
    ]

-- When OSTree sets all refs, they are all set.
set_each-updated :
    (sets_ref : List (String × String) → Update → Bool) (us : List Update)
    (refs : List (String × String))
    → (set_each sets_ref us refs).1 ≡ true
    → (set_each sets_ref us refs).0 ≡ updated us refs
unfolding set_each
set_each-updated sets_ref [] refs h = refl
set_each-updated sets_ref (u ∷ us) refs h = elim (Bool-cases (sets_ref refs u)) [
  | inl accepted ↦ ground (
    arith,
    accepted,
    set_each-updated sets_ref us (insert u.branch u.new refs) (ground (arith, accepted, h)),
  )
  | inr refused ↦ absurd (ground (arith, refused, h))
]

receiver_completes :
    (has_commit : List String → String → Bool) (sets_ref : List (String × String) → Update → Bool)
    (r : Repo) (mode : ℕ) (asked : List (String × String)) (u : Update) (us : List Update)
    (o : String) (os : List String)
    → (install [] (o ∷ os) r.objects).1 ≡ true
    → has_all has_commit (install [] (o ∷ os) r.objects).0 (u ∷ us) ≡ true
    → (set_each sets_ref (u ∷ us) r.refs).1 ≡ true
    → do_run has_commit sets_ref r (
        info_packet mode asked
        ∷ update_packet (u ∷ us)
        ∷ putobjects_packet
        ∷ objects_packet (o ∷ os)
        ∷ done_packet
        ∷ [])
      ≡ returns
          (record r { objects = (install [] (o ∷ os) r.objects).0; refs = updated (u ∷ us) r.refs })
          (info_packet r.mode (known_refs has_commit asked r)
            ∷ status_packet true
            ∷ done_packet
            ∷ [])
unfolding do_run
receiver_completes has_commit sets_ref r mode asked u us o os once all accepted =
    ground (arith, once, all, accepted, set_each-updated sets_ref (u ∷ us) r.refs accepted)

pusher_completes :
    (parent_of : String → Option (Option String)) (objects_of : List String → List String)
    (archive fuel n mode : ℕ) (asked refs remote_refs : List (String × String)) (u : Update)
    (us : List Update) (commits : List String) (o : String) (os : List String)
    → updates refs remote_refs ≡ u ∷ us
    → (let sent = info_packet mode asked ∷ update_packet (u ∷ us) ∷ [] in
        collect parent_of fuel (u ∷ us) [] sent 0 false ≡ collected commits sent (suc n) false)
    → objects_of commits ≡ o ∷ os
    → run parent_of objects_of archive fuel
        (info_packet mode asked)
        refs
        (info_packet archive remote_refs ∷ status_packet true ∷ done_packet ∷ [])
      ≡ completed (
          info_packet mode asked
          ∷ update_packet (u ∷ us)
          ∷ putobjects_packet
          ∷ objects_packet (o ∷ os)
          ∷ done_packet
          ∷ [])
unfolding run
pusher_completes parent_of objects_of archive fuel n mode asked refs remote_refs u us commits o os
      differ needed objects =
    ground (arith, differ, needed, objects)

-- Both sides of a push, each given what the other sends: if the remote has the expected mode, some
-- branch differs, the histories hold the remote commits, the objects are sent once each and bring
-- all new commits, and OSTree sets the refs, then both sides end without an exception, having sent
-- just what the other one was given, and a branch that is pushed is at its local revision on the
-- remote, if the remote reports only what it has of this branch.
pub push_delivers :
    (has_commit : List String → String → Bool) (sets_ref : List (String × String) → Update → Bool)
    (parent_of : String → Option (Option String)) (objects_of : List String → List String)
    (fuel mode n : ℕ) (asked refs remote_refs : List (String × String)) (r : Repo) (u : Update)
    (us : List Update) (commits : List String) (o : String) (os : List String)
    (sent pushed replies : List Packet) (branch rev : String)
    → remote_refs ≡ known_refs has_commit asked r
    → sent ≡ info_packet mode asked ∷ update_packet (u ∷ us) ∷ []
    → pushed ≡ sent ++ (putobjects_packet ∷ objects_packet (o ∷ os) ∷ done_packet ∷ [])
    → replies ≡ info_packet r.mode remote_refs ∷ status_packet true ∷ done_packet ∷ []
    → updates refs remote_refs ≡ u ∷ us
    → collect parent_of fuel (u ∷ us) [] sent 0 false ≡ collected commits sent (suc n) false
    → objects_of commits ≡ o ∷ os
    → (install [] (o ∷ os) r.objects).1 ≡ true
    → has_all has_commit (install [] (o ∷ os) r.objects).0 (u ∷ us) ≡ true
    → (set_each sets_ref (u ∷ us) r.refs).1 ≡ true
    → HasBranchesOnce refs
    → lookup branch refs ≡ some rev
    → rev ≢ no_revision
    → ((old : String) → lookup branch remote_refs ≡ some old → lookup branch r.refs ≡ some old)
    → (run parent_of objects_of r.mode fuel (info_packet mode asked) refs replies
        ≡ completed pushed)
      × ((do_run has_commit sets_ref r pushed).sent ≡ replies)
      × ((do_run has_commit sets_ref r pushed).returned ≡ true)
      × (lookup branch (do_run has_commit sets_ref r pushed).repo.refs ≡ some rev)
push_delivers has_commit sets_ref parent_of objects_of fuel mode n asked refs remote_refs r u us
      commits o os sent pushed replies branch rev known start whole answers differ needed objects
      single all accepted once found real right =
    let ended =
      ap (do_run has_commit sets_ref r) (
        whole
        ∙ ap (λ l. l ++ (putobjects_packet ∷ objects_packet (o ∷ os) ∷ done_packet ∷ [])) start)
      ∙ receiver_completes has_commit sets_ref r mode asked u us o os single all accepted in
    let said : info_packet r.mode (known_refs has_commit asked r)
          ∷ status_packet true
          ∷ done_packet
          ∷ []
        ≡ replies =
      cc in
    let needed' : collect parent_of fuel (u ∷ us) []
          (info_packet mode asked ∷ update_packet (u ∷ us) ∷ []) 0 false
        ≡ collected commits (info_packet mode asked ∷ update_packet (u ∷ us) ∷ []) (suc n) false =
      subst (λ l. collect parent_of fuel (u ∷ us) [] l 0 false ≡ collected commits l (suc n) false)
        start needed in
    (
      ap (run parent_of objects_of r.mode fuel (info_packet mode asked) refs) answers
          ∙ pusher_completes parent_of objects_of r.mode fuel n mode asked refs remote_refs u us
              commits o os differ needed' objects
          ∙ ap completed (
              sym (
                whole
                ∙ ap (λ l. l ++ (putobjects_packet ∷ objects_packet (o ∷ os) ∷ done_packet ∷ []))
                    start)),
      ap (λ e. e.sent) ended ∙ said,
      ap (λ e. e.returned) ended,
      ap (λ e. lookup branch e.repo.refs) ended
          ∙ ap (λ l. lookup branch (updated l r.refs)) (sym differ)
          ∙ set_updates branch rev refs remote_refs r.refs once found real right,
    )
