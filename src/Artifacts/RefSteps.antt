-- ===== src/Artifacts/RefSteps.antt =====
-- What the renames and the updates of refs of OSTreeReceiver.do_run leave, one after the other.
use bst_staging.Prelude.{
  ℕ, String, Bool, true, false, some, List, [], ◌∷◌, ◌++◌, ◌≡◌, refl, ap, inl, inr, lookup, insert,
  contains, lookup-insert, arith, if◌then◌else◌, string_eq, Bool-cases,
}
use bst_staging.Artifacts.Receiver.{
  Update, Packet, update_packet, putobjects_packet, objects_packet, done_packet, Repo, install,
  set_each, has_all, receive_info, receive_update_or_done, info_packet, status_packet,
}

-- Every ref points to a commit that the repository has.
abbrev pub HasItsRefs : (List String → String → Bool) → Repo → Type 0
HasItsRefs has_commit r =
    (branch rev : String) → lookup branch r.refs ≡ some rev → has_commit r.objects rev ≡ true

-- OSTree finds a commit in a larger store if it finds it in a smaller one.
abbrev pub IsMonotone : (List String → String → Bool) → Type 0
IsMonotone has_commit =
    (store : List String) (o rev : String)
    → has_commit store rev ≡ true
    → has_commit (store ++ (o ∷ [])) rev ≡ true

pub install-keeps :
    (has_commit : List String → String → Bool) (mono : IsMonotone has_commit)
    (moved os store : List String) (rev : String)
    → has_commit store rev ≡ true
    → has_commit (install moved os store).0 rev ≡ true
unfolding install
install-keeps has_commit mono moved [] store rev h = h
install-keeps has_commit mono moved (o ∷ os) store rev h =
    let grown = mono store o rev h in
    let rest =
      install-keeps has_commit mono (o ∷ moved) os
        (if contains store o then store else store ++ (o ∷ [])) rev
        (elim (Bool-cases (contains store o)) [ inl e ↦ ground arith | inr e ↦ ground arith ]) in
    elim (Bool-cases (contains moved o)) [
      | inl e ↦ ground (arith, e, h)
      | inr e ↦ ground (arith, e, rest)
    ]

-- A ref after some updates is one of before, or the new commit of an update.
pub set_each-HasItsRefs :
    (has_commit : List String → String → Bool) (sets_ref : List (String × String) → Update → Bool)
    (mode : ℕ) (store : List String) (us : List Update) (refs : List (String × String))
    → has_all has_commit store us ≡ true
    → HasItsRefs has_commit (record { objects = store; refs = refs; mode = mode })
    → HasItsRefs has_commit
        (record { objects = store; refs = (set_each sets_ref us refs).0; mode = mode })
unfolding set_each
set_each-HasItsRefs has_commit sets_ref mode store [] refs all h = h
set_each-HasItsRefs has_commit sets_ref mode store (u ∷ us) refs all h =
    elim (Bool-cases (sets_ref refs u)) [
      | inr refused ↦ rw refused h
      | inl accepted ↦ rw accepted (
          set_each-HasItsRefs has_commit sets_ref mode store us (insert u.branch u.new refs)
            (ground arith)
            (λ branch rev e.
              let here : has_commit store u.new ≡ true = ground arith in
              let there = h branch rev in ground (arith, lookup-insert u.branch branch u.new refs)))
    ]

-- The refs after the updates are all set
abbrev pub updated : List Update → List (String × String) → List (String × String)
updated [] refs = refs
updated (u ∷ us) refs = updated us (insert u.branch u.new refs)

-- The refs after the first updates are set, up to one that OSTree refuses
abbrev pub IsRefused :
    (List (String × String) → Update → Bool)
    → List Update
    → (refs after : List (String × String)) → Type 0
IsRefused sets_ref us refs after =
    (before : List Update) × (u : Update) × (later : List Update) × (us ≡ before ++ (u ∷ later))
    × (after ≡ updated before refs)
    × (sets_ref (updated before refs) u ≡ false)

pub set_each-IsRefused :
    (sets_ref : List (String × String) → Update → Bool) (us : List Update)
    (refs : List (String × String))
    → (set_each sets_ref us refs).1 ≡ false
    → IsRefused sets_ref us refs (set_each sets_ref us refs).0
unfolding set_each
set_each-IsRefused sets_ref [] refs h = cc
set_each-IsRefused sets_ref (u ∷ us) refs h = elim (Bool-cases (sets_ref refs u)) [
  | inr refused ↦ ([], u, us, refl, ground (arith, refused), refused)
  | inl accepted ↦
      let (before, v, later, parts, after, refused) =
        set_each-IsRefused sets_ref us (insert u.branch u.new refs) (ground (arith, accepted, h)) in
      (u ∷ before, v, later, ap (λ l. u ∷ l) parts, ground (arith, accepted, after), refused)
]

pub receive_info-input :
    (input : List Packet) (mode : ℕ) (asked : List (String × String)) (rest : List Packet)
    → receive_info input ≡ some (mode, asked, rest)
    → input ≡ info_packet mode asked ∷ rest
receive_info-input (info_packet m a ∷ ps) mode asked rest h = cc
receive_info-input [] mode asked rest h = cc
receive_info-input (update_packet us ∷ ps) mode asked rest h = cc
receive_info-input (status_packet b ∷ ps) mode asked rest h = cc
receive_info-input (putobjects_packet ∷ ps) mode asked rest h = cc
receive_info-input (done_packet ∷ ps) mode asked rest h = cc
receive_info-input (objects_packet os ∷ ps) mode asked rest h = cc

pub receive_update-input :
    (input : List Packet) (us : List Update) (rest : List Packet)
    → receive_update_or_done input ≡ some (some us, rest)
    → input ≡ update_packet us ∷ rest
receive_update-input (update_packet vs ∷ ps) us rest h = cc
receive_update-input [] us rest h = cc
receive_update-input (info_packet m a ∷ ps) us rest h = cc
receive_update-input (status_packet b ∷ ps) us rest h = cc
receive_update-input (putobjects_packet ∷ ps) us rest h = cc
receive_update-input (done_packet ∷ ps) us rest h = cc
receive_update-input (objects_packet os ∷ ps) us rest h = cc
