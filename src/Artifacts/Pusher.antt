-- ===== src/Artifacts/Pusher.antt =====
-- OSTreePusher.run of buildstream/_artifactcache/pushreceive.py: the local side of a push.
-- The commits of the local repository and the objects that they reach are parameters.
use bst_staging.Prelude.{
  ℕ, zero, suc, ◌+◌, String, Bool, true, false, not, Option, none, some, List, [], ◌∷◌, ◌++◌,
  lookup, contains, if◌then◌else◌, string_eq, ◌==◌, ◌&&◌,
}
use bst_staging.Artifacts.Receiver.{
  Update, Packet, update_packet, putobjects_packet, done_packet, objects_packet, status_packet,
  receive_info, receive_done,
}

-- `'0' * 64`, the revision of a branch that the remote does not have
abbrev pub no_revision : String
no_revision = "0000000000000000000000000000000000000000000000000000000000000000"

-- `needed.add(commit)`
abbrev pub add : String → List String → List String
add c needed = if contains needed c then needed else needed ++ (c ∷ [])

-- The branches whose revision differs from the remote one
unfoldable pub updates :
    List (String × String) → (remote_refs : List (String × String)) → List Update
updates [] remote_refs = []
updates ((branch, rev) ∷ refs) remote_refs =
    let others = updates refs remote_refs in
    let remote_rev : String = elim (lookup branch remote_refs) [
      | none ↦ no_revision
      | some old ↦ old
    ] in
    if string_eq.beq rev remote_rev
    then others
    else record { branch = branch; old = remote_rev; new = rev } ∷ others

-- How a walk over the history ends: with the needed commits; with PushExistsException, which
-- leaves the commits that it met; with PushException; or without fuel.
pub data Walk : Type 0 where
  needs not_descendent : List String → Walk
  shallow_history out_of_fuel : Walk

-- `receive_status()['result']`
abbrev pub receive_status : List Packet → Option (Bool × List Packet)
receive_status (status_packet result ∷ rest) = some (result, rest)
receive_status _ = none

-- What a walk over all updates collects; `collapsed` is a PushException.
pub data Collected : Type 0 where
  collapsed : List Packet → Collected
  collected :
      (commits : List String) → (sent : List Packet) → (ref_count : ℕ) → (exists : Bool) → Collected

pub record Pushed : Type 0 where
  pub sent : List Packet
  pub returned : Bool

abbrev pub stopped : List Packet → Pushed
stopped sent = record { sent = sent; returned = false }

abbrev pub completed : List Packet → Pushed
completed sent = record { sent = sent; returned = true }

abbrev pub is_remote : Option String → String → Bool
is_remote none c = false
is_remote (some remote) c = string_eq.beq c remote

-- The end of a walk at a commit without a parent
abbrev pub at_root : Option String → List String → Walk
at_root none needed = needs needed
at_root (some remote) needed = not_descendent needed

-- `parent_of`: none for a commit that is not in the repository, and its parent if it has one.
module _ (parent_of : String → Option (Option String)) where
  -- The loop of `needed_commits`; the fuel bounds its rounds.
  unfoldable pub walk :
      (fuel : ℕ) → (remote : Option String) → String → (needed : List String) → Walk
  walk zero remote c needed = out_of_fuel
  walk (suc fuel) remote c needed =
      let on : Walk = elim (parent_of c) [
        | none ↦ shallow_history
        | some none ↦ at_root remote (add c needed)
        | some (some parent) ↦ walk fuel remote parent (add c needed)
      ] in
      if is_remote remote c then needs needed else on

  unfoldable pub needed_commits :
      (fuel : ℕ) → (remote local : String) → (needed : List String) → Walk
  unfolding walk
  needed_commits fuel remote local needed =
      walk fuel (if string_eq.beq remote no_revision then none else some remote) local needed

  -- The loop of `run` over the updates
  unfoldable pub collect :
      (fuel : ℕ)
      → List Update
      → List String
      → (sent : List Packet) → (ref_count : ℕ) → (exists : Bool) → Collected
  collect fuel [] commits sent n exists = collected commits sent n exists
  collect fuel (u ∷ us) commits sent n exists = elim (needed_commits fuel u.old u.new commits) [
    | needs commits' ↦ collect fuel us commits' sent (n + 1) exists
    | not_descendent commits' ↦ collect fuel us commits' (sent ++ (done_packet ∷ [])) n true
    | shallow_history ↦ collapsed sent
    | out_of_fuel ↦ collapsed sent
  ]

  -- `objects_of` is `needed_objects`, `archive_z2` is OSTree.RepoMode.ARCHIVE_Z2.
  module _ (objects_of : List String → List String) (archive_z2 : ℕ) where
    unfoldable pub send_objects : List Packet → Collected → Pushed
    send_objects input (collapsed sent) = stopped sent
    send_objects input (collected commits sent n exists) =
        let sent' =
          sent ++ (putobjects_packet ∷ objects_packet (objects_of commits) ∷ done_packet ∷ []) in
        if n == 0 && exists
        then stopped sent
        else elim (receive_done input) [ none ↦ stopped sent' | some _ ↦ completed sent' ]

    -- `run` once there is something to update
    unfoldable pub send_update :
        (fuel : ℕ) → (sent : List Packet) → List Update → List Packet → Pushed
    unfolding send_objects collect
    send_update fuel sent us input =
        let sent' = sent ++ (update_packet us ∷ []) in
        elim (receive_status input) [
          | none ↦ stopped sent'
          | some (false, _) ↦ stopped (sent' ++ (done_packet ∷ []))
          | some (true, rest) ↦ send_objects rest (collect fuel us [] sent' 0 false)
        ]

    -- `own_info` is what `send_info` sends of the local repository.
    unfoldable pub run :
        (fuel : ℕ) → (own_info : Packet) → (refs : List (String × String)) → List Packet → Pushed
    unfolding send_update updates
    run fuel own_info refs input = elim (receive_info input) [
      | none ↦ stopped (own_info ∷ [])
      | some (mode, remote_refs, rest) ↦
          if not (mode == archive_z2)
          then stopped (own_info ∷ [])
          else elim (updates refs remote_refs) [
            | [] ↦ completed (own_info ∷ done_packet ∷ [])
            | u ∷ us ↦ send_update fuel (own_info ∷ []) (u ∷ us) rest
          ]
    ]
