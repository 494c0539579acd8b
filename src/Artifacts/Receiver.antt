-- ===== src/Artifacts/Receiver.antt =====
-- OSTreeReceiver.do_run of buildstream/_artifactcache/pushreceive.py: the remote side of a push.
-- The stream is a list of packets here: the messages, and the tar stream behind `putobjects`.
-- What OSTree says of a commit is a parameter.
use bst_staging.Prelude.{
  ℕ, String, Bool, true, false, Option, none, some, List, [], ◌∷◌, ◌++◌, lookup, insert, contains,
  if◌then◌else◌, string_eq, ◌&&◌, not,
}

-- `branch: (old, new)` of an update command
pub record Update : Type 0 where
  pub branch : String
  pub old : String
  pub new : String

pub data Packet : Type 0 where
  info_packet : (mode : ℕ) → (refs : List (String × String)) → Packet
  update_packet : List Update → Packet
  status_packet : (result : Bool) → Packet
  putobjects_packet done_packet : Packet
  objects_packet : List String → Packet

-- What the repository stores: the names of its objects, its refs and its mode.
pub record Repo : Type 0 where
  pub objects : List String
  pub refs : List (String × String)
  pub mode : ℕ

-- The methods of the reader; `none` is an exception: the stream ends or holds something else.
abbrev pub receive_info : List Packet → Option (ℕ × List (String × String) × List Packet)
receive_info (info_packet mode refs ∷ rest) = some (mode, refs, rest)
receive_info _ = none

-- `receive([update, done])`: the updates, or none of them for a done command
abbrev pub receive_update_or_done : List Packet → Option (Option (List Update) × List Packet)
receive_update_or_done (update_packet us ∷ rest) = some (some us, rest)
receive_update_or_done (done_packet ∷ rest) = some (none, rest)
receive_update_or_done _ = none

-- `receive([putobjects, done])`: whether it is putobjects
abbrev pub receive_putobjects_or_done : List Packet → Option (Bool × List Packet)
receive_putobjects_or_done (putobjects_packet ∷ rest) = some (true, rest)
receive_putobjects_or_done (done_packet ∷ rest) = some (false, rest)
receive_putobjects_or_done _ = none

abbrev pub receive_putobjects : List Packet → Option (List String × List Packet)
receive_putobjects (objects_packet os ∷ rest) = some (os, rest)
receive_putobjects _ = none

abbrev pub receive_done : List Packet → Option (List Packet)
receive_done (done_packet ∷ rest) = some rest
receive_done _ = none

-- How `do_run` ends, with the repository and what was sent: it returns 0, or it raises.
pub record Ended : Type 0 where
  pub repo : Repo
  pub sent : List Packet
  pub returned : Bool

abbrev pub returns : Repo → List Packet → Ended
returns r sent = record { repo = r; sent = sent; returned = true }

abbrev pub raises : Repo → List Packet → Ended
raises r sent = record { repo = r; sent = sent; returned = false }

-- The renames of the received objects into the object store, and whether all succeed: an object
-- that was received twice is not there to be renamed again. `moved` are those that were renamed.
unfoldable pub install : (moved os store : List String) → List String × Bool
install moved [] store = (store, true)
install moved (o ∷ os) store =
    let rest = install (o ∷ moved) os (if contains store o then store else store ++ (o ∷ [])) in
    if contains moved o then (store, false) else rest

-- `set_ref_immediate` for each update, and whether all succeed. `sets_ref` is whether OSTree sets
-- the ref of an update in a repository with some refs; those that were set before stay set.
unfoldable pub set_each :
    (sets_ref : List (String × String) → Update → Bool)
    → List Update
    → List (String × String)
    → List (String × String) × Bool
set_each sets_ref [] refs = (refs, true)
set_each sets_ref (u ∷ us) refs =
    let rest = set_each sets_ref us (insert u.branch u.new refs) in
    if sets_ref refs u then rest else (refs, false)

-- `has_object(COMMIT, rev)` in a store with some objects
module _ (has_commit : List String → String → Bool) where
  -- Whether the repository has all the specified commits.
  abbrev pub has_all : List String → List Update → Bool
  has_all store [] = true
  has_all store (u ∷ us) = has_commit store u.new && has_all store us

  -- The reply of `send_info`: `has_object` is asked for the branch, not for its revision.
  abbrev pub known_refs : List (String × String) → Repo → List (String × String)
  known_refs [] r = []
  known_refs ((branch, _) ∷ asked) r =
      let others = known_refs asked r in
      elim (lookup branch r.refs) [
        | none ↦ others
        | some rev ↦ if has_commit r.objects branch then (branch, rev) ∷ others else others
      ]

  module _ (sets_ref : List (String × String) → Update → Bool) where
    -- `do_run` once the pusher has sent all objects
    unfoldable pub finish : Repo → List Packet → List Update → List String → Ended
    unfolding install set_each
    finish r sent us [] = returns r sent
    finish r sent us (o ∷ os) =
        let (store, all_moved) = install [] (o ∷ os) r.objects in
        let (refs, all_set) = set_each sets_ref us r.refs in
        let moved = record r { objects = store } in
        let set = record moved { refs = refs } in
        if not all_moved
        then raises moved sent
        else if not (has_all store us)
        then raises moved sent
        else if all_set
        then returns set (sent ++ (done_packet ∷ []))
        else raises set sent

    unfoldable pub take_objects : Repo → List Packet → List Update → List Packet → Ended
    unfolding finish
    take_objects r sent us input = elim (receive_putobjects input) [
      | none ↦ raises r sent
      | some (os, rest) ↦ elim (receive_done rest) [
        | none ↦ raises r sent
        | some _ ↦ finish r sent us os
      ]
    ]

    unfoldable pub take_update : Repo → List Packet → List Update → List Packet → Ended
    unfolding take_objects
    take_update r sent us input = elim (receive_putobjects_or_done input) [
      | none ↦ raises r sent
      | some (true, rest) ↦ take_objects r sent us rest
      | some (false, rest) ↦ returns r sent
    ]

    unfoldable pub do_run : Repo → List Packet → Ended
    unfolding take_update
    do_run r input = elim (receive_info input) [
      | none ↦ raises r []
      | some (_, asked, rest) ↦
          let sent = info_packet r.mode (known_refs asked r) ∷ [] in
          elim (receive_update_or_done rest) [
            | none ↦ raises r sent
            | some (none, _) ↦ returns r sent
            | some (some us, rest') ↦ take_update r (sent ++ (status_packet true ∷ [])) us rest'
          ]
    ]
