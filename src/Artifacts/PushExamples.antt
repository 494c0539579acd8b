-- ===== src/Artifacts/PushExamples.antt =====
-- Pushes between two small repositories: tests, and the theorems applied.
use bst_staging.Prelude.{
  ◌≡◌, ◌≢◌, refl, String, Bool, true, false, Option, none, some, List, [], ◌∷◌, contains, lookup,
  arith, string_eq, if◌then◌else◌, ◌&&◌,
}
use bst_staging.Artifacts.Receiver.{
  Update, Packet, info_packet, update_packet, putobjects_packet, done_packet, objects_packet,
  status_packet, Repo, do_run, install, set_each, raises,
}
use bst_staging.Artifacts.Pusher.{
  no_revision, updates, collect, collected, run, completed, stopped, needed_commits, needs,
  not_descendent,
}
use bst_staging.Artifacts.History.{needed_commits-descends, needed_commits_complete}
use bst_staging.Artifacts.Delivery.{push_delivers}

-- A commit is stored as an object of its own name; "b" is the child of "a".
abbrev has_commit : List String → String → Bool
has_commit store rev = contains store rev

-- A repository that sets every ref
abbrev sets_any : List (String × String) → Update → Bool
sets_any refs u = true

abbrev parent_of : String → Option (Option String)
parent_of rev =
    if string_eq.beq rev "b"
    then some (some "a")
    else if string_eq.beq rev "a"
    then some none
    else none

abbrev remote : Repo
remote = record { objects = "a" ∷ []; refs = ("app", "a") ∷ []; mode = 1 }

abbrev new_update : Update
new_update = record { branch = "app"; old = no_revision; new = "b" }

abbrev pusher_packets : List Packet
pusher_packets =
    info_packet 0 (("app", "b") ∷ [])
    ∷ update_packet (new_update ∷ [])
    ∷ putobjects_packet
    ∷ objects_packet ("b" ∷ "a" ∷ [])
    ∷ done_packet
    ∷ []

abbrev replies : List Packet
replies = info_packet 1 [] ∷ status_packet true ∷ done_packet ∷ []

received_refs : (do_run has_commit sets_any remote pusher_packets).repo.refs ≡ ("app", "b") ∷ []
unfolding do_run
received_refs = refl

-- One branch is new and the other one is not a descendent: `done` is sent before the objects, and
-- the receiver, which stops there, never has them.
early_done :
    run parent_of
      (λ commits. commits)
      1
      3
      (info_packet 0 [])
      (("app", "b") ∷ ("lib", "b") ∷ [])
      (info_packet 1 (("lib", "c") ∷ []) ∷ status_packet true ∷ [])
    ≡ stopped (
        info_packet 0 []
        ∷ update_packet (new_update ∷ record { branch = "lib"; old = "c"; new = "b" } ∷ [])
        ∷ done_packet
        ∷ putobjects_packet
        ∷ objects_packet ("b" ∷ "a" ∷ [])
        ∷ done_packet
        ∷ [])
unfolding run needed_commits
early_done = refl

-- A ref that OSTree does not set stays, with those behind it; those before it are set.
abbrev sets_app : List (String × String) → Update → Bool
sets_app refs u = string_eq.beq u.branch "app"

partly_set :
    do_run has_commit sets_app remote (
      info_packet 0 []
      ∷ update_packet (new_update ∷ record { branch = "a/../b"; old = no_revision; new = "b" } ∷ [])
      ∷ putobjects_packet
      ∷ objects_packet ("b" ∷ "a" ∷ [])
      ∷ done_packet
      ∷ [])
    ≡ raises
        (record { objects = "a" ∷ "b" ∷ []; refs = ("app", "b") ∷ []; mode = 1 })
        (info_packet 1 [] ∷ status_packet true ∷ [])
unfolding do_run
partly_set = refl

needed_commits-descends_example : needed_commits parent_of 3 "a" "b" [] ≡ needs ("b" ∷ [])
needed_commits-descends_example =
    needed_commits-descends parent_of 3 "a" "b" [] [] (omega arith) (λ e. different e) (refl, tt)
      (refl, tt)
  where
    different : "a" ≢ no_revision
    different e = cc

needed_commits_complete_example :
    (needed_commits parent_of 3 "c" "b" [] ≡ not_descendent ("b" ∷ "a" ∷ []))
    × (needed_commits parent_of 3 no_revision "b" [] ≡ needs ("b" ∷ "a" ∷ []))
needed_commits_complete_example =
    needed_commits_complete parent_of 3 "c" "b" ("a" ∷ []) [] (omega arith) (λ e. different e)
      (refl, (refl, tt)) (refl, (refl, tt))
  where
    different : "c" ≢ no_revision
    different e = cc

collected_commits :
    collect parent_of 3
      (new_update ∷ [])
      []
      (info_packet 0 (("app", "b") ∷ []) ∷ update_packet (new_update ∷ []) ∷ [])
      0
      false
    ≡ collected
        ("b" ∷ "a" ∷ [])
        (info_packet 0 (("app", "b") ∷ []) ∷ update_packet (new_update ∷ []) ∷ [])
        1
        false
unfolding collect needed_commits
collected_commits = refl

differing : updates (("app", "b") ∷ []) [] ≡ new_update ∷ []
unfolding updates
differing = refl

all_stored : contains (install [] ("b" ∷ "a" ∷ []) remote.objects).0 "b" && true ≡ true
unfolding install
all_stored = refl

all_moved : (install [] ("b" ∷ "a" ∷ []) remote.objects).1 ≡ true
unfolding install
all_moved = refl

all_set : (set_each sets_any (new_update ∷ []) remote.refs).1 ≡ true
unfolding set_each
all_set = refl

push_delivers_example :
    (run parent_of
        (λ commits. commits)
        1
        3
        (info_packet 0 (("app", "b") ∷ []))
        (("app", "b") ∷ [])
        replies
      ≡ completed pusher_packets)
    × ((do_run has_commit sets_any remote pusher_packets).sent ≡ replies)
    × ((do_run has_commit sets_any remote pusher_packets).returned ≡ true)
    × (lookup "app" (do_run has_commit sets_any remote pusher_packets).repo.refs ≡ some "b")
push_delivers_example =
    push_delivers has_commit sets_any parent_of (λ commits. commits) 3 0 0 (("app", "b") ∷ [])
      (("app", "b") ∷ []) [] remote new_update [] ("b" ∷ "a" ∷ []) "b" ("a" ∷ [])
      (info_packet 0 (("app", "b") ∷ []) ∷ update_packet (new_update ∷ []) ∷ []) pusher_packets
      replies "app" "b" refl refl refl refl differing collected_commits refl all_moved all_stored
      all_set (refl, tt) refl (λ e. different e) (λ old e. cc)
  where
    different : "b" ≢ no_revision
    different e = cc
