-- ===== src/Artifacts/RefSafety.antt =====
-- OSTreeReceiver.do_run: whatever is sent, no ref comes to point to a commit that is not there.
use bst_staging.Prelude.{ℕ, String, Bool, true, List, ◌∷◌, ◌≡◌, ◌⊎◌, string_eq}
use bst_staging.Artifacts.Receiver.{
  Update, Packet, update_packet, Repo, Ended, returns, raises, finish, info_packet,
}
use bst_staging.Artifacts.RefSteps.{HasItsRefs, IsRefused}

-- The pusher offers updates.
abbrev pub Offers : List Packet → List Update → Type 0
Offers input us =
    (mode : ℕ) × (asked : List (String × String)) × (rest : List Packet) × (input
      ≡ info_packet mode asked ∷ update_packet us ∷ rest)

module _ (has_commit : List String → String → Bool)
    (sets_ref : List (String × String) → Update → Bool) where
  -- The receiver gives up, stops early, or has all objects for the updates.
  abbrev EndsAs : Repo → List Update → Ended → Type 0
  EndsAs r us e =
      ((sent : List Packet) × (e ≡ raises r sent))
      ⊎ (((sent : List Packet) × (e ≡ returns r sent))
          ⊎ ((sent : List Packet) × (os : List String) × (e
                ≡ finish has_commit sets_ref r sent us os)))

  -- What holds of a session with updates, however it ends
  abbrev IsSafe : Repo → List Update → Ended → Type 0
  IsSafe r us e =
      HasItsRefs has_commit e.repo
      × ((e.returned ≡ true) ⊎ ((e.repo.refs ≡ r.refs) ⊎ IsRefused sets_ref us r.refs e.repo.refs))
