-- ===== src/Artifacts/History.antt =====
-- OSTreePusher.needed_commits: which commits of a history a push needs.
use bst_staging.Prelude.{
  ℕ, zero, suc, ◌<◌, ◌≡◌, ◌≢◌, refl, ap, ◌∙◌, Bool-cases, inl, inr, String, false, Option, none,
  some, List, [], ◌∷◌, length, All, arith, if◌then◌else◌, string_eq,
}
use bst_staging.Artifacts.Pusher.{
  needs, not_descendent, add, is_remote, at_root, walk, needed_commits, no_revision,
}

abbrev pub add_all : List String → List String → List String
add_all [] needed = needed
add_all (c ∷ cs) needed = add_all cs (add c needed)

-- The first commit of a history, or what follows it.
abbrev pub first : List String → Option String → Option String
first [] end = end
first (c ∷ cs) end = some c

module _ (parent_of : String → Option (Option String)) where
  -- Each commit is in the repository and the next one is its parent; `end` follows the last.
  abbrev pub IsHistory : List String → Option String → Type 0
  IsHistory [] end = Unit
  IsHistory (c ∷ cs) end = (parent_of c ≡ some (first cs end)) × IsHistory cs end

  -- No commit of a list is the remote one.
  abbrev pub IsAhead : Option String → List String → Type 0
  IsAhead remote cs = All (λ c. is_remote remote c ≡ false) cs

  walk-descends :
      (fuel : ℕ) (remote c : String) (cs needed : List String)
      → suc (length cs) < fuel
      → IsHistory (c ∷ cs) (some remote)
      → IsAhead (some remote) (c ∷ cs)
      → walk parent_of fuel (some remote) c needed ≡ needs (add_all (c ∷ cs) needed)
  unfolding walk
  walk-descends (suc (suc fuel)) remote c [] needed h past ahead =
      ground (arith, past.0, ahead.0, string_eq.beq_iff remote remote)
  walk-descends (suc fuel) remote c (d ∷ cs) needed h past ahead = ground (
    arith,
    past.0,
    ahead.0,
    walk-descends fuel remote d cs (add c needed) (omega arith) past.1 ahead.1,
  )
  walk-descends (suc zero) remote c [] needed h past ahead = absurd (omega arith)
  walk-descends zero remote c cs needed h past ahead = absurd (omega arith)

  walk-ends :
      (fuel : ℕ) (remote : Option String) (c : String) (cs needed : List String)
      → suc (length cs) < fuel
      → IsHistory (c ∷ cs) none
      → IsAhead remote (c ∷ cs)
      → walk parent_of fuel remote c needed ≡ at_root remote (add_all (c ∷ cs) needed)
  unfolding walk
  walk-ends (suc fuel) remote c [] needed h past ahead = ground (arith, past.0, ahead.0)
  walk-ends (suc fuel) remote c (d ∷ cs) needed h past ahead = ground (
    arith,
    past.0,
    ahead.0,
    walk-ends fuel remote d cs (add c needed) (omega arith) past.1 ahead.1,
  )
  walk-ends zero remote c cs needed h past ahead = absurd (omega arith)

  needed_commits-real :
      (fuel : ℕ) (remote c : String) (needed : List String)
      → remote ≢ no_revision
      → needed_commits parent_of fuel remote c needed ≡ walk parent_of fuel (some remote) c needed
  unfolding needed_commits
  needed_commits-real fuel remote c needed real =
      elim (Bool-cases (string_eq.beq remote no_revision)) [
        | inl e ↦ absurd (real ((string_eq.beq_iff remote no_revision).0 e))
        | inr e ↦ ap (λ b. walk parent_of fuel (if b then none else some remote) c needed) e
      ]

  -- A push needs the commits from the local one back to the remote one, without the latter, if the
  -- remote one is in the history. For more fuel than there are commits.
  pub needed_commits-descends :
      (fuel : ℕ) (remote c : String) (cs needed : List String)
      → suc (length cs) < fuel
      → remote ≢ no_revision
      → IsAhead (some remote) (c ∷ cs)
      → IsHistory (c ∷ cs) (some remote)
      → needed_commits parent_of fuel remote c needed ≡ needs (add_all (c ∷ cs) needed)
  needed_commits-descends fuel remote c cs needed h real ahead past =
      needed_commits-real fuel remote c needed real
      ∙ walk-descends fuel remote c cs needed h past ahead

  -- With a complete history that does not hold the remote commit the push is refused as existing;
  -- if the remote has no such branch, all commits of the history are needed. For more fuel than
  -- there are commits.
  pub needed_commits_complete :
      (fuel : ℕ) (remote c : String) (cs needed : List String)
      → suc (length cs) < fuel
      → remote ≢ no_revision
      → IsAhead (some remote) (c ∷ cs)
      → IsHistory (c ∷ cs) none
      → (needed_commits parent_of fuel remote c needed ≡ not_descendent (add_all (c ∷ cs) needed))
        × (needed_commits parent_of fuel no_revision c needed ≡ needs (add_all (c ∷ cs) needed))
  unfolding needed_commits
  needed_commits_complete fuel remote c cs needed h real ahead past = (
    needed_commits-real fuel remote c needed real
        ∙ walk-ends fuel (some remote) c cs needed h past ahead,
    walk-ends fuel none c cs needed h past (none-IsAhead (c ∷ cs)),
  )
    where
      none-IsAhead : (ds : List String) → IsAhead none ds
      none-IsAhead [] = tt
      none-IsAhead (d ∷ ds) = (refl, none-IsAhead ds)
