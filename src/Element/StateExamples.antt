-- ===== src/Element/StateExamples.antt =====
-- What elements remember, at small examples: tests, and the theorems applied.
use bst_staging.Prelude.{Bool, true, false, none, some, [], ◌∷◌, ◌≡◌, refl, arith, All, none-some}
use bst_staging.Scheduler.Elements.{inconsistent, cached}
use bst_staging.Element.Graph.{Element}
use bst_staging.Element.Dependencies.{build, dependencies}
use bst_staging.Element.Complete.{IsInScope}
use bst_staging.Element.Keys.{KeyStrength, strong, weak}
use bst_staging.Element.States.{
  Source, get_consistency, consistency, least_consistency, Memory, ElementState, is_cached, forget,
  States, Interrogated, buildable,
}
use bst_staging.Element.Buildable.{IsRight, is_cached_lem, buildable_safe}
use bst_staging.Element.Examples.{tallied, tallied-IsRanked, tally-inj}

abbrev nothing : Memory
nothing = record { known = none; strong_known = none }

abbrev fetched : Source
fetched = record {
  consistency = none;
  reported = cached;
  has_workspace = false;
  workspace_exists = false;
}

abbrev gone_workspace : Source
gone_workspace = record {
  consistency = none;
  reported = cached;
  has_workspace = true;
  workspace_exists = false;
}

lost : (consistency true (fetched ∷ gone_workspace ∷ [])).0 ≡ inconsistent
unfolding least_consistency
lost = refl

abbrev fresh_state : ElementState
fresh_state = record {
  here = nothing;
  remote = nothing;
  keys = record { cache_key = none; weak_cache_key = none };
  sources = fetched ∷ [];
}

abbrev by_weak_key : KeyStrength → Bool
by_weak_key strong = false
by_weak_key weak = true

-- A remote state that was asked for before tracking stays as it was.
stale_remote :
    (is_cached
      (λ s. true)
      strong
      (some "new")
      none
      none
      (forget (record fresh_state {
        remote = record { known = some false; strong_known = some false };
      })).remote).0
    ≡ some false
unfolding is_cached forget
stale_remote = refl

is_cached_lem_example :
    ((is_cached by_weak_key weak (some "key") none none nothing).0 ≡ some true)
    × IsRight by_weak_key weak (is_cached by_weak_key weak (some "key") none none nothing).1
is_cached_lem_example =
    is_cached_lem by_weak_key weak "key" none none nothing (λ b h. absurd (none-some refl h))

abbrev everything : Interrogated
everything = record {
  graph = tallied;
  usual = strong;
  contains = λ e s. true;
  key = λ e. some "key";
}

abbrev start : States
start e = fresh_state

can_build : (buildable everything 4 3 start).0 ≡ true
unfolding buildable dependencies least_consistency
can_build = refl

buildable_safe_example :
    All (λ x. (get_consistency false x).0 ≡ cached) (start 3).sources
    × ((x : Element) → IsInScope tallied build 3 x → everything.contains x everything.usual ≡ true)
buildable_safe_example =
    buildable_safe everything (λ e. e) tallied-IsRanked 4 3 start tally-inj (omega arith)
      (λ e b h. absurd (none-some refl h)) can_build
