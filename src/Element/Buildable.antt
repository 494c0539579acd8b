-- ===== src/Element/Buildable.antt =====
-- What the answers of _cached, _remotely_cached and _buildable say.
use bst_staging.Prelude.{
  true-false, ℕ, ◌<◌, ◌≡◌, refl, sym, ap, ◌∙◌, subst, String, Bool, true, false, Option, none, some,
  List, [], ◌∷◌, All, nat_eq, ==_iff, ◌==◌, arith, Bool-cases, Option-cases, inl, inr, some_inj,
}
use bst_staging.Scheduler.Elements.{Consistency, inconsistent, resolved, cached}
use bst_staging.Element.Graph.{Element, IsRanked}
use bst_staging.Element.Dependencies.{build, dependencies}
use bst_staging.Element.Staging.{IsNamed}
use bst_staging.Element.Complete.{IsInScope, All-contains, dependencies_complete}
use bst_staging.Element.Keys.{KeyStrength, strong, weak}
use bst_staging.Element.States.{
  min, Source, get_consistency, least_consistency, consistency, Memory, ElementState, remember,
  recall, is_cached, States, set_state, Interrogated, go_on, if_consistent, ask_cached, all_cached,
  buildable,
}

-- What is remembered is what the cache says.
abbrev pub IsRight : (KeyStrength → Bool) → KeyStrength → Memory → Type 0
IsRight contains usual m =
    (b : Bool) → m.known ≡ some b → (b ≡ contains usual) × (m.strong_known ≡ some (contains strong))

-- The answer does not hang on an old memory that is wrong.
abbrev pub IsFresh : (KeyStrength → Bool) → KeyStrength → Option Bool → Memory → Type 0
IsFresh contains usual (some true) m = Unit
IsFresh contains usual (some false) m = IsRight contains usual m × ((b : Bool) × (m.known ≡ some b))
IsFresh contains usual none m = IsRight contains usual m

-- The strength that is answered for
abbrev pub asked : KeyStrength → Option KeyStrength → KeyStrength
asked usual (some strong) = strong
asked usual _ = usual

module _ (contains : KeyStrength → Bool) (usual : KeyStrength) where
  abbrev looked_up : Memory
  looked_up = record { known = some (contains usual); strong_known = some (contains strong) }

  looked_up-IsRight : IsRight contains usual looked_up
  looked_up-IsRight b h = (sym (some_inj h), refl)

  remember-known :
      (k : String) (m : Memory) (b : Bool)
      → m.known ≡ some b
      → remember contains usual (some k) none m ≡ m
  unfolding remember
  remember-known k m b e = ground (arith, e)

  remember-unknown :
      (k : String) (m : Memory)
      → m.known ≡ none
      → remember contains usual (some k) none m ≡ looked_up
  unfolding remember
  remember-unknown k m e = ground (arith, e)

  remember-IsRight :
      (key : Option String) (m : Memory)
      → IsRight contains usual m
      → IsRight contains usual (remember contains usual key none m)
  remember-IsRight none m right = unfold remember in right
  remember-IsRight (some k) m right = elim (Option-cases m.known) [
    | inl e ↦ rw (remember-unknown k m e) looked_up-IsRight
    | inr (b, e) ↦ rw (remember-known k m b e) right
  ]

  recall-right :
      (strength : Option KeyStrength) (m : Memory) (b : Bool)
      → m.known ≡ some b
      → IsRight contains usual m
      → recall (elim strength [ none ↦ usual | some s ↦ s ]) m
        ≡ some (contains (asked usual strength))
  recall-right (some strong) m b e right = rw e (right b e).1
  recall-right (some weak) m b e right = rw e (ap some (right b e).0)
  recall-right none m b e right =
      elim usual
          as (λ u.
            (b ≡ contains u) × (m.strong_known ≡ some (contains strong))
            → recall u m ≡ some (contains u)) [
              | strong ↦ λ h. rw e h.1
              | weak ↦ λ h. rw e (ap some h.0)
            ]
        (right b e)

  known-remembered :
      (k : String) (recalculate : Option Bool) (m : Memory)
      → IsFresh contains usual recalculate m
      → ((b : Bool) × ((remember contains usual (some k) recalculate m).known ≡ some b))
        × IsRight contains usual (remember contains usual (some k) recalculate m)
  known-remembered k (some true) m fresh =
      unfold remember in ((contains usual, refl), looked_up-IsRight)
  known-remembered k (some false) m (right, known) = unfold remember in (known, right)
  known-remembered k none m right = elim (Option-cases m.known) [
    | inl e ↦ rw (remember-unknown k m e) ((contains usual, refl), looked_up-IsRight)
    | inr (b, e) ↦ rw (remember-known k m b e) ((b, e), right)
  ]

-- _cached and _remotely_cached of an element that has a cache key: asked to recalculate, or asked
-- with a memory that is right, which without any recalculation (recalculate=False) has to know the
-- state too, they answer whether the cache has the artifact, by its strong key if that is asked for
-- and else by the key that the context asks for, and remember what is right.
pub is_cached_lem :
    (contains : KeyStrength → Bool) (usual : KeyStrength) (k : String) (recalculate : Option Bool)
    (strength : Option KeyStrength) (m : Memory)
    → IsFresh contains usual recalculate m
    → ((is_cached contains usual (some k) recalculate strength m).0
        ≡ some (contains (asked usual strength)))
      × IsRight contains usual (is_cached contains usual (some k) recalculate strength m).1
unfolding is_cached
is_cached_lem contains usual k recalculate strength m fresh =
    let ((b, e), right) = known-remembered contains usual k recalculate m fresh in
    (
      recall-right contains usual strength (remember contains usual (some k) recalculate m) b e
          right,
      right,
    )

-- All elements remember of the local cache what is right.
abbrev pub AllAreRight : Interrogated → States → Type 0
AllAreRight w s = (e : Element) → IsRight (w.contains e) w.usual (s e).here

set_state-AllAreRight :
    (w : Interrogated) (e : Element) (x : ElementState) (s : States)
    → AllAreRight w s
    → IsRight (w.contains e) w.usual x.here
    → AllAreRight w (set_state e x s)
set_state-AllAreRight w e x s right own d = elim (Bool-cases (e == d)) [
  | inl same ↦
      rw same (subst (λ n. IsRight (w.contains n) w.usual x.here) ((==_iff e d).0 same) own)
  | inr other ↦ rw other (right d)
]

ask_cached-AllAreRight :
    (w : Interrogated) (e : Element) (s : States)
    → AllAreRight w s
    → AllAreRight w (ask_cached w e s).1
unfolding ask_cached is_cached
ask_cached-AllAreRight w e s right =
    set_state-AllAreRight w e
      (record (s e) { here = remember (w.contains e) w.usual (w.key e) none (s e).here }) s right
      (remember-IsRight (w.contains e) w.usual (w.key e) (s e).here (right e))

ask_cached-true :
    (w : Interrogated) (e : Element) (s : States)
    → AllAreRight w s
    → (ask_cached w e s).0 ≡ some true
    → w.contains e w.usual ≡ true
unfolding ask_cached is_cached
ask_cached-true w e s right h =
    let m = remember (w.contains e) w.usual (w.key e) none (s e).here in
    let known = remember-IsRight (w.contains e) w.usual (w.key e) (s e).here (right e) in
    elim (Option-cases m.known) [
      | inl x ↦
          let no : some false ≡ some true = ground (arith, x, h) in
          absurd (true-false (some_inj no) refl)
      | inr (b, x) ↦ some_inj (sym (recall-right (w.contains e) w.usual none m b x known) ∙ h)
    ]

all_cached-true :
    (w : Interrogated) (ds : List Element) (s : States)
    → AllAreRight w s
    → (all_cached w ds s).0 ≡ true
    → All (λ d. w.contains d w.usual ≡ true) ds
unfolding all_cached
all_cached-true w [] s right h = tt
all_cached-true w (d ∷ ds) s right h =
    go (ask_cached w d s).0 refl h
      (λ k. all_cached-true w ds (ask_cached w d s).1 (ask_cached-AllAreRight w d s right) k)
  where
    go :
        (answer : Option Bool)
        → (ask_cached w d s).0 ≡ answer
        → (go_on answer (ask_cached w d s).1 (all_cached w ds (ask_cached w d s).1)).0 ≡ true
        → ((all_cached w ds (ask_cached w d s).1).0 ≡ true
            → All (λ x. w.contains x w.usual ≡ true) ds)
        → All (λ x. w.contains x w.usual ≡ true) (d ∷ ds)
    go (some true) e k rest = (ask_cached-true w d s right e, rest k)
    go (some false) e k rest = cc
    go none e k rest = cc

-- A consistency that is the least of several and cached
min-cached : (a b : Consistency) → min a b ≡ cached → (a ≡ cached) × (b ≡ cached)
min-cached cached cached h = (refl, refl)
min-cached cached resolved h = cc
min-cached cached inconsistent h = cc
min-cached resolved cached h = cc
min-cached resolved resolved h = cc
min-cached resolved inconsistent h = cc
min-cached inconsistent cached h = cc
min-cached inconsistent resolved h = cc
min-cached inconsistent inconsistent h = cc

least-cached :
    (recalculate : Bool) (c : Consistency) (ss : List Source)
    → (least_consistency recalculate c ss).0 ≡ cached
    → (c ≡ cached) × All (λ s. (get_consistency recalculate s).0 ≡ cached) ss
unfolding least_consistency
least-cached recalculate c [] h = (h, tt)
least-cached recalculate c (s ∷ ss) h =
    let (first, rest) = least-cached recalculate (min c (get_consistency recalculate s).0) ss h in
    let (own, this) = min-cached c (get_consistency recalculate s).0 first in (own, (this, rest))

-- An element that is found buildable can be built: all its sources are cached, as far as they know,
-- and everything in its build scope is in the artifact cache. For an acyclic graph of elements with
-- names of their own, more fuel than the element's rank, and memories that are right.
pub buildable_safe :
    (w : Interrogated) (rank : Element → ℕ) (ranked : IsRanked w.graph rank) (fuel : ℕ)
    (e : Element) (s : States)
    → IsNamed w.graph
    → rank e < fuel
    → AllAreRight w s
    → (buildable w fuel e s).0 ≡ true
    → All (λ x. (get_consistency false x).0 ≡ cached) (s e).sources
      × ((x : Element) → IsInScope w.graph build e x → w.contains x w.usual ≡ true)
unfolding buildable
buildable_safe w rank ranked fuel e s named low right h =
    let found = consistency false (s e).sources in
    let s' = set_state e (record (s e) { sources = found.1 }) s in
    let right' : AllAreRight w s' =
      set_state-AllAreRight w e (record (s e) { sources = found.1 }) s right (right e) in
    let es = dependencies w.graph fuel build true e in
    let (consistent, deps) = both found.0 s' (all_cached w es s') h in
    (
      (least-cached false cached (s e).sources consistent).1,
      λ x needed.
          All-contains (λ d. w.contains d w.usual ≡ true) es x (all_cached-true w es s' right' deps)
            (dependencies_complete w.graph rank ranked fuel build e x named low needed).0,
    )
  where
    both :
        (c : Consistency) (t : States) (rest : Bool × States)
        → (if_consistent c t rest).0 ≡ true
        → (c ≡ cached) × (rest.0 ≡ true)
    both cached t rest k = (refl, k)
    both resolved t rest k = cc
    both inconsistent t rest k = cc
