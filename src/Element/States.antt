-- ===== src/Element/States.antt =====
-- What an element remembers of itself: the consistency of its sources (buildstream/source.py) and
-- whether its artifact is cached, here and remotely (buildstream/element.py).
use bst_staging.Prelude.{
  ℕ, String, Bool, true, false, not, ◌&&◌, Option, none, some, List, [], ◌∷◌, map, ltb, nat_eq,
  if◌then◌else◌,
}
use bst_staging.Scheduler.Elements.{Consistency, inconsistent, resolved, cached}
use bst_staging.Element.Graph.{Element, Graph}
use bst_staging.Element.Dependencies.{build, dependencies}
use bst_staging.Element.Keys.{KeyStrength, strong, weak, Keys}

-- The numbers of the class Consistency
abbrev pub level : Consistency → ℕ
level inconsistent = 0
level resolved = 1
level cached = 2

abbrev pub min : Consistency → Consistency → Consistency
min a b = if ltb (level b) (level a) then b else a

-- A source: what it remembers, and what its plugin and the file system say at the moment.
pub record Source : Type 0 where
  pub consistency : Option Consistency
  pub reported : Consistency
  pub has_workspace : Bool
  pub workspace_exists : Bool

-- What _get_consistency finds out
unfoldable pub interrogate : Source → Consistency
interrogate s =
    if s.has_workspace && ltb 0 (level s.reported) && not s.workspace_exists
    then inconsistent
    else s.reported

unfoldable pub get_consistency : (recalculate : Bool) → Source → Consistency × Source
unfolding interrogate
get_consistency true s = (interrogate s, record s { consistency = some (interrogate s) })
get_consistency false s = elim s.consistency [
  | none ↦ (interrogate s, record s { consistency = some (interrogate s) })
  | some c ↦ (c, s)
]

unfoldable pub bump_consistency : Consistency → Source → Source
bump_consistency c s = elim s.consistency [
  | none ↦ record s { consistency = some c }
  | some old ↦ if ltb (level old) (level c) then record s { consistency = some c } else s
]

abbrev pub force_inconsistent : Source → Source
force_inconsistent s = record s { consistency = some inconsistent }

-- Element._consistency: the loop over the sources
unfoldable pub least_consistency :
    (recalculate : Bool) → Consistency → List Source → Consistency × List Source
unfolding get_consistency
least_consistency recalculate c [] = (c, [])
least_consistency recalculate c (s ∷ ss) =
    let (d, s') = get_consistency recalculate s in
    let (least, ss') = least_consistency recalculate (min c d) ss in (least, s' ∷ ss')

abbrev pub consistency : (recalculate : Bool) → List Source → Consistency × List Source
consistency recalculate ss = least_consistency recalculate cached ss

-- What is remembered of a cache: self.__cached and self.__strong_cached, or the remote ones.
pub record Memory : Type 0 where
  pub known : Option Bool
  pub strong_known : Option Bool

pub record ElementState : Type 0 where
  pub here : Memory
  pub remote : Memory
  pub keys : Keys
  pub sources : List Source

-- `self.__cached is None and self._get_cache_key() is not None`
abbrev pub is_open : Option String → Memory → Bool
is_open none m = false
is_open (some k) m = elim m.known [ none ↦ true | some b ↦ false ]

-- The part of _cached and _remotely_cached that brings the memory up to date; `recalculate` is
-- none, true or false, `contains` is the cache and `usual` the strength that the context asks for.
unfoldable pub remember :
    (contains : KeyStrength → Bool)
    → (usual : KeyStrength) → (key : Option String) → (recalculate : Option Bool) → Memory
    → Memory
remember contains usual key (some false) m = m
remember contains usual key (some true) m =
    let empty : Memory = record { known = none; strong_known = none } in
    if is_open key empty
    then record { known = some (contains usual); strong_known = some (contains strong) }
    else empty
remember contains usual key none m =
    if is_open key m
    then record { known = some (contains usual); strong_known = some (contains strong) }
    else m

abbrev pub recall : (strength : KeyStrength) → Memory → Option Bool
recall strength m = elim m.known [
  | none ↦ some false
  | some b ↦ elim strength [ strong ↦ m.strong_known | weak ↦ some b ]
]

-- _cached and _remotely_cached, whose answer is none if Python's is None.
unfoldable pub is_cached :
    (contains : KeyStrength → Bool)
    → (usual : KeyStrength) → (key : Option String) → (recalculate : Option Bool)
    → (strength : Option KeyStrength) → Memory
    → Option Bool × Memory
unfolding remember
is_cached contains usual key recalculate strength m =
    let m' = remember contains usual key recalculate m in
    (recall (elim strength [ none ↦ usual | some s ↦ s ]) m', m')

-- Element._force_inconsistent
unfoldable pub forget : ElementState → ElementState
forget s = record s {
  here = record s.here { known = none };
  keys = record { cache_key = none; weak_cache_key = none };
  sources = map force_inconsistent s.sources;
}

abbrev pub States : Type 0
States = Element → ElementState

abbrev pub set_state : Element → ElementState → States → States
set_state e x s = λ d. if nat_eq.beq e d then x else s d

-- The caches, as an element finds its artifact in them
pub record Interrogated : Type 0 where
  pub graph : Graph
  pub usual : KeyStrength
  pub contains : Element → KeyStrength → Bool
  pub key : Element → Option String

-- element._cached()
unfoldable pub ask_cached : Interrogated → Element → States → Option Bool × States
unfolding is_cached
ask_cached w e s =
    let (answer, m) = is_cached (w.contains e) w.usual (w.key e) none none (s e).here in
    (answer, set_state e (record (s e) { here = m }) s)

-- `if not dependency._cached(): return False`
abbrev pub go_on : Option Bool → States → Bool × States → Bool × States
go_on (some true) s rest = rest
go_on _ s rest = (false, s)

-- `for dependency in ...: if not dependency._cached(): return False`
unfoldable pub all_cached : Interrogated → List Element → States → Bool × States
unfolding ask_cached
all_cached w [] s = (true, s)
all_cached w (d ∷ ds) s =
    let (answer, s') = ask_cached w d s in go_on answer s' (all_cached w ds s')

-- `if self._consistency() != Consistency.CACHED: return False`
abbrev pub if_consistent : Consistency → States → Bool × States → Bool × States
if_consistent cached s rest = rest
if_consistent _ s rest = (false, s)

-- Element._buildable
unfoldable pub buildable : Interrogated → (fuel : ℕ) → Element → States → Bool × States
unfolding all_cached
buildable w fuel e s =
    let (c, ss) = consistency false (s e).sources in
    let s' = set_state e (record (s e) { sources = ss }) s in
    if_consistent c s' (all_cached w (dependencies w.graph fuel build true e) s')

-- Element._skip_push; `is_tainted` is _tainted(), `on_remote` is remote_contains_key of the key in
-- the artifact.
unfoldable pub skip_push :
    Interrogated → (is_tainted on_remote : Bool) → Element → States → Bool × States
skip_push w is_tainted on_remote e s =
    let (answer, s') = ask_cached w e s in
    elim answer [ some true ↦ (if is_tainted then true else on_remote, s') | other ↦ (true, s') ]
