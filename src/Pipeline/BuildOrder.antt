-- ===== src/Pipeline/BuildOrder.antt =====
-- Planner.plan: everything that an element needs to be built stands before it in the plan.
use mathlib.Core.Path.{subst}
use bst_staging.Prelude.{
  ◌⊎◌, Bool-cases, inl, inr, ◌||◌, ℕ, ◌+◌, ◌≤◌, ◌<◌, ◌≡◌, refl, sym, ◌∙◌, Bool, true, false, not,
  List, [], ◌∷◌, ◌++◌, some, arith, All, ◌==◌, ==_iff, contains, lookup, nat_eq, map, keep,
}
use bst_staging.Element.Graph.{Element, IsRanked}
use bst_staging.Pipeline.Planner.{
  Elements, DepthMap, new_planner, needs_build, run_dependencies, build_dependencies, plan_element,
  depth_sorted, plan,
}
use bst_staging.Pipeline.Depths.{IsDeep, IsClosed}
use bst_staging.Pipeline.Planning.{plan_element-IsClosed}
use bst_staging.Pipeline.Sorting.{
  IsFoundIn, IsDescending, plan_element-IsDistinct, IsDistinct-IsFoundIn, depth_sorted-All,
  depth_sorted-IsDescending, keys-depth_sorted, keys-lookup,
}

-- What has to be there to build `e`: its build dependencies, and what those need to run.
pub data IsNeededToBuild (w : Elements) (e : Element) : Element → Type 0 where
  build_dependency :
      (b : Element) → contains (build_dependencies w e) b ≡ true → IsNeededToBuild w e b
  run_dependency :
      (b r : Element)
      → IsNeededToBuild w e b
      → contains (run_dependencies w b) r ≡ true
      → IsNeededToBuild w e r

-- Element `x` is planned, no deeper than `d`.
abbrev IsShallow : DepthMap → ℕ → Element → Type 0
IsShallow m d x = (n : ℕ) × (lookup x m ≡ some n) × (n ≤ d)

All-contains :
    (P : Element → Type 0) (l : List Element) (x : Element) → All P l → contains l x ≡ true → P x
All-contains P [] x h c = cc
All-contains P (y ∷ l) x h c = elim (Bool-cases (y == x)) [
  | inl same ↦ let e : y ≡ x = (==_iff y x).0 same in rw e at h.0
  | inr other ↦ All-contains P l x h.1 (ground arith)
]

needed-IsDeep :
    (w : Elements) (m : DepthMap) (e x : Element) (d : ℕ)
    → IsClosed w m
    → needs_build w e ≡ true
    → lookup e m ≡ some d
    → IsNeededToBuild w e x
    → IsDeep m x (d + 1)
needed-IsDeep w m e x d c needed found (build_dependency b inside) =
    All-contains _ (build_dependencies w e) b ((c e d found).built needed) inside
needed-IsDeep w m e x d c needed found (run_dependency b r to_build inside) =
    let (n, at, le) = needed-IsDeep w m e b d c needed found to_build in
    let (n', at', le') = All-contains _ (run_dependencies w b) r (c b n at).ran inside in
    (n', at', omega arith)

abbrev keys : DepthMap → List Element
keys m = map (λ i. i.0) m

IsShallow-keep :
    (m : DepthMap) (p : Element → Bool) (d : ℕ) (l : DepthMap)
    → IsFoundIn m l
    → All (λ i. i.1 ≤ d) l
    → All (IsShallow m d) (keep p (keys l))
IsShallow-keep m p d [] f h = tt
IsShallow-keep m p d ((x, n) ∷ l) f h = elim (Bool-cases (p x)) [
  | inl kept ↦ rw kept ((n, f.0, h.0), IsShallow-keep m p d l f.1 h.1)
  | inr dropped ↦ rw dropped (IsShallow-keep m p d l f.1 h.1)
]

split-first :
    (m : DepthMap) (p : Element → Bool) (x : Element) (n : ℕ) (l : DepthMap) (e : Element)
    (ys : List Element)
    → IsFoundIn m ((x, n) ∷ l)
    → IsDescending ((x, n) ∷ l)
    → ((xs : List Element)
        → keep p (keys l) ≡ xs ++ (e ∷ ys)
        → (d : ℕ) × (lookup e m ≡ some d) × All (IsShallow m d) ys)
    → (xs : List Element) → x ∷ keep p (keys l) ≡ xs ++ (e ∷ ys)
    → (d : ℕ) × (lookup e m ≡ some d) × All (IsShallow m d) ys
split-first m p x n l e ys f h later [] q =
    let same : x ≡ e = cc in
    let rest : keep p (keys l) ≡ ys = cc in
    (
      n,
      subst (λ y. lookup y m ≡ some n) same f.0,
      subst (All (IsShallow m n)) rest (IsShallow-keep m p n l f.1 h.0),
    )
split-first m p x n l e ys f h later (z ∷ xs) q = later xs (cc)

-- In what is kept of a descending map nothing behind an element is deeper than the element.
split-IsShallow :
    (m : DepthMap) (p : Element → Bool) (l : DepthMap) (xs : List Element) (e : Element)
    (ys : List Element)
    → IsFoundIn m l
    → IsDescending l
    → keep p (keys l) ≡ xs ++ (e ∷ ys)
    → (d : ℕ) × (lookup e m ≡ some d) × All (IsShallow m d) ys
split-IsShallow m p [] [] e ys f h q = cc
split-IsShallow m p [] (x ∷ xs) e ys f h q = cc
split-IsShallow m p ((x, n) ∷ l) xs e ys f h q =
    let later : (zs : List Element)
        → keep p (keys l) ≡ zs ++ (e ∷ ys)
        → (d : ℕ) × (lookup e m ≡ some d) × All (IsShallow m d) ys =
      λ zs q'. split-IsShallow m p l zs e ys f.1 h.1 q' in
    elim (Bool-cases (p x)) [
      | inl kept ↦ split-first m p x n l e ys f h later xs (rw kept at q)
      | inr dropped ↦ later xs (rw dropped at q)
    ]

contains-keep :
    (p : Element → Bool) (l : List Element) (x : Element)
    → contains l x ≡ true
    → p x ≡ true
    → contains (keep p l) x ≡ true
contains-keep p [] x c h = cc
contains-keep p (y ∷ l) x c h = ground (arith, contains-keep p l x, ==_iff y x)

contains-append :
    (xs ys : List Element) (x : Element) → contains (xs ++ ys) x ≡ (contains xs x || contains ys x)
contains-append [] ys x = refl
contains-append (y ∷ xs) ys x = ground (arith, contains-append xs ys x)

contains-front :
    (xs ys : List Element) (e x : Element)
    → contains (xs ++ (e ∷ ys)) x ≡ true
    → contains (e ∷ ys) x ≡ false
    → contains xs x ≡ true
contains-front xs ys e x inside behind = ground (arith, contains-append xs (e ∷ ys) x)

-- What is planned deeper than `e` is neither `e` nor behind it.
deeper-not-contains :
    (m : DepthMap) (e x : Element) (d n : ℕ) (ys : List Element)
    → lookup e m ≡ some d
    → lookup x m ≡ some n
    → d < n
    → All (IsShallow m d) ys
    → contains (e ∷ ys) x ≡ false
deeper-not-contains m e x d n ys found at deeper rest = elim (Bool-cases (contains (e ∷ ys) x)) [
  | inr outside ↦ outside
  | inl inside ↦
      let (n', at', le) =
        All-contains (IsShallow m d) (e ∷ ys) x ((d, found, omega arith), rest) inside in
      let same : some n ≡ some n' = sym at ∙ at' in absurd (ground arith)
]

plan_before :
    (w : Elements) (rank : Element → ℕ) (ranked : IsRanked w.graph rank) (fuel : ℕ) (root : Element)
    → rank root < fuel
    → (w.is_cached root ≡ false → contains (plan w fuel root) root ≡ true)
      × ((xs ys : List Element) (e x : Element)
          → plan w fuel root ≡ xs ++ (e ∷ ys)
          → needs_build w e ≡ true
          → IsNeededToBuild w e x
          → w.is_cached x ≡ false
          → contains xs x ≡ true)
unfolding plan
plan_before w rank ranked fuel root low = (
  λ uncached. listed root 0 deep uncached,
  λ xs ys e x q needed to_build uncached.
      let (d, found, rest) =
        split-IsShallow m kept (depth_sorted m) xs e ys sorted_found sorted q in
      let (n, at, le) = needed-IsDeep w m e x d closed needed found to_build in
      contains-front xs ys e x (rw q at (listed x n (n, at, omega arith) uncached))
        (deeper-not-contains m e x d n ys found at (omega arith) rest),
)
  where
    kept : Element → Bool
    kept x = not (w.is_cached x)

    m : DepthMap
    m = (plan_element w fuel root 0 new_planner).depth_map

    closed : IsClosed w m
    closed = (plan_element-IsClosed w rank ranked fuel root low).0

    deep : IsDeep m root 0
    deep = (plan_element-IsClosed w rank ranked fuel root low).1

    sorted_found : IsFoundIn m (depth_sorted m)
    sorted_found =
        depth_sorted-All _ m
          (IsDistinct-IsFoundIn m (plan_element-IsDistinct w fuel root 0 new_planner tt))

    sorted : IsDescending (depth_sorted m)
    sorted = depth_sorted-IsDescending m

    listed :
        (x : Element) (d : ℕ)
        → IsDeep m x d
        → w.is_cached x ≡ false
        → contains (keep kept (keys (depth_sorted m))) x ≡ true
    listed x d (n, at, le) uncached =
        contains-keep kept (keys (depth_sorted m)) x
          (rw (keys-depth_sorted m x) (keys-lookup m x at)) (rw uncached)

-- On an acyclic graph, with more fuel than the root's rank, the root is in the plan or cached.
pub plan_root :
    (w : Elements) (rank : Element → ℕ) (ranked : IsRanked w.graph rank) (fuel : ℕ) (root : Element)
    → rank root < fuel
    → (w.is_cached root ≡ true) ⊎ (contains (plan w fuel root) root ≡ true)
plan_root w rank ranked fuel root low =
    let (holds, before) = plan_before w rank ranked fuel root low in
    elim (Bool-cases (w.is_cached root)) [ inl h ↦ inl h | inr h ↦ inr (holds h) ]

-- On an acyclic graph, with more fuel than the root's rank: everything uncached that an element of
-- the plan needs to be built, directly or not, stands before that element in the plan, if the
-- element has to be built at all.
pub plan_order :
    (w : Elements) (rank : Element → ℕ) (ranked : IsRanked w.graph rank) (fuel : ℕ) (root : Element)
    (xs ys : List Element) (e x : Element)
    → rank root < fuel
    → plan w fuel root ≡ xs ++ (e ∷ ys)
    → needs_build w e ≡ true
    → IsNeededToBuild w e x
    → w.is_cached x ≡ false
    → contains xs x ≡ true
plan_order w rank ranked fuel root xs ys e x low q needs needed uncached =
    (plan_before w rank ranked fuel root low).1 xs ys e x q needs needed uncached
