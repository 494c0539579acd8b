-- ===== src/Pipeline/Sorting.antt =====
-- The sort of the depth map: the same entries, the deepest first, each key once.
use bst_staging.Prelude.{
  ℕ, zero, suc, ◌+◌, ◌≤◌, ◌≡◌, refl, true, List, [], ◌∷◌, none, some, arith, All, All-map,
  Bool-cases, inl, inr, ◌==◌, ==_iff, leb, contains, lookup, insert, lookup-insert, nat_eq, map,
}
use bst_staging.Element.Graph.{Element}
use bst_staging.Pipeline.Planner.{
  Elements, DepthMap, Planner, plan_each, plan_element, insert_sorted, depth_sorted, is_planned,
  needs_build, run_dependencies, build_dependencies,
}

-- No key occurs twice.
abbrev pub IsDistinct : DepthMap → Type 0
IsDistinct [] = Unit
IsDistinct ((e, d) ∷ m) = (lookup e m ≡ none) × IsDistinct m

-- Every entry of the second list is what the first map holds at its key.
abbrev pub IsFoundIn : DepthMap → DepthMap → Type 0
IsFoundIn m = All (λ i. lookup i.0 m ≡ some i.1)

abbrev pub IsDescending : DepthMap → Type 0
IsDescending [] = Unit
IsDescending ((e, d) ∷ m) = All (λ i. i.1 ≤ d) m × IsDescending m

insert-IsDistinct : (e : Element) (d : ℕ) (m : DepthMap) → IsDistinct m → IsDistinct (insert e d m)
insert-IsDistinct e d [] h = (refl, tt)
insert-IsDistinct e d ((x, n) ∷ m) h = elim (Bool-cases (x == e)) [
  | inl same ↦ rw same (ground (arith, h.0, ==_iff x e), h.1)
  | inr other ↦ rw other (rw (lookup-insert e x d m) (ground arith), insert-IsDistinct e d m h.1)
]

plan_each-IsDistinct :
    (plan : Element → Planner → Planner) (ds : List Element) (p : Planner)
    → ((d : Element) (q : Planner) → IsDistinct q.depth_map → IsDistinct (plan d q).depth_map)
    → IsDistinct p.depth_map
    → IsDistinct (plan_each plan ds p).depth_map
unfolding plan_each
plan_each-IsDistinct plan [] p step h = h
plan_each-IsDistinct plan (d ∷ ds) p step h =
    plan_each-IsDistinct plan ds (plan d p) step (step d p h)

pub plan_element-IsDistinct :
    (w : Elements) (fuel : ℕ) (e : Element) (depth : ℕ) (p : Planner)
    → IsDistinct p.depth_map
    → IsDistinct (plan_element w fuel e depth p).depth_map
unfolding plan_element
plan_element-IsDistinct w zero e depth p h = h
plan_element-IsDistinct w (suc fuel) e depth p h =
    let entered = record p { visiting_elements = e ∷ p.visiting_elements } in
    let ran = plan_each (λ d. plan_element w fuel d depth) (run_dependencies w e) entered in
    let h_ran : IsDistinct ran.depth_map =
      plan_each-IsDistinct _ (run_dependencies w e) entered
        (λ d q hq. plan_element-IsDistinct w fuel d depth q hq) h in
    let built = plan_each (λ d. plan_element w fuel d (depth + 1)) (build_dependencies w e) ran in
    let h_built : IsDistinct built.depth_map =
      plan_each-IsDistinct _ (build_dependencies w e) ran
        (λ d q hq. plan_element-IsDistinct w fuel d (depth + 1) q hq) h_ran in
    elim (Bool-cases (contains p.visiting_elements e)) [
      | inl visiting ↦ rw visiting h
      | inr new ↦ rw new (elim (Bool-cases (is_planned e depth p)) [
        | inl planned ↦ rw planned h
        | inr unplanned ↦ rw unplanned (elim (Bool-cases (needs_build w e)) [
          | inl needed ↦ rw needed (insert-IsDistinct e depth built.depth_map h_built)
          | inr idle ↦ rw idle (insert-IsDistinct e depth ran.depth_map h_ran)
        ])
      ])
    ]

-- An entry of the tail is found in the whole map.
found-cons :
    (e : Element) (d : ℕ) (m l : DepthMap)
    → lookup e m ≡ none
    → IsFoundIn m l
    → IsFoundIn ((e, d) ∷ m) l
found-cons e d m [] h f = tt
found-cons e d m ((x, n) ∷ l) h f = (ground (arith, h, f.0, ==_iff e x), found-cons e d m l h f.1)

pub IsDistinct-IsFoundIn : (m : DepthMap) → IsDistinct m → IsFoundIn m m
IsDistinct-IsFoundIn [] h = tt
IsDistinct-IsFoundIn ((e, d) ∷ m) h =
    (ground (arith, ==_iff e e), found-cons e d m m h.0 (IsDistinct-IsFoundIn m h.1))

insert_sorted-All :
    (P : Element × ℕ → Type 0) (i : Element × ℕ) (m : DepthMap)
    → P i
    → All P m
    → All P (insert_sorted i m)
unfolding insert_sorted
insert_sorted-All P (e, d) [] h hs = (h, tt)
insert_sorted-All P (e, d) ((x, n) ∷ m) h hs = elim (Bool-cases (leb n d)) [
  | inl first ↦ rw first (h, hs)
  | inr later ↦ rw later (hs.0, insert_sorted-All P (e, d) m h hs.1)
]

pub depth_sorted-All : (P : Element × ℕ → Type 0) (m : DepthMap) → All P m → All P (depth_sorted m)
unfolding depth_sorted
depth_sorted-All P [] h = tt
depth_sorted-All P (i ∷ m) h = insert_sorted-All P i (depth_sorted m) h.0 (depth_sorted-All P m h.1)

insert_sorted-IsDescending :
    (i : Element × ℕ) (m : DepthMap) → IsDescending m → IsDescending (insert_sorted i m)
unfolding insert_sorted
insert_sorted-IsDescending (e, d) [] h = (tt, tt)
insert_sorted-IsDescending (e, d) ((x, n) ∷ m) h = elim (Bool-cases (leb n d)) [
  | inl first ↦
      let le : n ≤ d = ground arith in rw first ((le, All-map _ _ m (λ i b. omega arith) h.0), h)
  | inr later ↦
      rw later
        (insert_sorted-All _ (e, d) m (ground arith) h.0, insert_sorted-IsDescending (e, d) m h.1)
]

pub depth_sorted-IsDescending : (m : DepthMap) → IsDescending (depth_sorted m)
unfolding depth_sorted
depth_sorted-IsDescending [] = tt
depth_sorted-IsDescending (i ∷ m) =
    insert_sorted-IsDescending i (depth_sorted m) (depth_sorted-IsDescending m)

keys-insert_sorted :
    (i : Element × ℕ) (m : DepthMap) (x : Element)
    → contains (map (λ j. j.0) (insert_sorted i m)) x ≡ contains (map (λ j. j.0) (i ∷ m)) x
unfolding insert_sorted
keys-insert_sorted (e, d) [] x = refl
keys-insert_sorted (e, d) ((y, n) ∷ m) x = ground (arith, keys-insert_sorted (e, d) m x)

pub keys-depth_sorted :
    (m : DepthMap) (x : Element)
    → contains (map (λ j. j.0) (depth_sorted m)) x ≡ contains (map (λ j. j.0) m) x
unfolding depth_sorted
keys-depth_sorted [] x = refl
keys-depth_sorted ((e, d) ∷ m) x =
    ground (arith, keys-insert_sorted (e, d) (depth_sorted m) x, keys-depth_sorted m x)

pub keys-lookup :
    (m : DepthMap) (x : Element) {d : ℕ}
    → lookup x m ≡ some d
    → contains (map (λ j. j.0) m) x ≡ true
keys-lookup [] x h = cc
keys-lookup ((e, n) ∷ m) x {d = d} h = ground (arith, keys-lookup m x {d = d})
