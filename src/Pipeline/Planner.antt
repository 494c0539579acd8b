-- ===== src/Pipeline/Planner.antt =====
-- class Planner of buildstream/_pipeline.py.
use bst_staging.Prelude.{
  ℕ, zero, suc, ◌+◌, Bool, false, not, ◌&&◌, List, [], ◌∷◌, none, some, leb, contains, without,
  keep, lookup, insert, map, if◌then◌else◌, nat_eq,
}
use bst_staging.Element.Graph.{Element, Graph}
use bst_staging.Element.Dependencies.{build, run, dependencies}

-- The graph, and what the planner asks of an element: element._cached(), element._remotely_cached().
pub record Elements : Type 0 where
  pub graph : Graph
  pub is_cached : Element → Bool
  pub is_remotely_cached : Element → Bool

abbrev pub DepthMap : Type 0
DepthMap = List (Element × ℕ)

pub record Planner : Type 0 where
  pub depth_map : DepthMap
  pub visiting_elements : List Element

abbrev pub new_planner : Planner
new_planner = record { depth_map = []; visiting_elements = [] }

abbrev pub needs_build : Elements → Element → Bool
needs_build w e = not (w.is_cached e) && not (w.is_remotely_cached e)

-- `element.dependencies(scope, recurse=False)`: two calls deep.
abbrev pub run_dependencies : Elements → Element → List Element
run_dependencies w e = dependencies w.graph 2 run false e

abbrev pub build_dependencies : Elements → Element → List Element
build_dependencies w e = dependencies w.graph 2 build false e

-- `for dep in deps: self.plan_element(dep, depth)`
unfoldable pub plan_each : (Element → Planner → Planner) → List Element → Planner → Planner
plan_each plan [] p = p
plan_each plan (d ∷ ds) p = plan_each plan ds (plan d p)

-- Whether an element was processed at the depth or deeper.
abbrev pub is_planned : Element → ℕ → Planner → Bool
is_planned e depth p = elim (lookup e p.depth_map) [ none ↦ false | some prev ↦ leb depth prev ]

-- The fuel bounds how deep the calls go.
unfoldable pub plan_element : Elements → (fuel : ℕ) → Element → (depth : ℕ) → Planner → Planner
unfolding plan_each
plan_element w zero e depth p = p
plan_element w (suc fuel) e depth p =
    let entered = record p { visiting_elements = e ∷ p.visiting_elements } in
    let ran = plan_each (λ d. plan_element w fuel d depth) (run_dependencies w e) entered in
    let built =
      if needs_build w e
      then plan_each (λ d. plan_element w fuel d (depth + 1)) (build_dependencies w e) ran
      else ran in
    let left = record built {
      depth_map = insert e depth built.depth_map;
      visiting_elements = without e built.visiting_elements;
    } in
    if contains p.visiting_elements e then p else if is_planned e depth p then p else left

-- `sorted(items, key=itemgetter(1), reverse=True)`: deepest first, equal depths in their order.
unfoldable pub insert_sorted : Element × ℕ → DepthMap → DepthMap
insert_sorted (e, d) [] = (e, d) ∷ []
insert_sorted (e, d) ((x, n) ∷ m) =
    let rest = insert_sorted (e, d) m in if leb n d then (e, d) ∷ (x, n) ∷ m else (x, n) ∷ rest

unfoldable pub depth_sorted : DepthMap → DepthMap
unfolding insert_sorted
depth_sorted [] = []
depth_sorted (i ∷ m) = insert_sorted i (depth_sorted m)

unfoldable pub plan : Elements → (fuel : ℕ) → Element → List Element
unfolding plan_element depth_sorted
plan w fuel root =
    let m = (plan_element w fuel root 0 new_planner).depth_map in
    keep (λ e. not (w.is_cached e)) (map (λ i. i.0) (depth_sorted m))
