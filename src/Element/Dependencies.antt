-- ===== src/Element/Dependencies.antt =====
-- Element.dependencies and Element.search (buildstream/element.py).
use bst_staging.Prelude.{
  ℕ, zero, suc, String, Bool, true, false, not, ◌&&◌, ◌||◌, List, [], ◌∷◌, ◌++◌, Option, none, some,
  contains, keep, if◌then◌else◌, string_eq, nat_eq,
}
use bst_staging.Element.Graph.{Element, Graph}

pub data Scope : Type 0 where
  all build run : Scope

-- What is yielded, and the list `visited` when the generator ends.
abbrev pub Yield : Type 0
Yield = List Element × List String

-- `for dep in deps: for elt in visit(dep): yield elt`
unfoldable pub each : (List String → Element → Yield) → List String → List Element → Yield
each visit visited [] = ([], visited)
each visit visited (d ∷ ds) =
    let (first, visited') = visit visited d in
    let (rest, visited'') = each visit visited' ds in (first ++ rest, visited'')

-- The recursion of `dependencies` over the direct dependencies in a scope.
unfoldable pub descend :
    Graph → (Scope → List String → Element → Yield) → Scope → List String → Element → Yield
unfolding each
descend g visit all visited e =
    let (built, visited') = each (visit all) visited (g.build_dependencies e) in
    let others = keep (λ d. not (contains (g.build_dependencies e) d)) (g.runtime_dependencies e) in
    let (ran, visited'') = each (visit all) visited' others in (built ++ ran, visited'')
descend g visit build visited e = each (visit run) visited (g.build_dependencies e)
descend g visit run visited e = each (visit run) visited (g.runtime_dependencies e)

abbrev pub yields_self : Scope → Bool
yields_self build = false
yields_self _ = true

-- `dependencies(scope, recurse, visited)`; `did_recurse` is False in the outermost call only. The
-- fuel bounds how deep the calls go.
unfoldable pub visit :
    Graph → (fuel : ℕ) → (recurse did_recurse : Bool) → Scope → List String → Element → Yield
unfolding descend
visit g zero recurse did_recurse scope visited e = ([], visited)
visit g (suc fuel) recurse did_recurse scope visited e =
    let visited' = visited ++ (g.name e ∷ []) in
    let (below, visited'') =
      if recurse || not did_recurse
      then descend g (visit g fuel recurse true) scope visited' e
      else ([], visited') in
    let self = if (recurse || did_recurse) && yields_self scope then e ∷ [] else [] in
    if contains visited (g.name e) then ([], visited) else (below ++ self, visited'')

unfoldable pub dependencies : Graph → (fuel : ℕ) → Scope → (recurse : Bool) → Element → List Element
unfolding visit
dependencies g fuel scope recurse e = (visit g fuel recurse false scope [] e).0

-- The first element of a list with a name
abbrev first_named : Graph → String → List Element → Option Element
first_named g n [] = none
first_named g n (e ∷ es) =
    let rest = first_named g n es in if string_eq.beq (g.name e) n then some e else rest

unfoldable pub search : Graph → (fuel : ℕ) → Scope → Element → String → Option Element
unfolding dependencies
search g fuel scope e n = first_named g n (dependencies g fuel scope true e)
