-- ===== src/Pipeline/Removal.antt =====
-- Pipeline.remove_elements (buildstream/_pipeline.py): sets are lists without an order that counts.
use bst_staging.Prelude.{
  ℕ, zero, suc, String, Bool, true, false, not, ◌&&◌, ◌||◌, Option, none, some, List, [], ◌∷◌, ◌++◌,
  contains, keep, if◌then◌else◌, nat_eq, string_eq,
}
use bst_staging.Element.Graph.{Element, Graph}
use bst_staging.Element.Dependencies.{all, dependencies}

-- How a removal ends: with the elements that are left, with a PipelineError for a name, or without
-- fuel.
pub data Removal : Type 0 where
  kept : List Element → Removal
  no_element : String → Removal
  out_of_fuel : Removal

abbrev pub difference : List Element → List Element → List Element
difference s ds = keep (λ x. not (contains ds x)) s

abbrev pub union : List Element → List Element → List Element
union s xs = s ++ keep (λ x. not (contains s x)) xs

abbrev pub subset : List Element → List Element → Bool
subset [] s = true
subset (x ∷ xs) s = contains s x && subset xs s

abbrev pub same_set : List Element → List Element → Bool
same_set s t = subset s t && subset t s

unfoldable pub search_tree : Graph → List Element → String → Option Element
search_tree g [] n = none
search_tree g (e ∷ tree) n =
    let rest = search_tree g tree n in if string_eq.beq (g.name e) n then some e else rest

-- The elements that might have to go, or the name that no element has.
pub data Candidates : Type 0 where
  candidates : List Element → Candidates
  unknown : String → Candidates

unfoldable pub candidates_of :
    Graph
    → (scope_fuel : ℕ) → (tree : List Element) → (removed : List String) → List Element
    → Candidates
unfolding search_tree
candidates_of g scope_fuel tree [] s = candidates s
candidates_of g scope_fuel tree (n ∷ removed) s = elim (search_tree g tree n) [
  | none ↦ unknown n
  | some e ↦
      candidates_of g scope_fuel tree removed (union s (dependencies g scope_fuel all true e))
]

-- `element.dependencies(Scope.ALL, recurse=False)`
abbrev pub direct : Graph → Element → List Element
direct g e = dependencies g 2 all false e

-- `for element in tree: ...`: what is still in use keeps what it depends on.
unfoldable pub rescue : Graph → (removed : List String) → List Element → List Element → List Element
rescue g removed [] s = s
rescue g removed (e ∷ tree) s =
    rescue g removed tree
      (if contains removed (g.name e) || contains s e then s else difference s (direct g e))

abbrev pub named : Graph → List String → List Element → List Element
named g removed tree = keep (λ e. contains removed (g.name e)) tree

unfoldable pub narrow : Graph → (removed : List String) → List Element → List Element → List Element
unfolding rescue
narrow g removed tree s = union (rescue g removed tree s) (named g removed tree)

-- The loop, until nothing changes; `fuel` bounds its rounds.
unfoldable pub settle :
    Graph
    → (removed : List String) → List Element
    → (fuel : ℕ) → (old s : List Element) → Option (List Element)
unfolding narrow
settle g removed tree zero old s = none
settle g removed tree (suc fuel) old s =
    let rest = settle g removed tree fuel s (narrow g removed tree s) in
    if same_set old s then some s else rest

unfoldable pub remove_elements :
    Graph → (scope_fuel fuel : ℕ) → (tree : List Element) → (removed : List String) → Removal
unfolding candidates_of settle
remove_elements g scope_fuel fuel tree removed = elim (candidates_of g scope_fuel tree removed []) [
  | unknown n ↦ no_element n
  | candidates s ↦ elim (settle g removed tree fuel [] s) [
    | none ↦ out_of_fuel
    | some to_remove ↦ kept (difference tree to_remove)
  ]
]
