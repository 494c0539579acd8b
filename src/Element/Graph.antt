-- ===== src/Element/Graph.antt =====
-- The elements of a pipeline as a graph (buildstream/element.py, the private dependency lists).
use bst_staging.Prelude.{ℕ, ◌<◌, String, List, All}

-- An element is known by its unique id: element objects are compared by identity.
abbrev pub Element : Type 0
Element = ℕ

pub record Graph : Type 0 where
  pub name : Element → String
  pub build_dependencies : Element → List Element
  pub runtime_dependencies : Element → List Element

-- `rank` puts each element above its dependencies, so the graph has no cycle.
pub record IsRanked (g : Graph) (rank : Element → ℕ) : Type 0 where
  pub build : (e : Element) → All (λ d. rank d < rank e) (g.build_dependencies e)
  pub runtime : (e : Element) → All (λ d. rank d < rank e) (g.runtime_dependencies e)
