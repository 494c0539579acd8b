-- ===== src/Scheduler/Elements.antt =====
-- What the queues ask of an element (buildstream/element.py) and what they tell it. The scheduler
-- knows an element only through these operations; `World` is the state behind them, the artifact
-- cache, the sources and the project files included.
pub use bst_staging.Element.Graph.{Element}
use bst_staging.Prelude.{ℕ, Bool}

-- source.py, class Consistency
pub data Consistency : Type 0 where
  inconsistent resolved cached : Consistency

pub record ElementOps (World : Type 0) : Type 0 where
  -- element._cached() and element._cached(strength=_KeyStrength.STRONG)
  pub is_cached : World → Element → Bool
  pub is_strong_cached : World → Element → Bool
  -- element._remotely_cached(), and with the strong key
  pub is_remotely_cached : World → Element → Bool
  pub is_strong_remotely_cached : World → Element → Bool
  -- element._consistency()
  pub consistency : World → Element → Consistency
  -- element._buildable()
  pub buildable : World → Element → Bool
  -- element._skip_push()
  pub skip_push : World → Element → Bool
  -- len(list(element.sources()))
  pub source_count : World → Element → ℕ
  -- element._cached(recalculate=True)
  pub recalculate_cached : World → Element → World
  -- element._get_cache_key_from_artifact(recalculate=True)
  pub recalculate_cache_key : World → Element → World
  -- element._consistency(recalculate=True)
  pub recalculate_consistency : World → Element → World
  -- for source in element.sources(): source._bump_consistency(c)
  pub bump_consistency : World → Element → Consistency → World
  -- source._set_ref(new_ref, node) of the source with a unique id, and the rewrite of its file
  pub set_ref : World → (source ref : ℕ) → Bool × World
