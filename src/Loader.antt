-- ===== src/Loader.antt =====
-- buildstream/_loader.py: from the parsed files of a project to the elements of a pipeline.
pub mod LoadElement
pub mod Overrides
pub mod Circular
pub mod Acyclic
pub mod Cycles
pub mod Variants
pub mod Parse
pub mod Files
pub mod Closed
pub mod Ending
pub mod ProjectVariant
pub mod Agreement
pub mod Agreeing
pub mod Pools
pub mod Consistent
pub mod Enough
mod VariantExamples
mod LoadExamples
mod Examples
