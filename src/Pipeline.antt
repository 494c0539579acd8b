-- ===== src/Pipeline.antt =====
-- buildstream/_pipeline.py: which elements a session works on, in which order, and how it starts.
pub mod Planner
pub mod Depths
pub mod Planning
pub mod Sorting
pub mod BuildOrder
pub mod Removal
pub mod Severing
pub mod Severed
pub mod Remaining
pub mod Commands
pub mod Sessions
mod CommandExamples
mod Examples
