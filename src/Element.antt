-- ===== src/Element.antt =====
-- buildstream/element.py: the graph of the elements, its traversal, cache keys and what is remembered.
pub mod Graph
pub mod Dependencies
pub mod Once
pub mod Ranks
pub mod Staging
pub mod Walks
pub mod Complete
pub mod Keys
pub mod States
pub mod Buildable
pub mod KeyEquations
pub mod KeyAnswers
mod StateExamples
pub mod Examples
