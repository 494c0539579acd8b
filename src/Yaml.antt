-- ===== src/Yaml.antt =====
-- buildstream/_yaml.py: loaded YAML as a tree, typed access to it, and its composition.
pub mod Node
pub mod Composite
pub mod Get
pub mod KeyWise
pub mod TypeSafety
mod Examples
