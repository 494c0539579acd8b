-- ===== src/Artifacts.antt =====
-- The artifact cache (buildstream/_artifactcache): its operations, and the push protocol.
pub mod Cache
pub mod PulledKeys
pub mod Pulls
pub mod Message
pub mod Framing
pub mod Truncation
pub mod Bounds
pub mod Receiver
pub mod Pusher
pub mod History
pub mod Delivery
pub mod RefSteps
pub mod RefSafety
mod CacheExamples
mod Examples
mod PushExamples
