-- ===== src/Scheduler.antt =====
-- buildstream/_scheduler: jobs, queues and the scheduler that drives them.
pub mod Tokens
pub mod Elements
pub mod Kinds
pub mod Job
pub mod Queue
pub mod Session
pub mod Events
pub mod TokenBalance
pub mod TokenLimit
pub mod Ledger
pub mod Conservation
pub mod Retries
pub mod Progress
pub mod Suspension
pub mod Examples
