-- ===== src/Cache.antt =====
-- The cache of the executions, task-maker-cache/src.
pub mod Key
pub mod Entry
pub mod Compatible
pub mod Query
pub mod Limits
pub mod Answers
pub mod Stored
pub mod RoundTrip
pub mod Distinct
pub mod Returns
pub mod Gained
mod Tests
