-- ===== src/Scheduler.antt =====
-- The scheduler, task-maker-exec/src/scheduler.rs.
pub mod Heap
pub mod State
pub mod Files
pub mod Jobs
pub mod Completion
pub mod Clients
pub mod Handlers
pub mod Outcome
pub mod Frame
pub mod Conserving
pub mod Termination
pub mod Soundness
pub mod Caching
pub mod Safety
pub mod Samples
mod Tests
