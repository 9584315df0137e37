-- ===== src/Scheduler/Soundness.antt =====
-- The lookups of task-maker-exec/src/scheduler.rs, and the invariant that they rest on.
pub mod Invariant
mod Update
mod Failing
mod Ready
mod Running
pub mod Completing
mod Scheduling
mod Evaluating
mod Handling
mod Joining
pub mod Messages
