-- ===== src/Scheduler/Termination.antt =====
-- The recursion between `schedule_cached`, `exec_completed`, `file_success` and `file_failed`,
-- task-maker-exec/src/scheduler.rs.
mod Count
mod Loops
mod Cached
pub mod Messages
