-- ===== src/CheckDag.antt =====
-- The validation of a DAG before its evaluation, task-maker-exec/src/check_dag.rs.
pub mod Errors
pub mod Adding
pub mod Visiting
pub mod Remaining
pub mod Ending
pub mod Learning
pub mod Known
pub mod Order
pub mod Visits
pub mod Rounds
pub mod Collected
pub mod Accepted
mod Tests
