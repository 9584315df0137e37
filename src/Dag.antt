-- ===== src/Dag.antt =====
-- The execution DAG, task-maker-dag/src: executions, groups of executions, and the DAG that a
-- client sends to the scheduler.
pub mod Execution
pub mod Limits
pub mod Group
pub mod Data
pub mod Config
pub mod Builders
pub mod Built
mod Tests
