-- ===== src/Scoring.antt =====
-- task-maker-format/src: the scores of solutions and the checks of their results.
pub mod Checks
pub mod Minimal
pub mod Outcomes
pub mod Numbers
pub mod Aggregate
pub mod Manager
pub mod Consistent
pub mod Scored
pub mod Kept
pub mod Started
pub mod Filled
pub mod Announced
pub mod Opening
pub mod Bounds
pub mod Tests
