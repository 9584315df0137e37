-- ===== src/Ui.antt =====
-- task-maker-format/src/ioi/ui_state.rs: what the user interface knows of an evaluation.
pub mod Status
pub mod State
pub mod Known
pub mod Applied
pub mod Judged
pub mod Checked
pub mod Tests
