-- ===== src/Store.antt =====
-- task-maker-store/src: the files that the executions read and write.
pub mod Index
pub mod Handles
pub mod Disk
pub mod Weights
pub mod Loop
pub mod Held
pub mod Flushing
pub mod Newest
pub mod Counting
pub mod Storing
pub mod Guarantee
pub mod Summed
pub mod Sizes
pub mod Lost
pub mod Tests
