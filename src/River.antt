-- ===== src/River.antt =====
-- The package river: workflow runs over an event store and a queue of jobs.
pub mod Registry
pub mod Errors
pub mod Types
pub mod Config
pub mod World
pub mod Runner
