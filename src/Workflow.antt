-- ===== src/Workflow.antt =====
-- The package workflow: histories, definitions and the replay engine.
pub mod Errors
pub mod History
pub mod Thread
pub mod Step
pub mod Replayer
pub mod Records
pub mod Signal
pub mod Branch
pub mod Execute
pub mod Replay
pub mod Saga
pub mod Define
pub mod Child
pub mod Context
pub mod Map
