-- ===== src/Runs.antt =====
-- backend/runs: the lifecycle of a run.
pub mod State
pub mod Repository
pub mod Evolution
pub mod Moves
pub mod System
pub mod Service
pub mod Execution
