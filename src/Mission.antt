-- ===== src/Mission.antt =====
-- mission/: the flight state machine, the command executor and the recovery state.
pub mod Snapshot
pub mod Machine
pub mod Commands
pub mod Executor
pub mod Recovery
