-- ===== src/Runtime.antt =====
-- runtime/: what the tasks share, and what the board keeps over a reset.
pub mod EmergencyLatch
pub mod RecoveryBoot
mod Examples
