-- ===== src/Protocol.antt =====
-- protocol/: the CAN messages, their enumerations and their frames.
pub mod Types
pub mod Frame
pub mod Enums
pub mod Messages
pub mod Roundtrips
pub mod Sequences
mod Examples
