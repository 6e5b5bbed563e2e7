-- ===== src/Characterization.antt =====
-- The motor characterization firmware (src/characterization, include/characterization), which measures
-- the fin motor in stages with more and less of the fin assembled.
pub mod Types
pub mod Requests
pub mod Campaign
pub mod SpscRing
pub mod CommandJournal
pub mod PositionGuard
pub mod ZeroApproach
pub mod EpochAssembler
