-- ===== src/Sensors.antt =====
-- sensors/: when a reading may be used.
pub mod Freshness
pub mod AirspeedGate
mod Examples
