-- ===== src/Actuators.antt =====
-- actuators/: the power arbiter and the parachute servo.
pub mod Angle
pub mod Power
pub mod Parachute
mod Examples
