-- ===== src/Protocol/Messages.antt =====
-- protocol/can_protocol.cpp: one module for each message, with its encoder and its decoder.
pub mod RecoveryModeCommand
pub mod CommandResult
pub mod TimeRequest
pub mod TimeResponse
pub mod MissionEvent
pub mod KinematicsTelemetry
pub mod ControlTelemetry
pub mod MissionStatusTelemetry
pub mod PowerTimeTelemetry
pub mod DescentCoreTelemetry
pub mod RecoveryStatusMessage
pub mod LpsTelemetry
pub mod AirspeedTelemetry
pub mod EmergencyStop
pub mod RecoveryControl
pub mod GenericCommandRequest
pub mod RecoveryLogData
pub mod AttitudeTiltTelemetry
pub mod ControlRollTelemetryV2
