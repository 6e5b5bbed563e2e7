-- ===== src/Protocol/Roundtrips.antt =====
-- protocol/can_protocol.cpp: what is sent is what is received, message by message.
use avi_99l_mission_board.Base.{◌≡◌}
use avi_99l_mission_board.Protocol.Types.{CommandResult}
use avi_99l_mission_board.Protocol.Frame.{decoded}
use avi_99l_mission_board.Protocol.Messages.RecoveryControl
use avi_99l_mission_board.Protocol.Messages.RecoveryControl.{
  RecoveryControl, decode-encode_recovery_control,
}
use avi_99l_mission_board.Protocol.Messages.RecoveryModeCommand
use avi_99l_mission_board.Protocol.Messages.RecoveryModeCommand.{
  RecoveryModeCommand, decode-encode_recovery_mode_command,
}
use avi_99l_mission_board.Protocol.Messages.CommandResult
use avi_99l_mission_board.Protocol.Messages.CommandResult.{decode-encode_command_result}
use avi_99l_mission_board.Protocol.Messages.TimeRequest
use avi_99l_mission_board.Protocol.Messages.TimeRequest.{TimeRequest, decode-encode_time_request}
use avi_99l_mission_board.Protocol.Messages.TimeResponse
use avi_99l_mission_board.Protocol.Messages.TimeResponse.{TimeResponse, decode-encode_time_response}
use avi_99l_mission_board.Protocol.Messages.MissionEvent
use avi_99l_mission_board.Protocol.Messages.MissionEvent.{MissionEvent, decode-encode_mission_event}
use avi_99l_mission_board.Protocol.Messages.RecoveryStatusMessage
use avi_99l_mission_board.Protocol.Messages.RecoveryStatusMessage.{
  RecoveryStatusMessage, decode-encode_recovery_status_message,
}
use avi_99l_mission_board.Protocol.Messages.KinematicsTelemetry
use avi_99l_mission_board.Protocol.Messages.KinematicsTelemetry.{
  KinematicsTelemetry, decode-encode_kinematics_telemetry,
}
use avi_99l_mission_board.Protocol.Messages.ControlTelemetry
use avi_99l_mission_board.Protocol.Messages.ControlTelemetry.{
  ControlTelemetry, decode-encode_control_telemetry,
}
use avi_99l_mission_board.Protocol.Messages.MissionStatusTelemetry
use avi_99l_mission_board.Protocol.Messages.MissionStatusTelemetry.{
  MissionStatusTelemetry, decode-encode_mission_status_telemetry,
}
use avi_99l_mission_board.Protocol.Messages.PowerTimeTelemetry
use avi_99l_mission_board.Protocol.Messages.PowerTimeTelemetry.{
  PowerTimeTelemetry, decode-encode_power_time_telemetry,
}
use avi_99l_mission_board.Protocol.Messages.DescentCoreTelemetry
use avi_99l_mission_board.Protocol.Messages.DescentCoreTelemetry.{
  DescentCoreTelemetry, decode-encode_descent_core_telemetry,
}
use avi_99l_mission_board.Protocol.Messages.AttitudeTiltTelemetry
use avi_99l_mission_board.Protocol.Messages.AttitudeTiltTelemetry.{
  AttitudeTiltTelemetry, decode-encode_attitude_tilt_telemetry,
}
use avi_99l_mission_board.Protocol.Messages.LpsTelemetry
use avi_99l_mission_board.Protocol.Messages.LpsTelemetry.{LpsTelemetry, decode-encode_lps_telemetry}
use avi_99l_mission_board.Protocol.Messages.AirspeedTelemetry
use avi_99l_mission_board.Protocol.Messages.AirspeedTelemetry.{
  AirspeedTelemetry, decode-encode_airspeed_telemetry,
}

-- A recovery command, a recovery status, a command result, a time request or answer or a mission event
-- that is encoded and decoded again comes back as it was, whatever its enumerators, if its numbers fit
-- the widths of its fields and the milliseconds of a time answer are below 1000.
pub command_roundtrip :
    (m0 : RecoveryControl) (m1 : RecoveryModeCommand) (m2 : CommandResult) (m3 : TimeRequest)
    (m4 : TimeResponse) (m5 : MissionEvent) (m6 : RecoveryStatusMessage)
    → RecoveryControl.Fits m0
    → CommandResult.Fits m2
    → TimeResponse.Fits m4
    → MissionEvent.Fits m5
    → RecoveryStatusMessage.Fits m6
    → (RecoveryControl.decode (RecoveryControl.encode m0) ≡ decoded m0)
      × (RecoveryModeCommand.decode (RecoveryModeCommand.encode m1) ≡ decoded m1)
      × (CommandResult.decode (CommandResult.encode m2) ≡ decoded m2)
      × (TimeRequest.decode (TimeRequest.encode m3) ≡ decoded m3)
      × (TimeResponse.decode (TimeResponse.encode m4) ≡ decoded m4)
      × (MissionEvent.decode (MissionEvent.encode m5) ≡ decoded m5)
      × (RecoveryStatusMessage.decode (RecoveryStatusMessage.encode m6) ≡ decoded m6)
command_roundtrip m0 m1 m2 m3 m4 m5 m6 h0 h2 h4 h5 h6 = (
  decode-encode_recovery_control m0 h0,
  decode-encode_recovery_mode_command m1,
  decode-encode_command_result m2 h2,
  decode-encode_time_request m3,
  decode-encode_time_response m4 h4,
  decode-encode_mission_event m5 h5,
  decode-encode_recovery_status_message m6 h6,
)

-- A kinematics, control, mission status, power and time, descent core, attitude and tilt, LPS or
-- airspeed telemetry message that is encoded and decoded again comes back as it was, if its numbers
-- fit the widths of its fields: 12 bits of a torque, 5 of a descent status, 7 and 9 of a tilt and 11
-- of a pressure, and persistence flags without the three reserved bits.
pub telemetry_roundtrip :
    (m0 : KinematicsTelemetry) (m1 : ControlTelemetry) (m2 : MissionStatusTelemetry)
    (m3 : PowerTimeTelemetry) (m4 : DescentCoreTelemetry) (m5 : AttitudeTiltTelemetry)
    (m6 : LpsTelemetry) (m7 : AirspeedTelemetry)
    → KinematicsTelemetry.Fits m0
    → ControlTelemetry.Fits m1
    → MissionStatusTelemetry.Fits m2
    → PowerTimeTelemetry.Fits m3
    → DescentCoreTelemetry.Fits m4
    → AttitudeTiltTelemetry.Fits m5
    → LpsTelemetry.Fits m6
    → (KinematicsTelemetry.decode (KinematicsTelemetry.encode m0) ≡ decoded m0)
      × (ControlTelemetry.decode (ControlTelemetry.encode m1) ≡ decoded m1)
      × (MissionStatusTelemetry.decode (MissionStatusTelemetry.encode m2) ≡ decoded m2)
      × (PowerTimeTelemetry.decode (PowerTimeTelemetry.encode m3) ≡ decoded m3)
      × (DescentCoreTelemetry.decode (DescentCoreTelemetry.encode m4) ≡ decoded m4)
      × (AttitudeTiltTelemetry.decode (AttitudeTiltTelemetry.encode m5) ≡ decoded m5)
      × (LpsTelemetry.decode (LpsTelemetry.encode m6) ≡ decoded m6)
      × (AirspeedTelemetry.decode (AirspeedTelemetry.encode m7) ≡ decoded m7)
telemetry_roundtrip m0 m1 m2 m3 m4 m5 m6 m7 h0 h1 h2 h3 h4 h5 h6 = (
  decode-encode_kinematics_telemetry m0 h0,
  decode-encode_control_telemetry m1 h1,
  decode-encode_mission_status_telemetry m2 h2,
  decode-encode_power_time_telemetry m3 h3,
  decode-encode_descent_core_telemetry m4 h4,
  decode-encode_attitude_tilt_telemetry m5 h5,
  decode-encode_lps_telemetry m6 h6,
  decode-encode_airspeed_telemetry m7,
)
