-- ===== src/Protocol/Examples.antt =====
-- Messages on the bus (protocol/can_protocol.cpp) and the theorems applied to them.
use avi_99l_mission_board.Base.{◌≡◌, arith}
use avi_99l_mission_board.Protocol.Types.{MissionState, CommandPhase, CommandReason, CommandResult}
use avi_99l_mission_board.Protocol.Enums.Time.{TimeSource}
use avi_99l_mission_board.Protocol.Enums.Recovery.{
  RecoveryOpcode, RecoveryMode, RecoveryModeReason, RecoverySource, RecoveryStatusCode,
}
use avi_99l_mission_board.Protocol.Enums.Fin.{FinMode}
use avi_99l_mission_board.Protocol.Enums.Para.{ParaMode}
use avi_99l_mission_board.Protocol.Frame.{decoded}
use avi_99l_mission_board.Protocol.Messages.RecoveryControl.{
  RecoveryControl, encode-decode_recovery_control,
}
use avi_99l_mission_board.Protocol.Messages.RecoveryModeCommand.{RecoveryModeCommand}
use avi_99l_mission_board.Protocol.Messages.CommandResult.{encode-decode_command_result}
use avi_99l_mission_board.Protocol.Messages.TimeRequest.{TimeRequest}
use avi_99l_mission_board.Protocol.Messages.TimeResponse.{TimeResponse}
use avi_99l_mission_board.Protocol.Messages.MissionEvent.{MissionEvent}
use avi_99l_mission_board.Protocol.Messages.RecoveryStatusMessage.{RecoveryStatusMessage}
use avi_99l_mission_board.Protocol.Messages.KinematicsTelemetry.{KinematicsTelemetry}
use avi_99l_mission_board.Protocol.Messages.ControlTelemetry.{ControlTelemetry}
use avi_99l_mission_board.Protocol.Messages.MissionStatusTelemetry.{
  MissionStatusTelemetry, encode-decode_mission_status_telemetry,
}
use avi_99l_mission_board.Protocol.Messages.PowerTimeTelemetry.{PowerTimeTelemetry}
use avi_99l_mission_board.Protocol.Messages.DescentCoreTelemetry.{DescentCoreTelemetry}
use avi_99l_mission_board.Protocol.Messages.AttitudeTiltTelemetry.{AttitudeTiltTelemetry}
use avi_99l_mission_board.Protocol.Messages.LpsTelemetry.{LpsTelemetry}
use avi_99l_mission_board.Protocol.Messages.AirspeedTelemetry.{AirspeedTelemetry}
use avi_99l_mission_board.Protocol.Messages.RecoveryControl
use avi_99l_mission_board.Protocol.Messages.RecoveryModeCommand
use avi_99l_mission_board.Protocol.Messages.CommandResult
use avi_99l_mission_board.Protocol.Messages.TimeRequest
use avi_99l_mission_board.Protocol.Messages.TimeResponse
use avi_99l_mission_board.Protocol.Messages.MissionEvent
use avi_99l_mission_board.Protocol.Messages.RecoveryStatusMessage
use avi_99l_mission_board.Protocol.Messages.KinematicsTelemetry
use avi_99l_mission_board.Protocol.Messages.ControlTelemetry
use avi_99l_mission_board.Protocol.Messages.MissionStatusTelemetry
use avi_99l_mission_board.Protocol.Messages.PowerTimeTelemetry
use avi_99l_mission_board.Protocol.Messages.DescentCoreTelemetry
use avi_99l_mission_board.Protocol.Messages.AttitudeTiltTelemetry
use avi_99l_mission_board.Protocol.Messages.LpsTelemetry
use avi_99l_mission_board.Protocol.Messages.AirspeedTelemetry
use avi_99l_mission_board.Protocol.Roundtrips.{command_roundtrip, telemetry_roundtrip}

abbrev recovery : RecoveryControl
recovery = record {
  opcode = RecoveryOpcode.start_log_dump;
  source = RecoverySource.mission_sd_latest_flight;
  transfer_id = 9;
  offset = 0x012345;
  length = 0x000400;
}

abbrev beacon : RecoveryModeCommand
beacon = record {
  sequence = 1;
  mode = RecoveryMode.enter_recovery_beacon;
  reason = RecoveryModeReason.ground_requested;
}

abbrev stalled : CommandResult
stalled = record {
  transaction_id = 5;
  command = 0x13;
  phase = CommandPhase.failed;
  reason = CommandReason.stall;
  detail = 0x0102_0304;
}

abbrev time_question : TimeRequest
time_question = record { request_id = 3 }

abbrev time_answer : TimeResponse
time_answer = record {
  request_id = 3;
  source = TimeSource.gnss;
  unix_seconds = 1_760_000_000;
  milliseconds = 999;
}

abbrev event : MissionEvent
event = record {
  sequence = 7;
  flags = 0x8040;
  state = MissionState.unknown;
  elapsed_raw = 300;
  detail = 0;
}

abbrev dumping : RecoveryStatusMessage
dumping = record {
  opcode = RecoveryOpcode.stop_log_dump;
  transfer_id = 9;
  status = RecoveryStatusCode.aborted;
  source = RecoverySource.internal_flash;
  total_size = 4096;
}

command_roundtrip_example :
    (RecoveryControl.decode (RecoveryControl.encode recovery) ≡ decoded recovery)
    × (RecoveryModeCommand.decode (RecoveryModeCommand.encode beacon) ≡ decoded beacon)
    × (CommandResult.decode (CommandResult.encode stalled) ≡ decoded stalled)
    × (TimeRequest.decode (TimeRequest.encode time_question) ≡ decoded time_question)
    × (TimeResponse.decode (TimeResponse.encode time_answer) ≡ decoded time_answer)
    × (MissionEvent.decode (MissionEvent.encode event) ≡ decoded event)
    × (RecoveryStatusMessage.decode (RecoveryStatusMessage.encode dumping) ≡ decoded dumping)
command_roundtrip_example =
    command_roundtrip recovery beacon stalled time_question time_answer event dumping (omega arith)
      (omega arith) (omega arith) (omega arith) (omega arith)

abbrev kinematics : KinematicsTelemetry
kinematics = record {
  sequence = 1;
  roll_raw = 0x800A;
  roll_rate_raw = 65535;
  fin_angle_raw = 128;
  fin_rate_raw = 0x8000;
}

abbrev torque : ControlTelemetry
torque = record { sequence = 2; requested_torque_raw = 4095; flight_elapsed_raw = 80 }

abbrev status : MissionStatusTelemetry
status = record {
  sequence = 3;
  state = MissionState.control;
  flight_status = 0x1234;
  config_flags = 31;
  fin_mode = FinMode.roll_control;
  para_mode = ParaMode.unknown;
  parachute_angle_raw = 200;
}

abbrev power : PowerTimeTelemetry
power = record {
  sequence = 4;
  logic_voltage_raw = 50;
  motor_voltage_raw = 120;
  descent_elapsed_raw = 0;
  recovery_elapsed_raw = 65535;
  persistence_flags = 0x8F;
}

abbrev descending : DescentCoreTelemetry
descending = record { sequence = 5; descent_status = 31; parachute_angle_raw = 0 }

abbrev tilt : AttitudeTiltTelemetry
tilt = record { sequence = 6; magnitude_raw = 127; direction_raw = 511 }

abbrev pressure : LpsTelemetry
pressure = record { sequence = 7; pressure_raw = 2047; temperature_raw = 25 }

abbrev airspeed : AirspeedTelemetry
airspeed = record { sequence = 8; airspeed_raw = 60 }

telemetry_roundtrip_example :
    (KinematicsTelemetry.decode (KinematicsTelemetry.encode kinematics) ≡ decoded kinematics)
    × (ControlTelemetry.decode (ControlTelemetry.encode torque) ≡ decoded torque)
    × (MissionStatusTelemetry.decode (MissionStatusTelemetry.encode status) ≡ decoded status)
    × (PowerTimeTelemetry.decode (PowerTimeTelemetry.encode power) ≡ decoded power)
    × (DescentCoreTelemetry.decode (DescentCoreTelemetry.encode descending) ≡ decoded descending)
    × (AttitudeTiltTelemetry.decode (AttitudeTiltTelemetry.encode tilt) ≡ decoded tilt)
    × (LpsTelemetry.decode (LpsTelemetry.encode pressure) ≡ decoded pressure)
    × (AirspeedTelemetry.decode (AirspeedTelemetry.encode airspeed) ≡ decoded airspeed)
telemetry_roundtrip_example =
    telemetry_roundtrip kinematics torque status power descending tilt pressure airspeed
      (omega arith) (omega arith) (omega arith) (omega arith) (omega arith) (omega arith)
      (omega arith)
