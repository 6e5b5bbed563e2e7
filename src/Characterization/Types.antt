-- ===== src/Characterization/Types.antt =====
-- characterization/characterization_types.hpp: the enumerations that the components share.
use avi_99l_mission_board.Base.{ℕ, Bool, true, false, ◌==◌, if◌then◌else◌}
use avi_99l_mission_board.Base.Int.{ℤ, pos, ltb_ℤ, is_zero}

pub data AssemblyStage : Type 0 where
  no_stage fv fh_positive fh_negative m0 : AssemblyStage

-- An `EncoderRate` is a 32-bit number of hertz, which may be none of the three that have a name.
abbrev pub EncoderRate : Type 0
EncoderRate = ℕ

abbrev pub hz_1000 : EncoderRate
hz_1000 = 1000

abbrev pub hz_2000 : EncoderRate
hz_2000 = 2000

abbrev pub hz_5000 : EncoderRate
hz_5000 = 5000

pub data MotorMode : Type 0 where
  coast drive_in1 drive_in2 brake : MotorMode

pub data RunKind : Type 0 where
  no_run rate_check full : RunKind

pub data UnsupportedReason : Type 0 where
  no_reason trigger_coalesced incomplete_epoch invalid_read deadline_miss queue_overflow
        writer_failure sensor_health operator_marked_unsupported :
      UnsupportedReason

unfoldable pub expected_samples_per_epoch : EncoderRate → ℕ
expected_samples_per_epoch rate =
    if rate == hz_1000 then 1 else if rate == hz_2000 then 2 else if rate == hz_5000 then 5 else 0

-- The command is in thousandths of the full duty.
unfoldable pub motor_mode_matches_command : ℤ → MotorMode → Bool
motor_mode_matches_command command_permille drive_in1 = ltb_ℤ command_permille (pos 0)
motor_mode_matches_command command_permille drive_in2 = ltb_ℤ (pos 0) command_permille
motor_mode_matches_command command_permille coast = is_zero command_permille
motor_mode_matches_command command_permille brake = is_zero command_permille

unfoldable pub is_known_stage : AssemblyStage → Bool
is_known_stage no_stage = false
is_known_stage _ = true

-- The values of the enumeration, and its comparison.
abbrev pub stage_number : AssemblyStage → ℕ
stage_number no_stage = 0
stage_number fv = 1
stage_number fh_positive = 2
stage_number fh_negative = 3
stage_number m0 = 4

abbrev pub same_stage : AssemblyStage → AssemblyStage → Bool
same_stage a b = stage_number a == stage_number b

abbrev pub mode_number : MotorMode → ℕ
mode_number coast = 0
mode_number drive_in1 = 1
mode_number drive_in2 = 2
mode_number brake = 3

abbrev pub same_mode : MotorMode → MotorMode → Bool
same_mode a b = mode_number a == mode_number b

pub record MotorCommandRequest : Type 0 where
  pub command_permille : ℤ
  pub mode : MotorMode

abbrev pub coast_request : MotorCommandRequest
coast_request = record { command_permille = pos 0; mode = coast }

abbrev pub maximum_command_permille : ℕ
maximum_command_permille = 350
