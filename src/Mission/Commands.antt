-- ===== src/Mission/Commands.antt =====
-- mission/command_executor.hpp and the tables of command_executor.cpp: what each command is. A
-- `CommandCode` may hold any byte that came in on the bus, so it is the byte itself.
use avi_99l_mission_board.Base.{
  ℕ, Bool, false, ◌&&◌, ◌||◌, List, [], ◌∷◌, ◌==◌, leb, if◌then◌else◌, any_of, all_of,
}
use avi_99l_mission_board.Protocol.Types.{
  MissionState, GenericCommandRequest, is_command_receive, is_liftoff_detection, is_engine_burn,
  is_control, is_descent,
}

abbrev pub CommandCode : Type 0
CommandCode = ℕ

abbrev pub start_sequence : CommandCode
start_sequence = 0x01

abbrev pub cancel_sequence : CommandCode
cancel_sequence = 0x02

abbrev pub disable_fin_control : CommandCode
disable_fin_control = 0x03

abbrev pub force_start_sequence : CommandCode
force_start_sequence = 0x04

-- `fin_release_hold` is the same code.
abbrev pub fin_free : CommandCode
fin_free = 0x10

abbrev pub set_fin_zero : CommandCode
set_fin_zero = 0x11

abbrev pub start_fin_zero_hold : CommandCode
start_fin_zero_hold = 0x12

-- `fin_hold_current` is the same code.
abbrev pub fin_move_relative : CommandCode
fin_move_relative = 0x13

abbrev pub para_free : CommandCode
para_free = 0x20

abbrev pub para_hold : CommandCode
para_hold = 0x21

abbrev pub para_move_relative : CommandCode
para_move_relative = 0x22

abbrev pub set_para_open : CommandCode
set_para_open = 0x23

abbrev pub set_para_close : CommandCode
set_para_close = 0x24

abbrev pub para_open : CommandCode
para_open = 0x25

abbrev pub para_close : CommandCode
para_close = 0x26

abbrev pub run_preflight_calibration : CommandCode
run_preflight_calibration = 0x30

abbrev pub export_flash_log : CommandCode
export_flash_log = 0x31

abbrev pub enter_recovery : CommandCode
enter_recovery = 0x33

abbrev pub actuator_emergency_result : CommandCode
actuator_emergency_result = 0xF0

abbrev pub liftoff_emergency_result : CommandCode
liftoff_emergency_result = 0xF1

pub data CommandDomain : Type 0 where
  sequence fin parachute calibration storage recovery : CommandDomain

pub record CommandContext : Type 0 where
  pub state : MissionState
  pub resources_preallocated : Bool
  pub fin_available : Bool
  pub parachute_available : Bool
  pub motor_test_busy : Bool
  pub calibration_supported : Bool
  pub storage_export_supported : Bool
  pub deployment_power_cutoff_done : Bool
  pub fin_safe_commands_supported : Bool

abbrev pub one_of : CommandCode → List CommandCode → Bool
one_of code = any_of (λ c. code == c)

unfoldable pub command_known : CommandCode → Bool
command_known raw =
    (leb 0x01 raw && leb raw 0x04)
    || raw == 0x10
    || raw == 0x11
    || raw == 0x13
    || (leb 0x20 raw && leb raw 0x26)
    || (leb 0x30 raw && leb raw 0x31)
    || raw == 0x33

unfoldable pub unsupported_parachute_command : CommandCode → Bool
unsupported_parachute_command raw = leb para_free raw && leb raw set_para_close

unfoldable pub domain_for : CommandCode → CommandDomain
domain_for code =
    if one_of code
      (start_sequence ∷ cancel_sequence ∷ disable_fin_control ∷ force_start_sequence ∷ [])
    then CommandDomain.sequence
    else if one_of code (fin_free ∷ set_fin_zero ∷ start_fin_zero_hold ∷ fin_move_relative ∷ [])
    then CommandDomain.fin
    else if one_of code (
        para_free ∷ para_hold ∷ para_move_relative ∷ set_para_open ∷ set_para_close ∷ para_open
        ∷ para_close ∷ [])
    then CommandDomain.parachute
    else if code == run_preflight_calibration
    then CommandDomain.calibration
    else if code == export_flash_log
    then CommandDomain.storage
    else if code == enter_recovery
    then CommandDomain.recovery
    else CommandDomain.sequence

-- Both cases of the switch ask for six zero bytes.
unfoldable pub arguments_valid : GenericCommandRequest → Bool
arguments_valid r = all_of (λ value. value == 0) r.arguments

unfoldable pub state_valid : CommandCode → MissionState → Bool
state_valid code state =
    if one_of code (
      start_sequence ∷ force_start_sequence ∷ fin_free ∷ set_fin_zero ∷ start_fin_zero_hold
      ∷ fin_move_relative ∷ para_open ∷ para_close ∷ run_preflight_calibration ∷ export_flash_log
      ∷ [])
    then is_command_receive state
    else if code == cancel_sequence
    then is_liftoff_detection state
    else if code == disable_fin_control
    then is_liftoff_detection state || is_engine_burn state || is_control state
    else if code == enter_recovery
    then is_descent state
    else false

unfoldable pub is_start : CommandCode → Bool
is_start code = code == start_sequence || code == force_start_sequence

unfoldable pub blocked_by_fin_overtravel : CommandCode → Bool
unfolding is_start
blocked_by_fin_overtravel code =
    is_start code || code == start_fin_zero_hold || code == fin_move_relative
