-- ===== src/Mission/Machine.antt =====
-- mission/mission_state.cpp: `MissionStateMachine`. An operation returns the new machine; those that
-- consult the fin overtravel guard take it and return it, since they may clear its latch.
pub mod Operations
pub mod Tick
pub mod Invariant
pub mod Events
pub mod Deployment
pub mod Flight
pub mod Outputs
pub mod Entry
pub mod Commands
pub mod Reset
mod Examples
use avi_99l_mission_board.Base.{
  ℕ, ◌+◌, ◌%◌, ◌==◌, Bool, true, false, not, ◌&&◌, ◌||◌, u32, if◌then◌else◌, leb, add64,
}
use avi_99l_mission_board.Double.{zero_double}
use avi_99l_mission_board.Overtravel.{Guard, clear_if_recoverable}
use avi_99l_mission_board.Protocol.Types.{
  MissionState, command_receive, liftoff_detection, engine_burn, control, descent, unknown,
  is_command_receive, is_liftoff_detection, is_engine_burn, is_control, is_descent,
}
use avi_99l_mission_board.Mission.Snapshot.{
  FinDirective, free, brake, zero_hold, roll_control, ParaDirective, hold, «open», powered_off,
  StartMode, normal, forced, TransitionResult, completed, invalid_state, not_configured,
  runtime_unavailable, PreflightReadinessSnapshot, ready_mask, missing_mask, MissionSnapshot,
  empty_snapshot, ResetCheckpoint,
}

pub record MissionStateMachine : Type 0 where
  pub snapshot : MissionSnapshot
  pub control_gate_evaluated : Bool
  pub fin_control_available : Bool
  pub elapsed_offset_us : ℕ
  pub control_roll_reference_capture_event_sequence : ℕ

abbrev pub new : MissionStateMachine
new = record {
  snapshot = empty_snapshot;
  control_gate_evaluated = false;
  fin_control_available = false;
  elapsed_offset_us = 0;
  control_roll_reference_capture_event_sequence = 0;
}

abbrev pub one_second_us : ℕ
one_second_us = 1_000_000

abbrev pub control_gate_us : ℕ
control_gate_us = 8_000_000

abbrev pub pressure_deployment_gate_us : ℕ
pressure_deployment_gate_us = 10_000_000

abbrev pub deployment_deadline_us : ℕ
deployment_deadline_us = 17_000_000

abbrev pub power_cutoff_us : ℕ
power_cutoff_us = 25_000_000

unfoldable pub next_epoch : ℕ → ℕ
next_epoch current = let next = u32 (current + 1) in if next == 0 then 1 else next

-- `(mask & 0b11) == 0b11`: the bits of the fin zero and of the motor profile.
unfoldable pub fin_flight_readiness_valid : MissionSnapshot → Bool
fin_flight_readiness_valid s = s.preflight_ready_mask % 4 == 3

abbrev pub set_state : MissionState → MissionStateMachine → MissionStateMachine
set_state state m = record m { snapshot = record m.snapshot { state = state } }

unfoldable pub invalidate_liftoff : MissionStateMachine → MissionStateMachine
invalidate_liftoff m = record m {
  snapshot = record m.snapshot { liftoff_time_valid = false; liftoff_time_us = 0; elapsed_us = 0 };
  elapsed_offset_us = 0;
}

unfoldable pub invalidate_control_roll_reference : MissionStateMachine → MissionStateMachine
invalidate_control_roll_reference m = record m {
  snapshot = record m.snapshot {
    control_roll_reference_unwrapped_rad = zero_double;
    control_roll_reference_capture_tick = 0;
    control_roll_reference_estimator_timestamp_us = 0;
    control_roll_reference_capture_event_sequence = m.control_roll_reference_capture_event_sequence;
    control_roll_reference_valid = false;
  };
}

unfoldable pub clear_flight_attempt_metadata : MissionStateMachine → MissionStateMachine
clear_flight_attempt_metadata m = record m {
  snapshot = record m.snapshot {
    forced_start = false;
    preflight_generation = 0;
    preflight_captured_at_us = 0;
    preflight_ready_mask = 0;
    preflight_missing_mask = 0;
  };
}

unfoldable pub parachute_directive : MissionSnapshot → ParaDirective
parachute_directive s =
    if s.deployment_power_cutoff_latched
    then powered_off
    else if s.deployment_started
    then «open»
    else hold

unfoldable pub fin_directive : ℕ → MissionStateMachine → FinDirective
unfolding fin_flight_readiness_valid
fin_directive now_us m =
    let s = m.snapshot in
    if s.reset_invalidated || s.fin_control_disabled
    then brake
    else if is_control s.state
    then (if fin_flight_readiness_valid s then roll_control else brake)
    else if is_liftoff_detection s.state || is_engine_burn s.state || is_descent s.state
    then (if s.liftoff_time_valid && leb (add64 s.liftoff_time_us power_cutoff_us) now_us
        then brake
        else if m.fin_control_available && fin_flight_readiness_valid s
        then zero_hold
        else brake)
    else brake

unfoldable pub update_directives : ℕ → MissionStateMachine → MissionStateMachine
unfolding parachute_directive fin_directive
update_directives now_us m = record m {
  snapshot = record m.snapshot {
    fin = fin_directive now_us m;
    parachute = parachute_directive m.snapshot;
  };
}
