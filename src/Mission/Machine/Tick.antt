-- ===== src/Mission/Machine/Tick.antt =====
-- mission/mission_state.cpp: `MissionStateMachine::tick`, one function for each of its blocks.
use avi_99l_mission_board.Base.{
  ℕ, ◌-◌, ◌+◌, ◌==◌, Bool, true, false, not, ◌&&◌, ◌||◌, u8, if◌then◌else◌, ltb, leb, add64, sub64,
}
use avi_99l_mission_board.Overtravel.{Guard, clear_if_recoverable}
use avi_99l_mission_board.Protocol.Types.{
  engine_burn, control, descent, is_command_receive, is_liftoff_detection, is_engine_burn,
  is_control,
}
use avi_99l_mission_board.Mission.Snapshot.{
  ready, MissionTickInput, SafetyRequest, MissionSnapshot, «open»,
}
use avi_99l_mission_board.Mission.Machine.{
  MissionStateMachine, one_second_us, control_gate_us, pressure_deployment_gate_us,
  deployment_deadline_us, power_cutoff_us, fin_flight_readiness_valid, set_state,
  invalidate_control_roll_reference, update_directives,
}

-- A safety request counts only for the flight it was made for.
unfoldable pub current_safety : SafetyRequest → MissionStateMachine → Bool
current_safety safety m =
    not (safety.flight_epoch == 0) && safety.flight_epoch == m.snapshot.flight_epoch

unfoldable pub latch_requested_cutoff :
    Bool → SafetyRequest → MissionStateMachine → MissionStateMachine
latch_requested_cutoff current safety m =
    if current && m.snapshot.liftoff_time_valid && safety.absolute_power_cutoff
    then record m { snapshot = record m.snapshot { deployment_power_cutoff_latched = true } }
    else m

unfoldable pub detect_liftoff : MissionTickInput → MissionStateMachine → MissionStateMachine
detect_liftoff input m =
    if is_liftoff_detection m.snapshot.state && input.liftoff_detected
    then record m {
      snapshot = record m.snapshot {
        liftoff_time_valid = true;
        liftoff_time_us =
            if leb one_second_us input.monotonic_us then input.monotonic_us - one_second_us else 0;
        state = engine_burn;
      };
      control_gate_evaluated = false;
      elapsed_offset_us = 0;
    }
    else m

-- `elapsed_offset_us_ + input.monotonic_us - liftoff_time_us`, from left to right.
unfoldable pub measured_elapsed : MissionTickInput → MissionStateMachine → ℕ
measured_elapsed input m =
    if m.snapshot.liftoff_time_valid && leb m.snapshot.liftoff_time_us input.monotonic_us
    then sub64 (add64 m.elapsed_offset_us input.monotonic_us) m.snapshot.liftoff_time_us
    else 0

unfoldable pub measure_elapsed : MissionTickInput → MissionStateMachine → MissionStateMachine
unfolding measured_elapsed
measure_elapsed input m = record m {
  snapshot = record m.snapshot { elapsed_us = measured_elapsed input m };
  fin_control_available = input.control.fin_control_available;
}

-- `if (state == control) state = engine_burn`.
unfoldable pub fall_back_to_burn : MissionStateMachine → MissionStateMachine
fall_back_to_burn m = if is_control m.snapshot.state then set_state engine_burn m else m

unfoldable pub inhibit_by_overtravel : MissionStateMachine → MissionStateMachine
unfolding invalidate_control_roll_reference fall_back_to_burn
inhibit_by_overtravel m = fall_back_to_burn (
    invalidate_control_roll_reference (record m {
      snapshot = record m.snapshot { control_reentry_inhibited = true };
      fin_control_available = false;
    }))

-- The guard after the tick: only CommandReceive may clear its latch.
unfoldable pub guard_after : Guard → MissionStateMachine → Guard
unfolding clear_if_recoverable
guard_after g m = if is_command_receive m.snapshot.state then (clear_if_recoverable g).0 else g

unfoldable pub check_overtravel : Guard → MissionStateMachine → MissionStateMachine
unfolding inhibit_by_overtravel
check_overtravel g m =
    if is_command_receive m.snapshot.state
    then m
    else if g.fault_latched
    then inhibit_by_overtravel m
    else m

unfoldable pub deployment_due : MissionTickInput → Bool → SafetyRequest → MissionSnapshot → Bool
deployment_due input current safety s =
    (is_engine_burn s.state || is_control s.state)
    && ((current && safety.deploy)
        || (input.deployment_pressure_condition
            && s.liftoff_time_valid
            && leb pressure_deployment_gate_us s.elapsed_us)
        || (s.liftoff_time_valid && leb deployment_deadline_us s.elapsed_us))

unfoldable pub enter_descent : MissionStateMachine → MissionStateMachine
enter_descent m = record m {
  snapshot = record m.snapshot { state = descent; deployment_started = true; parachute = «open» };
}

unfoldable pub deploy_if_due :
    MissionTickInput → Bool → SafetyRequest → MissionStateMachine → MissionStateMachine
unfolding deployment_due enter_descent
deploy_if_due input current safety m =
    if deployment_due input current safety m.snapshot then enter_descent m else m

-- The sample is neither from the future nor older than 3 ms.
unfoldable pub reference_sample_usable : MissionTickInput → Bool
reference_sample_usable input = not (
    ltb input.monotonic_us input.control.roll_estimator_timestamp_us
    || ltb 3_000 (input.monotonic_us - input.control.roll_estimator_timestamp_us))

unfoldable pub store_reference : MissionTickInput → MissionStateMachine → MissionStateMachine
store_reference input m =
    let sequence = u8 (m.control_roll_reference_capture_event_sequence + 1) in
    record m {
      snapshot = record m.snapshot {
        control_roll_reference_unwrapped_rad =
            input.control.roll_estimate_liftoff_relative_unwrapped_rad;
        control_roll_reference_capture_tick = input.control_tick;
        control_roll_reference_estimator_timestamp_us = input.control.roll_estimator_timestamp_us;
        control_roll_reference_capture_event_sequence = sequence;
        control_roll_reference_valid = true;
      };
      control_roll_reference_capture_event_sequence = sequence;
    }

unfoldable pub capture_control_roll_reference :
    MissionTickInput → MissionStateMachine → MissionStateMachine × Bool
unfolding reference_sample_usable store_reference
capture_control_roll_reference input m =
    if m.snapshot.control_roll_reference_valid
    then (m, true)
    else if reference_sample_usable input
    then (store_reference input m, true)
    else (m, false)

abbrev pub inhibit_reentry : MissionStateMachine → MissionStateMachine
inhibit_reentry m = record m { snapshot = record m.snapshot { control_reentry_inhibited = true } }

unfoldable pub gate_due : MissionStateMachine → Bool
gate_due m =
    is_engine_burn m.snapshot.state
    && m.snapshot.liftoff_time_valid
    && leb control_gate_us m.snapshot.elapsed_us
    && not m.control_gate_evaluated

unfoldable pub gate_permits : MissionTickInput → MissionStateMachine → Bool
unfolding fin_flight_readiness_valid ready
gate_permits input m =
    not m.snapshot.fin_control_disabled
    && not m.snapshot.control_reentry_inhibited
    && fin_flight_readiness_valid m.snapshot
    && ready input.control

-- The capture runs only if all the other conditions hold.
unfoldable pub evaluate_gate : MissionTickInput → MissionStateMachine → MissionStateMachine
unfolding gate_permits capture_control_roll_reference
evaluate_gate input m =
    if gate_permits input m
    then (let (captured, done) = capture_control_roll_reference input m in
        if done then set_state control captured else inhibit_reentry captured)
    else inhibit_reentry m

unfoldable pub open_control_gate : MissionTickInput → MissionStateMachine → MissionStateMachine
unfolding gate_due evaluate_gate
open_control_gate input m =
    if gate_due m then evaluate_gate input (record m { control_gate_evaluated = true }) else m

unfoldable pub leave_control : MissionTickInput → MissionStateMachine → MissionStateMachine
unfolding ready
leave_control input m =
    if is_control m.snapshot.state && not (ready input.control)
    then inhibit_reentry (set_state engine_burn m)
    else m

unfoldable pub latch_timed_cutoff : MissionStateMachine → MissionStateMachine
latch_timed_cutoff m =
    if m.snapshot.liftoff_time_valid && leb power_cutoff_us m.snapshot.elapsed_us
    then record m { snapshot = record m.snapshot { deployment_power_cutoff_latched = true } }
    else m

-- Up to the overtravel check: the state, the clock and the cutoff as the deployment block sees them.
unfoldable pub before_deployment :
    MissionTickInput → SafetyRequest → Guard → MissionStateMachine → MissionStateMachine
unfolding current_safety latch_requested_cutoff detect_liftoff measure_elapsed check_overtravel
before_deployment input safety g m = check_overtravel g (
    measure_elapsed input
      (detect_liftoff input (latch_requested_cutoff (current_safety safety m) safety m)))

unfoldable pub after_deployment : MissionTickInput → MissionStateMachine → MissionStateMachine
unfolding open_control_gate leave_control latch_timed_cutoff update_directives
after_deployment input m =
    update_directives input.monotonic_us
      (latch_timed_cutoff (leave_control input (open_control_gate input m)))

unfoldable pub tick :
    MissionTickInput → SafetyRequest → Guard → MissionStateMachine → Guard × MissionStateMachine
unfolding before_deployment deploy_if_due after_deployment guard_after
tick input safety g m = (
  guard_after g (detect_liftoff input m),
  after_deployment input
      (deploy_if_due input (current_safety safety m) safety (before_deployment input safety g m)),
)
