-- ===== src/Mission/Machine/Operations.antt =====
-- mission/mission_state.cpp: the commands to the flight state machine and the restore after a reset.
use avi_99l_mission_board.Base.{ℕ, ◌==◌, Bool, true, false, not, ◌&&◌, ◌||◌, if◌then◌else◌}
use avi_99l_mission_board.Overtravel.{Guard, clear_if_recoverable}
use avi_99l_mission_board.Protocol.Types.{
  command_receive, liftoff_detection, engine_burn, descent, is_command_receive,
  is_liftoff_detection, is_engine_burn, is_control, is_descent,
}
use avi_99l_mission_board.Mission.Snapshot.{
  brake, hold, «open», powered_off, StartMode, normal, forced, TransitionResult, completed,
  invalid_state, not_configured, runtime_unavailable, PreflightReadinessSnapshot, ready_mask,
  missing_mask, empty_snapshot, ResetCheckpoint,
}
use avi_99l_mission_board.Mission.Machine.{
  MissionStateMachine, next_epoch, set_state, invalidate_liftoff, invalidate_control_roll_reference,
  clear_flight_attempt_metadata, update_directives,
}

-- The fields that a completed `startSequence` sets before it invalidates the last flight's data.
unfoldable pub begin_attempt :
    PreflightReadinessSnapshot → StartMode → MissionStateMachine → MissionStateMachine
unfolding next_epoch ready_mask missing_mask
begin_attempt r mode m = record m {
  snapshot = record m.snapshot {
    flight_epoch = next_epoch m.snapshot.flight_epoch;
    state = liftoff_detection;
    fin_control_disabled = false;
    control_reentry_inhibited = false;
    reset_invalidated = false;
    deployment_started = false;
    deployment_power_cutoff_latched = false;
    forced_start = elim mode [ forced ↦ true | normal ↦ false ];
    preflight_generation = r.generation;
    preflight_captured_at_us = r.captured_at_us;
    preflight_ready_mask = ready_mask r;
    preflight_missing_mask = missing_mask r;
    parachute = hold;
  };
  control_gate_evaluated = false;
  fin_control_available = r.fin_zero_configured && r.motor_profile_valid;
  elapsed_offset_us = 0;
}

abbrev pub is_normal : StartMode → Bool
is_normal normal = true
is_normal forced = false

-- The outcome of an operation that shares the guard.
pub record Outcome : Type 0 where
  pub guard : Guard
  pub machine : MissionStateMachine
  pub result : TransitionResult

unfoldable pub start_sequence :
    PreflightReadinessSnapshot → StartMode → Guard → MissionStateMachine → Outcome
unfolding begin_attempt invalidate_liftoff invalidate_control_roll_reference update_directives
    clear_if_recoverable
start_sequence r mode g m =
    if not (is_command_receive m.snapshot.state)
    then record { guard = g; machine = m; result = invalid_state }
    else let g' = (clear_if_recoverable g).0 in
      if g'.fault_latched
      then record { guard = g'; machine = m; result = runtime_unavailable }
      else if not r.resources_preallocated
      then record { guard = g'; machine = m; result = runtime_unavailable }
      else if is_normal mode && not (missing_mask r == 0)
      then record { guard = g'; machine = m; result = not_configured }
      else record {
        guard = g';
        machine =
            update_directives 0
              (invalidate_liftoff (invalidate_control_roll_reference (begin_attempt r mode m)));
        result = completed;
      }

unfoldable pub cancel_sequence : MissionStateMachine → MissionStateMachine × TransitionResult
unfolding invalidate_liftoff invalidate_control_roll_reference clear_flight_attempt_metadata
    update_directives
cancel_sequence m =
    if not (is_liftoff_detection m.snapshot.state)
    then (m, invalid_state)
    else let reset : MissionStateMachine = record m {
      snapshot = record m.snapshot {
        state = command_receive;
        fin_control_disabled = false;
        control_reentry_inhibited = false;
        deployment_started = false;
      };
      control_gate_evaluated = false;
      fin_control_available = false;
      elapsed_offset_us = 0;
    } in
      (
        update_directives 0 (
            clear_flight_attempt_metadata
              (invalidate_liftoff (invalidate_control_roll_reference reset))),
        completed,
      )

unfoldable pub disable_fin_control : MissionStateMachine → MissionStateMachine × TransitionResult
unfolding invalidate_control_roll_reference update_directives
disable_fin_control m =
    if not (is_liftoff_detection m.snapshot.state)
      && not (is_engine_burn m.snapshot.state)
      && not (is_control m.snapshot.state)
    then (m, invalid_state)
    else let disabled : MissionStateMachine = invalidate_control_roll_reference (record m {
      snapshot = record m.snapshot {
        fin_control_disabled = true;
        control_reentry_inhibited = true;
      };
    }) in
      let left : MissionStateMachine =
        (if is_control disabled.snapshot.state then set_state engine_burn disabled else disabled) in
      (update_directives 0 left, completed)

unfoldable pub liftoff_detection_emergency_stop :
    MissionStateMachine → MissionStateMachine × TransitionResult
unfolding next_epoch invalidate_liftoff invalidate_control_roll_reference update_directives
liftoff_detection_emergency_stop m =
    if not (is_engine_burn m.snapshot.state)
    then (m, invalid_state)
    else let rolled_back : MissionStateMachine = record m {
      snapshot = record m.snapshot {
        flight_epoch = next_epoch m.snapshot.flight_epoch;
        state = liftoff_detection;
        control_reentry_inhibited = m.snapshot.fin_control_disabled;
        deployment_started = false;
      };
      control_gate_evaluated = false;
      elapsed_offset_us = 0;
    } in
      (
        update_directives 0 (invalidate_liftoff (invalidate_control_roll_reference rolled_back)),
        completed,
      )

-- The checkpoints that `restoreAfterReset` refuses.
unfoldable pub checkpoint_refused : ResetCheckpoint → Bool
checkpoint_refused c =
    not c.valid
    || c.flight_epoch == 0
    || (is_liftoff_detection c.state && c.elapsed_valid)
    || (not (is_liftoff_detection c.state)
        && (not c.elapsed_valid
            || (not (is_engine_burn c.state)
                && not (is_control c.state)
                && not (is_descent c.state))))

-- The fields that both kinds of checkpoint restore.
unfoldable pub restored_base : ResetCheckpoint → MissionStateMachine → MissionStateMachine
unfolding invalidate_control_roll_reference
restored_base c m = invalidate_control_roll_reference (record m {
  snapshot = record empty_snapshot {
    flight_epoch = c.flight_epoch;
    forced_start = c.forced_start;
    preflight_generation = c.preflight_generation;
    preflight_captured_at_us = c.preflight_captured_at_us;
    preflight_ready_mask = c.preflight_ready_mask;
    preflight_missing_mask = c.preflight_missing_mask;
    control_reentry_inhibited = true;
    reset_invalidated = true;
  };
})

unfoldable pub restored_on_pad : MissionStateMachine → MissionStateMachine
unfolding invalidate_liftoff
restored_on_pad m = invalidate_liftoff (record m {
  snapshot = record m.snapshot { state = liftoff_detection; parachute = hold };
  control_gate_evaluated = false;
  fin_control_available = false;
  elapsed_offset_us = 0;
})

unfoldable pub restored_in_flight : ℕ → ResetCheckpoint → MissionStateMachine → MissionStateMachine
restored_in_flight now_us c m = record m {
  snapshot = record m.snapshot {
    state = if c.deployment_started || is_descent c.state then descent else engine_burn;
    liftoff_time_valid = true;
    liftoff_time_us = now_us;
    elapsed_us = c.elapsed_us;
    deployment_started = c.deployment_started;
    deployment_power_cutoff_latched = c.power_cutoff_latched;
    fin = brake;
    parachute =
        if c.power_cutoff_latched
        then powered_off
        else if c.deployment_started
        then «open»
        else hold;
  };
  control_gate_evaluated = true;
  fin_control_available = false;
  elapsed_offset_us = c.elapsed_us;
}

unfoldable pub restore_after_reset :
    ℕ → ResetCheckpoint → MissionStateMachine → MissionStateMachine × TransitionResult
unfolding checkpoint_refused restored_base restored_on_pad restored_in_flight update_directives
restore_after_reset now_us c m =
    if checkpoint_refused c
    then (m, not_configured)
    else if is_liftoff_detection c.state
    then (update_directives now_us (restored_on_pad (restored_base c m)), completed)
    else (update_directives now_us (restored_in_flight now_us c (restored_base c m)), completed)
