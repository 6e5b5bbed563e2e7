-- ===== src/Mission/Machine/Commands.antt =====
-- The answers of the commands to the flight state machine, and the epochs they give out
-- (mission/mission_state.cpp).
use avi_99l_mission_board.Base.{ℕ, ◌^◌, ◌<◌, ◌≡◌, ◌≢◌, ◌↔◌, ◌⊎◌, true, false, arith, sym, ap, ◌∙◌}
use avi_99l_mission_board.Overtravel.{Guard}
use avi_99l_mission_board.Protocol.Types.{command_receive, engine_burn}
use avi_99l_mission_board.Mission.Snapshot.{
  PreflightReadinessSnapshot, StartMode, forced, completed, MissionTickInput, SafetyRequest,
  no_request, ResetCheckpoint,
}
use avi_99l_mission_board.Mission.Machine.{MissionStateMachine, next_epoch}
use avi_99l_mission_board.Mission.Machine.Operations.{
  start_sequence, cancel_sequence, disable_fin_control, liftoff_detection_emergency_stop,
  restore_after_reset,
}
use avi_99l_mission_board.Mission.Machine.Tick.{
  current_safety, latch_requested_cutoff, detect_liftoff, measure_elapsed, check_overtravel,
  before_deployment, deploy_if_due, after_deployment, guard_after, tick,
}

-- All five preflight items are there.
abbrev pub Configured : PreflightReadinessSnapshot → Type 0
Configured r =
    (r.fin_zero_configured ≡ true)
    × (r.motor_profile_valid ≡ true)
    × (r.gyro_bias_valid ≡ true)
    × (r.gravity_reference_valid ≡ true)
    × (r.ssc_zero_valid ≡ true)

-- The overtravel latch does not stand in the way, or would be cleared by the last sample.
abbrev pub Recoverable : Guard → Type 0
Recoverable g =
    (g.fault_latched ≡ false) ⊎ ((g.sample_valid ≡ true) × (g.inside_fault_limit ≡ true))

-- A start is carried out exactly in CommandReceive, with the resources allocated, no overtravel
-- fault left after the recovery, and either forced or with all five preflight items there.
pub start_sequence-completed_iff :
    (r : PreflightReadinessSnapshot) (mode : StartMode) (g : Guard) (m : MissionStateMachine)
    → ((start_sequence r mode g m).result ≡ completed) ↔ (
        (m.snapshot.state ≡ command_receive)
        × Recoverable g
        × (r.resources_preallocated ≡ true)
        × ((mode ≡ forced) ⊎ Configured r))
unfolding start_sequence
start_sequence-completed_iff r mode g m = (ground arith, ground arith)

-- A command that is not carried out leaves the flight state machine as it was: a start, a cancel,
-- a disabling of the fin, a liftoff rollback and a restore after a reset alike.
pub rejected_unchanged :
    (r : PreflightReadinessSnapshot) (mode : StartMode) (g : Guard) (now_us : ℕ)
    (c : ResetCheckpoint) (m : MissionStateMachine)
    → (((start_sequence r mode g m).result ≡ completed) ⊎ ((start_sequence r mode g m).machine ≡ m))
      × (((cancel_sequence m).1 ≡ completed) ⊎ ((cancel_sequence m).0 ≡ m))
      × (((disable_fin_control m).1 ≡ completed) ⊎ ((disable_fin_control m).0 ≡ m))
      × (((liftoff_detection_emergency_stop m).1 ≡ completed)
          ⊎ ((liftoff_detection_emergency_stop m).0 ≡ m))
      × (((restore_after_reset now_us c m).1 ≡ completed)
          ⊎ ((restore_after_reset now_us c m).0 ≡ m))
unfolding start_sequence cancel_sequence disable_fin_control liftoff_detection_emergency_stop
    restore_after_reset
rejected_unchanged r mode g now_us c m =
    (ground arith, ground arith, ground arith, ground arith, ground arith)

module _ (input : MissionTickInput) (safety : SafetyRequest) (g : Guard)
    (m : MissionStateMachine) where
  current_safety_stale :
      safety.flight_epoch ≢ m.snapshot.flight_epoch → current_safety safety m ≡ false
  unfolding current_safety
  current_safety_stale stale = ground arith

  current_safety_none : current_safety no_request m ≡ false
  unfolding current_safety
  current_safety_none = ground arith

  latch_stale :
      safety.flight_epoch ≢ m.snapshot.flight_epoch
      → latch_requested_cutoff (current_safety safety m) safety m
        ≡ latch_requested_cutoff (current_safety no_request m) no_request m
  unfolding latch_requested_cutoff
  latch_stale stale = rw (current_safety_stale stale, current_safety_none)

  before_deployment_stale :
      safety.flight_epoch ≢ m.snapshot.flight_epoch
      → before_deployment input safety g m ≡ before_deployment input no_request g m
  unfolding before_deployment
  before_deployment_stale stale =
      ap (λ b. check_overtravel g (measure_elapsed input (detect_liftoff input b)))
        (latch_stale stale)

  deploy_if_due_stale :
      (b : MissionStateMachine)
      → safety.flight_epoch ≢ m.snapshot.flight_epoch
      → deploy_if_due input (current_safety safety m) safety b
        ≡ deploy_if_due input (current_safety no_request m) no_request b
  unfolding deploy_if_due
  deploy_if_due_stale b stale = rw (current_safety_stale stale, current_safety_none)

  -- A safety request that names another epoch than the machine's is as good as none: the tick ends
  -- in the very same guard and machine.
  pub tick_stale :
      safety.flight_epoch ≢ m.snapshot.flight_epoch
      → tick input safety g m ≡ tick input no_request g m
  unfolding tick
  tick_stale stale =
      ap {B = Guard × MissionStateMachine}
        (λ d. (guard_after g (detect_liftoff input m), after_deployment input d))
        (deploy_if_due_stale (before_deployment input safety g m) stale
          ∙ ap (deploy_if_due input (current_safety no_request m) no_request)
              (before_deployment_stale stale))

next_epoch_fresh : (e : ℕ) → e < 2 ^ 32 → (next_epoch e ≢ e) × (0 < next_epoch e)
unfolding next_epoch
next_epoch_fresh e h = (ground arith, ground arith)

rollback-epoch :
    (m : MissionStateMachine)
    → m.snapshot.state ≡ engine_burn
    → (liftoff_detection_emergency_stop m).0.snapshot.flight_epoch
      ≡ next_epoch m.snapshot.flight_epoch
unfolding liftoff_detection_emergency_stop
rollback-epoch m burn = ground arith

-- A rollback from EngineBurn, at an epoch of 32 bits, discards the safety requests that were made for
-- the flight it ends: the next tick, of
-- whatever input, treats such a request as none, so that it neither deploys nor cuts the power.
pub rollback_discards_requests :
    (input : MissionTickInput) (safety : SafetyRequest) (g : Guard) (m : MissionStateMachine)
    → m.snapshot.state ≡ engine_burn
    → m.snapshot.flight_epoch < 2 ^ 32
    → safety.flight_epoch ≡ m.snapshot.flight_epoch
    → tick input safety g (liftoff_detection_emergency_stop m).0
      ≡ tick input no_request g (liftoff_detection_emergency_stop m).0
rollback_discards_requests input safety g m burn fits same =
    tick_stale input safety g (liftoff_detection_emergency_stop m).0 (λ e.
      (next_epoch_fresh m.snapshot.flight_epoch fits).0
        (sym (rollback-epoch m burn) ∙ sym e ∙ same))
