-- ===== src/Mission/Machine/Invariant.antt =====
-- What holds of a `MissionStateMachine` between two operations (mission/mission_state.cpp).
use avi_99l_mission_board.Base.{ℕ, ◌%◌, ◌<◌, ◌≡◌, ◌≢◌, Bool, true, false, arith}
use avi_99l_mission_board.Double.{is_finite}
use avi_99l_mission_board.Overtravel.{Guard}
use avi_99l_mission_board.Protocol.Types.{
  MissionState, command_receive, engine_burn, control, descent, unknown,
}
use avi_99l_mission_board.Mission.Snapshot.{
  PreflightReadinessSnapshot, StartMode, MissionTickInput, SafetyRequest, ResetCheckpoint,
}
use avi_99l_mission_board.Mission.Machine.{MissionStateMachine, new, update_directives}
use avi_99l_mission_board.Mission.Machine.Operations.{
  start_sequence, cancel_sequence, disable_fin_control, liftoff_detection_emergency_stop,
  restore_after_reset,
}
use avi_99l_mission_board.Mission.Machine.Tick.{
  latch_requested_cutoff, detect_liftoff, measure_elapsed, check_overtravel, before_deployment,
  deploy_if_due, open_control_gate, leave_control, latch_timed_cutoff, after_deployment, tick,
}

-- The states between liftoff and landing, in which the flight clock runs.
abbrev pub is_airborne : MissionState → Bool
is_airborne engine_burn = true
is_airborne control = true
is_airborne descent = true
is_airborne _ = false

-- What Control requires: the fin is enabled and was configured on the ground, no re-entry is
-- inhibited, and the roll reference was captured at the gate.
pub record HasControl (m : MissionStateMachine) : Type 0 where
  pub enabled : m.snapshot.fin_control_disabled ≡ false
  pub entry_allowed : m.snapshot.control_reentry_inhibited ≡ false
  pub captured : m.snapshot.control_roll_reference_valid ≡ true
  pub fin_ready : m.snapshot.preflight_ready_mask % 4 ≡ 3

pub record IsValid (m : MissionStateMachine) : Type 0 where
  pub known : m.snapshot.state ≢ unknown
  pub epoch_set : m.snapshot.state ≢ command_receive → 0 < m.snapshot.flight_epoch
  pub clock : m.snapshot.liftoff_time_valid ≡ is_airborne m.snapshot.state
  pub gated : m.control_gate_evaluated ≡ true → is_airborne m.snapshot.state ≡ true
  pub deployed : m.snapshot.deployment_started ≡ true → m.snapshot.state ≡ descent
  pub controlled : m.snapshot.state ≡ control → HasControl m
  pub reference_gated :
      m.snapshot.control_roll_reference_valid ≡ true → m.control_gate_evaluated ≡ true
  pub reference_usable :
      m.snapshot.control_roll_reference_valid ≡ true
      → (is_finite m.snapshot.control_roll_reference_unwrapped_rad ≡ true)
        × (0 < m.snapshot.control_roll_reference_estimator_timestamp_us)

pub new-IsValid : IsValid new
new-IsValid = ground arith

pub start_sequence-IsValid :
    (r : PreflightReadinessSnapshot) (mode : StartMode) (g : Guard) (m : MissionStateMachine)
    → IsValid m
    → IsValid (start_sequence r mode g m).machine
unfolding start_sequence
start_sequence-IsValid r mode g m v = ground arith

pub cancel_sequence-IsValid : (m : MissionStateMachine) → IsValid m → IsValid (cancel_sequence m).0
unfolding cancel_sequence
cancel_sequence-IsValid m v = ground arith

pub disable_fin_control-IsValid :
    (m : MissionStateMachine) → IsValid m → IsValid (disable_fin_control m).0
unfolding disable_fin_control
disable_fin_control-IsValid m v = ground arith

pub liftoff_detection_emergency_stop-IsValid :
    (m : MissionStateMachine) → IsValid m → IsValid (liftoff_detection_emergency_stop m).0
unfolding liftoff_detection_emergency_stop
liftoff_detection_emergency_stop-IsValid m v = ground arith

pub restore_after_reset-IsValid :
    (now_us : ℕ) (c : ResetCheckpoint) (m : MissionStateMachine)
    → IsValid m
    → IsValid (restore_after_reset now_us c m).0
unfolding restore_after_reset
restore_after_reset-IsValid now_us c m v = ground arith

module _ (input : MissionTickInput) where
  latch_requested_cutoff-IsValid :
      (current : Bool) (safety : SafetyRequest) (m : MissionStateMachine)
      → IsValid m
      → IsValid (latch_requested_cutoff current safety m)
  unfolding latch_requested_cutoff
  latch_requested_cutoff-IsValid current safety m v = ground arith

  detect_liftoff-IsValid : (m : MissionStateMachine) → IsValid m → IsValid (detect_liftoff input m)
  unfolding detect_liftoff
  detect_liftoff-IsValid m v = ground arith

  measure_elapsed-IsValid :
      (m : MissionStateMachine) → IsValid m → IsValid (measure_elapsed input m)
  unfolding measure_elapsed
  measure_elapsed-IsValid m v = ground arith

  check_overtravel-IsValid :
      (g : Guard) (m : MissionStateMachine) → IsValid m → IsValid (check_overtravel g m)
  unfolding check_overtravel
  check_overtravel-IsValid g m v = ground arith

  pub before_deployment-IsValid :
      (safety : SafetyRequest) (g : Guard) (m : MissionStateMachine)
      → IsValid m
      → IsValid (before_deployment input safety g m)
  unfolding before_deployment
  before_deployment-IsValid safety g m v = check_overtravel-IsValid g _ (
      measure_elapsed-IsValid _
        (detect_liftoff-IsValid _ (latch_requested_cutoff-IsValid _ safety m v)))

  pub deploy_if_due-IsValid :
      (current : Bool) (safety : SafetyRequest) (m : MissionStateMachine)
      → IsValid m
      → IsValid (deploy_if_due input current safety m)
  unfolding deploy_if_due
  deploy_if_due-IsValid current safety m v = ground arith

  open_control_gate-IsValid :
      (m : MissionStateMachine) → IsValid m → IsValid (open_control_gate input m)
  unfolding open_control_gate
  open_control_gate-IsValid m v = ground arith

  leave_control-IsValid : (m : MissionStateMachine) → IsValid m → IsValid (leave_control input m)
  unfolding leave_control
  leave_control-IsValid m v = ground arith

  latch_timed_cutoff-IsValid :
      (m : MissionStateMachine) → IsValid m → IsValid (latch_timed_cutoff m)
  unfolding latch_timed_cutoff
  latch_timed_cutoff-IsValid m v = ground arith

  update_directives-IsValid :
      (now_us : ℕ) (m : MissionStateMachine) → IsValid m → IsValid (update_directives now_us m)
  unfolding update_directives
  update_directives-IsValid now_us m v = ground arith

  pub after_deployment-IsValid :
      (m : MissionStateMachine) → IsValid m → IsValid (after_deployment input m)
  unfolding after_deployment
  after_deployment-IsValid m v =
      update_directives-IsValid _ _
        (latch_timed_cutoff-IsValid _ (leave_control-IsValid _ (open_control_gate-IsValid m v)))

  pub tick-IsValid :
      (safety : SafetyRequest) (g : Guard) (m : MissionStateMachine)
      → IsValid m
      → IsValid (tick input safety g m).1
  unfolding tick
  tick-IsValid safety g m v =
      after_deployment-IsValid _
        (deploy_if_due-IsValid _ safety _ (before_deployment-IsValid safety g m v))
