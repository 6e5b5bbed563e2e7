-- ===== src/Mission/Machine/Outputs.antt =====
-- What the machine commands the actuators (mission/mission_state.cpp, `updateDirectives`).
use avi_99l_mission_board.Base.{ℕ, ◌%◌, ◌≡◌, ◌≢◌, ◌⊎◌, true, false, List, [], ◌∷◌, arith}
use avi_99l_mission_board.Overtravel.{Guard}
use avi_99l_mission_board.Protocol.Types.{command_receive, control}
use avi_99l_mission_board.Mission.Snapshot.{
  MissionTickInput, SafetyRequest, free, brake, zero_hold, roll_control, hold, «open», powered_off,
}
use avi_99l_mission_board.Mission.Machine.{MissionStateMachine, update_directives}
use avi_99l_mission_board.Mission.Machine.Operations.{
  start_sequence, cancel_sequence, disable_fin_control, liftoff_detection_emergency_stop,
  restore_after_reset,
}
use avi_99l_mission_board.Mission.Machine.Tick.{
  current_safety, before_deployment, deploy_if_due, open_control_gate, leave_control,
  latch_timed_cutoff, after_deployment, tick,
}
use avi_99l_mission_board.Mission.Machine.Events.{Event, ticks, System, boot, step, run}

pub record Directed (m : MissionStateMachine) : Type 0 where
  pub cut : m.snapshot.deployment_power_cutoff_latched ≡ true → m.snapshot.parachute ≡ powered_off
  pub opened :
      m.snapshot.deployment_power_cutoff_latched ≡ false
      → m.snapshot.deployment_started ≡ true
      → m.snapshot.parachute ≡ «open»
  pub held :
      m.snapshot.deployment_power_cutoff_latched ≡ false
      → m.snapshot.deployment_started ≡ false
      → m.snapshot.parachute ≡ hold
  pub never_free : m.snapshot.fin ≢ free
  pub braked :
      (m.snapshot.reset_invalidated ≡ true) ⊎ (m.snapshot.fin_control_disabled ≡ true)
      → m.snapshot.fin ≡ brake
  pub driven_ready :
      (m.snapshot.fin ≡ roll_control) ⊎ (m.snapshot.fin ≡ zero_hold)
      → (m.snapshot.preflight_ready_mask % 4 ≡ 3) × (m.snapshot.state ≢ command_receive)
  pub roll_in_control : m.snapshot.fin ≡ roll_control → m.snapshot.state ≡ control

pub update_directives-Directed :
    (now_us : ℕ) (m : MissionStateMachine) → Directed (update_directives now_us m)
unfolding update_directives
update_directives-Directed now_us m = ground arith

after_deployment-Directed :
    (input : MissionTickInput) (m : MissionStateMachine) → Directed (after_deployment input m)
unfolding after_deployment
after_deployment-Directed input m =
    update_directives-Directed input.monotonic_us
      (latch_timed_cutoff (leave_control input (open_control_gate input m)))

pub tick-Directed :
    (input : MissionTickInput) (safety : SafetyRequest) (g : Guard) (m : MissionStateMachine)
    → Directed (tick input safety g m).1
unfolding tick
tick-Directed input safety g m =
    after_deployment-Directed input
      (deploy_if_due input (current_safety safety m) safety (before_deployment input safety g m))

step-Directed : (e : Event) (s : System) → Directed s.machine → Directed (step e s).machine
unfolding step start_sequence cancel_sequence disable_fin_control liftoff_detection_emergency_stop
    restore_after_reset
step-Directed (ticks input safety) s d = tick-Directed input safety s.guard s.machine
step-Directed _ s d = ground arith

pub run-Directed : (es : List Event) (s : System) → Directed s.machine → Directed (run es s).machine
unfolding run
run-Directed [] s d = d
run-Directed (e ∷ es) s d = run-Directed es (step e s) (step-Directed e s d)

-- After any history of events since boot the commanded outputs match the state. The parachute is
-- powered off exactly under the latched cutoff, and otherwise commanded open exactly once the
-- deployment has started, else held. The fin is never free; it brakes after a reset and while fin
-- control is disabled; it is driven (roll control or zero hold) only if its zero and the motor
-- profile were configured, never in CommandReceive; and roll control is commanded only in Control.
pub run-boot-Directed : (es : List Event) → Directed (run es boot).machine
run-boot-Directed es = run-Directed es boot (ground arith)
