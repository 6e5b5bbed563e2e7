-- ===== src/Mission/Machine/Events.antt =====
-- Every way in which the firmware drives the flight state machine and the overtravel guard, as one
-- step function over both, and histories of such events (mission/mission_state.cpp).
use avi_99l_mission_board.Base.{ℕ, Bool, List, [], ◌∷◌}
use avi_99l_mission_board.Double.{Double}
use avi_99l_mission_board.Overtravel.{Guard, initial, observe, clear_fault}
use avi_99l_mission_board.Mission.Snapshot.{
  PreflightReadinessSnapshot, StartMode, MissionTickInput, SafetyRequest, ResetCheckpoint,
}
use avi_99l_mission_board.Mission.Machine.{MissionStateMachine, new}
use avi_99l_mission_board.Mission.Machine.Operations.{
  start_sequence, cancel_sequence, disable_fin_control, liftoff_detection_emergency_stop,
  restore_after_reset,
}
use avi_99l_mission_board.Mission.Machine.Tick.{tick}
use avi_99l_mission_board.Mission.Machine.Invariant.{
  IsValid, new-IsValid, start_sequence-IsValid, cancel_sequence-IsValid,
  disable_fin_control-IsValid, liftoff_detection_emergency_stop-IsValid,
  restore_after_reset-IsValid, tick-IsValid,
}

pub data Event : Type 0 where
  starts : PreflightReadinessSnapshot → StartMode → Event
  cancels disables_fin stops_liftoff : Event
  restores : ℕ → ResetCheckpoint → Event
  ticks : MissionTickInput → SafetyRequest → Event
  observes : Double → Bool → Event
  clears_fault : Event

pub record System : Type 0 where
  pub guard : Guard
  pub machine : MissionStateMachine

abbrev pub boot : System
boot = record { guard = initial; machine = new }

unfoldable pub step : Event → System → System
step (starts r mode) s =
    let o = start_sequence r mode s.guard s.machine in
    record { guard = o.guard; machine = o.machine }
step cancels s = record s { machine = (cancel_sequence s.machine).0 }
step disables_fin s = record s { machine = (disable_fin_control s.machine).0 }
step stops_liftoff s = record s { machine = (liftoff_detection_emergency_stop s.machine).0 }
step (restores now_us c) s = record s { machine = (restore_after_reset now_us c s.machine).0 }
step (ticks input safety) s =
    let (g, m) = tick input safety s.guard s.machine in record { guard = g; machine = m }
step (observes angle_rad valid_sample) s = record s {
  guard = observe angle_rad valid_sample s.guard;
}
step clears_fault s = record s { guard = clear_fault s.guard }

unfoldable pub run : List Event → System → System
run [] s = s
run (e ∷ es) s = run es (step e s)

pub step-IsValid : (e : Event) (s : System) → IsValid s.machine → IsValid (step e s).machine
unfolding step
step-IsValid (starts r mode) s v = start_sequence-IsValid r mode s.guard s.machine v
step-IsValid cancels s v = cancel_sequence-IsValid s.machine v
step-IsValid disables_fin s v = disable_fin_control-IsValid s.machine v
step-IsValid stops_liftoff s v = liftoff_detection_emergency_stop-IsValid s.machine v
step-IsValid (restores now_us c) s v = restore_after_reset-IsValid now_us c s.machine v
step-IsValid (ticks input safety) s v = tick-IsValid input safety s.guard s.machine v
step-IsValid (observes angle_rad valid_sample) s v = v
step-IsValid clears_fault s v = v

pub run-IsValid : (es : List Event) (s : System) → IsValid s.machine → IsValid (run es s).machine
unfolding run
run-IsValid [] s v = v
run-IsValid (e ∷ es) s v = run-IsValid es (step e s) (step-IsValid e s v)

-- After any history of events since boot the machine is valid: its state is a known one, flights
-- carry an epoch above 0, the liftoff time is valid exactly in EngineBurn, Control and Descent,
-- deployment has started only in Descent, and in Control the fin is enabled and was configured, no
-- re-entry is inhibited, and a finite roll reference with its estimator timestamp was captured.
pub run-boot-IsValid : (es : List Event) → IsValid (run es boot).machine
run-boot-IsValid es = run-IsValid es boot new-IsValid
