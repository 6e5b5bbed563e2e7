-- ===== src/Mission/Machine/Examples.antt =====
-- Runs of the flight state machine (mission/mission_state.cpp): a launch, a deployment, a reset in
-- flight, and the theorems applied to them.
use avi_99l_mission_board.Base.{
  ℕ, ◌+◌, ◌-◌, ◌≤◌, ◌≡◌, ◌≢◌, ◌↔◌, ◌⊎◌, inl, inr, refl, Bool, true, false, List, [], ◌∷◌, arith,
}
use avi_99l_mission_board.Protocol.Types.{liftoff_detection, control, descent}
use avi_99l_mission_board.Mission.Snapshot.{
  PreflightReadinessSnapshot, normal, ControlAvailability, MissionTickInput, SafetyRequest,
  no_request, ResetCheckpoint, brake,
}
use avi_99l_mission_board.Mission.Machine.{MissionStateMachine}
use avi_99l_mission_board.Mission.Machine.Operations.{start_sequence, disable_fin_control}
use avi_99l_mission_board.Mission.Machine.Tick.{tick}
use avi_99l_mission_board.Mission.Machine.Invariant.{IsValid, new-IsValid}
use avi_99l_mission_board.Mission.Machine.Events.{
  Event, starts, disables_fin, restores, ticks, System, boot, step, run, run-boot-IsValid,
}
use avi_99l_mission_board.Mission.Machine.Deployment.{Flying, Due, tick-descent_iff}
use avi_99l_mission_board.Mission.Machine.Flight.{
  OnClock, Deployed, deadline_deploys, tick-elapsed_exact,
}
use avi_99l_mission_board.Mission.Machine.Outputs.{Directed, run-boot-Directed}
use avi_99l_mission_board.Mission.Machine.Entry.{
  EntryPermitted, tick-control_iff, PastControl, run-PastControl,
}
use avi_99l_mission_board.Mission.Machine.Reset.{Restorable, restored_brakes, restored_clock}

abbrev configured : PreflightReadinessSnapshot
configured = record {
  generation = 4;
  captured_at_us = 900_000;
  fin_zero_configured = true;
  motor_profile_valid = true;
  gyro_bias_valid = true;
  gravity_reference_valid = true;
  ssc_zero_valid = true;
  resources_preallocated = true;
}

abbrev all_ready : ℕ → ControlAvailability
all_ready at = record {
  fin_control_available = true;
  fin_zero_hold_valid = true;
  attitude_valid = true;
  airspeed_above_60 = true;
  lps_available = true;
  ssc_available = true;
  gyro_bias_valid = true;
  ssc_zero_valid = true;
  roll_estimate_liftoff_relative_unwrapped_rad = 0x3ff0_0000_0000_0000;
  roll_estimator_timestamp_us = at;
  attitude_fresh = true;
}

abbrev input_at : ℕ → Bool → MissionTickInput
input_at now_us lifted = record {
  monotonic_us = now_us;
  liftoff_detected = lifted;
  deployment_pressure_condition = false;
  control = all_ready now_us;
  control_tick = 7;
}

abbrev deploy_request : SafetyRequest
deploy_request = record { flight_epoch = 1; deploy = true; absolute_power_cutoff = false }

-- The liftoff is at 100 s: its detection comes one second later.
abbrev launch : List Event
launch = starts configured normal ∷ ticks (input_at 101_000_000 true) no_request ∷ []

abbrev on_pad : System
on_pad = run (starts configured normal ∷ []) boot

abbrev burning : System
burning = run launch boot

abbrev in_control : System
in_control = run (ticks (input_at 108_000_000 false) no_request ∷ []) burning

on_pad_state : on_pad.machine.snapshot.state ≡ liftoff_detection
unfolding run step start_sequence
on_pad_state = refl

burning_clock : OnClock 100_000_000 0 burning.machine
unfolding run step start_sequence tick
burning_clock = record {
  airborne = refl;
  liftoff_time = refl;
  offset_time = refl;
  descent_deployed = λ h. ground arith;
}

abbrev after : MissionTickInput → SafetyRequest → System → MissionStateMachine
after input safety s = (tick input safety s.guard s.machine).1

-- A flight that is left to itself from the liftoff is in Descent 17 s after it.
deadline_deploys_example :
    Deployed
      (step (ticks (input_at 117_000_000 false) no_request) (
        run
          (ticks (input_at 108_000_000 false) no_request ∷ disables_fin ∷ [])
          (step (ticks (input_at 101_000_000 true) no_request) on_pad))).machine
deadline_deploys_example =
    deadline_deploys on_pad (input_at 101_000_000 true) (input_at 117_000_000 false) no_request
      no_request (ticks (input_at 108_000_000 false) no_request ∷ disables_fin ∷ [])
      (run-boot-IsValid (starts configured normal ∷ [])) on_pad_state refl (tt, (tt, tt))
      (omega arith) (omega arith)

tick-descent_iff_example :
    ((after (input_at 103_000_000 false) deploy_request burning).snapshot.state ≡ descent) ↔ (
      (burning.machine.snapshot.state ≡ descent)
      ⊎ (Flying (input_at 103_000_000 false) burning.machine
          × Due
              (input_at 103_000_000 false)
              deploy_request
              burning.machine
              (after (input_at 103_000_000 false) deploy_request burning).snapshot.elapsed_us))
tick-descent_iff_example =
    tick-descent_iff (input_at 103_000_000 false) deploy_request burning.guard burning.machine
      (run-boot-IsValid launch)

run-boot-IsValid_example : IsValid (run launch boot).machine
run-boot-IsValid_example = run-boot-IsValid launch

run-boot-Directed_example : Directed (run launch boot).machine
run-boot-Directed_example = run-boot-Directed launch

burning_outside : burning.machine.snapshot.state ≢ control
unfolding run step start_sequence tick
burning_outside h = ground arith

tick-control_iff_example :
    ((after (input_at 108_000_000 false) no_request burning).snapshot.state ≡ control) ↔ (
      EntryPermitted (input_at 108_000_000 false) burning.machine
      × (burning.guard.fault_latched ≡ false)
      × (8_000_000 ≤ (after (input_at 108_000_000 false) no_request burning).snapshot.elapsed_us)
      × (¬ Due
          (input_at 108_000_000 false)
          no_request
          burning.machine
          (after (input_at 108_000_000 false) no_request burning).snapshot.elapsed_us))
tick-control_iff_example =
    tick-control_iff (input_at 108_000_000 false) no_request burning.guard burning.machine
      (run-boot-IsValid launch) burning_outside

-- Control left for a disabled fin.
abbrev disabled : System
disabled = run (disables_fin ∷ []) in_control

disabled_past : PastControl disabled.machine
unfolding run step start_sequence tick disable_fin_control
disabled_past = record { airborne = refl; evaluated = refl; outside = λ h. ground arith }

run-PastControl_example :
    PastControl (run (ticks (input_at 109_000_000 false) no_request ∷ []) disabled).machine
run-PastControl_example =
    run-PastControl (ticks (input_at 109_000_000 false) no_request ∷ []) disabled (tt, tt)
      disabled_past

tick-elapsed_exact_example :
    (after (input_at 103_500_000 false) no_request burning).snapshot.elapsed_us
    ≡ 0 + (103_500_000 - 100_000_000)
tick-elapsed_exact_example =
    tick-elapsed_exact (input_at 103_500_000 false) no_request burning.guard burning.machine
      (run-boot-IsValid launch) burning_clock (omega arith) (omega arith)

abbrev in_air : ResetCheckpoint
in_air = record {
  valid = true;
  state = control;
  flight_epoch = 1;
  elapsed_valid = true;
  elapsed_us = 9_000_000;
  deployment_started = false;
  power_cutoff_latched = false;
  forced_start = false;
  preflight_generation = 4;
  preflight_captured_at_us = 900_000;
  preflight_ready_mask = 31;
  preflight_missing_mask = 0;
}

in_air_flies : Restorable in_air × (in_air.state ≢ liftoff_detection)
in_air_flies = ((refl, (λ h. ground arith), inr (refl, inr (inl refl))), (λ h. ground arith))

restored_brakes_example :
    ((run
        (ticks (input_at 60_000 false) no_request ∷ [])
        (step (restores 50_000 in_air) boot)).machine.snapshot.state
      ≢ control)
    × ((run
          (ticks (input_at 60_000 false) no_request ∷ [])
          (step (restores 50_000 in_air) boot)).machine.snapshot.fin
        ≡ brake)
restored_brakes_example =
    restored_brakes 50_000 in_air boot (ticks (input_at 60_000 false) no_request ∷ []) in_air_flies
      (tt, tt)

abbrev resumed : System
resumed = run (ticks (input_at 60_000 false) no_request ∷ []) (step (restores 50_000 in_air) boot)

restored_clock_example :
    (after (input_at 70_000 false) no_request resumed).snapshot.elapsed_us
    ≡ 9_000_000 + (70_000 - 50_000)
restored_clock_example =
    restored_clock 50_000 in_air boot (ticks (input_at 60_000 false) no_request ∷ [])
      (input_at 70_000 false) no_request new-IsValid in_air_flies (λ h. ground arith) (tt, tt)
      (omega arith) (omega arith)
