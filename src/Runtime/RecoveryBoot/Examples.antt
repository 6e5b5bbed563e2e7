-- ===== src/Runtime/RecoveryBoot/Examples.antt =====
-- A reset ten seconds after a liftoff, and three sleeps of the recovery mode.
use avi_99l_mission_board.Base.{
  ℕ, ◌+◌, ◌-◌, ◌%◌, ◌^◌, ◌≤◌, ◌<◌, ◌≡◌, ◌≢◌, refl, Bool, true, false, some, List, [], ◌∷◌, arith,
}
use avi_99l_mission_board.Protocol.Types.{command_receive}
use avi_99l_mission_board.Mission.Snapshot.{
  PreflightReadinessSnapshot, forced, ControlAvailability, MissionTickInput, no_request,
  ResetCheckpoint, completed,
}
use avi_99l_mission_board.Mission.Machine.{new}
use avi_99l_mission_board.Mission.Machine.Operations.{start_sequence, restore_after_reset}
use avi_99l_mission_board.Mission.Machine.Tick.{tick}
use avi_99l_mission_board.Mission.Machine.Events.{Event, starts, ticks, boot, step, run}
use avi_99l_mission_board.Mission.Recovery.{
  deep_sleep, recovery_only, RecoveryMarker, BootEvidence, valid_recovery_marker, select_boot_path,
}
use avi_99l_mission_board.Runtime.RecoveryBoot.{
  FlightCheckpointRecord, complete_masks, reset_preserves_rtc_memory, load_flight_checkpoint,
  store_flight_checkpoint, commit_recovery_entry_marker, valid_flight_checkpoint, flight_record,
  checkpoint_of, checkpoint_checksum,
}
use avi_99l_mission_board.Runtime.RecoveryBoot.Checkpoint.{
  Continued, load-Restorable, store-load-restore,
}
use avi_99l_mission_board.Runtime.RecoveryBoot.Marker.{Entered, sleeps, commit-sleeps}

abbrev readiness : PreflightReadinessSnapshot
readiness = record {
  generation = 4;
  captured_at_us = 900_000;
  fin_zero_configured = true;
  motor_profile_valid = false;
  gyro_bias_valid = true;
  gravity_reference_valid = true;
  ssc_zero_valid = true;
  resources_preallocated = true;
}

abbrev no_control : ControlAvailability
no_control = record {
  fin_control_available = false;
  fin_zero_hold_valid = false;
  attitude_valid = false;
  airspeed_above_60 = false;
  lps_available = false;
  ssc_available = false;
  gyro_bias_valid = false;
  ssc_zero_valid = false;
  roll_estimate_liftoff_relative_unwrapped_rad = 0;
  roll_estimator_timestamp_us = 0;
  attitude_fresh = false;
}

abbrev input_at : ℕ → Bool → MissionTickInput
input_at now_us lifted = record {
  monotonic_us = now_us;
  liftoff_detected = lifted;
  deployment_pressure_condition = false;
  control = no_control;
  control_tick = 7;
}

abbrev launch : List Event
launch =
    starts readiness forced
    ∷ ticks (input_at 101_000_000 true) no_request
    ∷ ticks (input_at 103_000_000 false) no_request
    ∷ []

abbrev reason : ℕ
reason = 3

abbrev power_on_reason : ℕ
power_on_reason = 1

abbrev deep_sleep_reason : ℕ
deep_sleep_reason = 8

abbrev entry_us : ℕ
entry_us = 5_000_000

-- 1 and 8 for the two reset reasons, 3 for the one that happened.
kept : reset_preserves_rtc_memory 1 8 3 ≡ true
unfolding reset_preserves_rtc_memory
kept = refl

flying : (run launch boot).machine.snapshot.state ≢ command_receive
unfolding run step start_sequence tick
flying = ground arith

time_fits : (run launch boot).machine.snapshot.elapsed_us + (57_000 - 50_000) < 2 ^ 64
unfolding run step start_sequence tick
time_fits = omega arith

rtc_order : 50_000 ≤ 57_000
rtc_order = omega arith

store-load-restore_example :
    (c : ResetCheckpoint) × (load_flight_checkpoint 1 8 3 57_000
        (store_flight_checkpoint 50_000 (run launch boot).machine.snapshot)
      ≡ some c)
    × Continued 1 8 3 57_000 50_000 (run launch boot).machine.snapshot c
    × ((restore_after_reset 2_000 c new).1 ≡ completed)
store-load-restore_example =
    store-load-restore 1 8 3 57_000 launch 50_000 2_000 new (tt, (tt, (tt, tt))) flying kept
      rtc_order time_fits

abbrev stored : FlightCheckpointRecord
stored = store_flight_checkpoint 50_000 (run launch boot).machine.snapshot

abbrev loaded : ResetCheckpoint
loaded = checkpoint_of stored 3_007_000

stored_loads : load_flight_checkpoint 1 8 3 57_000 stored ≡ some loaded
unfolding load_flight_checkpoint run step start_sequence tick store_flight_checkpoint
    reset_preserves_rtc_memory valid_flight_checkpoint flight_record complete_masks
    checkpoint_checksum
stored_loads = refl

load-Restorable_example :
    ((restore_after_reset 2_000 loaded new).1 ≡ completed)
    × (complete_masks loaded.preflight_ready_mask loaded.preflight_missing_mask ≡ true)
    × (reason ≢ power_on_reason)
    × (reason ≢ deep_sleep_reason)
    × (stored.elapsed_us < 2 ^ 64 → stored.elapsed_us ≤ loaded.elapsed_us)
load-Restorable_example = load-Restorable 1 8 3 57_000 stored loaded new 2_000 stored_loads

-- A storage of one flag, which takes every write.
abbrev set_flag : Bool → Bool × Bool
set_flag flag = (true, true)

abbrev no_marker : RecoveryMarker
no_marker = record {
  magic = 0;
  version = 0;
  checksum = 0;
  wake_sequence = 0;
  entry_rtc_time_us = 0;
  recovery_requested = false;
}

abbrev entered : Bool × RecoveryMarker × Bool
entered = commit_recovery_entry_marker set_flag 5_000_000 no_marker false

abbrev last : RecoveryMarker
last = (sleeps set_flag 3 entered.1 entered.0).1

abbrev woken : BootEvidence
woken = record {
  reset_kind = deep_sleep;
  flight_checkpoint_valid = true;
  rtc_elapsed_valid = true;
  absolute_liftoff_time_valid = false;
  current_absolute_time_valid = false;
  recovery_wake_cause = true;
  recovery_marker = last;
}

no_marker_yet : valid_recovery_marker no_marker ≡ false
unfolding valid_recovery_marker
no_marker_yet = refl

clock_runs : entry_us ≢ 0
clock_runs = ground arith

commit-sleeps_example :
    (entered.2 ≡ true)
    × Entered set_flag 5_000_000 (3 % 2 ^ 32) last
    × (select_boot_path woken ≡ recovery_only)
commit-sleeps_example =
    commit-sleeps set_flag 3 5_000_000 no_marker false woken no_marker_yet clock_runs refl refl refl
