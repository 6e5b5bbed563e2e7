-- ===== src/Runtime/RecoveryBoot.antt =====
-- runtime/recovery_boot.cpp: the three records that the RTC memory keeps over a reset.
pub mod Marker
pub mod Masks
pub mod Checkpoint
pub mod Audit
mod Examples
use Prim.Native.Nat.{bit_xor, bit_or, bit_and}
use avi_99l_mission_board.Base.{
  ℕ, ◌+◌, ◌-◌, ◌*◌, ◌/◌, ◌^◌, ◌%◌, ◌≡◌, Bool, true, false, not, ◌&&◌, ◌||◌, Option, none, some,
  ◌==◌, ltb, leb, if◌then◌else◌, add64, u32,
}
use avi_99l_mission_board.Protocol.Types.{MissionState, command_receive, liftoff_detection, unknown}
use avi_99l_mission_board.Protocol.Enums.Mission.{mission_state_code, mission_state_of}
use avi_99l_mission_board.Mission.Snapshot.{
  MissionSnapshot, PreflightReadinessSnapshot, ResetCheckpoint, ready_mask, missing_mask,
}
use avi_99l_mission_board.Mission.Recovery.{
  RecoveryMarker, folded, make_recovery_marker, valid_recovery_marker,
}

pub record FlightCheckpointRecord : Type 0 where
  pub magic : ℕ
  pub version : ℕ
  pub checksum : ℕ
  pub flight_epoch : ℕ
  pub elapsed_us : ℕ
  pub rtc_time_us : ℕ
  pub preflight_captured_at_us : ℕ
  pub preflight_generation : ℕ
  pub state : ℕ
  pub preflight_ready_mask : ℕ
  pub preflight_missing_mask : ℕ
  pub elapsed_valid : Bool
  pub deployment_started : Bool
  pub power_cutoff_latched : Bool
  pub forced_start : Bool

pub record StartReadinessAuditRecord : Type 0 where
  pub magic : ℕ
  pub version : ℕ
  pub ready_mask : ℕ
  pub missing_mask : ℕ
  pub forced : Bool
  pub generation : ℕ
  pub captured_at_us : ℕ
  pub checksum : ℕ

pub record StartReadinessAudit : Type 0 where
  pub valid : Bool
  pub forced : Bool
  pub generation : ℕ
  pub captured_at_us : ℕ
  pub ready_mask : ℕ
  pub missing_mask : ℕ

abbrev pub checkpoint_magic : ℕ
checkpoint_magic = 0x39394C43

abbrev pub checkpoint_version : ℕ
checkpoint_version = 2

abbrev pub audit_magic : ℕ
audit_magic = 0x39395341

abbrev pub audit_version : ℕ
audit_version = 1

-- `{}` of each record.
abbrev pub no_checkpoint_record : FlightCheckpointRecord
no_checkpoint_record = record {
  magic = 0;
  version = 0;
  checksum = 0;
  flight_epoch = 0;
  elapsed_us = 0;
  rtc_time_us = 0;
  preflight_captured_at_us = 0;
  preflight_generation = 0;
  state = 0;
  preflight_ready_mask = 0;
  preflight_missing_mask = 0;
  elapsed_valid = false;
  deployment_started = false;
  power_cutoff_latched = false;
  forced_start = false;
}

abbrev pub no_audit_record : StartReadinessAuditRecord
no_audit_record = record {
  magic = 0;
  version = 0;
  ready_mask = 0;
  missing_mask = 0;
  forced = false;
  generation = 0;
  captured_at_us = 0;
  checksum = 0;
}

abbrev pub flag : Bool → ℕ → ℕ
flag b value = if b then value else 0

unfoldable pub start_readiness_audit_checksum : StartReadinessAuditRecord → ℕ
start_readiness_audit_checksum r = folded (
    bit_xor
      (bit_xor
        (bit_xor
          (bit_xor
            (bit_xor (bit_xor (bit_xor r.magic (r.version * 2 ^ 24)) (r.ready_mask * 2 ^ 16))
              (r.missing_mask * 2 ^ 8))
            r.generation)
          r.captured_at_us)
        (r.captured_at_us / 2 ^ 32))
      (if r.forced then 0x5AA5 else 0xA55A))

-- The five bits are each in one of the masks.
unfoldable pub complete_masks : (ready missing : ℕ) → Bool
complete_masks ready missing =
    (bit_and (bit_or ready missing) 0x1F == 0x1F) && (bit_and ready missing == 0)

unfoldable pub valid_start_readiness_audit : StartReadinessAuditRecord → Bool
valid_start_readiness_audit r =
    r.magic == audit_magic
    && r.version == audit_version
    && not (r.generation == 0)
    && complete_masks r.ready_mask r.missing_mask
    && r.checksum == start_readiness_audit_checksum r

unfoldable pub checkpoint_checksum : FlightCheckpointRecord → ℕ
checkpoint_checksum r =
    let header = bit_xor (bit_xor r.magic (r.version * 2 ^ 16)) r.flight_epoch in
    let times =
      bit_xor
        (bit_xor
          (bit_xor
            (bit_xor (bit_xor (bit_xor header r.elapsed_us) (r.elapsed_us / 2 ^ 32)) r.rtc_time_us)
            (r.rtc_time_us / 2 ^ 32))
          r.preflight_captured_at_us)
        (r.preflight_captured_at_us / 2 ^ 32) in
    let masks =
      bit_xor
        (bit_xor (bit_xor (bit_xor times r.preflight_generation) (r.state * 2 ^ 24))
          (r.preflight_ready_mask * 2 ^ 8))
        r.preflight_missing_mask in
    folded (
      bit_xor
        (bit_xor
          (bit_xor (bit_xor masks (flag r.elapsed_valid 0xA55A)) (flag r.deployment_started 0x5AA5))
          (flag r.power_cutoff_latched 0x9696))
        (flag r.forced_start 0xC33C))

unfoldable pub valid_flight_checkpoint : FlightCheckpointRecord → Bool
valid_flight_checkpoint r =
    r.magic == checkpoint_magic
    && r.version == checkpoint_version
    && not (r.flight_epoch == 0)
    && (r.state == 1 || r.state == 2 || r.state == 3 || r.state == 4)
    && (if r.state == 1 then not r.elapsed_valid else r.elapsed_valid)
    && complete_masks r.preflight_ready_mask r.preflight_missing_mask
    && r.checksum == checkpoint_checksum r

-- `static_cast<MissionState>`. A byte that is no state does not pass `validFlightCheckpoint`.
unfoldable pub state_of : ℕ → MissionState
unfolding mission_state_of
state_of byte = elim (mission_state_of byte) [ some state ↦ state | none ↦ unknown ]

abbrev pub is_command_receive : MissionState → Bool
is_command_receive state = mission_state_code state == 0

abbrev pub is_pre_liftoff : MissionState → Bool
is_pre_liftoff state = mission_state_code state == 1

-- The record of a snapshot, before and after its checksum is set.
unfoldable pub flight_record : (rtc_now_us : ℕ) → MissionSnapshot → FlightCheckpointRecord
flight_record rtc_now_us s = record {
  magic = checkpoint_magic;
  version = checkpoint_version;
  checksum = 0;
  flight_epoch = s.flight_epoch;
  elapsed_us = if is_pre_liftoff s.state then 0 else s.elapsed_us;
  rtc_time_us = rtc_now_us;
  preflight_captured_at_us = s.preflight_captured_at_us;
  preflight_generation = s.preflight_generation;
  state = mission_state_code s.state;
  preflight_ready_mask = s.preflight_ready_mask;
  preflight_missing_mask = s.preflight_missing_mask;
  elapsed_valid = not (is_pre_liftoff s.state);
  deployment_started = s.deployment_started;
  power_cutoff_latched = s.deployment_power_cutoff_latched;
  forced_start = s.forced_start;
}

abbrev pub sealed : FlightCheckpointRecord → FlightCheckpointRecord
sealed r = record r { checksum = checkpoint_checksum r }

-- What `storeFlightCheckpoint` writes; the record is empty when there is no flight to take up.
unfoldable pub store_flight_checkpoint : (rtc_now_us : ℕ) → MissionSnapshot → FlightCheckpointRecord
store_flight_checkpoint rtc_now_us s =
    if s.flight_epoch == 0 || is_command_receive s.state
    then no_checkpoint_record
    else if not (is_pre_liftoff s.state) && not s.liftoff_time_valid
    then no_checkpoint_record
    else sealed (flight_record rtc_now_us s)

-- What `storeStartReadinessAudit` writes.
unfoldable pub store_start_readiness_audit :
    PreflightReadinessSnapshot → (forced : Bool) → StartReadinessAuditRecord
store_start_readiness_audit readiness forced =
    let written : StartReadinessAuditRecord = record {
      magic = audit_magic;
      version = audit_version;
      ready_mask = ready_mask readiness;
      missing_mask = missing_mask readiness;
      forced = forced;
      generation = readiness.generation;
      captured_at_us = readiness.captured_at_us;
      checksum = 0;
    } in
    record written { checksum = start_readiness_audit_checksum written }

-- The checkpoint of a record, with the flight time that is worked out for it.
unfoldable pub checkpoint_of : FlightCheckpointRecord → (elapsed : ℕ) → ResetCheckpoint
checkpoint_of r elapsed = record {
  valid = true;
  state = state_of r.state;
  flight_epoch = r.flight_epoch;
  elapsed_valid = r.elapsed_valid;
  elapsed_us = elapsed;
  deployment_started = r.deployment_started;
  power_cutoff_latched = r.power_cutoff_latched;
  forced_start = r.forced_start;
  preflight_generation = r.preflight_generation;
  preflight_captured_at_us = r.preflight_captured_at_us;
  preflight_ready_mask = r.preflight_ready_mask;
  preflight_missing_mask = r.preflight_missing_mask;
}

-- The two reset reasons after which the RTC memory is not read, as the chip's library numbers them.
module _ (esp_rst_poweron esp_rst_deepsleep : ℕ) where
  unfoldable pub reset_preserves_rtc_memory : (reason : ℕ) → Bool
  reset_preserves_rtc_memory reason =
      not (reason == esp_rst_poweron) && not (reason == esp_rst_deepsleep)

  -- `none` where the code returns false and leaves the caller's checkpoint empty.
  unfoldable pub load_flight_checkpoint :
      (reason rtc_now_us : ℕ) → FlightCheckpointRecord → Option ResetCheckpoint
  load_flight_checkpoint reason rtc_now_us r =
      let reset_elapsed_us = rtc_now_us - r.rtc_time_us in
      if not (reset_preserves_rtc_memory reason) || not (valid_flight_checkpoint r)
      then none
      else if not r.elapsed_valid
      then some (checkpoint_of r r.elapsed_us)
      else if ltb rtc_now_us r.rtc_time_us
      then none
      else if ltb (2 ^ 64 - 1 - r.elapsed_us) reset_elapsed_us
      then none
      else some (checkpoint_of r (add64 r.elapsed_us reset_elapsed_us))

  unfoldable pub load_start_readiness_audit :
      (reason : ℕ) → StartReadinessAuditRecord → Option StartReadinessAudit
  load_start_readiness_audit reason r =
      if not (reset_preserves_rtc_memory reason) || not (valid_start_readiness_audit r)
      then none
      else some (record {
        valid = true;
        forced = r.forced;
        generation = r.generation;
        captured_at_us = r.captured_at_us;
        ready_mask = r.ready_mask;
        missing_mask = r.missing_mask;
      })

-- The marker that is kept, and whether it is written.
unfoldable pub wake_sequence : RecoveryMarker → ℕ
wake_sequence m = if valid_recovery_marker m then m.wake_sequence else 0

module _ {Store : Type 0} (ensure_active : Store → Store × Bool) where
  unfoldable pub commit_recovery_entry_marker :
      (rtc_now_us : ℕ) → RecoveryMarker → Store → Store × RecoveryMarker × Bool
  commit_recovery_entry_marker rtc_now_us m store =
      if valid_recovery_marker m && not (m.entry_rtc_time_us == 0)
      then (store, m, true)
      else if rtc_now_us == 0
      then (store, m, false)
      else (let made = make_recovery_marker ensure_active 0 rtc_now_us store in
          (
            made.0,
            made.1,
            valid_recovery_marker made.1 && (made.1.entry_rtc_time_us == rtc_now_us),
          ))

  unfoldable pub prepare_marker : RecoveryMarker → Store → Store × RecoveryMarker
  prepare_marker m store =
      if not (valid_recovery_marker m) || m.entry_rtc_time_us == 0
      then (store, m)
      else make_recovery_marker ensure_active (u32 (wake_sequence m + 1)) m.entry_rtc_time_us store
