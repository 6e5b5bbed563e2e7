-- ===== src/Mission/Recovery.antt =====
-- mission/recovery.cpp: the marker that survives a deep sleep, the path that a boot takes, and the
-- recovery mode's own states.
pub mod Paths
mod Examples
use avi_99l_mission_board.Base.{
  ℕ, ◌+◌, ◌*◌, ◌^◌, ◌/◌, ◌≡◌, ◌≢◌, ◌↔◌, ◌⊎◌, inl, inr, refl, Bool, true, false, not, ◌&&◌, ◌||◌,
  List, [], ◌∷◌, ◌==◌, if◌then◌else◌, any_of, u16, arith,
}
use Prim.Native.Nat.{bit_xor}

pub data ResetKind : Type 0 where
  power_on software_or_watchdog deep_sleep : ResetKind

pub data BootPath : Type 0 where
  normal resume_flight_safely await_absolute_time recovery_only fail_safe : BootPath

pub record RecoveryMarker : Type 0 where
  pub magic : ℕ
  pub version : ℕ
  pub checksum : ℕ
  pub wake_sequence : ℕ
  pub entry_rtc_time_us : ℕ
  pub recovery_requested : Bool

pub record BootEvidence : Type 0 where
  pub reset_kind : ResetKind
  pub flight_checkpoint_valid : Bool
  pub rtc_elapsed_valid : Bool
  pub absolute_liftoff_time_valid : Bool
  pub current_absolute_time_valid : Bool
  pub recovery_wake_cause : Bool
  pub recovery_marker : RecoveryMarker

abbrev pub recovery_magic : ℕ
recovery_magic = 0x39394C52

abbrev pub recovery_version : ℕ
recovery_version = 2

-- `value ^= value >> 32; value ^= value >> 16; return static_cast<uint16_t>(value)`.
abbrev pub folded : ℕ → ℕ
folded value = let once = bit_xor value (value / 2 ^ 32) in u16 (bit_xor once (once / 2 ^ 16))

unfoldable pub recovery_marker_checksum : RecoveryMarker → ℕ
recovery_marker_checksum m = folded (
    bit_xor
      (bit_xor
        (bit_xor (bit_xor (bit_xor m.magic (m.version * 2 ^ 16)) m.wake_sequence)
          m.entry_rtc_time_us)
        (m.entry_rtc_time_us / 2 ^ 32))
      (if m.recovery_requested then 0xA55A_A55A else 0))

-- `ensureActive` writes the latch in the non-volatile storage; its result is not used.
module _ {Store : Type 0} (ensure_active : Store → Store × Bool) where
  unfoldable pub make_recovery_marker : ℕ → ℕ → Store → Store × RecoveryMarker
  make_recovery_marker wake_sequence entry_rtc_time_us store =
      let marker : RecoveryMarker = record {
        magic = recovery_magic;
        version = recovery_version;
        checksum = 0;
        wake_sequence = wake_sequence;
        entry_rtc_time_us = entry_rtc_time_us;
        recovery_requested = true;
      } in
      ((ensure_active store).0, record marker { checksum = recovery_marker_checksum marker })

unfoldable pub valid_recovery_marker : RecoveryMarker → Bool
valid_recovery_marker m =
    m.magic == recovery_magic
    && m.version == recovery_version
    && m.recovery_requested
    && m.checksum == recovery_marker_checksum m

abbrev pub is_deep_sleep : ResetKind → Bool
is_deep_sleep deep_sleep = true
is_deep_sleep _ = false

abbrev pub is_software_or_watchdog : ResetKind → Bool
is_software_or_watchdog software_or_watchdog = true
is_software_or_watchdog _ = false

unfoldable pub select_boot_path : BootEvidence → BootPath
select_boot_path e =
    if is_deep_sleep e.reset_kind
    then (if e.recovery_wake_cause && valid_recovery_marker e.recovery_marker
        then recovery_only
        else fail_safe)
    else if not e.flight_checkpoint_valid
    then normal
    else if is_software_or_watchdog e.reset_kind
    then (if e.rtc_elapsed_valid then resume_flight_safely else fail_safe)
    else if e.absolute_liftoff_time_valid && e.current_absolute_time_valid
    then resume_flight_safely
    else await_absolute_time

pub data RecoveryRuntimeState : Type 0 where
  inactive flushing_and_safeing ready_for_deep_sleep wake_command_window transfer_in_progress :
      RecoveryRuntimeState

abbrev pub is_inactive : RecoveryRuntimeState → Bool
is_inactive inactive = true
is_inactive _ = false

abbrev pub is_flushing : RecoveryRuntimeState → Bool
is_flushing flushing_and_safeing = true
is_flushing _ = false

abbrev pub is_window : RecoveryRuntimeState → Bool
is_window wake_command_window = true
is_window _ = false

abbrev pub is_transfer : RecoveryRuntimeState → Bool
is_transfer transfer_in_progress = true
is_transfer _ = false

abbrev pub is_ready : RecoveryRuntimeState → Bool
is_ready ready_for_deep_sleep = true
is_ready _ = false

unfoldable pub request_entry : RecoveryRuntimeState → RecoveryRuntimeState × Bool
request_entry s = if not (is_inactive s) then (s, false) else (flushing_and_safeing, true)

unfoldable pub mark_resources_safe_and_flushed : RecoveryRuntimeState → RecoveryRuntimeState × Bool
mark_resources_safe_and_flushed s =
    if not (is_flushing s) then (s, false) else (ready_for_deep_sleep, true)

unfoldable pub wake : Bool → Bool → RecoveryRuntimeState → RecoveryRuntimeState × Bool
wake marker_valid wake_cause_valid s =
    if not marker_valid || not wake_cause_valid then (s, false) else (wake_command_window, true)

unfoldable pub begin_transfer : RecoveryRuntimeState → RecoveryRuntimeState × Bool
begin_transfer s = if not (is_window s) then (s, false) else (transfer_in_progress, true)

unfoldable pub finish_transfer : RecoveryRuntimeState → RecoveryRuntimeState
finish_transfer s = if is_transfer s then ready_for_deep_sleep else s

unfoldable pub may_enter_deep_sleep : RecoveryRuntimeState → Bool
may_enter_deep_sleep s = is_ready s || is_window s
