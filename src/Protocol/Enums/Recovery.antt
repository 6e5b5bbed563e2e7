-- ===== src/Protocol/Enums/Recovery.antt =====
-- protocol/can_protocol.hpp: the bytes of the enumerations, the recovery messages.
use avi_99l_mission_board.Base.{ℕ, ◌≡◌, refl, Option, none, some, ◌==◌, if◌then◌else◌, arith}

pub data RecoveryOpcode : Type 0 where
  wake start_log_dump stop_log_dump : RecoveryOpcode

abbrev pub recovery_opcode_code : RecoveryOpcode → ℕ
recovery_opcode_code RecoveryOpcode.wake = 1
recovery_opcode_code RecoveryOpcode.start_log_dump = 2
recovery_opcode_code RecoveryOpcode.stop_log_dump = 3

unfoldable pub recovery_opcode_of : ℕ → Option RecoveryOpcode
recovery_opcode_of b =
    if b == 1
    then some RecoveryOpcode.wake
    else if b == 2
    then some RecoveryOpcode.start_log_dump
    else if b == 3
    then some RecoveryOpcode.stop_log_dump
    else none

pub recovery_opcode_of-code :
    (x : RecoveryOpcode) → recovery_opcode_of (recovery_opcode_code x) ≡ some x
unfolding recovery_opcode_of
recovery_opcode_of-code RecoveryOpcode.wake = refl
recovery_opcode_of-code RecoveryOpcode.start_log_dump = refl
recovery_opcode_of-code RecoveryOpcode.stop_log_dump = refl

pub recovery_opcode_code-of :
    (b : ℕ) {x : RecoveryOpcode} → recovery_opcode_of b ≡ some x → recovery_opcode_code x ≡ b
unfolding recovery_opcode_of
recovery_opcode_code-of b h = ground arith

pub data RecoveryMode : Type 0 where
  enter_recovery_beacon : RecoveryMode

abbrev pub recovery_mode_code : RecoveryMode → ℕ
recovery_mode_code RecoveryMode.enter_recovery_beacon = 1

unfoldable pub recovery_mode_of : ℕ → Option RecoveryMode
recovery_mode_of b = if b == 1 then some RecoveryMode.enter_recovery_beacon else none

pub recovery_mode_of-code : (x : RecoveryMode) → recovery_mode_of (recovery_mode_code x) ≡ some x
unfolding recovery_mode_of
recovery_mode_of-code RecoveryMode.enter_recovery_beacon = refl

pub recovery_mode_code-of :
    (b : ℕ) {x : RecoveryMode} → recovery_mode_of b ≡ some x → recovery_mode_code x ≡ b
unfolding recovery_mode_of
recovery_mode_code-of b h = ground arith

pub data RecoveryModeReason : Type 0 where
  auto_elapsed_120 ground_requested recovery_wake_retry reset_recovery : RecoveryModeReason

abbrev pub recovery_mode_reason_code : RecoveryModeReason → ℕ
recovery_mode_reason_code RecoveryModeReason.auto_elapsed_120 = 0
recovery_mode_reason_code RecoveryModeReason.ground_requested = 1
recovery_mode_reason_code RecoveryModeReason.recovery_wake_retry = 2
recovery_mode_reason_code RecoveryModeReason.reset_recovery = 3

unfoldable pub recovery_mode_reason_of : ℕ → Option RecoveryModeReason
recovery_mode_reason_of b =
    if b == 0
    then some RecoveryModeReason.auto_elapsed_120
    else if b == 1
    then some RecoveryModeReason.ground_requested
    else if b == 2
    then some RecoveryModeReason.recovery_wake_retry
    else if b == 3
    then some RecoveryModeReason.reset_recovery
    else none

pub recovery_mode_reason_of-code :
    (x : RecoveryModeReason) → recovery_mode_reason_of (recovery_mode_reason_code x) ≡ some x
unfolding recovery_mode_reason_of
recovery_mode_reason_of-code RecoveryModeReason.auto_elapsed_120 = refl
recovery_mode_reason_of-code RecoveryModeReason.ground_requested = refl
recovery_mode_reason_of-code RecoveryModeReason.recovery_wake_retry = refl
recovery_mode_reason_of-code RecoveryModeReason.reset_recovery = refl

pub recovery_mode_reason_code-of :
    (b : ℕ) {x : RecoveryModeReason}
    → recovery_mode_reason_of b ≡ some x
    → recovery_mode_reason_code x ≡ b
unfolding recovery_mode_reason_of
recovery_mode_reason_code-of b h = ground arith

pub data RecoverySource : Type 0 where
  internal_flash mission_sd_latest_flight : RecoverySource

abbrev pub recovery_source_code : RecoverySource → ℕ
recovery_source_code RecoverySource.internal_flash = 0
recovery_source_code RecoverySource.mission_sd_latest_flight = 1

unfoldable pub recovery_source_of : ℕ → Option RecoverySource
recovery_source_of b =
    if b == 0
    then some RecoverySource.internal_flash
    else if b == 1
    then some RecoverySource.mission_sd_latest_flight
    else none

pub recovery_source_of-code :
    (x : RecoverySource) → recovery_source_of (recovery_source_code x) ≡ some x
unfolding recovery_source_of
recovery_source_of-code RecoverySource.internal_flash = refl
recovery_source_of-code RecoverySource.mission_sd_latest_flight = refl

pub recovery_source_code-of :
    (b : ℕ) {x : RecoverySource} → recovery_source_of b ≡ some x → recovery_source_code x ≡ b
unfolding recovery_source_of
recovery_source_code-of b h = ground arith

pub data RecoveryStatusCode : Type 0 where
  ready dumping complete busy invalid_state invalid_argument : RecoveryStatusCode
  source_unavailable io_error aborted internal_error : RecoveryStatusCode

abbrev pub recovery_status_code : RecoveryStatusCode → ℕ
recovery_status_code RecoveryStatusCode.ready = 0
recovery_status_code RecoveryStatusCode.dumping = 1
recovery_status_code RecoveryStatusCode.complete = 2
recovery_status_code RecoveryStatusCode.busy = 3
recovery_status_code RecoveryStatusCode.invalid_state = 4
recovery_status_code RecoveryStatusCode.invalid_argument = 5
recovery_status_code RecoveryStatusCode.source_unavailable = 6
recovery_status_code RecoveryStatusCode.io_error = 7
recovery_status_code RecoveryStatusCode.aborted = 8
recovery_status_code RecoveryStatusCode.internal_error = 9

unfoldable pub recovery_status_of : ℕ → Option RecoveryStatusCode
recovery_status_of b =
    if b == 0
    then some RecoveryStatusCode.ready
    else if b == 1
    then some RecoveryStatusCode.dumping
    else if b == 2
    then some RecoveryStatusCode.complete
    else if b == 3
    then some RecoveryStatusCode.busy
    else if b == 4
    then some RecoveryStatusCode.invalid_state
    else if b == 5
    then some RecoveryStatusCode.invalid_argument
    else if b == 6
    then some RecoveryStatusCode.source_unavailable
    else if b == 7
    then some RecoveryStatusCode.io_error
    else if b == 8
    then some RecoveryStatusCode.aborted
    else if b == 9
    then some RecoveryStatusCode.internal_error
    else none

pub recovery_status_of-code :
    (x : RecoveryStatusCode) → recovery_status_of (recovery_status_code x) ≡ some x
unfolding recovery_status_of
recovery_status_of-code RecoveryStatusCode.ready = refl
recovery_status_of-code RecoveryStatusCode.dumping = refl
recovery_status_of-code RecoveryStatusCode.complete = refl
recovery_status_of-code RecoveryStatusCode.busy = refl
recovery_status_of-code RecoveryStatusCode.invalid_state = refl
recovery_status_of-code RecoveryStatusCode.invalid_argument = refl
recovery_status_of-code RecoveryStatusCode.source_unavailable = refl
recovery_status_of-code RecoveryStatusCode.io_error = refl
recovery_status_of-code RecoveryStatusCode.aborted = refl
recovery_status_of-code RecoveryStatusCode.internal_error = refl

pub recovery_status_code-of :
    (b : ℕ) {x : RecoveryStatusCode} → recovery_status_of b ≡ some x → recovery_status_code x ≡ b
unfolding recovery_status_of
recovery_status_code-of b h = ground arith
