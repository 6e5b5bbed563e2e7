-- ===== src/Characterization/CommandJournal.antt =====
-- characterization/command_journal.cpp: `CommandJournal`, which sends the motor commands to the driver
-- and keeps the evidence of what was asked and what was done.
pub mod Cases
pub mod Safety
mod Sent
mod Outcome
mod Examples
use avi_99l_mission_board.Base.{
  ℕ, ◌+◌, ◌≡◌, Bool, true, false, not, ◌&&◌, ◌||◌, ◌==◌, leb, if◌then◌else◌, add64,
}
use avi_99l_mission_board.Base.Int.{ℤ, pos, is_zero, abs, ◌=ℤ◌}
use avi_99l_mission_board.Characterization.Types.{
  MotorMode, coast, brake, same_mode, motor_mode_matches_command, MotorCommandRequest,
  coast_request, maximum_command_permille,
}

-- `esp_err_t`.
abbrev pub EspErr : Type 0
EspErr = ℤ

abbrev pub esp_ok : EspErr
esp_ok = pos 0

abbrev pub esp_err_invalid_arg : EspErr
esp_err_invalid_arg = pos 0x102

abbrev pub esp_err_invalid_state : EspErr
esp_err_invalid_state = pos 0x103

pub record MotorCommandApplied : Type 0 where
  pub applied_command_permille : ℤ
  pub applied_mode : MotorMode
  pub result_code : EspErr
  pub command_apply_timestamp_us : ℕ

pub record ImmutableCommandEvidence : Type 0 where
  pub command_generation : ℕ
  pub requested_command_permille : ℤ
  pub requested_motor_mode : MotorMode
  pub applied_command_permille : ℤ
  pub applied_motor_mode : MotorMode
  pub apply_result_code : EspErr
  pub command_apply_timestamp_us : ℕ
  pub logger_snapshot_timestamp_us : ℕ

-- `bound` is whether the callback is not null.
pub record CommandJournal : Type 0 where
  pub bound : Bool
  pub next_generation : ℕ
  pub current : ImmutableCommandEvidence
  pub current_applied : MotorCommandApplied
  pub armed : Bool

abbrev pub no_evidence : ImmutableCommandEvidence
no_evidence = record {
  command_generation = 0;
  requested_command_permille = pos 0;
  requested_motor_mode = coast;
  applied_command_permille = pos 0;
  applied_motor_mode = coast;
  apply_result_code = esp_ok;
  command_apply_timestamp_us = 0;
  logger_snapshot_timestamp_us = 0;
}

abbrev pub new : CommandJournal
new = record {
  bound = false;
  next_generation = 1;
  current = no_evidence;
  current_applied = record {
    applied_command_permille = pos 0;
    applied_mode = coast;
    result_code = esp_ok;
    command_apply_timestamp_us = 0;
  };
  armed = false;
}

-- A callback is bound, the null pointer when `given` is false.
unfoldable pub bind : Bool → CommandJournal → CommandJournal
bind given j = record j { bound = given }

unfoldable pub arm : CommandJournal → CommandJournal × EspErr
arm j =
    if j.armed || not j.bound
    then (j, esp_err_invalid_state)
    else (record j { armed = true }, esp_ok)

unfoldable pub request_already_applied : MotorCommandRequest → CommandJournal → Bool
request_already_applied request j =
    not (j.current.command_generation == 0)
    && is_zero j.current.apply_result_code
    && is_zero j.current_applied.result_code
    && (j.current.requested_command_permille =ℤ request.command_permille)
    && same_mode j.current.requested_motor_mode request.mode
    && (j.current.applied_command_permille =ℤ request.command_permille)
    && same_mode j.current.applied_motor_mode request.mode
    && (j.current_applied.applied_command_permille =ℤ request.command_permille)
    && same_mode j.current_applied.applied_mode request.mode

unfoldable pub snapshot : ℕ → CommandJournal → ImmutableCommandEvidence
snapshot logger_snapshot_us j = record j.current {
  logger_snapshot_timestamp_us = logger_snapshot_us;
}

-- The test of a request by `apply` and `rejectAndCoast`.
unfoldable pub valid_request : MotorCommandRequest → Bool
valid_request request =
    motor_mode_matches_command request.command_permille request.mode
    && leb (abs request.command_permille) maximum_command_permille

unfoldable pub needs_arm : MotorCommandRequest → Bool
needs_arm request = not (is_zero request.command_permille) || same_mode request.mode brake

-- `current_applied_` after the callback was called, or was null.
abbrev pub applied_as : MotorCommandRequest → EspErr → ℕ → MotorCommandApplied
applied_as request result completed_at_us = record {
  applied_command_permille = request.command_permille;
  applied_mode = request.mode;
  result_code = result;
  command_apply_timestamp_us = completed_at_us;
}

-- The evidence of a request that ends with `code`, and the next generation.
unfoldable pub record_evidence :
    MotorCommandRequest → EspErr → (now_us : ℕ) → CommandJournal → CommandJournal
record_evidence request code now_us j = record j {
  next_generation = add64 j.next_generation 1;
  current = record {
    command_generation = j.next_generation;
    requested_command_permille = request.command_permille;
    requested_motor_mode = request.mode;
    applied_command_permille = j.current_applied.applied_command_permille;
    applied_motor_mode = j.current_applied.applied_mode;
    apply_result_code = code;
    command_apply_timestamp_us = j.current_applied.command_apply_timestamp_us;
    logger_snapshot_timestamp_us = now_us;
  };
}

-- The callback takes the request and the time before it, and gives its result and the time after it.
module _ {Store : Type 0} (motor_apply : Store → MotorCommandRequest → ℕ → Store × EspErr × ℕ) where
  -- The callback, called if it is not null.
  unfoldable pub call_motor : MotorCommandRequest → (now_us : ℕ) → Bool → Store → Store × EspErr × ℕ
  call_motor request now_us bound store =
      if bound then motor_apply store request now_us else (store, esp_err_invalid_state, now_us)

  unfoldable pub apply_coast :
      (now_us : ℕ) → CommandJournal → Store → Store × CommandJournal × EspErr
  apply_coast now_us j store =
      let r = call_motor coast_request now_us j.bound store in
      (r.0, record j { current_applied = applied_as coast_request r.1 r.2 }, r.1)

  unfoldable pub disarm : (now_us : ℕ) → CommandJournal → Store → Store × CommandJournal × EspErr
  unfolding apply_coast
  disarm now_us j store =
      let r = apply_coast now_us j store in (r.0, record r.1 { armed = false }, r.2)

  unfoldable pub stop_for_error :
      EspErr → (now_us : ℕ) → CommandJournal → Store → Store × CommandJournal × EspErr
  unfolding disarm
  stop_for_error cause now_us j store =
      if is_zero cause
      then (store, j, esp_err_invalid_arg)
      else (let r = disarm now_us j store in (r.0, r.1, cause))

  -- The end of `apply`, with what the request came to.
  unfoldable pub conclude :
      MotorCommandRequest
      → (now_us : ℕ) → EspErr
      → CommandJournal
      → Store
      → Store × CommandJournal × EspErr
  unfolding disarm record_evidence
  conclude request now_us result j store =
      if is_zero result
      then (store, record_evidence request result now_us j, result)
      else (let r = disarm now_us j store in
          (r.0, record_evidence request result now_us r.1, result))

  unfoldable pub apply :
      MotorCommandRequest → (now_us : ℕ) → CommandJournal → Store → Store × CommandJournal × EspErr
  unfolding request_already_applied valid_request needs_arm call_motor conclude
  apply request now_us j store =
      if valid_request request
        && (not (needs_arm request) || j.armed)
        && j.bound
        && request_already_applied request j
      then (store, j, esp_ok)
      else if not (valid_request request)
      then conclude request now_us esp_err_invalid_arg j store
      else if needs_arm request && not j.armed
      then conclude request now_us esp_err_invalid_state j store
      else if not j.bound
      then conclude request now_us esp_err_invalid_state j store
      else (let r = call_motor request now_us true store in
          conclude request now_us r.1 (record j { current_applied = applied_as request r.1 r.2 })
            r.0)

  unfoldable pub reject_and_coast :
      MotorCommandRequest
      → (cause : EspErr) → (now_us : ℕ) → CommandJournal
      → Store
      → Store × CommandJournal × EspErr
  unfolding valid_request disarm record_evidence
  reject_and_coast request cause now_us j store =
      if is_zero cause || not (valid_request request)
      then (store, j, esp_err_invalid_arg)
      else (let r = disarm now_us j store in (r.0, record_evidence request cause now_us r.1, cause))
