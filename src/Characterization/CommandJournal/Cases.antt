-- ===== src/Characterization/CommandJournal/Cases.antt =====
-- characterization/command_journal.cpp: the ways that `apply` takes.
use avi_99l_mission_board.Base.{ℕ, ◌≡◌, refl, Bool, true, false, not, ◌&&◌, ◌||◌, if◌then◌else◌}
use avi_99l_mission_board.Base.Int.{is_zero}
use avi_99l_mission_board.Characterization.Types.{MotorCommandRequest}
use avi_99l_mission_board.Characterization.Requests.{
  is_proper, matches-mode_of_sign, small-at_most_350,
}
use avi_99l_mission_board.Characterization.CommandJournal.{
  EspErr, esp_ok, esp_err_invalid_arg, esp_err_invalid_state, CommandJournal, applied_as,
  valid_request, needs_arm, request_already_applied, call_motor, conclude, apply,
}

-- The test of the code is that of a proper request.
pub valid-is_proper : (request : MotorCommandRequest) → valid_request request ≡ is_proper request
unfolding valid_request
valid-is_proper request =
    rw
      (
        matches-mode_of_sign request.command_permille request.mode,
        small-at_most_350 request.command_permille,
      )
      refl

module _ {Store : Type 0} (motor_apply : Store → MotorCommandRequest → ℕ → Store × EspErr × ℕ)
    (request : MotorCommandRequest) (now_us : ℕ) (j : CommandJournal) (store : Store) where
  -- A request that the driver may get now.
  pub record Allowed : Type 0 where
    pub valid : valid_request request ≡ true
    pub armed : needs_arm request ≡ true → j.armed ≡ true
    pub bound : j.bound ≡ true

  -- The journal after the driver has had the request.
  abbrev pub sent : CommandJournal
  sent =
      let m = motor_apply store request now_us in
      record j { current_applied = applied_as request m.1 m.2 }

  -- Why a request is refused before the driver has had it.
  pub data Refusal : EspErr → Type 0 where
    malformed : valid_request request ≡ false → Refusal esp_err_invalid_arg
    unarmed :
        valid_request request ≡ true
        → needs_arm request ≡ true
        → j.armed ≡ false
        → Refusal esp_err_invalid_state
    unbound : valid_request request ≡ true → j.bound ≡ false → Refusal esp_err_invalid_state

  pub data Applied : Store × CommandJournal × EspErr → Type 0 where
    same : Allowed → request_already_applied request j ≡ true → Applied (store, j, esp_ok)
    refused :
        (code : EspErr)
        → is_zero code ≡ false
        → Refusal code
        → Applied (conclude motor_apply request now_us code j store)
    done :
        Allowed
        → Applied (
            conclude motor_apply request now_us
              (motor_apply store request now_us).1
              sent
              (motor_apply store request now_us).0)

  Applied_from :
      (valid : Bool)
      → valid_request request ≡ valid
      → (needs : Bool) → needs_arm request ≡ needs
      → (armed : Bool) → j.armed ≡ armed
      → (bound : Bool) → j.bound ≡ bound
      → (again : Bool) → request_already_applied request j ≡ again
      → Applied (
          if valid && (not needs || armed) && bound && again
          then (store, j, esp_ok)
          else if not valid
          then conclude motor_apply request now_us esp_err_invalid_arg j store
          else if needs && not armed
          then conclude motor_apply request now_us esp_err_invalid_state j store
          else if not bound
          then conclude motor_apply request now_us esp_err_invalid_state j store
          else conclude motor_apply request now_us
              (motor_apply store request now_us).1
              sent
              (motor_apply store request now_us).0)
  Applied_from false v needs n armed a bound b again g =
      refused esp_err_invalid_arg refl (malformed v)
  Applied_from true v true n false a bound b again g =
      refused esp_err_invalid_state refl (unarmed v n a)
  Applied_from true v true n true a false b again g =
      refused esp_err_invalid_state refl (unbound v b)
  Applied_from true v false n armed a false b again g =
      refused esp_err_invalid_state refl (unbound v b)
  Applied_from true v true n true a true b true g =
      same (record { valid = v; armed = λ _. a; bound = b }) g
  Applied_from true v false n armed a true b true g =
      same (record { valid = v; armed = λ e. cc; bound = b }) g
  Applied_from true v true n true a true b false g =
      done (record { valid = v; armed = λ _. a; bound = b })
  Applied_from true v false n armed a true b false g =
      done (record { valid = v; armed = λ e. cc; bound = b })

  pub apply-Applied : Applied (apply motor_apply request now_us j store)
  unfolding apply call_motor
  apply-Applied =
      Applied_from (valid_request request) refl (needs_arm request) refl j.armed refl j.bound refl
        (request_already_applied request j) refl
