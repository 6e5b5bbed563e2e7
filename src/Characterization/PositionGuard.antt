-- ===== src/Characterization/PositionGuard.antt =====
-- characterization/position_guard.cpp: `PositionGuard`, which lets a motor command through, or coasts,
-- or aborts the run, by the angle of the fin; and characterization_config.hpp, the command towards an
-- angle. Angles are thousandths of a degree.
mod Limits
mod Inward
mod Examples
use avi_99l_mission_board.Base.{
  ℕ, ◌+◌, ◌-◌, ◌*◌, ◌^◌, ◌≡◌, Bool, true, false, not, ◌&&◌, ◌||◌, ltb, leb, if◌then◌else◌,
}
use avi_99l_mission_board.Base.Int.{ℤ, pos, negsuc, neg, abs, ◌+ℤ◌, ◌*ℤ◌, ◌=ℤ◌, ltb_ℤ, leb_ℤ}
use avi_99l_mission_board.Characterization.Types.{
  MotorCommandRequest, coast_request, motor_mode_matches_command, maximum_command_permille,
}

pub record PositionGuardConfig : Type 0 where
  pub normal_envelope_millideg : ℤ
  pub hard_abort_millideg : ℤ
  pub command_to_fin_sign : ℤ

pub record PositionGuardInput : Type 0 where
  pub fin_angle_millideg : ℤ
  pub fin_rate_millideg_s : ℤ
  pub predicted_stopping_delta_millideg : ℤ
  pub requested : MotorCommandRequest
  pub encoder_valid : Bool
  pub consumer_deadline_met : Bool

pub data PositionGuardAction : Type 0 where
  allow force_coast abort_run : PositionGuardAction

pub data PositionGuardReason : Type 0 where
  no_guard_reason soft_limit_outward hard_limit predicted_stop_exceeds_limit encoder_invalid
        consumer_deadline_miss command_mode_mismatch polarity_unconfigured configuration_invalid :
      PositionGuardReason

pub record PositionGuardDecision : Type 0 where
  pub action : PositionGuardAction
  pub reason : PositionGuardReason
  pub permitted : MotorCommandRequest

abbrev pub fin_mechanical_limit_millideg : ℤ
fin_mechanical_limit_millideg = pos 15_000

abbrev pub abort_decision : PositionGuardReason → PositionGuardDecision
abort_decision why = record { action = abort_run; reason = why; permitted = coast_request }

abbrev pub coast_decision : PositionGuardReason → PositionGuardDecision
coast_decision why = record { action = force_coast; reason = why; permitted = coast_request }

abbrev pub sign : ℤ → ℤ
sign value = if ltb_ℤ (pos 0) value then pos 1 else if ltb_ℤ value (pos 0) then negsuc 0 else pos 0

-- The sum, kept within `int32_t`.
unfoldable pub saturating_add : ℤ → ℤ → ℤ
saturating_add lhs rhs =
    let sum = lhs +ℤ rhs in
    if ltb_ℤ sum (negsuc (2 ^ 31 - 1))
    then negsuc (2 ^ 31 - 1)
    else if ltb_ℤ (pos (2 ^ 31 - 1)) sum
    then pos (2 ^ 31 - 1)
    else sum

unfoldable pub configuration_bad : PositionGuardConfig → Bool
configuration_bad c =
    leb_ℤ c.normal_envelope_millideg (pos 0)
    || leb_ℤ c.hard_abort_millideg c.normal_envelope_millideg
    || leb_ℤ fin_mechanical_limit_millideg c.hard_abort_millideg

-- Whether the command moves the fin further out from an edge of the envelope.
unfoldable pub command_is_outward : PositionGuardConfig → PositionGuardInput → Bool
command_is_outward c input =
    let command_direction = sign input.requested.command_permille *ℤ c.command_to_fin_sign in
    let at_positive_envelope = leb_ℤ c.normal_envelope_millideg input.fin_angle_millideg in
    let at_negative_envelope = leb_ℤ input.fin_angle_millideg (neg c.normal_envelope_millideg) in
    at_positive_envelope && ltb_ℤ (pos 0) command_direction
    || at_negative_envelope && ltb_ℤ command_direction (pos 0)

unfoldable pub evaluate : PositionGuardConfig → PositionGuardInput → PositionGuardDecision
evaluate c input =
    let predicted_angle =
      saturating_add input.fin_angle_millideg input.predicted_stopping_delta_millideg in
    if configuration_bad c
    then abort_decision configuration_invalid
    else if not (c.command_to_fin_sign =ℤ pos 1) && not (c.command_to_fin_sign =ℤ negsuc 0)
    then abort_decision polarity_unconfigured
    else if not input.encoder_valid
    then abort_decision encoder_invalid
    else if not input.consumer_deadline_met
    then abort_decision consumer_deadline_miss
    else if not (motor_mode_matches_command input.requested.command_permille input.requested.mode)
    then abort_decision command_mode_mismatch
    else if leb_ℤ c.hard_abort_millideg (pos (abs input.fin_angle_millideg))
    then abort_decision hard_limit
    else if leb_ℤ c.hard_abort_millideg (pos (abs predicted_angle))
    then abort_decision predicted_stop_exceeds_limit
    else if command_is_outward c input
    then coast_decision soft_limit_outward
    else record { action = allow; reason = no_guard_reason; permitted = input.requested }

-- `commandForFinError`: a command of the magnitude towards the side of the error.
unfoldable pub command_for_fin_error : ℤ → ℤ → ℤ → ℤ
command_for_fin_error fin_error_millideg magnitude_permille command_to_fin_sign =
    if leb_ℤ magnitude_permille (pos 0)
      || ltb_ℤ (pos maximum_command_permille) magnitude_permille
      || not (command_to_fin_sign =ℤ negsuc 0) && not (command_to_fin_sign =ℤ pos 1)
    then pos 0
    else sign fin_error_millideg *ℤ command_to_fin_sign *ℤ magnitude_permille
