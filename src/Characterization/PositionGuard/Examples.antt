-- ===== src/Characterization/PositionGuard/Examples.antt =====
-- A fin at nine degrees that is sent back to zero.
use avi_99l_mission_board.Base.{◌≤◌, ◌≡◌, ◌≢◌, ◌⊎◌, refl, true, false}
use avi_99l_mission_board.Base.Int.{ℤ, pos, negsuc, abs, ◌-ℤ◌}
use avi_99l_mission_board.Characterization.Types.{coast_request, drive_in1}
use avi_99l_mission_board.Characterization.PositionGuard.{
  PositionGuardConfig, PositionGuardInput, force_coast, evaluate, command_is_outward,
  command_for_fin_error,
}
use avi_99l_mission_board.Characterization.PositionGuard.Limits.{Allowed, permits_inside}
use avi_99l_mission_board.Characterization.PositionGuard.Inward.{command-inward}

abbrev config : PositionGuardConfig
config = record {
  normal_envelope_millideg = pos 8_000;
  hard_abort_millideg = pos 10_000;
  command_to_fin_sign = pos 1;
}

abbrev at_nine : PositionGuardInput
at_nine = record {
  fin_angle_millideg = pos 9_000;
  fin_rate_millideg_s = pos 0;
  predicted_stopping_delta_millideg = pos 200;
  requested = record { command_permille = negsuc 249; mode = drive_in1 };
  encoder_valid = true;
  consumer_deadline_met = true;
}

abbrev zero_target : ℤ
zero_target = pos 0

permits_inside_example :
    (Allowed config at_nine) ⊎ ((evaluate config at_nine).permitted ≡ coast_request)
permits_inside_example = permits_inside config at_nine

sent_back :
    at_nine.requested.command_permille
    ≡ command_for_fin_error
        (zero_target -ℤ at_nine.fin_angle_millideg)
        (pos 250)
        config.command_to_fin_sign
unfolding command_for_fin_error
sent_back = refl

command-inward_example :
    (command_is_outward config at_nine ≡ false)
    × (abs at_nine.requested.command_permille ≤ 350)
    × ((evaluate config at_nine).action ≢ force_coast)
command-inward_example = command-inward config at_nine zero_target (pos 250) sent_back refl
