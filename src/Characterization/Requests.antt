-- ===== src/Characterization/Requests.antt =====
-- characterization/characterization_types.hpp: the motor commands that are fit to be sent, by the sign
-- of their number, apart from the tests of the code.
use avi_99l_mission_board.Base.{zero, suc, ◌≡◌, Bool, true, false, ◌&&◌, leb, arith}
use avi_99l_mission_board.Base.Int.{ℤ, pos, negsuc, abs}
use avi_99l_mission_board.Characterization.Types.{
  MotorMode, coast, brake, drive_in1, drive_in2, motor_mode_matches_command, MotorCommandRequest,
}

-- The first driver turns for numbers below 0, the second for numbers above it.
abbrev pub mode_of_sign : MotorMode → ℤ → Bool
mode_of_sign drive_in1 (negsuc n) = true
mode_of_sign drive_in1 (pos n) = false
mode_of_sign drive_in2 (pos (suc n)) = true
mode_of_sign drive_in2 (pos zero) = false
mode_of_sign drive_in2 (negsuc n) = false
mode_of_sign coast (pos zero) = true
mode_of_sign coast (pos (suc n)) = false
mode_of_sign coast (negsuc n) = false
mode_of_sign brake (pos zero) = true
mode_of_sign brake (pos (suc n)) = false
mode_of_sign brake (negsuc n) = false

-- From -350 to 350.
abbrev pub at_most_350 : ℤ → Bool
at_most_350 (pos n) = leb n 350
at_most_350 (negsuc n) = leb n 349

abbrev pub is_proper : MotorCommandRequest → Bool
is_proper request =
    mode_of_sign request.mode request.command_permille && at_most_350 request.command_permille

pub matches-mode_of_sign :
    (permille : ℤ) (mode : MotorMode)
    → motor_mode_matches_command permille mode ≡ mode_of_sign mode permille
unfolding motor_mode_matches_command
matches-mode_of_sign (pos zero) drive_in1 = ground arith
matches-mode_of_sign (pos zero) drive_in2 = ground arith
matches-mode_of_sign (pos zero) coast = ground arith
matches-mode_of_sign (pos zero) brake = ground arith
matches-mode_of_sign (pos (suc n)) drive_in1 = ground arith
matches-mode_of_sign (pos (suc n)) drive_in2 = ground arith
matches-mode_of_sign (pos (suc n)) coast = ground arith
matches-mode_of_sign (pos (suc n)) brake = ground arith
matches-mode_of_sign (negsuc n) drive_in1 = ground arith
matches-mode_of_sign (negsuc n) drive_in2 = ground arith
matches-mode_of_sign (negsuc n) coast = ground arith
matches-mode_of_sign (negsuc n) brake = ground arith

pub small-at_most_350 : (permille : ℤ) → leb (abs permille) 350 ≡ at_most_350 permille
small-at_most_350 (pos n) = ground arith
small-at_most_350 (negsuc n) = ground arith
