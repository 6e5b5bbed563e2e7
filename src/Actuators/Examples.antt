-- ===== src/Actuators/Examples.antt =====
-- Runs of the actuators' power arbiter, angles and parachute attempt, and the theorems applied to
-- them.
use avi_99l_mission_board.Base.{ℕ, true, false, [], ◌∷◌}
use avi_99l_mission_board.Actuators.Parachute.{ParachuteTick, new}
use avi_99l_mission_board.Actuators.Parachute.Attempt.{
  starts, ticks, parachute_calls, OnSchedule, calls-new-OnSchedule,
}

abbrev sample : ℕ → ℕ → ParachuteTick
sample now_us count = record {
  now_us = now_us;
  position_valid = true;
  position_count = count;
  target_reached = false;
}

calls-new-OnSchedule_example : OnSchedule (
    parachute_calls
      (starts 1_000 30 ∷ ticks (sample 501_000 30) ∷ ticks (sample 700_000 31) ∷ [])
      new)
calls-new-OnSchedule_example =
    calls-new-OnSchedule
      (starts 1_000 30 ∷ ticks (sample 501_000 30) ∷ ticks (sample 700_000 31) ∷ [])
