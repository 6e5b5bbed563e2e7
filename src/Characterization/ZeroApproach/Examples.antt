-- ===== src/Characterization/ZeroApproach/Examples.antt =====
-- An approach from above that needs one settled measurement for each target.
use avi_99l_mission_board.Base.{ℕ, ◌≡◌, refl, false, true, List, [], ◌∷◌}
use avi_99l_mission_board.Base.Int.{pos}
use avi_99l_mission_board.Characterization.ZeroApproach.{
  from_positive, ZeroApproachController, new_plan, target_at, settled, overshot, reversed, dwell,
  update, controller_update, target_millideg, reset,
}
use avi_99l_mission_board.Characterization.ZeroApproach.Visits.{Measurement, Visits}
use avi_99l_mission_board.Characterization.ZeroApproach.Dwell.{
  measured, in_time, completion_settled,
}

abbrev at_angle : ℕ → Measurement
at_angle millideg = (pos millideg, pos 0, 1_000)

-- The newest first.
abbrev descent : List Measurement
descent =
    at_angle 0
    ∷ at_angle 100
    ∷ at_angle 200
    ∷ at_angle 300
    ∷ at_angle 400
    ∷ at_angle 500
    ∷ at_angle 600
    ∷ at_angle 700
    ∷ at_angle 800
    ∷ at_angle 900
    ∷ at_angle 1_000
    ∷ []

abbrev controller : ZeroApproachController
controller = record {
  plan = new_plan from_positive (pos 20) (pos 100) 1 (pos 50);
  timeout_us = 18_000_000;
  started_at_us = 0;
  started = false;
}

completes : (measured descent controller).plan.complete ≡ true
unfolding measured controller_update update overshot reversed settled dwell target_millideg
    target_at new_plan reset
completes = refl

completion_settled_example :
    Visits from_positive (pos 20) (pos 100) 1 11 0 (in_time descent controller)
completion_settled_example =
    completion_settled from_positive (pos 20) (pos 100) 1 (pos 50) 18_000_000 descent completes
