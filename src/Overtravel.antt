-- ===== src/Overtravel.antt =====
-- control/fin_overtravel_guard.cpp. The three atomics are one record that the callers pass along;
-- the 1 kHz fin task writes it by `observe`, the mission tick and the command path by the clears.
use avi_99l_mission_board.Base.{Bool, true, false, not, ◌&&◌, ◌||◌, if◌then◌else◌}
use avi_99l_mission_board.Double.{Double, abs, is_finite, magnitude_leb}

pub record Guard : Type 0 where
  pub fault_latched : Bool
  pub sample_valid : Bool
  pub inside_fault_limit : Bool

abbrev pub initial : Guard
initial = record { fault_latched = false; sample_valid = false; inside_fault_limit = false }

-- 20 degrees: the pattern of 0.34906585039886590.
abbrev pub fault_limit_rad : Double
fault_limit_rad = 0x3fd6_5718_4ae7_4487

unfoldable pub observe : Double → Bool → Guard → Guard
observe angle_rad valid_sample g =
    let usable = valid_sample && is_finite angle_rad in
    let inside = usable && magnitude_leb (abs angle_rad) fault_limit_rad in
    record {
      fault_latched = if usable && not inside then true else g.fault_latched;
      sample_valid = usable;
      inside_fault_limit = inside;
    }

-- The second component is the value returned.
unfoldable pub clear_if_recoverable : Guard → Guard × Bool
clear_if_recoverable g =
    if not g.fault_latched
    then (g, true)
    else if not g.sample_valid || not g.inside_fault_limit
    then (g, false)
    else (record g { fault_latched = false }, true)

unfoldable pub clear_fault : Guard → Guard
clear_fault g = record g { fault_latched = false }
