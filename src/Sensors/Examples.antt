-- ===== src/Sensors/Examples.antt =====
-- Readings of the airspeed (sensors/sensor_health.cpp).
use avi_99l_mission_board.Base.{◌≤◌, ◌<◌, ◌≡◌, ◌↔◌, ◌⊎◌, true, List, ◌∷◌, replicate}
use avi_99l_mission_board.Sensors.AirspeedGate.{
  Reading, after, fast_run, slow_run, is_usable, above_threshold_iff,
}

-- 64 m/s and 32 m/s.
abbrev fast : Reading
fast = (true, 0x4050_0000_0000_0000)

abbrev slow : Reading
slow = (true, 0x4040_0000_0000_0000)

abbrev readings : List Reading
readings = slow ∷ replicate 50 fast

above_threshold_iff_example : ((after (slow ∷ readings)).above_threshold ≡ true) ↔ (
    (50 ≤ fast_run (slow ∷ readings))
    ⊎ (((after readings).above_threshold ≡ true)
        × (is_usable slow ≡ true)
        × (slow_run (slow ∷ readings) < 20)))
above_threshold_iff_example = above_threshold_iff slow readings
