-- ===== src/Sensors/AirspeedGate.antt =====
-- sensors/sensor_health.cpp: `AirspeedGate`, the hysteresis on the airspeed above 60 m/s.
use avi_99l_mission_board.Base.{
  ℕ, ◌+◌, ◌≤◌, ◌<◌, ◌≡◌, ◌↔◌, ◌⊎◌, Bool, true, false, not, ◌&&◌, ◌||◌, List, [], ◌∷◌, leb,
  if◌then◌else◌, arith,
}
use avi_99l_mission_board.Double.{Double, is_finite, exceeds}

pub record AirspeedGate : Type 0 where
  pub entry_count : ℕ
  pub stop_count : ℕ
  pub above_threshold : Bool

-- `*this = {}`.
abbrev pub reset : AirspeedGate
reset = record { entry_count = 0; stop_count = 0; above_threshold = false }

abbrev pub entry_samples : ℕ
entry_samples = 50

abbrev pub stop_samples : ℕ
stop_samples = 20

-- The pattern of 60.0.
abbrev pub threshold_mps : Double
threshold_mps = 0x404e_0000_0000_0000

abbrev pub min_of : ℕ → ℕ → ℕ
min_of a b = if leb a b then a else b

-- The value returned is the new `above_threshold`.
unfoldable pub update : Bool → Double → AirspeedGate → AirspeedGate
update available airspeed_mps g =
    if not available || not (is_finite airspeed_mps)
    then record { entry_count = 0; stop_count = stop_samples; above_threshold = false }
    else if exceeds airspeed_mps threshold_mps
    then (let count = min_of entry_samples (g.entry_count + 1) in
        record {
          entry_count = count;
          stop_count = 0;
          above_threshold = if leb entry_samples count then true else g.above_threshold;
        })
    else (let count = min_of stop_samples (g.stop_count + 1) in
        record {
          entry_count = 0;
          stop_count = count;
          above_threshold = if leb stop_samples count then false else g.above_threshold;
        })

-- A reading: whether it is available, and the airspeed.
abbrev pub Reading : Type 0
Reading = Bool × Double

abbrev pub is_usable : Reading → Bool
is_usable (available, v) = available && is_finite v

abbrev pub is_fast : Reading → Bool
is_fast (available, v) = is_usable (available, v) && exceeds v threshold_mps

abbrev pub is_slow : Reading → Bool
is_slow (available, v) = is_usable (available, v) && not (exceeds v threshold_mps)

-- The gate after readings since a reset, the newest first, and how many of the newest readings in a
-- row are fast, and slow.
unfoldable pub after : List Reading → AirspeedGate
after [] = reset
after (x ∷ xs) = update x.0 x.1 (after xs)

unfoldable pub fast_run : List Reading → ℕ
fast_run [] = 0
fast_run (x ∷ xs) = let rest = fast_run xs in if is_fast x then rest + 1 else 0

unfoldable pub slow_run : List Reading → ℕ
slow_run [] = 0
slow_run (x ∷ xs) = let rest = slow_run xs in if is_slow x then rest + 1 else 0

record Counts (g : AirspeedGate) (fast slow : ℕ) : Type 0 where
  entries : g.entry_count ≡ min_of 50 fast
  stops : (g.stop_count ≡ min_of 20 slow) ⊎ ((g.stop_count ≡ 20) × (g.above_threshold ≡ false))
  closed : 20 ≤ g.stop_count → g.above_threshold ≡ false

update-Counts :
    (x : Reading) (g : AirspeedGate) (fast slow : ℕ)
    → Counts g fast slow
    → Counts
        (update x.0 x.1 g)
        (if is_fast x then fast + 1 else 0)
        (if is_slow x then slow + 1 else 0)
unfolding update
update-Counts (available, v) g fast slow c = ground arith

after-Counts : (xs : List Reading) → Counts (after xs) (fast_run xs) (slow_run xs)
unfolding after fast_run slow_run
after-Counts [] = ground arith
after-Counts (x ∷ xs) = update-Counts x (after xs) (fast_run xs) (slow_run xs) (after-Counts xs)

update_above :
    (x : Reading) (g : AirspeedGate) (fast slow : ℕ)
    → Counts g fast slow
    → ((update x.0 x.1 g).above_threshold ≡ true) ↔ (
        (50 ≤ (if is_fast x then fast + 1 else 0))
        ⊎ ((g.above_threshold ≡ true)
            × (is_usable x ≡ true)
            × ((if is_slow x then slow + 1 else 0) < 20)))
unfolding update
update_above (available, v) g fast slow c = (ground arith, ground arith)

-- After any readings since a reset the airspeed counts as above the threshold exactly when the last
-- fifty readings or more were usable and above 60 m/s, or it counted as above before the newest
-- reading, that one is usable, and fewer than twenty readings in a row up to it were slow.
pub above_threshold_iff :
    (x : Reading) (xs : List Reading)
    → ((after (x ∷ xs)).above_threshold ≡ true) ↔ (
        (50 ≤ fast_run (x ∷ xs))
        ⊎ (((after xs).above_threshold ≡ true) × (is_usable x ≡ true) × (slow_run (x ∷ xs) < 20)))
unfolding after fast_run slow_run
above_threshold_iff x xs = update_above x (after xs) (fast_run xs) (slow_run xs) (after-Counts xs)
