-- ===== src/Double.antt =====
-- IEEE 754 binary64 values, as the 64-bit patterns that the target stores. The code modelled here
-- moves them, asks whether they are finite and compares magnitudes; each of these is a test on
-- the pattern, so no arithmetic on them is assumed.
use avi_99l_mission_board.Base.{ℕ, ◌/◌, ◌%◌, ◌^◌, Bool, not, ◌&&◌, ltb, leb, ◌==◌}

abbrev pub Double : Type 0
Double = ℕ

abbrev pub zero_double : Double
zero_double = 0

-- `std::numeric_limits<double>::quiet_NaN()`.
abbrev pub quiet_nan : Double
quiet_nan = 0x7FF8_0000_0000_0000

abbrev pub exponent : Double → ℕ
exponent x = x / 2 ^ 52 % 2 ^ 11

-- `std::isfinite`: the exponent field is not all ones.
abbrev pub is_finite : Double → Bool
is_finite x = not (exponent x == 2047)

-- `std::abs`: the sign bit is cleared.
abbrev pub abs : Double → Double
abs x = x % 2 ^ 63

-- `a <= b` and `a < b` on finite values whose sign bit is clear: the order of the patterns.
abbrev pub magnitude_leb : Double → Double → Bool
magnitude_leb a b = leb a b

-- `x > limit` on a finite `x`, for a `limit` whose sign bit is clear: a negative `x` is not.
abbrev pub exceeds : Double → Double → Bool
exceeds x limit = (x / 2 ^ 63 == 0) && ltb limit x
