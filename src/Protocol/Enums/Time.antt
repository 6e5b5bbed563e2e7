-- ===== src/Protocol/Enums/Time.antt =====
-- protocol/can_protocol.hpp: the bytes of the enumerations, the sources of the absolute time.
use avi_99l_mission_board.Base.{ℕ, ◌≡◌, refl, Option, none, some, ◌==◌, if◌then◌else◌, arith}

pub data TimeSource : Type 0 where
  invalid gnss ground : TimeSource

abbrev pub time_source_code : TimeSource → ℕ
time_source_code TimeSource.invalid = 0
time_source_code TimeSource.gnss = 1
time_source_code TimeSource.ground = 2

unfoldable pub time_source_of : ℕ → Option TimeSource
time_source_of b =
    if b == 0
    then some TimeSource.invalid
    else if b == 1
    then some TimeSource.gnss
    else if b == 2
    then some TimeSource.ground
    else none

pub time_source_of-code : (x : TimeSource) → time_source_of (time_source_code x) ≡ some x
unfolding time_source_of
time_source_of-code TimeSource.invalid = refl
time_source_of-code TimeSource.gnss = refl
time_source_of-code TimeSource.ground = refl

pub time_source_code-of :
    (b : ℕ) {x : TimeSource} → time_source_of b ≡ some x → time_source_code x ≡ b
unfolding time_source_of
time_source_code-of b h = Prim.ground arith
