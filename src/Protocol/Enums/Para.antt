-- ===== src/Protocol/Enums/Para.antt =====
-- protocol/can_protocol.hpp: the bytes of the enumerations, the modes of the parachute servo.
use avi_99l_mission_board.Base.{ℕ, ◌≡◌, refl, Option, none, some, ◌==◌, if◌then◌else◌, arith}

pub data ParaMode : Type 0 where
  free hold relative_move opening_or_retrying closing powered_off unknown : ParaMode

abbrev pub para_mode_code : ParaMode → ℕ
para_mode_code ParaMode.free = 0
para_mode_code ParaMode.hold = 1
para_mode_code ParaMode.relative_move = 2
para_mode_code ParaMode.opening_or_retrying = 3
para_mode_code ParaMode.closing = 4
para_mode_code ParaMode.powered_off = 5
para_mode_code ParaMode.unknown = 15

unfoldable pub para_mode_of : ℕ → Option ParaMode
para_mode_of b =
    if b == 0
    then some ParaMode.free
    else if b == 1
    then some ParaMode.hold
    else if b == 2
    then some ParaMode.relative_move
    else if b == 3
    then some ParaMode.opening_or_retrying
    else if b == 4
    then some ParaMode.closing
    else if b == 5
    then some ParaMode.powered_off
    else if b == 15
    then some ParaMode.unknown
    else none

pub para_mode_of-code : (x : ParaMode) → para_mode_of (para_mode_code x) ≡ some x
unfolding para_mode_of
para_mode_of-code ParaMode.free = refl
para_mode_of-code ParaMode.hold = refl
para_mode_of-code ParaMode.relative_move = refl
para_mode_of-code ParaMode.opening_or_retrying = refl
para_mode_of-code ParaMode.closing = refl
para_mode_of-code ParaMode.powered_off = refl
para_mode_of-code ParaMode.unknown = refl

pub para_mode_code-of : (b : ℕ) {x : ParaMode} → para_mode_of b ≡ some x → para_mode_code x ≡ b
unfolding para_mode_of
para_mode_code-of b h = ground arith
