-- ===== src/Protocol/Enums/Fin.antt =====
-- protocol/can_protocol.hpp: the bytes of the enumerations, the modes of the fin.
use avi_99l_mission_board.Base.{ℕ, ◌≡◌, refl, Option, none, some, ◌==◌, if◌then◌else◌, arith}

pub data FinMode : Type 0 where
  free brake position_hold zero_hold relative_move roll_control unknown : FinMode

abbrev pub fin_mode_code : FinMode → ℕ
fin_mode_code FinMode.free = 0
fin_mode_code FinMode.brake = 1
fin_mode_code FinMode.position_hold = 2
fin_mode_code FinMode.zero_hold = 3
fin_mode_code FinMode.relative_move = 4
fin_mode_code FinMode.roll_control = 5
fin_mode_code FinMode.unknown = 15

unfoldable pub fin_mode_of : ℕ → Option FinMode
fin_mode_of b =
    if b == 0
    then some FinMode.free
    else if b == 1
    then some FinMode.brake
    else if b == 2
    then some FinMode.position_hold
    else if b == 3
    then some FinMode.zero_hold
    else if b == 4
    then some FinMode.relative_move
    else if b == 5
    then some FinMode.roll_control
    else if b == 15
    then some FinMode.unknown
    else none

pub fin_mode_of-code : (x : FinMode) → fin_mode_of (fin_mode_code x) ≡ some x
unfolding fin_mode_of
fin_mode_of-code FinMode.free = refl
fin_mode_of-code FinMode.brake = refl
fin_mode_of-code FinMode.position_hold = refl
fin_mode_of-code FinMode.zero_hold = refl
fin_mode_of-code FinMode.relative_move = refl
fin_mode_of-code FinMode.roll_control = refl
fin_mode_of-code FinMode.unknown = refl

pub fin_mode_code-of : (b : ℕ) {x : FinMode} → fin_mode_of b ≡ some x → fin_mode_code x ≡ b
unfolding fin_mode_of
fin_mode_code-of b h = ground arith
