-- ===== src/Actuators/Angle.antt =====
-- actuators/parachute_configuration.hpp: positions of the parachute servo on its circle of 4096
-- counts.
use avi_99l_mission_board.Base.{
  ℕ, ◌^◌, ◌+◌, ◌-◌, ◌/◌, ◌%◌, ◌≤◌, ◌<◌, ◌≡◌, ◌⊎◌, inl, inr, refl, Bool, true, false, not, Option,
  none, some, ◌==◌, ltb, leb, if◌then◌else◌, arith, Bool-cases, u16,
}
use avi_99l_mission_board.Base.Int.{ℤ, pos, pos_part, neg_part, ◌+ℤ◌, neg, rem, ltb_ℤ}

abbrev pub counts_per_revolution : ℕ
counts_per_revolution = 4096

abbrev pub half_revolution_counts : ℕ
half_revolution_counts = 2048

-- Bit 15 is the sign, the others the magnitude.
unfoldable pub decode_signed_magnitude : ℕ → ℤ
decode_signed_magnitude raw_count =
    let magnitude = raw_count % 2 ^ 15 in
    if not (raw_count / 2 ^ 15 % 2 == 0) then neg (pos magnitude) else pos magnitude

-- An angle that was checked to lie on the circle.
pub record AbsoluteParachuteAngle : Type 0 where
  pub count : ℕ

unfoldable pub from_canonical_count : ℕ → Option AbsoluteParachuteAngle
from_canonical_count count =
    if leb counts_per_revolution count then none else some (record { count = count })

unfoldable pub from_count : ℕ → Option AbsoluteParachuteAngle
unfolding decode_signed_magnitude from_canonical_count
from_count raw_count =
    let wrapped = rem (decode_signed_magnitude raw_count) counts_per_revolution in
    let positive =
      (if ltb_ℤ wrapped (pos 0) then wrapped +ℤ pos counts_per_revolution else wrapped) in
    from_canonical_count (u16 (pos_part positive))

pub data ParachutePathError : Type 0 where
  no_error exactly_half_turn : ParachutePathError

abbrev pub is_no_error : ParachutePathError → Bool
is_no_error no_error = true
is_no_error exactly_half_turn = false

pub record SignedParachuteDisplacement : Type 0 where
  pub counts : ℤ
  pub error : ParachutePathError

abbrev pub valid : SignedParachuteDisplacement → Bool
valid d = is_no_error d.error

-- The difference of the counts, moved up by a revolution where it is negative.
abbrev pub forward_counts : AbsoluteParachuteAngle → AbsoluteParachuteAngle → ℕ
forward_counts current target =
    if ltb target.count current.count
    then target.count + counts_per_revolution - current.count
    else target.count - current.count

unfoldable pub shortest_displacement :
    AbsoluteParachuteAngle → AbsoluteParachuteAngle → SignedParachuteDisplacement
shortest_displacement current target =
    let delta = forward_counts current target in
    if delta == half_revolution_counts
    then record { counts = pos 0; error = exactly_half_turn }
    else if ltb half_revolution_counts delta
    then record { counts = pos delta +ℤ neg (pos counts_per_revolution); error = no_error }
    else record { counts = pos delta; error = no_error }

from_count_positive :
    (raw : ℕ) → raw < 32768 → from_count raw ≡ some (record { count = raw % 4096 })
unfolding from_count
from_count_positive raw h = ground arith

from_count_negative :
    (raw : ℕ)
    → raw < 65536
    → 32768 ≤ raw
    → from_count raw ≡ some (record { count = (4096 - raw % 32768 % 4096) % 4096 })
unfolding from_count
from_count_negative raw h neg_raw = ground arith

-- Every 16-bit feedback word gives an angle on the circle, the one that its signed count names: the
-- magnitude around the circle for a clear sign bit, and its opposite for a set one.
pub from_count_total :
    (raw : ℕ)
    → raw < 65536
    → (a : AbsoluteParachuteAngle) × (from_count raw ≡ some a)
      × (a.count < 4096)
      × (((raw < 32768) × (a.count ≡ raw % 4096))
          ⊎ ((32768 ≤ raw) × ((a.count + raw % 32768) % 4096 ≡ 0)))
from_count_total raw h = elim (Bool-cases (leb 32768 raw)) [
  | inr positive ↦ (
    record { count = raw % 4096 },
    from_count_positive raw (ground arith),
    omega arith,
    inl (ground arith, refl),
  )
  | inl negative ↦ (
    record { count = (4096 - raw % 32768 % 4096) % 4096 },
    from_count_negative raw h (ground arith),
    omega arith,
    inr (ground arith, omega arith),
  )
]

-- Between two angles on the circle there is a shortest way exactly when they are not half a turn
-- apart; it is shorter than half a turn, and leads from the one to the other around the circle.
pub shortest_displacement_lem :
    (a b : AbsoluteParachuteAngle)
    → a.count < 4096
    → b.count < 4096
    → let d = shortest_displacement a b in
      ((d.error ≡ exactly_half_turn) × ((a.count ≡ b.count + 2048) ⊎ (b.count ≡ a.count + 2048)))
      ⊎ ((d.error ≡ no_error)
          × (pos_part d.counts < 2048)
          × (neg_part d.counts < 2048)
          × ((a.count + 4096 + pos_part d.counts - neg_part d.counts) % 4096 ≡ b.count))
unfolding shortest_displacement
shortest_displacement_lem a b ha hb = ground arith
