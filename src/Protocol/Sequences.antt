-- ===== src/Protocol/Sequences.antt =====
-- protocol/can_protocol.cpp: `TelemetrySequences`, a counter for each telemetry message, and the
-- period of each message.
use avi_99l_mission_board.Base.{
  ℕ, zero, suc, ◌+◌, ◌%◌, ◌<◌, ◌≡◌, ◌≢◌, refl, ◌||◌, List, [], ◌∷◌, ◌==◌, if◌then◌else◌, replicate,
  set, length, length-set, ◌∙◌, u8, count_if, arith,
}
use native.Mathlib.Decide.{ℕ_discrete}
use avi_99l_mission_board.Protocol.Frame.{CanId, byte_at}

-- The identifiers outside the telemetry share the first counter.
unfoldable pub sequence_index : CanId → ℕ
sequence_index id =
    if id == 0x100
    then 0
    else if id == 0x101
    then 1
    else if id == 0x102
    then 2
    else if id == 0x103
    then 3
    else if id == 0x104
    then 4
    else if id == 0x105
    then 5
    else if id == 0x106
    then 6
    else if id == 0x107
    then 7
    else if id == 0x108
    then 8
    else if id == 0x109
    then 9
    else if id == 0x10A
    then 10
    else 0

unfoldable pub can_period_milliseconds : CanId → ℕ
can_period_milliseconds id =
    if id == 0x100 || id == 0x101 || id == 0x104 || id == 0x109
    then 10
    else if id == 0x10A
    then 100
    else if id == 0x108
    then 40
    else if id == 0x102 || id == 0x103 || id == 0x107
    then 100
    else 0

pub record TelemetrySequences : Type 0 where
  pub counters : List ℕ

abbrev pub new : TelemetrySequences
new = record { counters = replicate 11 0 }

-- `next` returns the counter as it was; the counter is a byte and wraps.
unfoldable pub next : CanId → TelemetrySequences → TelemetrySequences × ℕ
next id s =
    let result = byte_at s.counters (sequence_index id) in
    (record { counters = set s.counters (sequence_index id) (u8 (result + 1)) }, result)

unfoldable pub next_all : List CanId → TelemetrySequences → TelemetrySequences
next_all [] s = s
next_all (id ∷ ids) s = next_all ids (next id s).0

-- How many of the identifiers use the counter.
abbrev pub uses : ℕ → List CanId → ℕ
uses index = count_if (λ id. sequence_index id == index)

sequence_index_small : (id : CanId) → sequence_index id < 11
unfolding sequence_index
sequence_index_small id = ground arith

byte_at-set : (xs : List ℕ) (i v : ℕ) → i < length xs → byte_at (set xs i v) i ≡ v
byte_at-set [] i v h = absurd (omega (arith, h))
byte_at-set (x ∷ xs) zero v h = refl
byte_at-set (x ∷ xs) (suc i) v h = byte_at-set xs i v (omega (arith, h))

byte_at-set_ne : (xs : List ℕ) (i j v : ℕ) → i ≢ j → byte_at (set xs i v) j ≡ byte_at xs j
byte_at-set_ne [] i j v h = refl
byte_at-set_ne (x ∷ xs) zero zero v h = absurd (h refl)
byte_at-set_ne (x ∷ xs) zero (suc j) v h = refl
byte_at-set_ne (x ∷ xs) (suc i) zero v h = refl
byte_at-set_ne (x ∷ xs) (suc i) (suc j) v h = byte_at-set_ne xs i j v (λ e. h (omega (arith, e)))

module _ (index : ℕ) (small : index < 11) where
  next_length :
      (id : CanId) (s : TelemetrySequences) → length (next id s).0.counters ≡ length s.counters
  unfolding next
  next_length id s = length-set s.counters (sequence_index id) _

  next_counts :
      (id : CanId) (s : TelemetrySequences)
      → length s.counters ≡ 11
      → byte_at (next id s).0.counters index ≡ (
          if sequence_index id == index
          then u8 (byte_at s.counters index + 1)
          else byte_at s.counters index)
  unfolding next
  next_counts id s size = elim (ℕ_discrete (sequence_index id) index) [
    | yes same ↦ ground (
      arith,
      byte_at-set s.counters index (u8 (byte_at s.counters index + 1)) (omega (arith, size, small)),
    )
    | no other ↦ ground (
      arith,
      byte_at-set_ne s.counters (sequence_index id) index
          (u8 (byte_at s.counters (sequence_index id) + 1)) other,
    )
  ]

  next_all_counts :
      (ids : List CanId) (s : TelemetrySequences)
      → length s.counters ≡ 11
      → byte_at s.counters index < 256
      → byte_at (next_all ids s).counters index ≡ u8 (byte_at s.counters index + uses index ids)
  unfolding next_all
  next_all_counts [] s size byte = omega arith
  next_all_counts (id ∷ ids) s size byte =
      let one = next_counts id s size in
      let small_byte : byte_at (next id s).0.counters index < 256 = ground (arith, one) in
      let rest = next_all_counts ids (next id s).0 (next_length id s ∙ size) small_byte in
      ground (arith, one, rest)

new_zero : (i : ℕ) → byte_at new.counters i ≡ 0
new_zero i = zeros 11 i
  where
    zeros : (n j : ℕ) → byte_at (replicate n 0) j ≡ 0
    zeros zero j = refl
    zeros (suc n) zero = refl
    zeros (suc n) (suc j) = zeros n j

-- A message's sequence number counts the frames that used its counter before, modulo 256: those of
-- its own identifier and, for the first counter, those of identifiers outside the telemetry.
pub next_counts_frames :
    (ids : List CanId) (id : CanId)
    → (next id (next_all ids new)).1 ≡ uses (sequence_index id) ids % 256
unfolding next
next_counts_frames ids id = ground (
  arith,
  next_all_counts (sequence_index id) (sequence_index_small id) ids new refl
      (omega (arith, new_zero (sequence_index id))),
  new_zero (sequence_index id),
)
