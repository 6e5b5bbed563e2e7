-- ===== src/Protocol/Frame.antt =====
-- protocol/can_protocol.cpp: CAN frames, their little-endian fields and the checks that every decoder
-- begins with.
use avi_99l_mission_board.Base.{
  ℕ, ◌+◌, ◌*◌, ◌^◌, ◌/◌, ◌<◌, ◌≡◌, refl, Bool, false, not, ◌||◌, List, [], ◌∷◌, Option, none, some,
  ◌==◌, if◌then◌else◌, replicate, set, get_elem?, length, u8, arith,
}

pub record CanFrame : Type 0 where
  pub identifier : ℕ
  pub data_length : ℕ
  pub «data» : List ℕ
  pub extended : Bool
  pub remote : Bool

pub data CodecError : Type 0 where
  no_error wrong_identifier wrong_length unsupported_frame reserved_bits invalid_enum : CodecError

-- What a decoder leaves behind: an error, under which its message is not written, or the message.
pub data Decoded {ℓ} (A : Type ℓ) : Type ℓ where
  failed : CodecError → Decoded A
  decoded : A → Decoded A

-- An identifier of the bus, `CanId`.
abbrev pub CanId : Type 0
CanId = ℕ

unfoldable pub frame : CanId → ℕ → CanFrame
frame id length = record {
  identifier = id;
  data_length = length;
  «data» = replicate 8 0;
  extended = false;
  remote = false;
}

-- Any frame with these eight bytes.
abbrev pub wire : ℕ → ℕ → Bool → Bool → ℕ → ℕ → ℕ → ℕ → ℕ → ℕ → ℕ → ℕ → CanFrame
wire id n x r b0 b1 b2 b3 b4 b5 b6 b7 = record {
  identifier = id;
  data_length = n;
  «data» = b0 ∷ b1 ∷ b2 ∷ b3 ∷ b4 ∷ b5 ∷ b6 ∷ b7 ∷ [];
  extended = x;
  remote = r;
}

-- `data[offset]`; all offsets of the code are below 8.
abbrev pub byte_at : List ℕ → ℕ → ℕ
byte_at bytes offset = elim (get_elem? bytes offset) [ none ↦ 0 | some b ↦ b ]

unfoldable pub put_u16 : List ℕ → ℕ → ℕ → List ℕ
put_u16 bytes offset value = set (set bytes offset (u8 value)) (offset + 1) (u8 (value / 2 ^ 8))

unfoldable pub put_u24 : List ℕ → ℕ → ℕ → List ℕ
put_u24 bytes offset value =
    set (set (set bytes offset (u8 value)) (offset + 1) (u8 (value / 2 ^ 8))) (offset + 2)
      (u8 (value / 2 ^ 16))

unfoldable pub put_u32 : List ℕ → ℕ → ℕ → List ℕ
put_u32 bytes offset value =
    set
      (set (set (set bytes offset (u8 value)) (offset + 1) (u8 (value / 2 ^ 8))) (offset + 2)
        (u8 (value / 2 ^ 16)))
      (offset + 3) (u8 (value / 2 ^ 24))

-- `std::copy` of the bytes to the place at the offset.
unfoldable pub put_bytes : List ℕ → ℕ → List ℕ → List ℕ
put_bytes bytes offset [] = bytes
put_bytes bytes offset (b ∷ bs) = put_bytes (set bytes offset b) (offset + 1) bs

-- The shifted bytes have no bit in common, so that their union is their sum.
unfoldable pub get_u16 : List ℕ → ℕ → ℕ
get_u16 bytes offset = byte_at bytes offset + byte_at bytes (offset + 1) * 2 ^ 8

unfoldable pub get_u24 : List ℕ → ℕ → ℕ
get_u24 bytes offset =
    byte_at bytes offset + byte_at bytes (offset + 1) * 2 ^ 8 + byte_at bytes (offset + 2) * 2 ^ 16

unfoldable pub get_u32 : List ℕ → ℕ → ℕ
get_u32 bytes offset =
    byte_at bytes offset
    + byte_at bytes (offset + 1) * 2 ^ 8
    + byte_at bytes (offset + 2) * 2 ^ 16
    + byte_at bytes (offset + 3) * 2 ^ 24

-- The six bytes from the third on.
abbrev pub payload : List ℕ → List ℕ
payload bytes =
    byte_at bytes 2
    ∷ byte_at bytes 3
    ∷ byte_at bytes 4
    ∷ byte_at bytes 5
    ∷ byte_at bytes 6
    ∷ byte_at bytes 7
    ∷ []

unfoldable pub validate : CanFrame → CanId → ℕ → CodecError
validate input id length =
    if input.extended || input.remote
    then unsupported_frame
    else if not (input.identifier == id)
    then wrong_identifier
    else if input.data_length == length
    then no_error
    else wrong_length

-- `if (error != CodecError::none) return error`, before the rest of a decoder.
abbrev pub validated {ℓ} : {A : Type ℓ} → CodecError → Decoded A → Decoded A
validated no_error rest = rest
validated error rest = failed error

-- A cast to an enumeration that is checked to have hit an enumerator.
abbrev pub with_enum {ℓ κ} : {A : Type ℓ} {B : Type κ} → Option A → (A → Decoded B) → Decoded B
with_enum none next = failed invalid_enum
with_enum (some value) next = next value

pub put_u16_bytes : (v : ℕ) → v < 2 ^ 16 → u8 v + u8 (v / 2 ^ 8) * 2 ^ 8 ≡ v
put_u16_bytes v h = omega arith

pub put_u24_bytes :
    (v : ℕ) → v < 2 ^ 24 → u8 v + u8 (v / 2 ^ 8) * 2 ^ 8 + u8 (v / 2 ^ 16) * 2 ^ 16 ≡ v
put_u24_bytes v h = omega arith

pub put_u32_bytes :
    (v : ℕ)
    → v < 2 ^ 32
    → u8 v + u8 (v / 2 ^ 8) * 2 ^ 8 + u8 (v / 2 ^ 16) * 2 ^ 16 + u8 (v / 2 ^ 24) * 2 ^ 24 ≡ v
put_u32_bytes v h = omega arith

pub length-6 : (bs : List ℕ) → length bs ≡ 6 → (a b c d e f : ℕ) × (bs ≡ a ∷ b ∷ c ∷ d ∷ e ∷ f ∷ [])
length-6 (a ∷ b ∷ c ∷ d ∷ e ∷ f ∷ []) h = (a, b, c, d, e, f, refl)
length-6 _ h = absurd (omega (arith, h))
