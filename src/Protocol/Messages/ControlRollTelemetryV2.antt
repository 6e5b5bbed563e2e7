-- ===== src/Protocol/Messages/ControlRollTelemetryV2.antt =====
-- protocol/can_protocol.cpp: `ControlRollTelemetryV2`, with its flags and its status signature.
use avi_99l_mission_board.Base.{
  ℕ, ◌+◌, ◌*◌, ◌^◌, ◌/◌, ◌%◌, ◌<◌, ◌≡◌, ◌↔◌, Bool, not, ◌&&◌, ◌||◌, ◌==◌, leb, if◌then◌else◌, set,
  arith,
}
use avi_99l_mission_board.Protocol.Frame.{
  CanFrame, Decoded, decoded, failed, reserved_bits, invalid_enum, frame, byte_at, put_u16, get_u16,
  validate, validated, wire,
}

pub record ControlRollTelemetryV2 : Type 0 where
  pub sequence : ℕ
  pub control_roll_reference_unwrapped_raw : ℕ
  pub roll_deviation_unwrapped_raw : ℕ
  pub flags : ℕ
  pub reference_capture_event_sequence : ℕ

abbrev pub schema_version : ℕ
schema_version = 2

-- `RollError::out_of_range`.
abbrev pub out_of_range : ℕ
out_of_range = 0x800A

-- The flags of bits 3 and 4.
abbrev pub reference_out_of_range : ℕ → Bool
reference_out_of_range flags = not (flags / 2 ^ 3 % 2 == 0)

abbrev pub deviation_out_of_range : ℕ → Bool
deviation_out_of_range flags = not (flags / 2 ^ 4 % 2 == 0)

-- `a != b` of two Booleans.
abbrev pub differ : Bool → Bool → Bool
differ a b = if a then not b else b

unfoldable pub encode : ControlRollTelemetryV2 → CanFrame
unfolding frame put_u16
encode m = record (frame 0x10A 8) {
  «data» =
      set
        (set
          (put_u16
            (put_u16 (set (set (frame 0x10A 8).«data» 0 m.sequence) 1 schema_version) 2
              m.control_roll_reference_unwrapped_raw)
            4 m.roll_deviation_unwrapped_raw)
          6 (m.flags % 2 ^ 5))
        7 m.reference_capture_event_sequence;
}

unfoldable pub decode : CanFrame → Decoded ControlRollTelemetryV2
unfolding validate get_u16
decode input =
    let bytes = input.«data» in
    let flags = byte_at bytes 6 in
    validated (validate input 0x10A 8) (
      if not (byte_at bytes 1 == schema_version)
      then failed invalid_enum
      else if not (flags / 2 ^ 5 % 2 ^ 3 == 0)
      then failed reserved_bits
      else if differ (get_u16 bytes 2 == out_of_range) (reference_out_of_range flags)
          || differ (get_u16 bytes 4 == out_of_range) (deviation_out_of_range flags)
      then failed invalid_enum
      else decoded (record {
        sequence = byte_at bytes 0;
        control_roll_reference_unwrapped_raw = get_u16 bytes 2;
        roll_deviation_unwrapped_raw = get_u16 bytes 4;
        flags = flags;
        reference_capture_event_sequence = byte_at bytes 7;
      }))

unfoldable pub control_roll_quality_code : ℕ → ℕ
control_roll_quality_code raw = if leb 0x8000 raw && leb raw 0x800F then raw % 2 ^ 4 + 1 else 0

-- The flags of bits 0, 2, 3 and 4, and above them the two quality codes of at most five bits.
unfoldable pub control_roll_status_signature : ℕ → ℕ → ℕ → ℕ
unfolding control_roll_quality_code
control_roll_status_signature reference_raw deviation_raw flags =
    flags % 2
    + flags / 2 ^ 2 % 2 ^ 3 * 2 ^ 2
    + control_roll_quality_code reference_raw * 2 ^ 8
    + control_roll_quality_code deviation_raw * 2 ^ 13

-- The values that the message has room for, with out-of-range flags that say what the values say.
abbrev pub Fits : ControlRollTelemetryV2 → Type 0
Fits m =
    (m.control_roll_reference_unwrapped_raw < 2 ^ 16)
    × (m.roll_deviation_unwrapped_raw < 2 ^ 16)
    × (m.flags < 2 ^ 5)
    × ((m.control_roll_reference_unwrapped_raw ≡ out_of_range) ↔ (m.flags / 2 ^ 3 % 2 ≡ 1))
    × ((m.roll_deviation_unwrapped_raw ≡ out_of_range) ↔ (m.flags / 2 ^ 4 % 2 ≡ 1))

pub decode-encode_control_roll :
    (m : ControlRollTelemetryV2) → Fits m → decode (encode m) ≡ decoded m
unfolding encode decode
decode-encode_control_roll m fits = ground arith

-- A frame of eight bytes that the decoder accepts is, in its identifier, its length and every byte, the
-- frame that the encoder makes of the decoded message.
pub encode-decode_control_roll :
    (id n : ℕ) (x r : Bool) (b0 b1 b2 b3 b4 b5 b6 b7 : ℕ) {m : ControlRollTelemetryV2}
    → (b0 < 256)
      × (b1 < 256)
      × (b2 < 256)
      × (b3 < 256)
      × (b4 < 256)
      × (b5 < 256)
      × (b6 < 256)
      × (b7 < 256)
    → decode (wire id n x r b0 b1 b2 b3 b4 b5 b6 b7) ≡ decoded m
    → encode m ≡ wire id n x r b0 b1 b2 b3 b4 b5 b6 b7
unfolding encode decode
encode-decode_control_roll id n x r b0 b1 b2 b3 b4 b5 b6 b7 {m} h d = ground arith

-- The code of a value tells the sixteen error values apart from each other and from all others, so
-- that the status signature of a frame changes with every change of either quality, and conversely
-- only with such a change or one of the four status flags.
pub control_roll_status_signature_lem :
    (a b c d f g : ℕ)
    → (control_roll_status_signature a b f ≡ control_roll_status_signature c d g) ↔ (
        (control_roll_quality_code a ≡ control_roll_quality_code c)
        × (control_roll_quality_code b ≡ control_roll_quality_code d)
        × (f % 2 ≡ g % 2)
        × (f / 2 ^ 2 % 2 ^ 3 ≡ g / 2 ^ 2 % 2 ^ 3))
unfolding control_roll_status_signature
control_roll_status_signature_lem a b c d f g = (ground arith, ground arith)
