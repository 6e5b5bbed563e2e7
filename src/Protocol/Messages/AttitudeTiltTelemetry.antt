-- ===== src/Protocol/Messages/AttitudeTiltTelemetry.antt =====
-- protocol/can_protocol.cpp: `AttitudeTiltTelemetry`, which packs two fields of 7 and 9 bits.
use avi_99l_mission_board.Base.{ℕ, ◌+◌, ◌*◌, ◌^◌, ◌/◌, ◌%◌, ◌<◌, ◌≡◌, Bool, set, arith}
use avi_99l_mission_board.Protocol.Frame.{
  CanFrame, Decoded, decoded, frame, byte_at, put_u16, get_u16, validate, validated, wire,
}

pub record AttitudeTiltTelemetry : Type 0 where
  pub sequence : ℕ
  pub magnitude_raw : ℕ
  pub direction_raw : ℕ

-- The magnitude is in the low seven bits and the direction above them.
unfoldable pub encode : AttitudeTiltTelemetry → CanFrame
unfolding frame put_u16
encode m = record (frame 0x107 3) {
  «data» =
      put_u16 (set (frame 0x107 3).«data» 0 m.sequence) 1
        (m.magnitude_raw % 2 ^ 7 + m.direction_raw % 2 ^ 9 * 2 ^ 7);
}

unfoldable pub decode : CanFrame → Decoded AttitudeTiltTelemetry
unfolding validate get_u16
decode input =
    let bytes = input.«data» in
    let packed = get_u16 bytes 1 in
    validated (validate input 0x107 3) (
      decoded (record {
        sequence = byte_at bytes 0;
        magnitude_raw = packed % 2 ^ 7;
        direction_raw = packed / 2 ^ 7;
      }))

-- The values that the message has room for.
abbrev pub Fits : AttitudeTiltTelemetry → Type 0
Fits m = (m.magnitude_raw < 2 ^ 7) × (m.direction_raw < 2 ^ 9)

pub decode-encode_attitude_tilt_telemetry :
    (m : AttitudeTiltTelemetry) → Fits m → decode (encode m) ≡ decoded m
unfolding encode decode
decode-encode_attitude_tilt_telemetry m fits = ground arith

-- A frame that the decoder accepts, with eight bytes of which those past its length are 0, is the frame
-- that the encoder makes of the decoded message.
pub encode-decode_attitude_tilt_telemetry :
    (id n : ℕ) (x r : Bool) (b0 b1 b2 : ℕ) {m : AttitudeTiltTelemetry}
    → (b0 < 256) × (b1 < 256) × (b2 < 256)
    → decode (wire id n x r b0 b1 b2 0 0 0 0 0) ≡ decoded m
    → encode m ≡ wire id n x r b0 b1 b2 0 0 0 0 0
unfolding encode decode
encode-decode_attitude_tilt_telemetry id n x r b0 b1 b2 {m} h d = ground arith
