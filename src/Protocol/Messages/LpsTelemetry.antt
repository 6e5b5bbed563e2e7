-- ===== src/Protocol/Messages/LpsTelemetry.antt =====
-- protocol/can_protocol.cpp: `LpsTelemetry`, of which the pressure is a field of 11 bits.
use avi_99l_mission_board.Base.{
  ℕ, ◌^◌, ◌/◌, ◌%◌, ◌<◌, ◌≡◌, not, Bool, ◌==◌, if◌then◌else◌, set, arith,
}
use avi_99l_mission_board.Protocol.Frame.{
  CanFrame, Decoded, decoded, failed, reserved_bits, frame, byte_at, put_u16, put_u32, get_u16,
  get_u32, validate, validated, wire,
}

pub record LpsTelemetry : Type 0 where
  pub sequence : ℕ
  pub pressure_raw : ℕ
  pub temperature_raw : ℕ

unfoldable pub encode : LpsTelemetry → CanFrame
unfolding frame put_u16 put_u32
encode m = record (frame 0x108 4) {
  «data» =
      set (put_u16 (set ((frame 0x108 4).«data») 0 m.sequence) 1 (m.pressure_raw % 2 ^ 11)) 3
        m.temperature_raw;
}

unfoldable pub decode : CanFrame → Decoded LpsTelemetry
unfolding validate get_u16 get_u32
decode input =
    let bytes = input.«data» in
    validated (validate input 0x108 4) (
      if not (get_u16 bytes 1 / 2 ^ 11 == 0)
      then failed reserved_bits
      else decoded (record {
        sequence = byte_at bytes 0;
        pressure_raw = get_u16 bytes 1;
        temperature_raw = byte_at bytes 3;
      }))

-- The values that the message has room for.
abbrev pub Fits : LpsTelemetry → Type 0
Fits m = (m.pressure_raw < 2 ^ 11)

pub decode-encode_lps_telemetry : (m : LpsTelemetry) → Fits m → decode (encode m) ≡ decoded m
unfolding encode decode
decode-encode_lps_telemetry m fits = ground arith

-- A frame that the decoder accepts, with eight bytes of which those past its length are 0, is the frame
-- that the encoder makes of the decoded message.
pub encode-decode_lps_telemetry :
    (id n : ℕ) (x r : Bool) (b0 b1 b2 b3 : ℕ) {m : LpsTelemetry}
    → (b0 < 256) × (b1 < 256) × (b2 < 256) × (b3 < 256)
    → decode (wire id n x r b0 b1 b2 b3 0 0 0 0) ≡ decoded m
    → encode m ≡ wire id n x r b0 b1 b2 b3 0 0 0 0
unfolding encode decode
encode-decode_lps_telemetry id n x r b0 b1 b2 b3 {m} h d = ground arith
