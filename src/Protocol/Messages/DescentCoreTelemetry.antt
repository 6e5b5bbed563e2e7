-- ===== src/Protocol/Messages/DescentCoreTelemetry.antt =====
-- protocol/can_protocol.cpp: `DescentCoreTelemetry`, of which the status is a field of 5 bits.
use avi_99l_mission_board.Base.{
  ℕ, ◌^◌, ◌/◌, ◌%◌, ◌<◌, ◌≡◌, not, Bool, ◌==◌, if◌then◌else◌, set, arith,
}
use avi_99l_mission_board.Protocol.Frame.{
  CanFrame, Decoded, decoded, failed, reserved_bits, frame, byte_at, put_u16, put_u32, get_u16,
  get_u32, validate, validated, wire,
}

pub record DescentCoreTelemetry : Type 0 where
  pub sequence : ℕ
  pub descent_status : ℕ
  pub parachute_angle_raw : ℕ

unfoldable pub encode : DescentCoreTelemetry → CanFrame
unfolding frame put_u16 put_u32
encode m = record (frame 0x104 4) {
  «data» =
      set (put_u16 (set ((frame 0x104 4).«data») 0 m.sequence) 1 (m.descent_status % 2 ^ 5)) 3
        m.parachute_angle_raw;
}

unfoldable pub decode : CanFrame → Decoded DescentCoreTelemetry
unfolding validate get_u16 get_u32
decode input =
    let bytes = input.«data» in
    validated (validate input 0x104 4) (
      if not (get_u16 bytes 1 / 2 ^ 5 == 0)
      then failed reserved_bits
      else decoded (record {
        sequence = byte_at bytes 0;
        descent_status = get_u16 bytes 1;
        parachute_angle_raw = byte_at bytes 3;
      }))

-- The values that the message has room for.
abbrev pub Fits : DescentCoreTelemetry → Type 0
Fits m = (m.descent_status < 2 ^ 5)

pub decode-encode_descent_core_telemetry :
    (m : DescentCoreTelemetry) → Fits m → decode (encode m) ≡ decoded m
unfolding encode decode
decode-encode_descent_core_telemetry m fits = ground arith

-- A frame that the decoder accepts, with eight bytes of which those past its length are 0, is the frame
-- that the encoder makes of the decoded message.
pub encode-decode_descent_core_telemetry :
    (id n : ℕ) (x r : Bool) (b0 b1 b2 b3 : ℕ) {m : DescentCoreTelemetry}
    → (b0 < 256) × (b1 < 256) × (b2 < 256) × (b3 < 256)
    → decode (wire id n x r b0 b1 b2 b3 0 0 0 0) ≡ decoded m
    → encode m ≡ wire id n x r b0 b1 b2 b3 0 0 0 0
unfolding encode decode
encode-decode_descent_core_telemetry id n x r b0 b1 b2 b3 {m} h d = ground arith
