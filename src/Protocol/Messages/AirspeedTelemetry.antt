-- ===== src/Protocol/Messages/AirspeedTelemetry.antt =====
-- protocol/can_protocol.cpp: `AirspeedTelemetry`.
use avi_99l_mission_board.Base.{ℕ, ◌<◌, ◌≡◌, Bool, set, arith}
use avi_99l_mission_board.Protocol.Frame.{
  CanFrame, Decoded, decoded, frame, byte_at, put_u16, put_u32, get_u16, get_u32, validate,
  validated, wire,
}

pub record AirspeedTelemetry : Type 0 where
  pub sequence : ℕ
  pub airspeed_raw : ℕ

unfoldable pub encode : AirspeedTelemetry → CanFrame
unfolding frame put_u16 put_u32
encode m = record (frame 0x109 2) {
  «data» = set (set ((frame 0x109 2).«data») 0 m.sequence) 1 m.airspeed_raw;
}

unfoldable pub decode : CanFrame → Decoded AirspeedTelemetry
unfolding validate get_u16 get_u32
decode input =
    let bytes = input.«data» in
    validated (validate input 0x109 2)
      (decoded (record { sequence = byte_at bytes 0; airspeed_raw = byte_at bytes 1 }))

pub decode-encode_airspeed_telemetry : (m : AirspeedTelemetry) → decode (encode m) ≡ decoded m
unfolding encode decode
decode-encode_airspeed_telemetry m = ground arith

-- A frame that the decoder accepts, with eight bytes of which those past its length are 0, is the frame
-- that the encoder makes of the decoded message.
pub encode-decode_airspeed_telemetry :
    (id n : ℕ) (x r : Bool) (b0 b1 : ℕ) {m : AirspeedTelemetry}
    → (b0 < 256) × (b1 < 256)
    → decode (wire id n x r b0 b1 0 0 0 0 0 0) ≡ decoded m
    → encode m ≡ wire id n x r b0 b1 0 0 0 0 0 0
unfolding encode decode
encode-decode_airspeed_telemetry id n x r b0 b1 {m} h d = ground arith
