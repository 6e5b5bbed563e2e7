-- ===== src/Protocol/Messages/KinematicsTelemetry.antt =====
-- protocol/can_protocol.cpp: `KinematicsTelemetry`.
use avi_99l_mission_board.Base.{ℕ, ◌^◌, ◌<◌, ◌≡◌, Bool, set, arith}
use avi_99l_mission_board.Protocol.Frame.{
  CanFrame, Decoded, decoded, frame, byte_at, put_u16, put_u32, get_u16, get_u32, validate,
  validated, wire,
}

pub record KinematicsTelemetry : Type 0 where
  pub sequence : ℕ
  pub roll_raw : ℕ
  pub roll_rate_raw : ℕ
  pub fin_angle_raw : ℕ
  pub fin_rate_raw : ℕ

unfoldable pub encode : KinematicsTelemetry → CanFrame
unfolding frame put_u16 put_u32
encode m = record (frame 0x100 8) {
  «data» =
      put_u16
        (set
          (put_u16 (put_u16 (set ((frame 0x100 8).«data») 0 m.sequence) 1 m.roll_raw) 3
            m.roll_rate_raw)
          5 m.fin_angle_raw)
        6 m.fin_rate_raw;
}

unfoldable pub decode : CanFrame → Decoded KinematicsTelemetry
unfolding validate get_u16 get_u32
decode input =
    let bytes = input.«data» in
    validated (validate input 0x100 8) (
      decoded (record {
        sequence = byte_at bytes 0;
        roll_raw = get_u16 bytes 1;
        roll_rate_raw = get_u16 bytes 3;
        fin_angle_raw = byte_at bytes 5;
        fin_rate_raw = get_u16 bytes 6;
      }))

-- The values that the message has room for.
abbrev pub Fits : KinematicsTelemetry → Type 0
Fits m = (m.roll_raw < 2 ^ 16) × (m.roll_rate_raw < 2 ^ 16) × (m.fin_rate_raw < 2 ^ 16)

pub decode-encode_kinematics_telemetry :
    (m : KinematicsTelemetry) → Fits m → decode (encode m) ≡ decoded m
unfolding encode decode
decode-encode_kinematics_telemetry m fits = ground arith

-- A frame of eight bytes that the decoder accepts is, in its identifier, its length and every byte, the
-- frame that the encoder makes of the decoded message.
pub encode-decode_kinematics_telemetry :
    (id n : ℕ) (x r : Bool) (b0 b1 b2 b3 b4 b5 b6 b7 : ℕ) {m : KinematicsTelemetry}
    → (b0 < 256)
      × (b1 < 256)
      × (b2 < 256)
      × (b3 < 256)
      × (b4 < 256)
      × (b5 < 256)
      × (b6 < 256)
      × (b7 < 256)
    → decode (wire id n x r b0 b1 b2 b3 b4 b5 b6 b7) ≡ decoded m
    → encode m ≡ wire id n x r b0 b1 b2 b3 b4 b5 b6 b7
unfolding encode decode
encode-decode_kinematics_telemetry id n x r b0 b1 b2 b3 b4 b5 b6 b7 {m} h d = ground arith
