-- ===== src/Protocol/Messages/PowerTimeTelemetry.antt =====
-- protocol/can_protocol.cpp: `PowerTimeTelemetry`, of which the flags are masked by 0x8F.
use avi_99l_mission_board.Base.{
  ℕ, ◌+◌, ◌*◌, ◌^◌, ◌/◌, ◌%◌, ◌<◌, ◌≡◌, not, Bool, ◌==◌, if◌then◌else◌, set, arith,
}
use avi_99l_mission_board.Protocol.Frame.{
  CanFrame, Decoded, decoded, failed, reserved_bits, frame, byte_at, put_u16, put_u32, get_u16,
  get_u32, validate, validated, wire,
}

pub record PowerTimeTelemetry : Type 0 where
  pub sequence : ℕ
  pub logic_voltage_raw : ℕ
  pub motor_voltage_raw : ℕ
  pub descent_elapsed_raw : ℕ
  pub recovery_elapsed_raw : ℕ
  pub persistence_flags : ℕ

unfoldable pub encode : PowerTimeTelemetry → CanFrame
unfolding frame put_u16 put_u32
encode m = record (frame 0x103 8) {
  «data» =
      set
        (put_u16
          (put_u16
            (set (set (set ((frame 0x103 8).«data») 0 m.sequence) 1 m.logic_voltage_raw) 2
              m.motor_voltage_raw)
            3 m.descent_elapsed_raw)
          5 m.recovery_elapsed_raw)
        7 (m.persistence_flags % 2 ^ 4 + m.persistence_flags / 2 ^ 7 % 2 * 2 ^ 7);
}

unfoldable pub decode : CanFrame → Decoded PowerTimeTelemetry
unfolding validate get_u16 get_u32
decode input =
    let bytes = input.«data» in
    validated (validate input 0x103 8) (
      if not (byte_at bytes 7 / 2 ^ 4 % 2 ^ 3 == 0)
      then failed reserved_bits
      else decoded (record {
        sequence = byte_at bytes 0;
        logic_voltage_raw = byte_at bytes 1;
        motor_voltage_raw = byte_at bytes 2;
        descent_elapsed_raw = get_u16 bytes 3;
        recovery_elapsed_raw = get_u16 bytes 5;
        persistence_flags = byte_at bytes 7;
      }))

-- The values that the message has room for.
abbrev pub Fits : PowerTimeTelemetry → Type 0
Fits m =
    (m.descent_elapsed_raw < 2 ^ 16)
    × (m.recovery_elapsed_raw < 2 ^ 16)
    × (m.persistence_flags < 2 ^ 8)
    × (m.persistence_flags / 2 ^ 4 % 2 ^ 3 ≡ 0)

pub decode-encode_power_time_telemetry :
    (m : PowerTimeTelemetry) → Fits m → decode (encode m) ≡ decoded m
unfolding encode decode
decode-encode_power_time_telemetry m fits = ground arith

-- A frame of eight bytes that the decoder accepts is, in its identifier, its length and every byte, the
-- frame that the encoder makes of the decoded message.
pub encode-decode_power_time_telemetry :
    (id n : ℕ) (x r : Bool) (b0 b1 b2 b3 b4 b5 b6 b7 : ℕ) {m : PowerTimeTelemetry}
    → (b0 < 256)
      × (b1 < 256)
      × (b2 < 256)
      × (b3 < 256)
      × (b4 < 256)
      × (b5 < 256)
      × (b6 < 256)
      × (b7 < 256)
    → decode (wire id n x r b0 b1 b2 b3 b4 b5 b6 b7) ≡ decoded m
    → encode m ≡ wire id n x r b0 b1 b2 b3 b4 b5 b6 b7
unfolding encode decode
encode-decode_power_time_telemetry id n x r b0 b1 b2 b3 b4 b5 b6 b7 {m} h d = ground arith
