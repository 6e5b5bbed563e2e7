-- ===== src/Protocol/Messages/MissionStatusTelemetry.antt =====
-- protocol/can_protocol.cpp: `MissionStatusTelemetry`.
use avi_99l_mission_board.Base.{ℕ, ◌^◌, ◌<◌, ◌≡◌, Bool, set, arith}
use avi_99l_mission_board.Protocol.Frame.{
  CanFrame, Decoded, decoded, frame, byte_at, put_u16, put_u32, get_u16, get_u32, validate,
  validated, with_enum, wire,
}
use avi_99l_mission_board.Protocol.Enums.Fin.{
  FinMode, fin_mode_code, fin_mode_of, fin_mode_of-code, fin_mode_code-of,
}
use avi_99l_mission_board.Protocol.Enums.Mission.{
  mission_state_code, mission_state_of, mission_state_of-code, mission_state_code-of,
}
use avi_99l_mission_board.Protocol.Enums.Para.{
  ParaMode, para_mode_code, para_mode_of, para_mode_of-code, para_mode_code-of,
}
use avi_99l_mission_board.Protocol.Types.{MissionState}

pub record MissionStatusTelemetry : Type 0 where
  pub sequence : ℕ
  pub state : MissionState
  pub flight_status : ℕ
  pub config_flags : ℕ
  pub fin_mode : FinMode
  pub para_mode : ParaMode
  pub parachute_angle_raw : ℕ

unfoldable pub encode : MissionStatusTelemetry → CanFrame
unfolding frame put_u16 put_u32
encode m = record (frame 0x102 8) {
  «data» =
      set
        (set
          (set
            (set
              (put_u16
                (set (set ((frame 0x102 8).«data») 0 m.sequence) 1 (mission_state_code m.state)) 2
                m.flight_status)
              4 m.config_flags)
            5 (fin_mode_code m.fin_mode))
          6 (para_mode_code m.para_mode))
        7 m.parachute_angle_raw;
}

unfoldable pub decode : CanFrame → Decoded MissionStatusTelemetry
unfolding validate get_u16 get_u32
decode input =
    let bytes = input.«data» in
    validated (validate input 0x102 8) (
      with_enum (mission_state_of (byte_at bytes 1)) (λ state.
        with_enum (fin_mode_of (byte_at bytes 5)) (λ fin_mode.
          with_enum (para_mode_of (byte_at bytes 6)) (λ para_mode. decoded (record {
            sequence = byte_at bytes 0;
            state = state;
            flight_status = get_u16 bytes 2;
            config_flags = byte_at bytes 4;
            fin_mode = fin_mode;
            para_mode = para_mode;
            parachute_angle_raw = byte_at bytes 7;
          })))))

-- The values that the message has room for.
abbrev pub Fits : MissionStatusTelemetry → Type 0
Fits m = (m.flight_status < 2 ^ 16)

pub decode-encode_mission_status_telemetry :
    (m : MissionStatusTelemetry) → Fits m → decode (encode m) ≡ decoded m
unfolding encode decode
decode-encode_mission_status_telemetry m fits = ground (
  arith,
  mission_state_of-code m.state,
  fin_mode_of-code m.fin_mode,
  para_mode_of-code m.para_mode,
)

-- A frame of eight bytes that the decoder accepts is, in its identifier, its length and every byte, the
-- frame that the encoder makes of the decoded message.
pub encode-decode_mission_status_telemetry :
    (id n : ℕ) (x r : Bool) (b0 b1 b2 b3 b4 b5 b6 b7 : ℕ) {m : MissionStatusTelemetry}
    → (b0 < 256)
      × (b1 < 256)
      × (b2 < 256)
      × (b3 < 256)
      × (b4 < 256)
      × (b5 < 256)
      × (b6 < 256)
      × (b7 < 256)
    → decode (wire id n x r b0 b1 b2 b3 b4 b5 b6 b7) ≡ decoded m
    → encode m ≡ wire id n x r b0 b1 b2 b3 b4 b5 b6 b7
unfolding encode decode
encode-decode_mission_status_telemetry id n x r b0 b1 b2 b3 b4 b5 b6 b7 {m} h d = ground (
  arith,
  mission_state_code-of b1 {x = m.state},
  fin_mode_code-of b5 {x = m.fin_mode},
  para_mode_code-of b6 {x = m.para_mode},
)
