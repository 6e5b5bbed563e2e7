-- ===== src/Protocol/Messages/MissionEvent.antt =====
-- protocol/can_protocol.cpp: `MissionEvent`.
use avi_99l_mission_board.Base.{ℕ, ◌^◌, ◌<◌, ◌≡◌, Bool, set, arith}
use avi_99l_mission_board.Protocol.Frame.{
  CanFrame, Decoded, decoded, frame, byte_at, put_u16, put_u32, get_u16, get_u32, validate,
  validated, with_enum, wire,
}
use avi_99l_mission_board.Protocol.Enums.Mission.{
  mission_state_code, mission_state_of, mission_state_of-code, mission_state_code-of,
}
use avi_99l_mission_board.Protocol.Types.{MissionState}

pub record MissionEvent : Type 0 where
  pub sequence : ℕ
  pub flags : ℕ
  pub state : MissionState
  pub elapsed_raw : ℕ
  pub detail : ℕ

unfoldable pub encode : MissionEvent → CanFrame
unfolding frame put_u16 put_u32
encode m = record (frame 0x020 8) {
  «data» =
      put_u16
        (put_u16
          (set (put_u16 (set ((frame 0x020 8).«data») 0 m.sequence) 1 m.flags) 3
            (mission_state_code m.state))
          4 m.elapsed_raw)
        6 m.detail;
}

unfoldable pub decode : CanFrame → Decoded MissionEvent
unfolding validate get_u16 get_u32
decode input =
    let bytes = input.«data» in
    validated (validate input 0x020 8) (
      with_enum (mission_state_of (byte_at bytes 3)) (λ state. decoded (record {
        sequence = byte_at bytes 0;
        flags = get_u16 bytes 1;
        state = state;
        elapsed_raw = get_u16 bytes 4;
        detail = get_u16 bytes 6;
      })))

-- The values that the message has room for.
abbrev pub Fits : MissionEvent → Type 0
Fits m = (m.flags < 2 ^ 16) × (m.elapsed_raw < 2 ^ 16) × (m.detail < 2 ^ 16)

pub decode-encode_mission_event : (m : MissionEvent) → Fits m → decode (encode m) ≡ decoded m
unfolding encode decode
decode-encode_mission_event m fits = ground (arith, mission_state_of-code m.state)

-- A frame of eight bytes that the decoder accepts is, in its identifier, its length and every byte, the
-- frame that the encoder makes of the decoded message.
pub encode-decode_mission_event :
    (id n : ℕ) (x r : Bool) (b0 b1 b2 b3 b4 b5 b6 b7 : ℕ) {m : MissionEvent}
    → (b0 < 256)
      × (b1 < 256)
      × (b2 < 256)
      × (b3 < 256)
      × (b4 < 256)
      × (b5 < 256)
      × (b6 < 256)
      × (b7 < 256)
    → decode (wire id n x r b0 b1 b2 b3 b4 b5 b6 b7) ≡ decoded m
    → encode m ≡ wire id n x r b0 b1 b2 b3 b4 b5 b6 b7
unfolding encode decode
encode-decode_mission_event id n x r b0 b1 b2 b3 b4 b5 b6 b7 {m} h d =
    ground (arith, mission_state_code-of b3 {x = m.state})
