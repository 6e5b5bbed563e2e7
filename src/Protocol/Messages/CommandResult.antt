-- ===== src/Protocol/Messages/CommandResult.antt =====
-- protocol/can_protocol.cpp: `CommandResult`.
use avi_99l_mission_board.Base.{ℕ, ◌^◌, ◌<◌, ◌≡◌, Bool, set, arith}
use avi_99l_mission_board.Protocol.Frame.{
  CanFrame, Decoded, decoded, frame, byte_at, put_u16, put_u32, get_u16, get_u32, validate,
  validated, with_enum, wire,
}
use avi_99l_mission_board.Protocol.Types.{CommandResult}
use avi_99l_mission_board.Protocol.Enums.Mission.{
  command_phase_code, command_phase_of, command_phase_of-code, command_phase_code-of,
  command_reason_code, command_reason_of, command_reason_of-code, command_reason_code-of,
}

unfoldable pub encode : CommandResult → CanFrame
unfolding frame put_u16 put_u32
encode m = record (frame 0x011 8) {
  «data» =
      put_u32
        (set
          (set (set (set ((frame 0x011 8).«data») 0 m.transaction_id) 1 m.command) 2
            (command_phase_code m.phase))
          3 (command_reason_code m.reason))
        4 m.detail;
}

unfoldable pub decode : CanFrame → Decoded CommandResult
unfolding validate get_u16 get_u32
decode input =
    let bytes = input.«data» in
    validated (validate input 0x011 8) (
      with_enum (command_phase_of (byte_at bytes 2)) (λ phase.
        with_enum (command_reason_of (byte_at bytes 3)) (λ reason. decoded (record {
          transaction_id = byte_at bytes 0;
          command = byte_at bytes 1;
          phase = phase;
          reason = reason;
          detail = get_u32 bytes 4;
        }))))

-- The values that the message has room for.
abbrev pub Fits : CommandResult → Type 0
Fits m = (m.detail < 2 ^ 32)

pub decode-encode_command_result : (m : CommandResult) → Fits m → decode (encode m) ≡ decoded m
unfolding encode decode
decode-encode_command_result m fits =
    ground (arith, command_phase_of-code m.phase, command_reason_of-code m.reason)

-- A frame of eight bytes that the decoder accepts is, in its identifier, its length and every byte, the
-- frame that the encoder makes of the decoded message.
pub encode-decode_command_result :
    (id n : ℕ) (x r : Bool) (b0 b1 b2 b3 b4 b5 b6 b7 : ℕ) {m : CommandResult}
    → (b0 < 256)
      × (b1 < 256)
      × (b2 < 256)
      × (b3 < 256)
      × (b4 < 256)
      × (b5 < 256)
      × (b6 < 256)
      × (b7 < 256)
    → decode (wire id n x r b0 b1 b2 b3 b4 b5 b6 b7) ≡ decoded m
    → encode m ≡ wire id n x r b0 b1 b2 b3 b4 b5 b6 b7
unfolding encode decode
encode-decode_command_result id n x r b0 b1 b2 b3 b4 b5 b6 b7 {m} h d =
    ground (arith, command_phase_code-of b2 {x = m.phase}, command_reason_code-of b3 {x = m.reason})
