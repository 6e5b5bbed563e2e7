-- ===== src/Protocol/Messages/RecoveryModeCommand.antt =====
-- protocol/can_protocol.cpp: `RecoveryModeCommand`.
use avi_99l_mission_board.Base.{ℕ, ◌<◌, ◌≡◌, Bool, set, arith}
use avi_99l_mission_board.Protocol.Frame.{
  CanFrame, Decoded, decoded, frame, byte_at, put_u16, put_u32, get_u16, get_u32, validate,
  validated, with_enum, wire,
}
use avi_99l_mission_board.Protocol.Enums.Recovery.{
  RecoveryMode, recovery_mode_code, recovery_mode_of, recovery_mode_of-code, recovery_mode_code-of,
  RecoveryModeReason, recovery_mode_reason_code, recovery_mode_reason_of,
  recovery_mode_reason_of-code, recovery_mode_reason_code-of,
}

pub record RecoveryModeCommand : Type 0 where
  pub sequence : ℕ
  pub mode : RecoveryMode
  pub reason : RecoveryModeReason

unfoldable pub encode : RecoveryModeCommand → CanFrame
unfolding frame put_u16 put_u32
encode m = record (frame 0x014 3) {
  «data» =
      set (set (set ((frame 0x014 3).«data») 0 m.sequence) 1 (recovery_mode_code m.mode)) 2
        (recovery_mode_reason_code m.reason);
}

unfoldable pub decode : CanFrame → Decoded RecoveryModeCommand
unfolding validate get_u16 get_u32
decode input =
    let bytes = input.«data» in
    validated (validate input 0x014 3) (
      with_enum (recovery_mode_of (byte_at bytes 1)) (λ mode.
        with_enum (recovery_mode_reason_of (byte_at bytes 2)) (λ reason.
          decoded (record { sequence = byte_at bytes 0; mode = mode; reason = reason }))))

pub decode-encode_recovery_mode_command : (m : RecoveryModeCommand) → decode (encode m) ≡ decoded m
unfolding encode decode
decode-encode_recovery_mode_command m =
    ground (arith, recovery_mode_of-code m.mode, recovery_mode_reason_of-code m.reason)

-- A frame that the decoder accepts, with eight bytes of which those past its length are 0, is the frame
-- that the encoder makes of the decoded message.
pub encode-decode_recovery_mode_command :
    (id n : ℕ) (x r : Bool) (b0 b1 b2 : ℕ) {m : RecoveryModeCommand}
    → (b0 < 256) × (b1 < 256) × (b2 < 256)
    → decode (wire id n x r b0 b1 b2 0 0 0 0 0) ≡ decoded m
    → encode m ≡ wire id n x r b0 b1 b2 0 0 0 0 0
unfolding encode decode
encode-decode_recovery_mode_command id n x r b0 b1 b2 {m} h d =
    ground
      (arith, recovery_mode_code-of b1 {x = m.mode}, recovery_mode_reason_code-of b2 {x = m.reason})
