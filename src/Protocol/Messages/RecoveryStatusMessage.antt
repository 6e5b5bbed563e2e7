-- ===== src/Protocol/Messages/RecoveryStatusMessage.antt =====
-- protocol/can_protocol.cpp: `RecoveryStatusMessage`.
use avi_99l_mission_board.Base.{ℕ, ◌^◌, ◌<◌, ◌≡◌, Bool, set, arith}
use avi_99l_mission_board.Protocol.Frame.{
  CanFrame, Decoded, decoded, frame, byte_at, put_u16, put_u32, get_u16, get_u32, validate,
  validated, with_enum, wire,
}
use avi_99l_mission_board.Protocol.Enums.Recovery.{
  RecoveryOpcode, recovery_opcode_code, recovery_opcode_of, recovery_opcode_of-code,
  recovery_opcode_code-of, RecoveryStatusCode, recovery_status_code, recovery_status_of,
  recovery_status_of-code, recovery_status_code-of, RecoverySource, recovery_source_code,
  recovery_source_of, recovery_source_of-code, recovery_source_code-of,
}

pub record RecoveryStatusMessage : Type 0 where
  pub opcode : RecoveryOpcode
  pub transfer_id : ℕ
  pub status : RecoveryStatusCode
  pub source : RecoverySource
  pub total_size : ℕ

unfoldable pub encode : RecoveryStatusMessage → CanFrame
unfolding frame put_u16 put_u32
encode m = record (frame 0x105 8) {
  «data» =
      put_u32
        (set
          (set
            (set (set ((frame 0x105 8).«data») 0 (recovery_opcode_code m.opcode)) 1 m.transfer_id) 2
            (recovery_status_code m.status))
          3 (recovery_source_code m.source))
        4 m.total_size;
}

unfoldable pub decode : CanFrame → Decoded RecoveryStatusMessage
unfolding validate get_u16 get_u32
decode input =
    let bytes = input.«data» in
    validated (validate input 0x105 8) (
      with_enum (recovery_opcode_of (byte_at bytes 0)) (λ opcode.
        with_enum (recovery_status_of (byte_at bytes 2)) (λ status.
          with_enum (recovery_source_of (byte_at bytes 3)) (λ source. decoded (record {
            opcode = opcode;
            transfer_id = byte_at bytes 1;
            status = status;
            source = source;
            total_size = get_u32 bytes 4;
          })))))

-- The values that the message has room for.
abbrev pub Fits : RecoveryStatusMessage → Type 0
Fits m = (m.total_size < 2 ^ 32)

pub decode-encode_recovery_status_message :
    (m : RecoveryStatusMessage) → Fits m → decode (encode m) ≡ decoded m
unfolding encode decode
decode-encode_recovery_status_message m fits = ground (
  arith,
  recovery_opcode_of-code m.opcode,
  recovery_status_of-code m.status,
  recovery_source_of-code m.source,
)

-- A frame of eight bytes that the decoder accepts is, in its identifier, its length and every byte, the
-- frame that the encoder makes of the decoded message.
pub encode-decode_recovery_status_message :
    (id n : ℕ) (x r : Bool) (b0 b1 b2 b3 b4 b5 b6 b7 : ℕ) {m : RecoveryStatusMessage}
    → (b0 < 256)
      × (b1 < 256)
      × (b2 < 256)
      × (b3 < 256)
      × (b4 < 256)
      × (b5 < 256)
      × (b6 < 256)
      × (b7 < 256)
    → decode (wire id n x r b0 b1 b2 b3 b4 b5 b6 b7) ≡ decoded m
    → encode m ≡ wire id n x r b0 b1 b2 b3 b4 b5 b6 b7
unfolding encode decode
encode-decode_recovery_status_message id n x r b0 b1 b2 b3 b4 b5 b6 b7 {m} h d = ground (
  arith,
  recovery_opcode_code-of b0 {x = m.opcode},
  recovery_status_code-of b2 {x = m.status},
  recovery_source_code-of b3 {x = m.source},
)
