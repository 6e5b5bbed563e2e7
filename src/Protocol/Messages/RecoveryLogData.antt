-- ===== src/Protocol/Messages/RecoveryLogData.antt =====
-- protocol/can_protocol.cpp: `RecoveryLogData`, with six bytes of the log.
use avi_99l_mission_board.Base.{ℕ, ◌≡◌, refl, Bool, List, set, length, arith, subst, sym}
use avi_99l_mission_board.Protocol.Frame.{
  CanFrame, Decoded, decoded, frame, byte_at, put_bytes, payload, validate, validated, wire,
  length-6,
}

pub record RecoveryLogData : Type 0 where
  pub transfer_id : ℕ
  pub sequence : ℕ
  pub «data» : List ℕ

unfoldable pub encode : RecoveryLogData → CanFrame
unfolding frame put_bytes
encode m = record (frame 0x106 8) {
  «data» = put_bytes (set (set (frame 0x106 8).«data» 0 m.transfer_id) 1 m.sequence) 2 m.«data»;
}

unfoldable pub decode : CanFrame → Decoded RecoveryLogData
unfolding validate
decode input =
    let bytes = input.«data» in
    validated (validate input 0x106 8) (
      decoded (record {
        transfer_id = byte_at bytes 0;
        sequence = byte_at bytes 1;
        «data» = payload bytes;
      }))

pub decode-encode_recovery_log_data :
    (m : RecoveryLogData) → length m.«data» ≡ 6 → decode (encode m) ≡ decoded m
unfolding encode decode
decode-encode_recovery_log_data m six =
    let (a, b, c, d, e, f, same) = length-6 m.«data» six in
    subst
      (λ (bs : List ℕ).
        decode (encode (record { transfer_id = m.transfer_id; sequence = m.sequence; «data» = bs }))
        ≡ decoded (record { transfer_id = m.transfer_id; sequence = m.sequence; «data» = bs }))
      (sym same) refl

-- A frame of eight bytes that the decoder accepts is, in its identifier, its length and every byte, the
-- frame that the encoder makes of the decoded message.
pub encode-decode_recovery_log_data :
    (id n : ℕ) (x r : Bool) (b0 b1 b2 b3 b4 b5 b6 b7 : ℕ) {m : RecoveryLogData}
    → decode (wire id n x r b0 b1 b2 b3 b4 b5 b6 b7) ≡ decoded m
    → encode m ≡ wire id n x r b0 b1 b2 b3 b4 b5 b6 b7
unfolding encode decode
encode-decode_recovery_log_data id n x r b0 b1 b2 b3 b4 b5 b6 b7 {m} d = ground arith
