-- ===== src/Protocol/Messages/RecoveryControl.antt =====
-- protocol/can_protocol.cpp: `RecoveryControl`, whose first byte holds the opcode and the source.
use avi_99l_mission_board.Base.{
  ℕ, ◌+◌, ◌*◌, ◌^◌, ◌/◌, ◌%◌, ◌<◌, ◌≡◌, Bool, not, ◌==◌, if◌then◌else◌, set, arith,
}
use avi_99l_mission_board.Protocol.Frame.{
  CanFrame, Decoded, decoded, failed, reserved_bits, frame, byte_at, put_u24, get_u24, validate,
  validated, with_enum, wire,
}
use avi_99l_mission_board.Protocol.Enums.Recovery.{
  RecoveryOpcode, recovery_opcode_code, recovery_opcode_of, recovery_opcode_of-code,
  recovery_opcode_code-of, RecoverySource, recovery_source_code, recovery_source_of,
  recovery_source_of-code, recovery_source_code-of,
}

pub record RecoveryControl : Type 0 where
  pub opcode : RecoveryOpcode
  pub source : RecoverySource
  pub transfer_id : ℕ
  pub offset : ℕ
  pub length : ℕ

-- The opcode is in the low four bits and the source above them, so that their union is their sum.
unfoldable pub encode : RecoveryControl → CanFrame
unfolding frame put_u24
encode m = record (frame 0x008 8) {
  «data» =
      put_u24
        (put_u24
          (set
            (set (frame 0x008 8).«data» 0
              (recovery_opcode_code m.opcode + recovery_source_code m.source * 2 ^ 4))
            1 m.transfer_id)
          2 m.offset)
        5 m.length;
}

-- The source is one bit, so that its cast always hits an enumerator.
unfoldable pub decode : CanFrame → Decoded RecoveryControl
unfolding validate get_u24
decode input =
    let bytes = input.«data» in
    validated (validate input 0x008 8) (
      if not (byte_at bytes 0 / 2 ^ 5 % 2 ^ 3 == 0)
      then failed reserved_bits
      else with_enum (recovery_opcode_of (byte_at bytes 0 % 2 ^ 4)) (λ opcode.
        with_enum (recovery_source_of (byte_at bytes 0 / 2 ^ 4 % 2)) (λ source. decoded (record {
          opcode = opcode;
          source = source;
          transfer_id = byte_at bytes 1;
          offset = get_u24 bytes 2;
          length = get_u24 bytes 5;
        }))))

-- The values that the message has room for.
abbrev pub Fits : RecoveryControl → Type 0
Fits m = (m.offset < 2 ^ 24) × (m.length < 2 ^ 24)

opcode_low :
    (o : RecoveryOpcode) (s : RecoverySource)
    → (recovery_opcode_code o + recovery_source_code s * 2 ^ 4) % 2 ^ 4 ≡ recovery_opcode_code o
opcode_low o s = ground arith

source_high :
    (o : RecoveryOpcode) (s : RecoverySource)
    → (recovery_opcode_code o + recovery_source_code s * 2 ^ 4) / 2 ^ 4 % 2 ≡ recovery_source_code s
source_high o s = ground arith

nothing_above :
    (o : RecoveryOpcode) (s : RecoverySource)
    → (recovery_opcode_code o + recovery_source_code s * 2 ^ 4) / 2 ^ 5 % 2 ^ 3 ≡ 0
nothing_above o s = ground arith

pub decode-encode_recovery_control : (m : RecoveryControl) → Fits m → decode (encode m) ≡ decoded m
unfolding encode decode
decode-encode_recovery_control m fits = ground (
  arith,
  opcode_low m.opcode m.source,
  source_high m.opcode m.source,
  nothing_above m.opcode m.source,
  recovery_opcode_of-code m.opcode,
  recovery_source_of-code m.source,
)

-- A frame of eight bytes that the decoder accepts is, in its identifier, its length and every byte, the
-- frame that the encoder makes of the decoded message.
pub encode-decode_recovery_control :
    (id n : ℕ) (x r : Bool) (b0 b1 b2 b3 b4 b5 b6 b7 : ℕ) {m : RecoveryControl}
    → (b0 < 256)
      × (b1 < 256)
      × (b2 < 256)
      × (b3 < 256)
      × (b4 < 256)
      × (b5 < 256)
      × (b6 < 256)
      × (b7 < 256)
    → decode (wire id n x r b0 b1 b2 b3 b4 b5 b6 b7) ≡ decoded m
    → encode m ≡ wire id n x r b0 b1 b2 b3 b4 b5 b6 b7
unfolding encode decode
encode-decode_recovery_control id n x r b0 b1 b2 b3 b4 b5 b6 b7 {m} h d = ground (
  arith,
  recovery_opcode_code-of (b0 % 2 ^ 4) {x = m.opcode},
  recovery_source_code-of (b0 / 2 ^ 4 % 2) {x = m.source},
)
