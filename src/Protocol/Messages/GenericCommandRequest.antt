-- ===== src/Protocol/Messages/GenericCommandRequest.antt =====
-- protocol/can_protocol.cpp: `GenericCommandRequest`, with six argument bytes.
use avi_99l_mission_board.Base.{ℕ, ◌≡◌, refl, Bool, List, set, length, arith, subst, sym}
use avi_99l_mission_board.Protocol.Types.{GenericCommandRequest}
use avi_99l_mission_board.Protocol.Frame.{
  CanFrame, Decoded, decoded, frame, byte_at, put_bytes, payload, validate, validated, wire,
  length-6,
}

unfoldable pub encode : GenericCommandRequest → CanFrame
unfolding frame put_bytes
encode m = record (frame 0x010 8) {
  «data» =
      put_bytes (set (set (frame 0x010 8).«data» 0 m.transaction_id) 1 m.command) 2 m.arguments;
}

unfoldable pub decode : CanFrame → Decoded GenericCommandRequest
unfolding validate
decode input =
    let bytes = input.«data» in
    validated (validate input 0x010 8) (
      decoded (record {
        transaction_id = byte_at bytes 0;
        command = byte_at bytes 1;
        arguments = payload bytes;
      }))

pub decode-encode_generic_command_request :
    (m : GenericCommandRequest) → length m.arguments ≡ 6 → decode (encode m) ≡ decoded m
unfolding encode decode
decode-encode_generic_command_request m six =
    let (a, b, c, d, e, f, same) = length-6 m.arguments six in
    subst
      (λ (bs : List ℕ).
        decode (
          encode
            (record { transaction_id = m.transaction_id; command = m.command; arguments = bs }))
        ≡ decoded
            (record { transaction_id = m.transaction_id; command = m.command; arguments = bs }))
      (sym same) refl

-- A frame of eight bytes that the decoder accepts is, in its identifier, its length and every byte, the
-- frame that the encoder makes of the decoded message.
pub encode-decode_generic_command_request :
    (id n : ℕ) (x r : Bool) (b0 b1 b2 b3 b4 b5 b6 b7 : ℕ) {m : GenericCommandRequest}
    → decode (wire id n x r b0 b1 b2 b3 b4 b5 b6 b7) ≡ decoded m
    → encode m ≡ wire id n x r b0 b1 b2 b3 b4 b5 b6 b7
unfolding encode decode
encode-decode_generic_command_request id n x r b0 b1 b2 b3 b4 b5 b6 b7 {m} d = ground arith
