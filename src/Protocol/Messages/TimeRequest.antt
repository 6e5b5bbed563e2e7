-- ===== src/Protocol/Messages/TimeRequest.antt =====
-- protocol/can_protocol.cpp: `TimeRequest`.
use avi_99l_mission_board.Base.{ℕ, ◌<◌, ◌≡◌, Bool, set, arith}
use avi_99l_mission_board.Protocol.Frame.{
  CanFrame, Decoded, decoded, frame, byte_at, put_u16, put_u32, get_u16, get_u32, validate,
  validated, wire,
}

pub record TimeRequest : Type 0 where
  pub request_id : ℕ

unfoldable pub encode : TimeRequest → CanFrame
unfolding frame put_u16 put_u32
encode m = record (frame 0x012 1) { «data» = set ((frame 0x012 1).«data») 0 m.request_id }

unfoldable pub decode : CanFrame → Decoded TimeRequest
unfolding validate get_u16 get_u32
decode input =
    let bytes = input.«data» in
    validated (validate input 0x012 1) (decoded (record { request_id = byte_at bytes 0 }))

pub decode-encode_time_request : (m : TimeRequest) → decode (encode m) ≡ decoded m
unfolding encode decode
decode-encode_time_request m = ground arith

-- A frame that the decoder accepts, with eight bytes of which those past its length are 0, is the frame
-- that the encoder makes of the decoded message.
pub encode-decode_time_request :
    (id n : ℕ) (x r : Bool) (b0 : ℕ) {m : TimeRequest}
    → (b0 < 256)
    → decode (wire id n x r b0 0 0 0 0 0 0 0) ≡ decoded m
    → encode m ≡ wire id n x r b0 0 0 0 0 0 0 0
unfolding encode decode
encode-decode_time_request id n x r b0 {m} h d = ground arith
