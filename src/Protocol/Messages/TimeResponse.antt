-- ===== src/Protocol/Messages/TimeResponse.antt =====
-- protocol/can_protocol.cpp: `TimeResponse`.
use avi_99l_mission_board.Base.{ℕ, ◌^◌, ◌<◌, ◌≤◌, ◌≡◌, Bool, if◌then◌else◌, set, ltb, arith}
use avi_99l_mission_board.Protocol.Frame.{
  CanFrame, Decoded, decoded, failed, invalid_enum, frame, byte_at, put_u16, put_u32, get_u16,
  get_u32, validate, validated, with_enum, wire,
}
use avi_99l_mission_board.Protocol.Enums.Time.{
  TimeSource, time_source_code, time_source_of, time_source_of-code, time_source_code-of,
}

pub record TimeResponse : Type 0 where
  pub request_id : ℕ
  pub source : TimeSource
  pub unix_seconds : ℕ
  pub milliseconds : ℕ

unfoldable pub encode : TimeResponse → CanFrame
unfolding frame put_u16 put_u32
encode m = record (frame 0x013 8) {
  «data» =
      put_u16
        (put_u32 (set (set ((frame 0x013 8).«data») 0 m.request_id) 1 (time_source_code m.source)) 2
          m.unix_seconds)
        6 m.milliseconds;
}

unfoldable pub decode : CanFrame → Decoded TimeResponse
unfolding validate get_u16 get_u32
decode input =
    let bytes = input.«data» in
    validated (validate input 0x013 8) (
      with_enum (time_source_of (byte_at bytes 1)) (λ source.
        if ltb 999 (get_u16 bytes 6)
        then failed invalid_enum
        else decoded (record {
          request_id = byte_at bytes 0;
          source = source;
          unix_seconds = get_u32 bytes 2;
          milliseconds = get_u16 bytes 6;
        })))

-- The values that the message has room for.
abbrev pub Fits : TimeResponse → Type 0
Fits m = (m.unix_seconds < 2 ^ 32) × (m.milliseconds ≤ 999)

pub decode-encode_time_response : (m : TimeResponse) → Fits m → decode (encode m) ≡ decoded m
unfolding encode decode
decode-encode_time_response m fits = ground (arith, time_source_of-code m.source)

-- A frame of eight bytes that the decoder accepts is, in its identifier, its length and every byte, the
-- frame that the encoder makes of the decoded message.
pub encode-decode_time_response :
    (id n : ℕ) (x r : Bool) (b0 b1 b2 b3 b4 b5 b6 b7 : ℕ) {m : TimeResponse}
    → (b0 < 256)
      × (b1 < 256)
      × (b2 < 256)
      × (b3 < 256)
      × (b4 < 256)
      × (b5 < 256)
      × (b6 < 256)
      × (b7 < 256)
    → decode (wire id n x r b0 b1 b2 b3 b4 b5 b6 b7) ≡ decoded m
    → encode m ≡ wire id n x r b0 b1 b2 b3 b4 b5 b6 b7
unfolding encode decode
encode-decode_time_response id n x r b0 b1 b2 b3 b4 b5 b6 b7 {m} h d =
    ground (arith, time_source_code-of b1 {x = m.source})
