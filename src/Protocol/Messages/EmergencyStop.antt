-- ===== src/Protocol/Messages/EmergencyStop.antt =====
-- protocol/can_protocol.cpp: `EmergencyStop`, which two identifiers carry.
use avi_99l_mission_board.Base.{ℕ, ◌≡◌, ◌⊎◌, not, ◌&&◌, ◌==◌, if◌then◌else◌, set, arith}
use avi_99l_mission_board.Protocol.Frame.{
  CanFrame, CanId, Decoded, decoded, failed, wrong_identifier, frame, byte_at, validate, validated,
}

pub record EmergencyStop : Type 0 where
  pub transaction_id : ℕ

unfoldable pub encode : CanId → EmergencyStop → CanFrame
unfolding frame
encode id m = record (frame id 1) { «data» = set (frame id 1).«data» 0 m.transaction_id }

unfoldable pub decode : CanFrame → CanId → Decoded EmergencyStop
unfolding validate
decode input id =
    if not (id == 0x001) && not (id == 0x002)
    then failed wrong_identifier
    else validated (validate input id 1)
        (decoded (record { transaction_id = byte_at input.«data» 0 }))

-- The actuator stop and the liftoff rollback.
abbrev pub IsStop : CanId → Type 0
IsStop id = (id ≡ 0x001) ⊎ (id ≡ 0x002)

pub decode-encode_emergency_stop :
    (id : CanId) (m : EmergencyStop) → IsStop id → decode (encode id m) id ≡ decoded m
unfolding encode decode
decode-encode_emergency_stop id m s = ground arith

-- A stop is only ever taken from a frame with the identifier that was asked for, so that neither of
-- the two stops is mistaken for the other.
pub decode_emergency_stop_sound :
    (input : CanFrame) (id : CanId) {m : EmergencyStop}
    → decode input id ≡ decoded m
    → IsStop id × (input.identifier ≡ id)
unfolding decode
decode_emergency_stop_sound input id d = (ground arith, ground arith)
