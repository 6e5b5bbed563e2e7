-- ===== src/Protocol/Types.antt =====
-- protocol/can_protocol.hpp: the enumerations and messages that the mission code shares.
use avi_99l_mission_board.Base.{ℕ, List, Bool, true, false}

-- The value `unknown` is 0xFF on the wire, the others count from 0.
pub data MissionState : Type 0 where
  command_receive liftoff_detection engine_burn control descent unknown : MissionState

pub data CommandPhase : Type 0 where
  accepted completed rejected failed : CommandPhase

pub data CommandReason : Type 0 where
  none busy invalid_state invalid_argument not_configured device_unavailable timeout stall :
      CommandReason
  protocol_error interrupted_by_emergency persistence_error internal_error not_supported :
      CommandReason
  safety_interlock already_satisfied : CommandReason

abbrev pub is_command_receive : MissionState → Bool
is_command_receive command_receive = true
is_command_receive _ = false

abbrev pub is_liftoff_detection : MissionState → Bool
is_liftoff_detection liftoff_detection = true
is_liftoff_detection _ = false

abbrev pub is_engine_burn : MissionState → Bool
is_engine_burn engine_burn = true
is_engine_burn _ = false

abbrev pub is_control : MissionState → Bool
is_control control = true
is_control _ = false

abbrev pub is_descent : MissionState → Bool
is_descent descent = true
is_descent _ = false

-- `arguments` are six bytes.
pub record GenericCommandRequest : Type 0 where
  pub transaction_id : ℕ
  pub command : ℕ
  pub arguments : List ℕ

pub record CommandResult : Type 0 where
  pub transaction_id : ℕ
  pub command : ℕ
  pub phase : CommandPhase
  pub reason : CommandReason
  pub detail : ℕ
