-- ===== src/Mission/Executor.antt =====
-- mission/command_executor.cpp: `CommandExecutor`, the cache of command results that makes a command
-- with one transaction id run once, and the interlocks between commands.
pub mod Cache
pub mod Calls
pub mod Slots
pub mod Invariant
pub mod Begin
pub mod Once
pub mod Replay
pub mod Finish
pub mod Emergency
pub mod Histories
mod Examples
use avi_99l_mission_board.Base.{
  ℕ, ◌+◌, Bool, true, false, not, ◌&&◌, ◌||◌, List, [], ◌∷◌, ◌++◌, Option, none, some, ◌==◌, ltb,
  if◌then◌else◌, any_of, length, replicate, set, u32,
}
use avi_99l_mission_board.Overtravel.{Guard, clear_if_recoverable, clear_fault}
use avi_99l_mission_board.Protocol.Types.{
  MissionState, CommandPhase, CommandReason, GenericCommandRequest, CommandResult,
  is_command_receive,
}
use avi_99l_mission_board.Mission.Commands.{
  CommandCode, CommandDomain, CommandContext, set_fin_zero, enter_recovery,
  actuator_emergency_result, liftoff_emergency_result, command_known, unsupported_parachute_command,
  domain_for, arguments_valid, state_valid, is_start, blocked_by_fin_overtravel,
}

pub record CommandDecision : Type 0 where
  pub result : CommandResult
  pub execute : Bool
  pub replay : Bool
  pub domain : CommandDomain

-- `interrupted` is the array of at most two results with its count.
pub record EmergencyDecision : Type 0 where
  pub result : CommandResult
  pub interrupted : List CommandResult
  pub execute : Bool

pub record Entry : Type 0 where
  pub valid : Bool
  pub pending : Bool
  pub age : ℕ
  pub request : GenericCommandRequest
  pub result : CommandResult
  pub domain : CommandDomain

pub record CommandExecutor : Type 0 where
  pub entries : List Entry
  pub age : ℕ

abbrev pub result_cache_size : ℕ
result_cache_size = 16

abbrev pub empty_entry : Entry
empty_entry = record {
  valid = false;
  pending = false;
  age = 0;
  request = record { transaction_id = 0; command = 0; arguments = replicate 6 0 };
  result = record {
    transaction_id = 0;
    command = 0;
    phase = CommandPhase.accepted;
    reason = CommandReason.none;
    detail = 0;
  };
  domain = CommandDomain.sequence;
}

abbrev pub new : CommandExecutor
new = record { entries = replicate result_cache_size empty_entry; age = 0 }

abbrev pub domain_index : CommandDomain → ℕ
domain_index CommandDomain.sequence = 0
domain_index CommandDomain.fin = 1
domain_index CommandDomain.parachute = 2
domain_index CommandDomain.calibration = 3
domain_index CommandDomain.storage = 4
domain_index CommandDomain.recovery = 5

abbrev pub reason_index : CommandReason → ℕ
reason_index CommandReason.none = 0
reason_index _ = 1

abbrev pub is_final : CommandPhase → Bool
is_final CommandPhase.completed = true
is_final CommandPhase.failed = true
is_final _ = false

abbrev pub is_completed : CommandPhase → Bool
is_completed CommandPhase.completed = true
is_completed _ = false

-- `std::array<uint8_t, 6>` equality.
abbrev pub same_bytes : List ℕ → List ℕ → Bool
same_bytes [] [] = true
same_bytes (a ∷ xs) (b ∷ ys) = a == b && same_bytes xs ys
same_bytes _ _ = false

unfoldable pub same_request : GenericCommandRequest → GenericCommandRequest → Bool
same_request left right =
    left.transaction_id == right.transaction_id
    && left.command == right.command
    && same_bytes left.arguments right.arguments

abbrev pub result_for : GenericCommandRequest → CommandPhase → CommandReason → CommandResult
result_for r phase reason = record {
  transaction_id = r.transaction_id;
  command = r.command;
  phase = phase;
  reason = reason;
  detail = 0;
}
