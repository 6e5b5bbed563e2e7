-- ===== src/Mission/Executor/Examples.antt =====
-- Runs of the command executor (mission/command_executor.cpp) and the theorems applied to them.
use avi_99l_mission_board.Base.{
  ℕ, ◌≡◌, ◌≢◌, ◌↔◌, ◌⊎◌, refl, true, false, [], ◌∷◌, none, some, replicate, if◌then◌else◌, arith,
}
use avi_99l_mission_board.Overtravel.{initial, clear_fault}
use avi_99l_mission_board.Protocol.Types.{
  command_receive, CommandPhase, CommandReason, GenericCommandRequest, CommandResult,
}
use avi_99l_mission_board.Mission.Commands.{
  CommandContext, CommandDomain, set_fin_zero, command_known, domain_for,
  unsupported_parachute_command, arguments_valid, state_valid, blocked_by_fin_overtravel, is_start,
}
use avi_99l_mission_board.Mission.Executor.{Entry, CommandExecutor, new, result_for}
use avi_99l_mission_board.Mission.Executor.Cache.{busy, cached_count, find, stored_entry, allocate}
use avi_99l_mission_board.Mission.Executor.Calls.{
  Commanded, begin, finish, actuator_emergency, recovered, is_actuator, rejection, decide,
}
use avi_99l_mission_board.Mission.Executor.Cache.{remember}
use avi_99l_mission_board.Mission.Executor.Invariant.{IsValid, new-IsValid, pending_count, id_count}
use avi_99l_mission_board.Mission.Executor.Begin.{Permitted}
use avi_99l_mission_board.Mission.Executor.Once.{begin_executes_iff, begin-IsValid}
use avi_99l_mission_board.Mission.Executor.Replay.{begin_replays, begin_keeps_pending}
use avi_99l_mission_board.Mission.Executor.Finish.{Finishable, done, finish_lem, finish_replays}
use avi_99l_mission_board.Mission.Executor.Emergency.{interrupted_results, emergency_lem}
use avi_99l_mission_board.Mission.Executor.Histories.{
  begins, finishes, stops, calls, calls-new-IsValid,
}

abbrev on_ground : CommandContext
on_ground = record {
  state = command_receive;
  resources_preallocated = true;
  fin_available = true;
  parachute_available = true;
  motor_test_busy = false;
  calibration_supported = true;
  storage_export_supported = true;
  deployment_power_cutoff_done = false;
  fin_safe_commands_supported = true;
}

abbrev request : ℕ → ℕ → GenericCommandRequest
request transaction_id command = record {
  transaction_id = transaction_id;
  command = command;
  arguments = replicate 6 0;
}

abbrev six : ℕ
six = 6

abbrev five : ℕ
five = 5

-- Transaction 5 asks for the fin zero.
abbrev zeroing : CommandExecutor
zeroing = (begin (request 5 0x11) on_ground initial new).executor

abbrev zeroing_entry : Entry
zeroing_entry =
    stored_entry (request 5 0x11)
      (result_for (request 5 0x11) CommandPhase.accepted CommandReason.none) true CommandDomain.fin
      1

zeroing_found : find 5 zeroing.entries ≡ some zeroing_entry
unfolding find begin recovered decide rejection remember allocate command_known domain_for
    unsupported_parachute_command arguments_valid state_valid blocked_by_fin_overtravel is_start
    busy cached_count
zeroing_found = refl

zeroing-IsValid : IsValid zeroing
zeroing-IsValid = begin-IsValid (request 5 0x11) on_ground initial new new-IsValid

not_cached : find 6 zeroing.entries ≡ none
unfolding find begin recovered decide rejection remember allocate command_known domain_for
    unsupported_parachute_command arguments_valid state_valid blocked_by_fin_overtravel is_start
    busy cached_count
not_cached = refl

six_set : six ≢ 0
six_set h = ground arith

calls-new-IsValid_example :
    IsValid
      (calls
        (begins (request 5 0x11) on_ground
          ∷ stops 6 command_receive
          ∷ finishes 5 CommandPhase.completed CommandReason.none 0
          ∷ [])
        (initial, new)).1
calls-new-IsValid_example = calls-new-IsValid (
    begins (request 5 0x11) on_ground
    ∷ stops 6 command_receive
    ∷ finishes 5 CommandPhase.completed CommandReason.none 0
    ∷ [])

begin_executes_iff_example :
    ((begin (request 6 0x25) on_ground initial zeroing).answer.execute ≡ true) ↔ (
      (six ≢ 0)
      × (find 6 zeroing.entries ≡ none)
      × Permitted (recovered on_ground initial) (request 6 0x25) on_ground zeroing.entries)
begin_executes_iff_example =
    begin_executes_iff (request 6 0x25) on_ground initial zeroing zeroing-IsValid

abbrev opened : CommandExecutor
opened = (begin (request 6 0x25) on_ground initial zeroing).executor

begin_replays_example : begin (request 6 0x25) on_ground initial opened ≡ record {
  guard = initial;
  executor = opened;
  answer = record {
    result = (begin (request 6 0x25) on_ground initial zeroing).answer.result;
    execute = false;
    replay = true;
    domain = (begin (request 6 0x25) on_ground initial zeroing).answer.domain;
  };
}
begin_replays_example =
    begin_replays (request 6 0x25) on_ground on_ground initial initial zeroing zeroing-IsValid
      six_set not_cached

begin_keeps_pending_example : find 5 opened.entries ≡ some zeroing_entry
begin_keeps_pending_example =
    begin_keeps_pending (request 6 0x25) on_ground initial zeroing 5 zeroing_entry zeroing-IsValid
      (λ h. ground arith) zeroing_found refl

zeroing_ends :
    Finishable 5 CommandPhase.completed CommandReason.none 0 initial zeroing zeroing_entry
zeroing_ends = (zeroing_found, refl, refl)

abbrev ended : Commanded CommandResult
ended = finish 5 CommandPhase.completed CommandReason.none 0 initial zeroing

finish_lem_example :
    (ended.answer ≡ record zeroing_entry.result {
      phase = CommandPhase.completed;
      reason = CommandReason.none;
      detail = 0;
    })
    × (find 5 ended.executor.entries
        ≡ some (
            done 5 CommandPhase.completed CommandReason.none 0 initial zeroing zeroing_entry
              zeroing_ends))
    × (find 6 ended.executor.entries ≡ find 6 zeroing.entries)
    × (((ended.guard ≡ clear_fault initial)
          × (CommandPhase.completed ≡ CommandPhase.completed)
          × (CommandReason.none ≡ CommandReason.none)
          × (zeroing_entry.request.command ≡ set_fin_zero))
        ⊎ ((ended.guard ≡ initial)
            × ((CommandPhase.completed ≢ CommandPhase.completed)
                ⊎ (CommandReason.none ≢ CommandReason.none)
                ⊎ (zeroing_entry.request.command ≢ set_fin_zero))))
finish_lem_example =
    finish_lem 5 CommandPhase.completed CommandReason.none 0 initial zeroing zeroing_entry
      zeroing_ends 6 (λ h. ground arith)

emergency_lem_example :
    ((actuator_emergency 6 command_receive zeroing).1.interrupted
      ≡ interrupted_results zeroing.entries)
    × ((c : CommandDomain)
        → pending_count c (actuator_emergency 6 command_receive zeroing).0.entries
          ≡ (if is_actuator c then 0 else pending_count c zeroing.entries))
    × ((s : ℕ)
        → id_count s (actuator_emergency 6 command_receive zeroing).0.entries
          ≡ id_count s zeroing.entries)
    × IsValid (actuator_emergency 6 command_receive zeroing).0
emergency_lem_example = emergency_lem 6 command_receive zeroing zeroing-IsValid six_set refl

five_set : five ≢ 0
five_set h = ground arith

finish_replays_example : begin (request 5 0x11) on_ground initial ended.executor ≡ record {
  guard = initial;
  executor = ended.executor;
  answer = record {
    result = ended.answer;
    execute = false;
    replay = true;
    domain = CommandDomain.fin;
  };
}
finish_replays_example =
    finish_replays CommandPhase.completed CommandReason.none 0 initial initial zeroing zeroing_entry
      on_ground five_set zeroing_ends
