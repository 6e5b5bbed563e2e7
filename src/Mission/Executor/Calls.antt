-- ===== src/Mission/Executor/Calls.antt =====
-- mission/command_executor.cpp: the calls of the command executor.
use avi_99l_mission_board.Base.{
  ℕ, ◌+◌, Bool, true, false, not, ◌&&◌, ◌||◌, List, [], ◌∷◌, ◌++◌, none, some, ◌==◌, ltb,
  if◌then◌else◌, any_of, length, u32,
}
use avi_99l_mission_board.Overtravel.{Guard, clear_if_recoverable, clear_fault}
use avi_99l_mission_board.Protocol.Types.{
  MissionState, CommandPhase, CommandReason, GenericCommandRequest, CommandResult,
  is_command_receive,
}
use avi_99l_mission_board.Mission.Commands.{
  CommandDomain, CommandContext, set_fin_zero, enter_recovery, actuator_emergency_result,
  liftoff_emergency_result, command_known, unsupported_parachute_command, domain_for,
  arguments_valid, state_valid, is_start, blocked_by_fin_overtravel,
}
use avi_99l_mission_board.Mission.Executor.{
  CommandDecision, EmergencyDecision, Entry, CommandExecutor, domain_index, reason_index, is_final,
  is_completed, same_request, result_for,
}
use avi_99l_mission_board.Mission.Executor.Cache.{busy, find, update_found, cached_count, remember}

-- The chain of conditions of `begin`, in its order; `CommandReason.none` lets the command pass.
unfoldable pub rejection :
    Guard → GenericCommandRequest → CommandContext → List Entry → CommandReason
rejection g request context es =
    let code = request.command in
    let domain = domain_for code in
    let index = domain_index domain in
    if not (command_known code)
    then CommandReason.not_supported
    else if unsupported_parachute_command code
    then CommandReason.not_supported
    else if not (arguments_valid request)
    then CommandReason.invalid_argument
    else if not (state_valid code context.state)
    then CommandReason.invalid_state
    else if g.fault_latched && blocked_by_fin_overtravel code
    then CommandReason.safety_interlock
    else if code == enter_recovery && not context.deployment_power_cutoff_done
    then CommandReason.safety_interlock
    else if is_start code
        && (busy CommandDomain.parachute es
            || busy CommandDomain.fin es
            || busy CommandDomain.calibration es
            || context.motor_test_busy)
    then CommandReason.busy
    else if is_start code && not context.resources_preallocated
    then CommandReason.internal_error
    else if index == 2 && busy CommandDomain.sequence es
    then CommandReason.busy
    else if (index == 1 && not context.fin_available)
        || (index == 2 && not context.parachute_available)
    then CommandReason.device_unavailable
    else if index == 1 && not context.fin_safe_commands_supported
    then CommandReason.not_supported
    else if (index == 3 && not context.calibration_supported)
        || (index == 4 && not context.storage_export_supported)
    then CommandReason.not_supported
    else if busy domain es
    then CommandReason.busy
    else if is_start code && not (cached_count es == 0) && any_of (λ e. e.pending) es
    then CommandReason.busy
    else if index == 3
        && (busy CommandDomain.fin es || busy CommandDomain.parachute es || context.motor_test_busy)
    then CommandReason.busy
    else if (index == 1 || index == 2) && busy CommandDomain.calibration es
    then CommandReason.busy
    else CommandReason.none

-- The state that `begin` and `finish` share with the fin task.
pub record Commanded (A : Type 0) : Type 0 where
  pub guard : Guard
  pub executor : CommandExecutor
  pub answer : A

-- The decision on a request that no entry knows, with the guard as recovered.
unfoldable pub decide :
    Guard
    → GenericCommandRequest
    → CommandContext
    → CommandExecutor
    → CommandExecutor × CommandDecision
decide g request context ex =
    let domain = domain_for request.command in
    elim (rejection g request context ex.entries) [
      | CommandReason.none ↦
          let result = result_for request CommandPhase.accepted CommandReason.none in
          (
            remember request result true domain ex,
            record { result = result; execute = true; replay = false; domain = domain },
          )
      | reason ↦
          let result = result_for request CommandPhase.rejected reason in
          (
            remember request result false domain ex,
            record { result = result; execute = false; replay = false; domain = domain },
          )
    ]

-- The answer to a request whose id an entry has already.
unfoldable pub repeat : GenericCommandRequest → Entry → CommandDecision
unfolding same_request
repeat request existing =
    if same_request existing.request request
    then record {
      result = existing.result;
      execute = false;
      replay = true;
      domain = existing.domain;
    }
    else record {
      result = result_for request CommandPhase.rejected CommandReason.protocol_error;
      execute = false;
      replay = false;
      domain = existing.domain;
    }

unfoldable pub recovered : CommandContext → Guard → Guard
unfolding clear_if_recoverable
recovered context g = if is_command_receive context.state then (clear_if_recoverable g).0 else g

unfoldable pub begin :
    GenericCommandRequest → CommandContext → Guard → CommandExecutor → Commanded CommandDecision
begin request context g ex =
    if request.transaction_id == 0
    then record {
      guard = g;
      executor = ex;
      answer = record {
        result = result_for request CommandPhase.rejected CommandReason.invalid_argument;
        execute = false;
        replay = false;
        domain = CommandDomain.sequence;
      };
    }
    else elim (find request.transaction_id ex.entries) [
      | some existing ↦ record { guard = g; executor = ex; answer = repeat request existing }
      | none ↦
          let g' = recovered context g in
          let (ex', decision) = decide g' request context ex in
          record { guard = g'; executor = ex'; answer = decision }
    ]

abbrev pub finished_entry : Entry → ℕ → CommandPhase → CommandReason → ℕ → Entry
finished_entry e age phase reason detail = record e {
  pending = false;
  age = age;
  result = record e.result { phase = phase; reason = reason; detail = detail };
}

unfoldable pub finish :
    ℕ → CommandPhase → CommandReason → ℕ → Guard → CommandExecutor → Commanded CommandResult
finish transaction_id phase reason detail g ex =
    let failure : CommandResult = record {
      transaction_id = transaction_id;
      command = 0;
      phase = CommandPhase.failed;
      reason = CommandReason.internal_error;
      detail = detail;
    } in
    elim (find transaction_id ex.entries) [
      | none ↦ record { guard = g; executor = ex; answer = failure }
      | some e ↦
          if not e.pending || not (is_final phase)
          then record { guard = g; executor = ex; answer = failure }
          else let age = u32 (ex.age + 1) in
            let done = finished_entry e age phase reason detail in
            record {
              guard =
                  if is_completed phase
                    && reason_index reason == 0
                    && e.request.command == set_fin_zero
                  then clear_fault g
                  else g;
              executor = record {
                entries = update_found transaction_id done ex.entries;
                age = age;
              };
              answer = done.result;
            }
    ]

abbrev pub is_actuator : CommandDomain → Bool
is_actuator CommandDomain.fin = true
is_actuator CommandDomain.parachute = true
is_actuator _ = false

-- The loop of `actuatorEmergency` over the entries, with the age and the results collected so far.
unfoldable pub interrupt : ℕ → List CommandResult → List Entry → List Entry × ℕ × List CommandResult
interrupt age found [] = ([], age, found)
interrupt age found (e ∷ es) =
    let hit = e.pending && is_actuator e.domain in
    let age' = if hit then u32 (age + 1) else age in
    let e' =
      if hit
      then finished_entry e age' CommandPhase.failed CommandReason.interrupted_by_emergency
          e.result.detail
      else e in
    let found' = if hit && ltb (length found) 2 then found ++ e'.result ∷ [] else found in
    let (es', last, all) = interrupt age' found' es in (e' ∷ es', last, all)

unfoldable pub actuator_emergency :
    ℕ → MissionState → CommandExecutor → CommandExecutor × EmergencyDecision
unfolding interrupt
actuator_emergency transaction_id state ex =
    let accepted = not (transaction_id == 0) && is_command_receive state in
    let result : CommandResult = record {
      transaction_id = transaction_id;
      command = actuator_emergency_result;
      phase = if accepted then CommandPhase.completed else CommandPhase.rejected;
      reason =
          if accepted
          then CommandReason.none
          else if transaction_id == 0
          then CommandReason.invalid_argument
          else CommandReason.invalid_state;
      detail = 0;
    } in
    if not accepted
    then (ex, record { result = result; interrupted = []; execute = false })
    else let (es, age, found) = interrupt ex.age [] ex.entries in
      (
        record { entries = es; age = age },
        record { result = result; interrupted = found; execute = true },
      )

unfoldable pub liftoff_emergency_answer : ℕ → Bool → CommandResult
liftoff_emergency_answer transaction_id accepted =
    let valid = not (transaction_id == 0) && accepted in
    record {
      transaction_id = transaction_id;
      command = liftoff_emergency_result;
      phase = if valid then CommandPhase.completed else CommandPhase.rejected;
      reason =
          if valid
          then CommandReason.none
          else if transaction_id == 0
          then CommandReason.invalid_argument
          else CommandReason.invalid_state;
      detail = 0;
    }
