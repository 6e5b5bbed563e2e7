-- ===== src/Mission/Executor/Histories.antt =====
-- Every call that the firmware makes to the command executor, and histories of such calls
-- (mission/command_executor.cpp).
use avi_99l_mission_board.Base.{ℕ, Bool, List, [], ◌∷◌}
use avi_99l_mission_board.Double.{Double}
use avi_99l_mission_board.Overtravel.{Guard, initial, observe}
use avi_99l_mission_board.Protocol.Types.{
  MissionState, CommandPhase, CommandReason, GenericCommandRequest,
}
use avi_99l_mission_board.Mission.Commands.{CommandContext}
use avi_99l_mission_board.Mission.Executor.{CommandExecutor, new}
use avi_99l_mission_board.Mission.Executor.Calls.{begin, finish, actuator_emergency}
use avi_99l_mission_board.Mission.Executor.Invariant.{IsValid, new-IsValid}
use avi_99l_mission_board.Mission.Executor.Once.{begin-IsValid}
use avi_99l_mission_board.Mission.Executor.Finish.{finish-IsValid}
use avi_99l_mission_board.Mission.Executor.Emergency.{actuator_emergency-IsValid}

pub data Call : Type 0 where
  begins : GenericCommandRequest → CommandContext → Call
  finishes : ℕ → CommandPhase → CommandReason → ℕ → Call
  stops : ℕ → MissionState → Call
  observes : Double → Bool → Call

unfoldable pub call : Call → Guard × CommandExecutor → Guard × CommandExecutor
call (begins r c) (g, ex) = let o = begin r c g ex in (o.guard, o.executor)
call (finishes t phase reason detail) (g, ex) =
    let o = finish t phase reason detail g ex in (o.guard, o.executor)
call (stops t state) (g, ex) = (g, (actuator_emergency t state ex).0)
call (observes angle_rad valid_sample) (g, ex) = (observe angle_rad valid_sample g, ex)

unfoldable pub calls : List Call → Guard × CommandExecutor → Guard × CommandExecutor
calls [] s = s
calls (c ∷ cs) s = calls cs (call c s)

call-IsValid : (c : Call) (s : Guard × CommandExecutor) → IsValid s.1 → IsValid (call c s).1
unfolding call
call-IsValid (begins r c) (g, ex) v = begin-IsValid r c g ex v
call-IsValid (finishes t phase reason detail) (g, ex) v =
    finish-IsValid t phase reason detail g ex v
call-IsValid (stops t state) (g, ex) v = actuator_emergency-IsValid t state ex v
call-IsValid (observes angle_rad valid_sample) (g, ex) v = v

calls-IsValid :
    (cs : List Call) (s : Guard × CommandExecutor) → IsValid s.1 → IsValid (calls cs s).1
unfolding calls
calls-IsValid [] s v = v
calls-IsValid (c ∷ cs) s v = calls-IsValid cs (call c s) (call-IsValid c s v)

-- After any history of requests, endings, emergency stops and fin samples since boot the executor is
-- valid: sixteen entries, no transaction id twice, at most one pending command to a domain, none of
-- the fin or the parachute beside a pending calibration, and every used entry has an id above 0 and
-- a result that names its request and says `accepted` exactly while the command is pending.
pub calls-new-IsValid : (cs : List Call) → IsValid (calls cs (initial, new)).1
calls-new-IsValid cs = calls-IsValid cs (initial, new) new-IsValid
