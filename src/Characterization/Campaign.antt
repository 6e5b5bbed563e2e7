-- ===== src/Characterization/Campaign.antt =====
-- characterization/campaign_state_machine.cpp: `CampaignStateMachine`, which leads a session through
-- the stages of the assembly. Its handoff to the last stage, over a power cycle, is in Handoff.
pub mod Handoff
pub mod Calls
mod Finish
mod Arming
pub mod Stages
mod Measured
mod Runs
mod Resume
mod Examples
use avi_99l_mission_board.Base.{
  ℕ, ◌+◌, ◌/◌, ◌%◌, ◌≤◌, ◌<◌, ◌≡◌, Bool, true, false, not, ◌&&◌, ◌||◌, List, [], ◌∷◌, replicate,
  ltb, leb, ◌==◌, if◌then◌else◌, suc,
}
use avi_99l_mission_board.Characterization.Types.{
  AssemblyStage, no_stage, fv, fh_positive, fh_negative, m0, EncoderRate, hz_1000, hz_2000, hz_5000,
  RunKind, no_run, rate_check, full, UnsupportedReason, no_reason, is_known_stage, same_stage,
}

pub data CampaignState : Type 0 where
  idle awaiting_stage_confirmation ready running awaiting_m0_handoff power_cycle_required
        awaiting_m0_confirmation completed faulted :
      CampaignState

-- `needs_power_cycle` is `PowerCycleRequired`, a name that the states have too.
pub data CampaignStatus : Type 0 where
  ok invalid_state invalid_argument wrong_stage wrong_rate_order mandatory_rate_unsupported
        needs_power_cycle invalid_handoff queue_full snapshot_invalid cold_power_cycle_not_proven
        fin_removal_confirmation_required session_id_mismatch rate_not_qualified :
      CampaignStatus

pub data RunOutcome : Type 0 where
  run_accepted run_failed run_unsupported : RunOutcome

pub data RateResult : Type 0 where
  pending accepted unsupported : RateResult

-- `std::array<T, 3>`, one for each rate.
pub record PerRate (A : Type 0) : Type 0 where
  pub at_1000 : A
  pub at_2000 : A
  pub at_5000 : A

-- The characters of `SessionId`, 32 of them.
abbrev pub SessionId : Type 0
SessionId = List ℕ

pub record CampaignStateMachine : Type 0 where
  pub session_id : SessionId
  pub state : CampaignState
  pub stage : AssemblyStage
  pub active_rate : EncoderRate
  pub active_run_kind : RunKind
  pub profile_seed : ℕ
  pub completed_stage_mask : ℕ
  pub rate_results : PerRate RateResult
  pub full_completed : PerRate Bool

abbrev pub all : {A : Type 0} → A → PerRate A
all a = record { at_1000 = a; at_2000 = a; at_5000 = a }

abbrev pub new : CampaignStateMachine
new = record {
  session_id = replicate 32 0;
  state = idle;
  stage = no_stage;
  active_rate = hz_1000;
  active_run_kind = no_run;
  profile_seed = 0;
  completed_stage_mask = 0;
  rate_results = all pending;
  full_completed = all false;
}

-- The scan of `validSessionId`: `terminated` and `length` so far.
unfoldable pub scan_session_id : List ℕ → Bool → ℕ → Bool
scan_session_id [] terminated length = terminated && not (length == 0) && leb length 31
scan_session_id (value ∷ values) terminated length =
    let at_end = scan_session_id values true length in
    let further = scan_session_id values terminated (suc length) in
    if value == 0
    then at_end
    else if terminated
    then false
    else if ltb value 0x21 || ltb 0x7E value
    then false
    else further

unfoldable pub valid_session_id : SessionId → Bool
unfolding scan_session_id
valid_session_id session_id = scan_session_id session_id false 0

unfoldable pub reset_stage_runs : CampaignStateMachine → CampaignStateMachine
reset_stage_runs m = record m {
  rate_results = record { at_1000 = pending; at_2000 = unsupported; at_5000 = unsupported };
  full_completed = all false;
  active_run_kind = no_run;
}

unfoldable pub start_new_session :
    SessionId → ℕ → CampaignStateMachine → CampaignStateMachine × CampaignStatus
unfolding reset_stage_runs
start_new_session session_id profile_seed m = elim m.state [
  | idle ↦
      if not (valid_session_id session_id) || profile_seed == 0 then (m, invalid_argument) else (
        record (reset_stage_runs (record m {
          session_id = session_id;
          profile_seed = profile_seed;
          completed_stage_mask = 0;
          stage = fv;
        })) { state = awaiting_stage_confirmation },
        ok,
      )
  | _ ↦ (m, invalid_state)
]

unfoldable pub confirm_stage :
    AssemblyStage → CampaignStateMachine → CampaignStateMachine × CampaignStatus
confirm_stage stage m = elim m.state [
  | awaiting_stage_confirmation ↦
      if not (same_stage stage m.stage) || same_stage stage m0
      then (m, if same_stage stage m0 then fin_removal_confirmation_required else wrong_stage)
      else (record m { state = ready }, ok)
  | _ ↦ (m, invalid_state)
]

-- 3 for a rate that has no name.
unfoldable pub rate_index : EncoderRate → ℕ
rate_index rate =
    if rate == hz_1000 then 0 else if rate == hz_2000 then 1 else if rate == hz_5000 then 2 else 3

-- `array[index]`, and the array after a write to it. The code has tested that the index is below 3.
abbrev pub at : {A : Type 0} → ℕ → PerRate A → A
at index results =
    if index == 0 then results.at_1000 else if index == 1 then results.at_2000 else results.at_5000

abbrev pub set_at : {A : Type 0} → ℕ → A → PerRate A → PerRate A
set_at index value results =
    if index == 0
    then record results { at_1000 = value }
    else if index == 1
    then record results { at_2000 = value }
    else record results { at_5000 = value }

abbrev pub is_pending : RateResult → Bool
is_pending pending = true
is_pending _ = false

abbrev pub is_accepted : RateResult → Bool
is_accepted accepted = true
is_accepted _ = false

abbrev pub is_full : RunKind → Bool
is_full full = true
is_full _ = false

abbrev pub is_rate_check : RunKind → Bool
is_rate_check rate_check = true
is_rate_check _ = false

abbrev pub is_no_reason : UnsupportedReason → Bool
is_no_reason no_reason = true
is_no_reason _ = false

unfoldable pub begin_run :
    EncoderRate → RunKind → CampaignStateMachine → CampaignStateMachine × CampaignStatus
unfolding rate_index
begin_run rate kind m =
    let started = record m { active_rate = rate; active_run_kind = kind; state = running } in
    let result = at (rate_index rate) m.rate_results in
    elim m.state [
      | ready ↦
          if leb 3 (rate_index rate) || not (is_rate_check kind || is_full kind)
          then (m, invalid_argument)
          else if not (rate == hz_1000)
          then (if is_full kind then (m, rate_not_qualified) else (started, ok))
          else if is_rate_check kind && not (is_pending result)
          then (m, wrong_rate_order)
          else if is_full kind && not (is_accepted result)
          then (m, rate_not_qualified)
          else (started, ok)
      | _ ↦ (m, invalid_state)
    ]

-- The end of `finishRun`.
abbrev pub finished : CampaignStateMachine → CampaignStateMachine × CampaignStatus
finished m = (record m { active_run_kind = no_run; state = ready }, ok)

-- `finishRun` of a rate check, and of a full run.
unfoldable pub finish_rate_check :
    RunOutcome → UnsupportedReason → CampaignStateMachine → CampaignStateMachine × CampaignStatus
unfolding rate_index
finish_rate_check run_accepted cause m =
    finished (record m { rate_results = set_at (rate_index m.active_rate) accepted m.rate_results })
finish_rate_check run_failed cause m = finished m
finish_rate_check run_unsupported cause m =
    if m.active_rate == hz_1000
    then (record m { state = ready; active_run_kind = no_run }, mandatory_rate_unsupported)
    else if is_no_reason cause
    then (m, invalid_argument)
    else finished
        (record m { rate_results = set_at (rate_index m.active_rate) unsupported m.rate_results })

unfoldable pub finish_full :
    RunOutcome → CampaignStateMachine → CampaignStateMachine × CampaignStatus
unfolding rate_index
finish_full run_accepted m =
    finished (record m { full_completed = set_at (rate_index m.active_rate) true m.full_completed })
finish_full _ m = finished m

unfoldable pub finish_run :
    RunOutcome → UnsupportedReason → CampaignStateMachine → CampaignStateMachine × CampaignStatus
unfolding rate_index finish_rate_check finish_full
finish_run outcome cause m = elim m.state [
  | running ↦
      if leb 3 (rate_index m.active_rate)
      then (m, invalid_argument)
      else if is_rate_check m.active_run_kind
      then finish_rate_check outcome cause m
      else if is_full m.active_run_kind
      then finish_full outcome m
      else finished m
  | _ ↦ (m, invalid_state)
]

unfoldable pub all_rate_checks_resolved : CampaignStateMachine → Bool
all_rate_checks_resolved m = not (is_pending m.rate_results.at_1000)

-- `mask | bit` for a power of two.
abbrev pub with_bit : ℕ → ℕ → ℕ
with_bit mask bit = if mask / bit % 2 == 0 then mask + bit else mask

-- `mask | stageBit(stage)`.
unfoldable pub with_stage_bit : ℕ → AssemblyStage → ℕ
with_stage_bit mask no_stage = mask
with_stage_bit mask fv = with_bit mask 1
with_stage_bit mask fh_positive = with_bit mask 2
with_stage_bit mask fh_negative = with_bit mask 4
with_stage_bit mask m0 = with_bit mask 8

unfoldable pub complete_stage : CampaignStateMachine → CampaignStateMachine × CampaignStatus
unfolding all_rate_checks_resolved with_stage_bit reset_stage_runs
complete_stage m =
    let marked = record m {
      completed_stage_mask = with_stage_bit m.completed_stage_mask m.stage;
    } in
    let next : AssemblyStage → CampaignStateMachine = λ stage.
      record (reset_stage_runs (record marked { stage = stage })) {
        state = awaiting_stage_confirmation;
      } in
    let advanced : CampaignStateMachine × CampaignStatus = elim m.stage [
      | fv ↦ (next fh_positive, ok)
      | fh_positive ↦ (next fh_negative, ok)
      | fh_negative ↦ (record marked { state = awaiting_m0_handoff }, ok)
      | m0 ↦ (record marked { state = completed }, ok)
      | no_stage ↦ (marked, wrong_stage)
    ] in
    elim m.state [
      | ready ↦
          if not (all_rate_checks_resolved m) || not m.full_completed.at_1000
          then (m, invalid_state)
          else advanced
      | _ ↦ (m, invalid_state)
    ]

unfoldable pub can_arm_motor : CampaignStateMachine → Bool
can_arm_motor m = elim m.state [ ready ↦ is_known_stage m.stage | _ ↦ false ]

unfoldable pub fault : CampaignStateMachine → CampaignStateMachine
fault m = record m { state = faulted }
