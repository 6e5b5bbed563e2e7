-- ===== src/Characterization/Campaign/Finish.antt =====
-- characterization/campaign_state_machine.cpp: what `finishRun` can change.
use avi_99l_mission_board.Base.{◌≤◌, ◌≡◌, ◌⊎◌, Bool, true, false, arith}
use avi_99l_mission_board.Characterization.Types.{rate_check, full, UnsupportedReason}
use avi_99l_mission_board.Characterization.Campaign.{
  CampaignStateMachine, ready, running, RunOutcome, run_accepted, run_failed, run_unsupported,
  accepted, rate_index, finish_rate_check, finish_full, finish_run,
}
use avi_99l_mission_board.Characterization.Campaign.Calls.{CampaignCall, finishes}

abbrev pub is_accepted_finish : CampaignCall → Bool
is_accepted_finish (finishes run_accepted cause) = true
is_accepted_finish _ = false

-- What the end of a run can change.
pub record Finished (accepts : Bool) (before after : CampaignStateMachine) : Type 0 where
  pub stage : after.stage ≡ before.stage
  pub mask : after.completed_stage_mask ≡ before.completed_stage_mask
  pub session : after.session_id ≡ before.session_id
  pub seed : after.profile_seed ≡ before.profile_seed
  pub state : (after.state ≡ before.state) ⊎ ((before.state ≡ running) × (after.state ≡ ready))
  pub active :
      after.state ≡ running
      → (after.active_rate ≡ before.active_rate) × (after.active_run_kind ≡ before.active_run_kind)
  pub check :
      (after.rate_results.at_1000 ≡ before.rate_results.at_1000)
      ⊎ ((after.rate_results.at_1000 ≡ accepted)
          × (accepts ≡ true)
          × (before.state ≡ running)
          × (after.state ≡ ready)
          × (before.active_rate ≡ 1000)
          × (before.active_run_kind ≡ rate_check)
          × (after.full_completed.at_1000 ≡ before.full_completed.at_1000))
  pub measured :
      (after.full_completed.at_1000 ≡ before.full_completed.at_1000)
      ⊎ ((after.full_completed.at_1000 ≡ true)
          × (accepts ≡ true)
          × (before.state ≡ running)
          × (after.state ≡ ready)
          × (before.active_rate ≡ 1000)
          × (before.active_run_kind ≡ full)
          × (after.rate_results.at_1000 ≡ before.rate_results.at_1000))

rate_check-Finished :
    (outcome : RunOutcome) (cause : UnsupportedReason) (m : CampaignStateMachine)
    → m.state ≡ running
    → m.active_run_kind ≡ rate_check
    → rate_index m.active_rate ≤ 2
    → Finished (is_accepted_finish (finishes outcome cause)) m (finish_rate_check outcome cause m).0
unfolding finish_rate_check rate_index
rate_check-Finished run_accepted cause m r k i = ground arith
rate_check-Finished run_failed cause m r k i = ground arith
rate_check-Finished run_unsupported cause m r k i = ground arith

full-Finished :
    (outcome : RunOutcome) (cause : UnsupportedReason) (m : CampaignStateMachine)
    → m.state ≡ running
    → m.active_run_kind ≡ full
    → rate_index m.active_rate ≤ 2
    → Finished (is_accepted_finish (finishes outcome cause)) m (finish_full outcome m).0
unfolding finish_full rate_index
full-Finished run_accepted cause m r k i = ground arith
full-Finished run_failed cause m r k i = ground arith
full-Finished run_unsupported cause m r k i = ground arith

pub finish_run-Finished :
    (outcome : RunOutcome) (cause : UnsupportedReason) (m : CampaignStateMachine)
    → Finished (is_accepted_finish (finishes outcome cause)) m (finish_run outcome cause m).0
unfolding finish_run
finish_run-Finished outcome cause m =
    let c = rate_check-Finished outcome cause m in
    let f = full-Finished outcome cause m in ground arith
