-- ===== src/Characterization/Campaign/Stages.antt =====
-- characterization/campaign_state_machine.cpp: the order of the stages, and the runs that each needs.
use avi_99l_mission_board.Base.{◌%◌, ◌≡◌, ◌≢◌, ◌⊎◌, true, List, [], ◌∷◌, arith}
use avi_99l_mission_board.Characterization.Types.{no_stage, fv, fh_positive, fh_negative, m0}
use avi_99l_mission_board.Characterization.Campaign.{
  CampaignStateMachine, idle, ready, running, awaiting_m0_handoff, power_cycle_required, faulted,
  awaiting_stage_confirmation, awaiting_m0_confirmation, valid_session_id, reset_stage_runs,
  start_new_session, confirm_stage, begin_run, with_stage_bit, complete_stage, fault,
}
use avi_99l_mission_board.Characterization.Campaign.Handoff.{
  validate_handoff, prepare_m0, resume_m0, confirm_m0,
}
use avi_99l_mission_board.Characterization.Campaign.Calls.{
  CampaignCall, starts, confirms, begins, finishes, completes, prepares, resumes, confirms_m0,
  faults, campaign_call, campaign,
}
use avi_99l_mission_board.Characterization.Campaign.Finish.{finish_run-Finished}

-- The stage goes with the stages that are marked as completed.
pub record Staged (m : CampaignStateMachine) : Type 0 where
  pub first : m.stage ≡ fv → m.completed_stage_mask ≡ 0
  pub second : m.stage ≡ fh_positive → m.completed_stage_mask ≡ 1
  pub third : m.stage ≡ fh_negative → (m.completed_stage_mask ≡ 3) ⊎ (m.completed_stage_mask ≡ 7)
  pub handed :
      (m.state ≡ awaiting_m0_handoff) ⊎ (m.state ≡ power_cycle_required)
      → (m.stage ≡ fh_negative) × (m.completed_stage_mask ≡ 7)
  pub going : (m.state ≡ ready) ⊎ (m.state ≡ running) → m.completed_stage_mask ≡ 7 → m.stage ≡ m0
  pub last : m.stage ≡ m0 → m.completed_stage_mask % 8 ≡ 7
  pub named : m.stage ≢ no_stage → (valid_session_id m.session_id ≡ true) × (m.profile_seed ≢ 0)
  pub unnamed : m.stage ≡ no_stage → (m.state ≡ idle) ⊎ (m.state ≡ faulted)
  pub resumed : m.state ≡ awaiting_m0_confirmation → m.stage ≡ m0
  pub confirming : m.state ≡ awaiting_stage_confirmation → m.completed_stage_mask ≢ 7

call-Staged : (c : CampaignCall) (m : CampaignStateMachine) → Staged m → Staged (campaign_call c m)
unfolding campaign_call start_new_session confirm_stage begin_run complete_stage prepare_m0
    resume_m0 confirm_m0 fault reset_stage_runs with_stage_bit validate_handoff
call-Staged (starts session_id seed) m s = ground arith
call-Staged (confirms stage) m s = ground arith
call-Staged (begins rate kind) m s = ground arith
call-Staged (finishes outcome cause) m s =
    let f = finish_run-Finished outcome cause m in ground arith
call-Staged completes m s = ground arith
call-Staged (prepares handoff) m s = ground arith
call-Staged (resumes handoff kind survived) m s = ground arith
call-Staged (confirms_m0 session_id text) m s = ground arith
call-Staged faults m s = ground arith

-- After any calls the stage and the mask agree: the first three stages are worked on in their order,
-- each with the stages before it marked as completed, a handoff is only prepared when all three are,
-- the last stage is only worked on with all three marked, and a session that has a stage has a valid
-- name and a seed.
pub campaign-Staged : (cs : List CampaignCall) → Staged (campaign cs)
unfolding campaign
campaign-Staged [] = ground arith
campaign-Staged (c ∷ cs) = call-Staged c (campaign cs) (campaign-Staged cs)
