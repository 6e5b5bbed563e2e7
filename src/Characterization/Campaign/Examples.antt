-- ===== src/Characterization/Campaign/Examples.antt =====
-- A session through the first three stages, and its handoff over a power cycle.
use avi_99l_mission_board.Base.{
  ◌≡◌, refl, true, false, some, List, [], ◌∷◌, ◌++◌, replicate, any_of,
}
use avi_99l_mission_board.Characterization.Types.{
  AssemblyStage, fv, fh_positive, fh_negative, m0, rate_check, full, no_reason, is_known_stage,
}
use avi_99l_mission_board.Characterization.Campaign.{
  SessionId, power_cycle_required, awaiting_m0_confirmation, completed, ok, run_accepted,
  can_arm_motor, new, valid_session_id,
}
use avi_99l_mission_board.Characterization.Campaign.Handoff.{
  M0Handoff, empty_handoff, power_on, validate_handoff, prepare_m0, resume_m0, literal_fin_removed,
}
use avi_99l_mission_board.Characterization.Campaign.Calls.{
  CampaignCall, starts, confirms, begins, finishes, completes, prepares, resumes, confirms_m0,
  campaign, campaign_call,
}
use avi_99l_mission_board.Characterization.Campaign.Arming.{
  is_cold_resume, is_fin_removal, arming_m0_justified,
}
use avi_99l_mission_board.Characterization.Campaign.Stages.{Staged, campaign-Staged}
use avi_99l_mission_board.Characterization.Campaign.Runs.{StageRan, completion_measured}
use avi_99l_mission_board.Characterization.Campaign.Resume.{prepare-resume}

abbrev session : SessionId
session = 0x61 ∷ 0x31 ∷ replicate 30 0

-- The newest call first.
abbrev stage_calls : AssemblyStage → List CampaignCall
stage_calls stage =
    completes
    ∷ finishes run_accepted no_reason
    ∷ begins 1000 full
    ∷ finishes run_accepted no_reason
    ∷ begins 1000 rate_check
    ∷ confirms stage
    ∷ []

abbrev three_stages : List CampaignCall
three_stages =
    stage_calls fh_negative ++ stage_calls fh_positive ++ stage_calls fv ++ starts session 7 ∷ []

abbrev handoff : M0Handoff
handoff = (prepare_m0 empty_handoff (campaign three_stages)).1

prepared_ok : (prepare_m0 empty_handoff (campaign three_stages)).2 ≡ ok
unfolding prepare_m0 campaign campaign_call valid_session_id
prepared_ok = refl

abbrev last_stage : List CampaignCall
last_stage = confirms_m0 session (some literal_fin_removed) ∷ resumes handoff power_on false ∷ []

at_m0 : (campaign last_stage).stage ≡ m0
unfolding campaign prepare_m0 campaign_call valid_session_id
at_m0 = refl

armed : can_arm_motor (campaign last_stage) ≡ true
unfolding can_arm_motor campaign prepare_m0 campaign_call valid_session_id is_known_stage
armed = refl

arming_m0_justified_example :
    (any_of is_cold_resume last_stage ≡ true) × (any_of is_fin_removal last_stage ≡ true)
arming_m0_justified_example = arming_m0_justified last_stage at_m0 armed

campaign-Staged_example : Staged (campaign three_stages)
campaign-Staged_example = campaign-Staged three_stages

-- The state asks for the power cycle.
abbrev handed_over : List CampaignCall
handed_over = prepares empty_handoff ∷ three_stages

completion_measured_example :
    ((campaign handed_over).state ≡ power_cycle_required
      → StageRan fv handed_over
        × StageRan fh_positive handed_over
        × StageRan fh_negative handed_over)
    × ((campaign handed_over).state ≡ completed → StageRan m0 handed_over)
completion_measured_example = completion_measured handed_over

prepare-resume_example :
    let m = campaign three_stages in
    let resumed = (resume_m0 handoff power_on false new).0 in
    (validate_handoff handoff ≡ true)
    × ((resume_m0 handoff power_on false new).1 ≡ ok)
    × (resumed.state ≡ awaiting_m0_confirmation)
    × (resumed.stage ≡ m0)
    × (resumed.session_id ≡ m.session_id)
    × (resumed.profile_seed ≡ m.profile_seed)
    × (resumed.completed_stage_mask ≡ m.completed_stage_mask)
prepare-resume_example = prepare-resume three_stages empty_handoff prepared_ok
