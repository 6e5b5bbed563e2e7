-- ===== src/Characterization/Campaign/Resume.antt =====
-- characterization/campaign_state_machine.cpp: a handoff that one boot prepares and the next resumes.
use avi_99l_mission_board.Characterization.Campaign.Stages.{campaign-Staged}
use avi_99l_mission_board.Characterization.Campaign.Handoff.{
  empty_handoff, compute_handoff_checksum,
}
use avi_99l_mission_board.Characterization.Campaign.{ok}
use avi_99l_mission_board.Base.{◌==◌}
use avi_99l_mission_board.Base.{ℕ, ◌≡◌, true, false, List, arith}
use avi_99l_mission_board.Characterization.Types.{m0}
use avi_99l_mission_board.Characterization.Campaign.{
  awaiting_m0_confirmation, reset_stage_runs, new,
}
use avi_99l_mission_board.Characterization.Campaign.Handoff.{
  M0Handoff, power_on, validate_handoff, prepare_m0, resume_m0,
}
use avi_99l_mission_board.Characterization.Campaign.Calls.{CampaignCall, campaign}

eq_refl : (n : ℕ) → (n == n) ≡ true
eq_refl n = ground arith

-- The handoff that any session prepares is valid, and a machine that starts afresh after a power-on
-- whose RTC memory was lost takes it up: it waits for the removal of the fin to be confirmed, in the
-- last stage, with the session, the seed and the mask that the first machine had.
pub prepare-resume :
    (cs : List CampaignCall) (h : M0Handoff)
    → let m = campaign cs in
      let prepared = (prepare_m0 h m).1 in
      let resumed = (resume_m0 prepared power_on false new).0 in
      (prepare_m0 h m).2 ≡ ok
      → (validate_handoff prepared ≡ true)
        × ((resume_m0 prepared power_on false new).1 ≡ ok)
        × (resumed.state ≡ awaiting_m0_confirmation)
        × (resumed.stage ≡ m0)
        × (resumed.session_id ≡ m.session_id)
        × (resumed.profile_seed ≡ m.profile_seed)
        × (resumed.completed_stage_mask ≡ m.completed_stage_mask)
unfolding prepare_m0 resume_m0 validate_handoff reset_stage_runs
prepare-resume cs h done =
    let s = campaign-Staged cs in
    let made = record empty_handoff {
      session_id = (campaign cs).session_id;
      profile_seed = (campaign cs).profile_seed;
      completed_stage_mask = (campaign cs).completed_stage_mask;
    } in
    let same = eq_refl (compute_handoff_checksum made) in ground arith
