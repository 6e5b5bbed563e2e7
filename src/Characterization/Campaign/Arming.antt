-- ===== src/Characterization/Campaign/Arming.antt =====
-- characterization/campaign_state_machine.cpp: what has to be done before the motor is armed with the fin
-- removed.
use avi_99l_mission_board.Base.{
  ◌≡◌, ◌⊎◌, Bool, true, false, not, ◌&&◌, ◌||◌, List, [], ◌∷◌, any_of, arith,
}
use avi_99l_mission_board.Characterization.Types.{no_stage, m0}
use avi_99l_mission_board.Characterization.Campaign.{
  CampaignStateMachine, idle, ready, running, completed, reset_stage_runs, start_new_session,
  confirm_stage, begin_run, finish_run, complete_stage, can_arm_motor, fault,
}
use avi_99l_mission_board.Characterization.Campaign.Handoff.{
  validate_handoff, prepare_m0, resume_m0, is_power_on, is_fin_removed, confirm_m0,
}
use avi_99l_mission_board.Characterization.Campaign.Calls.{
  CampaignCall, starts, confirms, begins, finishes, completes, prepares, resumes, confirms_m0,
  faults, campaign_call, campaign,
}
use avi_99l_mission_board.Characterization.Campaign.Finish.{finish_run-Finished}

-- A resume after a power-on that the RTC memory did not survive, with a valid handoff.
abbrev pub is_cold_resume : CampaignCall → Bool
is_cold_resume (resumes handoff kind survived) =
    validate_handoff handoff && is_power_on kind && not survived
is_cold_resume _ = false

abbrev pub is_fin_removal : CampaignCall → Bool
is_fin_removal (confirms_m0 session_id text) = is_fin_removed text
is_fin_removal _ = false

-- What the calls so far, `cold` and `removed`, have to show for the stage.
record Cold (cold removed : Bool) (m : CampaignStateMachine) : Type 0 where
  resumed : m.stage ≡ m0 → cold ≡ true
  confirmed :
      m.stage ≡ m0
      → (m.state ≡ ready) ⊎ (m.state ≡ running) ⊎ (m.state ≡ completed)
      → removed ≡ true
  started : m.state ≡ idle → m.stage ≡ no_stage

call-Cold :
    (c : CampaignCall) (cold removed : Bool) (m : CampaignStateMachine)
    → Cold cold removed m
    → Cold (is_cold_resume c || cold) (is_fin_removal c || removed) (campaign_call c m)
unfolding campaign_call start_new_session confirm_stage begin_run finish_run complete_stage
    prepare_m0 resume_m0 confirm_m0 fault reset_stage_runs
call-Cold (starts session_id seed) cold removed m i = ground arith
call-Cold (confirms stage) cold removed m i = ground arith
call-Cold (begins rate kind) cold removed m i = ground arith
call-Cold (finishes outcome cause) cold removed m i =
    let f = finish_run-Finished outcome cause m in ground arith
call-Cold completes cold removed m i = ground arith
call-Cold (prepares handoff) cold removed m i = ground arith
call-Cold (resumes handoff kind survived) cold removed m i = ground arith
call-Cold (confirms_m0 session_id text) cold removed m i = ground arith
call-Cold faults cold removed m i = ground arith

campaign-Cold :
    (cs : List CampaignCall)
    → Cold (any_of is_cold_resume cs) (any_of is_fin_removal cs) (campaign cs)
unfolding campaign
campaign-Cold [] = ground arith
campaign-Cold (c ∷ cs) =
    call-Cold c (any_of is_cold_resume cs) (any_of is_fin_removal cs) (campaign cs)
      (campaign-Cold cs)

-- In the last stage the motor can only be armed after a resume from a valid handoff following a
-- power-on whose RTC memory had been lost, and after the operator typed that the fin is removed.
pub arming_m0_justified :
    (cs : List CampaignCall)
    → (campaign cs).stage ≡ m0
    → can_arm_motor (campaign cs) ≡ true
    → (any_of is_cold_resume cs ≡ true) × (any_of is_fin_removal cs ≡ true)
unfolding can_arm_motor
arming_m0_justified cs last armed =
    let i = campaign-Cold cs in (i.resumed last, i.confirmed last (ground arith))
