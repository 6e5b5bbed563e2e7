-- ===== src/Characterization/Campaign/Measured.antt =====
-- characterization/campaign_state_machine.cpp: the results that a state needs.
use avi_99l_mission_board.Base.{
  ◌≡◌, ◌⊎◌, Bool, true, false, List, [], ◌∷◌, arith, subst, sym, inl, inr,
}
use avi_99l_mission_board.Characterization.Types.{fh_negative, m0, rate_check, full}
use avi_99l_mission_board.Characterization.Campaign.{
  CampaignStateMachine, running, awaiting_m0_handoff, power_cycle_required,
  awaiting_m0_confirmation, completed, pending, accepted, reset_stage_runs, start_new_session,
  confirm_stage, rate_index, begin_run, finish_run, all_rate_checks_resolved, complete_stage, fault,
}
use avi_99l_mission_board.Characterization.Campaign.Handoff.{
  M0Handoff, ResetKind, prepare_m0, resume_m0, confirm_m0,
}
use avi_99l_mission_board.Characterization.Campaign.Calls.{
  CampaignCall, starts, confirms, begins, finishes, completes, prepares, resumes, confirms_m0,
  faults, campaign_call, campaign,
}
use avi_99l_mission_board.Characterization.Campaign.Finish.{
  is_accepted_finish, Finished, finish_run-Finished,
}

-- What the results at 1000 Hz say of the state.
pub record Measured (m : CampaignStateMachine) : Type 0 where
  pub checked : m.full_completed.at_1000 ≡ true → m.rate_results.at_1000 ≡ accepted
  pub checking :
      m.state ≡ running
      → m.active_run_kind ≡ rate_check
      → m.active_rate ≡ 1000
      → m.rate_results.at_1000 ≡ pending
  pub measuring :
      m.state ≡ running
      → m.active_run_kind ≡ full
      → m.active_rate ≡ 1000
      → m.rate_results.at_1000 ≡ accepted
  pub measured :
      (m.state ≡ awaiting_m0_handoff) ⊎ (m.state ≡ power_cycle_required) ⊎ (m.state ≡ completed)
      → m.full_completed.at_1000 ≡ true
  pub handed :
      (m.state ≡ awaiting_m0_handoff) ⊎ (m.state ≡ power_cycle_required) → m.stage ≡ fh_negative
  pub last : m.state ≡ completed → m.stage ≡ m0

Finished-Measured :
    (accepts : Bool) (before after : CampaignStateMachine)
    → Finished accepts before after
    → Measured before
    → Measured after
Finished-Measured accepts before after f s = record {
  checked = ground arith;
  checking = ground arith;
  measuring = ground arith;
  measured = ground arith;
  handed = ground arith;
  last = ground arith;
}

-- A resume either changes nothing or starts the runs of a stage afresh.
abbrev pub Resumed : (before after : CampaignStateMachine) → Type 0
Resumed before after =
    (after ≡ before)
    ⊎ ((after.state ≡ awaiting_m0_confirmation)
        × (after.stage ≡ m0)
        × (after.rate_results.at_1000 ≡ pending)
        × (after.full_completed.at_1000 ≡ false))

pub resume_m0_cases :
    (handoff : M0Handoff) (kind : ResetKind) (survived : Bool) (m : CampaignStateMachine)
    → Resumed m (resume_m0 handoff kind survived m).0
unfolding resume_m0 reset_stage_runs
resume_m0_cases handoff kind survived m = ground arith

Resumed-Measured :
    (before after : CampaignStateMachine) → Measured before → Resumed before after → Measured after
Resumed-Measured before after s (inl same) = subst Measured (sym same) s
Resumed-Measured before after s (inr r) = ground arith

call-Measured :
    (c : CampaignCall) (m : CampaignStateMachine) → Measured m → Measured (campaign_call c m)
unfolding campaign_call start_new_session confirm_stage begin_run complete_stage prepare_m0
    resume_m0 confirm_m0 fault reset_stage_runs all_rate_checks_resolved rate_index
call-Measured (starts session_id seed) m s = ground arith
call-Measured (confirms stage) m s = ground arith
call-Measured (begins rate kind) m s = ground arith
call-Measured (finishes outcome cause) m s =
    Finished-Measured (is_accepted_finish (finishes outcome cause)) m (finish_run outcome cause m).0
      (finish_run-Finished outcome cause m) s
call-Measured completes m s = ground arith
call-Measured (prepares handoff) m s = ground arith
call-Measured (resumes handoff kind survived) m s =
    Resumed-Measured m _ s (resume_m0_cases handoff kind survived m)
call-Measured (confirms_m0 session_id text) m s = ground arith
call-Measured faults m s = ground arith

pub campaign-Measured : (cs : List CampaignCall) → Measured (campaign cs)
unfolding campaign
campaign-Measured [] = ground arith
campaign-Measured (c ∷ cs) = call-Measured c (campaign cs) (campaign-Measured cs)
