-- ===== src/Characterization/Campaign/Calls.antt =====
-- characterization/campaign_state_machine.cpp: any calls, in any order, from the start.
use avi_99l_mission_board.Base.{ℕ, Bool, Option, List, [], ◌∷◌}
use avi_99l_mission_board.Characterization.Types.{
  AssemblyStage, EncoderRate, RunKind, UnsupportedReason,
}
use avi_99l_mission_board.Characterization.Campaign.{
  CampaignStateMachine, SessionId, RunOutcome, start_new_session, confirm_stage, begin_run,
  finish_run, complete_stage, fault, new,
}
use avi_99l_mission_board.Characterization.Campaign.Handoff.{
  M0Handoff, ResetKind, prepare_m0, resume_m0, confirm_m0,
}

pub data CampaignCall : Type 0 where
  starts : SessionId → ℕ → CampaignCall
  confirms : AssemblyStage → CampaignCall
  begins : EncoderRate → RunKind → CampaignCall
  finishes : RunOutcome → UnsupportedReason → CampaignCall
  completes : CampaignCall
  prepares : M0Handoff → CampaignCall
  resumes : M0Handoff → ResetKind → Bool → CampaignCall
  confirms_m0 : SessionId → Option (List ℕ) → CampaignCall
  faults : CampaignCall

unfoldable pub campaign_call : CampaignCall → CampaignStateMachine → CampaignStateMachine
unfolding start_new_session confirm_stage begin_run finish_run complete_stage prepare_m0 resume_m0
    confirm_m0 fault
campaign_call (starts session_id seed) m = (start_new_session session_id seed m).0
campaign_call (confirms stage) m = (confirm_stage stage m).0
campaign_call (begins rate kind) m = (begin_run rate kind m).0
campaign_call (finishes outcome cause) m = (finish_run outcome cause m).0
campaign_call completes m = (complete_stage m).0
campaign_call (prepares handoff) m = (prepare_m0 handoff m).0
campaign_call (resumes handoff kind survived) m = (resume_m0 handoff kind survived m).0
campaign_call (confirms_m0 session_id text) m = (confirm_m0 session_id text m).0
campaign_call faults m = fault m

-- The newest call first.
unfoldable pub campaign : List CampaignCall → CampaignStateMachine
campaign [] = new
campaign (c ∷ cs) = campaign_call c (campaign cs)
