-- ===== src/Characterization/Campaign/Runs.antt =====
-- characterization/campaign_state_machine.cpp: the runs that a stage needs before it is completed.
use avi_99l_mission_board.Characterization.Campaign.Measured.{
  Measured, resume_m0_cases, campaign-Measured,
}
use avi_99l_mission_board.Base.{
  ◌&&◌, ◌||◌, ◌==◌, ◌∙◌, ap, refl, Option, ℕ, ◌≡◌, ◌≢◌, ◌⊎◌, Bool, true, false, List, [], ◌∷◌,
  arith, subst, sym, inl, inr,
}
use avi_99l_mission_board.Characterization.Types.{
  AssemblyStage, no_stage, fv, fh_positive, fh_negative, m0, RunKind, EncoderRate, same_stage,
}
use avi_99l_mission_board.Characterization.Campaign.{
  CampaignState, SessionId, CampaignStateMachine, is_rate_check, is_full, running,
  power_cycle_required, completed, pending, accepted, reset_stage_runs, start_new_session,
  confirm_stage, begin_run, finish_run, all_rate_checks_resolved, complete_stage,
}
use avi_99l_mission_board.Characterization.Campaign.Handoff.{M0Handoff, prepare_m0, confirm_m0}
use avi_99l_mission_board.Characterization.Campaign.Calls.{
  CampaignCall, starts, confirms, begins, finishes, completes, prepares, resumes, confirms_m0,
  faults, campaign_call, campaign,
}
use avi_99l_mission_board.Characterization.Campaign.Finish.{
  is_accepted_finish, Finished, finish_run-Finished,
}

abbrev is_running : CampaignState → Bool
is_running running = true
is_running _ = false

-- The call ends a run at 1000 Hz of the stage as accepted, a rate check or a full run.
abbrev pub ends_run : (RunKind → Bool) → AssemblyStage → CampaignCall → CampaignStateMachine → Bool
ends_run is_kind stage c m =
    is_accepted_finish c
    && is_running m.state
    && same_stage m.stage stage
    && is_kind m.active_run_kind
    && m.active_rate == 1000

-- There was such a call, the newest call first.
unfoldable pub ran : (RunKind → Bool) → AssemblyStage → List CampaignCall → Bool
ran is_kind stage [] = false
ran is_kind stage (c ∷ cs) = ends_run is_kind stage c (campaign cs) || ran is_kind stage cs

-- The first stage comes before the second.
abbrev is_before : (first second : AssemblyStage) → Bool
is_before fv fh_positive = true
is_before fv fh_negative = true
is_before fh_positive fh_negative = true
is_before _ _ = false

-- What was accepted for a stage: `check` a rate check, `measurement` a full run.
record Ran (stage : AssemblyStage) (check measurement : Bool) (m : CampaignStateMachine)
    : Type 0 where
  checked : m.stage ≡ stage → m.rate_results.at_1000 ≡ accepted → check ≡ true
  measured : m.stage ≡ stage → m.full_completed.at_1000 ≡ true → measurement ≡ true
  before : is_before stage m.stage ≡ true → (check ≡ true) × (measurement ≡ true)

-- The stage and its results are as they were.
abbrev Kept : (before after : CampaignStateMachine) → Type 0
Kept before after =
    (after.stage ≡ before.stage)
    × (after.rate_results.at_1000 ≡ before.rate_results.at_1000)
    × (after.full_completed.at_1000 ≡ before.full_completed.at_1000)

Kept-Ran :
    (stage : AssemblyStage) (a b : Bool) (before after : CampaignStateMachine)
    → Ran stage a b before
    → Kept before after
    → Ran stage a b after
Kept-Ran stage a b before after r k = record {
  checked = λ at e. r.checked (sym k.0 ∙ at) (sym k.1 ∙ e);
  measured = λ at e. r.measured (sym k.0 ∙ at) (sym k.2 ∙ e);
  before = λ e. r.before (ap (is_before stage) (sym k.0) ∙ e);
}

-- A stage before which there is none, with no results yet.
Fresh-Ran :
    (stage : AssemblyStage) (a b : Bool) (m : CampaignStateMachine)
    → is_before stage m.stage ≡ false
    → m.rate_results.at_1000 ≡ pending
    → m.full_completed.at_1000 ≡ false
    → Ran stage a b m
Fresh-Ran stage a b m first unchecked unmeasured = record {
  checked = λ at e. absurd (ground arith);
  measured = λ at e. absurd (ground arith);
  before = λ e. absurd (ground arith);
}

nothing_before_fv : (stage : AssemblyStage) → is_before stage fv ≡ false
nothing_before_fv no_stage = refl
nothing_before_fv fv = refl
nothing_before_fv fh_positive = refl
nothing_before_fv fh_negative = refl
nothing_before_fv m0 = refl

nothing_before_m0 : (stage : AssemblyStage) → is_before stage m0 ≡ false
nothing_before_m0 no_stage = refl
nothing_before_m0 fv = refl
nothing_before_m0 fh_positive = refl
nothing_before_m0 fh_negative = refl
nothing_before_m0 m0 = refl

-- A call keeps the stage and its results, or starts a stage afresh.
starts_cases :
    (session_id : SessionId) (seed : ℕ) (m : CampaignStateMachine)
    → let after = (start_new_session session_id seed m).0 in
      Kept m after
      ⊎ ((after.stage ≡ fv)
          × (after.rate_results.at_1000 ≡ pending)
          × (after.full_completed.at_1000 ≡ false))
unfolding start_new_session reset_stage_runs
starts_cases session_id seed m = ground arith

confirms-Kept :
    (stage : AssemblyStage) (m : CampaignStateMachine) → Kept m (confirm_stage stage m).0
unfolding confirm_stage
confirms-Kept stage m = ground arith

begins-Kept :
    (rate : EncoderRate) (kind : RunKind) (m : CampaignStateMachine)
    → Kept m (begin_run rate kind m).0
unfolding begin_run
begins-Kept rate kind m = ground arith

prepares-Kept : (handoff : M0Handoff) (m : CampaignStateMachine) → Kept m (prepare_m0 handoff m).0
unfolding prepare_m0
prepares-Kept handoff m = ground arith

confirms_m0-Kept :
    (session_id : SessionId) (text : Option (List ℕ)) (m : CampaignStateMachine)
    → Kept m (confirm_m0 session_id text m).0
unfolding confirm_m0
confirms_m0-Kept session_id text m = ground arith

same_stage_refl : (s : AssemblyStage) → same_stage s s ≡ true
same_stage_refl s = ground arith

-- The run that ends goes to the stage of the machine.
ends_lem :
    (is_kind : RunKind → Bool) (stage : AssemblyStage) (c : CampaignCall) (m : CampaignStateMachine)
    → is_accepted_finish c ≡ true
    → m.state ≡ running
    → m.stage ≡ stage
    → is_kind m.active_run_kind ≡ true
    → m.active_rate ≡ 1000
    → ends_run is_kind stage c m ≡ true
ends_lem is_kind stage c m accepts runs at kind rate =
    rw (accepts, runs, at, kind, rate, same_stage_refl stage) refl

left_true : (a b : Bool) → a ≡ true → (a || b) ≡ true
left_true a b h = rw h refl

right_true : (a b : Bool) → b ≡ true → (a || b) ≡ true
right_true a b h = ground arith

finishes-Ran :
    (stage : AssemblyStage) (c : CampaignCall) (a b : Bool) (before after : CampaignStateMachine)
    → Finished (is_accepted_finish c) before after
    → Ran stage a b before
    → Ran stage
        (ends_run is_rate_check stage c before || a)
        (ends_run is_full stage c before || b)
        after
finishes-Ran stage c a b before after f r = record {
  checked = λ at e. elim f.check [
    | inl same ↦ right_true _ a (r.checked (sym f.stage ∙ at) (sym same ∙ e))
    | inr (result, accepts, runs, over, rate, kind, others) ↦ left_true _ a (
        ends_lem is_rate_check stage c before accepts runs (sym f.stage ∙ at)
          (ap is_rate_check kind) rate)
  ];
  measured = λ at e. elim f.measured [
    | inl same ↦ right_true _ b (r.measured (sym f.stage ∙ at) (sym same ∙ e))
    | inr (result, accepts, runs, over, rate, kind, others) ↦
        left_true _ b
          (ends_lem is_full stage c before accepts runs (sym f.stage ∙ at) (ap is_full kind) rate)
  ];
  before = λ e.
      (let old = r.before (ap (is_before stage) (sym f.stage) ∙ e) in
        (right_true _ a old.0, right_true _ b old.1));
}

completes-Ran :
    (stage : AssemblyStage) (a b : Bool) (m : CampaignStateMachine)
    → Measured m
    → Ran stage a b m
    → Ran stage a b (complete_stage m).0
unfolding complete_stage reset_stage_runs all_rate_checks_resolved
completes-Ran no_stage a b m i r = ground arith
completes-Ran fv a b m i r = ground arith
completes-Ran fh_positive a b m i r = ground arith
completes-Ran fh_negative a b m i r = ground arith
completes-Ran m0 a b m i r = ground arith

call-Ran :
    (stage : AssemblyStage) (c : CampaignCall) (a b : Bool) (m : CampaignStateMachine)
    → Measured m
    → Ran stage a b m
    → Ran stage
        (ends_run is_rate_check stage c m || a)
        (ends_run is_full stage c m || b)
        (campaign_call c m)
unfolding campaign_call
call-Ran stage (starts session_id seed) a b m i r = elim (starts_cases session_id seed m) [
  | inl kept ↦ Kept-Ran stage a b m _ r kept
  | inr (first, unchecked, unmeasured) ↦
      Fresh-Ran stage a b _ (ap (is_before stage) first ∙ nothing_before_fv stage) unchecked
        unmeasured
]
call-Ran stage (confirms s) a b m i r = Kept-Ran stage a b m _ r (confirms-Kept s m)
call-Ran stage (begins rate kind) a b m i r = Kept-Ran stage a b m _ r (begins-Kept rate kind m)
call-Ran stage (finishes outcome cause) a b m i r =
    finishes-Ran stage (finishes outcome cause) a b m (finish_run outcome cause m).0
      (finish_run-Finished outcome cause m) r
call-Ran stage completes a b m i r = completes-Ran stage a b m i r
call-Ran stage (prepares handoff) a b m i r = Kept-Ran stage a b m _ r (prepares-Kept handoff m)
call-Ran stage (resumes handoff kind survived) a b m i r =
    elim (resume_m0_cases handoff kind survived m) [
      | inl same ↦ subst (Ran stage a b) (sym same) r
      | inr (awaiting, last, unchecked, unmeasured) ↦
          Fresh-Ran stage a b _ (ap (is_before stage) last ∙ nothing_before_m0 stage) unchecked
            unmeasured
    ]
call-Ran stage (confirms_m0 session_id text) a b m i r =
    Kept-Ran stage a b m _ r (confirms_m0-Kept session_id text m)
call-Ran stage faults a b m i r = Kept-Ran stage a b m _ r (refl, refl, refl)

nothing_before : (stage : AssemblyStage) → is_before stage no_stage ≢ true
nothing_before no_stage = λ e. cc
nothing_before fv = λ e. cc
nothing_before fh_positive = λ e. cc
nothing_before fh_negative = λ e. cc
nothing_before m0 = λ e. cc

campaign-Ran :
    (stage : AssemblyStage) (cs : List CampaignCall)
    → Ran stage (ran is_rate_check stage cs) (ran is_full stage cs) (campaign cs)
unfolding campaign ran
campaign-Ran stage [] = record {
  checked = λ at e. absurd (ground arith);
  measured = λ at e. absurd (ground arith);
  before = λ e. absurd (nothing_before stage e);
}
campaign-Ran stage (c ∷ cs) =
    call-Ran stage c _ _ (campaign cs) (campaign-Measured cs) (campaign-Ran stage cs)

-- A rate check and a full run of the stage ended as accepted.
abbrev pub StageRan : AssemblyStage → List CampaignCall → Type 0
StageRan stage cs = (ran is_rate_check stage cs ≡ true) × (ran is_full stage cs ≡ true)

-- A session asks for the power cycle only after a rate check and a full run at 1000 Hz were running and
-- were ended as accepted in each of the stages FV, FH+ and FH-, and it is completed only after both
-- were in M0.
pub completion_measured :
    (cs : List CampaignCall)
    → ((campaign cs).state ≡ power_cycle_required
        → StageRan fv cs × StageRan fh_positive cs × StageRan fh_negative cs)
      × ((campaign cs).state ≡ completed → StageRan m0 cs)
completion_measured cs =
    let i = campaign-Measured cs in
    (
      λ handed.
          let at = i.handed (inr handed) in
          let full_done = i.measured (inr (inl handed)) in
          let third = campaign-Ran fh_negative cs in
          (
            (campaign-Ran fv cs).before (ap (is_before fv) at),
            (campaign-Ran fh_positive cs).before (ap (is_before fh_positive) at),
            (third.checked at (i.checked full_done), third.measured at full_done),
          ),
      λ done.
          let at = i.last done in
          let full_done = i.measured (inr (inr done)) in
          let r = campaign-Ran m0 cs in
          (r.checked at (i.checked full_done), r.measured at full_done),
    )
