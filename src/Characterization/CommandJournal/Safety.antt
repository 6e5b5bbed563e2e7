-- ===== src/Characterization/CommandJournal/Safety.antt =====
-- characterization/command_journal.cpp: what reaches the motor driver, over any calls.
use avi_99l_mission_board.Base.{ℕ, ◌≡◌, ◌≤◌, Bool, true, false, List, [], ◌∷◌, arith}
use avi_99l_mission_board.Base.Int.{is_zero, abs}
use avi_99l_mission_board.Characterization.Types.{
  MotorCommandRequest, coast, motor_mode_matches_command,
}
use avi_99l_mission_board.Characterization.CommandJournal.{
  EspErr, CommandJournal, new, bind, arm, valid_request, needs_arm, record_evidence, apply_coast,
  disarm, stop_for_error, conclude, apply, reject_and_coast,
}
use avi_99l_mission_board.Characterization.CommandJournal.Cases.{
  Allowed, sent, Applied, same, refused, done, apply-Applied,
}

pub data JournalCall : Type 0 where
  binds : Bool → JournalCall
  arms : JournalCall
  disarms : ℕ → JournalCall
  stops : EspErr → ℕ → JournalCall
  applies : MotorCommandRequest → ℕ → JournalCall
  rejects : MotorCommandRequest → EspErr → ℕ → JournalCall

abbrev pub is_not_arm : JournalCall → Bool
is_not_arm arms = false
is_not_arm _ = true

module _ {Store : Type 0} (motor_apply : Store → MotorCommandRequest → ℕ → Store × EspErr × ℕ) where
  unfoldable pub journal_call : JournalCall → CommandJournal × Store → CommandJournal × Store
  unfolding bind arm disarm stop_for_error apply reject_and_coast
  journal_call (binds given) (j, store) = (bind given j, store)
  journal_call arms (j, store) = ((arm j).0, store)
  journal_call (disarms now_us) (j, store) = let r = disarm motor_apply now_us j store in (r.1, r.0)
  journal_call (stops cause now_us) (j, store) =
      let r = stop_for_error motor_apply cause now_us j store in (r.1, r.0)
  journal_call (applies request now_us) (j, store) =
      let r = apply motor_apply request now_us j store in (r.1, r.0)
  journal_call (rejects request cause now_us) (j, store) =
      let r = reject_and_coast motor_apply request cause now_us j store in (r.1, r.0)

  unfoldable pub journal_calls : List JournalCall → CommandJournal × Store → CommandJournal × Store
  journal_calls [] s = s
  journal_calls (c ∷ cs) s = journal_calls cs (journal_call c s)

  -- The last command is one that the driver may get, and the coast command unless armed.
  pub record IsSafe (j : CommandJournal) : Type 0 where
    pub matching :
        motor_mode_matches_command j.current_applied.applied_command_permille
          j.current_applied.applied_mode
        ≡ true
    pub small : abs j.current_applied.applied_command_permille ≤ 350
    pub off :
        j.armed ≡ false
        → (is_zero j.current_applied.applied_command_permille ≡ true)
          × (j.current_applied.applied_mode ≡ coast)

  coast-IsSafe :
      (now_us : ℕ) (j : CommandJournal) (store : Store)
      → IsSafe (disarm motor_apply now_us j store).1
  unfolding disarm apply_coast motor_mode_matches_command
  coast-IsSafe now_us j store = ground arith

  conclude-IsSafe :
      (request : MotorCommandRequest) (now_us : ℕ) (result : EspErr) (j : CommandJournal)
      (store : Store)
      → (is_zero result ≡ true → IsSafe j)
      → IsSafe (conclude motor_apply request now_us result j store).1
  unfolding conclude record_evidence
  conclude-IsSafe request now_us result j store s =
      let c = coast-IsSafe now_us j store in ground arith

  allowed-IsSafe :
      (request : MotorCommandRequest) (now_us : ℕ) (j : CommandJournal) (store : Store)
      → Allowed motor_apply request now_us j store
      → IsSafe (sent motor_apply request now_us j store)
  unfolding valid_request needs_arm motor_mode_matches_command
  allowed-IsSafe request now_us j store a = ground arith

  Applied-IsSafe :
      (request : MotorCommandRequest) (now_us : ℕ) (j : CommandJournal) (store : Store)
      (r : Store × CommandJournal × EspErr)
      → IsSafe j
      → Applied motor_apply request now_us j store r
      → IsSafe r.1
  Applied-IsSafe request now_us j store _ s (same a g) = s
  Applied-IsSafe request now_us j store _ s (refused code e why) =
      conclude-IsSafe request now_us code j store (λ z. cc)
  Applied-IsSafe request now_us j store _ s (done a) =
      conclude-IsSafe request now_us _ _ _ (λ _. allowed-IsSafe request now_us j store a)

  call-IsSafe :
      (c : JournalCall) (j : CommandJournal) (store : Store)
      → IsSafe j
      → IsSafe (journal_call c (j, store)).0
  unfolding journal_call bind arm stop_for_error reject_and_coast record_evidence
  call-IsSafe (binds given) j store s = ground arith
  call-IsSafe arms j store s = ground arith
  call-IsSafe (disarms now_us) j store s = coast-IsSafe now_us j store
  call-IsSafe (stops cause now_us) j store s = let c = coast-IsSafe now_us j store in ground arith
  call-IsSafe (applies request now_us) j store s =
      Applied-IsSafe request now_us j store _ s (apply-Applied motor_apply request now_us j store)
  call-IsSafe (rejects request cause now_us) j store s =
      let c = coast-IsSafe now_us j store in ground arith

  calls-IsSafe :
      (cs : List JournalCall) (j : CommandJournal) (store : Store)
      → IsSafe j
      → IsSafe (journal_calls cs (j, store)).0
  unfolding journal_calls
  calls-IsSafe [] j store s = s
  calls-IsSafe (c ∷ cs) j store s = calls-IsSafe cs _ _ (call-IsSafe c j store s)

  new-IsSafe : IsSafe new
  unfolding motor_mode_matches_command
  new-IsSafe = ground arith

  -- Whatever the driver answers, after any calls the command that is recorded as applied has the mode
  -- of its sign and is at most 350 thousandths, and it is the coast command unless the journal is
  -- armed.
  pub calls-new-IsSafe :
      (cs : List JournalCall) (store : Store) → IsSafe (journal_calls cs (new, store)).0
  calls-new-IsSafe cs store = calls-IsSafe cs new store new-IsSafe
