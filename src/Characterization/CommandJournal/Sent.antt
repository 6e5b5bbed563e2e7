-- ===== src/Characterization/CommandJournal/Sent.antt =====
-- characterization/command_journal.cpp: the requests that the driver gets.
use avi_99l_mission_board.Base.{
  ℕ, ◌≡◌, inl, inr, ◌||◌, Bool, true, false, not, List, [], ◌∷◌, all_of, arith, refl, Bool-cases,
  ◌&&◌, sym, ◌∙◌,
}
use avi_99l_mission_board.Base.Int.{is_zero}
use avi_99l_mission_board.Characterization.Requests.{is_proper}
use avi_99l_mission_board.Characterization.Types.{
  MotorCommandRequest, coast_request, coast, motor_mode_matches_command, same_mode,
}
use avi_99l_mission_board.Characterization.CommandJournal.{
  EspErr, CommandJournal, bind, valid_request, needs_arm, record_evidence, call_motor, apply_coast,
  disarm, stop_for_error, conclude, reject_and_coast,
}
use avi_99l_mission_board.Characterization.CommandJournal.Cases.{
  Applied, same, refused, done, apply-Applied, valid-is_proper,
}
use avi_99l_mission_board.Characterization.CommandJournal.Safety.{
  JournalCall, binds, arms, disarms, stops, applies, rejects, is_not_arm, journal_call,
  journal_calls,
}

abbrev pub is_coast : MotorCommandRequest → Bool
is_coast request = is_zero request.command_permille && same_mode request.mode coast

-- A property `P` of what the driver has done, that requests that are allowed keep.
module _ {Store : Type 0} (motor_apply : Store → MotorCommandRequest → ℕ → Store × EspErr × ℕ)
    (P : Store → Type 0) where
  -- The driver keeps the property on each request that satisfies the test.
  abbrev pub Keeps : (MotorCommandRequest → Bool) → Type 0
  Keeps test =
      (request : MotorCommandRequest) (now_us : ℕ) (store : Store)
      → test request ≡ true
      → P store
      → P (motor_apply store request now_us).0

  disarm-keeps :
      (now_us : ℕ) (j : CommandJournal) (store : Store)
      → ((now_us : ℕ) (store : Store) → P store → P (motor_apply store coast_request now_us).0)
      → P store
      → P (disarm motor_apply now_us j store).0
  unfolding disarm apply_coast call_motor
  disarm-keeps now_us j store k p = elim (Bool-cases j.bound) [
    | inl bound ↦ rw bound (k now_us store p)
    | inr null ↦ rw null p
  ]

  conclude-keeps :
      (request : MotorCommandRequest) (now_us : ℕ) (result : EspErr) (j : CommandJournal)
      (store : Store)
      → ((now_us : ℕ) (store : Store) → P store → P (motor_apply store coast_request now_us).0)
      → P store
      → P (conclude motor_apply request now_us result j store).0
  unfolding conclude
  conclude-keeps request now_us result j store k p = elim (Bool-cases (is_zero result)) [
    | inl ok ↦ rw ok p
    | inr failed ↦ rw failed (disarm-keeps now_us j store k p)
  ]

  -- The requests that pass the guards of `apply` satisfy the test, and so does the coast request.
  record Guards (test : MotorCommandRequest → Bool) (j : CommandJournal) : Type 0 where
    coasting : test coast_request ≡ true
    passing :
        (request : MotorCommandRequest)
        → valid_request request ≡ true
        → (needs_arm request ≡ true → j.armed ≡ true)
        → test request ≡ true

  module _ (test : MotorCommandRequest → Bool) (k : Keeps test) where
    Applied-keeps :
        (request : MotorCommandRequest) (now_us : ℕ) (j : CommandJournal) (store : Store)
        (r : Store × CommandJournal × EspErr)
        → Guards test j
        → P store
        → Applied motor_apply request now_us j store r
        → P r.0
    Applied-keeps request now_us j store _ g p (same a again) = p
    Applied-keeps request now_us j store _ g p (refused code e why) =
        conclude-keeps request now_us code j store (λ t s. k coast_request t s g.coasting) p
    Applied-keeps request now_us j store _ g p (done a) =
        conclude-keeps request now_us _ _ _ (λ t s. k coast_request t s g.coasting)
          (k request now_us store (g.passing request a.valid a.armed) p)

    call-keeps :
        (c : JournalCall) (j : CommandJournal) (store : Store)
        → Guards test j
        → P store
        → P (journal_call motor_apply c (j, store)).1
    unfolding journal_call stop_for_error reject_and_coast
    call-keeps (binds given) j store g p = p
    call-keeps arms j store g p = p
    call-keeps (disarms now_us) j store g p =
        disarm-keeps now_us j store (λ t s. k coast_request t s g.coasting) p
    call-keeps (stops cause now_us) j store g p = elim (Bool-cases (is_zero cause)) [
      | inl fine ↦ rw fine p
      | inr failed ↦
          rw failed (disarm-keeps now_us j store (λ t s. k coast_request t s g.coasting) p)
    ]
    call-keeps (applies request now_us) j store g p =
        Applied-keeps request now_us j store _ g p
          (apply-Applied motor_apply request now_us j store)
    call-keeps (rejects request cause now_us) j store g p =
        elim (Bool-cases (is_zero cause || not (valid_request request))) [
          | inl bad ↦ rw bad p
          | inr good ↦
              rw good (disarm-keeps now_us j store (λ t s. k coast_request t s g.coasting) p)
        ]

  proper-Guards : (j : CommandJournal) → Guards is_proper j
  proper-Guards j = record {
    coasting = refl;
    passing = λ request v a. sym (valid-is_proper request) ∙ v;
  }

  -- Over any calls the driver is only asked for commands that drive it one way for a number below 0,
  -- the other way for one above 0, and coast or brake for 0, and whose number is from -350 to 350:
  -- what such requests keep true of the driver stays true.
  pub driver_gets_valid :
      Keeps is_proper
      → (cs : List JournalCall) (j : CommandJournal) (store : Store) → P store
      → P (journal_calls motor_apply cs (j, store)).1
  unfolding journal_calls
  driver_gets_valid k [] j store p = p
  driver_gets_valid k (c ∷ cs) j store p =
      driver_gets_valid k cs _ _ (call-keeps is_proper k c j store (proper-Guards j) p)

  unarmed-Guards : (j : CommandJournal) → j.armed ≡ false → Guards is_coast j
  unfolding valid_request needs_arm motor_mode_matches_command
  unarmed-Guards j off = record { coasting = refl; passing = λ request v a. ground arith }

  stays_unarmed :
      (request : MotorCommandRequest) (now_us : ℕ) (j : CommandJournal) (store : Store)
      (r : Store × CommandJournal × EspErr)
      → j.armed ≡ false
      → Applied motor_apply request now_us j store r
      → r.1.armed ≡ false
  unfolding conclude disarm apply_coast record_evidence
  stays_unarmed request now_us j store _ off (same a again) = off
  stays_unarmed request now_us j store _ off (refused code e why) = ground arith
  stays_unarmed request now_us j store _ off (done a) = ground arith

  call-stays_unarmed :
      (c : JournalCall) (j : CommandJournal) (store : Store)
      → is_not_arm c ≡ true
      → j.armed ≡ false
      → (journal_call motor_apply c (j, store)).0.armed ≡ false
  unfolding journal_call bind stop_for_error reject_and_coast disarm apply_coast record_evidence
  call-stays_unarmed (binds given) j store n off = off
  call-stays_unarmed arms j store n off = cc
  call-stays_unarmed (disarms now_us) j store n off = refl
  call-stays_unarmed (stops cause now_us) j store n off = ground arith
  call-stays_unarmed (applies request now_us) j store n off =
      stays_unarmed request now_us j store _ off (apply-Applied motor_apply request now_us j store)
  call-stays_unarmed (rejects request cause now_us) j store n off = ground arith

  -- Until `arm` is called, and whatever else is, the driver is only asked to coast.
  pub unarmed_driver_coasts :
      Keeps is_coast
      → (cs : List JournalCall) (j : CommandJournal) (store : Store) → j.armed ≡ false
      → all_of is_not_arm cs ≡ true
      → P store
      → P (journal_calls motor_apply cs (j, store)).1
  unfolding journal_calls
  unarmed_driver_coasts k [] j store off n p = p
  unarmed_driver_coasts k (c ∷ cs) j store off n p =
      unarmed_driver_coasts k cs _ _ (call-stays_unarmed c j store (ground arith) off)
        (ground arith) (call-keeps is_coast k c j store (unarmed-Guards j off) p)
