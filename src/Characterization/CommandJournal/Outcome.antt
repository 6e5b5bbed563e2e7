-- ===== src/Characterization/CommandJournal/Outcome.antt =====
-- characterization/command_journal.cpp: what a request comes to, and a request that is repeated.
use avi_99l_mission_board.Base.{
  ℕ, ◌≡◌, ◌≢◌, ◌↔◌, Bool, not, ◌||◌, zero, suc, ◌⊎◌, Bool-cases, inl, inr, refl, ap, sym, ◌∙◌, true,
  false, ◌==◌, arith,
}
use avi_99l_mission_board.Base.Int.{ℤ, pos, negsuc, is_zero, =ℤ_iff}
use avi_99l_mission_board.Characterization.Types.{
  MotorMode, MotorCommandRequest, coast, brake, drive_in1, drive_in2, coast_request, same_mode,
}
use avi_99l_mission_board.Characterization.Requests.{is_proper, mode_of_sign}
use avi_99l_mission_board.Characterization.CommandJournal.{
  EspErr, esp_ok, CommandJournal, valid_request, needs_arm, call_motor, request_already_applied,
  record_evidence, apply_coast, disarm, conclude, apply,
}
use avi_99l_mission_board.Characterization.CommandJournal.Cases.{
  Allowed, sent, Refusal, malformed, unarmed, unbound, Applied, same, refused, done, apply-Applied,
  valid-is_proper,
}

same_mode_iff : (a b : MotorMode) → (same_mode a b ≡ true) ↔ (a ≡ b)
same_mode_iff a b = (ground arith, ground arith)

-- A proper command needs the arming unless it coasts.
moving :
    (mode : MotorMode) (permille : ℤ)
    → mode_of_sign mode permille ≡ true
    → ((not (is_zero permille) || same_mode mode brake) ≡ true) ↔ (mode ≢ coast)
moving drive_in1 (pos zero) h = (ground arith, ground arith)
moving drive_in1 (pos (suc n)) h = (ground arith, ground arith)
moving drive_in1 (negsuc n) h = (ground arith, ground arith)
moving drive_in2 (pos zero) h = (ground arith, ground arith)
moving drive_in2 (pos (suc n)) h = (ground arith, ground arith)
moving drive_in2 (negsuc n) h = (ground arith, ground arith)
moving coast (pos zero) h = (ground arith, ground arith)
moving coast (pos (suc n)) h = (ground arith, ground arith)
moving coast (negsuc n) h = (ground arith, ground arith)
moving brake (pos zero) h = (ground arith, ground arith)
moving brake (pos (suc n)) h = (ground arith, ground arith)
moving brake (negsuc n) h = (ground arith, ground arith)

module _ {Store : Type 0} (motor_apply : Store → MotorCommandRequest → ℕ → Store × EspErr × ℕ)
    (request : MotorCommandRequest) (now_us : ℕ) (j : CommandJournal) (store : Store) where
  -- The journal, and what the driver made of the request, after a request that succeeded.
  pub record Succeeded (r : Store × CommandJournal × EspErr) : Type 0 where
    pub proper : is_proper request ≡ true
    pub was_armed : request.mode ≢ coast → j.armed ≡ true
    pub stays : r.1.armed ≡ j.armed
    pub permille : r.1.current_applied.applied_command_permille ≡ request.command_permille
    pub mode : r.1.current_applied.applied_mode ≡ request.mode
    pub evident_permille : r.1.current.applied_command_permille ≡ request.command_permille
    pub evident_mode : r.1.current.applied_motor_mode ≡ request.mode
    pub told :
        (r.0 ≡ store)
        ⊎ ((r.0 ≡ (motor_apply store request now_us).0)
            × (is_zero (motor_apply store request now_us).1 ≡ true))

  -- The first error of a request, and the driver then.
  pub data FirstError : EspErr → Store → Type 0 where
    improper : is_proper request ≡ false → FirstError (pos 0x102) store
    moves_unarmed :
        is_proper request ≡ true
        → request.mode ≢ coast
        → j.armed ≡ false
        → FirstError (pos 0x103) store
    no_driver : is_proper request ≡ true → j.bound ≡ false → FirstError (pos 0x103) store
    driver_failed :
        is_proper request ≡ true
        → (request.mode ≢ coast → j.armed ≡ true)
        → j.bound ≡ true
        → FirstError (motor_apply store request now_us).1 (motor_apply store request now_us).0

  -- The last that the driver is told is to coast.
  abbrev pub Coasted : (before after : Store) → Type 0
  Coasted before after =
      (j.bound ≡ true → after ≡ (motor_apply before coast_request now_us).0)
      × (j.bound ≡ false → after ≡ before)

  pub record Failed (r : Store × CommandJournal × EspErr) : Type 0 where
    pub at_error : Store
    pub first : FirstError r.2 at_error
    pub coasted : Coasted at_error r.0
    pub disarmed : r.1.armed ≡ false
    pub permille : is_zero r.1.current_applied.applied_command_permille ≡ true
    pub mode : r.1.current_applied.applied_mode ≡ coast
    pub cause : r.1.current.apply_result_code ≡ r.2
    pub generation : r.1.current.command_generation ≡ j.next_generation
    pub requested_permille : r.1.current.requested_command_permille ≡ request.command_permille
    pub requested_mode : r.1.current.requested_motor_mode ≡ request.mode

  abbrev pub Comes : Store × CommandJournal × EspErr → Type 0
  Comes r = ((is_zero r.2 ≡ true) × Succeeded r) ⊎ ((is_zero r.2 ≡ false) × Failed r)

  moves-needs_arm : is_proper request ≡ true → (needs_arm request ≡ true) ↔ (request.mode ≢ coast)
  unfolding needs_arm
  moves-needs_arm p = moving request.mode request.command_permille (ground arith)

  conclude-fails :
      (result : EspErr) (k : CommandJournal) (s : Store)
      → is_zero result ≡ false
      → FirstError result s
      → k.next_generation ≡ j.next_generation
      → k.bound ≡ j.bound
      → (is_zero (conclude motor_apply request now_us result k s).2 ≡ false)
        × Failed (conclude motor_apply request now_us result k s)
  unfolding conclude disarm apply_coast record_evidence call_motor
  conclude-fails result k s e first kept still = rw e (
    e,
    record {
      at_error = s;
      first = first;
      coasted = (λ there. rw (still, there) refl, λ null. rw (still, null) refl);
      disarmed = refl;
      permille = refl;
      mode = refl;
      cause = refl;
      generation = kept;
      requested_permille = refl;
      requested_mode = refl;
    },
  )

  proper_lem : (b : Bool) → valid_request request ≡ b → is_proper request ≡ b
  proper_lem b h = sym (valid-is_proper request) ∙ h

  Allowed-armed : Allowed motor_apply request now_us j store → request.mode ≢ coast → j.armed ≡ true
  Allowed-armed a moves = a.armed ((moves-needs_arm (proper_lem true a.valid)).1 moves)

  Refusal-FirstError :
      (code : EspErr) → Refusal motor_apply request now_us j store code → FirstError code store
  Refusal-FirstError _ (malformed v) = improper (proper_lem false v)
  Refusal-FirstError _ (unarmed v n off) =
      let p = proper_lem true v in moves_unarmed p ((moves-needs_arm p).0 n) off
  Refusal-FirstError _ (unbound v off) = no_driver (proper_lem true v) off

  same-Succeeded :
      Allowed motor_apply request now_us j store
      → request_already_applied request j ≡ true
      → Succeeded (store, j, esp_ok)
  unfolding request_already_applied
  same-Succeeded a again =
      let m = same_mode_iff j.current_applied.applied_mode request.mode in
      let n = same_mode_iff j.current.applied_motor_mode request.mode in
      let p = =ℤ_iff j.current_applied.applied_command_permille request.command_permille in
      let q = =ℤ_iff j.current.applied_command_permille request.command_permille in
      record {
        proper = proper_lem true a.valid;
        was_armed = Allowed-armed a;
        stays = refl;
        permille = p.0 (ground arith);
        mode = m.0 (ground arith);
        evident_permille = q.0 (ground arith);
        evident_mode = n.0 (ground arith);
        told = inl refl;
      }

  sent-Succeeded :
      let m = motor_apply store request now_us in
      let r =
        conclude motor_apply request now_us m.1 (sent motor_apply request now_us j store) m.0 in
      Allowed motor_apply request now_us j store
      → is_zero m.1 ≡ true
      → (is_zero r.2 ≡ true) × Succeeded r
  unfolding conclude record_evidence
  sent-Succeeded a ok = rw ok (
    ok,
    record {
      proper = proper_lem true a.valid;
      was_armed = Allowed-armed a;
      stays = refl;
      permille = refl;
      mode = refl;
      evident_permille = refl;
      evident_mode = refl;
      told = inr (refl, ok);
    },
  )

  Applied-Comes :
      (r : Store × CommandJournal × EspErr) → Applied motor_apply request now_us j store r → Comes r
  Applied-Comes _ (same a again) = inl (refl, same-Succeeded a again)
  Applied-Comes _ (refused code e why) =
      inr (conclude-fails code j store e (Refusal-FirstError code why) refl refl)
  Applied-Comes _ (done a) =
      let m = motor_apply store request now_us in
      elim (Bool-cases (is_zero m.1)) [
        | inl ok ↦ inl (sent-Succeeded a ok)
        | inr failed ↦ inr (
            conclude-fails m.1 (sent motor_apply request now_us j store) m.0 failed
              (driver_failed (proper_lem true a.valid) (Allowed-armed a) a.bound) refl refl)
      ]

  -- A request succeeds only if its mode goes with its sign, it is from -350 to 350, and the journal is
  -- armed unless it coasts; the driver, if it is called, has had it and answered 0, and it is what is
  -- recorded as applied. Otherwise the result is the first error, that of an improper request, of a
  -- journal that is not armed or has no driver, or the driver's answer to the request; after it the
  -- driver, if there is one, is told to coast and nothing else, the journal is disarmed, and the
  -- evidence keeps the request, its generation and the first error, whatever the driver answers.
  pub apply_lem : Comes (apply motor_apply request now_us j store)
  apply_lem = Applied-Comes _ (apply-Applied motor_apply request now_us j store)

module _ {Store : Type 0} (motor_apply : Store → MotorCommandRequest → ℕ → Store × EspErr × ℕ) where
  eq_refl : (n : ℕ) → (n == n) ≡ true
  eq_refl n = ground arith

  -- The second `apply` takes the first way.
  again_same :
      (request : MotorCommandRequest) (now_us : ℕ) (j : CommandJournal) (store : Store)
      → Allowed motor_apply request now_us j store
      → request_already_applied request j ≡ true
      → apply motor_apply request now_us j store ≡ (store, j, esp_ok)
  unfolding apply
  again_same request now_us j store a again = ground arith

  sent_again :
      (request : MotorCommandRequest) (code : EspErr) (now_us : ℕ) (j : CommandJournal)
      → (j.next_generation == 0) ≡ false
      → is_zero code ≡ true
      → is_zero j.current_applied.result_code ≡ true
      → j.current_applied.applied_command_permille ≡ request.command_permille
      → j.current_applied.applied_mode ≡ request.mode
      → request_already_applied request (record_evidence request code now_us j) ≡ true
  unfolding request_already_applied record_evidence
  sent_again request code now_us j generation ok done_ok permille mode =
      let p = (=ℤ_iff request.command_permille request.command_permille).1 refl in
      let m = (same_mode_iff request.mode request.mode).1 refl in
      rw (generation, ok, done_ok, permille, mode, p, m) refl

  evidence-Allowed :
      (request : MotorCommandRequest) (code : EspErr) (now_us later_us : ℕ) (j : CommandJournal)
      (store : Store)
      → Allowed motor_apply request now_us j store
      → Allowed motor_apply request later_us
          (record_evidence request code now_us (sent motor_apply request now_us j store))
          (motor_apply store request now_us).0
  unfolding record_evidence
  evidence-Allowed request code now_us later_us j store a = record {
    valid = a.valid;
    armed = a.armed;
    bound = a.bound;
  }

  conclude_code :
      (request : MotorCommandRequest) (now_us : ℕ) (code : EspErr) (j : CommandJournal)
      (store : Store)
      → (conclude motor_apply request now_us code j store).2 ≡ code
  unfolding conclude
  conclude_code request now_us code j store = ground arith

  conclude_ok :
      (request : MotorCommandRequest) (now_us : ℕ) (code : EspErr) (j : CommandJournal)
      (store : Store)
      → is_zero code ≡ true
      → conclude motor_apply request now_us code j store
        ≡ (store, record_evidence request code now_us j, code)
  unfolding conclude
  conclude_ok request now_us code j store ok = rw ok refl

  repeat-done :
      (request : MotorCommandRequest) (now_us later_us : ℕ) (j : CommandJournal) (store : Store)
      (r : Store × CommandJournal × EspErr)
      → (j.next_generation == 0) ≡ false
      → Applied motor_apply request now_us j store r
      → is_zero r.2 ≡ true
      → apply motor_apply request later_us r.1 r.0 ≡ (r.0, r.1, esp_ok)
  repeat-done request now_us later_us j store _ g (same a again) ok =
      again_same request later_us j store
        (record { valid = a.valid; armed = a.armed; bound = a.bound }) again
  repeat-done request now_us later_us j store _ g (refused code e why) ok =
      let c = ap is_zero (conclude_code request now_us code j store) in cc
  repeat-done request now_us later_us j store _ g (done a) ok =
      let m = motor_apply store request now_us in
      let k = sent motor_apply request now_us j store in
      let zero_code : is_zero m.1 ≡ true =
        sym (ap is_zero (conclude_code request now_us m.1 k m.0)) ∙ ok in
      rw (conclude_ok request now_us m.1 k m.0 zero_code) (
        again_same request later_us (record_evidence request m.1 now_us k) m.0
          (evidence-Allowed request m.1 now_us later_us j store a)
          (sent_again request m.1 now_us k g zero_code zero_code refl refl))

  -- A request that has succeeded is not sent again: the same request succeeds at once, and neither the
  -- journal nor the driver changes. The generations must not have wrapped round to 0.
  pub apply-apply :
      (request : MotorCommandRequest) (now_us later_us : ℕ) (j : CommandJournal) (store : Store)
      → (j.next_generation == 0) ≡ false
      → let r = apply motor_apply request now_us j store in
        is_zero r.2 ≡ true → apply motor_apply request later_us r.1 r.0 ≡ (r.0, r.1, esp_ok)
  apply-apply request now_us later_us j store g ok =
      repeat-done request now_us later_us j store _ g
        (apply-Applied motor_apply request now_us j store) ok
