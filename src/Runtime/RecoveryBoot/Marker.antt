-- ===== src/Runtime/RecoveryBoot/Marker.antt =====
-- runtime/recovery_boot.cpp: the marker over any number of deep sleeps.
use avi_99l_mission_board.Base.{
  ℕ, zero, suc, ◌+◌, ◌^◌, ◌%◌, ◌≡◌, ◌≢◌, refl, ap, subst, ◌∙◌, Bool, true, false, ◌==◌, u32, arith,
}
use avi_99l_mission_board.Mission.Recovery.{
  deep_sleep, recovery_only, RecoveryMarker, BootEvidence, make_recovery_marker,
  valid_recovery_marker, recovery_marker_checksum, select_boot_path,
}
use avi_99l_mission_board.Runtime.RecoveryBoot.{
  wake_sequence, commit_recovery_entry_marker, prepare_marker,
}

module _ {Store : Type 0} (ensure_active : Store → Store × Bool) where
  -- The marker of an entry at `entry`, `n` sleeps ago.
  pub record Entered (entry n : ℕ) (m : RecoveryMarker) : Type 0 where
    pub valid : valid_recovery_marker m ≡ true
    pub since : m.entry_rtc_time_us ≡ entry
    pub sleeps : m.wake_sequence ≡ n

  -- `enterPeriodicDeepSleep`, `n` times.
  unfoldable pub sleeps : ℕ → RecoveryMarker → Store → Store × RecoveryMarker
  sleeps zero m store = (store, m)
  sleeps (suc n) m store = let r = sleeps n m store in prepare_marker ensure_active r.1 r.0

  eq_refl : (n : ℕ) → (n == n) ≡ true
  eq_refl n = ground arith

  made-Entered :
      (n entry : ℕ) (store : Store)
      → Entered entry n (make_recovery_marker ensure_active n entry store).1
  unfolding valid_recovery_marker make_recovery_marker recovery_marker_checksum
  made-Entered n entry store = record { valid = eq_refl _; since = refl; sleeps = refl }

  prepare-Entered :
      (entry n : ℕ) (m : RecoveryMarker) (store : Store)
      → (entry == 0) ≡ false
      → Entered entry n m
      → Entered entry (u32 (n + 1)) (prepare_marker ensure_active m store).1
  unfolding prepare_marker wake_sequence
  prepare-Entered entry n m store e i =
      rw (i.valid, i.since, e, i.sleeps) (made-Entered (u32 (n + 1)) entry store)

  commit-Entered :
      (rtc_now_us : ℕ) (m : RecoveryMarker) (store : Store)
      → let r = commit_recovery_entry_marker ensure_active rtc_now_us m store in
        valid_recovery_marker m ≡ false → (rtc_now_us == 0) ≡ false → Entered rtc_now_us 0 r.1
  unfolding commit_recovery_entry_marker
  commit-Entered rtc_now_us m store fresh clock =
      rw (fresh, clock) (made-Entered 0 rtc_now_us store)

  commit_true :
      (rtc_now_us : ℕ) (m : RecoveryMarker) (store : Store)
      → valid_recovery_marker m ≡ false
      → (rtc_now_us == 0) ≡ false
      → (commit_recovery_entry_marker ensure_active rtc_now_us m store).2 ≡ true
  unfolding commit_recovery_entry_marker
  commit_true rtc_now_us m store fresh clock =
      let made = made-Entered 0 rtc_now_us store in
      rw (fresh, clock, made.valid, made.since, eq_refl rtc_now_us) refl

  sleeps-Entered :
      (k entry : ℕ) (m : RecoveryMarker) (store : Store)
      → (entry == 0) ≡ false
      → Entered entry 0 m
      → Entered entry (k % 2 ^ 32) (sleeps k m store).1
  unfolding sleeps
  sleeps-Entered zero entry m store e i = i
  sleeps-Entered (suc k) entry m store e i =
      let r = sleeps k m store in
      subst (λ n. Entered entry n (prepare_marker ensure_active r.1 r.0).1) (omega arith)
        (prepare-Entered entry (k % 2 ^ 32) r.1 r.0 e (sleeps-Entered k entry m store e i))

  -- Without a valid marker and with a running clock, an entry into recovery writes a marker that is
  -- still valid after any number of deep sleeps: it keeps the time of the entry and counts the
  -- sleeps in 32 bits. A boot from the last of them, by the wake cause, is a recovery boot whatever
  -- the flight checkpoint says.
  pub commit-sleeps :
      (k rtc_now_us : ℕ) (m : RecoveryMarker) (store : Store) (e : BootEvidence)
      → let r = commit_recovery_entry_marker ensure_active rtc_now_us m store in
        let last = (sleeps k r.1 r.0).1 in
        valid_recovery_marker m ≡ false
        → rtc_now_us ≢ 0
        → e.reset_kind ≡ deep_sleep
        → e.recovery_wake_cause ≡ true
        → e.recovery_marker ≡ last
        → (r.2 ≡ true) × Entered rtc_now_us (k % 2 ^ 32) last × (select_boot_path e ≡ recovery_only)
  unfolding select_boot_path
  commit-sleeps k rtc_now_us m store e fresh clock slept caused same =
      let off : (rtc_now_us == 0) ≡ false = ground arith in
      let r = commit_recovery_entry_marker ensure_active rtc_now_us m store in
      let i =
        sleeps-Entered k rtc_now_us r.1 r.0 off (commit-Entered rtc_now_us m store fresh off) in
      let kept : valid_recovery_marker e.recovery_marker ≡ true =
        ap valid_recovery_marker same ∙ i.valid in
      (commit_true rtc_now_us m store fresh off, i, ground arith)
