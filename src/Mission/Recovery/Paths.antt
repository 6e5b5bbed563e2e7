-- ===== src/Mission/Recovery/Paths.antt =====
-- Which path a boot takes, and when recovery may sleep or transfer (mission/recovery.cpp).
use avi_99l_mission_board.Base.{
  ℕ, ◌≡◌, ◌≢◌, ◌↔◌, ◌⊎◌, Bool, true, false, ◌&&◌, ◌||◌, List, [], ◌∷◌, ◌==◌, any_of, arith, ap,
}
use avi_99l_mission_board.Mission.Recovery.{
  power_on, software_or_watchdog, deep_sleep, normal, resume_flight_safely, recovery_only,
  BootEvidence, recovery_marker_checksum, make_recovery_marker, valid_recovery_marker,
  select_boot_path, RecoveryRuntimeState, inactive, transfer_in_progress, wake_command_window,
  ready_for_deep_sleep, request_entry, mark_resources_safe_and_flushed, wake, begin_transfer,
  finish_transfer, may_enter_deep_sleep,
}

eq_refl : (n : ℕ) → (n == n) ≡ true
eq_refl n = ground arith

module _ {Store : Type 0} (ensure_active : Store → Store × Bool) where
  made_valid :
      (w t : ℕ) (s : Store)
      → valid_recovery_marker (make_recovery_marker ensure_active w t s).1 ≡ true
  unfolding valid_recovery_marker make_recovery_marker recovery_marker_checksum
  made_valid w t s = eq_refl _

  -- After a wake from deep sleep with the recovery wake cause, and the marker that was made before it,
  -- the board boots into recovery, whatever else the evidence says and whether or not the latch in
  -- the non-volatile storage could be set.
  pub marker_boots_recovery :
      (wake_sequence entry_rtc_time_us : ℕ) (store : Store) (e : BootEvidence)
      → e.reset_kind ≡ deep_sleep
      → e.recovery_wake_cause ≡ true
      → e.recovery_marker
        ≡ (make_recovery_marker ensure_active wake_sequence entry_rtc_time_us store).1
      → select_boot_path e ≡ recovery_only
  unfolding select_boot_path
  marker_boots_recovery wake_sequence entry_rtc_time_us store e slept caused same =
      ground
        (arith, made_valid wake_sequence entry_rtc_time_us store, ap valid_recovery_marker same)

-- A flight is taken up at boot exactly when its checkpoint is valid and the time since liftoff can be
-- known: after a software or watchdog reset by the RTC, after a power-on by the absolute times of
-- the liftoff and of now; never after a deep sleep. A boot that finds a checkpoint is never normal,
-- but after a deep sleep without the wake cause or with a broken marker it fails safe.
pub select_boot_path_lem :
    (e : BootEvidence)
    → ((select_boot_path e ≡ resume_flight_safely) ↔ (
        (e.flight_checkpoint_valid ≡ true)
        × (((e.reset_kind ≡ software_or_watchdog) × (e.rtc_elapsed_valid ≡ true))
            ⊎ ((e.reset_kind ≡ power_on)
                × (e.absolute_liftoff_time_valid ≡ true)
                × (e.current_absolute_time_valid ≡ true)))))
      × ((select_boot_path e ≡ normal)
          ↔ ((e.reset_kind ≢ deep_sleep) × (e.flight_checkpoint_valid ≡ false)))
      × ((select_boot_path e ≡ recovery_only) ↔ (
          (e.reset_kind ≡ deep_sleep)
          × (e.recovery_wake_cause ≡ true)
          × (valid_recovery_marker e.recovery_marker ≡ true)))
unfolding select_boot_path
select_boot_path_lem e =
    ((ground arith, ground arith), (ground arith, ground arith), (ground arith, ground arith))

-- The calls to `RecoveryRuntime`.
pub data RecoveryCall : Type 0 where
  requests flushes begins finishes : RecoveryCall
  wakes : Bool → Bool → RecoveryCall

unfoldable pub recovery_call : RecoveryCall → RecoveryRuntimeState → RecoveryRuntimeState
unfolding request_entry mark_resources_safe_and_flushed wake begin_transfer finish_transfer
recovery_call requests s = (request_entry s).0
recovery_call flushes s = (mark_resources_safe_and_flushed s).0
recovery_call begins s = (begin_transfer s).0
recovery_call finishes s = finish_transfer s
recovery_call (wakes marker_valid wake_cause_valid) s = (wake marker_valid wake_cause_valid s).0

unfoldable pub recovery_calls : List RecoveryCall → RecoveryRuntimeState → RecoveryRuntimeState
recovery_calls [] s = s
recovery_calls (c ∷ cs) s = recovery_calls cs (recovery_call c s)

abbrev pub is_valid_wake : RecoveryCall → Bool
is_valid_wake (wakes marker_valid wake_cause_valid) = marker_valid && wake_cause_valid
is_valid_wake _ = false

abbrev pub is_flush : RecoveryCall → Bool
is_flush flushes = true
is_flush _ = false

-- What has been seen so far justifies the state.
record Justified (woken flushed : Bool) (s : RecoveryRuntimeState) : Type 0 where
  window_woken : s ≡ wake_command_window → woken ≡ true
  transfer_woken : s ≡ transfer_in_progress → woken ≡ true
  ready_safe : s ≡ ready_for_deep_sleep → (woken || flushed) ≡ true

call-Justified :
    (c : RecoveryCall) (woken flushed : Bool) (s : RecoveryRuntimeState)
    → Justified woken flushed s
    → Justified (woken || is_valid_wake c) (flushed || is_flush c) (recovery_call c s)
unfolding recovery_call
call-Justified requests woken flushed s j = ground arith
call-Justified flushes woken flushed s j = ground arith
call-Justified begins woken flushed s j = ground arith
call-Justified finishes woken flushed s j = ground arith
call-Justified (wakes a b) woken flushed s j = ground arith

or_assoc : (a b c : Bool) → ((a || b) || c) ≡ (a || (b || c))
or_assoc a b c = ground arith

calls-Justified :
    (cs : List RecoveryCall) (woken flushed : Bool) (s : RecoveryRuntimeState)
    → Justified woken flushed s
    → Justified
        (woken || any_of is_valid_wake cs)
        (flushed || any_of is_flush cs)
        (recovery_calls cs s)
unfolding recovery_calls
calls-Justified [] woken flushed s j = ground arith
calls-Justified (c ∷ cs) woken flushed s j =
    let rest =
      calls-Justified cs (woken || is_valid_wake c) (flushed || is_flush c) (recovery_call c s)
        (call-Justified c woken flushed s j) in
    ground (
      arith,
      rest,
      or_assoc woken (is_valid_wake c) (any_of is_valid_wake cs),
      or_assoc flushed (is_flush c) (any_of is_flush cs),
    )

-- After any calls from inactive: a log transfer is only in progress after a wake with a valid marker
-- and a valid cause, and deep sleep is only allowed after such a wake or after the resources were
-- reported safe and flushed.
pub recovery_calls_justified :
    (cs : List RecoveryCall)
    → ((recovery_calls cs inactive ≢ transfer_in_progress) ⊎ (any_of is_valid_wake cs ≡ true))
      × ((may_enter_deep_sleep (recovery_calls cs inactive) ≡ false)
          ⊎ ((any_of is_valid_wake cs || any_of is_flush cs) ≡ true))
unfolding may_enter_deep_sleep
recovery_calls_justified cs =
    let j = calls-Justified cs false false inactive (ground arith) in (ground arith, ground arith)
