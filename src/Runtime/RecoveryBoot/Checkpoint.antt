-- ===== src/Runtime/RecoveryBoot/Checkpoint.antt =====
-- runtime/recovery_boot.cpp: the flight checkpoint that one boot stores and the next loads.
use avi_99l_mission_board.Base.{
  ℕ, ◌+◌, ◌-◌, ◌^◌, ◌≤◌, ◌<◌, ◌≡◌, ◌≢◌, ◌⊎◌, inl, inr, refl, ap, ◌∙◌, Bool, true, false, not, ◌&&◌,
  ◌||◌, some, List, All, ◌==◌, ltb, if◌then◌else◌, add64, arith,
}
use avi_99l_mission_board.Protocol.Types.{
  MissionState, command_receive, liftoff_detection, engine_burn, control, descent, unknown,
}
use avi_99l_mission_board.Protocol.Enums.Mission.{mission_state_code}
use avi_99l_mission_board.Mission.Snapshot.{MissionSnapshot, ResetCheckpoint, completed}
use avi_99l_mission_board.Mission.Machine.{MissionStateMachine}
use avi_99l_mission_board.Mission.Machine.Operations.{restore_after_reset}
use avi_99l_mission_board.Mission.Machine.Events.{Event, boot, run, run-boot-IsValid}
use avi_99l_mission_board.Mission.Machine.Invariant.{IsValid}
use avi_99l_mission_board.Mission.Machine.Reset.{Restorable, restore-completed_iff}
use avi_99l_mission_board.Runtime.RecoveryBoot.{
  FlightCheckpointRecord, checkpoint_checksum, complete_masks, valid_flight_checkpoint, state_of,
  store_flight_checkpoint, checkpoint_magic, checkpoint_version, flight_record, sealed,
  reset_preserves_rtc_memory, load_flight_checkpoint, checkpoint_of, is_pre_liftoff,
}
use avi_99l_mission_board.Runtime.RecoveryBoot.Masks.{Masked, Brings, run-boot-Masked}

-- What a record that passes the test holds.
record Flown (r : FlightCheckpointRecord) : Type 0 where
  epoch : r.flight_epoch ≢ 0
  masks : complete_masks r.preflight_ready_mask r.preflight_missing_mask ≡ true
  state :
      ((r.state ≡ 1) × (r.elapsed_valid ≡ false))
      ⊎ ((r.elapsed_valid ≡ true) × ((r.state ≡ 2) ⊎ (r.state ≡ 3) ⊎ (r.state ≡ 4)))

valid-Flown : (r : FlightCheckpointRecord) → valid_flight_checkpoint r ≡ true → Flown r
unfolding valid_flight_checkpoint
valid-Flown r v = ground arith

state_of_code : (state : MissionState) → state_of (mission_state_code state) ≡ state
unfolding state_of
state_of_code command_receive = refl
state_of_code liftoff_detection = refl
state_of_code engine_burn = refl
state_of_code control = refl
state_of_code descent = refl
state_of_code unknown = refl

Flown-state :
    (r : FlightCheckpointRecord)
    → Flown r
    → ((state_of r.state ≡ liftoff_detection) × (r.elapsed_valid ≡ false))
      ⊎ ((r.elapsed_valid ≡ true)
          × ((state_of r.state ≡ engine_burn)
              ⊎ (state_of r.state ≡ control)
              ⊎ (state_of r.state ≡ descent)))
Flown-state r f = elim f.state [
  | inl (one, no_time) ↦ inl (ap state_of one ∙ state_of_code liftoff_detection, no_time)
  | inr (timed, inl two) ↦ inr (timed, inl (ap state_of two ∙ state_of_code engine_burn))
  | inr (timed, inr (inl three)) ↦
      inr (timed, inr (inl (ap state_of three ∙ state_of_code control)))
  | inr (timed, inr (inr four)) ↦ inr (timed, inr (inr (ap state_of four ∙ state_of_code descent)))
]

module _ (esp_rst_poweron esp_rst_deepsleep : ℕ) (reason rtc_now_us : ℕ) where
  -- What a load that succeeds takes from the record.
  record Loaded (r : FlightCheckpointRecord) (c : ResetCheckpoint) : Type 0 where
    kept : reset_preserves_rtc_memory esp_rst_poweron esp_rst_deepsleep reason ≡ true
    valid : valid_flight_checkpoint r ≡ true
    is_valid : c.valid ≡ true
    epoch : c.flight_epoch ≡ r.flight_epoch
    state : c.state ≡ state_of r.state
    timed : c.elapsed_valid ≡ r.elapsed_valid
    ready : c.preflight_ready_mask ≡ r.preflight_ready_mask
    missing : c.preflight_missing_mask ≡ r.preflight_missing_mask
    later : r.elapsed_us < 2 ^ 64 → r.elapsed_us ≤ c.elapsed_us

  load-Loaded :
      (r : FlightCheckpointRecord) (c : ResetCheckpoint)
      → load_flight_checkpoint esp_rst_poweron esp_rst_deepsleep reason rtc_now_us r ≡ some c
      → Loaded r c
  unfolding load_flight_checkpoint checkpoint_of
  load-Loaded r c h = ground arith

  preserved :
      reset_preserves_rtc_memory esp_rst_poweron esp_rst_deepsleep reason ≡ true
      → (reason ≢ esp_rst_poweron) × (reason ≢ esp_rst_deepsleep)
  unfolding reset_preserves_rtc_memory
  preserved k = ground arith

  -- Whatever the RTC memory holds, a checkpoint that is loaded from it is one that the flight state
  -- machine takes up: of a flight, in a state of the air with a flight time or on the pad without
  -- one, each readiness bit in one mask; it is only loaded after a reset that keeps the memory, and a
  -- flight time that was below 2^64 has not wrapped.
  pub load-Restorable :
      (r : FlightCheckpointRecord) (c : ResetCheckpoint) (m : MissionStateMachine) (now_us : ℕ)
      → load_flight_checkpoint esp_rst_poweron esp_rst_deepsleep reason rtc_now_us r ≡ some c
      → ((restore_after_reset now_us c m).1 ≡ completed)
        × (complete_masks c.preflight_ready_mask c.preflight_missing_mask ≡ true)
        × (reason ≢ esp_rst_poweron)
        × (reason ≢ esp_rst_deepsleep)
        × (r.elapsed_us < 2 ^ 64 → r.elapsed_us ≤ c.elapsed_us)
  load-Restorable r c m now_us h =
      let l = load-Loaded r c h in
      let f = valid-Flown r l.valid in
      let s = Flown-state r f in
      let restorable : Restorable c = (l.is_valid, ground arith, rw (l.state, l.timed) s) in
      (
        (restore-completed_iff now_us c m).1 restorable,
        rw (l.ready, l.missing) f.masks,
        (preserved l.kept).0,
        (preserved l.kept).1,
        l.later,
      )

  eq_refl : (n : ℕ) → (n == n) ≡ true
  eq_refl n = ground arith

  -- The snapshots that are stored as a record.
  record Storable (s : MissionSnapshot) : Type 0 where
    epoch : s.flight_epoch ≢ 0
    masks : complete_masks s.preflight_ready_mask s.preflight_missing_mask ≡ true
    state :
        (s.state ≡ liftoff_detection)
        ⊎ ((s.liftoff_time_valid ≡ true)
            × ((s.state ≡ engine_burn) ⊎ (s.state ≡ control) ⊎ (s.state ≡ descent)))

  -- The checkpoint that goes on from a snapshot.
  pub record Continued (rtc_then_us : ℕ) (s : MissionSnapshot) (c : ResetCheckpoint) : Type 0 where
    pub state : c.state ≡ s.state
    pub epoch : c.flight_epoch ≡ s.flight_epoch
    pub timed : c.elapsed_valid ≡ not (is_pre_liftoff s.state)
    pub clock :
        c.elapsed_us
        ≡ (if is_pre_liftoff s.state then 0 else s.elapsed_us + (rtc_now_us - rtc_then_us))
    pub deployed : c.deployment_started ≡ s.deployment_started
    pub cut : c.power_cutoff_latched ≡ s.deployment_power_cutoff_latched
    pub forced : c.forced_start ≡ s.forced_start
    pub ready : c.preflight_ready_mask ≡ s.preflight_ready_mask

  all_true :
      {a b c d e f g : Bool}
      → a ≡ true
      → b ≡ true
      → c ≡ true
      → d ≡ true
      → e ≡ true
      → f ≡ true
      → g ≡ true
      → (a && b && c && d && e && f && g) ≡ true
  all_true a b c d e f g = ground arith

  sealed_valid :
      (r : FlightCheckpointRecord)
      → r.magic ≡ checkpoint_magic
      → r.version ≡ checkpoint_version
      → Flown r
      → valid_flight_checkpoint (sealed r) ≡ true
  unfolding valid_flight_checkpoint checkpoint_checksum
  sealed_valid r m v f =
      all_true {a = r.magic == checkpoint_magic} {b = r.version == checkpoint_version}
        {c = not (r.flight_epoch == 0)}
        {d = r.state == 1 || r.state == 2 || r.state == 3 || r.state == 4}
        {e = if r.state == 1 then not r.elapsed_valid else r.elapsed_valid} (ground arith)
        (ground arith) (ground arith) (ground arith) (ground arith) f.masks (eq_refl _)

  record_Flown :
      (rtc_then_us : ℕ) (s : MissionSnapshot) → Storable s → Flown (flight_record rtc_then_us s)
  unfolding flight_record
  record_Flown rtc_then_us s k = ground arith

  stored :
      (rtc_then_us : ℕ) (s : MissionSnapshot)
      → Storable s
      → store_flight_checkpoint rtc_then_us s ≡ sealed (flight_record rtc_then_us s)
  unfolding store_flight_checkpoint
  stored rtc_then_us s k = ground arith

  Valid-Storable :
      (m : MissionStateMachine)
      → IsValid m
      → Masked m
      → m.snapshot.state ≢ command_receive
      → Storable m.snapshot
  Valid-Storable m v k going = ground arith

  split :
      {A : Type 0} (b : Bool) (f : ℕ → A) (x y : ℕ)
      → (if not b then f y else f x) ≡ f (if b then x else y)
  split true f x y = refl
  split false f x y = refl

  load_timed :
      (r : FlightCheckpointRecord)
      → reset_preserves_rtc_memory esp_rst_poweron esp_rst_deepsleep reason ≡ true
      → valid_flight_checkpoint r ≡ true
      → r.rtc_time_us ≤ rtc_now_us
      → r.elapsed_us + (rtc_now_us - r.rtc_time_us) < 2 ^ 64
      → load_flight_checkpoint esp_rst_poweron esp_rst_deepsleep reason rtc_now_us r
        ≡ some (
            checkpoint_of r (
              if r.elapsed_valid
              then r.elapsed_us + (rtc_now_us - r.rtc_time_us)
              else r.elapsed_us))
  unfolding load_flight_checkpoint
  load_timed r kept valid order fits =
      let room : ltb (2 ^ 64 - 1 - r.elapsed_us) (rtc_now_us - r.rtc_time_us) ≡ false =
        ground arith in
      let later : ltb rtc_now_us r.rtc_time_us ≡ false = ground arith in
      let sum : add64 r.elapsed_us (rtc_now_us - r.rtc_time_us)
          ≡ r.elapsed_us + (rtc_now_us - r.rtc_time_us) =
        omega arith in
      simp (kept, valid, later, room, sum)
        (split r.elapsed_valid (λ e. some (checkpoint_of r e)) _ _)

  record_Continued :
      (rtc_then_us : ℕ) (s : MissionSnapshot)
      → let r = flight_record rtc_then_us s in
        Continued rtc_then_us s (
          checkpoint_of
            (sealed r)
            (if r.elapsed_valid then r.elapsed_us + (rtc_now_us - rtc_then_us) else r.elapsed_us))
  unfolding flight_record checkpoint_of
  record_Continued rtc_then_us s = record {
    state = state_of_code s.state;
    epoch = refl;
    timed = refl;
    clock = ground arith;
    deployed = refl;
    cut = refl;
    forced = refl;
    ready = refl;
  }

  record_fits :
      (rtc_then_us : ℕ) (s : MissionSnapshot)
      → s.elapsed_us + (rtc_now_us - rtc_then_us) < 2 ^ 64
      → (flight_record rtc_then_us s).elapsed_us + (rtc_now_us - rtc_then_us) < 2 ^ 64
  unfolding flight_record
  record_fits rtc_then_us s fits = ground arith

  load_stored :
      (rtc_then_us : ℕ) (s : MissionSnapshot)
      → Storable s
      → reset_preserves_rtc_memory esp_rst_poweron esp_rst_deepsleep reason ≡ true
      → rtc_then_us ≤ rtc_now_us
      → s.elapsed_us + (rtc_now_us - rtc_then_us) < 2 ^ 64
      → (c : ResetCheckpoint) × (load_flight_checkpoint esp_rst_poweron esp_rst_deepsleep reason
            rtc_now_us
            (store_flight_checkpoint rtc_then_us s)
          ≡ some c)
        × Continued rtc_then_us s c
  unfolding flight_record
  load_stored rtc_then_us s k kept order fits =
      let r = flight_record rtc_then_us s in
      let valid = sealed_valid r refl refl (record_Flown rtc_then_us s k) in
      let loaded = load_timed (sealed r) kept valid order (record_fits rtc_then_us s fits) in
      (
        _,
        ap (load_flight_checkpoint esp_rst_poweron esp_rst_deepsleep reason rtc_now_us)
              (stored rtc_then_us s k)
            ∙ loaded,
        record_Continued rtc_then_us s,
      )

  -- From boot, after any events whose restored checkpoints have complete masks, when the machine is in
  -- a flight: the checkpoint that it stores is loaded by the next boot after a reset that keeps the
  -- RTC memory, it has the state, the epoch and the deployment of the flight and its time plus the
  -- time that the RTC counted over the reset, and the next machine takes it up. The RTC must not have
  -- gone back, nor the flight time reach 2^64 microseconds.
  pub store-load-restore :
      (es : List Event) (rtc_then_us now_us : ℕ) (next : MissionStateMachine)
      → All Brings es
      → let s = (run es boot).machine.snapshot in
        s.state ≢ command_receive
        → reset_preserves_rtc_memory esp_rst_poweron esp_rst_deepsleep reason ≡ true
        → rtc_then_us ≤ rtc_now_us
        → s.elapsed_us + (rtc_now_us - rtc_then_us) < 2 ^ 64
        → (c : ResetCheckpoint) × (load_flight_checkpoint esp_rst_poweron esp_rst_deepsleep reason
              rtc_now_us
              (store_flight_checkpoint rtc_then_us s)
            ≡ some c)
          × Continued rtc_then_us s c
          × ((restore_after_reset now_us c next).1 ≡ completed)
  store-load-restore es rtc_then_us now_us next b going kept order fits =
      let m = (run es boot).machine in
      let k = Valid-Storable m (run-boot-IsValid es) (run-boot-Masked es b) going in
      let l = load_stored rtc_then_us m.snapshot k kept order fits in
      (l.0, l.1, l.2, (load-Restorable _ l.0 next now_us l.1).0)
