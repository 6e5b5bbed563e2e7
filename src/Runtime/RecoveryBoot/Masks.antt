-- ===== src/Runtime/RecoveryBoot/Masks.antt =====
-- The masks of the preflight readiness in the machine (mission/mission_state.cpp), which the checkpoint
-- of runtime/recovery_boot.cpp is refused for unless each bit is in one of them.
use avi_99l_mission_board.Base.{
  ℕ, zero, suc, ◌-◌, ◌<◌, ◌≡◌, ◌≢◌, refl, Bool, true, ◌&&◌, List, [], ◌∷◌, All, arith, inl, inr,
  subst, Bool-cases, ◌==◌,
}
use avi_99l_mission_board.Overtravel.{Guard}
use avi_99l_mission_board.Protocol.Types.{command_receive}
use avi_99l_mission_board.Mission.Snapshot.{
  MissionTickInput, SafetyRequest, PreflightReadinessSnapshot, ready_mask, missing_mask,
}
use avi_99l_mission_board.Mission.Machine.{MissionStateMachine}
use avi_99l_mission_board.Mission.Machine.Operations.{
  start_sequence, cancel_sequence, disable_fin_control, liftoff_detection_emergency_stop,
  restore_after_reset,
}
use avi_99l_mission_board.Mission.Machine.Tick.{
  before_deployment, deploy_if_due, after_deployment, tick,
}
use avi_99l_mission_board.Mission.Machine.Events.{
  Event, starts, cancels, disables_fin, stops_liftoff, restores, ticks, observes, clears_fault,
  System, boot, step, run,
}
use avi_99l_mission_board.Runtime.RecoveryBoot.{complete_masks}

-- A test of each number below `n`.
abbrev all_below : (ℕ → Bool) → ℕ → Bool
all_below p zero = true
all_below p (suc n) = all_below p n && p n

and_left : (a b : Bool) → (a && b) ≡ true → a ≡ true
and_left a b h = ground arith

and_right : (a b : Bool) → (a && b) ≡ true → b ≡ true
and_right a b h = ground arith

all_below-get : (p : ℕ → Bool) (n i : ℕ) → all_below p n ≡ true → i < n → p i ≡ true
all_below-get p zero i h l = absurd (omega arith)
all_below-get p (suc n) i h l = elim (Bool-cases (i == n)) [
  | inl same ↦ subst (λ k. p k ≡ true) (ground arith) (and_right (all_below p n) (p n) h)
  | inr other ↦ all_below-get p n i (and_left (all_below p n) (p n) h) (ground arith)
]

both_masks : all_below (λ i. complete_masks i (31 - i)) 32 ≡ true
unfolding complete_masks
both_masks = refl

pub start_masks :
    (r : PreflightReadinessSnapshot) → complete_masks (ready_mask r) (missing_mask r) ≡ true
unfolding missing_mask ready_mask
start_masks r =
    all_below-get (λ i. complete_masks i (31 - i)) 32 (ready_mask r) both_masks (ground arith)

abbrev pub Masked : MissionStateMachine → Type 0
Masked m =
    m.snapshot.state ≢ command_receive
    → complete_masks m.snapshot.preflight_ready_mask m.snapshot.preflight_missing_mask ≡ true

module _ (input : MissionTickInput) where
  before_deployment-Masked :
      (safety : SafetyRequest) (g : Guard) (m : MissionStateMachine)
      → Masked m
      → Masked (before_deployment input safety g m)
  unfolding before_deployment
  before_deployment-Masked safety g m k = ground arith

  deploy_if_due-Masked :
      (current : Bool) (safety : SafetyRequest) (m : MissionStateMachine)
      → Masked m
      → Masked (deploy_if_due input current safety m)
  unfolding deploy_if_due
  deploy_if_due-Masked current safety m k = ground arith

  after_deployment-Masked : (m : MissionStateMachine) → Masked m → Masked (after_deployment input m)
  unfolding after_deployment
  after_deployment-Masked m k = ground arith

  tick-Masked :
      (safety : SafetyRequest) (g : Guard) (m : MissionStateMachine)
      → Masked m
      → Masked (tick input safety g m).1
  unfolding tick
  tick-Masked safety g m k =
      after_deployment-Masked _
        (deploy_if_due-Masked _ safety _ (before_deployment-Masked safety g m k))

-- What a checkpoint that is restored has to bring.
abbrev pub Brings : Event → Type 0
Brings (restores now_us c) = complete_masks c.preflight_ready_mask c.preflight_missing_mask ≡ true
Brings _ = Unit

step-Masked : (e : Event) (s : System) → Brings e → Masked s.machine → Masked (step e s).machine
unfolding step start_sequence cancel_sequence disable_fin_control liftoff_detection_emergency_stop
    restore_after_reset
step-Masked (starts r mode) s b k = let m = start_masks r in ground arith
step-Masked cancels s b k = ground arith
step-Masked disables_fin s b k = ground arith
step-Masked stops_liftoff s b k = ground arith
step-Masked (restores now_us c) s b k = ground arith
step-Masked (ticks input safety) s b k = tick-Masked input safety s.guard s.machine k
step-Masked (observes angle valid) s b k = k
step-Masked clears_fault s b k = k

run-Masked :
    (es : List Event) (s : System) → All Brings es → Masked s.machine → Masked (run es s).machine
unfolding run
run-Masked [] s b k = k
run-Masked (e ∷ es) s b k = run-Masked es (step e s) b.1 (step-Masked e s b.0 k)

pub run-boot-Masked : (es : List Event) → All Brings es → Masked (run es boot).machine
run-boot-Masked es b = run-Masked es boot b (ground arith)
