-- ===== src/Mission/Machine/Reset.antt =====
-- A flight that is taken up again after a reset (mission/mission_state.cpp, `restoreAfterReset`).
use avi_99l_mission_board.Base.{
  ℕ, ◌+◌, ◌-◌, ◌^◌, ◌≤◌, ◌<◌, ◌≡◌, ◌≢◌, ◌↔◌, ◌⊎◌, inl, Bool, true, false, List, [], ◌∷◌, All, arith,
  ◌∙◌,
}
use avi_99l_mission_board.Overtravel.{Guard}
use avi_99l_mission_board.Protocol.Types.{liftoff_detection, engine_burn, control, descent}
use avi_99l_mission_board.Mission.Snapshot.{MissionTickInput, SafetyRequest, ResetCheckpoint, brake}
use avi_99l_mission_board.Mission.Machine.{MissionStateMachine}
use avi_99l_mission_board.Mission.Machine.Operations.{
  start_sequence, cancel_sequence, disable_fin_control, restore_after_reset,
}
use avi_99l_mission_board.Mission.Snapshot.{completed}
use avi_99l_mission_board.Mission.Machine.Tick.{
  current_safety, before_deployment, deploy_if_due, after_deployment, tick,
}
use avi_99l_mission_board.Mission.Machine.Invariant.{IsValid, restore_after_reset-IsValid}
use avi_99l_mission_board.Mission.Machine.Events.{
  Event, starts, cancels, disables_fin, stops_liftoff, restores, ticks, observes, clears_fault,
  System, step, run, run-IsValid,
}
use avi_99l_mission_board.Mission.Machine.Outputs.{Directed, run-Directed}
use avi_99l_mission_board.Mission.Machine.Flight.{
  Continues, OnClock, run-OnClock, tick-elapsed_exact,
}
use avi_99l_mission_board.Mission.Machine.Entry.{PastControl, step-PastControl, run-PastControl}

-- A checkpoint that can be taken up: valid, of a flight, and on the pad with no flight time, or in
-- EngineBurn, Control or Descent with one.
abbrev pub Restorable : ResetCheckpoint → Type 0
Restorable c =
    (c.valid ≡ true)
    × (c.flight_epoch ≢ 0)
    × (((c.state ≡ liftoff_detection) × (c.elapsed_valid ≡ false))
        ⊎ ((c.elapsed_valid ≡ true)
            × ((c.state ≡ engine_burn) ⊎ (c.state ≡ control) ⊎ (c.state ≡ descent))))

-- A restore is carried out exactly for such checkpoints, whatever the machine was.
pub restore-completed_iff :
    (now_us : ℕ) (c : ResetCheckpoint) (m : MissionStateMachine)
    → ((restore_after_reset now_us c m).1 ≡ completed) ↔ Restorable c
unfolding restore_after_reset
restore-completed_iff now_us c m = (ground arith, ground arith)

-- The checkpoint of a flight in the air.
abbrev pub InFlight : ResetCheckpoint → Type 0
InFlight c = Restorable c × (c.state ≢ liftoff_detection)

restored-PastControl :
    (now_us : ℕ) (c : ResetCheckpoint) (m : MissionStateMachine)
    → InFlight c
    → PastControl (restore_after_reset now_us c m).0
unfolding restore_after_reset
restored-PastControl now_us c m f = ground arith

restored-invalidated :
    (now_us : ℕ) (c : ResetCheckpoint) (m : MissionStateMachine)
    → InFlight c
    → (restore_after_reset now_us c m).0.snapshot.reset_invalidated ≡ true
unfolding restore_after_reset
restored-invalidated now_us c m f = ground arith

restored-Directed :
    (now_us : ℕ) (c : ResetCheckpoint) (m : MissionStateMachine)
    → InFlight c
    → Directed (restore_after_reset now_us c m).0
unfolding restore_after_reset
restored-Directed now_us c m f = ground arith

restored-OnClock :
    (now_us : ℕ) (c : ResetCheckpoint) (m : MissionStateMachine)
    → InFlight c
    → (c.state ≡ descent → c.deployment_started ≡ true)
    → OnClock now_us c.elapsed_us (restore_after_reset now_us c m).0
unfolding restore_after_reset
restored-OnClock now_us c m f d = ground arith

-- Under a tick the mark of a reset stays.
module _ (input : MissionTickInput) (safety : SafetyRequest) where
  before_deployment-invalidated :
      (g : Guard) (m : MissionStateMachine)
      → (before_deployment input safety g m).snapshot.reset_invalidated
        ≡ m.snapshot.reset_invalidated
  unfolding before_deployment
  before_deployment-invalidated g m = ground arith

  deploy_if_due-invalidated :
      (current : Bool) (m : MissionStateMachine)
      → (deploy_if_due input current safety m).snapshot.reset_invalidated
        ≡ m.snapshot.reset_invalidated
  unfolding deploy_if_due
  deploy_if_due-invalidated current m = ground arith

  after_deployment-invalidated :
      (m : MissionStateMachine)
      → (after_deployment input m).snapshot.reset_invalidated ≡ m.snapshot.reset_invalidated
  unfolding after_deployment
  after_deployment-invalidated m = ground arith

  tick-invalidated :
      (g : Guard) (m : MissionStateMachine)
      → (tick input safety g m).1.snapshot.reset_invalidated ≡ m.snapshot.reset_invalidated
  unfolding tick
  tick-invalidated g m =
      let b = before_deployment input safety g m in
      after_deployment-invalidated (deploy_if_due input (current_safety safety m) safety b)
      ∙ deploy_if_due-invalidated (current_safety safety m) b
      ∙ before_deployment-invalidated g m

step-invalidated :
    (e : Event) (s : System)
    → Continues e
    → PastControl s.machine
    → s.machine.snapshot.reset_invalidated ≡ true
    → (step e s).machine.snapshot.reset_invalidated ≡ true
unfolding step start_sequence cancel_sequence disable_fin_control
step-invalidated (starts r mode) s k p h = ground arith
step-invalidated cancels s k p h = ground arith
step-invalidated disables_fin s k p h = ground arith
step-invalidated stops_liftoff s k p h = absurd k
step-invalidated (restores now_us c) s k p h = absurd k
step-invalidated (ticks input safety) s k p h = tick-invalidated input safety s.guard s.machine ∙ h
step-invalidated (observes angle_rad valid_sample) s k p h = h
step-invalidated clears_fault s k p h = h

run-invalidated :
    (es : List Event) (s : System)
    → All Continues es
    → PastControl s.machine
    → s.machine.snapshot.reset_invalidated ≡ true
    → (run es s).machine.snapshot.reset_invalidated ≡ true
unfolding run
run-invalidated [] s k p h = h
run-invalidated (e ∷ es) s k p h =
    run-invalidated es (step e s) k.1 (step-PastControl e s k.0 p) (step-invalidated e s k.0 p h)

-- A flight in the air that is taken up after a reset stays out of Control with the fin braked: after
-- any further ticks, fin samples and commands, short of another reset or a liftoff rollback, the
-- machine is not in Control and the fin directive is brake.
pub restored_brakes :
    (now_us : ℕ) (c : ResetCheckpoint) (s : System) (es : List Event)
    → InFlight c
    → All Continues es
    → let m = (run es (step (restores now_us c) s)).machine in
      (m.snapshot.state ≢ control) × (m.snapshot.fin ≡ brake)
unfolding step
restored_brakes now_us c s es f k =
    let r : System = record s { machine = (restore_after_reset now_us c s.machine).0 } in
    let p = restored-PastControl now_us c s.machine f in
    (
      (run-PastControl es r k p).outside,
      (run-Directed es r (restored-Directed now_us c s.machine f)).braked
          (inl (run-invalidated es r k p (restored-invalidated now_us c s.machine f))),
    )

-- The flight clock runs on from the checkpoint: after a valid machine is restored at `now_us` from a
-- checkpoint in the air, and any ticks, fin samples and commands short of another reset or a liftoff
-- rollback, a tick at `monotonic_us`, not before `now_us`, reports the checkpoint's elapsed time plus
-- `monotonic_us - now_us`, if the checkpoint's elapsed time plus `monotonic_us` itself is below 2 ^ 64
-- and a checkpoint in Descent says that the deployment had started.
pub restored_clock :
    (now_us : ℕ) (c : ResetCheckpoint) (s : System) (es : List Event) (input : MissionTickInput)
    (safety : SafetyRequest)
    → IsValid s.machine
    → InFlight c
    → (c.state ≡ descent → c.deployment_started ≡ true)
    → All Continues es
    → now_us ≤ input.monotonic_us
    → c.elapsed_us + input.monotonic_us < 2 ^ 64
    → let u = run es (step (restores now_us c) s) in
      (tick input safety u.guard u.machine).1.snapshot.elapsed_us
      ≡ c.elapsed_us + (input.monotonic_us - now_us)
unfolding step
restored_clock now_us c s es input safety v f d k late fits =
    let r : System = record s { machine = (restore_after_reset now_us c s.machine).0 } in
    let u = run es r in
    tick-elapsed_exact input safety u.guard u.machine
      (run-IsValid es r (restore_after_reset-IsValid now_us c s.machine v))
      (run-OnClock es r k (restored-OnClock now_us c s.machine f d)) late fits
