-- ===== src/Mission/Machine/Entry.antt =====
-- When the tick enters Control, and that it never does so twice in a flight
-- (mission/mission_state.cpp).
use avi_99l_mission_board.Base.{
  ◌-◌, ◌%◌, ◌≤◌, ◌≡◌, ◌≢◌, ◌↔◌, Bool, true, false, List, [], ◌∷◌, All, arith, iff_trans,
}
use avi_99l_mission_board.Overtravel.{Guard}
use avi_99l_mission_board.Protocol.Types.{engine_burn, control}
use avi_99l_mission_board.Mission.Snapshot.{MissionTickInput, SafetyRequest, ready}
use avi_99l_mission_board.Mission.Machine.{MissionStateMachine}
use avi_99l_mission_board.Mission.Machine.Operations.{
  start_sequence, cancel_sequence, disable_fin_control,
}
use avi_99l_mission_board.Mission.Machine.Tick.{
  current_safety, before_deployment, deploy_if_due, after_deployment, tick,
}
use avi_99l_mission_board.Mission.Machine.Invariant.{
  IsValid, is_airborne, before_deployment-IsValid, deploy_if_due-IsValid,
}
use avi_99l_mission_board.Mission.Machine.Events.{
  Event, starts, cancels, disables_fin, stops_liftoff, restores, ticks, observes, clears_fault,
  System, step, run,
}
use avi_99l_mission_board.Mission.Machine.Deployment.{Due, tick-elapsed}
use avi_99l_mission_board.Mission.Machine.Flight.{Continues}

-- What the gate asks of the machine and of the inputs of the tick that opens it.
abbrev pub EntryPermitted : MissionTickInput → MissionStateMachine → Type 0
EntryPermitted input m =
    (m.snapshot.state ≡ engine_burn)
    × (m.control_gate_evaluated ≡ false)
    × (m.snapshot.fin_control_disabled ≡ false)
    × (m.snapshot.control_reentry_inhibited ≡ false)
    × (m.snapshot.preflight_ready_mask % 4 ≡ 3)
    × (ready input.control ≡ true)
    × (input.control.roll_estimator_timestamp_us ≤ input.monotonic_us)
    × (input.monotonic_us - input.control.roll_estimator_timestamp_us ≤ 3_000)

module _ (input : MissionTickInput) where
  after_deployment-control :
      (m : MissionStateMachine)
      → IsValid m
      → m.snapshot.state ≢ control
      → ((after_deployment input m).snapshot.state ≡ control)
        ↔ (EntryPermitted input m × (8_000_000 ≤ m.snapshot.elapsed_us))
  unfolding after_deployment
  after_deployment-control m v out = (ground arith, ground arith)

  module _ (safety : SafetyRequest) (g : Guard) (m : MissionStateMachine) where
    before_deployment-entry :
        IsValid m
        → m.snapshot.state ≢ control
        → (EntryPermitted input (before_deployment input safety g m)
            × (8_000_000 ≤ (before_deployment input safety g m).snapshot.elapsed_us))
          ↔ (EntryPermitted input m
              × (g.fault_latched ≡ false)
              × (8_000_000 ≤ (before_deployment input safety g m).snapshot.elapsed_us))
    unfolding before_deployment
    before_deployment-entry v out = (ground arith, ground arith)

    before_deployment-out :
        m.snapshot.state ≢ control → (before_deployment input safety g m).snapshot.state ≢ control
    unfolding before_deployment
    before_deployment-out out = ground arith

    deploy_if_due-entry :
        (b : MissionStateMachine)
        → IsValid b
        → b.snapshot.flight_epoch ≡ m.snapshot.flight_epoch
        → (EntryPermitted input (deploy_if_due input (current_safety safety m) safety b)
            × (8_000_000
                ≤ (deploy_if_due input (current_safety safety m) safety b).snapshot.elapsed_us))
          ↔ (EntryPermitted input b
              × (8_000_000 ≤ b.snapshot.elapsed_us)
              × (¬ Due input safety m b.snapshot.elapsed_us))
    unfolding deploy_if_due current_safety
    deploy_if_due-entry b vb same = (ground arith, ground arith)

    deploy_if_due-out :
        (b : MissionStateMachine)
        → b.snapshot.state ≢ control
        → (deploy_if_due input (current_safety safety m) safety b).snapshot.state ≢ control
    unfolding deploy_if_due
    deploy_if_due-out b out = ground arith

    before_deployment-epoch :
        (before_deployment input safety g m).snapshot.flight_epoch ≡ m.snapshot.flight_epoch
    unfolding before_deployment
    before_deployment-epoch = ground arith

    tick-control_before :
        IsValid m
        → m.snapshot.state ≢ control
        → ((tick input safety g m).1.snapshot.state ≡ control) ↔ (
            (EntryPermitted input (before_deployment input safety g m))
            × (8_000_000 ≤ (before_deployment input safety g m).snapshot.elapsed_us)
            × (¬ Due input safety m (before_deployment input safety g m).snapshot.elapsed_us))
    unfolding tick
    tick-control_before v out =
        let b = before_deployment input safety g m in
        let vb : IsValid b = before_deployment-IsValid input safety g m v in
        let d = deploy_if_due input (current_safety safety m) safety b in
        iff_trans
          (after_deployment-control d (deploy_if_due-IsValid input _ safety b vb)
            (deploy_if_due-out b (before_deployment-out out)))
          (deploy_if_due-entry b vb before_deployment-epoch)

    -- From a valid machine that is not in Control, a tick ends in Control exactly when the machine is
    -- in EngineBurn with its gate not yet evaluated, fin control is neither disabled nor inhibited,
    -- the fin zero and the motor profile were configured, every control input is ready, the roll
    -- sample is neither from the future nor older than 3 ms, no overtravel fault is latched, at
    -- least 8 s have passed since liftoff, and no reason to deploy holds in this tick.
    pub tick-control_iff :
        IsValid m
        → m.snapshot.state ≢ control
        → ((tick input safety g m).1.snapshot.state ≡ control) ↔ (
            EntryPermitted input m
            × (g.fault_latched ≡ false)
            × (8_000_000 ≤ (tick input safety g m).1.snapshot.elapsed_us)
            × (¬ Due input safety m (tick input safety g m).1.snapshot.elapsed_us))
    tick-control_iff v out =
        let entry = before_deployment-entry v out in
        let before = tick-control_before v out in
        rw (tick-elapsed input safety g m) (
          λ h. let (e, t, d) = before.0 h in let (e', l, t') = entry.0 (e, t) in (e', l, t', d),
          λ h. let (e, l, t, d) = h in let (e', t') = entry.1 (e, l, t) in before.1 (e', t', d),
        )

-- In the air, past the gate, outside Control: nothing leads back.
pub record PastControl (m : MissionStateMachine) : Type 0 where
  pub airborne : is_airborne m.snapshot.state ≡ true
  pub evaluated : m.control_gate_evaluated ≡ true
  pub outside : m.snapshot.state ≢ control

module _ (input : MissionTickInput) where
  before_deployment-PastControl :
      (safety : SafetyRequest) (g : Guard) (m : MissionStateMachine)
      → PastControl m
      → PastControl (before_deployment input safety g m)
  unfolding before_deployment
  before_deployment-PastControl safety g m p = ground arith

  deploy_if_due-PastControl :
      (current : Bool) (safety : SafetyRequest) (m : MissionStateMachine)
      → PastControl m
      → PastControl (deploy_if_due input current safety m)
  unfolding deploy_if_due
  deploy_if_due-PastControl current safety m p = ground arith

  after_deployment-PastControl :
      (m : MissionStateMachine) → PastControl m → PastControl (after_deployment input m)
  unfolding after_deployment
  after_deployment-PastControl m p = ground arith

  tick-PastControl :
      (safety : SafetyRequest) (g : Guard) (m : MissionStateMachine)
      → PastControl m
      → PastControl (tick input safety g m).1
  unfolding tick
  tick-PastControl safety g m p =
      after_deployment-PastControl _
        (deploy_if_due-PastControl _ safety _ (before_deployment-PastControl safety g m p))

pub step-PastControl :
    (e : Event) (s : System) → Continues e → PastControl s.machine → PastControl (step e s).machine
unfolding step start_sequence cancel_sequence disable_fin_control
step-PastControl (starts r mode) s k p = ground arith
step-PastControl cancels s k p = ground arith
step-PastControl disables_fin s k p = ground arith
step-PastControl stops_liftoff s k p = absurd k
step-PastControl (restores now_us c) s k p = absurd k
step-PastControl (ticks input safety) s k p = tick-PastControl input safety s.guard s.machine p
step-PastControl (observes angle_rad valid_sample) s k p = p
step-PastControl clears_fault s k p = p

-- Once the gate of a flight was evaluated and the machine is out of Control, be it that the gate
-- refused or that Control was left, no ticks, fin samples or commands short of a reset or a liftoff
-- rollback lead into Control again: the machine stays in EngineBurn or goes on to Descent.
pub run-PastControl :
    (es : List Event) (s : System)
    → All Continues es
    → PastControl s.machine
    → PastControl (run es s).machine
unfolding run
run-PastControl [] s k p = p
run-PastControl (e ∷ es) s k p = run-PastControl es (step e s) k.1 (step-PastControl e s k.0 p)
