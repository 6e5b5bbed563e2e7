-- ===== src/Mission/Machine/Deployment.antt =====
-- When the tick deploys the parachute (mission/mission_state.cpp).
use avi_99l_mission_board.Base.{ℕ, ◌≤◌, ◌≡◌, ◌↔◌, ◌⊎◌, Bool, true, ◌||◌, arith, iff_trans}
use avi_99l_mission_board.Overtravel.{Guard}
use avi_99l_mission_board.Protocol.Types.{
  liftoff_detection, engine_burn, control, descent, is_engine_burn, is_control,
}
use avi_99l_mission_board.Mission.Snapshot.{MissionTickInput, SafetyRequest}
use avi_99l_mission_board.Mission.Machine.{MissionStateMachine}
use avi_99l_mission_board.Mission.Machine.Tick.{
  current_safety, before_deployment, deploy_if_due, after_deployment, tick,
}
use avi_99l_mission_board.Mission.Machine.Invariant.{IsValid, before_deployment-IsValid}

-- In flight as the tick sees it: EngineBurn, Control, or a liftoff detected by this very tick.
abbrev pub Flying : MissionTickInput → MissionStateMachine → Type 0
Flying input m =
    (m.snapshot.state ≡ engine_burn)
    ⊎ (m.snapshot.state ≡ control)
    ⊎ ((m.snapshot.state ≡ liftoff_detection) × (input.liftoff_detected ≡ true))

-- The three reasons to deploy, at a given time since liftoff.
abbrev pub Due : MissionTickInput → SafetyRequest → MissionStateMachine → ℕ → Type 0
Due input safety m elapsed =
    ((safety.flight_epoch ≡ m.snapshot.flight_epoch) × (safety.deploy ≡ true))
    ⊎ ((input.deployment_pressure_condition ≡ true) × (10_000_000 ≤ elapsed))
    ⊎ (17_000_000 ≤ elapsed)

module _ (input : MissionTickInput) where
  -- What the blocks behind the deployment leave alone.
  after_deployment-descent :
      (m : MissionStateMachine)
      → ((after_deployment input m).snapshot.state ≡ descent) ↔ (m.snapshot.state ≡ descent)
  unfolding after_deployment
  after_deployment-descent m = (ground arith, ground arith)

  after_deployment-elapsed :
      (m : MissionStateMachine)
      → (after_deployment input m).snapshot.elapsed_us ≡ m.snapshot.elapsed_us
  unfolding after_deployment
  after_deployment-elapsed m = ground arith

  deploy_if_due-elapsed :
      (current : Bool) (safety : SafetyRequest) (m : MissionStateMachine)
      → (deploy_if_due input current safety m).snapshot.elapsed_us ≡ m.snapshot.elapsed_us
  unfolding deploy_if_due
  deploy_if_due-elapsed current safety m = ground arith

  module _ (safety : SafetyRequest) (g : Guard) (m : MissionStateMachine) where
    before_deployment-Flying :
        IsValid m
        → ((is_engine_burn (before_deployment input safety g m).snapshot.state
              || is_control (before_deployment input safety g m).snapshot.state)
            ≡ true)
          ↔ Flying input m
    unfolding before_deployment
    before_deployment-Flying v = (ground arith, ground arith)

    before_deployment-descent :
        ((before_deployment input safety g m).snapshot.state ≡ descent)
        ↔ (m.snapshot.state ≡ descent)
    unfolding before_deployment
    before_deployment-descent = (ground arith, ground arith)

    pub tick-elapsed :
        (tick input safety g m).1.snapshot.elapsed_us
        ≡ (before_deployment input safety g m).snapshot.elapsed_us
    unfolding tick
    tick-elapsed = ground (
      arith,
      after_deployment-elapsed (
          deploy_if_due input (current_safety safety m) safety
            (before_deployment input safety g m)),
      deploy_if_due-elapsed (current_safety safety m) safety (before_deployment input safety g m),
    )

    deploy_if_due-descent :
        (b : MissionStateMachine)
        → IsValid b
        → IsValid m
        → ((is_engine_burn b.snapshot.state || is_control b.snapshot.state) ≡ true) ↔ Flying input m
        → (b.snapshot.state ≡ descent) ↔ (m.snapshot.state ≡ descent)
        → ((deploy_if_due input (current_safety safety m) safety b).snapshot.state ≡ descent) ↔ (
            (m.snapshot.state ≡ descent)
            ⊎ (Flying input m × Due input safety m b.snapshot.elapsed_us))
    unfolding deploy_if_due current_safety
    deploy_if_due-descent b vb v flying down = (ground arith, ground arith)

    tick-descent_before :
        IsValid m
        → ((tick input safety g m).1.snapshot.state ≡ descent) ↔ (
            (m.snapshot.state ≡ descent)
            ⊎ (Flying input m
                × Due input safety m (before_deployment input safety g m).snapshot.elapsed_us))
    unfolding tick
    tick-descent_before v =
        iff_trans
          (after_deployment-descent (
            deploy_if_due input (current_safety safety m) safety
              (before_deployment input safety g m)))
          (deploy_if_due-descent _ (before_deployment-IsValid input safety g m v) v
            (before_deployment-Flying v) before_deployment-descent)

    -- From a valid machine, a tick ends in Descent exactly when the machine was there before, or is
    -- in flight (EngineBurn, Control, or a liftoff detected by this tick) and one of three holds:
    -- the current flight's safety request asks for deployment, the pressure condition holds at 10 s
    -- since liftoff or later, or 17 s have passed since liftoff. Nothing else deploys, and neither
    -- the availability of control nor the overtravel guard has a say.
    pub tick-descent_iff :
        IsValid m
        → ((tick input safety g m).1.snapshot.state ≡ descent) ↔ (
            (m.snapshot.state ≡ descent)
            ⊎ (Flying input m × Due input safety m (tick input safety g m).1.snapshot.elapsed_us))
    tick-descent_iff v = rw tick-elapsed (tick-descent_before v)
