-- ===== src/Mission/Machine/Flight.antt =====
-- One flight, from the liftoff to the deployment (mission/mission_state.cpp): the clock that the
-- liftoff starts, what may not stop it, and the deadline.
use avi_99l_mission_board.Base.{
  ℕ, ◌+◌, ◌-◌, ◌^◌, ◌≤◌, ◌<◌, ◌≡◌, ◌⊎◌, inl, inr, Bool, true, List, [], ◌∷◌, All, arith, ◌∙◌, refl,
}
use avi_99l_mission_board.Overtravel.{Guard}
use avi_99l_mission_board.Protocol.Types.{liftoff_detection, descent}
use avi_99l_mission_board.Mission.Snapshot.{MissionTickInput, SafetyRequest, «open», powered_off}
use avi_99l_mission_board.Mission.Machine.{MissionStateMachine}
use avi_99l_mission_board.Mission.Machine.Operations.{
  start_sequence, cancel_sequence, disable_fin_control,
}
use avi_99l_mission_board.Mission.Machine.Tick.{
  before_deployment, deploy_if_due, after_deployment, tick,
}
use avi_99l_mission_board.Mission.Machine.Invariant.{IsValid, is_airborne}
use avi_99l_mission_board.Mission.Machine.Deployment.{Flying, tick-elapsed, tick-descent_iff}
use avi_99l_mission_board.Mission.Machine.Outputs.{Directed, tick-Directed}
use avi_99l_mission_board.Mission.Machine.Events.{
  Event, starts, cancels, disables_fin, stops_liftoff, restores, ticks, observes, clears_fault,
  System, step, run, step-IsValid, run-IsValid,
}

-- The clock of a flight: the liftoff time, the offset that a reset adds, and no Descent without a
-- deployment.
pub record OnClock (liftoff offset : ℕ) (m : MissionStateMachine) : Type 0 where
  pub airborne : is_airborne m.snapshot.state ≡ true
  pub liftoff_time : m.snapshot.liftoff_time_us ≡ liftoff
  pub offset_time : m.elapsed_offset_us ≡ offset
  pub descent_deployed : m.snapshot.state ≡ descent → m.snapshot.deployment_started ≡ true

-- The events that continue a flight: all but a reset and the ground's liftoff rollback.
abbrev pub Continues : Event → Type 0
Continues (restores now_us c) = ⊥
Continues stops_liftoff = ⊥
Continues _ = Unit

module _ (input : MissionTickInput) (safety : SafetyRequest) where
  before_deployment-OnClock :
      (g : Guard) (m : MissionStateMachine) {l o : ℕ}
      → OnClock l o m
      → OnClock l o (before_deployment input safety g m)
  unfolding before_deployment
  before_deployment-OnClock g m c = ground arith

  deploy_if_due-OnClock :
      (current : Bool) (m : MissionStateMachine) {l o : ℕ}
      → OnClock l o m
      → OnClock l o (deploy_if_due input current safety m)
  unfolding deploy_if_due
  deploy_if_due-OnClock current m c = ground arith

  after_deployment-OnClock :
      (m : MissionStateMachine) {l o : ℕ} → OnClock l o m → OnClock l o (after_deployment input m)
  unfolding after_deployment
  after_deployment-OnClock m c = ground arith

  tick-OnClock :
      (g : Guard) (m : MissionStateMachine) {l o : ℕ}
      → OnClock l o m
      → OnClock l o (tick input safety g m).1
  unfolding tick
  tick-OnClock g m c =
      after_deployment-OnClock _ (deploy_if_due-OnClock _ _ (before_deployment-OnClock g m c))

  liftoff-OnClock_before :
      (g : Guard) (m : MissionStateMachine)
      → m.snapshot.state ≡ liftoff_detection
      → input.liftoff_detected ≡ true
      → OnClock (input.monotonic_us - 1_000_000) 0 (before_deployment input safety g m)
  unfolding before_deployment
  liftoff-OnClock_before g m pad lifted = ground arith

  -- A detected liftoff starts the clock one second before the tick that saw it.
  liftoff-OnClock :
      (g : Guard) (m : MissionStateMachine)
      → m.snapshot.state ≡ liftoff_detection
      → input.liftoff_detected ≡ true
      → OnClock (input.monotonic_us - 1_000_000) 0 (tick input safety g m).1
  unfolding tick
  liftoff-OnClock g m pad lifted =
      after_deployment-OnClock _ (deploy_if_due-OnClock _ _ (liftoff-OnClock_before g m pad lifted))

step-OnClock :
    (e : Event) (s : System) {l o : ℕ}
    → Continues e
    → OnClock l o s.machine
    → OnClock l o (step e s).machine
unfolding step start_sequence cancel_sequence disable_fin_control
step-OnClock (starts r mode) s k c = ground arith
step-OnClock cancels s k c = ground arith
step-OnClock disables_fin s k c = ground arith
step-OnClock stops_liftoff s k c = absurd k
step-OnClock (restores now_us cp) s k c = absurd k
step-OnClock (ticks input safety) s k c = tick-OnClock input safety s.guard s.machine c
step-OnClock (observes angle_rad valid_sample) s k c = c
step-OnClock clears_fault s k c = c

pub run-OnClock :
    (es : List Event) (s : System) {l o : ℕ}
    → All Continues es
    → OnClock l o s.machine
    → OnClock l o (run es s).machine
unfolding run
run-OnClock [] s k c = c
run-OnClock (e ∷ es) s k c = run-OnClock es (step e s) k.1 (step-OnClock e s k.0 c)

module _ (input : MissionTickInput) (safety : SafetyRequest) (g : Guard) where
  before_deployment-elapsed :
      (m : MissionStateMachine) {l o : ℕ}
      → IsValid m
      → OnClock l o m
      → l ≤ input.monotonic_us
      → o + input.monotonic_us < 2 ^ 64
      → (before_deployment input safety g m).snapshot.elapsed_us ≡ o + (input.monotonic_us - l)
  unfolding before_deployment
  before_deployment-elapsed m v c h fits = ground arith

  -- In flight, the time since liftoff that a tick reports is the offset that a reset restored plus
  -- the time from the liftoff to the tick, if the tick is not before the liftoff and the sum with
  -- the offset fits 64 bits.
  pub tick-elapsed_exact :
      (m : MissionStateMachine) {l o : ℕ}
      → IsValid m
      → OnClock l o m
      → l ≤ input.monotonic_us
      → o + input.monotonic_us < 2 ^ 64
      → (tick input safety g m).1.snapshot.elapsed_us ≡ o + (input.monotonic_us - l)
  tick-elapsed_exact m v c h fits =
      tick-elapsed input safety g m ∙ before_deployment-elapsed m v c h fits

  airborne_cases :
      (m : MissionStateMachine)
      → is_airborne m.snapshot.state ≡ true
      → (m.snapshot.state ≡ descent) ⊎ Flying input m
  airborne_cases m h = ground arith

  tick_deadline :
      (m : MissionStateMachine) {l o : ℕ}
      → IsValid m
      → OnClock l o m
      → l ≤ input.monotonic_us
      → o + input.monotonic_us < 2 ^ 64
      → 17_000_000 ≤ o + (input.monotonic_us - l)
      → (tick input safety g m).1.snapshot.state ≡ descent
  tick_deadline m v c h fits late =
      (tick-descent_iff input safety g m v).1 (elim (airborne_cases m c.airborne) [
        | inl down ↦ inl down
        | inr flying ↦ inr (flying, inr (inr (rw (tick-elapsed_exact m v c h fits) late)))
      ])

step-tick :
    (input : MissionTickInput) (safety : SafetyRequest) (s : System)
    → (step (ticks input safety) s).machine ≡ (tick input safety s.guard s.machine).1
unfolding step
step-tick input safety s = refl

abbrev pub Deployed : MissionStateMachine → Type 0
Deployed m =
    (m.snapshot.state ≡ descent)
    × (m.snapshot.deployment_started ≡ true)
    × ((m.snapshot.parachute ≡ «open») ⊎ (m.snapshot.parachute ≡ powered_off))

Deployed-intro :
    (m : MissionStateMachine) {l o : ℕ}
    → OnClock l o m
    → Directed m
    → m.snapshot.state ≡ descent
    → Deployed m
Deployed-intro m c d e = (e, c.descent_deployed e, ground arith)

-- Whatever happens in flight: once a tick has detected the liftoff of a valid machine, and after any
-- further ticks with any sensor inputs and safety requests, any fin samples and any commands, short
-- of a reset or a liftoff rollback, a tick at a 64-bit time of 17 s past the liftoff time (one second
-- before the detecting tick, not below 0) or later leaves the machine in Descent with the deployment started
-- and the parachute commanded open, or powered off by the cutoff, never held.
pub deadline_deploys :
    (s : System) (first last : MissionTickInput) (r q : SafetyRequest) (es : List Event)
    → IsValid s.machine
    → s.machine.snapshot.state ≡ liftoff_detection
    → first.liftoff_detected ≡ true
    → All Continues es
    → first.monotonic_us - 1_000_000 + 17_000_000 ≤ last.monotonic_us
    → last.monotonic_us < 2 ^ 64
    → Deployed (step (ticks last q) (run es (step (ticks first r) s))).machine
deadline_deploys s first last r q es v pad lifted k late fits =
    let s1 = step (ticks first r) s in
    let s2 = run es s1 in
    let c1 : OnClock (first.monotonic_us - 1_000_000) 0 s1.machine =
      rw (step-tick first r s) (liftoff-OnClock first r s.guard s.machine pad lifted) in
    let c2 : OnClock (first.monotonic_us - 1_000_000) 0 s2.machine = run-OnClock es s1 k c1 in
    let v2 : IsValid s2.machine = run-IsValid es s1 (step-IsValid (ticks first r) s v) in
    rw (step-tick last q s2) (
      Deployed-intro (tick last q s2.guard s2.machine).1
        (tick-OnClock last q s2.guard s2.machine c2) (tick-Directed last q s2.guard s2.machine)
        (tick_deadline last q s2.guard s2.machine v2 c2 (omega arith) (omega arith) (omega arith)))
