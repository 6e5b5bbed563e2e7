-- ===== src/Actuators/Power.antt =====
-- actuators/safety_core.cpp: `PowerArbiter`, which shares the two supply rails until the cutoff.
use avi_99l_mission_board.Base.{
  ◌≡◌, refl, Bool, true, false, ◌&&◌, List, [], ◌∷◌, if◌then◌else◌, arith,
}

pub record PowerState : Type 0 where
  pub auxiliary_5v : Bool
  pub parachute_power : Bool
  pub cutoff_latched : Bool

abbrev pub initial : PowerState
initial = record { auxiliary_5v = false; parachute_power = false; cutoff_latched = false }

-- A request returns the state and whether it was granted.
unfoldable pub request_auxiliary_5v : Bool → PowerState → PowerState × Bool
request_auxiliary_5v enabled s =
    if enabled && s.cutoff_latched then (s, false) else (record s { auxiliary_5v = enabled }, true)

unfoldable pub request_parachute_power : Bool → PowerState → PowerState × Bool
request_parachute_power enabled s =
    if enabled && s.cutoff_latched
    then (s, false)
    else (record s { parachute_power = enabled }, true)

unfoldable pub latch_deployment_cutoff : PowerState → PowerState
latch_deployment_cutoff s = record s {
  cutoff_latched = true;
  auxiliary_5v = false;
  parachute_power = false;
}

pub data PowerCall : Type 0 where
  auxiliary parachute : Bool → PowerCall
  cutoff : PowerCall

unfoldable pub power_call : PowerCall → PowerState → PowerState
unfolding request_auxiliary_5v request_parachute_power latch_deployment_cutoff
power_call (auxiliary enabled) s = (request_auxiliary_5v enabled s).0
power_call (parachute enabled) s = (request_parachute_power enabled s).0
power_call cutoff s = latch_deployment_cutoff s

unfoldable pub power_calls : List PowerCall → PowerState → PowerState
power_calls [] s = s
power_calls (c ∷ cs) s = power_calls cs (power_call c s)

abbrev pub IsDead : PowerState → Type 0
IsDead s = (s.cutoff_latched ≡ true) × (s.auxiliary_5v ≡ false) × (s.parachute_power ≡ false)

power_call-IsDead : (c : PowerCall) (s : PowerState) → IsDead s → IsDead (power_call c s)
unfolding power_call
power_call-IsDead c s d = ground arith

power_calls-IsDead : (cs : List PowerCall) (s : PowerState) → IsDead s → IsDead (power_calls cs s)
unfolding power_calls
power_calls-IsDead [] s d = d
power_calls-IsDead (c ∷ cs) s d = power_calls-IsDead cs (power_call c s) (power_call-IsDead c s d)

latch-IsDead : (s : PowerState) → IsDead (latch_deployment_cutoff s)
unfolding latch_deployment_cutoff
latch-IsDead s = (refl, refl, refl)

-- After the deployment cutoff no sequence of requests brings a rail back: the cutoff stays latched
-- and both supplies stay off.
pub cutoff_final :
    (s : PowerState) (cs : List PowerCall) → IsDead (power_calls cs (latch_deployment_cutoff s))
cutoff_final s cs = power_calls-IsDead cs (latch_deployment_cutoff s) (latch-IsDead s)
