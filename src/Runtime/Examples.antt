-- ===== src/Runtime/Examples.antt =====
-- Signals and takes of the emergency latch (runtime/emergency_latch.hpp).
use avi_99l_mission_board.Base.{◌≡◌, [], ◌∷◌, List, none, arith}
use avi_99l_mission_board.Runtime.EmergencyLatch.{
  new, take, LatchCall, signals, takes, latch_calls, waiting, take_refines,
}

abbrev signalled : List LatchCall
signalled = signals 3 ∷ takes ∷ signals 0 ∷ signals 255 ∷ []

take_refines_example : (take (latch_calls signalled new)).1 ≡ waiting none signalled
take_refines_example = take_refines signalled (omega arith, (omega arith, (omega arith, tt)))
