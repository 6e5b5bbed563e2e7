-- ===== src/Characterization/ZeroApproach/Dwell.antt =====
-- characterization/zero_approach.cpp: what a completed approach has measured.
use avi_99l_mission_board.Characterization.ZeroApproach.Visits.{
  Measurement, Visits, Approached, update-Approached, new-Approached,
}
use avi_99l_mission_board.Base.{
  ℕ, ◌-◌, ◌≡◌, ◌⊎◌, inl, inr, refl, subst, sym, Bool-cases, Bool, true, false, ◌||◌, List, [], ◌∷◌,
  ltb, if◌then◌else◌, if_lem, arith,
}
use avi_99l_mission_board.Base.Int.{ℤ}
use avi_99l_mission_board.Characterization.ZeroApproach.{
  ApproachBranch, ApproachUpdate, timeout_abort, ZeroApproachPlan, ZeroApproachController, new_plan,
  dwell, update, reset, controller_update,
}

-- The controller after measurements, the newest first, and those of them that it has not answered by a
-- timeout.
unfoldable pub measured : List Measurement → ZeroApproachController → ZeroApproachController
measured [] c = c
measured (x ∷ xs) c = (controller_update x.0 x.1 x.2 (measured xs c)).0

abbrev is_timeout : ApproachUpdate → Bool
is_timeout timeout_abort = true
is_timeout _ = false

unfoldable pub in_time : List Measurement → ZeroApproachController → List Measurement
in_time [] c = []
in_time (x ∷ xs) c =
    if is_timeout (controller_update x.0 x.1 x.2 (measured xs c)).1
    then in_time xs c
    else x ∷ in_time xs c

-- Only the controller times out.
update_answers : (x : Measurement) (p : ZeroApproachPlan) → is_timeout (update x.0 x.1 p).1 ≡ false
unfolding update dwell
update_answers x p = ground arith

-- What a measurement does to the plan.
abbrev Effect : Measurement → ZeroApproachPlan → ZeroApproachController × ApproachUpdate → Type 0
Effect x p r =
    ((is_timeout r.1 ≡ true) × (r.0.plan ≡ p))
    ⊎ ((is_timeout r.1 ≡ false) × (r.0.plan ≡ (update x.0 x.1 p).0))

controller_update-Effect :
    (x : Measurement) (c : ZeroApproachController)
    → Effect x c.plan (controller_update x.0 x.1 x.2 c)
unfolding controller_update reset
controller_update-Effect x c = elim (Bool-cases c.started) [
  | inl going ↦ rw going (
      if_lem (Effect x c.plan) (ltb x.2 c.started_at_us || ltb c.timeout_us (x.2 - c.started_at_us))
        (λ late. inl (refl, refl)) (λ soon. inr (update_answers x c.plan, refl)))
  | inr fresh ↦ rw fresh (
      if_lem (Effect x c.plan) (ltb x.2 x.2 || ltb c.timeout_us (x.2 - x.2))
        (λ late. inl (refl, refl)) (λ soon. inr (update_answers x c.plan, refl)))
]

module _ (b : ApproachBranch) (tolerance rate_tolerance : ℤ) (d : ℕ) where
  measured-Approached :
      (xs : List Measurement) (c : ZeroApproachController)
      → Approached b tolerance rate_tolerance d [] c.plan
      → Approached b tolerance rate_tolerance d (in_time xs c) (measured xs c).plan
  unfolding measured in_time
  measured-Approached [] c i = i
  measured-Approached (x ∷ xs) c i =
      let before = measured-Approached xs c i in
      elim (controller_update-Effect x (measured xs c)) [
        | inl (late, kept) ↦
            rw late
              (subst (Approached b tolerance rate_tolerance d (in_time xs c)) (sym kept) before)
        | inr (soon, updated) ↦ rw soon (
            subst (Approached b tolerance rate_tolerance d (x ∷ in_time xs c)) (sym updated) (
              update-Approached b tolerance rate_tolerance d x (in_time xs c) (measured xs c).plan
                before))
      ]

-- An approach is only completed after the eleven targets, from 1 degree on its side in steps of a tenth
-- down to 0, were reached one after another: for each of them the required number of measurements in
-- a row had an angle within the tolerance of that target and a rate within the tolerance of 0, not
-- counting measurements that were answered by a timeout. So it is whatever the branch, the tolerances,
-- the timeout and the measurements are.
pub completion_settled :
    (b : ApproachBranch) (tolerance rate_tolerance : ℤ) (d : ℕ) (monotonic_tolerance : ℤ)
    (timeout_us : ℕ) (xs : List Measurement)
    → let c : ZeroApproachController = record {
      plan = new_plan b tolerance rate_tolerance d monotonic_tolerance;
      timeout_us = timeout_us;
      started_at_us = 0;
      started = false;
    } in
      (measured xs c).plan.complete ≡ true → Visits b tolerance rate_tolerance d 11 0 (in_time xs c)
completion_settled b tolerance rate_tolerance d monotonic_tolerance timeout_us xs done =
    (measured-Approached b tolerance rate_tolerance d xs _
        (new-Approached b tolerance rate_tolerance d monotonic_tolerance)).all
      done
