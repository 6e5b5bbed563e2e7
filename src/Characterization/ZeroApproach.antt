-- ===== src/Characterization/ZeroApproach.antt =====
-- characterization/zero_approach.cpp: `ZeroApproachPlan`, which leads the fin to zero from one side over
-- eleven targets, and `ZeroApproachController`, which adds a timeout.
mod Visits
mod Dwell
mod Examples
use avi_99l_mission_board.Base.{
  ℕ, ◌+◌, ◌-◌, ◌*◌, ◌≡◌, Bool, true, false, not, ◌&&◌, ◌||◌, ltb, leb, ◌==◌, if◌then◌else◌,
}
use avi_99l_mission_board.Base.Int.{ℤ, pos, negsuc, neg, ◌+ℤ◌, ◌-ℤ◌, ◌*ℤ◌, ltb_ℤ, leb_ℤ}

pub data ApproachBranch : Type 0 where
  no_branch from_positive from_negative : ApproachBranch

pub data ApproachUpdate : Type 0 where
  holding target_advanced completed overshoot_abort monotonicity_abort configuration_abort
        timeout_abort :
      ApproachUpdate

pub record ZeroApproachPlan : Type 0 where
  pub branch : ApproachBranch
  pub index : ℕ
  pub tolerance_millideg : ℤ
  pub rate_tolerance_millideg_s : ℤ
  pub required_dwell_samples : ℕ
  pub dwell_samples : ℕ
  pub monotonic_tolerance_millideg : ℤ
  pub last_measured_millideg : ℤ
  pub have_last_measured : Bool
  pub approach_to_zero_started : Bool
  pub complete : Bool
  pub valid : Bool

abbrev pub target_count : ℕ
target_count = 11

abbrev pub approach_step_millideg : ℕ
approach_step_millideg = 100

abbrev pub branch_sign : ApproachBranch → ℤ
branch_sign from_positive = pos 1
branch_sign from_negative = negsuc 0
branch_sign no_branch = pos 0

abbrev pub is_from_positive : ApproachBranch → Bool
is_from_positive from_positive = true
is_from_positive _ = false

abbrev pub is_from_negative : ApproachBranch → Bool
is_from_negative from_negative = true
is_from_negative _ = false

-- The element at an index below 11 of the array that `makeTargets` fills.
unfoldable pub target_at : ApproachBranch → ℕ → ℤ
target_at branch index =
    branch_sign branch *ℤ pos (target_count - 1 - index) *ℤ pos approach_step_millideg

unfoldable pub new_plan :
    ApproachBranch
    → (tolerance_millideg rate_tolerance_millideg_s : ℤ) → (dwell_samples : ℕ)
    → (monotonic_tolerance_millideg : ℤ) → ZeroApproachPlan
new_plan branch tolerance_millideg rate_tolerance_millideg_s dwell_samples
      monotonic_tolerance_millideg =
    record {
      branch = branch;
      index = 0;
      tolerance_millideg = tolerance_millideg;
      rate_tolerance_millideg_s = rate_tolerance_millideg_s;
      required_dwell_samples = dwell_samples;
      dwell_samples = 0;
      monotonic_tolerance_millideg = monotonic_tolerance_millideg;
      last_measured_millideg = pos 0;
      have_last_measured = false;
      approach_to_zero_started = false;
      complete = false;
      valid =
          (is_from_positive branch || is_from_negative branch)
          && leb_ℤ (pos 0) tolerance_millideg
          && leb_ℤ (pos 0) rate_tolerance_millideg_s
          && not (dwell_samples == 0)
          && leb_ℤ (pos 0) monotonic_tolerance_millideg;
    }

unfoldable pub target_millideg : ZeroApproachPlan → ℤ
target_millideg p = target_at p.branch p.index

-- The tests of `update`.
unfoldable pub overshot : ℤ → ZeroApproachPlan → Bool
overshot measured p =
    is_from_positive p.branch && ltb_ℤ measured (negsuc 49)
    || is_from_negative p.branch && ltb_ℤ (pos 50) measured

unfoldable pub reversed : ℤ → ZeroApproachPlan → Bool
reversed measured p =
    p.approach_to_zero_started
    && p.have_last_measured
    && (is_from_positive p.branch
          && ltb_ℤ (p.last_measured_millideg +ℤ p.monotonic_tolerance_millideg) measured
        || is_from_negative p.branch
          && ltb_ℤ measured (p.last_measured_millideg -ℤ p.monotonic_tolerance_millideg))

unfoldable pub settled : (measured rate : ℤ) → ZeroApproachPlan → Bool
settled measured rate p =
    let angle_delta = measured -ℤ target_millideg p in
    leb_ℤ (neg p.tolerance_millideg) angle_delta
    && leb_ℤ angle_delta p.tolerance_millideg
    && leb_ℤ (neg p.rate_tolerance_millideg_s) rate
    && leb_ℤ rate p.rate_tolerance_millideg_s

-- The end of `update`, from the count of the samples on.
unfoldable pub dwell : ZeroApproachPlan → ZeroApproachPlan × ApproachUpdate
dwell p =
    let count =
      if ltb p.dwell_samples p.required_dwell_samples
      then p.dwell_samples + 1
      else p.dwell_samples in
    if ltb count p.required_dwell_samples
    then (record p { dwell_samples = count }, holding)
    else if leb target_count (p.index + 1)
    then (record p { dwell_samples = 0; complete = true }, completed)
    else (
      record p {
        dwell_samples = 0;
        index = p.index + 1;
        approach_to_zero_started = if p.index + 1 == 1 then true else p.approach_to_zero_started;
      },
      target_advanced,
    )

unfoldable pub update : (measured rate : ℤ) → ZeroApproachPlan → ZeroApproachPlan × ApproachUpdate
update measured rate p =
    let seen = record p { last_measured_millideg = measured; have_last_measured = true } in
    if not p.valid
    then (p, configuration_abort)
    else if p.complete
    then (p, completed)
    else if overshot measured p
    then (record p { dwell_samples = 0 }, overshoot_abort)
    else if reversed measured p
    then (record p { dwell_samples = 0 }, monotonicity_abort)
    else if not (settled measured rate p)
    then (record seen { dwell_samples = 0 }, holding)
    else dwell seen

pub record ZeroApproachController : Type 0 where
  pub plan : ZeroApproachPlan
  pub timeout_us : ℕ
  pub started_at_us : ℕ
  pub started : Bool

unfoldable pub reset : (started_at_us : ℕ) → ZeroApproachController → ZeroApproachController
reset started_at_us c = record c { started_at_us = started_at_us; started = true }

unfoldable pub controller_update :
    (measured rate : ℤ)
    → (now_us : ℕ) → ZeroApproachController
    → ZeroApproachController × ApproachUpdate
controller_update measured rate now_us c =
    let going = if c.started then c else reset now_us c in
    if ltb now_us going.started_at_us || ltb going.timeout_us (now_us - going.started_at_us)
    then (going, timeout_abort)
    else (let r = update measured rate going.plan in (record going { plan = r.0 }, r.1))
