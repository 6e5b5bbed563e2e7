-- ===== src/Characterization/ZeroApproach/Visits.antt =====
-- characterization/zero_approach.cpp: the targets that an approach has reached.
use avi_99l_mission_board.Base.{
  ℕ, ◌+◌, ◌-◌, ◌*◌, ◌≤◌, ◌<◌, ◌≡◌, refl, subst, sym, ap, ◌∙◌, true, false, not, ◌&&◌, List, [], ◌∷◌,
  ltb, leb, if_lem, arith,
}
use avi_99l_mission_board.Base.Int.{ℤ, pos, neg, abs, ◌-ℤ◌, leb_ℤ}
use avi_99l_mission_board.Characterization.ZeroApproach.{
  ApproachBranch, no_branch, from_positive, from_negative, ApproachUpdate, ZeroApproachPlan,
  new_plan, target_at, target_millideg, overshot, reversed, settled, dwell, update,
}

-- A measurement: the angle, its rate and its time.
abbrev pub Measurement : Type 0
Measurement = ℤ × ℤ × ℕ

-- The targets: from 1000 thousandths of a degree in steps of 100 down to 0, or from -1000 up.
abbrev pub target : ApproachBranch → ℕ → ℤ
target from_positive k = pos (1_000 - 100 * k)
target from_negative k = neg (pos (1_000 - 100 * k))
target no_branch k = pos 0

-- What an approach from `b` has reached with the tolerances and the number `d` of measurements that
-- each target needs.
module _ (b : ApproachBranch) (tolerance rate_tolerance : ℤ) (d : ℕ) where
  abbrev pub Near : ℕ → Measurement → Type 0
  Near k x =
      (leb_ℤ (pos (abs (x.0 -ℤ target b k))) tolerance ≡ true)
      × (leb_ℤ (pos (abs x.1)) rate_tolerance ≡ true)

  -- After these measurements, the newest first, `k` targets were reached one after another, each with
  -- `d` measurements near it in a row, and the newest `n` are in a row near the target `k`.
  pub data Visits : (k n : ℕ) → List Measurement → Type 0 where
    start : Visits 0 0 []
    again :
        {k n : ℕ} {x : Measurement} {xs : List Measurement}
        → Near k x
        → Visits k n xs
        → Visits k (n + 1) (x ∷ xs)
    lost : {k n : ℕ} {x : Measurement} {xs : List Measurement} → Visits k n xs → Visits k 0 (x ∷ xs)
    reached : {k : ℕ} {xs : List Measurement} → Visits k d xs → Visits (k + 1) 0 xs

  pub record Approached (xs : List Measurement) (p : ZeroApproachPlan) : Type 0 where
    pub of_branch : p.branch ≡ b
    pub of_tolerance : p.tolerance_millideg ≡ tolerance
    pub of_rate_tolerance : p.rate_tolerance_millideg_s ≡ rate_tolerance
    pub required : p.required_dwell_samples ≡ d
    pub index_below : p.index ≤ 10
    pub dwell_below : p.valid ≡ true → p.dwell_samples < d
    pub invalid : p.valid ≡ false → (p.dwell_samples ≡ 0) × (p.complete ≡ false)
    pub going : p.complete ≡ false → Visits p.index p.dwell_samples xs
    pub all : p.complete ≡ true → Visits 11 0 xs

  target_lem : (c : ApproachBranch) (k : ℕ) → k ≤ 10 → target_at c k ≡ target c k
  unfolding target_at
  target_lem from_positive k h = ground arith
  target_lem from_negative k h = ground arith
  target_lem no_branch k h = ground arith

  -- The code's test of an angle and its rate.
  settled_parts :
      (a t r u : ℤ)
      → (leb_ℤ (neg t) a && leb_ℤ a t && leb_ℤ (neg u) r && leb_ℤ r u) ≡ true
      → (leb_ℤ (pos (abs a)) t ≡ true) × (leb_ℤ (pos (abs r)) u ≡ true)
  settled_parts a t r u h = ground arith

  settled-Near :
      (x : Measurement) (xs : List Measurement) (p : ZeroApproachPlan)
      → Approached xs p
      → settled x.0 x.1 p ≡ true
      → Near p.index x
  unfolding settled target_millideg
  settled-Near x xs p i h =
      let at : target_at p.branch p.index ≡ target b p.index =
        target_lem p.branch p.index i.index_below ∙ ap (λ c. target c p.index) i.of_branch in
      let s =
        settled_parts (x.0 -ℤ target_at p.branch p.index) p.tolerance_millideg x.1
          p.rate_tolerance_millideg_s h in
      (
        subst (λ t. leb_ℤ (pos (abs (x.0 -ℤ target b p.index))) t ≡ true) i.of_tolerance
            (subst (λ c. leb_ℤ (pos (abs (x.0 -ℤ c))) p.tolerance_millideg ≡ true) at s.0),
        subst (λ u. leb_ℤ (pos (abs x.1)) u ≡ true) i.of_rate_tolerance s.1,
      )

  dwell-Approached :
      (x : Measurement) (xs : List Measurement) (p : ZeroApproachPlan)
      → p.valid ≡ true
      → p.complete ≡ false
      → Near p.index x
      → Approached xs p
      → Approached (x ∷ xs) (dwell p).0
  unfolding dwell
  dwell-Approached x xs p v g near i =
      let below = i.dwell_below v in
      let more : ltb p.dwell_samples p.required_dwell_samples ≡ true =
        (let r = i.required in ground arith) in
      let visit : Visits p.index (p.dwell_samples + 1) (x ∷ xs) = again near (i.going g) in
      rw more (
        if_lem (λ (q : ZeroApproachPlan × ApproachUpdate). Approached (x ∷ xs) q.0)
          (ltb (p.dwell_samples + 1) p.required_dwell_samples)
          (λ few. record {
            of_branch = i.of_branch;
            of_tolerance = i.of_tolerance;
            of_rate_tolerance = i.of_rate_tolerance;
            required = i.required;
            index_below = i.index_below;
            dwell_below = λ w. (let r = i.required in ground arith);
            invalid = λ w. absurd (ground arith);
            going = λ w. visit;
            all = λ w. absurd (ground arith);
          })
          (λ enough.
            let r = i.required in
            let exact : p.dwell_samples + 1 ≡ d = ground arith in
            let there : Visits (p.index + 1) 0 (x ∷ xs) =
              reached (subst (λ n. Visits p.index n (x ∷ xs)) exact visit) in
            if_lem (λ (q : ZeroApproachPlan × ApproachUpdate). Approached (x ∷ xs) q.0)
              (leb 11 (p.index + 1))
              (λ last. record {
                of_branch = i.of_branch;
                of_tolerance = i.of_tolerance;
                of_rate_tolerance = i.of_rate_tolerance;
                required = i.required;
                index_below = i.index_below;
                dwell_below = λ w. ground arith;
                invalid = λ w. absurd (ground arith);
                going = λ w. absurd (ground arith);
                all = λ w.
                    (let e = i.index_below in
                      subst (λ k. Visits k 0 (x ∷ xs)) (ground arith) there);
              })
              (λ next. record {
                of_branch = i.of_branch;
                of_tolerance = i.of_tolerance;
                of_rate_tolerance = i.of_rate_tolerance;
                required = i.required;
                index_below = ground arith;
                dwell_below = λ w. ground arith;
                invalid = λ w. absurd (ground arith);
                going = λ w. there;
                all = λ w. absurd (ground arith);
              })))

  -- The count starts again, or the plan is as it was and has none.
  lost-Approached :
      (x : Measurement) (xs : List Measurement) (p q : ZeroApproachPlan)
      → p.complete ≡ false
      → q.branch ≡ p.branch
      → q.tolerance_millideg ≡ p.tolerance_millideg
      → q.rate_tolerance_millideg_s ≡ p.rate_tolerance_millideg_s
      → q.required_dwell_samples ≡ p.required_dwell_samples
      → q.index ≡ p.index
      → q.valid ≡ p.valid
      → q.complete ≡ p.complete
      → q.dwell_samples ≡ 0
      → Approached xs p
      → Approached (x ∷ xs) q
  lost-Approached x xs p q g e1 e2 e3 e4 e5 e6 e7 none_left i = record {
    of_branch = e1 ∙ i.of_branch;
    of_tolerance = e2 ∙ i.of_tolerance;
    of_rate_tolerance = e3 ∙ i.of_rate_tolerance;
    required = e4 ∙ i.required;
    index_below = (let below = i.index_below in ground arith);
    dwell_below = λ w. (let below = i.dwell_below (sym e6 ∙ w) in ground arith);
    invalid = λ w. (none_left, e7 ∙ g);
    going = λ w.
        subst (λ n. Visits q.index n (x ∷ xs)) (sym none_left)
          (subst (λ k. Visits k 0 (x ∷ xs)) (sym e5) (lost (i.going g)));
    all = λ w. absurd (ground arith);
  }

  pub update-Approached :
      (x : Measurement) (xs : List Measurement) (p : ZeroApproachPlan)
      → Approached xs p
      → Approached (x ∷ xs) (update x.0 x.1 p).0
  unfolding update
  update-Approached x xs p i =
      let P : ZeroApproachPlan × ApproachUpdate → Type 0 = λ q. Approached (x ∷ xs) q.0 in
      let seen : ZeroApproachPlan = record p {
        last_measured_millideg = x.0;
        have_last_measured = true;
      } in
      if_lem P (not p.valid)
        (λ bad.
          let h = i.invalid (ground arith) in
          lost-Approached x xs p p h.1 refl refl refl refl refl refl refl h.0 i)
        (λ good.
          if_lem P p.complete
            (λ done. record {
              of_branch = i.of_branch;
              of_tolerance = i.of_tolerance;
              of_rate_tolerance = i.of_rate_tolerance;
              required = i.required;
              index_below = i.index_below;
              dwell_below = i.dwell_below;
              invalid = i.invalid;
              going = λ w. absurd (ground arith);
              all = λ w. lost (i.all w);
            })
            (λ g.
              if_lem P (overshot x.0 p)
                (λ over. lost-Approached x xs p _ g refl refl refl refl refl refl refl refl i)
                (λ under.
                  if_lem P (reversed x.0 p)
                    (λ back. lost-Approached x xs p _ g refl refl refl refl refl refl refl refl i)
                    (λ forth.
                      if_lem P (not (settled x.0 x.1 p))
                        (λ off.
                          lost-Approached x xs p _ g refl refl refl refl refl refl refl refl i)
                        (λ near.
                          dwell-Approached x xs seen (ground arith) g
                            (settled-Near x xs p i (ground arith))
                            (record {
                              of_branch = i.of_branch;
                              of_tolerance = i.of_tolerance;
                              of_rate_tolerance = i.of_rate_tolerance;
                              required = i.required;
                              index_below = i.index_below;
                              dwell_below = i.dwell_below;
                              invalid = i.invalid;
                              going = i.going;
                              all = i.all;
                            }))))))

  pub new-Approached :
      (monotonic_tolerance : ℤ)
      → Approached [] (new_plan b tolerance rate_tolerance d monotonic_tolerance)
  unfolding new_plan
  new-Approached monotonic_tolerance = record {
    of_branch = refl;
    of_tolerance = refl;
    of_rate_tolerance = refl;
    required = refl;
    index_below = ground arith;
    dwell_below = λ w. ground arith;
    invalid = λ w. (refl, refl);
    going = λ w. start;
    all = λ w. absurd (ground arith);
  }
