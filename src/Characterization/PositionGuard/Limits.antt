-- ===== src/Characterization/PositionGuard/Limits.antt =====
-- characterization/position_guard.cpp: the limits that the guard keeps.
use avi_99l_mission_board.Base.{
  ◌^◌, ◌-◌, ◌∙◌, if◌then◌else◌, ◌≡◌, ◌⊎◌, inl, inr, subst, sym, true, false, not, ◌&&◌, ◌||◌, arith,
  Bool-cases,
}
use avi_99l_mission_board.Base.Int.{
  ℤ, pos, negsuc, neg, abs, ◌+ℤ◌, ◌*ℤ◌, ◌=ℤ◌, ltb_ℤ, leb_ℤ, =ℤ_iff,
}
use avi_99l_mission_board.Characterization.Types.{coast_request, motor_mode_matches_command}
use avi_99l_mission_board.Characterization.Requests.{mode_of_sign, matches-mode_of_sign}
use avi_99l_mission_board.Characterization.PositionGuard.{
  PositionGuardConfig, PositionGuardInput, sign, saturating_add, configuration_bad,
  command_is_outward, evaluate,
}

-- Short of the mechanical limit the predicted angle is the exact sum.
module _ (hard : ℤ) (below : ltb_ℤ hard (pos 15_000) ≡ true) where
  abbrev exact : ℤ → ℤ
  exact s =
      if ltb_ℤ s (negsuc (2 ^ 31 - 1))
      then negsuc (2 ^ 31 - 1)
      else if ltb_ℤ (pos (2 ^ 31 - 1)) s
      then pos (2 ^ 31 - 1)
      else s

  clamped_small :
      (s : ℤ) → leb_ℤ hard (pos (abs (exact s))) ≡ false → ltb_ℤ (pos (abs s)) hard ≡ true
  clamped_small (pos n) h = ground arith
  clamped_small (negsuc n) h = ground arith

-- The side to which a command moves the fin, over each polarity.
signed_up :
    (v : ℤ)
    → (leb_ℤ (sign v *ℤ pos 1) (pos 0) ≡ true → leb_ℤ v (pos 0) ≡ true)
      × (leb_ℤ (pos 0) (sign v *ℤ pos 1) ≡ true → leb_ℤ (pos 0) v ≡ true)
signed_up v = ground arith

signed_down :
    (v : ℤ)
    → (leb_ℤ (sign v *ℤ negsuc 0) (pos 0) ≡ true → leb_ℤ (pos 0) v ≡ true)
      × (leb_ℤ (pos 0) (sign v *ℤ negsuc 0) ≡ true → leb_ℤ v (pos 0) ≡ true)
signed_down v = ground arith

module _ (c : PositionGuardConfig) (input : PositionGuardInput) where
  -- What a command that is let through can rely on. For the polarity 1 a command above 0 moves the
  -- fin up, for -1 a command below 0.
  pub record Allowed : Type 0 where
    pub requested : (evaluate c input).permitted ≡ input.requested
    pub matching : mode_of_sign input.requested.mode input.requested.command_permille ≡ true
    pub measured : input.encoder_valid ≡ true
    pub in_time : input.consumer_deadline_met ≡ true
    pub inside : ltb_ℤ (pos (abs input.fin_angle_millideg)) c.hard_abort_millideg ≡ true
    pub stops_inside :
        ltb_ℤ
          (pos (abs (input.fin_angle_millideg +ℤ input.predicted_stopping_delta_millideg)))
          c.hard_abort_millideg
        ≡ true
    pub within_mechanics : ltb_ℤ c.hard_abort_millideg (pos 15_000) ≡ true
    pub polarity : (c.command_to_fin_sign ≡ pos 1) ⊎ (c.command_to_fin_sign ≡ negsuc 0)
    pub at_upper_edge :
        leb_ℤ c.normal_envelope_millideg input.fin_angle_millideg ≡ true
        → (c.command_to_fin_sign ≡ pos 1 → leb_ℤ input.requested.command_permille (pos 0) ≡ true)
          × (c.command_to_fin_sign ≡ negsuc 0
              → leb_ℤ (pos 0) input.requested.command_permille ≡ true)
    pub at_lower_edge :
        leb_ℤ input.fin_angle_millideg (neg c.normal_envelope_millideg) ≡ true
        → (c.command_to_fin_sign ≡ pos 1 → leb_ℤ (pos 0) input.requested.command_permille ≡ true)
          × (c.command_to_fin_sign ≡ negsuc 0
              → leb_ℤ input.requested.command_permille (pos 0) ≡ true)

  -- The tests that a request passes before it is let through.
  record Passed : Type 0 where
    asked : (evaluate c input).permitted ≡ input.requested
    configured : configuration_bad c ≡ false
    signed :
        (not (c.command_to_fin_sign =ℤ pos 1) && not (c.command_to_fin_sign =ℤ negsuc 0)) ≡ false
    reading : input.encoder_valid ≡ true
    met : input.consumer_deadline_met ≡ true
    mode : motor_mode_matches_command input.requested.command_permille input.requested.mode ≡ true
    angle : leb_ℤ c.hard_abort_millideg (pos (abs input.fin_angle_millideg)) ≡ false
    predicted :
        leb_ℤ c.hard_abort_millideg (
          pos
            (abs (saturating_add input.fin_angle_millideg input.predicted_stopping_delta_millideg)))
        ≡ false
    back : command_is_outward c input ≡ false

  permits-Passed : Passed ⊎ ((evaluate c input).permitted ≡ coast_request)
  unfolding evaluate
  permits-Passed = ground arith

  Passed-polarity :
      (not (c.command_to_fin_sign =ℤ pos 1) && not (c.command_to_fin_sign =ℤ negsuc 0)) ≡ false
      → (c.command_to_fin_sign ≡ pos 1) ⊎ (c.command_to_fin_sign ≡ negsuc 0)
  Passed-polarity h = elim (Bool-cases (c.command_to_fin_sign =ℤ pos 1)) [
    | inl one ↦ inl ((=ℤ_iff c.command_to_fin_sign (pos 1)).0 one)
    | inr other ↦ inr ((=ℤ_iff c.command_to_fin_sign (negsuc 0)).0 (ground arith))
  ]

  Passed-edges :
      (d : ℤ)
      → ((leb_ℤ c.normal_envelope_millideg input.fin_angle_millideg && ltb_ℤ (pos 0) d)
          || (leb_ℤ input.fin_angle_millideg (neg c.normal_envelope_millideg) && ltb_ℤ d (pos 0)))
        ≡ false
      → (leb_ℤ c.normal_envelope_millideg input.fin_angle_millideg ≡ true → leb_ℤ d (pos 0) ≡ true)
        × (leb_ℤ input.fin_angle_millideg (neg c.normal_envelope_millideg) ≡ true
            → leb_ℤ (pos 0) d ≡ true)
  Passed-edges d h = ground arith

  below_mechanics : Passed → ltb_ℤ c.hard_abort_millideg (pos 15_000) ≡ true
  unfolding configuration_bad
  below_mechanics p = let configured = p.configured in ground (arith, configured)

  Passed-Allowed : Passed → Allowed
  unfolding configuration_bad command_is_outward saturating_add
  Passed-Allowed p =
      let v = input.requested.command_permille in
      let edges = Passed-edges (sign v *ℤ c.command_to_fin_sign) p.back in
      record {
        requested = p.asked;
        matching = sym (matches-mode_of_sign v input.requested.mode) ∙ p.mode;
        measured = p.reading;
        in_time = p.met;
        inside = (let angle = p.angle in ground (arith, angle));
        stops_inside =
            clamped_small c.hard_abort_millideg (below_mechanics p)
              (input.fin_angle_millideg +ℤ input.predicted_stopping_delta_millideg) p.predicted;
        within_mechanics = below_mechanics p;
        polarity = Passed-polarity p.signed;
        at_upper_edge = λ edge. (
          λ one.
              (signed_up v).0 (subst (λ k. leb_ℤ (sign v *ℤ k) (pos 0) ≡ true) one (edges.0 edge)),
          λ other.
              (signed_down v).0
                (subst (λ k. leb_ℤ (sign v *ℤ k) (pos 0) ≡ true) other (edges.0 edge)),
        );
        at_lower_edge = λ edge. (
          λ one.
              (signed_up v).1 (subst (λ k. leb_ℤ (pos 0) (sign v *ℤ k) ≡ true) one (edges.1 edge)),
          λ other.
              (signed_down v).1
                (subst (λ k. leb_ℤ (pos 0) (sign v *ℤ k) ≡ true) other (edges.1 edge)),
        );
      }

  -- The guard either permits the request, or it permits the coast command only. A request that it
  -- permits has the mode of its sign, a valid reading of the angle in time, and a polarity of 1 or
  -- -1; the angle, and the angle with the predicted way to stop added, are below the configured hard
  -- limit in size, which is below the mechanical limit of 15 degrees; and from an edge of the
  -- envelope on the command does not move the fin further out.
  pub permits_inside : Allowed ⊎ ((evaluate c input).permitted ≡ coast_request)
  permits_inside = elim permits-Passed [
    | inl passed ↦ inl (Passed-Allowed passed)
    | inr coasts ↦ inr coasts
  ]
