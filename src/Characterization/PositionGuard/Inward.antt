-- ===== src/Characterization/PositionGuard/Inward.antt =====
-- characterization/characterization_config.hpp: a command towards a target passes the guard.
use avi_99l_mission_board.Base.{
  ℕ, zero, suc, ◌≤◌, ◌≡◌, ◌≢◌, ◌⊎◌, inl, inr, refl, subst, sym, true, false, not, ◌&&◌, ◌||◌, arith,
  Bool-cases,
}
use avi_99l_mission_board.Base.Int.{
  ℤ, pos, negsuc, neg, abs, ◌*ℤ◌, ◌-ℤ◌, ◌=ℤ◌, ltb_ℤ, leb_ℤ, =ℤ_iff,
}
use avi_99l_mission_board.Characterization.PositionGuard.{
  PositionGuardConfig, PositionGuardInput, force_coast, sign, command_is_outward, evaluate,
  command_for_fin_error,
}

-- The signs, and the two polarities.
data IsSign : ℤ → Type 0 where
  plus : IsSign (pos 1)
  minus : IsSign (negsuc 0)
  still : IsSign (pos 0)

data IsPolarity : ℤ → Type 0 where
  same_way : IsPolarity (pos 1)
  other_way : IsPolarity (negsuc 0)

-- A command of sign `s` over the polarity `k` moves the fin to the side `s`.
moves : (s k : ℤ) (n : ℕ) → IsSign s → IsPolarity k → sign (s *ℤ k *ℤ pos (suc n)) *ℤ k ≡ s
moves _ _ n plus same_way = ground arith
moves _ _ n plus other_way = ground arith
moves _ _ n minus same_way = ground arith
moves _ _ n minus other_way = ground arith
moves _ _ n still same_way = ground arith
moves _ _ n still other_way = ground arith

sign-IsSign : (v : ℤ) → IsSign (sign v)
sign-IsSign v = elim (Bool-cases (ltb_ℤ (pos 0) v)) [
  | inl up ↦ rw up plus
  | inr not_up ↦ elim (Bool-cases (ltb_ℤ v (pos 0))) [
    | inl down ↦ rw (not_up, down) minus
    | inr not_down ↦ rw (not_up, not_down) still
  ]
]

sign_side :
    (v : ℤ)
    → (ltb_ℤ (pos 0) (sign v) ≡ true → ltb_ℤ (pos 0) v ≡ true)
      × (ltb_ℤ (sign v) (pos 0) ≡ true → ltb_ℤ v (pos 0) ≡ true)
sign_side v = ground arith

IsPolarity-cases : (k : ℤ) → (not (k =ℤ negsuc 0) && not (k =ℤ pos 1)) ≡ false → IsPolarity k
IsPolarity-cases k h = elim (Bool-cases (k =ℤ pos 1)) [
  | inl one ↦ subst IsPolarity (sym ((=ℤ_iff k (pos 1)).0 one)) same_way
  | inr not_one ↦ subst IsPolarity (sym ((=ℤ_iff k (negsuc 0)).0 (ground arith))) other_way
]

-- A command for an error is none, or the magnitude over the sign and the polarity.
command_cases :
    (e m k : ℤ)
    → (command_for_fin_error e m k ≡ pos 0)
      ⊎ ((n : ℕ) × (m ≡ pos (suc n))
          × IsPolarity k
          × (command_for_fin_error e m k ≡ sign e *ℤ k *ℤ m))
unfolding command_for_fin_error
command_cases e (pos zero) k = inl (ground arith)
command_cases e (negsuc n) k = inl (ground arith)
command_cases e (pos (suc n)) k =
    let above : leb_ℤ (pos (suc n)) (pos 0) ≡ false = ground arith in
    elim (Bool-cases (ltb_ℤ (pos 350) (pos (suc n)))) [
      | inl large ↦ inl (rw (above, large) refl)
      | inr small ↦ elim (Bool-cases (not (k =ℤ negsuc 0) && not (k =ℤ pos 1))) [
        | inl bad ↦ inl (rw (above, small, bad) refl)
        | inr good ↦ inr (n, refl, IsPolarity-cases k good, rw (above, small, good) refl)
      ]
    ]

stays : (k : ℤ) → sign (pos 0) *ℤ k ≡ pos 0
stays k = ground arith

-- The fin moves to the side of the error, if at all.
command_direction :
    (e m k : ℤ) → let d = sign (command_for_fin_error e m k) *ℤ k in (d ≡ pos 0) ⊎ (d ≡ sign e)
command_direction e m k = elim (command_cases e m k) [
  | inl none_sent ↦ inl (rw none_sent (stays k))
  | inr (n, size, polarity, value) ↦
      inr (rw (value, size) (moves (sign e) k n (sign-IsSign e) polarity))
]

command_small : (e m k : ℤ) → abs (command_for_fin_error e m k) ≤ 350
unfolding command_for_fin_error
command_small e m (pos zero) = ground arith
command_small e m (pos (suc zero)) = ground arith
command_small e m (pos (suc (suc n))) = ground arith
command_small e m (negsuc zero) = ground arith
command_small e m (negsuc (suc n)) = ground arith

module _ (envelope angle target d : ℤ) where
  -- Past an edge of the envelope the error of a target inside it points back.
  inward :
      ltb_ℤ (pos (abs target)) envelope ≡ true
      → (d ≡ pos 0) ⊎ (d ≡ sign (target -ℤ angle))
      → (leb_ℤ envelope angle && ltb_ℤ (pos 0) d || leb_ℤ angle (neg envelope) && ltb_ℤ d (pos 0))
        ≡ false
  inward inside (inl none_sent) = rw none_sent (ground arith)
  inward inside (inr towards) = let side = sign_side (target -ℤ angle) in rw towards (ground arith)

not_outward :
    (c : PositionGuardConfig) (input : PositionGuardInput) (target magnitude : ℤ)
    → input.requested.command_permille
      ≡ command_for_fin_error (target -ℤ input.fin_angle_millideg) magnitude c.command_to_fin_sign
    → ltb_ℤ (pos (abs target)) c.normal_envelope_millideg ≡ true
    → command_is_outward c input ≡ false
unfolding command_is_outward
not_outward c input target magnitude same inside = rw same (
    inward c.normal_envelope_millideg input.fin_angle_millideg target _ inside
      (command_direction (target -ℤ input.fin_angle_millideg) magnitude c.command_to_fin_sign))

not_coasted :
    (c : PositionGuardConfig) (input : PositionGuardInput)
    → command_is_outward c input ≡ false
    → (evaluate c input).action ≢ force_coast
unfolding evaluate
not_coasted c input back = ground arith

-- A command that `commandForFinError` computes for a target inside the envelope is never taken for an
-- outward one, whatever the angle, the polarity and the magnitude are: it is at most 350 thousandths,
-- and the guard's answer to it is never to force the motor to coast, though it may abort the run.
pub command-inward :
    (c : PositionGuardConfig) (input : PositionGuardInput) (target magnitude : ℤ)
    → input.requested.command_permille
      ≡ command_for_fin_error (target -ℤ input.fin_angle_millideg) magnitude c.command_to_fin_sign
    → ltb_ℤ (pos (abs target)) c.normal_envelope_millideg ≡ true
    → (command_is_outward c input ≡ false)
      × (abs input.requested.command_permille ≤ 350)
      × ((evaluate c input).action ≢ force_coast)
command-inward c input target magnitude same inside =
    let back = not_outward c input target magnitude same inside in
    (
      back,
      rw same (command_small (target -ℤ input.fin_angle_millideg) magnitude c.command_to_fin_sign),
      not_coasted c input back,
    )
