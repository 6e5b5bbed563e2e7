-- ===== src/Characterization/SpscRing/Contents.antt =====
-- characterization/spsc_ring.hpp: the values in the ring, from the tail on.
use native.Mathlib.Nat.{mod-eq_of_lt, mod_self}
use avi_99l_mission_board.Base.{
  ℕ, suc, ◌+◌, ◌%◌, ◌<◌, ◌≡◌, ◌⊎◌, inl, inr, List, [], ◌∷◌, ◌++◌, ◌==◌, length, arith, ap, ◌∙◌,
  Bool-cases,
}
use avi_99l_mission_board.Characterization.SpscRing.{Storage, put, increment}

-- The next index, without the remainder.
pub increment_cases :
    (capacity i : ℕ)
    → i < capacity
    → ((suc i ≡ capacity) × (increment capacity i ≡ 0))
      ⊎ ((suc i < capacity) × (increment capacity i ≡ suc i))
unfolding increment
increment_cases capacity i below = elim (Bool-cases (suc i == capacity)) [
  | inl last ↦ inl (ground arith, ap (λ k. k % capacity) (ground arith) ∙ mod_self capacity)
  | inr inner ↦ inr (ground arith, mod-eq_of_lt {n = i + 1} (ground arith) ∙ omega arith)
]

-- The values stand in the slots from `i` on.
abbrev pub Spans : {T : Type 0} → ℕ → Storage T → ℕ → List T → Type 0
Spans capacity storage i [] = Unit
Spans capacity storage i (x ∷ xs) =
    (storage i ≡ x) × Spans capacity storage (increment capacity i) xs

-- `n` slots from `tail` on end before `head`, around the end of the array or not.
abbrev pub Reaches : (capacity tail n head : ℕ) → Type 0
Reaches capacity tail n head = (tail + n ≡ head) ⊎ (tail + n ≡ head + capacity)

pub Reaches-increment :
    (capacity tail n head : ℕ)
    → tail < capacity
    → head < capacity
    → suc n < capacity
    → Reaches capacity tail (suc n) head
    → (increment capacity tail < capacity) × Reaches capacity (increment capacity tail) n head
Reaches-increment capacity tail n head t h l r =
    let c = increment_cases capacity tail t in ground arith

module _ {T : Type 0} (capacity : ℕ) where
  pub Spans-put :
      (storage : Storage T) (tail head : ℕ) (v : T) (xs : List T)
      → tail < capacity
      → head < capacity
      → length xs < capacity
      → Reaches capacity tail (length xs) head
      → Spans capacity storage tail xs
      → Spans capacity (put head v storage) tail xs
  Spans-put storage tail head v [] t h l r s = s
  Spans-put storage tail head v (x ∷ xs) t h l r s =
      let c = Reaches-increment capacity tail (length xs) head t h l r in
      (
        ground arith,
        Spans-put storage (increment capacity tail) head v xs c.0 h (omega arith) c.1 s.1,
      )

  pub Spans-append :
      (storage : Storage T) (tail head : ℕ) (v : T) (xs : List T)
      → tail < capacity
      → head < capacity
      → length xs < capacity
      → Reaches capacity tail (length xs) head
      → storage head ≡ v
      → Spans capacity storage tail xs
      → Spans capacity storage tail (xs ++ v ∷ [])
  Spans-append storage tail head v [] t h l r e s = (ap storage (ground arith) ∙ e, s)
  Spans-append storage tail head v (x ∷ xs) t h l r e s =
      let c = Reaches-increment capacity tail (length xs) head t h l r in
      (s.0, Spans-append storage (increment capacity tail) head v xs c.0 h (omega arith) c.1 e s.1)
