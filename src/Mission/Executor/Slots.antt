-- ===== src/Mission/Executor/Slots.antt =====
-- Which slot of the result cache `allocate` hands out (mission/command_executor.cpp).
use avi_99l_mission_board.Base.{
  ℕ, suc, ◌+◌, ◌≤◌, ◌<◌, ◌≡◌, refl, ◌⊎◌, inl, inr, true, false, List, [], ◌∷◌, Option, none, some,
  get_elem?, length, count_if, All, arith, Option-cases, Bool-cases, subst, sym,
}
use avi_99l_mission_board.Mission.Executor.{Entry}
use avi_99l_mission_board.Mission.Executor.Cache.{first_unused, better, oldest, allocate}

-- Entry `i` is free to be written: not in use, or completed.
abbrev pub IsFree : List Entry → ℕ → Type 0
IsFree es i = (e : Entry) × (get_elem? es i ≡ some e) × ((e.valid ≡ false) ⊎ (e.pending ≡ false))

first_unused_sound :
    (k : ℕ) (es : List Entry) {j : ℕ}
    → first_unused k es ≡ some j
    → (i : ℕ) × (j ≡ k + i) × (e : Entry) × (get_elem? es i ≡ some e) × (e.valid ≡ false)
unfolding first_unused
first_unused_sound k [] h = cc
first_unused_sound k (e ∷ es) {j} h = elim (Bool-cases e.valid) [
  | inl used ↦
      let (i, at, x, here, free) = first_unused_sound (k + 1) es {j = j} (ground arith) in
      (suc i, omega arith, x, here, free)
  | inr free ↦ (0, ground arith, e, refl, free)
]

first_unused_none :
    (k : ℕ) (es : List Entry) → first_unused k es ≡ none → All (λ e. e.valid ≡ true) es
unfolding first_unused
first_unused_none k [] h = tt
first_unused_none k (e ∷ es) h = (ground arith, first_unused_none (k + 1) es (ground arith))

first_unused_full :
    (k : ℕ) (es : List Entry) → All (λ e. e.valid ≡ true) es → first_unused k es ≡ none
unfolding first_unused
first_unused_full k [] full = refl
first_unused_full k (e ∷ es) full = ground (arith, first_unused_full (k + 1) es full.1)

abbrev IsCandidate : ℕ → List Entry → ℕ × ℕ → Type 0
IsCandidate k es b =
    (i : ℕ) × (b.0 ≡ k + i)
    × (e : Entry) × (get_elem? es i ≡ some e)
    × (e.pending ≡ false)
    × (b.1 ≡ e.age)

better_sound :
    (k : ℕ) (best : Option (ℕ × ℕ)) (e : Entry) {b : ℕ × ℕ}
    → better k best e ≡ some b
    → (best ≡ some b) ⊎ ((b.0 ≡ k) × (e.pending ≡ false) × (b.1 ≡ e.age))
unfolding better
better_sound k best e h = ground arith

oldest_sound :
    (k : ℕ) (best : Option (ℕ × ℕ)) (es : List Entry) {b : ℕ × ℕ}
    → oldest k best es ≡ some b
    → (best ≡ some b) ⊎ IsCandidate k es b
unfolding oldest
oldest_sound k best [] h = inl h
oldest_sound k best (e ∷ es) h = elim (oldest_sound (k + 1) (better k best e) es h) [
  | inl early ↦ elim (better_sound k best e early) [
    | inl given ↦ inl given
    | inr (at, free, age) ↦ inr (0, omega arith, e, refl, free, age)
  ]
  | inr (i, at, x, here, free, age) ↦ inr (suc i, omega arith, x, here, free, age)
]

-- No completed entry was passed over for a younger one.
abbrev NotYounger : ℕ → Option (ℕ × ℕ) → Type 0
NotYounger age none = Unit
NotYounger age (some b) = age ≤ b.1

better_least :
    (k age : ℕ) (best : Option (ℕ × ℕ)) (e : Entry)
    → NotYounger age (better k best e)
    → NotYounger age best × (e.pending ≡ false → age ≤ e.age)
unfolding better
better_least k age none e h = ground arith
better_least k age (some b) e h = ground arith

oldest_least :
    (k : ℕ) (best : Option (ℕ × ℕ)) (es : List Entry) {b : ℕ × ℕ}
    → oldest k best es ≡ some b
    → NotYounger b.1 best × All (λ e. e.pending ≡ false → b.1 ≤ e.age) es
unfolding oldest
oldest_least k none [] h = (tt, tt)
oldest_least k (some c) [] h = (ground arith, tt)
oldest_least k best (e ∷ es) {b} h =
    let (later, rest) = oldest_least (k + 1) (better k best e) es h in
    let (before, here) = better_least k b.1 best e later in (before, (here, rest))

better_none :
    (k : ℕ) (best : Option (ℕ × ℕ)) (e : Entry)
    → better k best e ≡ none
    → (best ≡ none) × (e.pending ≡ true)
unfolding better
better_none k none e h = ground arith
better_none k (some b) e h = ground arith

oldest_none :
    (k : ℕ) (best : Option (ℕ × ℕ)) (es : List Entry)
    → oldest k best es ≡ none
    → (best ≡ none) × (count_if (λ e. e.pending) es ≡ length es)
unfolding oldest
oldest_none k best [] h = (h, refl)
oldest_none k best (e ∷ es) h =
    let (later, rest) = oldest_none (k + 1) (better k best e) es h in
    let (before, here) = better_none k best e later in (before, ground arith)

-- The slot that `allocate` hands out is free: an entry whose command is pending is never given up.
pub allocate_sound : (es : List Entry) {i : ℕ} → allocate es ≡ some i → IsFree es i
unfolding allocate
allocate_sound es {i} h = elim (Option-cases (first_unused 0 es)) [
  | inr (j, found) ↦
      let (k, at, e, here, free) = first_unused_sound 0 es found in
      let same : i ≡ k = ground arith in subst (IsFree es) (sym same) (e, here, inl free)
  | inl full ↦ elim (Option-cases (oldest 0 none es)) [
    | inl none_left ↦ absurd (ground arith)
    | inr (b, found) ↦ elim (oldest_sound 0 none es found) [
      | inl early ↦ absurd (cc early)
      | inr (k, at, e, here, free, age) ↦
          let same : i ≡ k = ground arith in subst (IsFree es) (sym same) (e, here, inr free)
    ]
  ]
]

-- It hands one out unless every entry is pending.
pub allocate_total :
    (es : List Entry) → count_if (λ e. e.pending) es < length es → (i : ℕ) × (allocate es ≡ some i)
unfolding allocate
allocate_total es room = elim (Option-cases (first_unused 0 es)) [
  | inr (j, found) ↦ (j, ground arith)
  | inl full ↦ elim (Option-cases (oldest 0 none es)) [
    | inl none_left ↦ absurd (omega (arith, (oldest_none 0 none es none_left).1))
    | inr (b, found) ↦ (b.0, ground arith)
  ]
]

-- When no slot is unused, the slot handed out holds a completed entry, and no completed entry has a
-- smaller age.
pub allocate_least :
    (es : List Entry) {i : ℕ}
    → All (λ e. e.valid ≡ true) es
    → allocate es ≡ some i
    → (e : Entry) × (get_elem? es i ≡ some e)
      × (e.pending ≡ false)
      × All (λ x. x.pending ≡ false → e.age ≤ x.age) es
unfolding allocate
allocate_least es {i} full h = elim (Option-cases (oldest 0 none es)) [
  | inl none_left ↦ absurd (ground (arith, first_unused_full 0 es full))
  | inr (b, found) ↦ elim (oldest_sound 0 none es found) [
    | inl early ↦ absurd (cc early)
    | inr (k, at, e, here, free, age) ↦
        let same : k ≡ i = ground (arith, first_unused_full 0 es full) in
        (
          e,
          subst (λ n. get_elem? es n ≡ some e) same here,
          free,
          subst (λ n. All (λ x. x.pending ≡ false → n ≤ x.age) es) age
              (oldest_least 0 none es found).1,
        )
  ]
]
