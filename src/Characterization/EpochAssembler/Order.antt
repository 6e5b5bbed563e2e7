-- ===== src/Characterization/EpochAssembler/Order.antt =====
-- characterization/fixed_epoch_assembler.cpp: the epochs are released one after another, from 0 on.
use avi_99l_mission_board.Base.{
  ℕ, suc, ◌-◌, ◌/◌, ◌^◌, ◌<◌, ◌≡◌, refl, subst, true, not, ◌&&◌, ◌||◌, ◌∙◌, Option, List, [], ◌∷◌,
  if◌then◌else◌, arith, Bool-cases, inl, inr, if_lem, ltb, leb, ◌==◌,
}
use avi_99l_mission_board.Characterization.EpochAssembler.{
  RawEncoderSample, Bucket, FixedEpochAssembler, AddResult, bucket_at, add, reset, reset_at,
  reset_rate,
}
use avi_99l_mission_board.Characterization.EpochAssembler.Release.{
  EncoderEpochBlock, counted_block, may_release, aggregate, unsummed, release, AssemblerCall,
  AssemblerReset, reset_epoch, reset_epoch_raw, reset_epoch_rate, resetting, call_add, call_release,
  with_block, blocks,
}

-- The epochs of the blocks are `n` and those after it.
abbrev pub Consecutive : ℕ → List EncoderEpochBlock → Type 0
Consecutive n [] = Unit
Consecutive n (block ∷ rest) = (block.epoch_index ≡ n) × Consecutive (suc n) rest

abbrev next_epoch : FixedEpochAssembler → ℕ
next_epoch a = if a.has_released_epoch then suc a.last_released_epoch else 0

-- The last epoch that was released is not the last number of the type.
abbrev Bounded : FixedEpochAssembler → Type 0
Bounded a = a.has_released_epoch ≡ true → a.last_released_epoch < 2 ^ 64 - 1

allowed_epoch :
    (e t : ℕ) (a : FixedEpochAssembler)
    → Bounded a
    → may_release e t a ≡ true
    → (e ≡ next_epoch a) × (e < 2 ^ 64 - 1)
unfolding may_release
allowed_epoch e t a bound allowed = elim (Bool-cases a.has_released_epoch) [
  | inl released ↦
      let b = bound released in
      (ground (arith, released, b, allowed), ground (arith, released, allowed))
  | inr first ↦ (ground (arith, first, allowed), ground (arith, first, allowed))
]

counted_block-epoch :
    (e t : ℕ) (b : Bucket) (a : FixedEpochAssembler) → (counted_block e t b a).epoch_index ≡ e
unfolding counted_block
counted_block-epoch e t b a = refl

-- From this state on, the rest of the calls releases the epochs in order.
abbrev InOrder : List AssemblerCall → FixedEpochAssembler → Type 0
InOrder calls a = Bounded a → Consecutive (next_epoch a) (blocks calls a)

Consecutive-at :
    {n m : ℕ} (rest : List EncoderEpochBlock)
    → n ≡ m
    → Consecutive (suc n) rest
    → Consecutive (suc m) rest
Consecutive-at rest same h = subst (λ k. Consecutive (suc k) rest) same h

abbrev AfterAdd :
    List AssemblerCall → FixedEpochAssembler → FixedEpochAssembler × AddResult → Type 0
AfterAdd calls a r = InOrder calls r.0 → Bounded a → Consecutive (next_epoch a) (blocks calls r.0)

abbrev AfterRelease :
    List AssemblerCall
    → FixedEpochAssembler
    → FixedEpochAssembler × Option EncoderEpochBlock
    → Type 0
AfterRelease calls a r =
    InOrder calls r.0 → Bounded a → Consecutive (next_epoch a) (with_block r.1 (blocks calls r.0))

add-InOrder :
    (sample : RawEncoderSample) (calls : List AssemblerCall) (a : FixedEpochAssembler)
    → InOrder calls (add sample a).0
    → Bounded a
    → Consecutive (next_epoch a) (blocks calls (add sample a).0)
unfolding add
add-InOrder sample calls a h =
    let start = a.epoch_zero_timestamp_us in
    let e = (sample.capture_timestamp_us - start) / 1_000 in
    let b = bucket_at a e in
    if_lem (AfterAdd calls a)
      (not a.initialized || a.samples_per_epoch == 0 || ltb sample.capture_timestamp_us start)
      (λ early h. h)
      (λ in_time.
        if_lem (AfterAdd calls a) (a.has_released_epoch && leb e a.last_released_epoch)
          (λ late h. h)
          (λ new.
            if_lem (AfterAdd calls a) (b.initialized && not (b.epoch_index == e)) (λ collides h. h)
              (λ clear h. h)))
      h

release-InOrder :
    (e t : ℕ) (calls : List AssemblerCall) (a : FixedEpochAssembler)
    → InOrder calls (release e t a).0
    → Bounded a
    → Consecutive (next_epoch a) (with_block (release e t a).1 (blocks calls (release e t a).0))
unfolding release
release-InOrder e t calls a h =
    let block = counted_block e t (bucket_at a e) a in
    if_lem (AfterRelease calls a) (not (may_release e t a)) (λ refused h. h)
      (λ allowed.
        if_lem (AfterRelease calls a) (not (aggregate block.slots (unsummed a)).1)
          (λ overflowed h. h)
          (λ summed h bound.
            let at_end = allowed_epoch e t a bound (ground (arith, allowed)) in
            (
              counted_block-epoch e t (bucket_at a e) a ∙ at_end.0,
              Consecutive-at _ at_end.0 (h (λ released. at_end.1)),
            )))
      h

blocks-InOrder : (calls : List AssemblerCall) (a : FixedEpochAssembler) → InOrder calls a
unfolding blocks
blocks-InOrder [] a bound = tt
blocks-InOrder (call_add sample ∷ calls) a bound =
    add-InOrder sample calls a (blocks-InOrder calls (add sample a).0) bound
blocks-InOrder (call_release e t ∷ calls) a bound =
    release-InOrder e t calls a (blocks-InOrder calls (release e t a).0) bound

resetting-Bounded : (r : AssemblerReset) (a : FixedEpochAssembler) → Bounded (resetting r a)
unfolding reset reset_at reset_rate
resetting-Bounded (reset_epoch t) a = λ released. cc
resetting-Bounded (reset_epoch_raw t raw) a = λ released. cc
resetting-Bounded (reset_epoch_rate rate t) a = λ released. cc

first_epoch : (r : AssemblerReset) (a : FixedEpochAssembler) → next_epoch (resetting r a) ≡ 0
unfolding reset reset_at reset_rate
first_epoch (reset_epoch t) a = refl
first_epoch (reset_epoch_raw t raw) a = refl
first_epoch (reset_epoch_rate rate t) a = refl

-- From a reset by any of the three overloads on, whatever samples are added and epochs asked for in
-- whatever order, the epochs of the blocks that are released are 0, 1, 2 and so on: none is missing
-- and none is released again.
pub released_epochs-Consecutive :
    (calls : List AssemblerCall) (r : AssemblerReset) (a : FixedEpochAssembler)
    → Consecutive 0 (blocks calls (resetting r a))
released_epochs-Consecutive calls r a =
    subst (λ n. Consecutive n (blocks calls (resetting r a))) (first_epoch r a)
      (blocks-InOrder calls (resetting r a) (resetting-Bounded r a))
