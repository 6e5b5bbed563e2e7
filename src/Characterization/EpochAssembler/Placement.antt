-- ===== src/Characterization/EpochAssembler/Placement.antt =====
-- characterization/fixed_epoch_assembler.cpp: each sample is released in its own epoch, and the epochs
-- one after another.
use avi_99l_mission_board.Base.{
  ◌∙◌, if_lem, ℕ, suc, zero, ◌+◌, ◌-◌, ◌*◌, ◌/◌, ◌%◌, ◌≤◌, ◌<◌, ◌≡◌, ◌⊎◌, inl, inr, refl, sym,
  subst, true, false, not, ◌&&◌, ◌||◌, Option, none, some, List, [], ◌∷◌, replicate, get_elem?, All,
  All-set, All-get, ltb, leb, ◌==◌, arith, Bool-cases,
}
use avi_99l_mission_board.Characterization.EpochAssembler.{
  AddResult, RawEncoderSample, Slots, Bucket, empty_bucket, FixedEpochAssembler, bucket_at,
  or_empty, joined, place_at, place, opened, add, reset, reset_at, reset_rate,
}
use avi_99l_mission_board.Characterization.EpochAssembler.Release.{
  EncoderEpochBlock, selected, counted_block, may_release, aggregate, unsummed, release, sealed,
  AssemblerCall, AssemblerReset, reset_epoch, reset_epoch_raw, reset_epoch_rate, resetting,
  call_add, call_release, with_block, blocks,
}

-- The sample in a slot was captured in the epoch `e`, counted from `start`.
abbrev pub FromEpoch : (start e : ℕ) → Option RawEncoderSample → Type 0
FromEpoch start e none = Unit
FromEpoch start e (some s) =
    (start ≤ s.capture_timestamp_us) × ((s.capture_timestamp_us - start) / 1_000 ≡ e)

abbrev HasOwn : (start : ℕ) → Bucket → Type 0
HasOwn start b = b.initialized ≡ true → All (FromEpoch start b.epoch_index) b.slots

abbrev Sorted : FixedEpochAssembler → Type 0
Sorted a = All (HasOwn a.epoch_zero_timestamp_us) a.buckets

or_empty-HasOwn :
    (start : ℕ) (o : Option Bucket)
    → ((b : Bucket) → o ≡ some b → HasOwn start b)
    → HasOwn start (or_empty o)
or_empty-HasOwn start none h = λ used. cc
or_empty-HasOwn start (some b) h = h b refl

bucket_at-HasOwn :
    (a : FixedEpochAssembler) (e : ℕ) → Sorted a → HasOwn a.epoch_zero_timestamp_us (bucket_at a e)
unfolding bucket_at
bucket_at-HasOwn a e s =
    or_empty-HasOwn a.epoch_zero_timestamp_us (get_elem? a.buckets (e % 8))
      (λ b there. All-get (HasOwn a.epoch_zero_timestamp_us) a.buckets (e % 8) s there)

opened-All :
    (start e : ℕ) (b : Bucket)
    → HasOwn start b
    → (b.initialized ≡ false) ⊎ (b.epoch_index ≡ e)
    → (All (FromEpoch start e) (opened e b).slots) × ((opened e b).epoch_index ≡ e)
opened-All start e b own fits = elim (Bool-cases b.initialized) [
  | inl used ↦ elim fits [
    | inl fresh ↦ absurd (ground (arith, used, fresh))
    | inr same ↦ rw used (subst (λ k. All (FromEpoch start k) b.slots) same (own used), same)
  ]
  | inr fresh ↦ rw fresh ((tt, (tt, (tt, (tt, (tt, tt))))), refl)
]

module _ (start e spe start_us offset_us slot : ℕ) (sample : RawEncoderSample) (b : Bucket)
    (own : FromEpoch start e (some sample)) (all : All (FromEpoch start e) b.slots) where
  place_at-All :
      (held : Option RawEncoderSample)
      → All (FromEpoch start e) (place_at held spe start_us offset_us slot sample b).slots
  unfolding place_at
  place_at-All none = All-set (FromEpoch start e) b.slots slot (some sample) own all
  place_at-All (some held) =
      if_lem (λ (r : Bucket). All (FromEpoch start e) r.slots) _
        (λ nearer. All-set (FromEpoch start e) b.slots slot (some sample) own all) (λ kept. all)

  place_at-epoch :
      (held : Option RawEncoderSample)
      → (place_at held spe start_us offset_us slot sample b).epoch_index ≡ b.epoch_index
  unfolding place_at
  place_at-epoch none = refl
  place_at-epoch (some held) =
      if_lem (λ (r : Bucket). r.epoch_index ≡ b.epoch_index) _ (λ nearer. refl) (λ kept. refl)

place-HasOwn :
    (start e spe start_us offset_us slot : ℕ) (sample : RawEncoderSample) (b : Bucket)
    → FromEpoch start e (some sample)
    → (All (FromEpoch start e) b.slots) × (b.epoch_index ≡ e)
    → HasOwn start (place spe start_us offset_us slot sample b)
unfolding place
place-HasOwn start e spe start_us offset_us slot sample b own h used =
    let held = joined (get_elem? b.slots slot) in
    subst (λ k. All (FromEpoch start k) (place_at held spe start_us offset_us slot sample b).slots)
      (sym (place_at-epoch start e spe start_us offset_us slot sample b own h.0 held ∙ h.1))
      (place_at-All start e spe start_us offset_us slot sample b own h.0 held)

-- A bucket that raises no collision is not in use or is this epoch's.
no_collision :
    (b : Bucket) (e : ℕ)
    → (b.initialized && not (b.epoch_index == e)) ≡ false
    → (b.initialized ≡ false) ⊎ (b.epoch_index ≡ e)
no_collision b e clear = elim (Bool-cases b.initialized) [
  | inl used ↦ inr (ground (arith, used, clear))
  | inr fresh ↦ inl fresh
]

add-Sorted :
    (sample : RawEncoderSample) (a : FixedEpochAssembler) → Sorted a → Sorted (add sample a).0
unfolding add
add-Sorted sample a s =
    let start = a.epoch_zero_timestamp_us in
    let e = (sample.capture_timestamp_us - start) / 1_000 in
    let b = bucket_at a e in
    if_lem (λ (r : FixedEpochAssembler × AddResult). Sorted r.0)
      (not a.initialized || a.samples_per_epoch == 0 || ltb sample.capture_timestamp_us start)
      (λ early. s)
      (λ in_time.
        if_lem (λ (r : FixedEpochAssembler × AddResult). Sorted r.0)
          (a.has_released_epoch && leb e a.last_released_epoch) (λ late. s)
          (λ new.
            if_lem (λ (r : FixedEpochAssembler × AddResult). Sorted r.0)
              (b.initialized && not (b.epoch_index == e)) (λ collides. s)
              (λ clear.
                All-set (HasOwn start) a.buckets (e % 8) _
                  (place-HasOwn start e a.samples_per_epoch _ _ _ sample (opened e (bucket_at a e))
                    (ground arith, refl)
                    (opened-All start e (bucket_at a e) (bucket_at-HasOwn a e s)
                      (no_collision (bucket_at a e) e clear)))
                  s)))

release-Sorted : (e t : ℕ) (a : FixedEpochAssembler) → Sorted a → Sorted (release e t a).0
unfolding release
release-Sorted e t a s =
    let block = counted_block e t (bucket_at a e) a in
    let sealed_Sorted : All (HasOwn a.epoch_zero_timestamp_us) (sealed e block a).buckets =
      if_lem (All (HasOwn a.epoch_zero_timestamp_us))
        ((bucket_at a e).initialized && (bucket_at a e).epoch_index == e)
        (λ found.
          All-set (HasOwn a.epoch_zero_timestamp_us) a.buckets (e % 8) empty_bucket (λ used. cc) s)
        (λ missing. s) in
    if_lem (λ (r : FixedEpochAssembler × Option EncoderEpochBlock). Sorted r.0)
      (not (may_release e t a)) (λ refused. s)
      (λ allowed.
        if_lem (λ (r : FixedEpochAssembler × Option EncoderEpochBlock). Sorted r.0)
          (not (aggregate block.slots (unsummed a)).1) (λ overflowed. sealed_Sorted)
          (λ summed. sealed_Sorted))

replicate-Sorted : (start : ℕ) → All (HasOwn start) (replicate 8 empty_bucket)
replicate-Sorted start =
    (λ u. cc, (λ u. cc, (λ u. cc, (λ u. cc, (λ u. cc, (λ u. cc, (λ u. cc, (λ u. cc, tt))))))))

reset-Sorted : (t : ℕ) (a : FixedEpochAssembler) → Sorted (reset t a)
unfolding reset
reset-Sorted t a = replicate-Sorted t

abbrev Within : (lo hi : ℕ) → Option RawEncoderSample → Type 0
Within lo hi none = Unit
Within lo hi (some s) = (lo ≤ s.capture_timestamp_us) × (s.capture_timestamp_us < hi)

abbrev pub SamplesWithin : EncoderEpochBlock → Type 0
SamplesWithin block =
    All (Within block.epoch_start_timestamp_us block.epoch_end_timestamp_us) block.slots

selected-Within :
    (start e n slot : ℕ) (slots : Slots)
    → All (FromEpoch start e) slots
    → All (Within (start + e * 1_000) (start + e * 1_000 + 1_000)) (selected n slot slots)
unfolding selected
selected-Within start e zero slot slots own = tt
selected-Within start e (suc n) slot [] own = tt
selected-Within start e (suc n) slot (none ∷ slots) own =
    (tt, selected-Within start e n (suc slot) slots own.1)
selected-Within start e (suc n) slot (some s ∷ slots) own = (
  (omega (arith, own.0.0, own.0.1), omega (arith, own.0.0, own.0.1)),
  selected-Within start e n (suc slot) slots own.1,
)

replicate-Within : (lo hi n : ℕ) → All (Within lo hi) (replicate n none)
replicate-Within lo hi zero = tt
replicate-Within lo hi (suc n) = (tt, replicate-Within lo hi n)

-- The answer of both tests of a bucket.
found_lem :
    (b : Bucket) (e : ℕ)
    → (b.initialized && b.epoch_index == e) ≡ true
    → (b.initialized ≡ true) × (b.epoch_index ≡ e)
found_lem b e found = elim (Bool-cases b.initialized) [
  | inl used ↦ (used, ground (arith, used, found))
  | inr fresh ↦ absurd (ground (arith, fresh, found))
]

counted_block-Within :
    (e t : ℕ) (b : Bucket) (a : FixedEpochAssembler)
    → HasOwn a.epoch_zero_timestamp_us b
    → SamplesWithin (counted_block e t b a)
unfolding counted_block
counted_block-Within e t b a own =
    let start = a.epoch_zero_timestamp_us in
    if_lem (All (Within (start + e * 1_000) (start + e * 1_000 + 1_000))) _
      (λ found.
        let h = found_lem b e found in
        selected-Within start e a.samples_per_epoch 0 b.slots
          (subst (λ k. All (FromEpoch start k) b.slots) h.1 (own h.0)))
      (λ missing. replicate-Within _ _ a.samples_per_epoch)

release-Within :
    (e t : ℕ) (a : FixedEpochAssembler)
    → Sorted a
    → (rest : List EncoderEpochBlock) → All SamplesWithin rest
    → All SamplesWithin (with_block (release e t a).1 rest)
unfolding release
release-Within e t a s rest h =
    let block = counted_block e t (bucket_at a e) a in
    if_lem
      (λ (r : FixedEpochAssembler × Option EncoderEpochBlock).
        All SamplesWithin (with_block r.1 rest))
      (not (may_release e t a)) (λ refused. h)
      (λ allowed.
        if_lem
          (λ (r : FixedEpochAssembler × Option EncoderEpochBlock).
            All SamplesWithin (with_block r.1 rest))
          (not (aggregate block.slots (unsummed a)).1) (λ overflowed. h)
          (λ summed. (counted_block-Within e t (bucket_at a e) a (bucket_at-HasOwn a e s), h)))

blocks-Within :
    (calls : List AssemblerCall) (a : FixedEpochAssembler)
    → Sorted a
    → All SamplesWithin (blocks calls a)
unfolding blocks
blocks-Within [] a s = tt
blocks-Within (call_add sample ∷ calls) a s =
    blocks-Within calls (add sample a).0 (add-Sorted sample a s)
blocks-Within (call_release e t ∷ calls) a s =
    release-Within e t a s (blocks calls (release e t a).0)
      (blocks-Within calls (release e t a).0 (release-Sorted e t a s))

resetting-Sorted : (r : AssemblerReset) (a : FixedEpochAssembler) → Sorted (resetting r a)
unfolding reset_at reset_rate
resetting-Sorted (reset_epoch t) a = reset-Sorted t a
resetting-Sorted (reset_epoch_raw t raw) a = reset-Sorted t a
resetting-Sorted (reset_epoch_rate rate t) a = reset-Sorted t _

-- From a reset by any of the three overloads on, whatever samples are added and epochs released in
-- whatever order, every sample of a block that is released was captured at or after the start of the
-- block's epoch and before its end.
pub released-SamplesWithin :
    (calls : List AssemblerCall) (r : AssemblerReset) (a : FixedEpochAssembler)
    → All SamplesWithin (blocks calls (resetting r a))
released-SamplesWithin calls r a = blocks-Within calls (resetting r a) (resetting-Sorted r a)
