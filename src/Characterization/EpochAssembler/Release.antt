-- ===== src/Characterization/EpochAssembler/Release.antt =====
-- characterization/fixed_epoch_assembler.cpp: `release`, which turns the bucket of the next epoch into a
-- block, with the mean of the angle over it.
use avi_99l_mission_board.Base.{
  ℕ, suc, zero, ◌+◌, ◌-◌, ◌*◌, ◌/◌, ◌%◌, ◌^◌, Bool, true, false, not, ◌&&◌, ◌||◌, Option, none,
  some, List, [], ◌∷◌, replicate, set, count_if, ltb, leb, ◌==◌, if◌then◌else◌, add64,
}
use avi_99l_mission_board.Base.Int.{ℤ, pos, negsuc, neg, is_zero, ◌+ℤ◌, ◌-ℤ◌, ◌*ℤ◌, ltb_ℤ, sub_ℕ}
use avi_99l_mission_board.Characterization.Types.{EncoderRate}
use avi_99l_mission_board.Characterization.EpochAssembler.{
  RawEncoderSample, Slots, Bucket, empty_bucket, Statistics, FixedEpochAssembler, epoch_duration_us,
  bucket_count, bucket_at, add, reset, reset_at, reset_rate,
}

pub record EncoderEpochBlock : Type 0 where
  pub epoch_index : ℕ
  pub epoch_start_timestamp_us : ℕ
  pub epoch_end_timestamp_us : ℕ
  pub release_timestamp_us : ℕ
  pub consumer_lateness_us : ℤ
  pub expected_sample_count : ℕ
  pub observed_sample_count : ℕ
  pub actual_sample_count : ℕ
  pub selected_sample_count : ℕ
  pub valid_sample_count : ℕ
  pub repeated_sample_count : ℕ
  pub skipped_sample_count : ℕ
  pub invalid_sample_count : ℕ
  pub flags : ℕ
  pub mean_unwrapped_counts_q16 : ℤ
  pub slots : Slots

-- The sum, unless it leaves `int64_t`.
unfoldable pub checked_add : ℤ → ℤ → Option ℤ
checked_add lhs rhs =
    if ltb_ℤ (pos 0) rhs && ltb_ℤ (pos (2 ^ 63 - 1) -ℤ rhs) lhs
      || ltb_ℤ rhs (pos 0) && ltb_ℤ lhs (negsuc (2 ^ 63 - 1) -ℤ rhs)
    then none
    else some (lhs +ℤ rhs)

-- The bounds are the limits of `int64_t` over 65536.
unfoldable pub checked_q16 : ℤ → Option ℤ
checked_q16 counts =
    if ltb_ℤ (pos (2 ^ 47 - 1)) counts || ltb_ℤ counts (negsuc (2 ^ 47 - 1))
    then none
    else some (counts *ℤ pos 65_536)

-- The shorter way between two angles of 14 bits.
unfoldable pub wrapped_delta : (current previous : ℕ) → ℤ
wrapped_delta current previous =
    let delta = sub_ℕ current previous in
    if ltb_ℤ (pos 8_192) delta
    then delta -ℤ pos 16_384
    else if ltb_ℤ delta (negsuc 8_191)
    then delta +ℤ pos 16_384
    else delta

abbrev pub is_selected : Option RawEncoderSample → Bool
is_selected none = false
is_selected (some s) = true

abbrev pub is_good : Option RawEncoderSample → Bool
is_good none = false
is_good (some s) = s.valid && is_zero s.read_result_code

abbrev pub is_skipped : Option RawEncoderSample → Bool
is_skipped slot = not (is_selected slot)

abbrev pub is_invalid : Option RawEncoderSample → Bool
is_invalid slot = is_selected slot && not (is_good slot)

-- The first `n` slots, each sample with its slot's number, from `slot` on.
unfoldable pub selected : (n slot : ℕ) → Slots → Slots
selected zero slot slots = []
selected (suc n) slot [] = []
selected (suc n) slot (none ∷ slots) = none ∷ selected n (suc slot) slots
selected (suc n) slot (some s ∷ slots) =
    some (record s { slot = slot }) ∷ selected n (suc slot) slots

-- The unwrapped count, with the sum and the number of the samples of the epoch.
pub record Aggregate : Type 0 where
  pub has_unwrapped_reference : Bool
  pub last_released_raw : ℕ
  pub last_unwrapped_count : ℤ
  pub sum_q16 : ℤ
  pub aggregate_count : ℕ

-- A step of the sum, after the unwrapped count is known. False on an overflow.
abbrev pub sum_sample : (raw : ℕ) → Aggregate → Aggregate × Bool
sum_sample raw g =
    let moved = record g { last_released_raw = raw } in
    elim (checked_q16 g.last_unwrapped_count) [
      | none ↦ (moved, false)
      | some sample_q16 ↦ elim (checked_add g.sum_q16 sample_q16) [
        | none ↦ (moved, false)
        | some sum ↦ (record moved { sum_q16 = sum; aggregate_count = g.aggregate_count + 1 }, true)
      ]
    ]

-- Before the first sample of an epoch.
abbrev pub unsummed : FixedEpochAssembler → Aggregate
unsummed a = record {
  has_unwrapped_reference = a.has_unwrapped_reference;
  last_released_raw = a.last_released_raw;
  last_unwrapped_count = a.last_unwrapped_count;
  sum_q16 = pos 0;
  aggregate_count = 0;
}

unfoldable pub unwrap_sample : (raw : ℕ) → Aggregate → Aggregate × Bool
unwrap_sample raw g =
    if not g.has_unwrapped_reference
    then sum_sample raw
        (record g { last_unwrapped_count = pos raw; has_unwrapped_reference = true })
    else elim (checked_add g.last_unwrapped_count (wrapped_delta raw g.last_released_raw)) [
      | none ↦ (g, false)
      | some next ↦ sum_sample raw (record g { last_unwrapped_count = next })
    ]

unfoldable pub aggregate : Slots → Aggregate → Aggregate × Bool
aggregate [] g = (g, true)
aggregate (none ∷ slots) g = aggregate slots g
aggregate (some s ∷ slots) g =
    let skipped = aggregate slots g in
    let taken = unwrap_sample s.angle_raw g in
    let further = aggregate slots taken.0 in
    if not (is_good (some s)) then skipped else if taken.1 then further else taken

-- `/` of `int64_t`, which cuts towards zero.
abbrev pub divided : ℤ → ℕ → ℤ
divided (pos a) n = pos (a / n)
divided (negsuc a) n = neg (pos (suc a / n))

abbrev pub flag : Bool → ℕ → ℕ
flag b value = if b then value else 0

-- A difference of `uint64_t` as `int64_t`, kept within `int32_t`.
unfoldable pub lateness : ℕ → ℤ
lateness late =
    if ltb late (2 ^ 63)
    then (if ltb (2 ^ 31 - 1) late then pos (2 ^ 31 - 1) else pos late)
    else if ltb (2 ^ 31) (2 ^ 64 - late)
    then negsuc (2 ^ 31 - 1)
    else neg (pos (2 ^ 64 - late))

-- The block of a bucket before its mean. Each bit of the flags is set once.
unfoldable pub counted_block :
    (epoch_index release_timestamp_us : ℕ) → Bucket → FixedEpochAssembler → EncoderEpochBlock
counted_block epoch_index release_timestamp_us b a =
    let spe = a.samples_per_epoch in
    let start_us = a.epoch_zero_timestamp_us + epoch_index * epoch_duration_us in
    let end_us = start_us + epoch_duration_us in
    let found = b.initialized && b.epoch_index == epoch_index in
    let slots = if found then selected spe 0 b.slots else replicate spe none in
    let observed = if found then b.observed_count else 0 in
    let repeated = if found then b.repeated_count else 0 in
    let complete =
      observed == spe
      && count_if is_selected slots == spe
      && count_if is_good slots == spe
      && repeated == 0 in
    record {
      epoch_index = epoch_index;
      epoch_start_timestamp_us = start_us;
      epoch_end_timestamp_us = end_us;
      release_timestamp_us = release_timestamp_us;
      consumer_lateness_us = lateness (release_timestamp_us - end_us);
      expected_sample_count = spe;
      observed_sample_count = observed;
      actual_sample_count = observed;
      selected_sample_count = count_if is_selected slots;
      valid_sample_count = count_if is_good slots;
      repeated_sample_count = repeated;
      skipped_sample_count = count_if is_skipped slots;
      invalid_sample_count = count_if is_invalid slots;
      flags =
          flag (not (a.unreported_late_samples == 0)) 16
          + flag (not (repeated == 0)) 2
          + flag (not (count_if is_skipped slots == 0)) 4
          + flag (not (count_if is_invalid slots == 0)) 8
          + flag (not complete) 1
          + flag (not complete && epoch_index == 0) 128
          + flag (ltb (add64 end_us a.deadline_budget_us) release_timestamp_us) 32
          + flag complete 64;
      mean_unwrapped_counts_q16 = pos 0;
      slots = slots;
    }

-- The tests before anything is changed: the next epoch, before the end of the clock, and over.
unfoldable pub may_release : (epoch_index release_timestamp_us : ℕ) → FixedEpochAssembler → Bool
may_release epoch_index release_timestamp_us a =
    a.initialized
    && not (a.samples_per_epoch == 0)
    && (if a.has_released_epoch
        then epoch_index == add64 a.last_released_epoch 1
        else epoch_index == 0)
    && ltb epoch_index ((2 ^ 64 - 1 - a.epoch_zero_timestamp_us) / epoch_duration_us)
    && leb (a.epoch_zero_timestamp_us + (epoch_index + 1) * epoch_duration_us) release_timestamp_us

-- The counters of a release that succeeds.
abbrev pub released_statistics :
    (complete first : Bool) → EncoderEpochBlock → Statistics → Statistics
released_statistics complete first block s = record s {
  released_epochs = add64 s.released_epochs 1;
  repeated_samples = add64 s.repeated_samples block.repeated_sample_count;
  skipped_samples = add64 s.skipped_samples block.skipped_sample_count;
  invalid_samples = add64 s.invalid_samples block.invalid_sample_count;
  incomplete_epochs = if complete then s.incomplete_epochs else add64 s.incomplete_epochs 1;
  startup_incomplete_epochs =
      if not complete && first
      then add64 s.startup_incomplete_epochs 1
      else s.startup_incomplete_epochs;
  steady_state_incomplete_epochs =
      if not complete && not first
      then add64 s.steady_state_incomplete_epochs 1
      else s.steady_state_incomplete_epochs;
}

-- The assembler after the bucket is emptied and the block is counted.
abbrev pub sealed :
    (epoch_index : ℕ) → EncoderEpochBlock → FixedEpochAssembler → FixedEpochAssembler
sealed epoch_index block a =
    let b = bucket_at a epoch_index in
    let s = a.statistics in
    record a {
      unreported_late_samples = 0;
      buckets =
          if b.initialized && b.epoch_index == epoch_index
          then set a.buckets (epoch_index % bucket_count) empty_bucket
          else a.buckets;
      statistics = record s {
        consumer_deadline_misses =
            if block.flags / 32 % 2 == 1
            then add64 s.consumer_deadline_misses 1
            else s.consumer_deadline_misses;
      };
    }

-- The block is none where the code returns false, on an overflow of the sum after the epoch was sealed.
unfoldable pub release :
    (epoch_index release_timestamp_us : ℕ)
    → FixedEpochAssembler
    → FixedEpochAssembler × Option EncoderEpochBlock
release epoch_index release_timestamp_us a =
    let block = counted_block epoch_index release_timestamp_us (bucket_at a epoch_index) a in
    let s = sealed epoch_index block a in
    let g = aggregate block.slots (unsummed a) in
    let summed = record s {
      has_unwrapped_reference = g.0.has_unwrapped_reference;
      last_released_raw = g.0.last_released_raw;
      last_unwrapped_count = g.0.last_unwrapped_count;
    } in
    if not (may_release epoch_index release_timestamp_us a)
    then (a, none)
    else if not g.1
    then (summed, none)
    else (
      record summed {
        statistics =
            released_statistics (block.flags / 64 % 2 == 1) (epoch_index == 0) block s.statistics;
        has_released_epoch = true;
        last_released_epoch = epoch_index;
      },
      some (record block {
        mean_unwrapped_counts_q16 =
            if g.0.aggregate_count == 0 then pos 0 else divided g.0.sum_q16 g.0.aggregate_count;
      }),
    )

-- What the consumer and the encoder task call, after a reset.
pub data AssemblerCall : Type 0 where
  call_add : RawEncoderSample → AssemblerCall
  call_release : (epoch_index release_timestamp_us : ℕ) → AssemblerCall

abbrev pub with_block : Option EncoderEpochBlock → List EncoderEpochBlock → List EncoderEpochBlock
with_block none blocks = blocks
with_block (some block) blocks = block ∷ blocks

-- The three overloads of `reset`, the last with a new rate.
pub data AssemblerReset : Type 0 where
  reset_epoch : (epoch_zero_timestamp_us : ℕ) → AssemblerReset
  reset_epoch_raw : (epoch_zero_timestamp_us initial_raw : ℕ) → AssemblerReset
  reset_epoch_rate : EncoderRate → (epoch_zero_timestamp_us : ℕ) → AssemblerReset

abbrev pub resetting : AssemblerReset → FixedEpochAssembler → FixedEpochAssembler
resetting (reset_epoch t) a = reset t a
resetting (reset_epoch_raw t raw) a = reset_at t raw a
resetting (reset_epoch_rate rate t) a = reset_rate rate t a

-- The blocks of the releases that succeed, in order.
unfoldable pub blocks : List AssemblerCall → FixedEpochAssembler → List EncoderEpochBlock
blocks [] a = []
blocks (call_add sample ∷ calls) a = blocks calls (add sample a).0
blocks (call_release e t ∷ calls) a = with_block (release e t a).1 (blocks calls (release e t a).0)
