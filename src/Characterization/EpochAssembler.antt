-- ===== src/Characterization/EpochAssembler.antt =====
-- characterization/fixed_epoch_assembler.cpp: `FixedEpochAssembler`, which sorts the encoder's samples
-- into epochs of a millisecond and releases the epochs one after another.
pub mod Release
mod Order
mod Placement
mod Examples
use avi_99l_mission_board.Base.{
  ℕ, suc, ◌+◌, ◌-◌, ◌*◌, ◌/◌, ◌%◌, ◌≡◌, Bool, true, false, not, ◌&&◌, ◌||◌, Option, none, some,
  List, [], ◌∷◌, replicate, get_elem?, set, ltb, leb, ◌==◌, if◌then◌else◌, u8, add64, sub64,
}
use avi_99l_mission_board.Base.Int.{ℤ, pos}
use avi_99l_mission_board.Characterization.Types.{EncoderRate, hz_1000, expected_samples_per_epoch}

pub data AddResult : Type 0 where
  accepted pre_epoch already_released bucket_collision : AddResult

pub record RawEncoderSample : Type 0 where
  pub generation : ℕ
  pub scheduled_timestamp_us : ℕ
  pub capture_timestamp_us : ℕ
  pub angle_raw : ℕ
  pub diagnostic_flags : ℕ
  pub read_result_code : ℤ
  pub valid : Bool
  pub slot : ℕ

-- A slot of `samples` and its flag in `present`.
abbrev pub Slots : Type 0
Slots = List (Option RawEncoderSample)

-- `epoch_index` is that of `Bucket{}` while the bucket is not initialized.
pub record Bucket : Type 0 where
  pub initialized : Bool
  pub epoch_index : ℕ
  pub observed_count : ℕ
  pub repeated_count : ℕ
  pub slots : Slots

abbrev pub empty_bucket : Bucket
empty_bucket = record {
  initialized = false;
  epoch_index = 0;
  observed_count = 0;
  repeated_count = 0;
  slots = replicate 5 none;
}

-- The counters of `SamplerStatistics` that the assembler uses.
pub record Statistics : Type 0 where
  pub released_epochs : ℕ
  pub incomplete_epochs : ℕ
  pub bucket_collisions : ℕ
  pub pre_epoch_samples : ℕ
  pub repeated_samples : ℕ
  pub skipped_samples : ℕ
  pub invalid_samples : ℕ
  pub late_samples : ℕ
  pub startup_incomplete_epochs : ℕ
  pub steady_state_incomplete_epochs : ℕ
  pub consumer_deadline_misses : ℕ

abbrev pub no_statistics : Statistics
no_statistics = record {
  released_epochs = 0;
  incomplete_epochs = 0;
  bucket_collisions = 0;
  pre_epoch_samples = 0;
  repeated_samples = 0;
  skipped_samples = 0;
  invalid_samples = 0;
  late_samples = 0;
  startup_incomplete_epochs = 0;
  steady_state_incomplete_epochs = 0;
  consumer_deadline_misses = 0;
}

pub record FixedEpochAssembler : Type 0 where
  pub rate : EncoderRate
  pub samples_per_epoch : ℕ
  pub deadline_budget_us : ℕ
  pub epoch_zero_timestamp_us : ℕ
  pub initialized : Bool
  pub has_released_epoch : Bool
  pub last_released_epoch : ℕ
  pub has_unwrapped_reference : Bool
  pub last_released_raw : ℕ
  pub last_unwrapped_count : ℤ
  pub unreported_late_samples : ℕ
  pub buckets : List Bucket
  pub statistics : Statistics

abbrev pub epoch_duration_us : ℕ
epoch_duration_us = 1_000

abbrev pub bucket_count : ℕ
bucket_count = 8

abbrev pub new : EncoderRate → (deadline_budget_us : ℕ) → FixedEpochAssembler
new rate deadline_budget_us = record {
  rate = rate;
  samples_per_epoch = expected_samples_per_epoch rate;
  deadline_budget_us = deadline_budget_us;
  epoch_zero_timestamp_us = 0;
  initialized = false;
  has_released_epoch = false;
  last_released_epoch = 0;
  has_unwrapped_reference = false;
  last_released_raw = 0;
  last_unwrapped_count = pos 0;
  unreported_late_samples = 0;
  buckets = replicate 8 empty_bucket;
  statistics = no_statistics;
}

-- The three overloads of `reset`.
unfoldable pub reset : (epoch_zero_timestamp_us : ℕ) → FixedEpochAssembler → FixedEpochAssembler
reset epoch_zero_timestamp_us a = record a {
  epoch_zero_timestamp_us = epoch_zero_timestamp_us;
  initialized = true;
  has_released_epoch = false;
  last_released_epoch = 0;
  has_unwrapped_reference = false;
  last_released_raw = 0;
  last_unwrapped_count = pos 0;
  unreported_late_samples = 0;
  buckets = replicate 8 empty_bucket;
  statistics = no_statistics;
}

unfoldable pub reset_at :
    (epoch_zero_timestamp_us initial_raw : ℕ) → FixedEpochAssembler → FixedEpochAssembler
reset_at epoch_zero_timestamp_us initial_raw a = record (reset epoch_zero_timestamp_us a) {
  last_released_raw = initial_raw;
  last_unwrapped_count = pos initial_raw;
  has_unwrapped_reference = true;
}

unfoldable pub reset_rate :
    EncoderRate → (epoch_zero_timestamp_us : ℕ) → FixedEpochAssembler → FixedEpochAssembler
reset_rate rate epoch_zero_timestamp_us a =
    reset epoch_zero_timestamp_us
      (record a { rate = rate; samples_per_epoch = expected_samples_per_epoch rate })

-- `spe` is `samples_per_epoch_`, which is above 0 where these are called.
unfoldable pub slot_for_capture_offset : (spe offset_us : ℕ) → ℕ
slot_for_capture_offset spe offset_us =
    let slot = offset_us * spe / epoch_duration_us in if ltb slot (spe - 1) then slot else spe - 1

unfoldable pub slot_center_offset_us : (spe slot : ℕ) → ℕ
slot_center_offset_us spe slot = (2 * slot + 1) * epoch_duration_us / (2 * spe)

abbrev pub absolute_difference : ℕ → ℕ → ℕ
absolute_difference lhs rhs = if leb rhs lhs then lhs - rhs else rhs - lhs

-- The element at an index in range.
abbrev pub joined : Option (Option RawEncoderSample) → Option RawEncoderSample
joined none = none
joined (some slot) = slot

abbrev pub or_empty : Option Bucket → Bucket
or_empty none = empty_bucket
or_empty (some b) = b

unfoldable pub bucket_at : FixedEpochAssembler → ℕ → Bucket
bucket_at a epoch_index = or_empty (get_elem? a.buckets (epoch_index % bucket_count))

-- A sample takes an empty slot; in a full one it replaces a sample that is further from the center, or
-- as far and later.
unfoldable pub place_at :
    (held : Option RawEncoderSample)
    → (spe start_us offset_us slot : ℕ) → RawEncoderSample
    → Bucket
    → Bucket
place_at none spe start_us offset_us slot sample b = record b {
  observed_count = u8 (b.observed_count + 1);
  slots = set b.slots slot (some sample);
}
place_at (some held) spe start_us offset_us slot sample b =
    let repeated = record b {
      observed_count = u8 (b.observed_count + 1);
      repeated_count = u8 (b.repeated_count + 1);
    } in
    let center = slot_center_offset_us spe slot in
    let old_distance = absolute_difference (sub64 held.capture_timestamp_us start_us) center in
    let new_distance = absolute_difference offset_us center in
    if ltb new_distance old_distance
      || new_distance == old_distance && ltb sample.capture_timestamp_us held.capture_timestamp_us
    then record repeated { slots = set b.slots slot (some sample) }
    else repeated

unfoldable pub place : (spe start_us offset_us slot : ℕ) → RawEncoderSample → Bucket → Bucket
place spe start_us offset_us slot sample b =
    place_at (joined (get_elem? b.slots slot)) spe start_us offset_us slot sample b

-- The bucket for an epoch, emptied if it was not in use.
abbrev pub opened : (epoch_index : ℕ) → Bucket → Bucket
opened epoch_index b =
    if b.initialized
    then b
    else record empty_bucket { initialized = true; epoch_index = epoch_index }

unfoldable pub add : RawEncoderSample → FixedEpochAssembler → FixedEpochAssembler × AddResult
add sample a =
    let s = a.statistics in
    let relative = sample.capture_timestamp_us - a.epoch_zero_timestamp_us in
    let epoch_index = relative / epoch_duration_us in
    let offset_us = relative % epoch_duration_us in
    let b = bucket_at a epoch_index in
    if not a.initialized
      || a.samples_per_epoch == 0
      || ltb sample.capture_timestamp_us a.epoch_zero_timestamp_us
    then (
      record a { statistics = record s { pre_epoch_samples = add64 s.pre_epoch_samples 1 } },
      pre_epoch,
    )
    else if a.has_released_epoch && leb epoch_index a.last_released_epoch
    then (
      record a {
        statistics = record s { late_samples = add64 s.late_samples 1 };
        unreported_late_samples = add64 a.unreported_late_samples 1;
      },
      already_released,
    )
    else if b.initialized && not (b.epoch_index == epoch_index)
    then (
      record a { statistics = record s { bucket_collisions = add64 s.bucket_collisions 1 } },
      bucket_collision,
    )
    else (
      record a {
        buckets = set a.buckets (epoch_index % bucket_count) (
            place a.samples_per_epoch (a.epoch_zero_timestamp_us + epoch_index * epoch_duration_us)
              offset_us (slot_for_capture_offset a.samples_per_epoch offset_us) sample
              (opened epoch_index b));
      },
      accepted,
    )
