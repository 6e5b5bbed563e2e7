-- ===== src/Characterization/EpochAssembler/Examples.antt =====
-- characterization/fixed_epoch_assembler.cpp: the theorems at work on two epochs.
use avi_99l_mission_board.Base.{ℕ, ◌≡◌, refl, map, true, List, [], ◌∷◌, All}
use avi_99l_mission_board.Base.Int.{ℤ, pos, negsuc}
use avi_99l_mission_board.Characterization.Types.{hz_1000, expected_samples_per_epoch}
use avi_99l_mission_board.Characterization.EpochAssembler.{
  RawEncoderSample, new, add, reset, bucket_at, place, place_at, slot_for_capture_offset,
  slot_center_offset_us,
}
use avi_99l_mission_board.Characterization.EpochAssembler.Release.{
  EncoderEpochBlock, AssemblerCall, AssemblerReset, reset_epoch_raw, resetting, call_add,
  call_release, blocks, release, may_release, aggregate, counted_block, selected, unwrap_sample,
  checked_q16, checked_add, wrapped_delta, lateness,
}
use avi_99l_mission_board.Characterization.EpochAssembler.Placement.{
  SamplesWithin, released-SamplesWithin,
}
use avi_99l_mission_board.Characterization.EpochAssembler.Order.{
  Consecutive, released_epochs-Consecutive,
}

abbrev sample_at : (t raw : ℕ) → RawEncoderSample
sample_at t raw = record {
  generation = 1;
  scheduled_timestamp_us = t;
  capture_timestamp_us = t;
  angle_raw = raw;
  diagnostic_flags = 0;
  read_result_code = pos 0;
  valid = true;
  slot = 0;
}

-- The second epoch is asked for early, and the first one twice.
abbrev two_epochs : List AssemblerCall
two_epochs =
    call_add (sample_at 5_400 100)
    ∷ call_add (sample_at 6_500 16_300)
    ∷ call_release 1 7_000
    ∷ call_release 0 6_010
    ∷ call_release 0 6_020
    ∷ call_release 1 7_000
    ∷ []

-- Each epoch's index and the mean of its angle, unwrapped over the end of the scale.
abbrev means : List EncoderEpochBlock → List (ℕ × ℤ)
means blocks =
    map (λ (block : EncoderEpochBlock). (block.epoch_index, block.mean_unwrapped_counts_q16)) blocks

two_epochs_lem :
    means (blocks two_epochs (reset 5_000 (new hz_1000 100)))
    ≡ (0, pos 6_553_600) ∷ (1, negsuc 5_505_023) ∷ []
unfolding blocks release may_release add reset expected_samples_per_epoch bucket_at aggregate
    counted_block place place_at slot_for_capture_offset selected unwrap_sample checked_q16
    checked_add wrapped_delta lateness slot_center_offset_us
two_epochs_lem = refl

-- The runner's reset, with the raw angle of the start.
abbrev from_start : AssemblerReset
from_start = reset_epoch_raw 5_000 16_200

released-SamplesWithin_example :
    All SamplesWithin (blocks two_epochs (resetting from_start (new hz_1000 100)))
released-SamplesWithin_example = released-SamplesWithin two_epochs from_start (new hz_1000 100)

released_epochs-Consecutive_example :
    Consecutive 0 (blocks two_epochs (resetting from_start (new hz_1000 100)))
released_epochs-Consecutive_example =
    released_epochs-Consecutive two_epochs from_start (new hz_1000 100)
