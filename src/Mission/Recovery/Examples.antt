-- ===== src/Mission/Recovery/Examples.antt =====
-- Boots into recovery and out of a flight (mission/recovery.cpp).
use avi_99l_mission_board.Base.{◌≡◌, ◌≢◌, ◌⊎◌, true, false, ◌||◌, List, [], ◌∷◌, any_of}
use avi_99l_mission_board.Mission.Recovery.{inactive, transfer_in_progress, may_enter_deep_sleep}
use avi_99l_mission_board.Mission.Recovery.Paths.{
  RecoveryCall, requests, flushes, begins, wakes, recovery_calls, is_valid_wake, is_flush,
  recovery_calls_justified,
}

abbrev transferring : List RecoveryCall
transferring = requests ∷ flushes ∷ wakes true true ∷ begins ∷ []

recovery_calls_justified_example :
    ((recovery_calls transferring inactive ≢ transfer_in_progress)
      ⊎ (any_of is_valid_wake transferring ≡ true))
    × ((may_enter_deep_sleep (recovery_calls transferring inactive) ≡ false)
        ⊎ ((any_of is_valid_wake transferring || any_of is_flush transferring) ≡ true))
recovery_calls_justified_example = recovery_calls_justified transferring
