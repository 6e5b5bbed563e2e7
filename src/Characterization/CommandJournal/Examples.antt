-- ===== src/Characterization/CommandJournal/Examples.antt =====
-- A driver that keeps a list of its requests.
use avi_99l_mission_board.Base.{ℕ, ◌+◌, ◌≡◌, refl, true, List, [], ◌∷◌, All}
use avi_99l_mission_board.Base.Int.{pos, is_zero}
use avi_99l_mission_board.Characterization.Types.{
  MotorCommandRequest, drive_in2, motor_mode_matches_command,
}
use avi_99l_mission_board.Characterization.Requests.{is_proper}
use avi_99l_mission_board.Characterization.CommandJournal.{
  EspErr, esp_ok, CommandJournal, new, apply,
}
use avi_99l_mission_board.Characterization.CommandJournal.Safety.{
  JournalCall, binds, arms, disarms, applies, rejects, journal_calls, IsSafe, calls-new-IsSafe,
}
use avi_99l_mission_board.Characterization.CommandJournal.Sent.{
  is_coast, driver_gets_valid, unarmed_driver_coasts,
}
use avi_99l_mission_board.Characterization.CommandJournal.Outcome.{Comes, apply_lem, apply-apply}

abbrev Requests : Type 0
Requests = List MotorCommandRequest

-- Each request takes five microseconds.
abbrev driver : Requests → MotorCommandRequest → ℕ → Requests × EspErr × ℕ
driver log request now_us = (request ∷ log, esp_ok, now_us + 5)

abbrev drive : MotorCommandRequest
drive = record { command_permille = pos 300; mode = drive_in2 }

abbrev calls : List JournalCall
calls =
    binds true ∷ arms ∷ applies drive 100 ∷ applies drive 200 ∷ disarms 300 ∷ applies drive 400 ∷ []

abbrev ready : CommandJournal
ready = record new { bound = true; armed = true }

calls-new-IsSafe_example : IsSafe driver (journal_calls driver calls (new, [])).0
calls-new-IsSafe_example = calls-new-IsSafe driver calls []

abbrev AllProper : Requests → Type 0
AllProper = All (λ r. is_proper r ≡ true)

driver_gets_valid_example : AllProper (journal_calls driver calls (new, [])).1
driver_gets_valid_example =
    driver_gets_valid driver AllProper (λ request now_us log v p. (v, p)) calls new [] tt

abbrev unarmed_calls : List JournalCall
unarmed_calls = binds true ∷ applies drive 100 ∷ rejects drive (pos 5) 200 ∷ []

unarmed_driver_coasts_example :
    All (λ r. is_coast r ≡ true) (journal_calls driver unarmed_calls (new, [])).1
unarmed_driver_coasts_example =
    unarmed_driver_coasts driver (All (λ r. is_coast r ≡ true)) (λ request now_us log v p. (v, p))
      unarmed_calls new [] refl refl tt

apply_lem_example : Comes driver drive 100 ready [] (apply driver drive 100 ready [])
apply_lem_example = apply_lem driver drive 100 ready []

applied_ok : is_zero (apply driver drive 100 ready []).2 ≡ true
unfolding apply motor_mode_matches_command
applied_ok = refl

apply-apply_example :
    let r = apply driver drive 100 ready [] in apply driver drive 200 r.1 r.0 ≡ (r.0, r.1, esp_ok)
apply-apply_example = apply-apply driver drive 100 200 ready [] refl applied_ok
