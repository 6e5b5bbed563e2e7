-- ===== src/Actuators/Parachute/Attempt.antt =====
-- The opening attempt as a whole: its retries are few and it ends (actuators/safety_core.cpp).
use avi_99l_mission_board.Base.{ℕ, ◌+◌, ◌*◌, ◌≤◌, ◌<◌, ◌≡◌, ◌⊎◌, true, false, List, [], ◌∷◌, arith}
use avi_99l_mission_board.Actuators.Parachute.{
  ParachuteTick, idle, open_confirmed, retry_exhausted, ParachuteController, new, is_trying,
  start_open, tick, close_window, notify_power_cutoff,
}

pub record OnSchedule (p : ParachuteController) : Type 0 where
  pub window_after :
      is_trying p.status.state ≡ true
      → p.started_at_us + p.status.retry_count * 500_000 ≤ p.window_started_at_us
  pub window_early :
      is_trying p.status.state ≡ true → p.window_started_at_us < p.started_at_us + 5_000_000
  pub few_retries : p.status.retry_count ≤ 9
  pub unfinished : is_trying p.status.state ≡ true → p.status.open_attempt_finished ≡ false
  pub confirmed : p.status.servo_open_confirmed ≡ true → p.status.open_attempt_finished ≡ true
  pub outcome :
      (p.status.state ≡ open_confirmed) ⊎ (p.status.state ≡ retry_exhausted)
      → p.status.open_attempt_finished ≡ true

start_open-OnSchedule :
    (now_us count : ℕ) (p : ParachuteController)
    → OnSchedule p
    → OnSchedule (start_open now_us count p).0
unfolding start_open
start_open-OnSchedule now_us count p s = ground arith

close_window-OnSchedule :
    (input : ParachuteTick) (p : ParachuteController)
    → OnSchedule p
    → is_trying p.status.state ≡ true
    → p.window_started_at_us + 500_000 ≤ input.now_us
    → input.now_us < p.started_at_us + 5_000_000
    → OnSchedule (close_window input p).0
unfolding close_window
close_window-OnSchedule input p s t late early = ground arith

tick-OnSchedule :
    (input : ParachuteTick) (p : ParachuteController) → OnSchedule p → OnSchedule (tick input p).0
unfolding tick
tick-OnSchedule input p s = ground (arith, close_window-OnSchedule input p s)

notify-OnSchedule : (p : ParachuteController) → OnSchedule p → OnSchedule (notify_power_cutoff p)
unfolding notify_power_cutoff
notify-OnSchedule p s = ground arith

pub data ParachuteCall : Type 0 where
  starts : ℕ → ℕ → ParachuteCall
  ticks : ParachuteTick → ParachuteCall
  cuts : ParachuteCall

unfoldable pub parachute_call : ParachuteCall → ParachuteController → ParachuteController
parachute_call (starts now_us count) p = (start_open now_us count p).0
parachute_call (ticks input) p = (tick input p).0
parachute_call cuts p = notify_power_cutoff p

unfoldable pub parachute_calls : List ParachuteCall → ParachuteController → ParachuteController
parachute_calls [] p = p
parachute_calls (c ∷ cs) p = parachute_calls cs (parachute_call c p)

calls-OnSchedule :
    (cs : List ParachuteCall) (p : ParachuteController)
    → OnSchedule p
    → OnSchedule (parachute_calls cs p)
unfolding parachute_calls parachute_call
calls-OnSchedule [] p s = s
calls-OnSchedule (starts now_us count ∷ cs) p s =
    calls-OnSchedule cs _ (start_open-OnSchedule now_us count p s)
calls-OnSchedule (ticks input ∷ cs) p s = calls-OnSchedule cs _ (tick-OnSchedule input p s)
calls-OnSchedule (cuts ∷ cs) p s = calls-OnSchedule cs _ (notify-OnSchedule p s)

-- After any calls since boot, at whatever times: while the servo is trying to open, each retry took
-- a window of 500 ms and the current window began less than 5 s after the start, so that there are
-- never more than nine retries; an attempt that goes on is not marked finished, a confirmed one is,
-- and so is one that was confirmed or exhausted its retries.
pub calls-new-OnSchedule : (cs : List ParachuteCall) → OnSchedule (parachute_calls cs new)
calls-new-OnSchedule cs = calls-OnSchedule cs new (ground arith)

-- The outcome of an attempt.
abbrev pub Ended : ParachuteController → Type 0
Ended p =
    ((p.status.state ≡ open_confirmed) ⊎ (p.status.state ≡ retry_exhausted))
    × (p.status.open_attempt_finished ≡ true)

abbrev Underway : ℕ → ParachuteController → Type 0
Underway start p = ((is_trying p.status.state ≡ true) × (p.started_at_us ≡ start)) ⊎ Ended p

close_window_underway :
    (input : ParachuteTick) (p : ParachuteController)
    → is_trying p.status.state ≡ true
    → (is_trying (close_window input p).0.status.state ≡ true)
      × ((close_window input p).0.started_at_us ≡ p.started_at_us)
unfolding close_window
close_window_underway input p t = ground arith

tick-Underway :
    (input : ParachuteTick) (p : ParachuteController) (start : ℕ)
    → Underway start p
    → Underway start (tick input p).0
unfolding tick
tick-Underway input p start u = ground (arith, close_window_underway input p)

tick_late :
    (input : ParachuteTick) (p : ParachuteController) (start : ℕ)
    → Underway start p
    → start + 5_000_000 ≤ input.now_us
    → Ended (tick input p).0
unfolding tick
tick_late input p start u late = ground arith

pub ticks_from : List ParachuteTick → ParachuteController → ParachuteController
ticks_from [] p = p
ticks_from (input ∷ inputs) p = ticks_from inputs (tick input p).0

ticks-Underway :
    (inputs : List ParachuteTick) (p : ParachuteController) (start : ℕ)
    → Underway start p
    → Underway start (ticks_from inputs p)
unfolding ticks_from
ticks-Underway [] p start u = u
ticks-Underway (input ∷ inputs) p start u =
    ticks-Underway inputs (tick input p).0 start (tick-Underway input p start u)

started-Underway :
    (now_us count : ℕ) (p : ParachuteController)
    → p.status.state ≡ idle
    → count < 4096
    → Underway now_us (start_open now_us count p).0
unfolding start_open
started-Underway now_us count p i c = ground arith

-- An attempt always ends: after a start from idle at a position on the circle and any ticks at all, a
-- tick 5 s after the start or later leaves the servo confirmed open or its retries exhausted, and the
-- attempt finished.
pub attempt_ends :
    (now_us count : ℕ) (p : ParachuteController) (inputs : List ParachuteTick)
    (last : ParachuteTick)
    → p.status.state ≡ idle
    → count < 4096
    → now_us + 5_000_000 ≤ last.now_us
    → Ended (tick last (ticks_from inputs (start_open now_us count p).0)).0
attempt_ends now_us count p inputs last i c late =
    tick_late last (ticks_from inputs (start_open now_us count p).0) now_us
      (ticks-Underway inputs (start_open now_us count p).0 now_us
        (started-Underway now_us count p i c))
      late
