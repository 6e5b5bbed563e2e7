-- ===== src/Actuators/Parachute.antt =====
-- actuators/safety_core.cpp: `ParachuteController`, the attempt to open the parachute servo with its
-- retries and its deadline. Times are `uint64_t` microseconds, counts 16-bit words.
pub mod Attempt
use avi_99l_mission_board.Base.{
  ℕ, ◌+◌, ◌-◌, ◌*◌, ◌^◌, ◌≤◌, ◌<◌, ◌≡◌, ◌≢◌, ◌↔◌, ◌⊎◌, inl, inr, refl, Bool, true, false, not, ◌&&◌,
  ◌||◌, Option, none, some, List, [], ◌∷◌, ltb, leb, if◌then◌else◌, arith, u32,
}
use avi_99l_mission_board.Base.Int.{pos, negsuc, leb_ℤ}
use avi_99l_mission_board.Actuators.Angle.{
  AbsoluteParachuteAngle, from_canonical_count, shortest_displacement, valid,
}

pub data ParachuteAction : Type 0 where
  no_action command_open retry_open hold_open stop_retrying : ParachuteAction

pub data ParachuteOpenState : Type 0 where
  idle opening retrying open_confirmed retry_exhausted powered_off : ParachuteOpenState

pub record ParachuteTick : Type 0 where
  pub now_us : ℕ
  pub position_valid : Bool
  pub position_count : ℕ
  pub target_reached : Bool

pub record ParachuteStatus : Type 0 where
  pub state : ParachuteOpenState
  pub retry_count : ℕ
  pub servo_open_confirmed : Bool
  pub open_attempt_finished : Bool

pub record ParachuteController : Type 0 where
  pub status : ParachuteStatus
  pub started_at_us : ℕ
  pub window_started_at_us : ℕ
  pub window_position_count : ℕ

abbrev pub idle_status : ParachuteStatus
idle_status = record {
  state = idle;
  retry_count = 0;
  servo_open_confirmed = false;
  open_attempt_finished = false;
}

abbrev pub new : ParachuteController
new = record {
  status = idle_status;
  started_at_us = 0;
  window_started_at_us = 0;
  window_position_count = 0;
}

abbrev pub progress_window_us : ℕ
progress_window_us = 500_000

abbrev pub global_deadline_us : ℕ
global_deadline_us = 5_000_000

-- `kMinimumProgressCount` is 23, and `negsuc 22` is -23.
abbrev pub minimum_progress_count : ℕ
minimum_progress_count = 23

abbrev pub is_idle : ParachuteOpenState → Bool
is_idle idle = true
is_idle _ = false

abbrev pub is_trying : ParachuteOpenState → Bool
is_trying opening = true
is_trying retrying = true
is_trying _ = false

abbrev pub has_value : Option AbsoluteParachuteAngle → Bool
has_value none = false
has_value (some a) = true

unfoldable pub start_open : ℕ → ℕ → ParachuteController → ParachuteController × ParachuteAction
unfolding from_canonical_count
start_open now_us initial_position_count p =
    if not (has_value (from_canonical_count initial_position_count)) || not (is_idle p.status.state)
    then (p, no_action)
    else (
      record {
        status = record idle_status { state = opening };
        started_at_us = now_us;
        window_started_at_us = now_us;
        window_position_count = initial_position_count;
      },
      command_open,
    )

-- Whether the servo moved by at least 23 counts between two valid positions.
unfoldable pub progressed :
    Bool → Option AbsoluteParachuteAngle → Option AbsoluteParachuteAngle → Bool
unfolding shortest_displacement
progressed position_valid (some previous) (some current) =
    position_valid
    && (let d = shortest_displacement previous current in
        valid d && (leb_ℤ (pos minimum_progress_count) d.counts || leb_ℤ d.counts (negsuc 22)))
progressed _ _ _ = false

-- The end of a progress window.
unfoldable pub close_window :
    ParachuteTick → ParachuteController → ParachuteController × ParachuteAction
close_window input p =
    let current = from_canonical_count input.position_count in
    let q : ParachuteController = record p {
      window_started_at_us = input.now_us;
      window_position_count =
          if input.position_valid && has_value current
          then input.position_count
          else p.window_position_count;
    } in
    if progressed input.position_valid (from_canonical_count p.window_position_count) current
    then (q, no_action)
    else (
      record q {
        status = record q.status { state = retrying; retry_count = u32 (q.status.retry_count + 1) };
      },
      retry_open,
    )

unfoldable pub tick : ParachuteTick → ParachuteController → ParachuteController × ParachuteAction
tick input p =
    if not (is_trying p.status.state)
    then (p, no_action)
    else if ltb input.now_us p.started_at_us
        || leb global_deadline_us (input.now_us - p.started_at_us)
    then (
      record p {
        status = record p.status { state = retry_exhausted; open_attempt_finished = true };
      },
      stop_retrying,
    )
    else if input.target_reached && input.position_valid
    then (
      record p {
        status = record p.status {
          state = open_confirmed;
          servo_open_confirmed = true;
          open_attempt_finished = true;
        };
      },
      hold_open,
    )
    else if ltb input.now_us p.window_started_at_us
        || ltb (input.now_us - p.window_started_at_us) progress_window_us
    then (p, no_action)
    else close_window input p

unfoldable pub notify_power_cutoff : ParachuteController → ParachuteController
notify_power_cutoff p = record p { status = record p.status { state = powered_off } }
