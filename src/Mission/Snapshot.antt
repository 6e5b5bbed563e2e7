-- ===== src/Mission/Snapshot.antt =====
-- mission/mission_state.hpp: the data of the flight state machine. Times are `uint64_t`
-- microseconds, epochs and generations `uint32_t`, masks and sequences `uint8_t`.
use avi_99l_mission_board.Base.{ℕ, ◌+◌, ◌-◌, ◌==◌, Bool, false, not, ◌&&◌, if◌then◌else◌}
use avi_99l_mission_board.Double.{Double, zero_double, is_finite}
use avi_99l_mission_board.Protocol.Types.{MissionState, command_receive}

pub data FinDirective : Type 0 where
  free brake zero_hold roll_control : FinDirective

pub data ParaDirective : Type 0 where
  hold «open» powered_off : ParaDirective

pub data StartMode : Type 0 where
  normal forced : StartMode

pub data TransitionResult : Type 0 where
  completed invalid_state not_configured runtime_unavailable : TransitionResult

pub record PreflightReadinessSnapshot : Type 0 where
  pub generation : ℕ
  pub captured_at_us : ℕ
  pub fin_zero_configured : Bool
  pub motor_profile_valid : Bool
  pub gyro_bias_valid : Bool
  pub gravity_reference_valid : Bool
  pub ssc_zero_valid : Bool
  pub resources_preallocated : Bool

abbrev bit_of : Bool → ℕ → ℕ
bit_of b value = if b then value else 0

-- The five bits are distinct, so that their union is their sum.
unfoldable pub ready_mask : PreflightReadinessSnapshot → ℕ
ready_mask r =
    bit_of r.fin_zero_configured 1
    + bit_of r.motor_profile_valid 2
    + bit_of r.gyro_bias_valid 4
    + bit_of r.gravity_reference_valid 8
    + bit_of r.ssc_zero_valid 16

-- `~mask & 0x1F`, for a mask of at most these five bits.
unfoldable pub missing_mask : PreflightReadinessSnapshot → ℕ
unfolding ready_mask
missing_mask r = 31 - ready_mask r

unfoldable pub normal_ready : PreflightReadinessSnapshot → Bool
unfolding missing_mask
normal_ready r = r.resources_preallocated && (missing_mask r == 0)

pub record ControlAvailability : Type 0 where
  pub fin_control_available : Bool
  pub fin_zero_hold_valid : Bool
  pub attitude_valid : Bool
  pub airspeed_above_60 : Bool
  pub lps_available : Bool
  pub ssc_available : Bool
  pub gyro_bias_valid : Bool
  pub ssc_zero_valid : Bool
  pub roll_estimate_liftoff_relative_unwrapped_rad : Double
  pub roll_estimator_timestamp_us : ℕ
  pub attitude_fresh : Bool

unfoldable pub ready : ControlAvailability → Bool
ready c =
    c.fin_control_available
    && c.fin_zero_hold_valid
    && c.attitude_valid
    && c.airspeed_above_60
    && c.lps_available
    && c.ssc_available
    && c.gyro_bias_valid
    && c.ssc_zero_valid
    && c.attitude_fresh
    && is_finite c.roll_estimate_liftoff_relative_unwrapped_rad
    && not (c.roll_estimator_timestamp_us == 0)

pub record MissionTickInput : Type 0 where
  pub monotonic_us : ℕ
  pub liftoff_detected : Bool
  pub deployment_pressure_condition : Bool
  pub control : ControlAvailability
  pub control_tick : ℕ

pub record SafetyRequest : Type 0 where
  pub flight_epoch : ℕ
  pub deploy : Bool
  pub absolute_power_cutoff : Bool

-- `SafetyRequest{}`: nothing is asked, and epoch 0 is no flight's.
abbrev pub no_request : SafetyRequest
no_request = record { flight_epoch = 0; deploy = false; absolute_power_cutoff = false }

pub record MissionSnapshot : Type 0 where
  pub state : MissionState
  pub flight_epoch : ℕ
  pub liftoff_time_valid : Bool
  pub liftoff_time_us : ℕ
  pub elapsed_us : ℕ
  pub fin_control_disabled : Bool
  pub control_reentry_inhibited : Bool
  pub reset_invalidated : Bool
  pub deployment_started : Bool
  pub deployment_power_cutoff_latched : Bool
  pub forced_start : Bool
  pub preflight_generation : ℕ
  pub preflight_captured_at_us : ℕ
  pub preflight_ready_mask : ℕ
  pub preflight_missing_mask : ℕ
  pub control_roll_reference_unwrapped_rad : Double
  pub control_roll_reference_capture_tick : ℕ
  pub control_roll_reference_estimator_timestamp_us : ℕ
  pub control_roll_reference_capture_event_sequence : ℕ
  pub control_roll_reference_valid : Bool
  pub fin : FinDirective
  pub parachute : ParaDirective

-- `MissionSnapshot{}`.
abbrev pub empty_snapshot : MissionSnapshot
empty_snapshot = record {
  state = command_receive;
  flight_epoch = 0;
  liftoff_time_valid = false;
  liftoff_time_us = 0;
  elapsed_us = 0;
  fin_control_disabled = false;
  control_reentry_inhibited = false;
  reset_invalidated = false;
  deployment_started = false;
  deployment_power_cutoff_latched = false;
  forced_start = false;
  preflight_generation = 0;
  preflight_captured_at_us = 0;
  preflight_ready_mask = 0;
  preflight_missing_mask = 0;
  control_roll_reference_unwrapped_rad = zero_double;
  control_roll_reference_capture_tick = 0;
  control_roll_reference_estimator_timestamp_us = 0;
  control_roll_reference_capture_event_sequence = 0;
  control_roll_reference_valid = false;
  fin = brake;
  parachute = hold;
}

pub record ResetCheckpoint : Type 0 where
  pub valid : Bool
  pub state : MissionState
  pub flight_epoch : ℕ
  pub elapsed_valid : Bool
  pub elapsed_us : ℕ
  pub deployment_started : Bool
  pub power_cutoff_latched : Bool
  pub forced_start : Bool
  pub preflight_generation : ℕ
  pub preflight_captured_at_us : ℕ
  pub preflight_ready_mask : ℕ
  pub preflight_missing_mask : ℕ
