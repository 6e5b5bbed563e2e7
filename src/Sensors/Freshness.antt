-- ===== src/Sensors/Freshness.antt =====
-- sensors/sensor_health.hpp: `FreshSample`, a value with the time and the health of its source.
use avi_99l_mission_board.Base.{
  ℕ, ◌+◌, ◌-◌, ◌≤◌, ◌≡◌, ◌↔◌, Bool, true, false, not, ◌||◌, ltb, if◌then◌else◌, arith,
}

pub data AvailabilityReason : Type 0 where
  available not_initialized powered_off unhealthy no_valid_sample stale calibration_missing :
      AvailabilityReason

pub record FreshSample {ℓ} (T : Type ℓ) : Type ℓ where
  pub value : T
  pub timestamp_us : ℕ
  pub initialized : Bool
  pub powered : Bool
  pub healthy : Bool
  pub have_value : Bool

module _ {ℓ} {T : Type ℓ} where
  -- `FreshSample{}`, of which `initial` is the value `T{}`.
  abbrev pub new : T → FreshSample T
  new initial = record {
    value = initial;
    timestamp_us = 0;
    initialized = false;
    powered = true;
    healthy = false;
    have_value = false;
  }

  unfoldable pub publish : T → ℕ → FreshSample T → FreshSample T
  publish value timestamp_us s = record s {
    value = value;
    timestamp_us = timestamp_us;
    have_value = true;
  }

  abbrev pub set_initialized : Bool → FreshSample T → FreshSample T
  set_initialized initialized s = record s { initialized = initialized }

  abbrev pub set_powered : Bool → FreshSample T → FreshSample T
  set_powered powered s = record s { powered = powered }

  abbrev pub set_healthy : Bool → FreshSample T → FreshSample T
  set_healthy healthy s = record s { healthy = healthy }

  unfoldable pub availability : ℕ → ℕ → FreshSample T → AvailabilityReason
  availability now_us freshness_us s =
      if not s.initialized
      then not_initialized
      else if not s.powered
      then powered_off
      else if not s.healthy
      then unhealthy
      else if not s.have_value
      then no_valid_sample
      else if ltb now_us s.timestamp_us || ltb freshness_us (now_us - s.timestamp_us)
      then stale
      else available

  -- A sample that is published by an initialized, powered and healthy sensor is available from its
  -- timestamp on for exactly the time of its freshness.
  pub published_available_iff :
      (value : T) (timestamp_us now_us freshness_us : ℕ) (s : FreshSample T)
      → s.initialized ≡ true
      → s.powered ≡ true
      → s.healthy ≡ true
      → (availability now_us freshness_us (publish value timestamp_us s) ≡ available)
        ↔ ((timestamp_us ≤ now_us) × (now_us ≤ timestamp_us + freshness_us))
  unfolding availability publish
  published_available_iff value timestamp_us now_us freshness_us s i p h =
      (ground arith, ground arith)
