-- ===== src/Runtime/RecoveryBoot/Audit.antt =====
-- runtime/recovery_boot.cpp: the audit of the readiness at the start, over a reset.
use avi_99l_mission_board.Base.{ℕ, ◌≡◌, ◌≢◌, refl, Bool, true, false, some, ◌==◌, arith}
use avi_99l_mission_board.Mission.Snapshot.{PreflightReadinessSnapshot, ready_mask, missing_mask}
use avi_99l_mission_board.Runtime.RecoveryBoot.{
  start_readiness_audit_checksum, valid_start_readiness_audit, store_start_readiness_audit,
  reset_preserves_rtc_memory, load_start_readiness_audit,
}
use avi_99l_mission_board.Runtime.RecoveryBoot.Masks.{start_masks}

eq_refl : (n : ℕ) → (n == n) ≡ true
eq_refl n = ground arith

audit_valid :
    (r : PreflightReadinessSnapshot) (forced : Bool)
    → r.generation ≢ 0
    → valid_start_readiness_audit (store_start_readiness_audit r forced) ≡ true
unfolding valid_start_readiness_audit store_start_readiness_audit start_readiness_audit_checksum
audit_valid r forced g =
    let generation : (r.generation == 0) ≡ false = ground arith in
    rw (generation, start_masks r, eq_refl) refl

-- The audit of any readiness that has a generation is loaded as it was stored after a reset that keeps
-- the RTC memory.
pub store-load_start_readiness_audit :
    (esp_rst_poweron esp_rst_deepsleep reason : ℕ) (r : PreflightReadinessSnapshot) (forced : Bool)
    → r.generation ≢ 0
    → reset_preserves_rtc_memory esp_rst_poweron esp_rst_deepsleep reason ≡ true
    → load_start_readiness_audit esp_rst_poweron esp_rst_deepsleep reason
        (store_start_readiness_audit r forced)
      ≡ some (record {
        valid = true;
        forced = forced;
        generation = r.generation;
        captured_at_us = r.captured_at_us;
        ready_mask = ready_mask r;
        missing_mask = missing_mask r;
      })
unfolding load_start_readiness_audit store_start_readiness_audit
store-load_start_readiness_audit esp_rst_poweron esp_rst_deepsleep reason r forced g kept =
    rw (kept, audit_valid r forced g) refl
