-- ===== src/Mission/Executor/Begin.antt =====
-- Which commands `begin` carries out, and that it keeps the executor valid
-- (mission/command_executor.cpp).
use avi_99l_mission_board.Base.{
  ◌≡◌, ◌↔◌, refl, Bool, true, false, not, List, [], ◌∷◌, any_of, any_of-count_if, All, arith, ◌==◌,
  ◌&&◌, ◌||◌, if◌then◌else◌,
}
use avi_99l_mission_board.Overtravel.{Guard}
use avi_99l_mission_board.Protocol.Types.{CommandReason, GenericCommandRequest}
use avi_99l_mission_board.Mission.Commands.{
  CommandDomain, CommandContext, command_known, unsupported_parachute_command, domain_for,
  arguments_valid, state_valid, is_start, blocked_by_fin_overtravel, enter_recovery,
}
use avi_99l_mission_board.Mission.Executor.{Entry, domain_index, reason_index}
use avi_99l_mission_board.Mission.Executor.Cache.{busy, cached_count}
use avi_99l_mission_board.Mission.Executor.Calls.{rejection}
use avi_99l_mission_board.Mission.Executor.Invariant.{IsSound, HasRoom, pending_count}

-- What a command needs to be carried out, beside a fresh transaction id.
pub record Permitted (g : Guard) (r : GenericCommandRequest) (c : CommandContext) (es : List Entry)
    : Type 0 where
  pub known : command_known r.command ≡ true
  pub not_retired : unsupported_parachute_command r.command ≡ false
  pub no_arguments : arguments_valid r ≡ true
  pub in_state : state_valid r.command c.state ≡ true
  pub no_overtravel : g.fault_latched ≡ true → blocked_by_fin_overtravel r.command ≡ false
  pub power_cut : r.command ≡ enter_recovery → c.deployment_power_cutoff_done ≡ true
  pub start_alone : is_start r.command ≡ true → any_of (λ e. e.pending) es ≡ false
  pub start_ready :
      is_start r.command ≡ true → (c.motor_test_busy ≡ false) × (c.resources_preallocated ≡ true)
  pub fin_ready :
      domain_for r.command ≡ CommandDomain.fin
      → (c.fin_available ≡ true) × (c.fin_safe_commands_supported ≡ true)
  pub parachute_ready :
      domain_for r.command ≡ CommandDomain.parachute
      → (c.parachute_available ≡ true) × (busy CommandDomain.sequence es ≡ false)
  pub calibration_ready :
      domain_for r.command ≡ CommandDomain.calibration
      → (c.calibration_supported ≡ true) × (c.motor_test_busy ≡ false)
  pub storage_ready :
      domain_for r.command ≡ CommandDomain.storage → c.storage_export_supported ≡ true
  pub room : HasRoom (domain_for r.command) es

-- `busy` counts the pending commands of a domain.
busy-pending_count :
    (d : CommandDomain) (es : List Entry) → (busy d es ≡ false) ↔ (pending_count d es ≡ 0)
unfolding busy
busy-pending_count d es = any_of-count_if _ es

cached_count_zero :
    (es : List Entry) → All IsSound es → cached_count es ≡ 0 → any_of (λ e. e.pending) es ≡ false
unfolding cached_count
cached_count_zero [] s h = refl
cached_count_zero (e ∷ es) s h = ground (arith, s.0, cached_count_zero es s.1)

-- A pending command makes its domain busy.
none_pending :
    (d : CommandDomain) (es : List Entry) → any_of (λ e. e.pending) es ≡ false → busy d es ≡ false
unfolding busy
none_pending d [] h = refl
none_pending d (e ∷ es) h = ground (arith, none_pending d es)

passes :
    (t : Bool) (x y : CommandReason)
    → (if t then x else y) ≡ CommandReason.none
    → reason_index x ≡ 1
    → (t ≡ false) × (y ≡ CommandReason.none)
passes t x y h other = ground arith

module _ (g : Guard) (r : GenericCommandRequest) (c : CommandContext) (es : List Entry)
    (sound : All IsSound es) where
  -- Every test of the chain has failed.
  rejection_tests :
      let code = r.command in
      let index = domain_index (domain_for code) in
      rejection g r c es ≡ CommandReason.none
      → (not (command_known code) ≡ false)
        × (unsupported_parachute_command code ≡ false)
        × (not (arguments_valid r) ≡ false)
        × (not (state_valid code c.state) ≡ false)
        × ((g.fault_latched && blocked_by_fin_overtravel code) ≡ false)
        × ((code == enter_recovery && not c.deployment_power_cutoff_done) ≡ false)
        × ((is_start code && not c.resources_preallocated) ≡ false)
        × ((index == 2 && busy CommandDomain.sequence es) ≡ false)
        × (((index == 1 && not c.fin_available) || (index == 2 && not c.parachute_available))
            ≡ false)
        × ((index == 1 && not c.fin_safe_commands_supported) ≡ false)
        × (((index == 3 && not c.calibration_supported)
              || (index == 4 && not c.storage_export_supported))
            ≡ false)
        × (busy (domain_for code) es ≡ false)
        × ((is_start code && not (cached_count es == 0) && any_of (λ e. e.pending) es) ≡ false)
        × ((is_start code
              && (busy CommandDomain.parachute es
                  || busy CommandDomain.fin es
                  || busy CommandDomain.calibration es
                  || c.motor_test_busy))
            ≡ false)
        × ((index == 3
              && (busy CommandDomain.fin es
                  || busy CommandDomain.parachute es
                  || c.motor_test_busy))
            ≡ false)
        × (((index == 1 || index == 2) && busy CommandDomain.calibration es) ≡ false)
  unfolding rejection
  rejection_tests h =
      let (t1, h1) = passes _ _ _ h refl in
      let (t2, h2) = passes _ _ _ h1 refl in
      let (t3, h3) = passes _ _ _ h2 refl in
      let (t4, h4) = passes _ _ _ h3 refl in
      let (t5, h5) = passes _ _ _ h4 refl in
      let (t6, h6) = passes _ _ _ h5 refl in
      let (t7, h7) = passes _ _ _ h6 refl in
      let (t8, h8) = passes _ _ _ h7 refl in
      let (t9, h9) = passes _ _ _ h8 refl in
      let (t10, h10) = passes _ _ _ h9 refl in
      let (t11, h11) = passes _ _ _ h10 refl in
      let (t12, h12) = passes _ _ _ h11 refl in
      let (t13, h13) = passes _ _ _ h12 refl in
      let (t14, h14) = passes _ _ _ h13 refl in
      let (t15, h15) = passes _ _ _ h14 refl in
      let (t16, h16) = passes _ _ _ h15 refl in
      (t1, t2, t3, t4, t5, t6, t8, t9, t10, t11, t12, t13, t14, t7, t15, t16)

  pub rejection-Permitted : rejection g r c es ≡ CommandReason.none → Permitted g r c es
  rejection-Permitted h =
      let (t1, t2, t3, t4, t5, t6, t8, t9, t10, t11, t12, t13, t14, t7, t15, t16) =
        rejection_tests h in
      record {
        known = ground arith;
        not_retired = t2;
        no_arguments = ground arith;
        in_state = ground arith;
        no_overtravel = λ l. ground arith;
        power_cut = λ l. ground arith;
        start_alone = λ l. ground (arith, cached_count_zero es sound);
        start_ready = λ l. (ground arith, ground arith);
        fin_ready = λ l. (ground arith, ground arith);
        parachute_ready = λ l. (ground arith, ground arith);
        calibration_ready = λ l. (ground arith, ground arith);
        storage_ready = λ l. ground arith;
        room = record {
          own = (busy-pending_count (domain_for r.command) es).0 t13;
          calibrates = λ l. (
            (busy-pending_count CommandDomain.fin es).0 (ground arith),
            (busy-pending_count CommandDomain.parachute es).0 (ground arith),
          );
          moves = λ l. (busy-pending_count CommandDomain.calibration es).0 (ground arith);
        };
      }

  pub Permitted-rejection : Permitted g r c es → rejection g r c es ≡ CommandReason.none
  unfolding rejection
  Permitted-rejection p = ground (
    arith,
    busy-pending_count (domain_for r.command) es,
    busy-pending_count CommandDomain.fin es,
    busy-pending_count CommandDomain.parachute es,
    busy-pending_count CommandDomain.calibration es,
    none_pending CommandDomain.fin es,
    none_pending CommandDomain.parachute es,
    none_pending CommandDomain.calibration es,
  )
