-- ===== src/Mission/Executor/Once.antt =====
-- `begin`: a command runs at most once, and the executor stays valid
-- (mission/command_executor.cpp).
use avi_99l_mission_board.Base.{
  ℕ, zero, suc, ◌+◌, ◌≡◌, ◌≢◌, ◌↔◌, refl, ◌⊎◌, inl, inr, Bool, true, false, List, [], ◌∷◌, none,
  some, get_elem?, set, arith, Option-cases, Bool-cases, subst, sym, ap, ◌∙◌, u32,
}
use native.Mathlib.Decide.{ℕ_discrete}
use avi_99l_mission_board.Overtravel.{Guard}
use avi_99l_mission_board.Protocol.Types.{CommandPhase, CommandReason, GenericCommandRequest}
use avi_99l_mission_board.Mission.Commands.{CommandContext, domain_for}
use avi_99l_mission_board.Mission.Executor.{
  Entry, CommandExecutor, CommandDecision, result_for, same_request, same_bytes,
}
use avi_99l_mission_board.Mission.Executor.Cache.{find, has_id, remember, stored_entry}
use avi_99l_mission_board.Mission.Executor.Calls.{rejection, decide, begin, repeat, recovered}
use avi_99l_mission_board.Mission.Executor.Invariant.{
  IsSound, IsValid, HasRoom, find_none-id_count, set-IsValid, remember_writes,
}
use avi_99l_mission_board.Mission.Executor.Begin.{
  Permitted, rejection-Permitted, Permitted-rejection,
}

abbrev pub reason_none : CommandReason
reason_none = CommandReason.none

-- The decision on a fresh request: accepted and remembered as pending, or rejected and remembered
-- as completed.
abbrev pub Decided :
    GenericCommandRequest
    → CommandExecutor
    → CommandReason
    → CommandExecutor × CommandDecision
    → Type 0
Decided r ex reason (ex', d) =
    ((reason ≡ reason_none)
      × (ex'
          ≡ remember r (result_for r CommandPhase.accepted reason_none) true (domain_for r.command)
              ex)
      × (d ≡ record {
        result = result_for r CommandPhase.accepted reason_none;
        execute = true;
        replay = false;
        domain = domain_for r.command;
      }))
    ⊎ ((reason ≢ reason_none)
        × (ex'
            ≡ remember r (result_for r CommandPhase.rejected reason) false (domain_for r.command)
                ex)
        × (d ≡ record {
          result = result_for r CommandPhase.rejected reason;
          execute = false;
          replay = false;
          domain = domain_for r.command;
        }))

module _ (r : GenericCommandRequest) (c : CommandContext) where
  pub decide-Decided :
      (g : Guard) (ex : CommandExecutor)
      → Decided r ex (rejection g r c ex.entries) (decide g r c ex)
  unfolding decide
  decide-Decided g ex = go (rejection g r c ex.entries)
    where
      go :
          (reason : CommandReason)
          → Decided r ex reason (elim reason [
            | CommandReason.none ↦ (
              remember r
                  (result_for r CommandPhase.accepted reason_none)
                  true
                  (domain_for r.command)
                  ex,
              record {
                result = result_for r CommandPhase.accepted reason_none;
                execute = true;
                replay = false;
                domain = domain_for r.command;
              },
            )
            | other ↦ (
              remember r (result_for r CommandPhase.rejected other) false (domain_for r.command) ex,
              record {
                result = result_for r CommandPhase.rejected other;
                execute = false;
                replay = false;
                domain = domain_for r.command;
              },
            )
          ])
      go CommandReason.none = inl (refl, refl, refl)
      go _ = inr (λ e. cc, refl, refl)

  module _ (g : Guard) (ex : CommandExecutor) where
    pub begin_zero : r.transaction_id ≡ 0 → (begin r c g ex).executor ≡ ex
    unfolding begin
    begin_zero z = ground arith

    pub begin_known :
        {e : Entry}
        → r.transaction_id ≢ 0
        → find r.transaction_id ex.entries ≡ some e
        → begin r c g ex ≡ record { guard = g; executor = ex; answer = repeat r e }
    unfolding begin
    begin_known nz h = ground arith

    pub begin_fresh :
        r.transaction_id ≢ 0
        → find r.transaction_id ex.entries ≡ none
        → begin r c g ex ≡ (
            let (ex', d) = decide (recovered c g) r c ex in
            record { guard = recovered c g; executor = ex'; answer = d })
    unfolding begin
    begin_fresh nz h = ground arith

  fresh_entry-IsSound :
      (phase : CommandPhase) (reason : CommandReason) (pending : Bool) (age : ℕ)
      → r.transaction_id ≢ 0
      → (pending ≡ true → phase ≡ CommandPhase.accepted)
      → (pending ≡ false → phase ≢ CommandPhase.accepted)
      → IsSound (stored_entry r (result_for r phase reason) pending (domain_for r.command) age)
  fresh_entry-IsSound phase reason pending age nz opens closes = ground arith

  remember-IsValid :
      (phase : CommandPhase) (reason : CommandReason) (pending : Bool) (ex : CommandExecutor)
      → IsValid ex
      → r.transaction_id ≢ 0
      → find r.transaction_id ex.entries ≡ none
      → (pending ≡ true → phase ≡ CommandPhase.accepted)
      → (pending ≡ false → phase ≢ CommandPhase.accepted)
      → (pending ≡ true → HasRoom (domain_for r.command) ex.entries)
      → IsValid (remember r (result_for r phase reason) pending (domain_for r.command) ex)
  remember-IsValid phase reason pending ex v nz fresh opens closes room =
      let (i, free, written) =
        remember_writes r (result_for r phase reason) pending (domain_for r.command) ex v in
      subst IsValid (sym written) (
        set-IsValid ex i _ free (u32 (ex.age + 1)) v
          (fresh_entry-IsSound phase reason pending (u32 (ex.age + 1)) nz opens closes)
          (find_none-id_count r.transaction_id ex.entries fresh) room)

  decide-IsValid :
      (g : Guard) (ex : CommandExecutor)
      → IsValid ex
      → r.transaction_id ≢ 0
      → find r.transaction_id ex.entries ≡ none
      → IsValid (decide g r c ex).0
  decide-IsValid g ex v nz fresh = elim (decide-Decided g ex) [
    | inl (passed, kept, answer) ↦ subst IsValid (sym kept) (
        remember-IsValid CommandPhase.accepted reason_none true ex v nz fresh (λ _. refl) (λ e. cc)
          (λ _. (rejection-Permitted g r c ex.entries v.sound passed).room))
    | inr (refused, kept, answer) ↦ subst IsValid (sym kept) (
        remember-IsValid CommandPhase.rejected (rejection g r c ex.entries) false ex v nz fresh
          (λ e. cc) (λ _ e. cc) (λ e. cc))
  ]

  -- Every request keeps the executor valid: sixteen entries, no transaction id twice, at most one
  -- pending command to a domain, none of the fin or the parachute beside a calibration, and results
  -- that name their request and say `accepted` exactly while it is pending.
  pub begin-IsValid :
      (g : Guard) (ex : CommandExecutor) → IsValid ex → IsValid (begin r c g ex).executor
  begin-IsValid g ex v = elim (ℕ_discrete r.transaction_id 0) [
    | yes z ↦ subst IsValid (sym (begin_zero g ex z)) v
    | no nz ↦ elim (Option-cases (find r.transaction_id ex.entries)) [
      | inr (e, known) ↦ subst IsValid (sym (ap (λ o. o.executor) (begin_known g ex nz known))) v
      | inl fresh ↦
          subst IsValid (sym (ap (λ o. o.executor) (begin_fresh g ex nz fresh)))
            (decide-IsValid (recovered c g) ex v nz fresh)
    ]
  ]

  decide_executes :
      (g : Guard) (ex : CommandExecutor)
      → ((decide g r c ex).1.execute ≡ true) ↔ (rejection g r c ex.entries ≡ reason_none)
  decide_executes g ex = elim (decide-Decided g ex) [
    | inl (passed, kept, answer) ↦
        (λ _. passed, λ _. ap (λ (d : CommandDecision). d.execute) answer)
    | inr (refused, kept, answer) ↦ (
      λ e. absurd (ground (arith, ap (λ (d : CommandDecision). d.execute) answer)),
      λ e. absurd (refused e),
    )
  ]

  repeat_idle : (e : Entry) → (repeat r e).execute ≡ false
  unfolding repeat
  repeat_idle e = ground arith

  begin_executes_fresh :
      (g : Guard) (ex : CommandExecutor)
      → (begin r c g ex).answer.execute ≡ true
      → (r.transaction_id ≢ 0)
        × (find r.transaction_id ex.entries ≡ none)
        × ((decide (recovered c g) r c ex).1.execute ≡ true)
  unfolding begin
  begin_executes_fresh g ex h = elim (Option-cases (find r.transaction_id ex.entries)) [
    | inl fresh ↦ (ground arith, fresh, ground arith)
    | inr (e, known) ↦ absurd (ground (arith, repeat_idle e))
  ]

  -- In a valid executor a request is carried out exactly when its transaction id is above 0 and no
  -- cached entry's, and what its command needs holds once the overtravel latch had its chance to
  -- recover.
  pub begin_executes_iff :
      (g : Guard) (ex : CommandExecutor)
      → IsValid ex
      → ((begin r c g ex).answer.execute ≡ true) ↔ (
          (r.transaction_id ≢ 0)
          × (find r.transaction_id ex.entries ≡ none)
          × Permitted (recovered c g) r c ex.entries)
  begin_executes_iff g ex v = (
    λ h.
        let (nz, fresh, runs) = begin_executes_fresh g ex h in
        (
          nz,
          fresh,
          rejection-Permitted (recovered c g) r c ex.entries v.sound
              ((decide_executes (recovered c g) ex).0 runs),
        ),
    λ h.
        ap (λ o. o.answer.execute) (begin_fresh g ex h.0 h.1)
        ∙ (decide_executes (recovered c g) ex).1
            (Permitted-rejection (recovered c g) r c ex.entries v.sound h.2),
  )

same_bytes_refl : (bs : List ℕ) → same_bytes bs bs ≡ true
same_bytes_refl [] = refl
same_bytes_refl (b ∷ bs) = ground (arith, same_bytes_refl bs)

pub same_request_refl : (r : GenericCommandRequest) → same_request r r ≡ true
unfolding same_request
same_request_refl r = ground (arith, same_bytes_refl r.arguments)

pub find-set_fresh :
    (t : ℕ) (es : List Entry) (i : ℕ) (e : Entry) {x : Entry}
    → find t es ≡ none
    → has_id t e ≡ true
    → get_elem? es i ≡ some x
    → find t (set es i e) ≡ some e
unfolding find
find-set_fresh t [] i e h id at = cc
find-set_fresh t (y ∷ es) zero e h id at = ground arith
find-set_fresh t (y ∷ es) (suc i) e h id at =
    ground (arith, find-set_fresh t es i e (ground arith) id at)

-- A pending entry is found again after a write to a free slot.
pub find-set_kept :
    (t : ℕ) (es : List Entry) (i : ℕ) (e : Entry) {p x : Entry}
    → find t es ≡ some p
    → p.pending ≡ true
    → has_id t e ≡ false
    → get_elem? es i ≡ some x
    → (x.valid ≡ false) ⊎ (x.pending ≡ false)
    → find t (set es i e) ≡ some p
unfolding find
find-set_kept t [] i e h open_entry id at free = cc
find-set_kept t (y ∷ es) zero e h open_entry id at free = ground arith
find-set_kept t (y ∷ es) (suc i) e {p} h open_entry id at free = elim (Bool-cases (has_id t y)) [
  | inl here ↦ ground arith
  | inr later ↦ rw later (find-set_kept t es i e (rw later at h) open_entry id at free)
]
