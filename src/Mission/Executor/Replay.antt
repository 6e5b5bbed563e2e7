-- ===== src/Mission/Executor/Replay.antt =====
-- What a repeated request gets, and what a request leaves alone (mission/command_executor.cpp).
use avi_99l_mission_board.Base.{
  ℕ, ◌+◌, ◌≡◌, ◌≢◌, refl, inl, inr, Bool, true, false, none, some, arith, Option-cases, sym, ap,
  ◌∙◌, u32,
}
use native.Mathlib.Decide.{ℕ_discrete}
use avi_99l_mission_board.Overtravel.{Guard}
use avi_99l_mission_board.Protocol.Types.{CommandPhase, GenericCommandRequest, CommandResult}
use avi_99l_mission_board.Mission.Commands.{CommandContext, CommandDomain, domain_for}
use avi_99l_mission_board.Mission.Executor.{Entry, CommandExecutor, CommandDecision, result_for}
use avi_99l_mission_board.Mission.Executor.Cache.{find, remember, stored_entry}
use avi_99l_mission_board.Mission.Executor.Calls.{rejection, decide, begin, repeat, recovered}
use avi_99l_mission_board.Mission.Executor.Invariant.{IsValid, remember_writes}
use avi_99l_mission_board.Mission.Executor.Once.{
  begin_zero, begin_known, begin_fresh, decide-Decided, reason_none, same_request_refl,
  find-set_fresh, find-set_kept,
}

remember_found :
    (r : GenericCommandRequest) (result : CommandResult) (pending : Bool) (d : CommandDomain)
    (ex : CommandExecutor)
    → IsValid ex
    → find r.transaction_id ex.entries ≡ none
    → (age : ℕ) × (find r.transaction_id (remember r result pending d ex).entries
        ≡ some (stored_entry r result pending d age))
remember_found r result pending d ex v fresh =
    let (i, (x, at, free), written) = remember_writes r result pending d ex v in
    (
      u32 (ex.age + 1),
      rw written (
          find-set_fresh r.transaction_id ex.entries i
            (stored_entry r result pending d (u32 (ex.age + 1))) fresh (ground arith) at),
    )

remember_kept :
    (r : GenericCommandRequest) (result : CommandResult) (pending : Bool) (d : CommandDomain)
    (ex : CommandExecutor) (t : ℕ) {p : Entry}
    → IsValid ex
    → t ≢ r.transaction_id
    → find t ex.entries ≡ some p
    → p.pending ≡ true
    → find t (remember r result pending d ex).entries ≡ some p
remember_kept r result pending d ex t v other h open_entry =
    let (i, (x, at, free), written) = remember_writes r result pending d ex v in
    rw written (
      find-set_kept t ex.entries i (stored_entry r result pending d (u32 (ex.age + 1))) h open_entry
        (ground arith) at free)

module _ (r : GenericCommandRequest) (c : CommandContext) (g : Guard) (ex : CommandExecutor) where
  -- The entry that the decision leaves behind.
  decide_found :
      IsValid ex
      → find r.transaction_id ex.entries ≡ none
      → (e : Entry) × (find r.transaction_id (decide g r c ex).0.entries ≡ some e)
        × (e.request ≡ r)
        × (e.result ≡ (decide g r c ex).1.result)
        × (e.domain ≡ (decide g r c ex).1.domain)
  decide_found v fresh = elim (decide-Decided r c g ex) [
    | inl (passed, kept, answer) ↦
        let (age, found) =
          remember_found r (result_for r CommandPhase.accepted reason_none) true
            (domain_for r.command) ex v fresh in
        (
          stored_entry r (result_for r CommandPhase.accepted reason_none) true
              (domain_for r.command) age,
          rw kept found,
          refl,
          ap (λ (d : CommandDecision). d.result) (sym answer),
          ap (λ (d : CommandDecision). d.domain) (sym answer),
        )
    | inr (refused, kept, answer) ↦
        let result = result_for r CommandPhase.rejected (rejection g r c ex.entries) in
        let (age, found) = remember_found r result false (domain_for r.command) ex v fresh in
        (
          stored_entry r result false (domain_for r.command) age,
          rw kept found,
          refl,
          ap (λ (d : CommandDecision). d.result) (sym answer),
          ap (λ (d : CommandDecision). d.domain) (sym answer),
        )
  ]

  decide_kept :
      (t : ℕ) {p : Entry}
      → IsValid ex
      → t ≢ r.transaction_id
      → find t ex.entries ≡ some p
      → p.pending ≡ true
      → find t (decide g r c ex).0.entries ≡ some p
  decide_kept t v other h open_entry = elim (decide-Decided r c g ex) [
    | inl (passed, kept, answer) ↦ rw kept (remember_kept r _ true _ ex t v other h open_entry)
    | inr (refused, kept, answer) ↦ rw kept (remember_kept r _ false _ ex t v other h open_entry)
  ]

pub repeat_same :
    (r : GenericCommandRequest) (e : Entry) (d : CommandDecision)
    → e.request ≡ r
    → e.result ≡ d.result
    → e.domain ≡ d.domain
    → repeat r e ≡ record { result = d.result; execute = false; replay = true; domain = d.domain }
unfolding repeat
repeat_same r e d asked result domain = ground (arith, same_request_refl r)

-- A request that is repeated at once is not carried out again: when a valid executor has answered a
-- fresh request with an id above 0 and the next call is the same request, in whatever context and
-- under whatever guard, the answer has the same result and domain and is a replay that is not
-- carried out, and the executor and the guard stay as they are.
pub begin_replays :
    (r : GenericCommandRequest) (c c' : CommandContext) (g g' : Guard) (ex : CommandExecutor)
    → IsValid ex
    → r.transaction_id ≢ 0
    → find r.transaction_id ex.entries ≡ none
    → let o = begin r c g ex in
      begin r c' g' o.executor ≡ record {
        guard = g';
        executor = o.executor;
        answer = record {
          result = o.answer.result;
          execute = false;
          replay = true;
          domain = o.answer.domain;
        };
      }
begin_replays r c c' g g' ex v nz fresh =
    let (e, found, asked, result, domain) = decide_found r c (recovered c g) ex v fresh in
    rw (begin_fresh r c g ex nz fresh) (
      begin_known r c' g' (decide (recovered c g) r c ex).0 nz found
      ∙ ap (λ d. record { guard = g'; executor = (decide (recovered c g) r c ex).0; answer = d })
          (repeat_same r e (decide (recovered c g) r c ex).1 asked result domain))

-- A pending command is never dropped: whatever other request comes in, a valid executor still finds
-- the pending entry as it was.
pub begin_keeps_pending :
    (r : GenericCommandRequest) (c : CommandContext) (g : Guard) (ex : CommandExecutor) (t : ℕ)
    (p : Entry)
    → IsValid ex
    → t ≢ r.transaction_id
    → find t ex.entries ≡ some p
    → p.pending ≡ true
    → find t (begin r c g ex).executor.entries ≡ some p
begin_keeps_pending r c g ex t p v other h open_entry = elim (ℕ_discrete r.transaction_id 0) [
  | yes z ↦ rw (begin_zero r c g ex z) h
  | no nz ↦ elim (Option-cases (find r.transaction_id ex.entries)) [
    | inr (e, known) ↦ rw (begin_known r c g ex nz known) h
    | inl fresh ↦
        rw (begin_fresh r c g ex nz fresh)
          (decide_kept r c (recovered c g) ex t v other h open_entry)
  ]
]
