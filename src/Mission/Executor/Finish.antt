-- ===== src/Mission/Executor/Finish.antt =====
-- `finish`: the end of a pending command (mission/command_executor.cpp).
use avi_99l_mission_board.Base.{
  ℕ, ◌+◌, ◌≤◌, ◌≡◌, ◌≢◌, refl, ◌⊎◌, inl, inr, Bool, true, false, ◌&&◌, List, [], ◌∷◌, some, length,
  count_if, count_bit, All, arith, Option-cases, Bool-cases, subst, sym, ap, ◌∙◌, u32,
}
use avi_99l_mission_board.Overtravel.{Guard, clear_fault}
use avi_99l_mission_board.Protocol.Types.{CommandPhase, CommandReason, CommandResult}
use avi_99l_mission_board.Mission.Commands.{CommandContext, CommandDomain, set_fin_zero}
use avi_99l_mission_board.Mission.Executor.{Entry, CommandExecutor, is_final}
use avi_99l_mission_board.Mission.Executor.Cache.{find, has_id, is_pending_in, update_found}
use avi_99l_mission_board.Mission.Executor.Calls.{finished_entry, finish, begin}
use avi_99l_mission_board.Mission.Executor.Invariant.{IsSound, IsValid, pending_count, id_count}
use avi_99l_mission_board.Mission.Executor.Once.{begin_known}
use avi_99l_mission_board.Mission.Executor.Replay.{repeat_same}

-- A write through the pointer that `find` returned.
module _ (t : ℕ) (e' : Entry) where
  length-update_found : (es : List Entry) → length (update_found t e' es) ≡ length es
  unfolding update_found
  length-update_found [] = refl
  length-update_found (y ∷ es) = ground (arith, length-update_found es)

  count_if-update_found :
      (p : Entry → Bool) (es : List Entry) {e : Entry}
      → find t es ≡ some e
      → count_if p (update_found t e' es) + count_bit (p e) ≡ count_if p es + count_bit (p e')
  unfolding update_found find
  count_if-update_found p [] h = cc
  count_if-update_found p (y ∷ es) {e} h = elim (Bool-cases (has_id t y)) [
    | inl here ↦ let same : e ≡ y = ground arith in rw (here, same) (omega arith)
    | inr later ↦ rw later (omega (arith, count_if-update_found p es (rw later at h)))
  ]

  find-update_found :
      (es : List Entry) {e : Entry}
      → find t es ≡ some e
      → has_id t e' ≡ true
      → find t (update_found t e' es) ≡ some e'
  unfolding update_found find
  find-update_found [] h id = cc
  find-update_found (y ∷ es) {e} h id = ground (arith, find-update_found es {e = e})

  All-update_found {κ} :
      (P : Entry → Type κ) (es : List Entry) → P e' → All P es → All P (update_found t e' es)
  unfolding update_found
  All-update_found P [] h a = a
  All-update_found P (y ∷ es) h a = elim (Bool-cases (has_id t y)) [
    | inl here ↦ rw here (h, a.1)
    | inr later ↦ rw later (a.0, All-update_found P es h a.1)
  ]

find-update_found_ne :
    (t s : ℕ) (e' : Entry) (es : List Entry)
    → s ≢ t
    → has_id s e' ≡ false
    → find s (update_found t e' es) ≡ find s es
unfolding update_found find
find-update_found_ne t s e' [] ne out = refl
find-update_found_ne t s e' (y ∷ es) ne out = ground (arith, find-update_found_ne t s e' es ne out)

find-has_id : (t : ℕ) (es : List Entry) {e : Entry} → find t es ≡ some e → has_id t e ≡ true
unfolding find
find-has_id t [] h = cc
find-has_id t (y ∷ es) {e} h = ground (arith, find-has_id t es {e = e})

find-All {κ} :
    (P : Entry → Type κ) (t : ℕ) (es : List Entry) {e : Entry} → find t es ≡ some e → All P es → P e
unfolding find
find-All P t [] h a = cc
find-All P t (y ∷ es) {e} h a = elim (Bool-cases (has_id t y)) [
  | inl here ↦ subst P (ground arith) a.0
  | inr later ↦ find-All P t es (rw later at h) a.1
]

module _ (t : ℕ) (phase : CommandPhase) (reason : CommandReason) (detail : ℕ) (g : Guard)
    (ex : CommandExecutor) where
  abbrev pub failure : CommandResult
  failure = record {
    transaction_id = t;
    command = 0;
    phase = CommandPhase.failed;
    reason = CommandReason.internal_error;
    detail = detail;
  }

  -- What `finish` needs: a pending entry with the id, and a final phase.
  abbrev pub Finishable : Entry → Type 0
  Finishable e = (find t ex.entries ≡ some e) × (e.pending ≡ true) × (is_final phase ≡ true)

  finish_writes :
      {e : Entry}
      → Finishable e
      → (finish t phase reason detail g ex).executor ≡ record {
        entries =
            update_found t (finished_entry e (u32 (ex.age + 1)) phase reason detail) ex.entries;
        age = u32 (ex.age + 1);
      }
  unfolding finish
  finish_writes f = ground arith

  finish_answers :
      {e : Entry}
      → Finishable e
      → (finish t phase reason detail g ex).answer
        ≡ record e.result { phase = phase; reason = reason; detail = detail }
  unfolding finish
  finish_answers f = ground arith

  finish_guard :
      {e : Entry}
      → Finishable e
      → (((finish t phase reason detail g ex).guard ≡ clear_fault g)
          × (phase ≡ CommandPhase.completed)
          × (reason ≡ CommandReason.none)
          × (e.request.command ≡ set_fin_zero))
        ⊎ (((finish t phase reason detail g ex).guard ≡ g)
            × ((phase ≢ CommandPhase.completed)
                ⊎ (reason ≢ CommandReason.none)
                ⊎ (e.request.command ≢ set_fin_zero)))
  unfolding finish
  finish_guard f = ground arith

  -- With no pending entry of the id, or a phase that is not final, `finish` answers with an internal
  -- error and changes neither the executor nor the guard.
  pub finish_refuses :
      ((e : Entry) → ¬ Finishable e)
      → finish t phase reason detail g ex ≡ record { guard = g; executor = ex; answer = failure }
  unfolding finish
  finish_refuses none_fits = elim (Option-cases (find t ex.entries)) [
    | inl missing ↦ ground arith
    | inr (e, found) ↦ elim (Bool-cases (e.pending && is_final phase)) [
      | inl both ↦ absurd (none_fits e (found, ground arith, ground arith))
      | inr closed ↦ ground arith
    ]
  ]

module _ (t : ℕ) (phase : CommandPhase) (reason : CommandReason) (detail : ℕ) (g : Guard)
    (ex : CommandExecutor) (e : Entry) (f : Finishable t phase reason detail g ex e) where
  abbrev pub done : Entry
  done = finished_entry e (u32 (ex.age + 1)) phase reason detail

  done-has_id : (s : ℕ) → has_id s done ≡ has_id s e
  done-has_id s = refl

  -- The end of a pending command with a final phase. The answer carries the phase, the reason and
  -- the detail; the entry is completed with that answer and found again, that of any other id is
  -- left alone, and the overtravel latch is cleared exactly for a SetFinZero that completed with no
  -- reason, else left alone.
  pub finish_lem :
      (s : ℕ)
      → s ≢ t
      → let o = finish t phase reason detail g ex in
        (o.answer ≡ record e.result { phase = phase; reason = reason; detail = detail })
        × (find t o.executor.entries ≡ some done)
        × (find s o.executor.entries ≡ find s ex.entries)
        × (((o.guard ≡ clear_fault g)
              × (phase ≡ CommandPhase.completed)
              × (reason ≡ CommandReason.none)
              × (e.request.command ≡ set_fin_zero))
            ⊎ ((o.guard ≡ g)
                × ((phase ≢ CommandPhase.completed)
                    ⊎ (reason ≢ CommandReason.none)
                    ⊎ (e.request.command ≢ set_fin_zero))))
  finish_lem s ne =
      let written = finish_writes t phase reason detail g ex f in
      let at = find-has_id t ex.entries f.0 in
      (
        finish_answers t phase reason detail g ex f,
        rw written (find-update_found t done ex.entries f.0 at),
        rw written (find-update_found_ne t s done ex.entries ne (not_id s at ne)),
        finish_guard t phase reason detail g ex f,
      )
    where
      not_id : (s : ℕ) → has_id t e ≡ true → s ≢ t → has_id s e ≡ false
      not_id s at ne = ground arith

  done-IsSound : IsSound e → IsSound done
  done-IsSound s = ground arith

  pub finish_done-IsValid : IsValid ex → IsValid (finish t phase reason detail g ex).executor
  finish_done-IsValid v = rw (finish_writes t phase reason detail g ex f) (record {
    size = length-update_found t done ex.entries ∙ v.size;
    ids = λ s. ids-le s (v.ids s);
    slots = λ d. omega (arith, pending-le d, v.slots d);
    calibration_fin = omega (
      arith,
      pending-le CommandDomain.calibration,
      pending-le CommandDomain.fin,
      v.calibration_fin,
    );
    calibration_parachute = omega (
      arith,
      pending-le CommandDomain.calibration,
      pending-le CommandDomain.parachute,
      v.calibration_parachute,
    );
    sound =
        All-update_found t done IsSound ex.entries
          (done-IsSound (find-All IsSound t ex.entries f.0 v.sound)) v.sound;
  })
    where
      ids-le : (s : ℕ) → id_count s ex.entries ≤ 1 → id_count s (update_found t done ex.entries) ≤ 1
      ids-le s le = omega (arith, count_if-update_found t done (has_id s) ex.entries f.0)

      idle : (d : CommandDomain) → count_bit (is_pending_in d done) ≡ 0
      idle d = ground arith

      pending-le :
          (d : CommandDomain)
          → pending_count d (update_found t done ex.entries) ≤ pending_count d ex.entries
      pending-le d =
          omega (arith, count_if-update_found t done (is_pending_in d) ex.entries f.0, idle d)

-- `finish` keeps the executor valid, whether it finds a pending command to end or refuses.
pub finish-IsValid :
    (t : ℕ) (phase : CommandPhase) (reason : CommandReason) (detail : ℕ) (g : Guard)
    (ex : CommandExecutor)
    → IsValid ex
    → IsValid (finish t phase reason detail g ex).executor
finish-IsValid t phase reason detail g ex v = elim (Option-cases (find t ex.entries)) [
  | inl missing ↦
      subst IsValid
        (sym
          (ap (λ o. o.executor) (finish_refuses t phase reason detail g ex (λ e f. ground arith))))
        v
  | inr (e, found) ↦ elim (Bool-cases (e.pending && is_final phase)) [
    | inl both ↦
        finish_done-IsValid t phase reason detail g ex e (found, ground arith, ground arith) v
    | inr closed ↦
        subst IsValid
          (sym (
            ap (λ o. o.executor) (finish_refuses t phase reason detail g ex (λ x f. ground arith))))
          v
  ]
]

-- When a command with an id above 0 has just been ended with a final phase and the next call to the
-- executor is its request again, the answer has the final result and is a replay that is not carried
-- out, and the executor and the guard stay as they are.
pub finish_replays :
    (phase : CommandPhase) (reason : CommandReason) (detail : ℕ) (g g' : Guard)
    (ex : CommandExecutor) (e : Entry) (c : CommandContext)
    → e.request.transaction_id ≢ 0
    → Finishable e.request.transaction_id phase reason detail g ex e
    → let o = finish e.request.transaction_id phase reason detail g ex in
      begin e.request c g' o.executor ≡ record {
        guard = g';
        executor = o.executor;
        answer = record { result = o.answer; execute = false; replay = true; domain = e.domain };
      }
finish_replays phase reason detail g g' ex e c nz f =
    let t = e.request.transaction_id in
    let o = finish t phase reason detail g ex in
    let (answered, found, others, cleared) =
      finish_lem t phase reason detail g ex e f (e.request.transaction_id + 1)
        (λ h. ground arith) in
    begin_known e.request c g' o.executor nz found
    ∙ ap (λ d. record { guard = g'; executor = o.executor; answer = d })
        (repeat_same e.request (done t phase reason detail g ex e f)
          (record { result = o.answer; execute = false; replay = true; domain = e.domain }) refl
          (sym answered) refl)
