-- ===== src/Mission/Executor/Invariant.antt =====
-- What holds of a `CommandExecutor` between two calls (mission/command_executor.cpp).
use avi_99l_mission_board.Base.{
  ℕ, ◌+◌, ◌≤◌, ◌<◌, ◌≡◌, ◌≢◌, refl, ◌⊎◌, inl, inr, Bool, true, false, List, [], ◌∷◌, none, some,
  set, length, length-set, count_if, count_bit, count_if-set, All, All-set, arith, Bool-cases,
  subst, sym, u32, ◌∙◌,
}
use avi_99l_mission_board.Protocol.Types.{CommandPhase, GenericCommandRequest, CommandResult}
use avi_99l_mission_board.Mission.Commands.{CommandDomain, domain_for}
use avi_99l_mission_board.Mission.Executor.{Entry, CommandExecutor, new, domain_index}
use avi_99l_mission_board.Mission.Executor.Cache.{
  is_pending_in, has_id, find, allocate, remember, stored_entry,
}
use avi_99l_mission_board.Mission.Executor.Slots.{IsFree, allocate_sound, allocate_total}

-- An entry tells the truth about its request: its result names the request, and says `accepted`
-- exactly while the command is pending.
pub record IsSound (e : Entry) : Type 0 where
  pub pending_valid : e.pending ≡ true → e.valid ≡ true
  pub id_set : e.valid ≡ true → 0 < e.request.transaction_id
  pub answers_id : e.valid ≡ true → e.result.transaction_id ≡ e.request.transaction_id
  pub answers_command : e.valid ≡ true → e.result.command ≡ e.request.command
  pub open_phase : e.valid ≡ true → e.pending ≡ true → e.result.phase ≡ CommandPhase.accepted
  pub closed_phase : e.valid ≡ true → e.pending ≡ false → e.result.phase ≢ CommandPhase.accepted
  pub domain_known : e.valid ≡ true → e.domain ≡ domain_for e.request.command

-- The number of pending commands of a domain, and of entries with an id.
abbrev pub pending_count : CommandDomain → List Entry → ℕ
pending_count d = count_if (is_pending_in d)

abbrev pub id_count : ℕ → List Entry → ℕ
id_count t = count_if (has_id t)

pub record IsValid (ex : CommandExecutor) : Type 0 where
  pub size : length ex.entries ≡ 16
  pub ids : (t : ℕ) → id_count t ex.entries ≤ 1
  pub slots : (d : CommandDomain) → pending_count d ex.entries ≤ 1
  pub calibration_fin :
      pending_count CommandDomain.calibration ex.entries
        + pending_count CommandDomain.fin ex.entries
      ≤ 1
  pub calibration_parachute :
      pending_count CommandDomain.calibration ex.entries
        + pending_count CommandDomain.parachute ex.entries
      ≤ 1
  pub sound : All IsSound ex.entries

pub new-IsValid : IsValid new
new-IsValid = record {
  size = refl;
  ids = λ t. omega arith;
  slots = λ d. omega arith;
  calibration_fin = omega arith;
  calibration_parachute = omega arith;
  sound = ground arith;
}

-- With one pending command to a domain at most six are pending, so that a slot is always found.
pending_total :
    (es : List Entry)
    → All IsSound es
    → count_if (λ e. e.pending) es
      ≤ pending_count CommandDomain.sequence es
        + pending_count CommandDomain.fin es
        + pending_count CommandDomain.parachute es
        + pending_count CommandDomain.calibration es
        + pending_count CommandDomain.storage es
        + pending_count CommandDomain.recovery es
pending_total [] s = omega arith
pending_total (e ∷ es) s = ground (arith, pending_total es s.1, s.0)

pub allocate_finds : (ex : CommandExecutor) → IsValid ex → (i : ℕ) × (allocate ex.entries ≡ some i)
allocate_finds ex v = allocate_total ex.entries (
    omega (
      arith,
      pending_total ex.entries v.sound,
      v.size,
      v.slots CommandDomain.sequence,
      v.slots CommandDomain.fin,
      v.slots CommandDomain.parachute,
      v.slots CommandDomain.calibration,
      v.slots CommandDomain.storage,
      v.slots CommandDomain.recovery,
    ))

pub find_none-id_count : (t : ℕ) (es : List Entry) → find t es ≡ none → id_count t es ≡ 0
unfolding find
find_none-id_count t [] h = refl
find_none-id_count t (e ∷ es) h = ground (arith, find_none-id_count t es)

free_not_pending :
    (e : Entry) (d : CommandDomain)
    → (e.valid ≡ false) ⊎ (e.pending ≡ false)
    → is_pending_in d e ≡ false
free_not_pending e d f = ground arith

-- Writing a new entry over a free slot.
module _ (es : List Entry) (i : ℕ) (e : Entry) (free : IsFree es i) where
  pub pending_count-set :
      (d : CommandDomain)
      → pending_count d (set es i e) ≡ pending_count d es + count_bit (is_pending_in d e)
  pending_count-set d =
      let (x, at, f) = free in
      omega (
        arith,
        count_if-set (is_pending_in d) es i e at,
        subst (λ b. count_bit b ≡ 0) (sym (free_not_pending x d f)) refl,
      )

  pub id_count-set_le : (t : ℕ) → id_count t (set es i e) ≤ id_count t es + count_bit (has_id t e)
  id_count-set_le t = let (x, at, f) = free in omega (arith, count_if-set (has_id t) es i e at)

domain_index-injective : (c d : CommandDomain) → domain_index c ≡ domain_index d → c ≡ d
domain_index-injective c d h = ground arith

pending_domain :
    (d : CommandDomain) (e : Entry) → is_pending_in d e ≡ true → (d ≡ e.domain) × (e.pending ≡ true)
pending_domain d e h = (domain_index-injective d e.domain (ground arith), ground arith)

-- No pending command stands in the way of a pending command of this domain.
pub record HasRoom (d : CommandDomain) (es : List Entry) : Type 0 where
  pub own : pending_count d es ≡ 0
  pub calibrates :
      d ≡ CommandDomain.calibration
      → (pending_count CommandDomain.fin es ≡ 0) × (pending_count CommandDomain.parachute es ≡ 0)
  pub moves :
      (d ≡ CommandDomain.fin) ⊎ (d ≡ CommandDomain.parachute)
      → pending_count CommandDomain.calibration es ≡ 0

module _ (ex : CommandExecutor) (i : ℕ) (e : Entry) (free : IsFree ex.entries i) where
  pending_count-set_le :
      (e.pending ≡ true → HasRoom e.domain ex.entries)
      → (d : CommandDomain) → pending_count d ex.entries ≤ 1
      → pending_count d (set ex.entries i e) ≤ 1
  pending_count-set_le room d le = elim (Bool-cases (is_pending_in d e)) [
    | inr out ↦ rw (pending_count-set ex.entries i e free d, out) (omega arith)
    | inl hit ↦
        let (same, open_entry) = pending_domain d e hit in
        rw (pending_count-set ex.entries i e free d, hit, same, (room open_entry).own) (omega arith)
  ]

  exclusive-set_le :
      (e.pending ≡ true → HasRoom e.domain ex.entries)
      → (d : CommandDomain) → (d ≡ CommandDomain.fin) ⊎ (d ≡ CommandDomain.parachute)
      → pending_count CommandDomain.calibration ex.entries + pending_count d ex.entries ≤ 1
      → pending_count CommandDomain.calibration (set ex.entries i e)
          + pending_count d (set ex.entries i e)
        ≤ 1
  exclusive-set_le room d act le =
      rw
        (
          pending_count-set ex.entries i e free CommandDomain.calibration,
          pending_count-set ex.entries i e free d,
        )
        (elim (Bool-cases (is_pending_in CommandDomain.calibration e)) [
          | inl cal ↦
              let (same, open_entry) = pending_domain CommandDomain.calibration e cal in
              let r = room open_entry in ground (arith, r.own, r.calibrates (sym same))
          | inr other ↦ elim (Bool-cases (is_pending_in d e)) [
            | inr out ↦ rw (other, out) (omega arith)
            | inl hit ↦
                let (same, open_entry) = pending_domain d e hit in
                let r = room open_entry in
                let clear : pending_count CommandDomain.calibration ex.entries ≡ 0 =
                  r.moves (
                    subst (λ x. (x ≡ CommandDomain.fin) ⊎ (x ≡ CommandDomain.parachute)) same
                      act) in
                rw (other, hit, clear, same, r.own) (omega arith)
          ]
        ])

  id-set_le :
      id_count e.request.transaction_id ex.entries ≡ 0
      → (t : ℕ) → id_count t ex.entries ≤ 1
      → id_count t (set ex.entries i e) ≤ 1
  id-set_le fresh t le = elim (Bool-cases (has_id t e)) [
    | inr other ↦ omega (
      arith,
      id_count-set_le ex.entries i e free t,
      subst (λ b. count_bit b ≡ 0) (sym other) refl,
      le,
    )
    | inl same ↦
        let at : e.request.transaction_id ≡ t = ground arith in
        omega (
          arith,
          id_count-set_le ex.entries i e free t,
          subst (λ b. count_bit b ≡ 1) (sym same) refl,
          subst (λ x. id_count x ex.entries ≡ 0) at fresh,
        )
  ]

  pub set-IsValid :
      (age : ℕ)
      → IsValid ex
      → IsSound e
      → id_count e.request.transaction_id ex.entries ≡ 0
      → (e.pending ≡ true → HasRoom e.domain ex.entries)
      → IsValid (record { entries = set ex.entries i e; age = age })
  set-IsValid age v s fresh room = record {
    size = length-set ex.entries i e ∙ v.size;
    ids = λ t. id-set_le fresh t (v.ids t);
    slots = λ d. pending_count-set_le room d (v.slots d);
    calibration_fin = exclusive-set_le room CommandDomain.fin (inl refl) v.calibration_fin;
    calibration_parachute =
        exclusive-set_le room CommandDomain.parachute (inr refl) v.calibration_parachute;
    sound = All-set IsSound ex.entries i e s v.sound;
  }

-- A valid executor always remembers: some free slot takes the new entry.
pub remember_writes :
    (request : GenericCommandRequest) (result : CommandResult) (pending : Bool) (d : CommandDomain)
    (ex : CommandExecutor)
    → IsValid ex
    → (i : ℕ) × IsFree ex.entries i
      × (remember request result pending d ex ≡ record {
        entries = set ex.entries i (stored_entry request result pending d (u32 (ex.age + 1)));
        age = u32 (ex.age + 1);
      })
unfolding remember
remember_writes request result pending d ex v =
    let (i, found) = allocate_finds ex v in
    (i, allocate_sound ex.entries found, rw (found, remember))
