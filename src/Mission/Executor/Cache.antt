-- ===== src/Mission/Executor/Cache.antt =====
-- mission/command_executor.cpp: the result cache, `find`, `allocate`, `remember`.
use avi_99l_mission_board.Base.{
  ℕ, ◌+◌, Bool, true, not, ◌&&◌, List, [], ◌∷◌, Option, none, some, ◌==◌, ltb, if◌then◌else◌,
  any_of, set, u32,
}
use avi_99l_mission_board.Protocol.Types.{GenericCommandRequest, CommandResult}
use avi_99l_mission_board.Mission.Commands.{CommandDomain}
use avi_99l_mission_board.Mission.Executor.{Entry, CommandExecutor, domain_index}

abbrev pub is_pending_in : CommandDomain → Entry → Bool
is_pending_in domain e = e.valid && e.pending && domain_index e.domain == domain_index domain

unfoldable pub busy : CommandDomain → List Entry → Bool
busy domain = any_of (is_pending_in domain)

abbrev pub has_id : ℕ → Entry → Bool
has_id transaction_id e = e.valid && e.request.transaction_id == transaction_id

unfoldable pub find : ℕ → List Entry → Option Entry
find transaction_id [] = none
find transaction_id (e ∷ es) = if has_id transaction_id e then some e else find transaction_id es

-- A write through the pointer that `find` returns.
unfoldable pub update_found : ℕ → Entry → List Entry → List Entry
update_found transaction_id entry [] = []
update_found transaction_id entry (e ∷ es) =
    if has_id transaction_id e then entry ∷ es else e ∷ update_found transaction_id entry es

unfoldable pub cached_count : List Entry → ℕ
cached_count [] = 0
cached_count (e ∷ es) = let rest = cached_count es in if e.valid then rest + 1 else rest

-- The index of the first entry that is not valid, counted from `i`.
unfoldable pub first_unused : ℕ → List Entry → Option ℕ
first_unused i [] = none
first_unused i (e ∷ es) = if not e.valid then some i else first_unused (i + 1) es

-- One round of the loop over the entries: the oldest completed entry so far, by index and age.
unfoldable pub better : ℕ → Option (ℕ × ℕ) → Entry → Option (ℕ × ℕ)
better i best e =
    if not e.pending && (elim best [ none ↦ true | some (j, age) ↦ ltb e.age age ])
    then some (i, e.age)
    else best

unfoldable pub oldest : ℕ → Option (ℕ × ℕ) → List Entry → Option (ℕ × ℕ)
unfolding better
oldest i best [] = best
oldest i best (e ∷ es) = oldest (i + 1) (better i best e) es

unfoldable pub allocate : List Entry → Option ℕ
unfolding first_unused oldest
allocate es = elim (first_unused 0 es) [
  | some i ↦ some i
  | none ↦ elim (oldest 0 none es) [ some (i, age) ↦ some i | none ↦ none ]
]

abbrev pub stored_entry : GenericCommandRequest → CommandResult → Bool → CommandDomain → ℕ → Entry
stored_entry request result pending domain age = record {
  valid = true;
  pending = pending;
  age = age;
  request = request;
  result = result;
  domain = domain;
}

unfoldable pub remember :
    GenericCommandRequest → CommandResult → Bool → CommandDomain → CommandExecutor → CommandExecutor
remember request result pending domain ex = elim (allocate ex.entries) [
  | none ↦ ex
  | some i ↦
      let age = u32 (ex.age + 1) in
      record {
        entries = set ex.entries i (stored_entry request result pending domain age);
        age = age;
      }
]
