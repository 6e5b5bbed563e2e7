-- ===== src/Characterization/Campaign/Handoff.antt =====
-- characterization/campaign_state_machine.cpp: the handoff that takes a session to the last stage, with
-- the fin removed, over a power cycle.
use Prim.Native.Nat.{bit_xor}
use avi_99l_mission_board.Base.{
  ℕ, ◌*◌, ◌/◌, ◌^◌, ◌%◌, Bool, true, false, not, ◌&&◌, ◌||◌, Option, none, some, List, [], ◌∷◌,
  replicate, ◌==◌, if◌then◌else◌, u8, u32,
}
use avi_99l_mission_board.Characterization.Types.{
  AssemblyStage, fh_negative, m0, stage_number, same_stage,
}
use avi_99l_mission_board.Characterization.Campaign.{
  CampaignStateMachine, SessionId, awaiting_m0_handoff, power_cycle_required, idle,
  awaiting_m0_confirmation, ready, CampaignStatus, ok, invalid_state, needs_power_cycle,
  invalid_handoff, cold_power_cycle_not_proven, fin_removal_confirmation_required,
  session_id_mismatch, valid_session_id, reset_stage_runs,
}

pub record M0Handoff : Type 0 where
  pub schema_version : ℕ
  pub session_id : SessionId
  pub profile_seed : ℕ
  pub completed_stage_mask : ℕ
  pub expected_stage : AssemblyStage
  pub checksum : ℕ

abbrev pub schema_version_5 : ℕ
schema_version_5 = 5

-- `handoff = {}`.
abbrev pub empty_handoff : M0Handoff
empty_handoff = record {
  schema_version = schema_version_5;
  session_id = replicate 32 0;
  profile_seed = 0;
  completed_stage_mask = 0;
  expected_stage = m0;
  checksum = 0;
}

pub data ResetKind : Type 0 where
  power_on software watchdog panic brownout deep_sleep unknown : ResetKind

abbrev pub fnv_offset : ℕ
fnv_offset = 2166136261

abbrev pub fnv_prime : ℕ
fnv_prime = 16777619

unfoldable pub hash_byte : ℕ → ℕ → ℕ
hash_byte hash value = u32 (bit_xor hash value * fnv_prime)

-- The four bytes of a 32-bit value, the low one first.
unfoldable pub hash_u32 : ℕ → ℕ → ℕ
unfolding hash_byte
hash_u32 hash value =
    hash_byte
      (hash_byte (hash_byte (hash_byte hash (u8 value)) (u8 (value / 2 ^ 8))) (u8 (value / 2 ^ 16)))
      (u8 (value / 2 ^ 24))

unfoldable pub hash_bytes : ℕ → List ℕ → ℕ
unfolding hash_byte
hash_bytes hash [] = hash
hash_bytes hash (value ∷ values) = hash_bytes (hash_byte hash (u8 value)) values

unfoldable pub compute_handoff_checksum : M0Handoff → ℕ
unfolding hash_byte hash_u32 hash_bytes
compute_handoff_checksum h =
    hash_byte
      (hash_byte
        (hash_u32 (hash_bytes (hash_u32 fnv_offset h.schema_version) h.session_id) h.profile_seed)
        h.completed_stage_mask)
      (stage_number h.expected_stage)

-- `mask & 0b111` is `mask % 8`.
unfoldable pub validate_handoff : M0Handoff → Bool
unfolding compute_handoff_checksum
validate_handoff h =
    if not (h.schema_version == schema_version_5)
      || not (valid_session_id h.session_id)
      || h.profile_seed == 0
      || not (same_stage h.expected_stage m0)
      || not (h.completed_stage_mask % 8 == 7)
    then false
    else h.checksum == compute_handoff_checksum (record h { checksum = 0 })

-- The handoff is the reference that the caller passes: it keeps its value when the call fails.
unfoldable pub prepare_m0 :
    M0Handoff → CampaignStateMachine → CampaignStateMachine × M0Handoff × CampaignStatus
unfolding compute_handoff_checksum
prepare_m0 handoff m =
    let filled = record empty_handoff {
      session_id = m.session_id;
      profile_seed = m.profile_seed;
      completed_stage_mask = m.completed_stage_mask;
    } in
    elim m.state [
      | awaiting_m0_handoff ↦
          if not (same_stage m.stage fh_negative) then (m, handoff, invalid_state) else (
            record m { state = power_cycle_required },
            record filled { checksum = compute_handoff_checksum filled },
            ok,
          )
      | _ ↦ (m, handoff, invalid_state)
    ]

abbrev pub is_power_on : ResetKind → Bool
is_power_on power_on = true
is_power_on _ = false

-- `resumeM0` after the power cycle.
unfoldable pub resume_m0 :
    M0Handoff → ResetKind → Bool → CampaignStateMachine → CampaignStateMachine × CampaignStatus
unfolding validate_handoff reset_stage_runs
resume_m0 handoff reset_kind rtc_cookie_survived m = elim m.state [
  | idle ↦
      if not (validate_handoff handoff)
      then (m, invalid_handoff)
      else if not (is_power_on reset_kind)
      then (m, needs_power_cycle)
      else if rtc_cookie_survived
      then (m, cold_power_cycle_not_proven)
      else (
        record (reset_stage_runs (record m {
          session_id = handoff.session_id;
          profile_seed = handoff.profile_seed;
          completed_stage_mask = handoff.completed_stage_mask;
          stage = m0;
        })) { state = awaiting_m0_confirmation },
        ok,
      )
  | _ ↦ (m, invalid_state)
]

-- `==` of two `std::array<char, n>`, and `strcmp(a, b) == 0`.
unfoldable pub same_chars : List ℕ → List ℕ → Bool
same_chars [] [] = true
same_chars [] (b ∷ ys) = false
same_chars (a ∷ xs) [] = false
same_chars (a ∷ xs) (b ∷ ys) = (a == b) && same_chars xs ys

-- "FIN_REMOVED".
abbrev pub literal_fin_removed : List ℕ
literal_fin_removed =
    0x46 ∷ 0x49 ∷ 0x4E ∷ 0x5F ∷ 0x52 ∷ 0x45 ∷ 0x4D ∷ 0x4F ∷ 0x56 ∷ 0x45 ∷ 0x44 ∷ []

-- A null pointer is not the literal.
unfoldable pub is_fin_removed : Option (List ℕ) → Bool
unfolding same_chars
is_fin_removed none = false
is_fin_removed (some text) = same_chars text literal_fin_removed

-- The overload of `resumeM0` by which the operator confirms the session and the removal of the fin.
unfoldable pub confirm_m0 :
    SessionId → Option (List ℕ) → CampaignStateMachine → CampaignStateMachine × CampaignStatus
unfolding same_chars is_fin_removed
confirm_m0 confirmed_session_id text m = elim m.state [
  | awaiting_m0_confirmation ↦
      if not (same_chars confirmed_session_id m.session_id)
      then (m, session_id_mismatch)
      else if not (is_fin_removed text)
      then (m, fin_removal_confirmation_required)
      else (record m { state = ready }, ok)
  | _ ↦ (m, invalid_state)
]
