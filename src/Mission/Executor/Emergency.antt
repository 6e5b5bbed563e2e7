-- ===== src/Mission/Executor/Emergency.antt =====
-- `actuatorEmergency`: the stop that ends every pending fin and parachute command
-- (mission/command_executor.cpp).
use avi_99l_mission_board.Base.{
  ℕ, ◌+◌, ◌≤◌, ◌≡◌, ◌≢◌, refl, Bool, true, false, not, ◌&&◌, List, [], ◌∷◌, ◌++◌, ltb, length, All,
  arith, Bool-cases, inl, inr, ◌∙◌, u32, sym, ap, ◌↔◌, subst, length-append, if◌then◌else◌,
}
use mathlib.Core.List.{append-nil, append_assoc}
use avi_99l_mission_board.Protocol.Types.{
  MissionState, command_receive, CommandPhase, CommandReason, CommandResult,
}
use avi_99l_mission_board.Mission.Commands.{CommandDomain}
use avi_99l_mission_board.Mission.Executor.{Entry, CommandExecutor}
use avi_99l_mission_board.Mission.Executor.Calls.{
  is_actuator, interrupt, actuator_emergency, finished_entry,
}
use avi_99l_mission_board.Mission.Executor.Cache.{is_pending_in, has_id}
use avi_99l_mission_board.Mission.Executor.Invariant.{IsSound, IsValid, pending_count, id_count}

abbrev pub is_hit : Entry → Bool
is_hit e = e.pending && is_actuator e.domain

-- The results of the commands that an emergency stop ends, in the order of their slots.
abbrev pub interrupted_results : List Entry → List CommandResult
interrupted_results [] = []
interrupted_results (e ∷ es) =
    let rest = interrupted_results es in
    if is_hit e
    then record e.result {
      phase = CommandPhase.failed;
      reason = CommandReason.interrupted_by_emergency;
    }
      ∷ rest
    else rest

hit_length :
    (e : Entry) (es : List Entry)
    → is_hit e ≡ true
    → length (interrupted_results (e ∷ es)) ≡ length (interrupted_results es) + 1
hit_length e es hit = rw hit (omega arith)

interrupt_collects :
    (age : ℕ) (found : List CommandResult) (es : List Entry)
    → length found + length (interrupted_results es) ≤ 2
    → (interrupt age found es).2 ≡ found ++ interrupted_results es
unfolding interrupt
interrupt_collects age found [] h = sym (append-nil found)
interrupt_collects age found (e ∷ es) h = elim (Bool-cases (is_hit e)) [
  | inr miss ↦ rw miss (interrupt_collects age found es (rw miss at h))
  | inl hit ↦
      let room : ltb (length found) 2 ≡ true = ground arith in
      let r : CommandResult = record e.result {
        phase = CommandPhase.failed;
        reason = CommandReason.interrupted_by_emergency;
      } in
      rw (hit, room)
        (interrupt_collects (u32 (age + 1)) (found ++ r ∷ []) es
            (omega (arith, length-append found (r ∷ []), h, hit_length e es hit))
          ∙ append_assoc found (r ∷ []) (interrupted_results es))
]

-- The entry as the loop leaves it, with the age that it took.
abbrev stopped : ℕ → Entry → Entry
stopped age e =
    if is_hit e
    then finished_entry e (u32 (age + 1)) CommandPhase.failed CommandReason.interrupted_by_emergency
        e.result.detail
    else e

module _ (age : ℕ) (e : Entry) where
  stopped_pending :
      (d : CommandDomain)
      → is_pending_in d (stopped age e) ≡ (is_pending_in d e && not (is_actuator d))
  stopped_pending d = ground arith

  stopped_id : (t : ℕ) → has_id t (stopped age e) ≡ has_id t e
  stopped_id t = ground arith

  stopped-IsSound : IsSound e → IsSound (stopped age e)
  stopped-IsSound s = ground arith

module _ (age : ℕ) (found : List CommandResult) where
  interrupt_cons :
      (e : Entry) (es : List Entry)
      → (age' : ℕ) × (found' : List CommandResult) × ((interrupt age found (e ∷ es)).0
          ≡ stopped age e ∷ (interrupt age' found' es).0)
  unfolding interrupt
  interrupt_cons e es = elim (Bool-cases (is_hit e)) [
    | inl hit ↦
        let r : CommandResult = record e.result {
          phase = CommandPhase.failed;
          reason = CommandReason.interrupted_by_emergency;
        } in
        (u32 (age + 1), (if ltb (length found) 2 then found ++ r ∷ [] else found), rw hit)
    | inr miss ↦ (age, found, rw miss)
  ]

  interrupt_nil : (interrupt age found []).0 ≡ []
  unfolding interrupt
  interrupt_nil = refl

length-interrupt :
    (es : List Entry) (age : ℕ) (found : List CommandResult)
    → length (interrupt age found es).0 ≡ length es
length-interrupt [] age found = rw (interrupt_nil age found)
length-interrupt (e ∷ es) age found =
    let (age', found', shape) = interrupt_cons age found e es in
    rw (shape, length-interrupt es age' found')

interrupt_pending :
    (d : CommandDomain) (es : List Entry) (age : ℕ) (found : List CommandResult)
    → pending_count d (interrupt age found es).0 ≡ (if is_actuator d then 0 else pending_count d es)
interrupt_pending d [] age found = rw (interrupt_nil age found) (ground arith)
interrupt_pending d (e ∷ es) age found =
    let (age', found', shape) = interrupt_cons age found e es in
    rw (shape, stopped_pending age e d, interrupt_pending d es age' found') (ground arith)

interrupt_ids :
    (t : ℕ) (es : List Entry) (age : ℕ) (found : List CommandResult)
    → id_count t (interrupt age found es).0 ≡ id_count t es
interrupt_ids t [] age found = rw (interrupt_nil age found)
interrupt_ids t (e ∷ es) age found =
    let (age', found', shape) = interrupt_cons age found e es in
    rw (shape, stopped_id age e t, interrupt_ids t es age' found')

interrupt-IsSound :
    (es : List Entry) (age : ℕ) (found : List CommandResult)
    → All IsSound es
    → All IsSound (interrupt age found es).0
interrupt-IsSound [] age found s = rw (interrupt_nil age found) tt
interrupt-IsSound (e ∷ es) age found s =
    let (age', found', shape) = interrupt_cons age found e es in
    rw shape (stopped-IsSound age e s.0, interrupt-IsSound es age' found' s.1)

-- At most two commands are hit: one of the fin and one of the parachute.
hits_bounded :
    (es : List Entry)
    → All IsSound es
    → length (interrupted_results es)
      ≡ pending_count CommandDomain.fin es + pending_count CommandDomain.parachute es
hits_bounded [] s = refl
hits_bounded (e ∷ es) s = ground (arith, s.0, hits_bounded es s.1)

pending_quieter :
    (d : CommandDomain) (es : List Entry) (age : ℕ) (found : List CommandResult)
    → pending_count d (interrupt age found es).0 ≤ pending_count d es
pending_quieter d es age found = ground (arith, interrupt_pending d es age found)

IsValid-after :
    {ex ex' : CommandExecutor}
    → IsValid ex
    → ex'.entries ≡ (interrupt ex.age [] ex.entries).0
    → IsValid ex'
IsValid-after {ex} {ex'} v same =
    let quieter = λ (d : CommandDomain). pending_quieter d ex.entries ex.age [] in
    record {
      size = ap length same ∙ length-interrupt ex.entries ex.age [] ∙ v.size;
      ids = λ t. rw (same, interrupt_ids t ex.entries ex.age []) (v.ids t);
      slots = λ d. rw same (omega (arith, quieter d, v.slots d));
      calibration_fin = rw same (
          omega (
            arith,
            quieter CommandDomain.calibration,
            quieter CommandDomain.fin,
            v.calibration_fin,
          ));
      calibration_parachute = rw same (
          omega (
            arith,
            quieter CommandDomain.calibration,
            quieter CommandDomain.parachute,
            v.calibration_parachute,
          ));
      sound = rw same (interrupt-IsSound ex.entries ex.age [] v.sound);
    }

module _ (t : ℕ) (state : MissionState) (ex : CommandExecutor) where
  -- The stop is carried out exactly in CommandReceive and for an id above 0; otherwise the executor
  -- and its list of interrupted commands stay as they are.
  pub emergency_executes_iff :
      ((actuator_emergency t state ex).1.execute ≡ true) ↔ ((t ≢ 0) × (state ≡ command_receive))
  unfolding actuator_emergency
  emergency_executes_iff = (ground arith, ground arith)

  emergency_refused :
      (actuator_emergency t state ex).1.execute ≡ false
      → ((actuator_emergency t state ex).0 ≡ ex)
        × ((actuator_emergency t state ex).1.interrupted ≡ [])
  unfolding actuator_emergency
  emergency_refused h = (ground arith, ground arith)

  emergency_runs :
      t ≢ 0
      → state ≡ command_receive
      → ((actuator_emergency t state ex).0.entries ≡ (interrupt ex.age [] ex.entries).0)
        × ((actuator_emergency t state ex).1.interrupted ≡ (interrupt ex.age [] ex.entries).2)
  unfolding actuator_emergency
  emergency_runs nz here = (ground arith, ground arith)

  -- An emergency stop that is carried out in a valid executor ends every pending fin and parachute
  -- command and no other pending one, keeps every cached id, and reports each command that it ends,
  -- in slot order and as failed by the emergency: the two places for them are always enough.
  pub emergency_lem :
      IsValid ex
      → t ≢ 0
      → state ≡ command_receive
      → let (ex', d) = actuator_emergency t state ex in
        (d.interrupted ≡ interrupted_results ex.entries)
        × ((c : CommandDomain)
            → pending_count c ex'.entries
              ≡ (if is_actuator c then 0 else pending_count c ex.entries))
        × ((s : ℕ) → id_count s ex'.entries ≡ id_count s ex.entries)
        × IsValid ex'
  emergency_lem v nz here =
      let (entries, reported) = emergency_runs nz here in
      let few : 0 + length (interrupted_results ex.entries) ≤ 2 = omega (
        arith,
        hits_bounded ex.entries v.sound,
        v.slots CommandDomain.fin,
        v.slots CommandDomain.parachute,
      ) in
      (
        reported ∙ interrupt_collects ex.age [] ex.entries few,
        λ c. ap (pending_count c) entries ∙ interrupt_pending c ex.entries ex.age [],
        λ s. ap (id_count s) entries ∙ interrupt_ids s ex.entries ex.age [],
        IsValid-after v entries,
      )

  pub actuator_emergency-IsValid : IsValid ex → IsValid (actuator_emergency t state ex).0
  actuator_emergency-IsValid v = elim (Bool-cases (actuator_emergency t state ex).1.execute) [
    | inl runs ↦
        let (nz, here) = emergency_executes_iff.0 runs in IsValid-after v (emergency_runs nz here).0
    | inr refused ↦ subst IsValid (sym (emergency_refused refused).0) v
  ]
