-- ===== src/Protocol/Enums/Mission.antt =====
-- protocol/can_protocol.hpp: the bytes of the enumerations, the states and the phases and reasons of command results.
use avi_99l_mission_board.Base.{ℕ, ◌≡◌, refl, Option, none, some, ◌==◌, if◌then◌else◌, arith}
use avi_99l_mission_board.Protocol.Types.{MissionState, CommandPhase, CommandReason}

abbrev pub mission_state_code : MissionState → ℕ
mission_state_code MissionState.command_receive = 0
mission_state_code MissionState.liftoff_detection = 1
mission_state_code MissionState.engine_burn = 2
mission_state_code MissionState.control = 3
mission_state_code MissionState.descent = 4
mission_state_code MissionState.unknown = 255

unfoldable pub mission_state_of : ℕ → Option MissionState
mission_state_of b =
    if b == 0
    then some MissionState.command_receive
    else if b == 1
    then some MissionState.liftoff_detection
    else if b == 2
    then some MissionState.engine_burn
    else if b == 3
    then some MissionState.control
    else if b == 4
    then some MissionState.descent
    else if b == 255
    then some MissionState.unknown
    else none

pub mission_state_of-code : (x : MissionState) → mission_state_of (mission_state_code x) ≡ some x
unfolding mission_state_of
mission_state_of-code MissionState.command_receive = refl
mission_state_of-code MissionState.liftoff_detection = refl
mission_state_of-code MissionState.engine_burn = refl
mission_state_of-code MissionState.control = refl
mission_state_of-code MissionState.descent = refl
mission_state_of-code MissionState.unknown = refl

pub mission_state_code-of :
    (b : ℕ) {x : MissionState} → mission_state_of b ≡ some x → mission_state_code x ≡ b
unfolding mission_state_of
mission_state_code-of b h = ground arith

abbrev pub command_phase_code : CommandPhase → ℕ
command_phase_code CommandPhase.accepted = 0
command_phase_code CommandPhase.completed = 1
command_phase_code CommandPhase.rejected = 2
command_phase_code CommandPhase.failed = 3

unfoldable pub command_phase_of : ℕ → Option CommandPhase
command_phase_of b =
    if b == 0
    then some CommandPhase.accepted
    else if b == 1
    then some CommandPhase.completed
    else if b == 2
    then some CommandPhase.rejected
    else if b == 3
    then some CommandPhase.failed
    else none

pub command_phase_of-code : (x : CommandPhase) → command_phase_of (command_phase_code x) ≡ some x
unfolding command_phase_of
command_phase_of-code CommandPhase.accepted = refl
command_phase_of-code CommandPhase.completed = refl
command_phase_of-code CommandPhase.rejected = refl
command_phase_of-code CommandPhase.failed = refl

pub command_phase_code-of :
    (b : ℕ) {x : CommandPhase} → command_phase_of b ≡ some x → command_phase_code x ≡ b
unfolding command_phase_of
command_phase_code-of b h = ground arith

abbrev pub command_reason_code : CommandReason → ℕ
command_reason_code CommandReason.none = 0
command_reason_code CommandReason.busy = 1
command_reason_code CommandReason.invalid_state = 2
command_reason_code CommandReason.invalid_argument = 3
command_reason_code CommandReason.not_configured = 4
command_reason_code CommandReason.device_unavailable = 5
command_reason_code CommandReason.timeout = 6
command_reason_code CommandReason.stall = 7
command_reason_code CommandReason.protocol_error = 8
command_reason_code CommandReason.interrupted_by_emergency = 9
command_reason_code CommandReason.persistence_error = 10
command_reason_code CommandReason.internal_error = 11
command_reason_code CommandReason.not_supported = 12
command_reason_code CommandReason.safety_interlock = 13
command_reason_code CommandReason.already_satisfied = 14

unfoldable pub command_reason_of : ℕ → Option CommandReason
command_reason_of b =
    if b == 0
    then some CommandReason.none
    else if b == 1
    then some CommandReason.busy
    else if b == 2
    then some CommandReason.invalid_state
    else if b == 3
    then some CommandReason.invalid_argument
    else if b == 4
    then some CommandReason.not_configured
    else if b == 5
    then some CommandReason.device_unavailable
    else if b == 6
    then some CommandReason.timeout
    else if b == 7
    then some CommandReason.stall
    else if b == 8
    then some CommandReason.protocol_error
    else if b == 9
    then some CommandReason.interrupted_by_emergency
    else if b == 10
    then some CommandReason.persistence_error
    else if b == 11
    then some CommandReason.internal_error
    else if b == 12
    then some CommandReason.not_supported
    else if b == 13
    then some CommandReason.safety_interlock
    else if b == 14
    then some CommandReason.already_satisfied
    else none

pub command_reason_of-code :
    (x : CommandReason) → command_reason_of (command_reason_code x) ≡ some x
unfolding command_reason_of
command_reason_of-code CommandReason.none = refl
command_reason_of-code CommandReason.busy = refl
command_reason_of-code CommandReason.invalid_state = refl
command_reason_of-code CommandReason.invalid_argument = refl
command_reason_of-code CommandReason.not_configured = refl
command_reason_of-code CommandReason.device_unavailable = refl
command_reason_of-code CommandReason.timeout = refl
command_reason_of-code CommandReason.stall = refl
command_reason_of-code CommandReason.protocol_error = refl
command_reason_of-code CommandReason.interrupted_by_emergency = refl
command_reason_of-code CommandReason.persistence_error = refl
command_reason_of-code CommandReason.internal_error = refl
command_reason_of-code CommandReason.not_supported = refl
command_reason_of-code CommandReason.safety_interlock = refl
command_reason_of-code CommandReason.already_satisfied = refl

pub command_reason_code-of :
    (b : ℕ) {x : CommandReason} → command_reason_of b ≡ some x → command_reason_code x ≡ b
unfolding command_reason_of
command_reason_code-of b h = ground arith
