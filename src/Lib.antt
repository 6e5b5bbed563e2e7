-- ===== src/Lib.antt =====
-- The mission board of a rocket: the flight state machine, the command executor, the actuators' safety
-- core, the CAN codec, the recovery and the motor characterization, modelled from the C++ firmware
-- under src/ and include/.
--
-- The program. A mission task ticks `MissionStateMachine` (src/mission/mission_state.cpp) with the
-- sensors' findings and the safety requests of the deployment logic; it keeps the flight's state,
-- clock and epoch and derives the directives for the fin and the parachute. Ground commands arrive
-- over CAN and pass `CommandExecutor` (src/mission/command_executor.cpp), which answers repeats from
-- a cache of results and keeps commands apart that must not run together; an accepted start, cancel
-- or disabling calls the state machine. Both consult the fin overtravel guard
-- (src/control/fin_overtravel_guard.cpp), which the fin task feeds. The power arbiter and
-- the parachute controller (src/actuators/safety_core.cpp) are the rules for carrying the parachute's
-- directives out; so far only the tests on the host call them. The codec (src/protocol/can_protocol.cpp) turns messages into
-- frames and back; emergency stops come in through a latch (src/runtime/emergency_latch.hpp); and
-- after the flight src/mission/recovery.cpp decides how the board boots and sleeps, from what
-- src/runtime/recovery_boot.cpp keeps in the RTC memory over a reset: the flight's checkpoint, which
-- `restoreAfterReset` takes up, the audit of the start and the recovery marker.
--
-- A second firmware characterizes the fin's motor. A campaign of stages
-- (src/characterization/campaign_state_machine.cpp) says which run is next and hands the session over a
-- power cycle. During a run the encoder's task passes samples through a ring
-- (include/characterization/spsc_ring.hpp) to the runner, which sorts them into epochs
-- (src/characterization/fixed_epoch_assembler.cpp), tests each request against the fin's limits
-- (src/characterization/position_guard.cpp) and sends it through the command journal
-- (src/characterization/command_journal.cpp); src/characterization/zero_approach.cpp leads the fin to
-- its zero.
--
-- The files.
--   Base, Base/*       Boolean tests, lists and words over the native naturals, and integers
--   Double             doubles as bit patterns: finiteness and the order of magnitudes
--   Overtravel         src/control/fin_overtravel_guard.cpp: the atomics as the record Guard;
--                      observe, clear_if_recoverable, clear_fault
--   Protocol/Types, Protocol/Enums   the shared types of src/protocol/can_protocol.hpp
--   Protocol/Frame     the frames, fields and checks of src/protocol/can_protocol.cpp
--   Protocol/Messages  its encode and decode, a module for each message; Roundtrips
--   Protocol/Sequences TelemetrySequences::next, canPeriodMilliseconds
--   Mission/Snapshot   the data of src/mission/mission_state.hpp
--   Mission/Machine    MissionStateMachine: its fields as a record, with the directives;
--     Operations       startSequence, cancelSequence, disableFinControl,
--                      liftoffDetectionEmergencyStop, restoreAfterReset
--     Tick             tick, one function for each of its blocks, composed in its order
--     Invariant, Events   well-formedness, and histories of all calls since boot
--     Deployment, Flight, Entry, Outputs, Commands, Reset   what the operations mean
--   Mission/Commands   the command tables of src/mission/command_executor.cpp
--   Mission/Executor   CommandExecutor: the sixteen entries as a list;
--     Cache, Calls     find, allocate, remember; begin, finish, actuatorEmergency
--     Invariant, Slots, Begin, Once, Replay, Finish, Emergency, Histories   its laws
--   Actuators/Angle    src/actuators/parachute_configuration.hpp
--   Actuators/Power, Actuators/Parachute   src/actuators/safety_core.cpp: PowerArbiter,
--                      ParachuteController
--   Mission/Recovery   src/mission/recovery.cpp: the marker, selectBootPath, RecoveryRuntime
--   Sensors/Freshness, Sensors/AirspeedGate   src/sensors/sensor_health.hpp and .cpp
--   Runtime/EmergencyLatch   src/runtime/emergency_latch.hpp
--   Runtime/RecoveryBoot   src/runtime/recovery_boot.cpp: storeFlightCheckpoint and its load, the
--                      audit's, commitRecoveryEntryMarker, wakeSequence
--     Masks, Checkpoint, Audit, Marker   what is stored is what is loaded
--   Characterization/Types   the enumerations of include/characterization/characterization_types.hpp
--     Requests         the motor commands that are fit to be sent, apart from the code's tests
--   Characterization/Campaign   CampaignStateMachine: its operations;
--     Handoff          validateHandoff, prepareM0, resumeM0, confirmM0
--     Calls, Finish, Arming, Stages, Measured, Runs, Resume   histories of its calls, and what they need
--   Characterization/SpscRing   SpscRing: tryPush and tryPop as steps of the two tasks;
--     Fifo, Contents, Holds, Refine   the bounded queue that the ring refines
--   Characterization/CommandJournal   CommandJournal: apply, arm, disarm, stopForError and the others;
--     Cases, Safety, Sent, Outcome   what reaches the motor's driver
--   Characterization/PositionGuard   PositionGuard::evaluate, commandForFinError; Limits, Inward
--   Characterization/ZeroApproach   ZeroApproachPlan, ZeroApproachController; Visits, Dwell
--   Characterization/EpochAssembler   FixedEpochAssembler: reset and add;
--     Release, Placement, Order   release, and the samples and epochs of the blocks
--   */Examples         concrete runs, and the theorems applied to them
--
-- Conventions. Unsigned words are naturals; where the code's arithmetic can wrap, the wrap is written
-- out (u8, u32, add64, sub64). An operation that mutates its object returns the new one, with its
-- result beside it. Loops over the entries and histories are structural recursion, so that no fuel is
-- needed. An atomic is a field: the calls of the overtravel guard are taken as single steps, and each
-- load, store and copy of the ring is a step of its own, in any interleaving of the two tasks; the
-- acquiring loads and releasing stores of its two indices order the copies as the steps do. Signed
-- numbers are integers; where the code saturates or tests for an overflow, so do the functions. The
-- motor driver's answers, the platform's reset reasons and the RTC clock are arguments.
--
-- Not modelled: arithmetic on doubles (the estimators, the control law, the quantization of
-- telemetry, recoveryElapsedRaw), the drivers and tasks around the components, the bring-up shells,
-- the calls of the non-volatile storage, and of the characterization firmware the log's format, the
-- validation of its records, the profiles and the tasks.
pub mod Base
pub mod Double
pub mod Protocol
pub mod Overtravel
pub mod Mission
pub mod Actuators
pub mod Sensors
pub mod Runtime
pub mod Characterization
