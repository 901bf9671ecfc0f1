-- ===== src/Exec/Engine.antt =====
-- exec/include/ovf/exec/internal/engine.hpp and exec/src/engine.cpp: the state of the execution
-- engine and its operations under the lock. One worker executes transitions; other threads cancel.
pub mod Actions
pub mod Recovery
pub mod Execution
pub mod Replay
pub mod Policies
pub mod Phases
pub mod Refusals
pub mod Failures
pub mod Stops
pub mod Starts
pub mod Commits
pub mod MemoryJournal
pub mod Leases
pub mod Examples
use openvehicleframework.Base.{
  ℕ, zero, suc, ◌+◌, Bool, true, false, not, ◌&&◌, ◌||◌, Option, some, none, List, [], ◌∷◌, ◌++◌,
  Table, find, assign, if◌then◌else◌, ltb, Result, ok, err, fail, Error, ErrorCode, no_error,
  invalid_argument, invalid_identifier, invalid_transition, already_exists, not_found,
  permission_denied, busy, superseded, cancelled, deadline_exceeded, resource_exhausted,
  configuration_error, communication_error, backend_unavailable, backend_error, persistence_error,
  incompatible_abi, unsupported, internal_error,
}
use openvehicleframework.Exec.Types.{
  TransitionPhase, ApplicationState, FailureAction, ReadinessPolicy, StopReason,
}
use openvehicleframework.Exec.Planner.{SystemConfiguration, TransitionPlan}
use openvehicleframework.Exec.Scheduler.{Move}
use openvehicleframework.Exec.Scheduler

-- What the backend says of a unit. Exit code and signal are their 32-bit patterns; the message is
-- left out.
pub record BackendEvidence : Type 0 where
  pub state : ApplicationState
  pub exit_code : ℕ
  pub signal : ℕ
  pub native_code : ℕ

abbrev pub no_evidence : BackendEvidence
no_evidence = record {
  state = ApplicationState.unknown;
  exit_code = 0;
  signal = 0;
  native_code = 0;
}

pub record TransitionFailure : Type 0 where
  pub error : Error
  pub application : Option ℕ
  pub evidence : BackendEvidence
  pub recovery_action : FailureAction
  pub recovery_attempted : Bool
  pub recovery_succeeded : Bool
  pub recovery_error : Option Error
  pub recovered_mode : Option ℕ
  pub recovery_stopped_applications : List ℕ
  pub recovery_started_applications : List ℕ

pub record TransitionSnapshot : Type 0 where
  pub id : ℕ
  pub domain : ℕ
  pub source_mode : ℕ
  pub target_mode : ℕ
  pub phase : TransitionPhase
  pub updated_at : ℕ
  pub failure : Option TransitionFailure

pub record JournalEvent : Type 0 where
  pub transition : TransitionSnapshot
  pub generation : ℕ
  pub plan : Option TransitionPlan

pub record AcceptedTransition : Type 0 where
  pub id : ℕ
  pub plan : TransitionPlan
  pub deadline : ℕ

-- The fields of the engine that change; the model does not.
pub record Engine : Type 0 where
  pub configuration : SystemConfiguration
  pub transitions : Table TransitionSnapshot
  pub plans : Table TransitionPlan
  pub cancellation : Table Bool
  pub next_transition : ℕ
  pub scheduler : Scheduler.State

-- What the engine reaches through interfaces and the standard library: the clock, the process
-- backend, the journal, and what other threads do meanwhile. Each operation may change the world.
pub record Environment : Type 1 where
  pub World : Type 0
  pub now : World → ℕ × World
  pub sleep_until : ℕ → World → World
  pub inspect : ℕ → World → Result BackendEvidence × World
  pub start : ℕ → ℕ → World → Result BackendEvidence × World
  pub stop : ℕ → StopReason → ℕ → World → Result BackendEvidence × World
  pub request_system_recovery : ℕ → World → Result (Unit {0}) × World
  pub append : JournalEvent → World → Result (Unit {0}) × World
  pub replay : World → Result (List JournalEvent) × World
  -- The transitions that other threads asked to cancel since the last look at the flags.
  pub cancellations : World → List ℕ × World
  -- What other threads do with the scheduler while a call waits for its lease.
  pub meanwhile : World → List Move × World

-- `static_cast<std::uint64_t>(code)`.
abbrev pub code_number : ErrorCode → ℕ
code_number no_error = 0
code_number invalid_argument = 1
code_number invalid_identifier = 2
code_number invalid_transition = 3
code_number already_exists = 4
code_number not_found = 5
code_number permission_denied = 6
code_number busy = 7
code_number superseded = 8
code_number cancelled = 9
code_number deadline_exceeded = 10
code_number resource_exhausted = 11
code_number configuration_error = 12
code_number communication_error = 13
code_number backend_unavailable = 14
code_number backend_error = 15
code_number persistence_error = 16
code_number incompatible_abi = 17
code_number unsupported = 18
code_number internal_error = 19

-- `static_cast<std::uint8_t>(phase)`.
abbrev pub phase_number : TransitionPhase → ℕ
phase_number TransitionPhase.received = 0
phase_number TransitionPhase.validated = 1
phase_number TransitionPhase.planned = 2
phase_number TransitionPhase.stopping = 3
phase_number TransitionPhase.starting = 4
phase_number TransitionPhase.awaiting_readiness = 5
phase_number TransitionPhase.committing = 6
phase_number TransitionPhase.succeeded = 7
phase_number TransitionPhase.rejected = 8
phase_number TransitionPhase.failed = 9
phase_number TransitionPhase.cancelled = 10
phase_number TransitionPhase.superseded = 11
phase_number TransitionPhase.deadline_exceeded = 12
phase_number TransitionPhase.recovery_failed = 13
phase_number TransitionPhase.recovering = 14

-- `is_terminal` of `Create`.
abbrev pub is_terminal : TransitionPhase → Bool
is_terminal TransitionPhase.succeeded = true
is_terminal TransitionPhase.rejected = true
is_terminal TransitionPhase.failed = true
is_terminal TransitionPhase.cancelled = true
is_terminal TransitionPhase.superseded = true
is_terminal TransitionPhase.deadline_exceeded = true
is_terminal TransitionPhase.recovery_failed = true
is_terminal _ = false

abbrev pub is_committing : TransitionPhase → Bool
is_committing TransitionPhase.committing = true
is_committing _ = false

-- `Cancel`.
unfoldable pub cancel : ℕ → Engine → Engine × Result (Unit {0})
cancel id e = elim (find id e.cancellation) [
  | none ↦ (e, fail not_found)
  | some _ ↦ elim (find id e.transitions) [
    | none ↦ (e, fail internal_error)
    | some t ↦
        if is_committing t.phase || is_terminal t.phase
        then (e, fail invalid_transition)
        else (record e { cancellation = assign id true e.cancellation }, ok tt)
  ]
]

pub cancel_each : List ℕ → Engine → Engine
unfolding cancel
cancel_each [] e = e
cancel_each (id ∷ ids) e = cancel_each ids (cancel id e).0

-- `GetTransition`.
abbrev pub get_transition : ℕ → Engine → Result TransitionSnapshot
get_transition id e = elim (find id e.transitions) [ none ↦ fail not_found | some t ↦ ok t ]
