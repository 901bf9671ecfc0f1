-- ===== src/Exec/Types.antt =====
-- exec/include/ovf/exec/types.hpp and model.hpp. An identifier is its 64-bit value, zero being the
-- invalid one; a name is its bytes.
use openvehicleframework.Base.{ℕ, suc, ◌+◌, ◌-◌, ◌*◌, Bool, true, false, List, ◌==◌, ◌&&◌, not}

pub data TransitionPhase : Type 0 where
  received validated planned stopping starting awaiting_readiness committing : TransitionPhase
  succeeded rejected failed cancelled superseded deadline_exceeded : TransitionPhase
  recovery_failed recovering : TransitionPhase

pub data ApplicationState : Type 0 where
  unknown starting ready stopping stopped failed killed unavailable : ApplicationState

pub data StopReason : Type 0 where
  none mode_change system_shutdown restart supervisor_request : StopReason
  dependency_failure recovery unknown : StopReason

pub data ReplacementPolicy : Type 0 where
  reject_while_busy queue supersede_if_safe : ReplacementPolicy

pub data FailureAction : Type 0 where
  hold_observed_configuration enter_fallback_mode rollback_if_declared_safe : FailureAction
  stop_domain request_system_recovery : FailureAction

pub data ReadinessPolicy : Type 0 where
  lifecycle_channel process_started supervisor_notification : ReadinessPolicy
  successful_exit socket_available mount_present : ReadinessPolicy

pub data ExecutionUnitKind : Type 0 where
  managed_application service one_shot mount external : ExecutionUnitKind

pub data ConstraintKind : Type 0 where
  requires_mode excludes_mode : ConstraintKind

-- A signed count of milliseconds: `minus n` is -(n + 1).
pub data Milliseconds : Type 0 where
  plus : ℕ → Milliseconds
  minus : ℕ → Milliseconds

-- `count() <= 0`.
abbrev pub not_positive : Milliseconds → Bool
not_positive (plus n) = n == 0
not_positive (minus n) = true

-- `count() < 0`.
abbrev pub is_negative : Milliseconds → Bool
is_negative (plus n) = false
is_negative (minus n) = true

-- A point of the steady clock, which counts nanoseconds, later by a duration.
abbrev pub later : ℕ → Milliseconds → ℕ
later now (plus n) = now + n * 1000000
later now (minus n) = now - suc n * 1000000

-- `valid()` of an identifier.
abbrev pub valid : ℕ → Bool
valid id = not (id == 0)

pub record ModeRef : Type 0 where
  pub domain : ℕ
  pub mode : ℕ

-- `operator==` of two mode references.
abbrev pub same_ref : ModeRef → ModeRef → Bool
same_ref r s = (r.domain == s.domain) && (r.mode == s.mode)

pub record RetryPolicy : Type 0 where
  pub max_attempts : ℕ
  pub delay : Milliseconds

pub record ExecutionUnitDefinition : Type 0 where
  pub id : ℕ
  pub name : List ℕ
  pub readiness : ReadinessPolicy
  pub start_timeout : Milliseconds
  pub stop_timeout : Milliseconds
  pub retry : RetryPolicy
  pub dependencies : List ℕ
  pub exclusive_resources : List ℕ
  pub kind : ExecutionUnitKind
  pub bootstrap : Bool

pub record ModeConstraint : Type 0 where
  pub kind : ConstraintKind
  pub other : ModeRef

pub record ModeDefinition : Type 0 where
  pub id : ℕ
  pub name : List ℕ
  pub units : List ℕ
  pub constraints : List ModeConstraint

pub record RecoveryPolicy : Type 0 where
  pub action : FailureAction
  pub fallback_mode : ℕ
  pub deadline : Milliseconds

pub record DomainDefinition : Type 0 where
  pub id : ℕ
  pub name : List ℕ
  pub initial_mode : ℕ
  pub replacement : ReplacementPolicy
  pub recovery : RecoveryPolicy
  pub modes : List ModeDefinition

pub record ExecutionModel : Type 0 where
  pub generation : ℕ
  pub units : List ExecutionUnitDefinition
  pub domains : List DomainDefinition
