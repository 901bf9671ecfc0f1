-- ===== src/Exec/Engine/Phases.antt =====
-- exec/src/engine.cpp: the order of the phases that `valid_progress` of `Create` demands.
use openvehicleframework.Base.{
  ℕ, Bool, true, not, if◌then◌else◌, ◌==◌, ltb, ◌&&◌, ◌||◌, ◌≡◌, refl, sym, ap, ◌∙◌, ◌⊎◌, inl, inr,
  arith,
}
use openvehicleframework.Exec.Types.{TransitionPhase}
use openvehicleframework.Exec.Engine.{phase_number, is_terminal}
use openvehicleframework.Exec.Engine.Replay.{is_recovering, ends_recovery, valid_progress}

-- The tests of a phase are tests of its number.
is_terminal-phase_number :
    (p : TransitionPhase) → is_terminal p ≡ (ltb 6 (phase_number p) && ltb (phase_number p) 14)
is_terminal-phase_number TransitionPhase.received = refl
is_terminal-phase_number TransitionPhase.validated = refl
is_terminal-phase_number TransitionPhase.planned = refl
is_terminal-phase_number TransitionPhase.stopping = refl
is_terminal-phase_number TransitionPhase.starting = refl
is_terminal-phase_number TransitionPhase.awaiting_readiness = refl
is_terminal-phase_number TransitionPhase.committing = refl
is_terminal-phase_number TransitionPhase.succeeded = refl
is_terminal-phase_number TransitionPhase.rejected = refl
is_terminal-phase_number TransitionPhase.failed = refl
is_terminal-phase_number TransitionPhase.cancelled = refl
is_terminal-phase_number TransitionPhase.superseded = refl
is_terminal-phase_number TransitionPhase.deadline_exceeded = refl
is_terminal-phase_number TransitionPhase.recovery_failed = refl
is_terminal-phase_number TransitionPhase.recovering = refl

is_recovering-phase_number : (p : TransitionPhase) → is_recovering p ≡ (phase_number p == 14)
is_recovering-phase_number TransitionPhase.received = refl
is_recovering-phase_number TransitionPhase.validated = refl
is_recovering-phase_number TransitionPhase.planned = refl
is_recovering-phase_number TransitionPhase.stopping = refl
is_recovering-phase_number TransitionPhase.starting = refl
is_recovering-phase_number TransitionPhase.awaiting_readiness = refl
is_recovering-phase_number TransitionPhase.committing = refl
is_recovering-phase_number TransitionPhase.succeeded = refl
is_recovering-phase_number TransitionPhase.rejected = refl
is_recovering-phase_number TransitionPhase.failed = refl
is_recovering-phase_number TransitionPhase.cancelled = refl
is_recovering-phase_number TransitionPhase.superseded = refl
is_recovering-phase_number TransitionPhase.deadline_exceeded = refl
is_recovering-phase_number TransitionPhase.recovery_failed = refl
is_recovering-phase_number TransitionPhase.recovering = refl

ends_recovery-phase_number :
    (p : TransitionPhase) → ends_recovery p ≡ ((phase_number p == 9) || (phase_number p == 13))
ends_recovery-phase_number TransitionPhase.received = refl
ends_recovery-phase_number TransitionPhase.validated = refl
ends_recovery-phase_number TransitionPhase.planned = refl
ends_recovery-phase_number TransitionPhase.stopping = refl
ends_recovery-phase_number TransitionPhase.starting = refl
ends_recovery-phase_number TransitionPhase.awaiting_readiness = refl
ends_recovery-phase_number TransitionPhase.committing = refl
ends_recovery-phase_number TransitionPhase.succeeded = refl
ends_recovery-phase_number TransitionPhase.rejected = refl
ends_recovery-phase_number TransitionPhase.failed = refl
ends_recovery-phase_number TransitionPhase.cancelled = refl
ends_recovery-phase_number TransitionPhase.superseded = refl
ends_recovery-phase_number TransitionPhase.deadline_exceeded = refl
ends_recovery-phase_number TransitionPhase.recovery_failed = refl
ends_recovery-phase_number TransitionPhase.recovering = refl

-- `valid_progress` on the numbers of the phases.
abbrev pub number_progress : ℕ → ℕ → Bool
number_progress p q =
    if p == q
    then true
    else if p == 14
    then (q == 9) || (q == 13)
    else not (ltb 6 p && ltb p 14) && ltb p q

pub valid_progress-phase_number :
    (p q : TransitionPhase) → valid_progress p q ≡ number_progress (phase_number p) (phase_number q)
unfolding valid_progress
valid_progress-phase_number p q =
    ground (
      arith,
      is_terminal-phase_number p,
      is_recovering-phase_number p,
      ends_recovery-phase_number q,
    )

-- If one phase may follow another and a third may follow that one, the third may follow the first.
pub valid_progress_trans :
    (p q r : TransitionPhase)
    → valid_progress p q ≡ true
    → valid_progress q r ≡ true
    → valid_progress p r ≡ true
valid_progress_trans p q r h k = ground (
  arith,
  valid_progress-phase_number p q,
  valid_progress-phase_number q r,
  valid_progress-phase_number p r,
)

abbrev phase_of : ℕ → TransitionPhase
phase_of n =
    if n == 0
    then TransitionPhase.received
    else if n == 1
    then TransitionPhase.validated
    else if n == 2
    then TransitionPhase.planned
    else if n == 3
    then TransitionPhase.stopping
    else if n == 4
    then TransitionPhase.starting
    else if n == 5
    then TransitionPhase.awaiting_readiness
    else if n == 6
    then TransitionPhase.committing
    else if n == 7
    then TransitionPhase.succeeded
    else if n == 8
    then TransitionPhase.rejected
    else if n == 9
    then TransitionPhase.failed
    else if n == 10
    then TransitionPhase.cancelled
    else if n == 11
    then TransitionPhase.superseded
    else if n == 12
    then TransitionPhase.deadline_exceeded
    else if n == 13
    then TransitionPhase.recovery_failed
    else TransitionPhase.recovering

phase_of-phase_number : (p : TransitionPhase) → phase_of (phase_number p) ≡ p
phase_of-phase_number TransitionPhase.received = refl
phase_of-phase_number TransitionPhase.validated = refl
phase_of-phase_number TransitionPhase.planned = refl
phase_of-phase_number TransitionPhase.stopping = refl
phase_of-phase_number TransitionPhase.starting = refl
phase_of-phase_number TransitionPhase.awaiting_readiness = refl
phase_of-phase_number TransitionPhase.committing = refl
phase_of-phase_number TransitionPhase.succeeded = refl
phase_of-phase_number TransitionPhase.rejected = refl
phase_of-phase_number TransitionPhase.failed = refl
phase_of-phase_number TransitionPhase.cancelled = refl
phase_of-phase_number TransitionPhase.superseded = refl
phase_of-phase_number TransitionPhase.deadline_exceeded = refl
phase_of-phase_number TransitionPhase.recovery_failed = refl
phase_of-phase_number TransitionPhase.recovering = refl

-- The phases have different numbers.
pub number_injective : (p q : TransitionPhase) → phase_number p ≡ phase_number q → p ≡ q
number_injective p q e = sym (phase_of-phase_number p) ∙ ap phase_of e ∙ phase_of-phase_number q

-- Two phases that may each follow the other are the same, and so is a phase that may follow a
-- terminal one.
pub valid_progress_antisym :
    (p q : TransitionPhase)
    → valid_progress p q ≡ true
    → (valid_progress q p ≡ true) ⊎ (is_terminal p ≡ true)
    → p ≡ q
valid_progress_antisym p q h (inl k) =
    number_injective p q
      (ground (arith, valid_progress-phase_number p q, valid_progress-phase_number q p))
valid_progress_antisym p q h (inr k) =
    number_injective p q
      (ground (arith, valid_progress-phase_number p q, is_terminal-phase_number p))
