-- ===== src/Exec/Engine/Actions.antt =====
-- exec/src/engine.cpp: the monad of the engine's methods, `Record`, `Fail`, `IsCancelled` and
-- `AcceptMode`.
use openvehicleframework.Base.{
  ℕ, ◌+◌, ◌%◌, ◌^◌, Bool, false, Option, some, none, [], find, assign, emplace, if◌then◌else◌, leb,
  insert, erase, Result, ok, err, fail, Error, ErrorCode, make_error, cancelled, deadline_exceeded,
  superseded, persistence_error,
}
use openvehicleframework.Exec.Types.{
  ExecutionModel, TransitionPhase, FailureAction, Milliseconds, plus,
}
use openvehicleframework.Exec.Model.{find_unit}
use openvehicleframework.Exec.Planner.{SystemConfiguration, TransitionPlan, plan}
use openvehicleframework.Exec.Engine.{
  BackendEvidence, no_evidence, TransitionFailure, TransitionSnapshot, AcceptedTransition, Engine,
  Environment, code_number, cancel_each,
}

-- The failure that `Fail` and `Recover` fill in first.
abbrev pub failure_of : Error → Option ℕ → BackendEvidence → TransitionFailure
failure_of e application evidence = record {
  error = e;
  application = application;
  evidence = evidence;
  recovery_action = FailureAction.hold_observed_configuration;
  recovery_attempted = false;
  recovery_succeeded = false;
  recovery_error = none;
  recovered_mode = none;
  recovery_stopped_applications = [];
  recovery_started_applications = [];
}

-- The terminal phase of `Fail`.
abbrev pub terminal_phase : ErrorCode → TransitionPhase
terminal_phase cancelled = TransitionPhase.cancelled
terminal_phase deadline_exceeded = TransitionPhase.deadline_exceeded
terminal_phase superseded = TransitionPhase.superseded
terminal_phase _ = TransitionPhase.failed

-- The timeouts of a unit. For a unit that is not defined, which the source would read through a null
-- pointer, they are zero.
abbrev pub stop_timeout_of : ExecutionModel → ℕ → Milliseconds
stop_timeout_of m u = elim (find_unit m u) [ none ↦ plus 0 | some d ↦ d.stop_timeout ]

-- The running units, changed under the lock.
abbrev pub now_stopped : ℕ → Engine → Engine
now_stopped u e = record e {
  configuration = record (e.configuration) {
    running_units = erase u e.configuration.running_units;
  };
}

abbrev pub now_running : ℕ → Engine → Engine
now_running u e = record e {
  configuration = record (e.configuration) {
    running_units = insert u e.configuration.running_units;
  };
}

abbrev pub now_committed : ℕ → ℕ → Engine → Engine
now_committed domain mode e = record e {
  configuration = record (e.configuration) {
    committed_modes = assign domain mode e.configuration.committed_modes;
  };
}

-- The engine and the world around it.
pub record Live (W : Type 0) : Type 0 where
  pub engine : Engine
  pub world : W

abbrev pub M : Type 0 → Type 0 → Type 0
M W A = Live W → A × Live W

module _ {W : Type 0} where
  infixl 5 ◌>>=◌ ◌>>◌
  abbrev pub ◌>>=◌ : {A B : Type 0} → M W A → (A → M W B) → M W B
  ◌>>=◌ f k s = let (a, s') = f s in k a s'

  abbrev pub ◌>>◌ : {B : Type 0} → M W (Unit {0}) → M W B → M W B
  ◌>>◌ f k s = k (f s).1

  abbrev pub return : {A : Type 0} → A → M W A
  return a s = (a, s)

  -- An operation of the environment.
  abbrev pub outside : {A : Type 0} → (W → A × W) → M W A
  outside f s = ((f s.world).0, record s { world = (f s.world).1 })

  -- A change of the engine under the lock.
  abbrev pub modify : (Engine → Engine) → M W (Unit {0})
  modify f s = (tt, record s { engine = f s.engine })

  abbrev pub read : {A : Type 0} → (Engine → A) → M W A
  read f s = (f s.engine, s)

module _ (env : Environment) where
  open env use {World}

  abbrev pub clock : M World ℕ
  clock = outside env.now

  module _ (m : ExecutionModel) where
    -- The end of `Record`, by the answer of the journal.
    unfoldable pub recorded :
        TransitionSnapshot → Result (Unit {0}) → M World (TransitionSnapshot × Result (Unit {0}))
    recorded t (err e) = return (t, err (make_error persistence_error (code_number e.code)))
    recorded t (ok _) = do
      modify (λ e. record e { transitions = assign t.id t e.transitions })
      return (t, ok tt)

    -- `Record`: the transition with its new phase, and whether the journal took it.
    unfoldable pub record_phase :
        TransitionSnapshot → TransitionPhase → M World (TransitionSnapshot × Result (Unit {0}))
    unfolding recorded
    record_phase t0 phase = do
      time ← clock
      let t = record t0 { phase = phase; updated_at = time }
      p ← read (λ e. find t.id e.plans)
      persisted ←
          outside (env.append (record { transition = t; generation = m.generation; plan = p }))
      recorded t persisted

    abbrev pub lost :
        TransitionSnapshot → TransitionFailure → Result (Unit {0}) → TransitionSnapshot
    lost t f (ok _) = t
    lost t f (err _) = record t {
      failure = some (record f { error = make_error persistence_error 0 });
    }

    -- `Fail`, which always returns the transition.
    unfoldable pub fail_transition :
        TransitionSnapshot → Error → Option ℕ → BackendEvidence → M World TransitionSnapshot
    unfolding record_phase
    fail_transition t e application evidence = do
      let f = failure_of e application evidence
      (t', done) ← record_phase (record t { failure = some f }) (terminal_phase e.code)
      return (lost t' f done)

    -- `IsCancelled`, with what other threads asked for before.
    unfoldable pub is_cancelled : ℕ → M World Bool
    unfolding cancel_each
    is_cancelled id = do
      ids ← outside env.cancellations
      modify (cancel_each ids)
      read (λ e. elim (find id e.cancellation) [ none ↦ false | some b ↦ b ])

    -- Whether `AcceptModeFrom` records a phase, and else the error it returns.
    pub record_or_fail :
        TransitionSnapshot → TransitionPhase → M World (TransitionSnapshot × Option Error)
    unfolding record_phase fail_transition
    record_or_fail t phase = do
      (t', done) ← record_phase t phase
      elim done [
        | ok _ ↦ return (t', none)
        | err e ↦ do
          failed ← fail_transition t' e none no_evidence
          return (failed, some (elim failed.failure [ none ↦ e | some f ↦ f.error ]))
      ]

    -- `AcceptModeFrom` after the planning.
    unfoldable pub accept_planned :
        TransitionSnapshot → Result TransitionPlan → ℕ → M World (Result AcceptedTransition)
    unfolding record_or_fail fail_transition
    accept_planned t (err e) deadline = do
      failed ← fail_transition t e none no_evidence
      return (err (elim failed.failure [ none ↦ e | some f ↦ f.error ]))
    accept_planned t (ok p) deadline = do
      modify (λ e. record e { plans = assign t.id p e.plans })
      (t1, e1) ← record_or_fail t TransitionPhase.validated
      elim e1 [
        | some e ↦ return (err e)
        | none ↦ do
          (t2, e2) ← record_or_fail t1 TransitionPhase.planned
          elim e2 [
            | some e ↦ return (err e)
            | none ↦ return (ok (record { id = t2.id; plan = p; deadline = deadline }))
          ]
      ]

    -- `AcceptModeFrom`. The identifiers are 64-bit.
    unfoldable pub accept_mode_from :
        SystemConfiguration → ℕ → ℕ → ℕ → M World (Result AcceptedTransition)
    unfolding accept_planned
    accept_mode_from baseline domain target deadline = do
      time ← clock
      let accept = do
        id ← read (λ e. e.next_transition)
        modify (λ e. record e { next_transition = (e.next_transition + 1) % 2 ^ 64 })
        stamp ← clock
        let t : TransitionSnapshot = record {
          id = id;
          domain = domain;
          source_mode = elim (find domain baseline.committed_modes) [ none ↦ 0 | some s ↦ s ];
          target_mode = target;
          phase = TransitionPhase.received;
          updated_at = stamp;
          failure = none;
        }
        modify (λ e. record e {
          transitions = emplace id t e.transitions;
          cancellation = emplace id false e.cancellation;
        })
        accept_planned t (plan m baseline domain target) deadline
      if leb deadline time then return (fail deadline_exceeded) else accept

    -- `AcceptMode`.
    unfoldable pub accept_mode : ℕ → ℕ → ℕ → M World (Result AcceptedTransition)
    unfolding accept_mode_from
    accept_mode domain target deadline = do
      baseline ← read (λ e. e.configuration)
      accept_mode_from baseline domain target deadline
