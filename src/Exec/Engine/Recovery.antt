-- ===== src/Exec/Engine/Recovery.antt =====
-- exec/src/engine.cpp: `ApplyRecoveryPlan` and `Recover`.
use openvehicleframework.Base.{
  ℕ, zero, suc, min, Bool, true, false, ◌||◌, Option, some, none, List, [], ◌∷◌, ◌++◌,
  if◌then◌else◌, leb, Result, ok, err, Error, make_error, deadline_exceeded, backend_error,
  internal_error,
}
use openvehicleframework.Exec.Types.{
  ExecutionModel, ExecutionUnitDefinition, DomainDefinition, TransitionPhase, FailureAction,
  ApplicationState, StopReason, ReadinessPolicy, later,
}
use openvehicleframework.Exec.Model.{find_unit, find_domain}
use openvehicleframework.Exec.Planner.{reconcile, stop_domain_units}
use openvehicleframework.Exec.Engine.{
  BackendEvidence, no_evidence, TransitionFailure, TransitionSnapshot, Environment,
}
use openvehicleframework.Exec.Engine.Actions.{
  failure_of, stop_timeout_of, now_stopped, now_running, now_committed, M, ◌>>=◌, ◌>>◌, return,
  outside, modify, read, clock, record_phase, fail_transition,
}

abbrev pub is_stopped : ApplicationState → Bool
is_stopped ApplicationState.stopped = true
is_stopped _ = false

abbrev pub is_ready : ApplicationState → Bool
is_ready ApplicationState.ready = true
is_ready _ = false

abbrev pub is_starting : ApplicationState → Bool
is_starting ApplicationState.starting = true
is_starting _ = false

-- `required_state` of `ApplyRecoveryPlan`.
unfoldable pub recovery_state_reached : ReadinessPolicy → ApplicationState → Bool
recovery_state_reached ReadinessPolicy.lifecycle_channel state = is_ready state
recovery_state_reached _ state = is_starting state || is_ready state

-- The state that a `Stop` reported, if it is `stopped`.
abbrev pub stopped_cleanly : Result BackendEvidence → Bool
stopped_cleanly (err e) = false
stopped_cleanly (ok evidence) = is_stopped evidence.state

-- The evidence and the application of a failed operation.
abbrev pub blame : TransitionFailure → ℕ → Result BackendEvidence → TransitionFailure
blame f u (err e) = record f { application = some u }
blame f u (ok evidence) = record f { application = some u; evidence = evidence }

-- The error of a `Stop` that did not report `stopped`.
abbrev pub stop_error : Result BackendEvidence → Error
stop_error (err e) = e
stop_error (ok evidence) = make_error backend_error 0

-- The answer to a `Start` of `ApplyRecoveryPlan`: the evidence, whether the unit reached its state,
-- and the error.
abbrev pub with_evidence : TransitionFailure → Result BackendEvidence → TransitionFailure
with_evidence f (err e) = f
with_evidence f (ok evidence) = record f { evidence = evidence }

abbrev pub reply_reached : ReadinessPolicy → Result BackendEvidence → Bool
reply_reached readiness (err e) = false
reply_reached readiness (ok evidence) = recovery_state_reached readiness evidence.state

abbrev pub reply_error : Result BackendEvidence → Option Error
reply_error (err e) = some e
reply_error (ok evidence) = none

-- The last attempt did not reach the state.
abbrev pub last_attempt :
    TransitionFailure → ℕ → Option Error → TransitionFailure × Bool × Option Error
last_attempt f u none = (f, false, none)
last_attempt f u (some e) = (record f { application = some u }, false, some e)

-- The failure as recovery goes on, with the error that ended it.
abbrev pub Outcome : Type 0
Outcome = TransitionFailure × Option Error

module _ (env : Environment) (m : ExecutionModel) where
  -- The first loop of `ApplyRecoveryPlan`.
  pub recovery_stops : ℕ → List ℕ → TransitionFailure → M env.World Outcome
  recovery_stops deadline [] f = return (f, none)
  recovery_stops deadline (u ∷ us) f = do
    time ← clock env
    reply ←
        outside (env.stop u StopReason.recovery (min deadline (later time (stop_timeout_of m u))))
    let rest = do
      modify (now_stopped u)
      recovery_stops deadline us
          (record f { recovery_stopped_applications = f.recovery_stopped_applications ++ u ∷ [] })
    if stopped_cleanly reply then rest else return (blame f u reply, some (stop_error reply))

  -- The attempts to start one unit: the failure, whether the unit is ready, and an error that ends
  -- the recovery. The number counts the attempts that are left.
  pub recovery_attempts :
      ℕ
      → ExecutionUnitDefinition
      → ℕ
      → ℕ
      → TransitionFailure
      → M env.World (TransitionFailure × Bool × Option Error)
  unfolding recovery_state_reached
  recovery_attempts deadline d u zero f = return (f, false, none)
  recovery_attempts deadline d u (suc left) f = do
    time ← clock env
    let attempt = do
      reply ← outside (env.start u (min deadline (later time d.start_timeout)))
      let seen = with_evidence f reply
      let reached = reply_reached d.readiness reply
      let failed = reply_error reply
      let again = do
        time' ← clock env
        cleaned ←
            outside (env.stop u StopReason.recovery (min deadline (later time' d.stop_timeout)))
        let next = do
          time'' ← clock env
          outside (λ w. (tt, env.sleep_until (min deadline (later time'' d.retry.delay)) w))
          recovery_attempts deadline d u left seen
        if stopped_cleanly cleaned
            then next
            else return (blame seen u cleaned, false, some (stop_error cleaned))
      let last = return (last_attempt seen u failed)
      if reached then return (seen, true, none) else (elim left [ zero ↦ last | suc _ ↦ again ])
    if leb deadline time then return (f, false, some (make_error deadline_exceeded 0)) else attempt

  -- The second loop of `ApplyRecoveryPlan`. A unit that is not defined, which the source would read
  -- through a null pointer, is not started.
  pub recovery_starts : ℕ → List ℕ → TransitionFailure → M env.World Outcome
  unfolding recovery_attempts
  recovery_starts deadline [] f = return (f, none)
  recovery_starts deadline (u ∷ us) f = elim (find_unit m u) [
    | none ↦ return (record f { application = some u }, some (make_error backend_error 0))
    | some d ↦ do
      (f', ready, error) ← recovery_attempts deadline d u d.retry.max_attempts f
      let rest = do
        modify (now_running u)
        recovery_starts deadline us (record f' {
          recovery_started_applications = f'.recovery_started_applications ++ u ∷ [];
        })
      let unready = return (record f' { application = some u }, some (make_error backend_error 0))
      elim error [ some e ↦ return (f', some e) | none ↦ if ready then rest else unready ]
  ]

  -- `ApplyRecoveryPlan`.
  unfoldable pub apply_recovery_plan : List ℕ → List ℕ → ℕ → TransitionFailure → M env.World Outcome
  unfolding recovery_stops recovery_starts
  apply_recovery_plan stops starts deadline f = do
    (f', error) ← recovery_stops deadline stops f
    elim error [ some e ↦ return (f', some e) | none ↦ recovery_starts deadline starts f' ]

  abbrev pub no_error_of : Result (Unit {0}) → Option Error
  no_error_of (ok _) = none
  no_error_of (err e) = some e

  -- The branch of `Recover` for the policy of the domain.
  pub recovery_action_of :
      DomainDefinition → FailureAction → ℕ → TransitionFailure → M env.World Outcome
  unfolding apply_recovery_plan
  recovery_action_of d FailureAction.enter_fallback_mode deadline f = do
    configuration ← read (λ e. e.configuration)
    elim (reconcile m configuration d.id d.recovery.fallback_mode) [
      | err e ↦ return (f, some e)
      | ok p ↦ do
        (f', error) ← apply_recovery_plan p.stop p.start deadline f
        let committed = do
          modify (now_committed d.id d.recovery.fallback_mode)
          return (record f' { recovered_mode = some d.recovery.fallback_mode }, none)
        elim error [ some e ↦ return (f', some e) | none ↦ committed ]
    ]
  recovery_action_of d FailureAction.stop_domain deadline f = do
    configuration ← read (λ e. e.configuration)
    elim (stop_domain_units m configuration d.id) [
      | err e ↦ return (f, some e)
      | ok stops ↦ apply_recovery_plan stops [] deadline f
    ]
  recovery_action_of d FailureAction.request_system_recovery deadline f = do
    answer ← outside (env.request_system_recovery deadline)
    return (f, no_error_of answer)
  recovery_action_of d _ deadline f = return (f, some (make_error internal_error 0))

  -- The end of `Recover`.
  unfoldable pub finish_recovery :
      TransitionSnapshot → Outcome → M env.World (Result TransitionSnapshot)
  unfolding record_phase
  finish_recovery t (f, some e) = do
    (t', done) ←
        record_phase env m (record t { failure = some (record f { recovery_error = some e }) })
          TransitionPhase.recovery_failed
    return (elim done [ ok _ ↦ ok t' | err x ↦ err x ])
  finish_recovery t (f, none) = do
    (t', done) ←
        record_phase env m (record t { failure = some (record f { recovery_succeeded = true }) })
          TransitionPhase.failed
    return (elim done [ ok _ ↦ ok t' | err x ↦ err x ])

  -- `Recover` for a policy that does something.
  unfoldable pub recover_by :
      DomainDefinition
      → TransitionSnapshot
      → TransitionFailure
      → M env.World (Result TransitionSnapshot)
  unfolding recovery_action_of finish_recovery record_phase fail_transition
  recover_by d t f = do
    let f1 = record f { recovery_action = d.recovery.action; recovery_attempted = true }
    (t', done) ← record_phase env m (record t { failure = some f1 }) TransitionPhase.recovering
    elim done [
      | err e ↦ do failed ← fail_transition env m t' e none no_evidence; return (ok failed)
      | ok _ ↦ do
        time ← clock env
        outcome ← recovery_action_of d d.recovery.action (later time d.recovery.deadline) f1
        finish_recovery t' outcome
    ]

  abbrev pub holds_configuration : FailureAction → Bool
  holds_configuration FailureAction.hold_observed_configuration = true
  holds_configuration _ = false

  -- `Recover`.
  unfoldable pub recover :
      TransitionSnapshot
      → Error
      → Option ℕ
      → BackendEvidence
      → M env.World (Result TransitionSnapshot)
  unfolding recover_by fail_transition
  recover t e application evidence =
      let held : M env.World (Result TransitionSnapshot) =
        (◌>>=◌ (fail_transition env m t e application evidence) λ failed. return (ok failed)) in
      elim (find_domain m t.domain) [
        | none ↦ held
        | some d ↦
            if holds_configuration d.recovery.action
            then held
            else recover_by d t (failure_of e application evidence)
      ]
