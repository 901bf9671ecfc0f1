-- ===== src/Exec/Engine/Stops.antt =====
-- exec/src/engine.cpp: the loop of `Execute` over the units to stop, and how `Recover` ends.
use openvehicleframework.Base.{
  ℕ, true, false, Option, some, none, List, [], ◌∷◌, ◌≡◌, refl, ap, ◌∙◌, arith, inl, inr, min,
  Result, ok, err, Error, Bool-cases, Option-cases, make_error, cancelled,
}
use openvehicleframework.Exec.Types.{
  ExecutionModel, DomainDefinition, TransitionPhase, StopReason, later,
}
use openvehicleframework.Exec.Model.{find_domain}
use openvehicleframework.Exec.Planner.{SystemConfiguration}
use openvehicleframework.Exec.Engine.{
  BackendEvidence, no_evidence, TransitionFailure, TransitionSnapshot, Engine, Environment, cancel,
  cancel_each,
}
use openvehicleframework.Exec.Engine.Actions.{
  Live, record_phase, is_cancelled, failure_of, stop_timeout_of,
}
use openvehicleframework.Exec.Engine.Failures.{
  is_succeeded, Result-cases, record_phase_lem, fail_transition-NoSuccess,
}
use openvehicleframework.Exec.Engine.Recovery.{
  Outcome, stopped_cleanly, recover, recover_by, finish_recovery, holds_configuration,
}
use openvehicleframework.Exec.Engine.Execution.{Progress, ended, goes_on, enter_phase, stop_units}
use openvehicleframework.Exec.Engine.Replay.{erase_each}

-- The configuration after the units of a list are stopped.
abbrev pub without : List ℕ → SystemConfiguration → SystemConfiguration
without us c = record c { running_units = erase_each us c.running_units }

-- An answer that is no success.
abbrev pub NoSuccess : Result TransitionSnapshot → Type 0
NoSuccess (err e) = Unit {0}
NoSuccess (ok t) = is_succeeded t.phase ≡ false

-- A part of a transition ended it without success, or left this configuration.
abbrev pub Leaves :
    {W : Type 0} → SystemConfiguration → TransitionSnapshot → Progress × Live W → Type 0
Leaves c t0 (ended r, s) = NoSuccess r
Leaves c t0 (goes_on t, s) =
    (s.engine.configuration ≡ c) × (t.domain ≡ t0.domain) × (t.target_mode ≡ t0.target_mode)

cancel-configuration : (id : ℕ) (e : Engine) → (cancel id e).0.configuration ≡ e.configuration
unfolding cancel
cancel-configuration id e = ground arith

cancel_each-configuration :
    (ids : List ℕ) (e : Engine) → (cancel_each ids e).configuration ≡ e.configuration
unfolding cancel_each
cancel_each-configuration [] e = refl
cancel_each-configuration (id ∷ ids) e =
    cancel_each-configuration ids (cancel id e).0 ∙ cancel-configuration id e

module _ (env : Environment) (m : ExecutionModel) where
  pub is_cancelled-configuration :
      (id : ℕ) (s : Live env.World)
      → (is_cancelled env m id s).1.engine.configuration ≡ s.engine.configuration
  unfolding is_cancelled
  is_cancelled-configuration id s = cancel_each-configuration (env.cancellations s.world).0 s.engine

  finish_recovery-NoSuccess :
      (t : TransitionSnapshot) (o : Outcome) (s : Live env.World)
      → NoSuccess (finish_recovery env m t o s).0
  unfolding finish_recovery
  finish_recovery-NoSuccess t (f, some e) s =
      let t' = record t { failure = some (record f { recovery_error = some e }) } in
      let r = record_phase_lem env m t' TransitionPhase.recovery_failed s in
      elim (Result-cases (record_phase env m t' TransitionPhase.recovery_failed s).0.1) [
        | inl (u, h) ↦ rw (h, NoSuccess) (ap is_succeeded r.1)
        | inr (x, h) ↦ rw (h, NoSuccess) tt
      ]
  finish_recovery-NoSuccess t (f, none) s =
      let t' = record t { failure = some (record f { recovery_succeeded = true }) } in
      let r = record_phase_lem env m t' TransitionPhase.failed s in
      elim (Result-cases (record_phase env m t' TransitionPhase.failed s).0.1) [
        | inl (u, h) ↦ rw (h, NoSuccess) (ap is_succeeded r.1)
        | inr (x, h) ↦ rw (h, NoSuccess) tt
      ]

  recover_by-NoSuccess :
      (d : DomainDefinition) (t : TransitionSnapshot) (f : TransitionFailure) (s : Live env.World)
      → NoSuccess (recover_by env m d t f s).0
  unfolding recover_by
  recover_by-NoSuccess d t f s =
      let f1 = record f { recovery_action = d.recovery.action; recovery_attempted = true } in
      let t' = record t { failure = some f1 } in
      let after = (record_phase env m t' TransitionPhase.recovering s).0.0 in
      elim (Result-cases (record_phase env m t' TransitionPhase.recovering s).0.1) [
        | inl (u, h) ↦ rw (h, NoSuccess) (finish_recovery-NoSuccess after _ _)
        | inr (x, h) ↦ rw (h, NoSuccess) (fail_transition-NoSuccess env m after _ _ _ _)
      ]

  -- Whatever recovery does, and whether or not the journal takes its phases, it never returns a
  -- transition that succeeded.
  pub recover-NoSuccess :
      (t : TransitionSnapshot) (e : Error) (u : Option ℕ) (evidence : BackendEvidence)
      → (s : Live env.World) → NoSuccess (recover env m t e u evidence s).0
  unfolding recover
  recover-NoSuccess t e u evidence s =
      let held = fail_transition-NoSuccess env m t e u evidence s in
      elim (Option-cases (find_domain m t.domain)) [
        | inl h ↦ rw (h, NoSuccess) held
        | inr (d, h) ↦ elim (Bool-cases (holds_configuration env m d.recovery.action)) [
          | inl k ↦ rw (h, k, NoSuccess) held
          | inr k ↦ rw (h, k, NoSuccess) (recover_by-NoSuccess d t (failure_of e u evidence) s)
        ]
      ]

  pub enter_phase-Leaves :
      (t : TransitionSnapshot) (phase : TransitionPhase) (s : Live env.World)
      → Leaves s.engine.configuration t (enter_phase env m t phase s)
  unfolding enter_phase
  enter_phase-Leaves t phase s =
      let r = record_phase_lem env m t phase s in
      elim (Result-cases (record_phase env m t phase s).0.1) [
        | inl (u, h) ↦ rw (h, Leaves) (r.0, r.2, r.3)
        | inr (x, h) ↦
            rw (h, Leaves)
              (fail_transition-NoSuccess env m (record_phase env m t phase s).0.0 _ _ _ _)
      ]

  -- The loop over the units to stop either ends the transition without success, or goes on with
  -- exactly the units of the list removed from the running ones, the modes as they were, and the
  -- domain and target of the transition unchanged.
  pub stop_units-Leaves :
      (deadline : ℕ) (us : List ℕ) (t : TransitionSnapshot) (s : Live env.World)
      → (c : SystemConfiguration) → s.engine.configuration ≡ c
      → Leaves (without us c) t (stop_units env m deadline us t s)
  unfolding stop_units
  stop_units-Leaves deadline [] t s c e = (e, refl, refl)
  stop_units-Leaves deadline (u ∷ us) t s c e =
      let same = is_cancelled-configuration t.id s in
      let s1 = (is_cancelled env m t.id s).1 in
      let time = (env.now s1.world).0 in
      let reply =
        (env.stop u StopReason.mode_change (min deadline (later time (stop_timeout_of m u)))
          (env.now s1.world).1).0 in
      elim (Bool-cases (is_cancelled env m t.id s).0) [
        | inl h ↦
            rw (h, Leaves)
              (fail_transition-NoSuccess env m t (make_error cancelled 0) none no_evidence s1)
        | inr h ↦ elim (Bool-cases (stopped_cleanly reply)) [
          | inl k ↦
              rw (h, k, Leaves)
                (stop_units-Leaves deadline us t _ (without (u ∷ []) c)
                  (ap (without (u ∷ [])) (same ∙ e)))
          | inr k ↦ rw (h, k, Leaves) (recover-NoSuccess t _ _ _ _)
        ]
      ]
