-- ===== src/Exec/Engine/Starts.antt =====
-- exec/src/engine.cpp: the loop of `Execute` over the units to start.
use openvehicleframework.Base.{
  ℕ, zero, suc, leb, min, none, List, [], ◌∷◌, ◌≡◌, refl, ap, ◌∙◌, insert_all, inl, inr, Bool-cases,
  Option-cases, make_error, cancelled,
}
use openvehicleframework.Exec.Types.{ExecutionModel, ExecutionUnitDefinition, StopReason, later}
use openvehicleframework.Exec.Model.{find_unit}
use openvehicleframework.Exec.Planner.{SystemConfiguration}
use openvehicleframework.Exec.Engine.{no_evidence, TransitionSnapshot, Environment}
use openvehicleframework.Exec.Engine.Actions.{Live, M, is_cancelled}
use openvehicleframework.Exec.Engine.Recovery.{stopped_cleanly}
use openvehicleframework.Exec.Engine.Execution.{
  Attempt, answered, retry, start_attempts, start_unit, start_units,
}
use openvehicleframework.Exec.Engine.Failures.{fail_transition-NoSuccess}
use openvehicleframework.Exec.Engine.Stops.{Leaves, is_cancelled-configuration, recover-NoSuccess}

-- The configuration after the units of a list are started.
abbrev pub together_with : List ℕ → SystemConfiguration → SystemConfiguration
together_with us c = record c { running_units = insert_all us c.running_units }

module _ (env : Environment) (m : ExecutionModel) where
  -- The attempts change the world, not the engine.
  retry-engine :
      (deadline : ℕ) (d : ExecutionUnitDefinition) (u left : ℕ) (a : Attempt)
      → (next : M env.World Attempt) → ((s : Live env.World) → (next s).1.engine ≡ s.engine)
      → (s : Live env.World) → (retry env m deadline d u left a next s).1.engine ≡ s.engine
  unfolding retry
  retry-engine deadline d u zero a next same s = refl
  retry-engine deadline d u (suc left) a next same s =
      let (time, w) = env.now s.world in
      let cleaned =
        (env.stop u StopReason.restart (min deadline (later time d.stop_timeout)) w).0 in
      elim (Bool-cases (stopped_cleanly cleaned)) [ inl h ↦ rw h (same _) | inr h ↦ rw h refl ]

  start_attempts-engine :
      (deadline : ℕ) (d : ExecutionUnitDefinition) (u left : ℕ) (a : Attempt) (s : Live env.World)
      → (start_attempts env m deadline d u left a s).1.engine ≡ s.engine
  unfolding start_attempts
  start_attempts-engine deadline d u zero a s = refl
  start_attempts-engine deadline d u (suc left) a s =
      let (time, w) = env.now s.world in
      let reply = (env.start u (min deadline (later time d.start_timeout)) w).0 in
      elim (Bool-cases (leb deadline time)) [
        | inl h ↦ rw h refl
        | inr h ↦ elim (Bool-cases (answered d.readiness a reply).started) [
          | inl k ↦ rw (h, k) refl
          | inr k ↦
              rw (h, k)
                (retry-engine deadline d u left _ _
                  (λ s'. start_attempts-engine deadline d u left _ s') _)
        ]
      ]

  start_unit-engine :
      (deadline u : ℕ) (s : Live env.World) → (start_unit env m deadline u s).1.engine ≡ s.engine
  unfolding start_unit
  start_unit-engine deadline u s = elim (Option-cases (find_unit m u)) [
    | inl h ↦ rw (h, start_unit) refl
    | inr (d, h) ↦ rw (h, start_unit) (start_attempts-engine deadline d u d.retry.max_attempts _ s)
  ]

  -- The loop over the units to start either ends the transition without success, or goes on with
  -- exactly the units of the list added to the running ones, the modes as they were, and the domain
  -- and target of the transition unchanged.
  pub start_units-Leaves :
      (deadline : ℕ) (us : List ℕ) (t : TransitionSnapshot) (s : Live env.World)
      → (c : SystemConfiguration) → s.engine.configuration ≡ c
      → Leaves (together_with us c) t (start_units env m deadline us t s)
  unfolding start_units
  start_units-Leaves deadline [] t s c e = (e, refl, refl)
  start_units-Leaves deadline (u ∷ us) t s c e =
      let same = is_cancelled-configuration env m t.id s in
      let s1 = (is_cancelled env m t.id s).1 in
      let kept = ap (λ x. x.configuration) (start_unit-engine deadline u s1) ∙ same ∙ e in
      elim (Bool-cases (is_cancelled env m t.id s).0) [
        | inl h ↦
            rw (h, Leaves)
              (fail_transition-NoSuccess env m t (make_error cancelled 0) none no_evidence s1)
        | inr h ↦ elim (Bool-cases (start_unit env m deadline u s1).0.started) [
          | inl k ↦
              rw (h, k, Leaves)
                (start_units-Leaves deadline us t _ (together_with (u ∷ []) c)
                  (ap (together_with (u ∷ [])) kept))
          | inr k ↦ rw (h, k, Leaves) (recover-NoSuccess env m t _ _ _ _)
        ]
      ]
