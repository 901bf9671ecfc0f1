-- ===== src/Exec/Engine/Commits.antt =====
-- exec/src/engine.cpp: what `Execute` leaves of the configuration when it succeeds.
use openvehicleframework.Base.{
  ℕ, true, Option, some, none, List, [], ◌∷◌, ◌≡◌, refl, ap, subst, ◌∙◌, assign, any_of, inl, inr,
  Result, ok, err, Error, Bool-cases,
}
use openvehicleframework.Exec.Types.{ExecutionModel, TransitionPhase}
use openvehicleframework.Exec.Planner.{SystemConfiguration, TransitionPlan, plan}
use openvehicleframework.Exec.Engine.{
  no_evidence, TransitionSnapshot, AcceptedTransition, Environment,
}
use openvehicleframework.Exec.Engine.Actions.{Live, M}
use openvehicleframework.Exec.Engine.Failures.{is_succeeded, fail_transition-NoSuccess}
use openvehicleframework.Exec.Engine.Execution.{
  Progress, ended, goes_on, enter_phase, then_go, stop_units, start_units, announce_stops,
  announce_starts, commit, after_replanning, execute_leased, execute_granted, execute_found,
  execute, needs_readiness, replanning_error, lease, result_of,
}
use openvehicleframework.Exec.Engine.Stops.{without, Leaves, enter_phase-Leaves, stop_units-Leaves}
use openvehicleframework.Exec.Engine.Starts.{together_with, start_units-Leaves}

-- The configuration after a commit.
abbrev pub entered : ℕ → ℕ → SystemConfiguration → SystemConfiguration
entered domain mode c = record c { committed_modes = assign domain mode c.committed_modes }

-- Where a part begins does not matter but for the domain and the mode.
Leaves-from :
    {W : Type 0} (c : SystemConfiguration) (t0 t1 : TransitionSnapshot) (x : Progress × Live W)
    → (t1.domain ≡ t0.domain) × (t1.target_mode ≡ t0.target_mode)
    → Leaves c t1 x
    → Leaves c t0 x
Leaves-from c t0 t1 (ended r, s) same h = h
Leaves-from c t0 t1 (goes_on t, s) same h = (h.0, h.1 ∙ same.0, h.2 ∙ same.1)

module _ (env : Environment) (m : ExecutionModel) where
  then_go-Leaves :
      (c c' : SystemConfiguration) (t : TransitionSnapshot)
      → (p : Progress) (k : TransitionSnapshot → M env.World Progress) (s : Live env.World)
      → Leaves c t (p, s)
      → ((t' : TransitionSnapshot) → s.engine.configuration ≡ c → Leaves c' t' (k t' s))
      → Leaves c' t (then_go env m p k s)
  then_go-Leaves c c' t (ended r) k s h next = h
  then_go-Leaves c c' t (goes_on t') k s h next =
      Leaves-from c' t t' (k t' s) (h.1, h.2) (next t' h.0)

  phase-Leaves :
      (t : TransitionSnapshot) (phase : TransitionPhase) (s : Live env.World)
      → (c : SystemConfiguration) → s.engine.configuration ≡ c
      → Leaves c t (enter_phase env m t phase s)
  phase-Leaves t phase s c e =
      subst (λ x. Leaves x t (enter_phase env m t phase s)) e (enter_phase-Leaves env m t phase s)

  announce_stops-Leaves :
      (us : List ℕ) (t : TransitionSnapshot) (s : Live env.World) (c : SystemConfiguration)
      → s.engine.configuration ≡ c
      → Leaves c t (announce_stops env m us t s)
  unfolding announce_stops
  announce_stops-Leaves [] t s c e = (e, refl, refl)
  announce_stops-Leaves (u ∷ us) t s c e = phase-Leaves t TransitionPhase.stopping s c e

  announce_starts-Leaves :
      (us : List ℕ) (t : TransitionSnapshot) (s : Live env.World) (c : SystemConfiguration)
      → s.engine.configuration ≡ c
      → Leaves c t (announce_starts env m us t s)
  unfolding announce_starts
  announce_starts-Leaves [] t s c e = (e, refl, refl)
  announce_starts-Leaves (u ∷ us) t s c e =
      let x = enter_phase env m t TransitionPhase.starting s in
      then_go-Leaves c c t x.0 _ x.1 (phase-Leaves t TransitionPhase.starting s c e) λ t' e'.
        elim (Bool-cases (any_of (needs_readiness m) (u ∷ us))) [
          | inl h ↦ rw h (phase-Leaves t' TransitionPhase.awaiting_readiness x.1 c e')
          | inr h ↦ rw h (e', refl, refl)
        ]

  commit-Leaves :
      (domain target : ℕ) (t : TransitionSnapshot) (s : Live env.World) (c : SystemConfiguration)
      → s.engine.configuration ≡ c
      → Leaves (entered domain target c) t (commit env m domain target t s)
  unfolding commit
  commit-Leaves domain target t s c e =
      let x = enter_phase env m t TransitionPhase.committing s in
      then_go-Leaves c (entered domain target c) t x.0 _ x.1
        (phase-Leaves t TransitionPhase.committing s c e)
        λ t' e'. phase-Leaves t' TransitionPhase.succeeded _ _ (ap (entered domain target) e')

  -- The configuration that a plan is to bring about.
  abbrev pub carried_out : TransitionPlan → ℕ → ℕ → SystemConfiguration → SystemConfiguration
  carried_out p domain mode c = entered domain mode (together_with p.start (without p.stop c))

  after_replanning-Leaves :
      (o : Option Error) (p : TransitionPlan) (deadline : ℕ) (t : TransitionSnapshot)
      → (s : Live env.World)
      → Leaves
          (carried_out p t.domain t.target_mode s.engine.configuration)
          t
          (after_replanning env m o p deadline t s)
  unfolding after_replanning
  after_replanning-Leaves (some x) p deadline t s =
      fail_transition-NoSuccess env m t x none no_evidence s
  after_replanning-Leaves none p deadline t s =
      let c = s.engine.configuration in
      let c2 = without p.stop c in
      let c3 = together_with p.start c2 in
      let c4 = entered t.domain t.target_mode c3 in
      let x1 = announce_stops env m p.stop t s in
      let x2 = then_go env m x1.0 (stop_units env m deadline p.stop) x1.1 in
      let x3 = then_go env m x2.0 (announce_starts env m p.start) x2.1 in
      let x4 = then_go env m x3.0 (start_units env m deadline p.start) x3.1 in
      let h1 = announce_stops-Leaves p.stop t s c refl in
      let h2 : Leaves c2 t x2 =
        then_go-Leaves c c2 t x1.0 _ x1.1 h1
          λ t' e. stop_units-Leaves env m deadline p.stop t' x1.1 c e in
      let h3 : Leaves c2 t x3 =
        then_go-Leaves c2 c2 t x2.0 _ x2.1 h2 λ t' e. announce_starts-Leaves p.start t' x2.1 c2 e in
      let h4 : Leaves c3 t x4 =
        then_go-Leaves c2 c3 t x3.0 _ x3.1 h3
          λ t' e. start_units-Leaves env m deadline p.start t' x3.1 c2 e in
      then_go-Leaves c3 c4 t x4.0 _ x4.1 h4
        λ t' e. commit-Leaves t.domain t.target_mode t' x4.1 c3 e

  result_of-ok :
      (before : SystemConfiguration) (p : TransitionPlan) (t0 : TransitionSnapshot)
      → (x : Progress) (s : Live env.World)
      → Leaves (carried_out p t0.domain t0.target_mode before) t0 (x, s)
      → (t : TransitionSnapshot) → result_of env m x ≡ ok t
      → is_succeeded t.phase ≡ true
      → s.engine.configuration ≡ carried_out p t.domain t.target_mode before
  result_of-ok before p t0 (ended (err e)) s h t same won = cc
  result_of-ok before p t0 (ended (ok t')) s h t same won = cc
  result_of-ok before p t0 (goes_on t') s h t same won = cc

  execute_granted-ok :
      (r : Result ℕ) (a : AcceptedTransition) (t0 : TransitionSnapshot) (s : Live env.World)
      → (t : TransitionSnapshot) → (execute_granted env m r a t0 s).0 ≡ ok t
      → is_succeeded t.phase ≡ true
      → (execute_granted env m r a t0 s).1.engine.configuration
        ≡ carried_out a.plan t.domain t.target_mode s.engine.configuration
  unfolding execute_granted execute_leased
  execute_granted-ok (err e) a t0 s t same won =
      let lost = fail_transition-NoSuccess env m t0 e none no_evidence s in cc
  execute_granted-ok (ok owner) a t0 s t same won =
      let error =
        replanning_error env m a.plan (plan m s.engine.configuration t0.domain t0.target_mode) in
      let x = after_replanning env m error a.plan a.deadline t0 s in
      result_of-ok s.engine.configuration a.plan t0 x.0 x.1
        (after_replanning-Leaves error a.plan a.deadline t0 s) t same won

  execute_found-ok :
      (r : Result TransitionSnapshot) (a : AcceptedTransition) (s : Live env.World)
      → (t : TransitionSnapshot) → (execute_found env m r a s).0 ≡ ok t
      → is_succeeded t.phase ≡ true
      → (execute_found env m r a s).1.engine.configuration
        ≡ carried_out a.plan t.domain t.target_mode s.engine.configuration
  unfolding execute_found lease
  execute_found-ok (err e) a s t same won = cc
  execute_found-ok (ok t0) a s t same won = execute_granted-ok _ a t0 _ t same won

  -- If `Execute` returns a transition that succeeded, the running units are those before, less the
  -- stops of the plan, and with its starts, and the domain of the transition has its target mode;
  -- no other mode has changed.
  pub execute_commits :
      (a : AcceptedTransition) (s : Live env.World) (t : TransitionSnapshot)
      → (execute env m a s).0 ≡ ok t
      → is_succeeded t.phase ≡ true
      → (execute env m a s).1.engine.configuration
        ≡ carried_out a.plan t.domain t.target_mode s.engine.configuration
  unfolding execute
  execute_commits a s t same won = execute_found-ok _ a s t same won
