-- ===== src/Exec/Engine/Failures.antt =====
-- exec/src/engine.cpp: how `Fail` ends a transition, and when `Cancel` asks for its end.
use openvehicleframework.Base.{
  ℕ, Bool, true, false, ◌||◌, Option, some, none, [], ◌≡◌, ◌≢◌, refl, ap, ◌∙◌, arith, find, assign,
  inl, inr, ◌⊎◌, find-assign, Result, ok, err, Error, ErrorCode, Bool-cases, Option-cases,
  make_error, persistence_error,
}
use openvehicleframework.Exec.Types.{ExecutionModel, TransitionPhase, FailureAction}
use openvehicleframework.Exec.Engine.{
  BackendEvidence, TransitionFailure, TransitionSnapshot, JournalEvent, Engine, Environment, cancel,
  is_terminal, is_committing,
}
use openvehicleframework.Exec.Engine.Actions.{
  Live, recorded, record_phase, failure_of, fail_transition, terminal_phase,
}

abbrev pub is_succeeded : TransitionPhase → Bool
is_succeeded TransitionPhase.succeeded = true
is_succeeded _ = false

-- The phase that belongs to an error.
abbrev pub EndsIn : ErrorCode → TransitionPhase → Type 0
EndsIn c p =
    ((c ≡ ErrorCode.cancelled) × (p ≡ TransitionPhase.cancelled))
    ⊎ ((c ≡ ErrorCode.deadline_exceeded) × (p ≡ TransitionPhase.deadline_exceeded))
    ⊎ ((c ≡ ErrorCode.superseded) × (p ≡ TransitionPhase.superseded))
    ⊎ ((c ≢ ErrorCode.cancelled)
        × (c ≢ ErrorCode.deadline_exceeded)
        × (c ≢ ErrorCode.superseded)
        × (p ≡ TransitionPhase.failed))

terminal_phase-EndsIn : (c : ErrorCode) → EndsIn c (terminal_phase c)
terminal_phase-EndsIn ErrorCode.cancelled = inl (refl, refl)
terminal_phase-EndsIn ErrorCode.deadline_exceeded = inr (inl (refl, refl))
terminal_phase-EndsIn ErrorCode.superseded = inr (inr (inl (refl, refl)))
terminal_phase-EndsIn _ = inr (inr (inr (λ h. cc, λ h. cc, λ h. cc, refl)))

EndsIn-NoSuccess : (c : ErrorCode) (p : TransitionPhase) → EndsIn c p → is_succeeded p ≡ false
EndsIn-NoSuccess c p (inl (_, h)) = ap is_succeeded h
EndsIn-NoSuccess c p (inr (inl (_, h))) = ap is_succeeded h
EndsIn-NoSuccess c p (inr (inr (inl (_, h)))) = ap is_succeeded h
EndsIn-NoSuccess c p (inr (inr (inr (_, _, _, h)))) = ap is_succeeded h

-- The failure tells of no recovery.
abbrev pub HasNoRecovery : TransitionFailure → Type 0
HasNoRecovery f =
    (f.recovery_action ≡ FailureAction.hold_observed_configuration)
    × (f.recovery_attempted ≡ false)
    × (f.recovery_succeeded ≡ false)
    × (f.recovery_error ≡ none)
    × (f.recovered_mode ≡ none)
    × (f.recovery_stopped_applications ≡ [])
    × (f.recovery_started_applications ≡ [])

pub Result-cases {ℓ} :
    {A : Type ℓ} (r : Result A) → ((a : A) × (r ≡ ok a)) ⊎ ((e : Error) × (r ≡ err e))
Result-cases (ok a) = inl (a, refl)
Result-cases (err e) = inr (e, refl)

module _ (env : Environment) (m : ExecutionModel) where
  recorded_lem :
      (t : TransitionSnapshot) (r : Result (Unit {0})) (s : Live env.World)
      → ((recorded env m t r s).1.engine.configuration ≡ s.engine.configuration)
        × ((recorded env m t r s).0.0 ≡ t)
  unfolding recorded
  recorded_lem t (ok u) s = (refl, refl)
  recorded_lem t (err e) s = (refl, refl)

  pub record_phase_lem :
      (t : TransitionSnapshot) (phase : TransitionPhase) (s : Live env.World)
      → ((record_phase env m t phase s).1.engine.configuration ≡ s.engine.configuration)
        × ((record_phase env m t phase s).0.0.phase ≡ phase)
        × ((record_phase env m t phase s).0.0.domain ≡ t.domain)
        × ((record_phase env m t phase s).0.0.target_mode ≡ t.target_mode)
  unfolding record_phase
  record_phase_lem t phase s =
      let r = recorded_lem _ _ _ in
      (r.0, ap (λ x. x.phase) r.1, ap (λ x. x.domain) r.1, ap (λ x. x.target_mode) r.1)

  -- What the snapshot of a transition that `Fail` ends becomes.
  abbrev pub failed_at :
      TransitionSnapshot → TransitionPhase → ℕ → TransitionFailure → TransitionSnapshot
  failed_at t phase time f = record t { phase = phase; updated_at = time; failure = some f }

  -- What `Fail` gives: the journal took the event of the failed transition, which the table then
  -- has; or it refused it, and the failure says so, and the engine is as it was.
  abbrev pub Failed :
      TransitionSnapshot
      → TransitionPhase
      → TransitionFailure
      → Live env.World
      → TransitionSnapshot × Live env.World
      → Type 0
  Failed t phase f s (t', s') =
      let time = (env.now s.world).0 in
      let written = failed_at t phase time f in
      let event : JournalEvent = record {
        transition = written;
        generation = m.generation;
        plan = find t.id s.engine.plans;
      } in
      let answer = (env.append event (env.now s.world).1).0 in
      (s'.world ≡ (env.append event (env.now s.world).1).1)
      × (((answer ≡ ok tt)
            × (t' ≡ written)
            × (s'.engine
                ≡ record (s.engine) { transitions = assign t.id written s.engine.transitions }))
          ⊎ ((x : Error) × (answer ≡ err x)
              × (t' ≡ failed_at t phase time (record f { error = make_error persistence_error 0 }))
              × (s'.engine ≡ s.engine)))

  -- `Fail` changes the phase of a transition, the time and the failure, and nothing else. The phase
  -- is that of the error: cancelled, out of time or superseded, and failed for all other errors. The
  -- failure has the error, the application and the evidence, and no recovery. The journal is handed
  -- one event, with that snapshot. If it takes it, the table has the snapshot and `Fail` returns it;
  -- if it refuses it, the engine stays as it was, and the snapshot that `Fail` returns has a
  -- persistence error in place of the error.
  pub fail_transition_lem :
      (t : TransitionSnapshot) (e : Error) (application : Option ℕ) (evidence : BackendEvidence)
      → (s : Live env.World)
      → (phase : TransitionPhase) × EndsIn e.code phase
        × (f : TransitionFailure) × (f.error ≡ e)
        × (f.application ≡ application)
        × (f.evidence ≡ evidence)
        × HasNoRecovery f
        × Failed t phase f s (fail_transition env m t e application evidence s)
  unfolding fail_transition record_phase recorded
  fail_transition_lem t e application evidence s =
      let phase = terminal_phase e.code in
      let f = failure_of e application evidence in
      let event : JournalEvent = record {
        transition = failed_at t phase (env.now s.world).0 f;
        generation = m.generation;
        plan = find t.id s.engine.plans;
      } in
      (
        phase,
        terminal_phase-EndsIn e.code,
        f,
        refl,
        refl,
        refl,
        (refl, refl, refl, refl, refl, refl, refl),
        elim (Result-cases (env.append event (env.now s.world).1).0) [
          | inl (u, h) ↦ rw h (refl, inl (refl, refl, refl))
          | inr (x, h) ↦ rw h (refl, inr (x, refl, refl, refl))
        ],
      )

  -- `Fail` never ends in success.
  pub fail_transition-NoSuccess :
      (t : TransitionSnapshot) (e : Error) (application : Option ℕ) (evidence : BackendEvidence)
      → (s : Live env.World)
      → is_succeeded (fail_transition env m t e application evidence s).0.phase ≡ false
  fail_transition-NoSuccess t e application evidence s =
      let (phase, ends, f, _, _, _, _, (_, outcome)) =
        fail_transition_lem t e application evidence s in
      let over = EndsIn-NoSuccess e.code phase ends in
      elim outcome [
        | inl (_, same, _) ↦ ap (λ (x : TransitionSnapshot). is_succeeded x.phase) same ∙ over
        | inr (_, _, same, _) ↦ ap (λ (x : TransitionSnapshot). is_succeeded x.phase) same ∙ over
      ]

cancel-flag :
    (id : ℕ) (e : Engine) {b : Bool} {t : TransitionSnapshot}
    → find id e.cancellation ≡ some b
    → find id e.transitions ≡ some t
    → (is_committing t.phase || is_terminal t.phase) ≡ false
    → (cancel id e).0.cancellation ≡ assign id true e.cancellation
unfolding cancel
cancel-flag id e a c k = ground arith

-- A successful `Cancel` sets the flag of a transition that is neither committing nor over, and a
-- refused one changes nothing.
pub cancel_lem :
    (id : ℕ) (e : Engine)
    → ((cancel id e).1 ≡ ok tt
        → (find id (cancel id e).0.cancellation ≡ some true)
          × (t : TransitionSnapshot) × (find id e.transitions ≡ some t)
          × ((is_committing t.phase || is_terminal t.phase) ≡ false))
      × ((x : Error) → (cancel id e).1 ≡ err x → (cancel id e).0 ≡ e)
unfolding cancel
cancel_lem id e = elim (Option-cases (find id e.cancellation)) [
  | inl a ↦ (λ h. ground arith, λ x h. ground arith)
  | inr (b, a) ↦ elim (Option-cases (find id e.transitions)) [
    | inl c ↦ (λ h. ground arith, λ x h. ground arith)
    | inr (t, c) ↦ elim (Bool-cases (is_committing t.phase || is_terminal t.phase)) [
      | inl k ↦ (λ h. ground arith, λ x h. ground arith)
      | inr k ↦ (
        λ h. (
          ap (find id) (cancel-flag id e a c k)
              ∙ find-assign id id true e.cancellation
              ∙ ground arith,
          t,
          c,
          k,
        ),
        λ x h. ground arith,
      )
    ]
  ]
]
