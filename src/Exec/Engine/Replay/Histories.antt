-- ===== src/Exec/Engine/Replay/Histories.antt =====
-- exec/src/engine.cpp: what `Create` makes sure of in the history of each transition.
use openvehicleframework.Base.{
  ℕ, ◌≤◌, ◌<◌, Bool, true, not, all_of, Option, some, none, List, [], ◌∷◌, ◌++◌, find, assign,
  find-assign, ◌==◌, ==_iff, ==_refl, ◌≡◌, refl, sym, ap, ◌∙◌, ◌⊎◌, inl, inr, arith, Bool-cases, ok,
  refuse_if-eq-ok, >>=-eq-ok,
}
use openvehicleframework.Exec.Types.{ExecutionModel, TransitionPhase}
use openvehicleframework.Exec.Planner.{TransitionPlan, initial_configuration}
use openvehicleframework.Exec.Engine.{
  TransitionFailure, TransitionSnapshot, JournalEvent, Environment, phase_number,
}
use openvehicleframework.Exec.Engine.Actions.{Live}
use openvehicleframework.Exec.Engine.Phases.{
  valid_progress-phase_number, number_injective, valid_progress_trans,
}
use openvehicleframework.Exec.Engine.Replay.{
  Replayed, before_replay, is_known_mode, is_known_unit, is_known_transition, plan_matches,
  plan_is_known, is_consistent, valid_progress, replay_plan, replay_recovered_mode, replay_failure,
  replay_success, replay_event, replay_events, create,
}

-- A later event of the same transition may have this phase: the same one; the end of a recovery
-- without success; or, while the transition is neither over nor recovering, any later one.
abbrev pub Precedes : TransitionPhase → TransitionPhase → Type 0
Precedes p q =
    (p ≡ q)
    ⊎ ((p ≡ TransitionPhase.recovering)
        × ((q ≡ TransitionPhase.failed) ⊎ (q ≡ TransitionPhase.recovery_failed)))
    ⊎ ((phase_number p ≤ phase_number TransitionPhase.committing)
        × (phase_number p < phase_number q))

phase_number-le : (p : TransitionPhase) → phase_number p ≤ 14
phase_number-le TransitionPhase.received = omega arith
phase_number-le _ = omega arith

valid_progress-Precedes : (p q : TransitionPhase) → valid_progress p q ≡ true → Precedes p q
valid_progress-Precedes p q h =
    let n = sym (valid_progress-phase_number p q) ∙ h in
    elim (Bool-cases (phase_number p == phase_number q)) [
      | inl e ↦ inl (number_injective p q (ground arith))
      | inr e ↦ elim (Bool-cases (phase_number p == 14)) [
        | inr k ↦ inr (inr (ground (arith, phase_number-le p), ground arith))
        | inl k ↦
            let same = number_injective p TransitionPhase.recovering (ground arith) in
            elim (Bool-cases (phase_number q == 9)) [
              | inl f ↦
                  inr (inl (same, inl (number_injective q TransitionPhase.failed (ground arith))))
              | inr f ↦ inr (
                  inl
                    (same, inr (number_injective q TransitionPhase.recovery_failed (ground arith))))
            ]
      ]
    ]

-- Two snapshots of one history.
abbrev agree : TransitionSnapshot → TransitionSnapshot → Bool
agree p t = is_consistent (some p) t

agree_refl : (t : TransitionSnapshot) → agree t t ≡ true
unfolding valid_progress
agree_refl t = ground (
  arith,
  ==_refl t.domain,
  ==_refl t.source_mode,
  ==_refl t.target_mode,
  ==_refl (phase_number t.phase),
)

agree_trans : (p q t : TransitionSnapshot) → agree p q ≡ true → agree q t ≡ true → agree p t ≡ true
agree_trans p q t h k = ground (arith, valid_progress_trans p.phase q.phase t.phase)

replay_plan-transitions :
    (m : ExecutionModel) (e : JournalEvent) (p : Option TransitionPlan) (r : Replayed)
    {r' : Replayed}
    → replay_plan m e p r ≡ ok r'
    → r'.transitions ≡ r.transitions
unfolding replay_plan
replay_plan-transitions m e none r h = ground arith
replay_plan-transitions m e (some p) r h =
    let (_, h1) = refuse_if-eq-ok (not (plan_matches p e)) _ _ _ h in
    let (_, h2) = refuse_if-eq-ok (not (plan_is_known m p)) _ _ _ h1 in ground arith

replay_recovered_mode-transitions :
    (m : ExecutionModel) (t : TransitionSnapshot) (o : Option ℕ) (r : Replayed) {r' : Replayed}
    → replay_recovered_mode m t o r ≡ ok r'
    → r'.transitions ≡ r.transitions
unfolding replay_recovered_mode
replay_recovered_mode-transitions m t none r h = ground arith
replay_recovered_mode-transitions m t (some mode) r h =
    let (_, h1) = refuse_if-eq-ok (not (is_known_mode m t.domain mode)) _ _ _ h in ground arith

replay_failure-transitions :
    (m : ExecutionModel) (t : TransitionSnapshot) (o : Option TransitionFailure) (r : Replayed)
    → {r' : Replayed} → replay_failure m t o r ≡ ok r'
    → r'.transitions ≡ r.transitions
unfolding replay_failure
replay_failure-transitions m t none r h = ground arith
replay_failure-transitions m t (some f) r h =
    let (r1, h1, k) = >>=-eq-ok (replay_recovered_mode m t f.recovered_mode r) _ h in
    let stopped = all_of (is_known_unit m) f.recovery_stopped_applications in
    let started = all_of (is_known_unit m) f.recovery_started_applications in
    let (_, k1) = refuse_if-eq-ok (not stopped) _ _ _ k in
    let (_, k2) = refuse_if-eq-ok (not started) _ _ _ k1 in
    let same = replay_recovered_mode-transitions m t f.recovered_mode r h1 in ground arith

replay_success-transitions :
    (t : TransitionSnapshot) (p : TransitionPhase) (r : Replayed) {r' : Replayed}
    → replay_success t p r ≡ ok r'
    → r'.transitions ≡ r.transitions
unfolding replay_success
replay_success-transitions t TransitionPhase.succeeded r h = ground arith
replay_success-transitions t _ r h = ground arith

-- One event that is accepted agrees with what is known of its transition, and becomes what is known.
replay_event-step :
    (m : ExecutionModel) (e : JournalEvent) (r : Replayed) {r' : Replayed}
    → replay_event m e r ≡ ok r'
    → (is_consistent (find e.transition.id r.transitions) e.transition ≡ true)
      × (r'.transitions ≡ assign e.transition.id e.transition r.transitions)
unfolding replay_event
replay_event-step m e r h =
    let t = e.transition in
    let (_, h1) = refuse_if-eq-ok (not (e.generation == m.generation)) _ _ _ h in
    let (_, h2) = refuse_if-eq-ok (not (is_known_transition m t)) _ _ _ h1 in
    let (c, h3) = refuse_if-eq-ok (not (is_consistent (find t.id r.transitions) t)) _ _ _ h2 in
    let (r1, k1, h4) = >>=-eq-ok (replay_plan m e e.plan _) _ h3 in
    let (r2, k2, h5) = >>=-eq-ok (replay_failure m e.transition e.transition.failure r1) _ h4 in
    (
      ground arith,
      replay_success-transitions e.transition e.transition.phase r2 h5
          ∙ replay_failure-transitions m e.transition e.transition.failure r1 k2
          ∙ replay_plan-transitions m e e.plan _ k1,
    )

-- Events of one transition, after one with that snapshot.
replay_events-later :
    (m : ExecutionModel) (between : List JournalEvent) (e : JournalEvent)
    → (after : List JournalEvent) (r : Replayed) (t0 t : TransitionSnapshot) {r' : Replayed}
    → find e.transition.id r.transitions ≡ some t
    → agree t0 t ≡ true
    → replay_events m (between ++ e ∷ after) r ≡ ok r'
    → agree t0 e.transition ≡ true
unfolding replay_events
replay_events-later m [] e after r t0 t f a h =
    let (r1, h1, _) = >>=-eq-ok (replay_event m e r) _ h in
    let c = (replay_event-step m e r h1).0 in agree_trans t0 t e.transition a (rw f at c)
replay_events-later m (b ∷ between) e after r t0 t f a h =
    let (r1, h1, rest) = >>=-eq-ok (replay_event m b r) _ h in
    let (c, changed) = replay_event-step m b r h1 in
    let known =
      ap (find e.transition.id) changed
      ∙ find-assign b.transition.id e.transition.id b.transition r.transitions in
    elim (Bool-cases (b.transition.id == e.transition.id)) [
      | inr other ↦ replay_events-later m between e after r1 t0 t (known ∙ rw other f) a rest
      | inl same ↦
          let id = (==_iff b.transition.id e.transition.id).0 same in
          let agrees : agree t b.transition ≡ true =
            ap (λ o. is_consistent o b.transition) (sym (ap (λ k. find k r.transitions) id ∙ f))
            ∙ c in
          replay_events-later m between e after r1 t0 b.transition (known ∙ rw same refl)
            (agree_trans t0 t b.transition a agrees) rest
    ]

replay_events-agree :
    (m : ExecutionModel) (before : List JournalEvent) (first : JournalEvent)
    → (between : List JournalEvent) (second : JournalEvent) (after : List JournalEvent)
    → (r : Replayed) {r' : Replayed}
    → replay_events m (before ++ first ∷ between ++ second ∷ after) r ≡ ok r'
    → first.transition.id ≡ second.transition.id
    → agree first.transition second.transition ≡ true
unfolding replay_events
replay_events-agree m (b ∷ before) first between second after r h same =
    let (r1, _, rest) = >>=-eq-ok (replay_event m b r) _ h in
    replay_events-agree m before first between second after r1 rest same
replay_events-agree m [] first between second after r h same =
    let (r1, h1, rest) = >>=-eq-ok (replay_event m first r) _ h in
    let changed = (replay_event-step m first r h1).1 in
    let known =
      ap (find second.transition.id) changed
      ∙ find-assign first.transition.id second.transition.id first.transition r.transitions
      ∙ rw ((==_iff first.transition.id second.transition.id).1 same) refl in
    replay_events-later m between second after r1 first.transition first.transition known
      (agree_refl first.transition) rest

-- If the engine can be created from a journal, any two events of the journal with one transition
-- name the same domain, source mode and target mode, and the later one has the same phase as the
-- earlier one; or the earlier one is in recovery, and the later one failed or its recovery failed;
-- or the earlier one is committing at most, and the later one is in a later phase. So a
-- phase that ends a transition is followed by itself only, and no recovery ends in success.
pub create-histories :
    (env : Environment) (m : ExecutionModel) (w : env.World) (s : Live env.World)
    → (before : List JournalEvent) (first : JournalEvent) (between : List JournalEvent)
    → (second : JournalEvent) (after : List JournalEvent)
    → (env.replay w).0 ≡ ok (before ++ first ∷ between ++ second ∷ after)
    → create env m w ≡ ok s
    → first.transition.id ≡ second.transition.id
    → (first.transition.domain ≡ second.transition.domain)
      × (first.transition.source_mode ≡ second.transition.source_mode)
      × (first.transition.target_mode ≡ second.transition.target_mode)
      × Precedes first.transition.phase second.transition.phase
unfolding create
create-histories env m w s before first between second after journal h same =
    let (c, _, h1) = >>=-eq-ok (initial_configuration m) _ h in
    let replayed = rw journal at h1 in
    let (r, h2, _) = >>=-eq-ok (replay_events m _ (before_replay c)) _ replayed in
    let a = replay_events-agree m before first between second after (before_replay c) h2 same in
    (
      ground arith,
      ground arith,
      ground arith,
      valid_progress-Precedes first.transition.phase second.transition.phase (ground arith),
    )
