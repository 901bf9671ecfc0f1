-- ===== src/Exec/Engine/Replay.antt =====
-- exec/src/engine.cpp: `ExecutionEngine::Create` reads the journal back, compares the configuration
-- that it tells of with what runs, and ends the transitions that a restart interrupted.
pub mod Histories
use openvehicleframework.Base.{
  ℕ, ◌+◌, ◌%◌, ◌^◌, max, Bool, true, false, not, ◌&&◌, Option, some, none, List, [], ◌∷◌, Table,
  find, assign, is_some, if◌then◌else◌, ◌==◌, ltb, is_empty, all_of, contains, insert, insert_all,
  erase, Result, ok, err, refuse_if, ◌>>=◌, ◌>>◌, make_error, configuration_error,
  persistence_error, backend_unavailable,
}
use openvehicleframework.Exec.Types.{
  ExecutionModel, ExecutionUnitDefinition, TransitionPhase, StopReason, valid, later,
}
use openvehicleframework.Exec.Model.{find_unit, find_domain, find_mode}
use openvehicleframework.Exec.Planner.{SystemConfiguration, TransitionPlan, initial_configuration}
use openvehicleframework.Exec.Scheduler
use openvehicleframework.Exec.Engine.{
  BackendEvidence, no_evidence, TransitionFailure, TransitionSnapshot, JournalEvent, Engine,
  Environment, code_number, phase_number, is_terminal,
}
use openvehicleframework.Exec.Engine.Actions.{Live, fail_transition}
use openvehicleframework.Exec.Engine.Recovery.{is_ready, is_stopped}

-- What the journal tells, event by event.
pub record Replayed : Type 0 where
  pub configuration : SystemConfiguration
  pub transitions : Table TransitionSnapshot
  pub plans : Table TransitionPlan
  pub next_transition : ℕ

abbrev pub is_recovering : TransitionPhase → Bool
is_recovering TransitionPhase.recovering = true
is_recovering _ = false

abbrev pub ends_recovery : TransitionPhase → Bool
ends_recovery TransitionPhase.failed = true
ends_recovery TransitionPhase.recovery_failed = true
ends_recovery _ = false

-- `valid_progress`.
unfoldable pub valid_progress : TransitionPhase → TransitionPhase → Bool
valid_progress previous next =
    if phase_number previous == phase_number next
    then true
    else if is_recovering previous
    then ends_recovery next
    else not (is_terminal previous) && ltb (phase_number previous) (phase_number next)

-- Whether the earlier snapshot, if there is one, belongs to the same history.
abbrev pub is_consistent : Option TransitionSnapshot → TransitionSnapshot → Bool
is_consistent none t = true
is_consistent (some p) t =
    (p.domain == t.domain)
    && (p.source_mode == t.source_mode)
    && (p.target_mode == t.target_mode)
    && valid_progress p.phase t.phase

abbrev pub is_known_mode : ExecutionModel → ℕ → ℕ → Bool
is_known_mode m d mode = is_some (find_mode m (record { domain = d; mode = mode }))

abbrev pub is_known_unit : ExecutionModel → ℕ → Bool
is_known_unit m u = is_some (find_unit m u)

-- The identity of a transition under the model.
abbrev pub is_known_transition : ExecutionModel → TransitionSnapshot → Bool
is_known_transition m t =
    valid t.id
    && valid t.domain
    && valid t.source_mode
    && valid t.target_mode
    && is_known_mode m t.domain t.source_mode
    && is_known_mode m t.domain t.target_mode

abbrev pub plan_matches : TransitionPlan → JournalEvent → Bool
plan_matches p e =
    (p.generation == e.generation)
    && (p.domain == e.transition.domain)
    && (p.source_mode == e.transition.source_mode)
    && (p.target_mode == e.transition.target_mode)

abbrev pub plan_is_known : ExecutionModel → TransitionPlan → Bool
plan_is_known m p =
    all_of (is_known_unit m) p.retain
    && all_of (is_known_unit m) p.stop
    && all_of (is_known_unit m) p.start
    && all_of (λ d. is_some (find_domain m d)) p.guarded_domains

abbrev pub erase_each : List ℕ → List ℕ → List ℕ
erase_each [] xs = xs
erase_each (b ∷ bs) xs = erase_each bs (erase b xs)

-- The plan of an event.
pub replay_plan : ExecutionModel → JournalEvent → Option TransitionPlan → Replayed → Result Replayed
replay_plan m e none r = ok r
replay_plan m e (some p) r = do
  refuse_if (not (plan_matches p e)) persistence_error e.transition.id
  refuse_if (not (plan_is_known m p)) persistence_error e.transition.id
  ok (record r { plans = assign e.transition.id p r.plans })

-- The mode that a recovery entered.
pub replay_recovered_mode :
    ExecutionModel → TransitionSnapshot → Option ℕ → Replayed → Result Replayed
replay_recovered_mode m t none r = ok r
replay_recovered_mode m t (some mode) r = do
  refuse_if (not (is_known_mode m t.domain mode)) persistence_error t.id
  ok (record r {
    configuration = record (r.configuration) {
      committed_modes = assign t.domain mode r.configuration.committed_modes;
    };
  })

-- The failure of an event.
pub replay_failure :
    ExecutionModel → TransitionSnapshot → Option TransitionFailure → Replayed → Result Replayed
unfolding replay_recovered_mode
replay_failure m t none r = ok r
replay_failure m t (some f) r = do
  r' ← replay_recovered_mode m t f.recovered_mode r
  refuse_if (not (all_of (is_known_unit m) f.recovery_stopped_applications)) persistence_error t.id
  refuse_if (not (all_of (is_known_unit m) f.recovery_started_applications)) persistence_error t.id
  ok (record r' {
    configuration = record (r'.configuration) {
      running_units =
          insert_all f.recovery_started_applications
            (erase_each f.recovery_stopped_applications r'.configuration.running_units);
    };
  })

-- The effect of a success.
abbrev pub carry_out : TransitionPlan → Replayed → Replayed
carry_out p r = record r {
  configuration = record (r.configuration) {
    committed_modes = assign p.domain p.target_mode r.configuration.committed_modes;
    running_units = insert_all p.start (erase_each p.stop r.configuration.running_units);
  };
}

pub replay_success : TransitionSnapshot → TransitionPhase → Replayed → Result Replayed
replay_success t TransitionPhase.succeeded r = elim (find t.id r.plans) [
  | none ↦ err (make_error persistence_error t.id)
  | some p ↦ ok (carry_out p r)
]
replay_success t _ r = ok r

-- One event.
unfoldable pub replay_event : ExecutionModel → JournalEvent → Replayed → Result Replayed
unfolding replay_plan replay_failure replay_success
replay_event m e r = do
  let t = e.transition
  refuse_if (not (e.generation == m.generation)) configuration_error e.generation
  refuse_if (not (is_known_transition m t)) persistence_error t.id
  refuse_if (not (is_consistent (find t.id r.transitions) t)) persistence_error t.id
  r1 ← replay_plan m e e.plan (record r {
    transitions = assign t.id t r.transitions;
    next_transition = max r.next_transition ((t.id + 1) % 2 ^ 64);
  })
  r2 ← replay_failure m t t.failure r1
  replay_success t t.phase r2

-- The loop over the journal.
unfoldable pub replay_events : ExecutionModel → List JournalEvent → Replayed → Result Replayed
unfolding replay_event
replay_events m [] r = ok r
replay_events m (e ∷ es) r = do r' ← replay_event m e r; replay_events m es r'

abbrev pub before_replay : SystemConfiguration → Replayed
before_replay c = record { configuration = c; transitions = []; plans = []; next_transition = 1 }

abbrev pub interrupted : Table TransitionSnapshot → List ℕ
interrupted [] = []
interrupted ((id, t) ∷ ts) =
    let rest = interrupted ts in if is_terminal t.phase then rest else id ∷ rest

abbrev pub not_cancelled : Table TransitionSnapshot → Table Bool
not_cancelled [] = []
not_cancelled ((id, t) ∷ ts) = (id, false) ∷ not_cancelled ts

-- The engine that `Create` builds from the journal.
abbrev pub built : Replayed → SystemConfiguration → Engine
built r c = record {
  configuration = c;
  transitions = r.transitions;
  plans = r.plans;
  cancellation = not_cancelled r.transitions;
  next_transition = r.next_transition;
  scheduler = Scheduler.initial;
}

-- Without a journal each initially required unit has to be ready.
pub all_observed : List ℕ → List ℕ → Result (Unit {0})
all_observed observed [] = ok tt
all_observed observed (u ∷ us) =
    if contains observed u then all_observed observed us else err (make_error backend_unavailable u)

module _ (env : Environment) (m : ExecutionModel) where
  open env use {World}

  -- The units that the backend finds ready.
  pub observe : List ExecutionUnitDefinition → List ℕ → World → Result (List ℕ) × World
  observe [] seen w = (ok seen, w)
  observe (u ∷ us) seen w =
      let (answer, w') = env.inspect u.id w in
      elim answer [
        | err e ↦ (err e, w')
        | ok evidence ↦ observe us (if is_ready evidence.state then insert u.id seen else seen) w'
      ]

  abbrev is_ready_answer : Result BackendEvidence → Bool
  is_ready_answer (err e) = false
  is_ready_answer (ok evidence) = is_ready evidence.state

  abbrev is_stopped_answer : Result BackendEvidence → Bool
  is_stopped_answer (err e) = false
  is_stopped_answer (ok evidence) = is_stopped evidence.state

  -- Whether a unit was brought to the state that the journal tells of.
  abbrev restore_unit : ExecutionUnitDefinition → Bool → Bool → World → Bool × World
  restore_unit u true true w = (true, w)
  restore_unit u false false w = (true, w)
  restore_unit u true false w =
      let (time, w1) = env.now w in
      let (answer, w2) = env.start u.id (later time u.start_timeout) w1 in
      (is_ready_answer answer, w2)
  restore_unit u false true w =
      let (time, w1) = env.now w in
      let (answer, w2) = env.stop u.id StopReason.recovery (later time u.stop_timeout) w1 in
      (is_stopped_answer answer, w2)

  pub restore : List ℕ → List ℕ → List ExecutionUnitDefinition → World → Result (Unit {0}) × World
  restore expected observed [] w = (ok tt, w)
  restore expected observed (u ∷ us) w =
      let (done, w') = restore_unit u (contains expected u.id) (contains observed u.id) w in
      let rest = restore expected observed us w' in
      if done then rest else (err (make_error backend_unavailable u.id), w')

  -- The loop over the interrupted transitions. `Fail` always records a failure.
  pub finalize : List ℕ → Live World → Live World
  finalize [] s = s
  finalize (id ∷ ids) s = finalize ids (elim (find id s.engine.transitions) [
    | none ↦ s
    | some t ↦ (fail_transition env m t (make_error backend_unavailable 0) none no_evidence s).1
  ])

  -- The configuration with which the engine starts.
  pub settle : Replayed → Bool → List ℕ → World → Result SystemConfiguration × World
  unfolding restore
  settle r recovering observed w =
      let c = r.configuration in
      if not recovering
      then (all_observed observed c.running_units >> ok c, w)
      else if is_empty (interrupted r.transitions)
      then (let (done, w') = restore c.running_units observed m.units w in (done >> ok c, w'))
      else (ok (record c { running_units = observed }), w)

  -- `Create`, with a backend and a journal.
  unfoldable pub create : World → Result (Live World)
  unfolding settle finalize observe
  create w = do
    initial ← initial_configuration m
    let (journal, w1) = env.replay w
    events ← elim journal [
      | err e ↦ err (make_error persistence_error (code_number e.code))
      | ok es ↦ ok es
    ]
    r ← replay_events m events (before_replay initial)
    let (seen, w2) = observe m.units [] w1
    observed ← seen
    let (settled, w3) = settle r (not (is_empty events)) observed w2
    configuration ← settled
    ok (
        finalize (interrupted r.transitions)
          (record { engine = built r configuration; world = w3 }))
