-- ===== src/Exec/Engine/Examples.antt =====
-- exec/src/engine.cpp on a small model, with a backend whose units are always ready, the journal in
-- memory and a clock that stands still.
use openvehicleframework.Base.{
  ◌≡◌, refl, inr, ErrorCode, true, false, ◌&&◌, ◌||◌, List, [], ◌∷◌, some, none, find, ok, err,
  fail, Error, make_error, unsupported, cancelled,
}
use openvehicleframework.Exec.Types.{ApplicationState, TransitionPhase}
use openvehicleframework.Exec.Model.{find_unit, find_domain, find_mode}
use openvehicleframework.Exec.Planner.{
  initial_configuration, plan, validate_constraints, required_units, differences,
}
use openvehicleframework.Exec.Planner.Walk.{order, walk, visit_each, visit, dependencies_of}
use openvehicleframework.Exec.Engine.{
  BackendEvidence, TransitionFailure, TransitionSnapshot, JournalEvent, AcceptedTransition, Engine,
  Environment, is_terminal, is_committing, cancel,
}
use openvehicleframework.Exec.Engine.Actions.{Live, accept_mode_from, fail_transition}
use openvehicleframework.Exec.Engine.Failures.{
  EndsIn, HasNoRecovery, Failed, fail_transition_lem, cancel_lem,
}
use openvehicleframework.Exec.Engine.MemoryJournal
use openvehicleframework.Exec.Engine.Phases.{valid_progress_antisym}
use openvehicleframework.Exec.Engine.Policies.{is_reported_otherwise, policies_differ}
use openvehicleframework.Exec.Engine.Recovery.{is_starting, recovery_state_reached, recover}
use openvehicleframework.Exec.Engine.Execution.{state_reached, stop_units, start_units, execute}
use openvehicleframework.Exec.Engine.Refusals.{
  IsRefused, HasUndefinedTarget, undefined_mode_is_journalled, create_refuses_undefined_mode,
  undefined_mode_blocks_restart,
}
use openvehicleframework.Exec.Engine.Replay.{valid_progress, replay_events, create}
use openvehicleframework.Exec.Engine.Replay.Histories.{Precedes, create-histories}
use openvehicleframework.Exec.Engine.Stops.{
  without, NoSuccess, Leaves, recover-NoSuccess, stop_units-Leaves,
}
use openvehicleframework.Exec.Engine.Starts.{together_with, start_units-Leaves}
use openvehicleframework.Exec.Engine.Commits.{carried_out, execute_commits}
use openvehicleframework.Exec.Scheduler
use openvehicleframework.Exec.Sample.{car, parked, departure}
use openvehicleframework.Exec.Types.{ReadinessPolicy}

abbrev ready : BackendEvidence
ready = record { state = ApplicationState.ready; exit_code = 0; signal = 0; native_code = 0 }

abbrev calm : Environment
calm = record {
  World = List JournalEvent;
  now = λ w. (10, w);
  sleep_until = λ t w. w;
  inspect = λ u w. (ok ready, w);
  start = λ u t w. (ok ready, w);
  stop = λ u r t w. (ok ready, w);
  request_system_recovery = λ t w. (fail unsupported, w);
  append = MemoryJournal.append;
  replay = MemoryJournal.replay;
  cancellations = λ w. ([], w);
  meanwhile = λ w. ([], w);
}

-- A transition that waits for its units.
abbrev way : TransitionSnapshot
way = record {
  id = 1;
  domain = 1;
  source_mode = 1;
  target_mode = 2;
  phase = TransitionPhase.starting;
  updated_at = 5;
  failure = none;
}

abbrev engine : Engine
engine = record {
  configuration = parked;
  transitions = (1, way) ∷ [];
  plans = [];
  cancellation = (1, false) ∷ [];
  next_transition = 2;
  scheduler = Scheduler.initial;
}

abbrev idle : Live (List JournalEvent)
idle = record { engine = engine; world = [] }

-- The event of a request for a mode that is not defined.
abbrev lost_way : JournalEvent
lost_way = record { transition = record way { target_mode = 9 }; generation = 1; plan = none }

no_mode_nine : find_mode car (record { domain = 1; mode = 9 }) ≡ none
unfolding find_mode
no_mode_nine = refl

undefined_mode_is_journalled_example :
    IsRefused (accept_mode_from calm car parked 1 9 20 idle).0
    × (w : List JournalEvent) × (e : JournalEvent) × HasUndefinedTarget car e
    × ((accept_mode_from calm car parked 1 9 20 idle).1.world ≡ (calm.append e w).1)
undefined_mode_is_journalled_example =
    undefined_mode_is_journalled calm car parked 1 9 20 idle no_mode_nine refl

create_refuses_undefined_mode_example : IsRefused (create calm car (lost_way ∷ []))
create_refuses_undefined_mode_example =
    create_refuses_undefined_mode calm car (lost_way ∷ []) [] lost_way [] refl no_mode_nine

undefined_mode_blocks_restart_example :
    IsRefused (create calm car (accept_mode_from calm car parked 1 9 20 idle).1.world)
undefined_mode_blocks_restart_example =
    undefined_mode_blocks_restart calm car parked 1 9 20 idle (λ e w. (w, refl)) no_mode_nine refl

fail_transition_lem_example :
    (phase : TransitionPhase) × EndsIn ErrorCode.cancelled phase
    × (f : TransitionFailure) × (f.error ≡ make_error cancelled 0)
    × (f.application ≡ none)
    × (f.evidence ≡ ready)
    × HasNoRecovery f
    × Failed calm car way phase f idle
        (fail_transition calm car way (make_error cancelled 0) none ready idle)
fail_transition_lem_example =
    fail_transition_lem calm car way (make_error cancelled 0) none ready idle

cancel_lem_example :
    ((cancel 1 engine).1 ≡ ok tt
      → (find 1 (cancel 1 engine).0.cancellation ≡ some true)
        × (t : TransitionSnapshot) × (find 1 engine.transitions ≡ some t)
        × ((is_committing t.phase || is_terminal t.phase) ≡ false))
    × ((x : Error) → (cancel 1 engine).1 ≡ err x → (cancel 1 engine).0 ≡ engine)
cancel_lem_example = cancel_lem 1 engine

policies_differ_example :
    recovery_state_reached ReadinessPolicy.mount_present ApplicationState.starting ≡ (
      state_reached ReadinessPolicy.mount_present ApplicationState.starting
      || (is_reported_otherwise ReadinessPolicy.mount_present
          && is_starting ApplicationState.starting))
policies_differ_example = policies_differ ReadinessPolicy.mount_present ApplicationState.starting

failed_after_failed : valid_progress TransitionPhase.failed TransitionPhase.failed ≡ true
unfolding valid_progress
failed_after_failed = refl

valid_progress_antisym_example : TransitionPhase.failed ≡ TransitionPhase.failed
valid_progress_antisym_example =
    valid_progress_antisym TransitionPhase.failed TransitionPhase.failed failed_after_failed
      (inr refl)

recover-NoSuccess_example :
    NoSuccess (recover calm car way (make_error cancelled 0) (some 3) ready idle).0
recover-NoSuccess_example =
    recover-NoSuccess calm car way (make_error cancelled 0) (some 3) ready idle

stop_units-Leaves_example :
    Leaves (without (2 ∷ []) parked) way (stop_units calm car 20 (2 ∷ []) way idle)
stop_units-Leaves_example = stop_units-Leaves calm car 20 (2 ∷ []) way idle parked refl

start_units-Leaves_example :
    Leaves (together_with (3 ∷ []) parked) way (start_units calm car 20 (3 ∷ []) way idle)
start_units-Leaves_example = start_units-Leaves calm car 20 (3 ∷ []) way idle parked refl

-- A backend that also stops its units.
abbrev smooth : Environment
smooth = record calm {
  stop = λ u r t w. (ok (record ready { state = ApplicationState.stopped }), w);
}

abbrev received_way : TransitionSnapshot
received_way = record way { phase = TransitionPhase.planned }

abbrev accepting : Live (List JournalEvent)
accepting = record { engine = record engine { transitions = (1, received_way) ∷ [] }; world = [] }

abbrev going : AcceptedTransition
going = record { id = 1; plan = departure; deadline = 20 }

abbrev arrived : TransitionSnapshot
arrived = record way { phase = TransitionPhase.succeeded; updated_at = 10 }

going_arrives : (execute smooth car going accepting).0 ≡ ok arrived
unfolding execute Scheduler.acquire Scheduler.check_request Scheduler.initial plan find_domain
    find_mode validate_constraints required_units find_unit differences order walk visit_each visit
    dependencies_of
going_arrives = refl

execute_commits_example :
    (execute smooth car going accepting).1.engine.configuration
    ≡ carried_out smooth car departure 1 2 parked
execute_commits_example = execute_commits smooth car going accepting arrived going_arrives refl

-- A journal of a transition that was recovered from, and failed.
abbrev event_at : TransitionPhase → JournalEvent
event_at p = record { transition = record way { phase = p }; generation = 1; plan = none }

abbrev failing : List JournalEvent
failing =
    event_at TransitionPhase.starting
    ∷ event_at TransitionPhase.recovering
    ∷ event_at TransitionPhase.failed
    ∷ []

abbrev restarted : Live (List JournalEvent)
restarted = record {
  engine = record engine { transitions = (1, record way { phase = TransitionPhase.failed }) ∷ [] };
  world = failing;
}

failing_restarts : create smooth car failing ≡ ok restarted
unfolding create valid_progress Scheduler.initial find_domain find_mode find_unit
    initial_configuration required_units replay_events
failing_restarts = refl

create-histories_example :
    (way.domain ≡ way.domain)
    × (way.source_mode ≡ way.source_mode)
    × (way.target_mode ≡ way.target_mode)
    × Precedes TransitionPhase.starting TransitionPhase.failed
create-histories_example =
    create-histories smooth car failing restarted [] (event_at TransitionPhase.starting)
      (event_at TransitionPhase.recovering ∷ []) (event_at TransitionPhase.failed) [] refl
      failing_restarts refl
