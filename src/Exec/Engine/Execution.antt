-- ===== src/Exec/Engine/Execution.antt =====
-- exec/src/engine.cpp: `Execute` and `RequestMode`.
use openvehicleframework.Base.{
  ℕ, zero, suc, min, Bool, true, false, not, ◌&&◌, ◌||◌, Option, some, none, List, [], ◌∷◌, ◌++◌,
  if◌then◌else◌, ◌==◌, leb, any_of, Result, ok, err, Error, make_error, cancelled, superseded,
  deadline_exceeded, backend_error,
}
use openvehicleframework.Exec.Types.{
  ExecutionModel, ExecutionUnitDefinition, TransitionPhase, ApplicationState, StopReason,
  ReadinessPolicy, later,
}
use openvehicleframework.Exec.Model.{find_unit}
use openvehicleframework.Exec.Planner.{TransitionPlan, plan}
use openvehicleframework.Exec.Scheduler.{TransitionResources}
use openvehicleframework.Exec.Scheduler
use openvehicleframework.Exec.Engine.{
  BackendEvidence, no_evidence, TransitionSnapshot, AcceptedTransition, Environment, get_transition,
}
use openvehicleframework.Exec.Engine.Actions.{
  stop_timeout_of, now_stopped, now_running, now_committed, M, ◌>>=◌, ◌>>◌, return, outside, modify,
  read, clock, record_phase, fail_transition, is_cancelled, accept_mode,
}
use openvehicleframework.Exec.Engine.Recovery.{
  is_ready, is_starting, stopped_cleanly, stop_error, recover,
}

-- `required_state` of `Execute`.
unfoldable pub state_reached : ReadinessPolicy → ApplicationState → Bool
state_reached ReadinessPolicy.process_started state = is_starting state || is_ready state
state_reached _ state = is_ready state

abbrev is_process_started : ReadinessPolicy → Bool
is_process_started ReadinessPolicy.process_started = true
is_process_started _ = false

-- Whether a unit has to report that it is ready.
abbrev pub needs_readiness : ExecutionModel → ℕ → Bool
needs_readiness m u = elim (find_unit m u) [
  | none ↦ false
  | some d ↦ not (is_process_started d.readiness)
]

abbrev pub evidence_or_none : Result BackendEvidence → BackendEvidence
evidence_or_none (err e) = no_evidence
evidence_or_none (ok evidence) = evidence

-- What the attempts to start a unit leave: the last evidence, the last error, and whether the unit
-- reached its state.
pub record Attempt : Type 0 where
  pub last_evidence : BackendEvidence
  pub last_error : Error
  pub started : Bool

abbrev pub no_attempt : Attempt
no_attempt = record {
  last_evidence = no_evidence;
  last_error = make_error backend_error 0;
  started = false;
}

-- The answer of the backend to a `Start`.
abbrev pub answered : ReadinessPolicy → Attempt → Result BackendEvidence → Attempt
answered readiness a (err e) = record a { last_error = e }
answered readiness a (ok evidence) =
    if state_reached readiness evidence.state
    then record a { last_evidence = evidence; started = true }
    else record a { last_evidence = evidence; last_error = make_error backend_error 0 }

-- The answer to a `Stop` after a failed attempt that did not clean up.
abbrev pub uncleaned : Attempt → Result BackendEvidence → Attempt
uncleaned a (err e) = record a { last_error = e }
uncleaned a (ok evidence) = record a {
  last_evidence = evidence;
  last_error = make_error backend_error 0;
}

-- A part of `Execute`: it ends the transition, or the next part goes on.
pub data Progress : Type 0 where
  ended : Result TransitionSnapshot → Progress
  goes_on : TransitionSnapshot → Progress

-- `operator==` of two lists.
abbrev pub same_list : List ℕ → List ℕ → Bool
same_list [] [] = true
same_list [] (y ∷ ys) = false
same_list (x ∷ xs) [] = false
same_list (x ∷ xs) (y ∷ ys) = (x == y) && same_list xs ys

-- `TransitionResources` of a plan.
abbrev pub resources_of : TransitionPlan → TransitionResources
resources_of p = record {
  domains = p.guarded_domains;
  units = p.stop ++ p.start;
  exclusive_resources = p.affected_resources;
}

module _ (env : Environment) (m : ExecutionModel) where
  -- `return Fail(...)`.
  abbrev pub end_with : TransitionSnapshot → Error → M env.World Progress
  end_with t e = do failed ← fail_transition env m t e none no_evidence; return (ended (ok failed))

  -- A phase that is recorded on the way.
  unfoldable pub enter_phase : TransitionSnapshot → TransitionPhase → M env.World Progress
  unfolding record_phase fail_transition
  enter_phase t phase = do
    (t', done) ← record_phase env m t phase
    elim done [ ok _ ↦ return (goes_on t') | err e ↦ end_with t' e ]

  abbrev pub then_go : Progress → (TransitionSnapshot → M env.World Progress) → M env.World Progress
  then_go (ended r) k = return (ended r)
  then_go (goes_on t) k = k t

  -- The loop over the units to stop.
  unfoldable pub stop_units : ℕ → List ℕ → TransitionSnapshot → M env.World Progress
  unfolding is_cancelled fail_transition recover
  stop_units deadline [] t = return (goes_on t)
  stop_units deadline (u ∷ us) t = do
    gone ← is_cancelled env m t.id
    let stop = do
      time ← clock env
      reply ←
          outside
            (env.stop u StopReason.mode_change (min deadline (later time (stop_timeout_of m u))))
      let rest = do modify (now_stopped u); stop_units deadline us t
      let recovered = do
        r ← recover env m t (stop_error reply) (some u) (evidence_or_none reply)
        return (ended r)
      if stopped_cleanly reply then rest else recovered
    if gone then end_with t (make_error cancelled 0) else stop

  -- The end of an attempt that failed: if attempts are left, the unit is stopped, and the next
  -- attempts follow after a delay.
  unfoldable pub retry :
      ℕ → ExecutionUnitDefinition → ℕ → ℕ → Attempt → M env.World Attempt → M env.World Attempt
  retry deadline d u zero a next = return a
  retry deadline d u (suc left) a next = do
    time ← clock env
    cleaned ← outside (env.stop u StopReason.restart (min deadline (later time d.stop_timeout)))
    let again = do
      time' ← clock env
      outside (λ w. (tt, env.sleep_until (min deadline (later time' d.retry.delay)) w))
      next
    if stopped_cleanly cleaned then again else return (uncleaned a cleaned)

  -- The attempts to start one unit. The number counts those that are left.
  unfoldable pub start_attempts :
      ℕ → ExecutionUnitDefinition → ℕ → ℕ → Attempt → M env.World Attempt
  unfolding state_reached retry
  start_attempts deadline d u zero a = return a
  start_attempts deadline d u (suc left) a = do
    time ← clock env
    let attempt = do
      reply ← outside (env.start u (min deadline (later time d.start_timeout)))
      let a1 = answered d.readiness a reply
      let next = start_attempts deadline d u left a1
      if a1.started then return a1 else retry deadline d u left a1 next
    if leb deadline time
        then return (record a { last_error = make_error deadline_exceeded 0 })
        else attempt

  -- A unit that is not defined, which the source would read through a null pointer, has no attempt.
  unfoldable pub start_unit : ℕ → ℕ → M env.World Attempt
  unfolding start_attempts
  start_unit deadline u = elim (find_unit m u) [
    | none ↦ return no_attempt
    | some d ↦ start_attempts deadline d u d.retry.max_attempts no_attempt
  ]

  -- The loop over the units to start.
  unfoldable pub start_units : ℕ → List ℕ → TransitionSnapshot → M env.World Progress
  unfolding is_cancelled fail_transition recover start_unit
  start_units deadline [] t = return (goes_on t)
  start_units deadline (u ∷ us) t = do
    gone ← is_cancelled env m t.id
    let start = do
      a ← start_unit deadline u
      let rest = do modify (now_running u); start_units deadline us t
      let recovered = do r ← recover env m t a.last_error (some u) a.last_evidence; return (ended r)
      if a.started then rest else recovered
    if gone then end_with t (make_error cancelled 0) else start

  -- The phases before the loops; an empty list has none.
  unfoldable pub announce_stops : List ℕ → TransitionSnapshot → M env.World Progress
  unfolding enter_phase
  announce_stops [] t = return (goes_on t)
  announce_stops (u ∷ us) t = enter_phase t TransitionPhase.stopping

  unfoldable pub announce_starts : List ℕ → TransitionSnapshot → M env.World Progress
  unfolding enter_phase
  announce_starts [] t = return (goes_on t)
  announce_starts (u ∷ us) t = do
    p ← enter_phase t TransitionPhase.starting
    then_go p λ t'.
        if any_of (needs_readiness m) (u ∷ us)
        then enter_phase t' TransitionPhase.awaiting_readiness
        else return (goes_on t')

  -- The end of `Execute`: the commit between two phases.
  unfoldable pub commit : ℕ → ℕ → TransitionSnapshot → M env.World Progress
  unfolding enter_phase
  commit domain target t = do
    p ← enter_phase t TransitionPhase.committing
    then_go p
        λ t'. do modify (now_committed domain target); enter_phase t' TransitionPhase.succeeded

  -- The error of the second planning, under the lease.
  pub replanning_error : TransitionPlan → Result TransitionPlan → Option Error
  replanning_error p (err e) = some e
  replanning_error p (ok q) =
      if same_list q.start p.start && same_list q.stop p.stop
      then none
      else some (make_error superseded 0)

  -- `Execute` after the second planning.
  unfoldable pub after_replanning :
      Option Error → TransitionPlan → ℕ → TransitionSnapshot → M env.World Progress
  unfolding announce_stops stop_units announce_starts start_units commit fail_transition
  after_replanning (some e) p deadline t = end_with t e
  after_replanning none p deadline t = do
    p1 ← announce_stops p.stop t
    p2 ← then_go p1 (stop_units deadline p.stop)
    p3 ← then_go p2 (announce_starts p.start)
    p4 ← then_go p3 (start_units deadline p.start)
    then_go p4 (commit t.domain t.target_mode)

  -- `Execute` under the lease.
  unfoldable pub execute_leased : TransitionPlan → ℕ → TransitionSnapshot → M env.World Progress
  unfolding replanning_error after_replanning
  execute_leased p deadline t = do
    configuration ← read (λ e. e.configuration)
    let error = replanning_error p (plan m configuration t.domain t.target_mode)
    after_replanning error p deadline t

  abbrev pub result_of : Progress → Result TransitionSnapshot
  result_of (ended r) = r
  result_of (goes_on t) = ok t

  -- The lease of the transition, with what other threads do while the call waits.
  unfoldable pub lease : ℕ → TransitionPlan → M env.World (Result ℕ)
  lease id p = do
    moves ← outside env.meanwhile
    answer ← read (λ e. Scheduler.acquire id (resources_of p) moves e.scheduler)
    modify (λ e. record e { scheduler = answer.0 })
    return answer.1

  -- `Execute` after `Acquire`. The lease is given back when it goes out of scope.
  unfoldable pub execute_granted :
      Result ℕ → AcceptedTransition → TransitionSnapshot → M env.World (Result TransitionSnapshot)
  unfolding execute_leased fail_transition
  execute_granted (err e) accepted t = do
    failed ← fail_transition env m t e none no_evidence
    return (ok failed)
  execute_granted (ok owner) accepted t = do
    progress ← execute_leased accepted.plan accepted.deadline t
    modify (λ e. record e { scheduler = Scheduler.release owner e.scheduler })
    return (result_of progress)

  -- `Execute` after `GetTransition`.
  unfoldable pub execute_found :
      Result TransitionSnapshot → AcceptedTransition → M env.World (Result TransitionSnapshot)
  unfolding lease execute_granted
  execute_found (err e) accepted = return (err e)
  execute_found (ok t) accepted = do
    leased ← lease t.id accepted.plan
    execute_granted leased accepted t

  -- `Execute`.
  unfoldable pub execute : AcceptedTransition → M env.World (Result TransitionSnapshot)
  unfolding execute_found
  execute accepted = do found ← read (get_transition accepted.id); execute_found found accepted

  -- `RequestMode`.
  unfoldable pub request_mode : ℕ → ℕ → ℕ → M env.World (Result TransitionSnapshot)
  unfolding accept_mode execute
  request_mode domain target deadline = do
    accepted ← accept_mode env m domain target deadline
    elim accepted [ err e ↦ return (err e) | ok a ↦ execute a ]
