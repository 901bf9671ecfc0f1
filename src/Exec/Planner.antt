-- ===== src/Exec/Planner.antt =====
-- exec/src/planner.cpp. The planner compares the modes that a transition would select with the
-- units that run, and says what to keep, what to stop and what to start.
pub mod Walk
pub mod Required
pub mod Plans
pub mod Safety
pub mod Requests
pub mod Examples
use openvehicleframework.Base.{
  ℕ, zero, suc, ◌+◌, Bool, true, false, not, ◌&&◌, ◌||◌, Option, some, none, List, [], ◌∷◌, ◌++◌,
  Table, find, assign, emplace, remove, is_some, if◌then◌else◌, ◌==◌, length, contains, insert,
  insert_all, erase, keep, any_of, all_of, set_insert, set_insert_all, sort, reverse, Result, ok,
  err, fail, or_fail, reject_if, ◌>>=◌, ◌>>◌, configuration_error, not_found, invalid_transition,
}
use openvehicleframework.Exec.Types.{
  ExecutionModel, ExecutionUnitDefinition, DomainDefinition, ModeDefinition, ModeConstraint,
  ModeRef, ConstraintKind, requires_mode, excludes_mode,
}
use openvehicleframework.Exec.Model.{find_unit, find_domain, find_mode}
use Walk.{order}

pub record SystemConfiguration : Type 0 where
  pub generation : ℕ
  pub committed_modes : Table ℕ
  pub running_units : List ℕ

pub record TransitionPlan : Type 0 where
  pub generation : ℕ
  pub domain : ℕ
  pub source_mode : ℕ
  pub target_mode : ℕ
  pub retain : List ℕ
  pub stop : List ℕ
  pub start : List ℕ
  pub guarded_domains : List ℕ
  pub affected_resources : List ℕ

-- The bootstrap units, which every configuration runs.
pub bootstrap_units : List ExecutionUnitDefinition → List ℕ → List ℕ
bootstrap_units [] required = required
bootstrap_units (u ∷ us) required =
    bootstrap_units us (if u.bootstrap then insert u.id required else required)

-- The units of the mode that each domain of the model has selected.
pub selected_units : ExecutionModel → Table ℕ → List DomainDefinition → List ℕ → Result (List ℕ)
selected_units m modes [] required = ok required
selected_units m modes (d ∷ ds) required = elim (find d.id modes) [
  | none ↦ fail configuration_error
  | some selected ↦ elim (find_mode m (record { domain = d.id; mode = selected })) [
    | none ↦ fail configuration_error
    | some mode ↦ selected_units m modes ds (insert_all mode.units required)
  ]
]

-- Each selected unit is defined and has its dependencies selected.
pub check_dependencies : ExecutionModel → List ℕ → List ℕ → Result (Unit {0})
check_dependencies m required [] = ok tt
check_dependencies m required (u ∷ us) = elim (find_unit m u) [
  | none ↦ fail configuration_error
  | some d ↦
      if all_of (contains required) d.dependencies
      then check_dependencies m required us
      else fail invalid_transition
]

-- `RequiredUnits`.
unfoldable pub required_units : ExecutionModel → Table ℕ → Result (List ℕ)
unfolding bootstrap_units selected_units check_dependencies
required_units m modes = do
  required ← selected_units m modes m.domains (bootstrap_units m.units [])
  check_dependencies m required required
  ok required

-- Whether the mode that a constraint names is selected.
abbrev pub is_selected : Table ℕ → ModeRef → Bool
is_selected modes r = elim (find r.domain modes) [ none ↦ false | some mode ↦ mode == r.mode ]

abbrev pub violates : ConstraintKind → Bool → Bool
violates requires_mode selected = not selected
violates excludes_mode selected = selected

pub check_constraints : Table ℕ → List ModeConstraint → Result (Unit {0})
check_constraints modes [] = ok tt
check_constraints modes (c ∷ cs) =
    if violates c.kind (is_selected modes c.other)
    then fail invalid_transition
    else check_constraints modes cs

check_modes : ExecutionModel → Table ℕ → Table ℕ → Result (Unit {0})
unfolding check_constraints
check_modes m modes [] = ok tt
check_modes m modes ((d, mode) ∷ rest) = elim (find_mode m (record { domain = d; mode = mode })) [
  | none ↦ fail configuration_error
  | some definition ↦ do check_constraints modes definition.constraints; check_modes m modes rest
]

-- `ValidateConstraints`.
unfoldable pub validate_constraints : ExecutionModel → Table ℕ → Result (Unit {0})
unfolding check_modes
validate_constraints m modes = check_modes m modes modes

-- The exclusive resources of the units, in ascending order. A unit that is not defined, which the
-- source would read through a null pointer, adds none.
pub resources_of : ExecutionModel → List ℕ → List ℕ → List ℕ
resources_of m [] set = set
resources_of m (u ∷ us) set =
    resources_of m us
      (elim (find_unit m u) [ none ↦ set | some d ↦ set_insert_all d.exclusive_resources set ])

-- The domains that a constraint ties to the domain, in ascending order.
guard_constraints : ℕ → ℕ → List ModeConstraint → List ℕ → List ℕ
guard_constraints domain candidate [] set = set
guard_constraints domain candidate (c ∷ cs) set = guard_constraints domain candidate cs (
    if (candidate == domain) || (c.other.domain == domain)
    then set_insert c.other.domain (set_insert candidate set)
    else set)

guard_modes : ℕ → ℕ → List ModeDefinition → List ℕ → List ℕ
unfolding guard_constraints
guard_modes domain candidate [] set = set
guard_modes domain candidate (n ∷ ns) set =
    guard_modes domain candidate ns (guard_constraints domain candidate n.constraints set)

pub guarded : ℕ → List DomainDefinition → List ℕ → List ℕ
unfolding guard_modes
guarded domain [] set = set
guarded domain (d ∷ ds) set = guarded domain ds (guard_modes domain d.id d.modes set)

-- The end of `BuildPlan`: the three differences, the resources and the guarded domains.
unfoldable pub differences :
    ExecutionModel → SystemConfiguration → ℕ → ℕ → ℕ → List ℕ → TransitionPlan
unfolding resources_of guarded
differences m current domain source target required =
    let retained = keep (contains current.running_units) required in
    let to_start = keep (λ u. not (contains current.running_units u)) required in
    let to_stop = keep (λ u. not (contains required u)) current.running_units in
    record {
      generation = current.generation;
      domain = domain;
      source_mode = source;
      target_mode = target;
      retain = order m retained false;
      stop = order m to_stop true;
      start = order m to_start false;
      guarded_domains = guarded domain m.domains (domain ∷ []);
      affected_resources = resources_of m to_stop (resources_of m to_start []);
    }

-- `BuildPlan`.
unfoldable pub build_plan :
    ExecutionModel → SystemConfiguration → ℕ → ℕ → Bool → Result TransitionPlan
build_plan m current domain target allow_current_mode = do
  reject_if (not (current.generation == m.generation)) configuration_error
  reject_if (not (is_some (find_domain m domain))) not_found
  reject_if (not (is_some (find_mode m (record { domain = domain; mode = target })))) not_found
  source ← or_fail (find domain current.committed_modes) configuration_error
  reject_if (not allow_current_mode && (source == target)) invalid_transition
  let proposed = assign domain target current.committed_modes
  validate_constraints m proposed
  required ← required_units m proposed
  ok (differences m current domain source target required)

-- `Plan`.
unfoldable pub plan : ExecutionModel → SystemConfiguration → ℕ → ℕ → Result TransitionPlan
unfolding build_plan
plan m current domain target = build_plan m current domain target false

-- `Reconcile`.
unfoldable pub reconcile : ExecutionModel → SystemConfiguration → ℕ → ℕ → Result TransitionPlan
unfolding build_plan
reconcile m current domain target = build_plan m current domain target true

initial_modes : List DomainDefinition → Table ℕ → Table ℕ
initial_modes [] t = t
initial_modes (d ∷ ds) t = initial_modes ds (emplace d.id d.initial_mode t)

-- `InitialConfiguration`.
unfoldable pub initial_configuration : ExecutionModel → Result SystemConfiguration
unfolding initial_modes
initial_configuration m = do
  let modes = initial_modes m.domains []
  required ← required_units m modes
  ok (record { generation = m.generation; committed_modes = modes; running_units = required })

remaining_units : ExecutionModel → Table ℕ → List ℕ → Result (List ℕ)
remaining_units m [] required = ok required
remaining_units m ((d, mode) ∷ rest) required =
    elim (find_mode m (record { domain = d; mode = mode })) [
      | none ↦ fail configuration_error
      | some definition ↦ remaining_units m rest (insert_all definition.units required)
    ]

-- Each remaining unit is defined and keeps its dependencies.
check_remaining : ExecutionModel → List ℕ → List ℕ → Result (Unit {0})
check_remaining m required [] = ok tt
check_remaining m required (u ∷ us) = elim (find_unit m u) [
  | none ↦ fail configuration_error
  | some d ↦
      if any_of (λ v. not (contains required v)) d.dependencies
      then fail configuration_error
      else check_remaining m required us
]

-- `StopDomainUnits`.
unfoldable pub stop_domain_units : ExecutionModel → SystemConfiguration → ℕ → Result (List ℕ)
unfolding remaining_units check_remaining bootstrap_units
stop_domain_units m current domain = do
  reject_if (not (current.generation == m.generation) || not (is_some (find_domain m domain)))
      configuration_error
  required ← remaining_units m (remove domain current.committed_modes) (bootstrap_units m.units [])
  check_remaining m required required
  ok (order m (keep (λ u. not (contains required u)) current.running_units) true)
