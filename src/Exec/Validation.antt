-- ===== src/Exec/Validation.antt =====
-- exec/src/model.cpp: `InspectModel` and `ValidateModel`. An issue keeps its code, its path and, for
-- a dependency cycle, the identifiers that its message lists; the rest of the text is left out.
pub mod Names
pub mod Cycles
pub mod Sound
pub mod Examples
use openvehicleframework.Base.{
  ℕ, zero, suc, Bool, true, false, not, ◌&&◌, ◌||◌, Option, some, none, List, [], ◌∷◌, ◌++◌, Table,
  find, emplace, is_some, if◌then◌else◌, ◌==◌, ltb, length, is_empty, contains, insert, insert_all,
  any_of, Result, ok, err, ErrorCode, make_error, configuration_error,
}
use openvehicleframework.Exec.Types.{
  ExecutionModel, ExecutionUnitDefinition, DomainDefinition, ModeDefinition, ModeConstraint,
  ModeRef, ConstraintKind, requires_mode, excludes_mode, FailureAction, enter_fallback_mode,
  ReadinessPolicy, lifecycle_channel, process_started, supervisor_notification, successful_exit,
  mount_present, ExecutionUnitKind, managed_application, service, one_shot, mount, external, valid,
  same_ref, not_positive, is_negative,
}
use openvehicleframework.Exec.Model.{ModeTable, find_ref, emplace_ref}
use Names.{
  IssueCode, invalid_generation, duplicate_identifier, invalid_timeout, invalid_retry_policy,
  invalid_readiness_policy, invalid_unit_membership, unknown_application, unknown_dependency,
  unknown_initial_mode, unknown_constraint_mode, self_constraint, invalid_fallback_mode,
  contradictory_constraint, Segment, in_units, in_domains, in_modes, at_generation, at_retry,
  at_readiness, at_dependencies, at_bootstrap, at_units, at_initial_mode, at_recovery_deadline,
  at_fallback_mode, at_constraints, ModelIssue, issue, raise, Seen, no_names, inspect_identity,
}
use Cycles.{unit_path, inspect_dependency_cycles}

-- `applications`: the first definition of each identifier.
pub applications :
    List ExecutionUnitDefinition → Table ExecutionUnitDefinition → Table ExecutionUnitDefinition
applications [] t = t
applications (u ∷ us) t = applications us (emplace u.id u t)

abbrev pub valid_readiness : ExecutionUnitKind → ReadinessPolicy → Bool
valid_readiness managed_application lifecycle_channel = true
valid_readiness managed_application process_started = true
valid_readiness service process_started = true
valid_readiness service supervisor_notification = true
valid_readiness one_shot successful_exit = true
valid_readiness mount mount_present = true
valid_readiness external process_started = true
valid_readiness external supervisor_notification = true
valid_readiness _ _ = false

-- The loop that finds a dependency listed twice.
pub repeated_dependencies : List Segment → List ℕ → List ℕ → List ModelIssue
repeated_dependencies path seen [] = []
repeated_dependencies path seen (d ∷ ds) =
    raise (contains seen d) duplicate_identifier (path ++ at_dependencies ∷ [])
    ++ repeated_dependencies path (insert d seen) ds

-- The checks of one unit but for its identity.
pub inspect_unit : ExecutionUnitDefinition → List ModelIssue
unfolding repeated_dependencies
inspect_unit u =
    let path = unit_path u in
    raise (not_positive u.start_timeout || not_positive u.stop_timeout) invalid_timeout path
    ++ (raise
          ((u.retry.max_attempts == 0) || ltb 100 u.retry.max_attempts || is_negative u.retry.delay)
          invalid_retry_policy (path ++ at_retry ∷ [])
        ++ (raise (not (valid_readiness u.kind u.readiness)) invalid_readiness_policy
              (path ++ at_readiness ∷ [])
            ++ repeated_dependencies path [] u.dependencies))

-- The first loop over the units.
pub inspect_units : List ExecutionUnitDefinition → Seen → List ModelIssue
unfolding inspect_unit inspect_identity
inspect_units [] seen = []
inspect_units (u ∷ us) seen =
    let (seen', identity) = inspect_identity u.id u.name (unit_path u) seen in
    identity ++ (inspect_unit u ++ inspect_units us seen')

unknown_dependencies : Table ExecutionUnitDefinition → List Segment → List ℕ → List ModelIssue
unknown_dependencies apps path [] = []
unknown_dependencies apps path (d ∷ ds) =
    raise (not (is_some (find d apps))) unknown_dependency (path ++ at_dependencies ∷ [])
    ++ unknown_dependencies apps path ds

-- The second loop over the units.
pub inspect_dependencies :
    Table ExecutionUnitDefinition → List ExecutionUnitDefinition → List ModelIssue
unfolding unknown_dependencies
inspect_dependencies apps [] = []
inspect_dependencies apps (u ∷ us) =
    unknown_dependencies apps (unit_path u) u.dependencies ++ inspect_dependencies apps us

abbrev pub domain_path : DomainDefinition → List Segment
domain_path d = in_domains d.id ∷ []

abbrev pub mode_path : DomainDefinition → ModeDefinition → List Segment
mode_path d n = in_domains d.id ∷ in_modes n.id ∷ []

-- The units that a mode lists; a unit that is not known is not remembered as listed.
pub inspect_mode_units :
    Table ExecutionUnitDefinition → List Segment → List ℕ → List ℕ → List ModelIssue
inspect_mode_units apps path selected [] = []
inspect_mode_units apps path selected (u ∷ us) =
    let known = is_some (find u apps) in
    (raise (not known) unknown_application (path ++ at_units ∷ [])
      ++ raise (known && contains selected u) duplicate_identifier (path ++ at_units ∷ []))
    ++ inspect_mode_units apps path (if known then insert u selected else selected) us

-- The loop over the modes of a domain: the identifiers of the modes and the issues.
pub inspect_modes :
    Table ExecutionUnitDefinition
    → DomainDefinition
    → List ModeDefinition
    → Seen
    → Seen × List ModelIssue
unfolding inspect_mode_units inspect_identity
inspect_modes apps d [] seen = (seen, [])
inspect_modes apps d (n ∷ ns) seen =
    let (seen', identity) = inspect_identity n.id n.name (mode_path d n) seen in
    let (seen'', issues) = inspect_modes apps d ns seen' in
    (seen'', identity ++ (inspect_mode_units apps (mode_path d n) [] n.units ++ issues))

abbrev pub is_fallback : FailureAction → Bool
is_fallback enter_fallback_mode = true
is_fallback _ = false

-- The checks of a domain after its modes.
pub inspect_domain_modes : DomainDefinition → List ℕ → List ModelIssue
inspect_domain_modes d mode_ids =
    raise (not (contains mode_ids d.initial_mode)) unknown_initial_mode
      (domain_path d ++ at_initial_mode ∷ [])
    ++ (raise (not_positive d.recovery.deadline) invalid_timeout
          (domain_path d ++ at_recovery_deadline ∷ [])
        ++ raise (is_fallback d.recovery.action && not (contains mode_ids d.recovery.fallback_mode))
            invalid_fallback_mode (domain_path d ++ at_fallback_mode ∷ []))

-- The first loop over the domains.
pub inspect_domains : Table ExecutionUnitDefinition → List DomainDefinition → Seen → List ModelIssue
unfolding inspect_modes inspect_domain_modes inspect_identity
inspect_domains apps [] seen = []
inspect_domains apps (d ∷ ds) seen =
    let (seen', identity) = inspect_identity d.id d.name (domain_path d) seen in
    let (modes, issues) = inspect_modes apps d d.modes no_names in
    identity ++ (issues ++ (inspect_domain_modes d modes.ids ++ inspect_domains apps ds seen'))

-- `assigned_units`: what the modes of all domains list.
assign_modes : List ModeDefinition → List ℕ → List ℕ
assign_modes [] assigned = assigned
assign_modes (n ∷ ns) assigned = assign_modes ns (insert_all n.units assigned)

pub assigned_units : List DomainDefinition → List ℕ → List ℕ
unfolding assign_modes
assigned_units [] assigned = assigned
assigned_units (d ∷ ds) assigned = assigned_units ds (assign_modes d.modes assigned)

abbrev pub is_controlled : Option ExecutionUnitDefinition → Bool
is_controlled none = false
is_controlled (some u) = not u.bootstrap

-- The third loop over the units.
pub inspect_membership :
    Table ExecutionUnitDefinition → List ℕ → List ExecutionUnitDefinition → List ModelIssue
inspect_membership apps assigned [] = []
inspect_membership apps assigned (u ∷ us) =
    raise (u.bootstrap && contains assigned u.id) invalid_unit_membership
      (unit_path u ++ at_bootstrap ∷ [])
    ++ (raise (not u.bootstrap && not (contains assigned u.id)) invalid_unit_membership
          (unit_path u)
        ++ (raise (u.bootstrap && any_of (λ d. is_controlled (find d apps)) u.dependencies)
              invalid_unit_membership (unit_path u ++ at_dependencies ∷ [])
            ++ inspect_membership apps assigned us))

-- `modes`: the first definition of each mode reference.
mode_table_of : DomainDefinition → List ModeDefinition → ModeTable → ModeTable
mode_table_of d [] t = t
mode_table_of d (n ∷ ns) t =
    mode_table_of d ns (emplace_ref (record { domain = d.id; mode = n.id }) n t)

pub mode_table : List DomainDefinition → ModeTable → ModeTable
unfolding mode_table_of
mode_table [] t = t
mode_table (d ∷ ds) t = mode_table ds (mode_table_of d d.modes t)

-- The kind under which a mode was constrained first.
abbrev pub KindTable : Type 0
KindTable = List (ModeRef × ConstraintKind)

abbrev pub find_kind : ModeRef → KindTable → Option ConstraintKind
find_kind r [] = none
find_kind r ((s, k) ∷ t) = if same_ref s r then some k else find_kind r t

abbrev pub differs : Option ConstraintKind → ConstraintKind → Bool
differs none k = false
differs (some requires_mode) requires_mode = false
differs (some excludes_mode) excludes_mode = false
differs (some _) _ = true

-- The constraints of a mode; `emplace` keeps the first kind of each constrained mode.
pub inspect_constraints :
    ModeTable → ModeRef → List Segment → List ModeConstraint → KindTable → List ModelIssue
inspect_constraints modes self path [] kinds = []
inspect_constraints modes self path (c ∷ cs) kinds =
    let kinds' = if is_some (find_kind c.other kinds) then kinds else (c.other, c.kind) ∷ kinds in
    raise (same_ref c.other self) self_constraint path
    ++ (raise (not (is_some (find_ref c.other modes))) unknown_constraint_mode path
        ++ (raise (differs (find_kind c.other kinds) c.kind) contradictory_constraint path
            ++ inspect_constraints modes self path cs kinds'))

inspect_mode_constraints : ModeTable → DomainDefinition → List ModeDefinition → List ModelIssue
unfolding inspect_constraints
inspect_mode_constraints modes d [] = []
inspect_mode_constraints modes d (n ∷ ns) =
    inspect_constraints modes (record { domain = d.id; mode = n.id })
      (mode_path d n ++ at_constraints ∷ []) n.constraints []
    ++ inspect_mode_constraints modes d ns

-- The second loop over the domains.
pub inspect_all_constraints : ModeTable → List DomainDefinition → List ModelIssue
unfolding inspect_mode_constraints
inspect_all_constraints modes [] = []
inspect_all_constraints modes (d ∷ ds) =
    inspect_mode_constraints modes d d.modes ++ inspect_all_constraints modes ds

-- `InspectModel`.
unfoldable pub inspect_model : ExecutionModel → List ModelIssue
inspect_model m =
    let apps = applications m.units [] in
    raise (not (valid m.generation)) invalid_generation (at_generation ∷ [])
    ++ (inspect_units m.units no_names
        ++ (inspect_dependencies apps m.units
            ++ (inspect_dependency_cycles apps m.units
                ++ (inspect_domains apps m.domains no_names
                    ++ (inspect_membership apps (assigned_units m.domains []) m.units
                        ++ inspect_all_constraints (mode_table m.domains []) m.domains)))))

-- `ValidateModel`: the number of issues is the error's support data.
unfoldable pub validate_model : ExecutionModel → Result ExecutionModel
validate_model m =
    if is_empty (inspect_model m)
    then ok m
    else err (make_error configuration_error (length (inspect_model m)))
