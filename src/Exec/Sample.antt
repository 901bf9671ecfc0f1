-- ===== src/Exec/Sample.antt =====
-- A small model of exec/include/ovf/exec/model.hpp, for the tests: three units, of which two depend
-- on the first, a domain with two modes, and a domain that one of the modes requires.
use openvehicleframework.Base.{ℕ, false, List, [], ◌∷◌}
use openvehicleframework.Exec.Types.{
  ExecutionModel, ExecutionUnitDefinition, ExecutionUnitKind, DomainDefinition, ModeDefinition,
  ModeConstraint, ReadinessPolicy, ReplacementPolicy, FailureAction, requires_mode, plus,
}
use openvehicleframework.Exec.Planner.{SystemConfiguration, TransitionPlan}

abbrev pub unit : ℕ → ℕ → List ℕ → List ℕ → ExecutionUnitDefinition
unit id letter dependencies resources = record {
  id = id;
  name = letter ∷ [];
  readiness = ReadinessPolicy.process_started;
  start_timeout = plus 5000;
  stop_timeout = plus 5000;
  retry = record { max_attempts = 2; delay = plus 10 };
  dependencies = dependencies;
  exclusive_resources = resources;
  kind = ExecutionUnitKind.managed_application;
  bootstrap = false;
}

abbrev pub mode : ℕ → ℕ → List ℕ → List ModeConstraint → ModeDefinition
mode id letter units constraints = record {
  id = id;
  name = letter ∷ [];
  units = units;
  constraints = constraints;
}

abbrev pub domain : ℕ → ℕ → List ModeDefinition → DomainDefinition
domain id letter modes = record {
  id = id;
  name = letter ∷ [];
  initial_mode = 1;
  replacement = ReplacementPolicy.queue;
  recovery = record {
    action = FailureAction.enter_fallback_mode;
    fallback_mode = 1;
    deadline = plus 5000;
  };
  modes = modes;
}

abbrev pub car : ExecutionModel
car = record {
  generation = 1;
  units = unit 1 97 [] [] ∷ unit 2 98 (1 ∷ []) [] ∷ unit 3 99 (1 ∷ []) (7 ∷ []) ∷ [];
  domains =
      domain 1 97 (
        mode 1 97 (1 ∷ 2 ∷ []) []
        ∷ mode 2 98 (1 ∷ 3 ∷ [])
            (record { kind = requires_mode; other = record { domain = 2; mode = 1 } } ∷ [])
        ∷ [])
      ∷ domain 2 98 (mode 1 97 (1 ∷ []) [] ∷ [])
      ∷ [];
}

-- The configuration in which the car starts.
abbrev pub parked : SystemConfiguration
parked = record {
  generation = 1;
  committed_modes = (1, 1) ∷ (2, 1) ∷ [];
  running_units = 1 ∷ 2 ∷ [];
}

-- The way from the first mode of the first domain to the second.
abbrev pub departure : TransitionPlan
departure = record {
  generation = 1;
  domain = 1;
  source_mode = 1;
  target_mode = 2;
  retain = 1 ∷ [];
  stop = 2 ∷ [];
  start = 3 ∷ [];
  guarded_domains = 1 ∷ 2 ∷ [];
  affected_resources = 7 ∷ [];
}
