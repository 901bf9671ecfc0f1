-- ===== src/Exec/Validation/Examples.antt =====
-- exec/src/model.cpp on a small model.
use openvehicleframework.Base.{◌≡◌, refl, ok}
use openvehicleframework.Exec.Planner.Walk.Topology.{IsAcyclic}
use openvehicleframework.Exec.Validation.{
  validate_model, inspect_model, inspect_units, inspect_dependencies, applications, inspect_domains,
  inspect_membership, assigned_units, inspect_all_constraints, mode_table,
}
use openvehicleframework.Exec.Validation.Names.{is_valid_name}
use openvehicleframework.Exec.Validation.Cycles.{inspect_dependency_cycles}
use openvehicleframework.Exec.Validation.Sound.{IsValid, validate_model-IsValid}
use openvehicleframework.Exec.Sample.{car}

pub car_is_accepted : validate_model car ≡ ok car
unfolding validate_model inspect_model inspect_units is_valid_name inspect_dependencies applications
    inspect_dependency_cycles inspect_domains inspect_membership assigned_units
    inspect_all_constraints mode_table
car_is_accepted = refl

-- The sample has no dependency cycle, since it is accepted.
pub car-IsAcyclic : IsAcyclic car
car-IsAcyclic = (validate_model-IsValid car car car_is_accepted).1.acyclic

validate_model-IsValid_example : (car ≡ car) × IsValid car
validate_model-IsValid_example = validate_model-IsValid car car car_is_accepted
