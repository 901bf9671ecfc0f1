-- ===== src/Exec/Planner/Examples.antt =====
-- exec/src/planner.cpp on a small model.
use openvehicleframework.Base.{
  ◌≡◌, refl, ℕ, List, [], ◌∷◌, ok, true, false, ◌&&◌, ◌||◌, ◌==◌, not, contains, distinct, ◌++◌,
}
use openvehicleframework.Exec.Model.{find_unit, find_domain, find_mode}
use openvehicleframework.Exec.Planner.{
  bootstrap_units, selected_units, initial_modes, check_dependencies, required_units,
  validate_constraints, differences, build_plan, plan, initial_configuration,
}
use openvehicleframework.Exec.Planner.Walk.{order, walk, visit, visit_each, dependencies_of}
use openvehicleframework.Exec.Planner.Walk.Members.{order-members}
use openvehicleframework.Exec.Planner.Walk.Topology.{
  DepsFirst, DependentsFirst, order-DepsFirst, order-DependentsFirst,
}
use openvehicleframework.Exec.Planner.Required.{
  is_bootstrap, in_selected, IsServed, AllMeet, required_units-ok, validate_constraints-ok,
}
use openvehicleframework.Exec.Planner.Plans.{IsPlan, erase_all, after_plan, plan_reaches_target}
use openvehicleframework.Exec.Planner.Safety.{StartsSafely, StopsSafely, plan_is_safe}
use openvehicleframework.Exec.Planner.Requests.{tied, plan_requests}
use openvehicleframework.Exec.Validation.Examples.{car-IsAcyclic}
use openvehicleframework.Exec.Sample.{car, parked, departure}

car_starts_parked : initial_configuration car ≡ ok parked
unfolding initial_configuration initial_modes required_units selected_units check_dependencies
    bootstrap_units find_mode find_unit
car_starts_parked = refl

pub car_departs : plan car parked 1 2 ≡ ok departure
unfolding plan build_plan differences required_units validate_constraints order find_mode find_unit
    find_domain walk visit visit_each dependencies_of
car_departs = refl

plan_is_safe_example :
    StopsSafely car parked.running_units departure.stop
    × StartsSafely car (erase_all departure.stop parked.running_units) departure.start
plan_is_safe_example = plan_is_safe car parked 1 2 departure car-IsAcyclic car_departs

plan_reaches_target_example :
    (required : List ℕ) × IsPlan car parked 1 2 required departure
    × ((1 == 2) ≡ false)
    × ((x : ℕ)
        → (contains (after_plan departure parked.running_units) x ≡ contains required x)
          × (contains departure.retain x ≡ (contains required x && contains parked.running_units x))
          × (contains departure.stop x
              ≡ (contains parked.running_units x && not (contains required x)))
          × (contains departure.start x
              ≡ (contains required x && not (contains parked.running_units x))))
    × ((distinct departure.retain ≡ true)
        × (distinct departure.stop ≡ true)
        × (distinct departure.start ≡ true))
plan_reaches_target_example = plan_reaches_target car parked 1 2 departure car_departs

plan_requests_example :
    ((x : ℕ) → contains departure.guarded_domains x ≡ (tied 1 car.domains x || (1 == x)))
    × (distinct departure.guarded_domains ≡ true)
    × (distinct (departure.stop ++ departure.start) ≡ true)
    × (distinct departure.affected_resources ≡ true)
plan_requests_example = plan_requests car parked 1 2 departure car_departs

order-members_example :
    ((x : ℕ) → contains (order car (3 ∷ 1 ∷ 2 ∷ []) true) x ≡ contains (3 ∷ 1 ∷ 2 ∷ []) x)
    × (distinct (order car (3 ∷ 1 ∷ 2 ∷ []) true) ≡ true)
order-members_example = order-members car (3 ∷ 1 ∷ 2 ∷ []) true

order-DepsFirst_example : DepsFirst car (3 ∷ 1 ∷ []) [] (order car (3 ∷ 1 ∷ []) false)
order-DepsFirst_example = order-DepsFirst car (3 ∷ 1 ∷ []) car-IsAcyclic

order-DependentsFirst_example : DependentsFirst car (order car (3 ∷ 1 ∷ []) true)
order-DependentsFirst_example = order-DependentsFirst car (3 ∷ 1 ∷ []) car-IsAcyclic

car_needs : required_units car ((1, 2) ∷ (2, 1) ∷ []) ≡ ok (1 ∷ 3 ∷ [])
unfolding required_units find_mode find_unit
car_needs = refl

required_units-ok_example :
    ((x : ℕ)
      → contains (1 ∷ 3 ∷ []) x
        ≡ (is_bootstrap car.units x || in_selected car ((1, 2) ∷ (2, 1) ∷ []) car.domains x))
    × (distinct (1 ∷ 3 ∷ []) ≡ true)
    × ((u : ℕ) → contains (1 ∷ 3 ∷ []) u ≡ true → IsServed car (1 ∷ 3 ∷ []) u)
required_units-ok_example = required_units-ok car ((1, 2) ∷ (2, 1) ∷ []) (1 ∷ 3 ∷ []) car_needs

car_allows : validate_constraints car ((1, 2) ∷ (2, 1) ∷ []) ≡ ok tt
unfolding validate_constraints find_mode
car_allows = refl

validate_constraints-ok_example : AllMeet car ((1, 2) ∷ (2, 1) ∷ []) ((1, 2) ∷ (2, 1) ∷ [])
validate_constraints-ok_example = validate_constraints-ok car ((1, 2) ∷ (2, 1) ∷ []) car_allows
