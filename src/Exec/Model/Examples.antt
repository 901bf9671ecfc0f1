-- ===== src/Exec/Model/Examples.antt =====
-- exec/src/model.cpp, the lookups, on a small model.
use openvehicleframework.Base.{◌≡◌}
use openvehicleframework.Exec.Model.{find_unit, find_domain, find_mode}
use openvehicleframework.Exec.Model.Lookup.{
  first_unit, first_domain, first_ref, find_unit-first_unit, find_domain-first_domain,
  find_mode-first_ref,
}
use openvehicleframework.Exec.Sample.{car}

find_unit-first_unit_example : find_unit car 2 ≡ first_unit 2 car.units
find_unit-first_unit_example = find_unit-first_unit car 2

find_domain-first_domain_example : find_domain car 2 ≡ first_domain 2 car.domains
find_domain-first_domain_example = find_domain-first_domain car 2

find_mode-first_ref_example :
    find_mode car (record { domain = 1; mode = 2 })
    ≡ first_ref (record { domain = 1; mode = 2 }) car.domains
find_mode-first_ref_example = find_mode-first_ref car (record { domain = 1; mode = 2 })
