-- ===== src/Exec/Scheduler/Examples.antt =====
-- exec/src/scheduler.cpp on a few calls.
use openvehicleframework.Base.{
  ◌≡◌, refl, arith, true, false, not, ◌&&◌, List, [], ◌∷◌, find, has_key, contains, distinct,
  if◌then◌else◌, ok, fail, some, invalid_identifier, invalid_argument,
}
use openvehicleframework.Exec.Types.{valid}
use openvehicleframework.Exec.Scheduler.{
  TransitionResources, State, initial, has_duplicates, all_available, check_request, grant, release,
  releases, wait_until, acquire, acquire_locked, after_wait,
}
use openvehicleframework.Exec.Scheduler.Calls.{Call, acquiring, run, leases_are_exclusive}
use openvehicleframework.Exec.Scheduler.Duplicates.{has_duplicates-distinct}
use openvehicleframework.Exec.Scheduler.Invariant.{initial-Inv}
use openvehicleframework.Exec.Scheduler.Outcomes.{
  sorted, is_request, check_request_lem, release_undoes_grant,
}

abbrev wanted : TransitionResources
wanted = record { domains = 2 ∷ 1 ∷ []; units = 3 ∷ 2 ∷ []; exclusive_resources = 7 ∷ [] }

abbrev other : TransitionResources
other = record { domains = 3 ∷ []; units = 4 ∷ []; exclusive_resources = [] }

check_request_lem_example : check_request 5 wanted ≡ (
    if is_request 5 wanted
    then ok (sorted wanted)
    else if valid 5
    then fail invalid_argument
    else fail invalid_identifier)
check_request_lem_example = check_request_lem 5 wanted

has_duplicates-distinct_example : has_duplicates (3 ∷ 1 ∷ 3 ∷ []) ≡ not (distinct (3 ∷ 1 ∷ 3 ∷ []))
has_duplicates-distinct_example = has_duplicates-distinct (3 ∷ 1 ∷ 3 ∷ [])

available_at_first : all_available wanted initial ≡ true
unfolding all_available initial
available_at_first = refl

no_lease_at_first : has_key 5 initial.leases ≡ false
unfolding initial
no_lease_at_first = refl

-- Another transition that wants the first domain.
abbrev rival : TransitionResources
rival = record { domains = 1 ∷ []; units = 4 ∷ []; exclusive_resources = [] }

-- A transition that holds what another one wants.
abbrev held : State
held = record {
  leases = (6, wanted) ∷ [];
  domains = (2, 6) ∷ (1, 6) ∷ [];
  units = (3, 6) ∷ (2, 6) ∷ [];
  exclusive_resources = (7, 6) ∷ [];
}

release_undoes_grant_example :
    (find 5 (release 5 (grant 5 wanted initial)).leases ≡ find 5 initial.leases)
    × (find 5 (release 5 (grant 5 wanted initial)).domains ≡ find 5 initial.domains)
    × (find 5 (release 5 (grant 5 wanted initial)).units ≡ find 5 initial.units)
    × (find 5 (release 5 (grant 5 wanted initial)).exclusive_resources
        ≡ find 5 initial.exclusive_resources)
release_undoes_grant_example =
    release_undoes_grant 5 wanted initial 5 initial-Inv no_lease_at_first available_at_first

-- Two transitions that want different things, one after the other.
abbrev calls : List Call
calls = acquiring 5 wanted (releases 6 ∷ []) ∷ acquiring 6 other [] ∷ []

first_lease : find 5 (run calls initial).leases ≡ some (sorted wanted)
unfolding acquire acquire_locked check_request has_duplicates wait_until after_wait grant
    all_available initial
first_lease = refl

second_lease : find 6 (run calls initial).leases ≡ some other
unfolding acquire acquire_locked check_request has_duplicates wait_until after_wait grant
    all_available initial
second_lease = refl

leases_are_exclusive_example :
    ((contains (sorted wanted).domains 3 && contains other.domains 3) ≡ false)
    × ((contains (sorted wanted).units 3 && contains other.units 3) ≡ false)
    × ((contains (sorted wanted).exclusive_resources 3 && contains other.exclusive_resources 3)
        ≡ false)
leases_are_exclusive_example =
    leases_are_exclusive calls 5 6 (sorted wanted) other refl first_lease second_lease (omega arith)
      3
