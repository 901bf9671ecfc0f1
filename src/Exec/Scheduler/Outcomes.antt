-- ===== src/Exec/Scheduler/Outcomes.antt =====
-- exec/src/scheduler.cpp: which requests `Acquire` accepts, and what `Release` undoes.
use openvehicleframework.Base.{
  ℕ, ◌≡◌, refl, ap, ◌∙◌, inl, inr, Bool, true, false, not, ◌&&◌, List, [], ◌∷◌, Table, find,
  has_key, emplace, if◌then◌else◌, all_of, is_empty, sort, place, distinct, find-emplace,
  find-remove, arith, Option-cases, ok, fail, invalid_identifier, invalid_argument, ==_iff,
}
use openvehicleframework.Exec.Types.{valid}
use openvehicleframework.Exec.Scheduler.{
  TransitionResources, State, claim, release_owned, all_available, check_request, grant, release,
  Move, wait_until,
}
use openvehicleframework.Exec.Scheduler.Duplicates.{has_duplicates-distinct}
use openvehicleframework.Exec.Scheduler.Invariant.{
  Owned, Inv, find-claim, find-release_owned, distinct-keys-claim,
}

-- The request as `Acquire` stores it.
abbrev pub sorted : TransitionResources → TransitionResources
sorted r = record {
  domains = sort r.domains;
  units = sort r.units;
  exclusive_resources = sort r.exclusive_resources;
}

-- A request that names a transition, locks a domain, and names nothing twice.
abbrev pub is_request : ℕ → TransitionResources → Bool
is_request owner r =
    valid owner
    && not (is_empty r.domains)
    && distinct r.domains
    && distinct r.units
    && distinct r.exclusive_resources

-- The tests of `Acquire` accept exactly the well-formed requests, and sort them; identifier zero is
-- refused as an invalid identifier, all else as an invalid argument.
pub check_request_lem :
    (owner : ℕ) (r : TransitionResources)
    → check_request owner r ≡ (
        if is_request owner r
        then ok (sorted r)
        else if valid owner
        then fail invalid_argument
        else fail invalid_identifier)
unfolding check_request
check_request_lem owner r = ground (
  arith,
  has_duplicates-distinct r.domains,
  has_duplicates-distinct r.units,
  has_duplicates-distinct r.exclusive_resources,
)

all_of-place : (p : ℕ → Bool) (a : ℕ) (xs : List ℕ) → all_of p (place a xs) ≡ (p a && all_of p xs)
all_of-place p a [] = refl
all_of-place p a (x ∷ xs) = ground (arith, all_of-place p a xs)

all_of-sort : (p : ℕ → Bool) (xs : List ℕ) → all_of p (sort xs) ≡ all_of p xs
all_of-sort p [] = refl
all_of-sort p (x ∷ xs) = all_of-place p x (sort xs) ∙ ap (λ b. p x && b) (all_of-sort p xs)

pub all_available-sorted :
    (r : TransitionResources) (s : State) → all_available (sorted r) s ≡ all_available r s
unfolding all_available
all_available-sorted r s = rw (
  all_of-sort (λ id. not (has_key id s.domains)) r.domains,
  all_of-sort (λ id. not (has_key id s.units)) r.units,
  all_of-sort (λ id. not (has_key id s.exclusive_resources)) r.exclusive_resources,
)

pub wait_until-free :
    (r : TransitionResources) (s : State) (moves : List Move)
    → all_available r s ≡ true
    → wait_until r s moves ≡ (s, true)
unfolding wait_until
wait_until-free r s [] a = rw a
wait_until-free r s (move ∷ moves) a = rw a

-- One kind of resource: releasing what was claimed.
release_owned-claim :
    (part : TransitionResources → List ℕ) (leases : Table TransitionResources) (owners : Table ℕ)
    (owner x : ℕ) (ids : List ℕ)
    → Owned part leases owners
    → has_key owner leases ≡ false
    → find x (release_owned owner (claim ids owner owners)) ≡ find x owners
release_owned-claim part leases owners owner x ids v n =
    find-release_owned owner x (claim ids owner owners)
      (distinct-keys-claim ids owner owners v.single)
    ∙ elim (Option-cases (find x owners)) [
      | inl e ↦ ground (arith, find-claim ids owner x owners)
      | inr (o, e) ↦ ground (
        arith,
        find-claim ids owner x owners,
        v.leased o x e,
        ==_iff o owner,
        ap (λ k. has_key k leases),
      )
    ]

-- Giving a lease back undoes its grant: afterwards every domain, unit and resource has the owner
-- that it had before, and so has every lease.
pub release_undoes_grant :
    (owner : ℕ) (r : TransitionResources) (s : State) (x : ℕ)
    → Inv s
    → has_key owner s.leases ≡ false
    → all_available r s ≡ true
    → let t = release owner (grant owner r s) in
      (find x t.leases ≡ find x s.leases)
      × (find x t.domains ≡ find x s.domains)
      × (find x t.units ≡ find x s.units)
      × (find x t.exclusive_resources ≡ find x s.exclusive_resources)
unfolding release grant all_available
release_undoes_grant owner r s x v n a =
    let leased : has_key owner (emplace owner r s.leases) ≡ true =
      ground (arith, find-emplace owner owner r s.leases) in
    rw leased (
      ground
          (arith, find-remove owner x (emplace owner r s.leases), find-emplace owner x r s.leases),
      release_owned-claim (λ q. q.domains) s.leases s.domains owner x r.domains v.domains n,
      release_owned-claim (λ q. q.units) s.leases s.units owner x r.units v.units n,
      release_owned-claim (λ q. q.exclusive_resources) s.leases s.exclusive_resources owner x
          r.exclusive_resources v.exclusive n,
    )
