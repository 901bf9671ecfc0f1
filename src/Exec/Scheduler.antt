-- ===== src/Exec/Scheduler.antt =====
-- exec/src/scheduler.cpp: leases on domains, units and exclusive resources. The mutex makes each
-- call one step; what other threads do while a call waits is a list of their steps.
pub mod Duplicates
pub mod Invariant
pub mod Calls
pub mod Outcomes
pub mod Waits
pub mod HandOver
pub mod Examples
use openvehicleframework.Base.{
  ℕ, zero, suc, ◌+◌, Bool, true, false, not, ◌&&◌, ◌||◌, Option, some, none, List, [], ◌∷◌, Table,
  find, has_key, emplace, remove, if◌then◌else◌, ◌==◌, length, is_empty, all_of, sort, Result, ok,
  err, fail, reject_if, ◌>>=◌, ◌>>◌, ErrorCode, invalid_identifier, invalid_argument,
  already_exists, deadline_exceeded, invalid_transition,
}
use openvehicleframework.Exec.Types.{valid}

pub record TransitionResources : Type 0 where
  pub domains : List ℕ
  pub units : List ℕ
  pub exclusive_resources : List ℕ

-- `TransitionScheduler::State`.
pub record State : Type 0 where
  pub leases : Table TransitionResources
  pub domains : Table ℕ
  pub units : Table ℕ
  pub exclusive_resources : Table ℕ

unfoldable pub initial : State
initial = record { leases = []; domains = []; units = []; exclusive_resources = [] }

-- `std::adjacent_find` finds a pair.
abbrev pub adjacent_equal : List ℕ → Bool
adjacent_equal [] = false
adjacent_equal (x ∷ []) = false
adjacent_equal (x ∷ y ∷ xs) = (x == y) || adjacent_equal (y ∷ xs)

-- `HasDuplicates`.
pub has_duplicates : List ℕ → Bool
has_duplicates values = adjacent_equal (sort values)

-- `Available`.
abbrev pub available : List ℕ → Table ℕ → Bool
available requested owners = all_of (λ id. not (has_key id owners)) requested

-- `Claim`.
abbrev pub claim : List ℕ → ℕ → Table ℕ → Table ℕ
claim [] owner owners = owners
claim (id ∷ ids) owner owners = claim ids owner (emplace id owner owners)

-- `ReleaseOwned`.
abbrev pub release_owned : ℕ → Table ℕ → Table ℕ
release_owned owner [] = []
release_owned owner ((id, o) ∷ t) =
    let rest = release_owned owner t in if o == owner then rest else (id, o) ∷ rest

-- The condition that `Acquire` waits for.
unfoldable pub all_available : TransitionResources → State → Bool
all_available r s =
    available r.domains s.domains
    && available r.units s.units
    && available r.exclusive_resources s.exclusive_resources

-- The tests of `Acquire` before it takes the lock.
unfoldable pub check_request : ℕ → TransitionResources → Result TransitionResources
unfolding has_duplicates
check_request owner r = do
  reject_if (not (valid owner)) invalid_identifier
  reject_if (is_empty r.domains) invalid_argument
  reject_if
      (has_duplicates r.domains || has_duplicates r.units || has_duplicates r.exclusive_resources)
      invalid_argument
  ok (record {
    domains = sort r.domains;
    units = sort r.units;
    exclusive_resources = sort r.exclusive_resources;
  })

-- The claims of `Acquire`, once its resources are available.
unfoldable pub grant : ℕ → TransitionResources → State → State
grant owner r s = record {
  leases = emplace owner r s.leases;
  domains = claim r.domains owner s.domains;
  units = claim r.units owner s.units;
  exclusive_resources = claim r.exclusive_resources owner s.exclusive_resources;
}

-- `Release`.
unfoldable pub release : ℕ → State → State
release owner s =
    if has_key owner s.leases
    then record {
      leases = remove owner s.leases;
      domains = release_owned owner s.domains;
      units = release_owned owner s.units;
      exclusive_resources = release_owned owner s.exclusive_resources;
    }
    else s

-- What other threads do while a call waits: they give a lease back, or one of their own waiting
-- calls is granted.
pub data Move : Type 0 where
  releases : ℕ → Move
  acquires : ℕ → TransitionResources → Move

-- An `Acquire` that does not have to wait, after its first tests.
pub grant_if_free : ℕ → State → Result TransitionResources → State
unfolding grant all_available
grant_if_free owner s (err e) = s
grant_if_free owner s (ok q) =
    if not (has_key owner s.leases) && all_available q s then grant owner q s else s

unfoldable pub try_acquire : ℕ → TransitionResources → State → State
unfolding grant_if_free
try_acquire owner r s = grant_if_free owner s (check_request owner r)

unfoldable pub apply : Move → State → State
unfolding release try_acquire
apply (releases o) s = release o s
apply (acquires o r) s = try_acquire o r s

-- `wait_until`: the condition is tested at once and after each step of another thread before the
-- deadline. The steps that are left when it holds come after the call.
pub wait_until : TransitionResources → State → List Move → State × Bool
unfolding apply all_available
wait_until r s [] = (s, all_available r s)
wait_until r s (move ∷ moves) =
    let rest = wait_until r (apply move s) moves in if all_available r s then (s, true) else rest

pub after_wait : ℕ → TransitionResources → State × Bool → State × Result ℕ
unfolding grant
after_wait owner r (s, true) = (grant owner r s, ok owner)
after_wait owner r (s, false) = (s, fail deadline_exceeded)

-- `Acquire` under the lock.
pub acquire_locked : ℕ → List Move → State → Result TransitionResources → State × Result ℕ
unfolding wait_until after_wait
acquire_locked owner moves s (err e) = (s, err e)
acquire_locked owner moves s (ok q) =
    let waited = after_wait owner q (wait_until q s moves) in
    if has_key owner s.leases then (s, fail already_exists) else waited

-- `Acquire`, with what the other threads do until its deadline: the state at its end, and the owner
-- of the lease or an error.
unfoldable pub acquire : ℕ → TransitionResources → List Move → State → State × Result ℕ
unfolding acquire_locked
acquire owner r moves s = acquire_locked owner moves s (check_request owner r)

-- `ActiveLeaseCount`.
unfoldable pub active_lease_count : State → ℕ
active_lease_count s = length s.leases

-- `Lease`: whether it still refers to the scheduler, and its owner.
pub record Lease : Type 0 where
  pub attached : Bool
  pub owner : ℕ

-- `Lease::Reset`, which the destructor calls too.
unfoldable pub reset : Lease → State → Lease × State
unfolding release
reset l s = (
  record { attached = false; owner = 0 },
  if l.attached && valid l.owner then release l.owner s else s,
)
