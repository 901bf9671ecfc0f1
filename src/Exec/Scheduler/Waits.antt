-- ===== src/Exec/Scheduler/Waits.antt =====
-- exec/src/scheduler.cpp: what `Acquire` makes of the steps of other threads while it waits.
use openvehicleframework.Base.{
  ℕ, zero, suc, ◌≤◌, ◌≡◌, refl, ap, ◌∙◌, inl, inr, ◌⊎◌, true, false, ◌&&◌, some, none, List, [],
  ◌∷◌, Table, find, has_key, if◌then◌else◌, ◌==◌, ltb, contains, length, sort, contains-sort,
  find-emplace, arith, Bool-cases, Result, ok, fail, invalid_identifier, invalid_argument,
  already_exists, deadline_exceeded, ==_iff,
}
use openvehicleframework.Exec.Types.{valid}
use openvehicleframework.Exec.Scheduler.{
  TransitionResources, State, claim, available, all_available, apply, grant, Move, wait_until,
  after_wait, acquire_locked, acquire,
}
use openvehicleframework.Exec.Scheduler.Invariant.{find-claim, available-find}
use openvehicleframework.Exec.Scheduler.Outcomes.{sorted, is_request, check_request_lem}

-- The scheduler after so many of these steps of other threads.
abbrev pub after : ℕ → List Move → State → State
after zero moves s = s
after (suc n) [] s = s
after (suc n) (move ∷ moves) s = after n moves (apply move s)

-- Never free, or free for the first time after so many steps.
abbrev Waited : TransitionResources → State → List Move → Type 0
Waited r s moves =
    ((n : ℕ) × (n ≤ length moves)
      × (wait_until r s moves ≡ (after n moves s, true))
      × (all_available r (after n moves s) ≡ true)
      × ((k : ℕ) → (ltb k n && all_available r (after k moves s)) ≡ false))
    ⊎ ((wait_until r s moves ≡ (after (length moves) moves s, false))
        × ((k : ℕ) → all_available r (after k moves s) ≡ false))

-- The scheduler with the request granted: each domain, unit and resource that it names belongs to
-- the owner, all others to whom they belonged, and the owner has a lease, unless it had one.
abbrev pub Granted : ℕ → TransitionResources → State → State → Type 0
Granted owner r s t =
    (x : ℕ)
    → (find x t.leases ≡ (
        if has_key x s.leases
        then find x s.leases
        else if owner == x
        then some (sorted r)
        else none))
      × (find x t.domains ≡ (if contains r.domains x then some owner else find x s.domains))
      × (find x t.units ≡ (if contains r.units x then some owner else find x s.units))
      × (find x t.exclusive_resources
          ≡ (if contains r.exclusive_resources x then some owner else find x s.exclusive_resources))

find-claim-sort :
    (ids : List ℕ) (owner x : ℕ) (t : Table ℕ)
    → available ids t ≡ true
    → find x (claim (sort ids) owner t) ≡ (if contains ids x then some owner else find x t)
find-claim-sort ids owner x t a =
    find-claim (sort ids) owner x t ∙ elim (Bool-cases (contains ids x)) [
      | inl c ↦ ground (arith, contains-sort ids x, available-find ids t x a c)
      | inr c ↦ ground (arith, contains-sort ids x)
    ]

pub grant-Granted :
    (owner : ℕ) (r : TransitionResources) (s : State)
    → all_available r s ≡ true
    → Granted owner r s (grant owner (sorted r) s)
unfolding grant all_available
grant-Granted owner r s a x = (
  ground
      (arith, find-emplace owner x (sorted r) s.leases, ==_iff owner x, ap (λ k. find k s.leases)),
  find-claim-sort r.domains owner x s.domains (ground arith),
  find-claim-sort r.units owner x s.units (ground arith),
  find-claim-sort r.exclusive_resources owner x s.exclusive_resources (ground arith),
)

-- The call is refused at once: its owner is no identifier, or the request locks no domain or names
-- something twice, or the owner has a lease.
abbrev pub RefusedAtOnce : ℕ → TransitionResources → State → State × Result ℕ → Type 0
RefusedAtOnce owner r s (t, answer) =
    (t ≡ s)
    × (((valid owner ≡ false) × (answer ≡ fail invalid_identifier))
        ⊎ ((valid owner ≡ true) × (is_request owner r ≡ false) × (answer ≡ fail invalid_argument))
        ⊎ ((is_request owner r ≡ true)
            × (has_key owner s.leases ≡ true)
            × (answer ≡ fail already_exists)))

-- The call waits until the resources are free for the first time, after so many steps of the other
-- threads, and then is granted.
abbrev pub GrantedWhenFree : ℕ → TransitionResources → List Move → State → State × Result ℕ → Type 0
GrantedWhenFree owner r moves s (t, answer) =
    (n : ℕ) × (n ≤ length moves)
    × ((k : ℕ) → (ltb k n && all_available r (after k moves s)) ≡ false)
    × (all_available r (after n moves s) ≡ true)
    × (answer ≡ ok owner)
    × Granted owner r (after n moves s) t

-- The resources are never free, and the call changes nothing and fails.
abbrev pub TimedOut : TransitionResources → List Move → State → State × Result ℕ → Type 0
TimedOut r moves s (t, answer) =
    ((k : ℕ) → all_available r (after k moves s) ≡ false)
    × (t ≡ after (length moves) moves s)
    × (answer ≡ fail deadline_exceeded)

pub acquire-wait :
    (owner : ℕ) (r : TransitionResources) (moves : List Move) (s : State)
    → is_request owner r ≡ true
    → has_key owner s.leases ≡ false
    → acquire owner r moves s ≡ after_wait owner (sorted r) (wait_until (sorted r) s moves)
unfolding acquire acquire_locked
acquire-wait owner r moves s q n = rw (check_request_lem owner r, q, n) refl
