-- ===== src/Exec/Scheduler/Calls.antt =====
-- exec/src/scheduler.cpp: the outcome of each call, and what holds after any sequence of calls.
use openvehicleframework.Base.{
  ℕ, ◌≡◌, refl, ◌≢◌, inl, inr, Bool, true, false, not, ◌&&◌, some, List, [], ◌∷◌, Table, find,
  has_key, ◌==◌, contains, find-emplace, find-remove, arith, Bool-cases, Result, ok, err,
}
use openvehicleframework.Exec.Scheduler.{
  TransitionResources, State, initial, all_available, check_request, release, Move, releases,
  acquires, try_acquire, grant_if_free, apply, wait_until, after_wait, acquire_locked, acquire,
}
use openvehicleframework.Exec.Scheduler.Invariant.{
  Owned, Inv, initial-Inv, grant-Inv, release-Inv, wait_until-Inv,
}

-- No step of another thread acquires under the identifier.
abbrev pub foreign : ℕ → List Move → Bool
foreign owner [] = true
foreign owner (releases o ∷ moves) = foreign owner moves
foreign owner (acquires o r ∷ moves) = not (o == owner) && foreign owner moves

apply-has_key :
    (move : Move) (owner : ℕ) (s : State)
    → foreign owner (move ∷ []) ≡ true
    → has_key owner s.leases ≡ false
    → has_key owner (apply move s).leases ≡ false
unfolding apply release try_acquire
apply-has_key (releases o) owner s f n = ground (arith, find-remove o owner s.leases)
apply-has_key (acquires o r) owner s f n = by_request (check_request o r)
  where
    by_request :
        (c : Result TransitionResources) → has_key owner (grant_if_free o s c).leases ≡ false
    by_request (err e) = n
    by_request (ok q) = ground (arith, find-emplace o owner q s.leases)

wait_until-has_key :
    (r : TransitionResources) (owner : ℕ) (s : State) (moves : List Move)
    → foreign owner moves ≡ true
    → has_key owner s.leases ≡ false
    → has_key owner (wait_until r s moves).0.leases ≡ false
unfolding wait_until
wait_until-has_key r owner s [] f n = n
wait_until-has_key r owner s (releases o ∷ moves) f n = ground (
  arith,
  wait_until-has_key r owner (apply (releases o) s) moves f
      (apply-has_key (releases o) owner s refl n),
)
wait_until-has_key r owner s (acquires o q ∷ moves) f n = ground (
  arith,
  wait_until-has_key r owner (apply (acquires o q) s) moves (ground arith)
      (apply-has_key (acquires o q) owner s (ground arith) n),
)

acquire_locked-Inv :
    (owner : ℕ) (moves : List Move) (s : State) (c : Result TransitionResources)
    → foreign owner moves ≡ true
    → Inv s
    → Inv (acquire_locked owner moves s c).0
unfolding acquire_locked
acquire_locked-Inv owner moves s (err e) f v = v
acquire_locked-Inv owner moves s (ok q) f v = elim (Bool-cases (has_key owner s.leases)) [
  | inl e ↦ rw e v
  | inr n ↦
      let waited = wait_until-Inv q s moves v in
      let new = wait_until-has_key q owner s moves f n in
      rw n (by_wait (wait_until q s moves).0 (wait_until q s moves).1 waited.0 waited.1 new)
]
  where
    by_wait :
        (t : State) (b : Bool)
        → Inv t
        → (b ≡ true → all_available q t ≡ true)
        → has_key owner t.leases ≡ false
        → Inv (after_wait owner q (t, b)).0
    by_wait t true w a new = grant-Inv owner q t w new (a refl)
    by_wait t false w a new = w

-- A call of the scheduler by some thread.
pub data Call : Type 0 where
  acquiring : ℕ → TransitionResources → List Move → Call
  releasing : ℕ → Call

abbrev pub run : List Call → State → State
run [] s = s
run (acquiring o r moves ∷ cs) s = run cs (acquire o r moves s).0
run (releasing o ∷ cs) s = run cs (release o s)

-- While a call waits, no other thread acquires under its identifier.
abbrev pub all_foreign : List Call → Bool
all_foreign [] = true
all_foreign (acquiring o r moves ∷ cs) = foreign o moves && all_foreign cs
all_foreign (releasing o ∷ cs) = all_foreign cs

run-Inv : (cs : List Call) (s : State) → all_foreign cs ≡ true → Inv s → Inv (run cs s)
unfolding acquire
run-Inv [] s f v = v
run-Inv (acquiring o r moves ∷ cs) s f v =
    run-Inv cs (acquire o r moves s).0 (ground arith)
      (acquire_locked-Inv o moves s (check_request o r) (ground arith) v)
run-Inv (releasing o ∷ cs) s f v = run-Inv cs (release o s) f (release-Inv o s v)

-- After any calls of any threads, where no two threads acquire under one identifier at a time, two
-- leases of different transitions share no domain, no unit and no exclusive resource.
pub leases_are_exclusive :
    (cs : List Call) (o o' : ℕ) (r r' : TransitionResources)
    → all_foreign cs ≡ true
    → find o (run cs initial).leases ≡ some r
    → find o' (run cs initial).leases ≡ some r'
    → o ≢ o'
    → (x : ℕ)
    → ((contains r.domains x && contains r'.domains x) ≡ false)
      × ((contains r.units x && contains r'.units x) ≡ false)
      × ((contains r.exclusive_resources x && contains r'.exclusive_resources x) ≡ false)
leases_are_exclusive cs o o' r r' f e e' n x =
    let v = run-Inv cs initial f initial-Inv in
    (
      apart (λ q. q.domains) (run cs initial).domains v.domains,
      apart (λ q. q.units) (run cs initial).units v.units,
      apart (λ q. q.exclusive_resources) (run cs initial).exclusive_resources v.exclusive,
    )
  where
    apart :
        (part : TransitionResources → List ℕ) (owners : Table ℕ)
        → Owned part (run cs initial).leases owners
        → (contains (part r) x && contains (part r') x) ≡ false
    apart part owners v = elim (Bool-cases (contains (part r) x && contains (part r') x)) [
      | inr h ↦ h
      | inl h ↦
          let mine = v.held o x r e (ground arith) in
          let yours = v.held o' x r' e' (ground arith) in absurd (n (ground arith))
    ]
