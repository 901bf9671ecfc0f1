-- ===== src/Exec/Planner/Safety.antt =====
-- exec/src/planner.cpp: carrying out a plan step by step never leaves a running unit without its
-- dependencies.
use openvehicleframework.Base.{
  ℕ, ◌≡◌, sym, subst, inl, inr, true, false, not, List, [], ◌∷◌, contains, insert, erase, keep,
  arith, Bool-cases, contains-keep, contains-insert, contains-erase, ok,
}
use openvehicleframework.Exec.Types.{ExecutionModel}
use openvehicleframework.Exec.Planner.Walk.{dependencies_of}
use openvehicleframework.Exec.Planner.Walk.Topology.{
  IsAcyclic, DepsFirst, DependentsFirst, order-DepsFirst, order-DependentsFirst,
}
use openvehicleframework.Exec.Planner.Required.{IsServed, required_units-ok}
use openvehicleframework.Exec.Planner.Plans.{erase_all, contains-erase_all, plan_reaches_target}
use openvehicleframework.Exec.Planner.{SystemConfiguration, TransitionPlan, differences, plan}

-- Starting the units one by one: whenever a unit is started, all its dependencies run.
abbrev pub StartsSafely : ExecutionModel → List ℕ → List ℕ → Type 0
StartsSafely m running [] = Unit {0}
StartsSafely m running (x ∷ xs) =
    ((d : ℕ) → contains (dependencies_of m x) d ≡ true → contains running d ≡ true)
    × StartsSafely m (insert x running) xs

-- Stopping the units one by one: whenever a unit is stopped, no other unit that still runs depends
-- on it.
abbrev pub StopsSafely : ExecutionModel → List ℕ → List ℕ → Type 0
StopsSafely m running [] = Unit {0}
StopsSafely m running (x ∷ xs) =
    ((y : ℕ) → contains (erase x running) y ≡ true → contains (dependencies_of m y) x ≡ false)
    × StopsSafely m (erase x running) xs

starts-StartsSafely :
    (m : ExecutionModel) (units required before running xs : List ℕ)
    → DepsFirst m units before xs
    → ((x d : ℕ)
        → contains xs x ≡ true
        → contains (dependencies_of m x) d ≡ true
        → contains required d ≡ true)
    → ((d : ℕ) → contains required d ≡ true → contains units d ≡ false → contains running d ≡ true)
    → ((d : ℕ) → contains before d ≡ true → contains running d ≡ true)
    → StartsSafely m running xs
starts-StartsSafely m units required before running [] first deps rest done = tt
starts-StartsSafely m units required before running (x ∷ xs) first deps rest done = (
  λ d h. elim (Bool-cases (contains units d)) [
    | inl u ↦ done d (first.0 d h u)
    | inr u ↦ rest d (deps x d (ground arith) h) u
  ],
  starts-StartsSafely m units required (x ∷ before) (insert x running) xs first.1
      (λ y d h k. deps y d (ground arith) k)
      (λ d h k. ground (arith, contains-insert x running d, rest d h k))
      (λ d h. ground (arith, contains-insert x running d, done d)),
)

stops-StopsSafely :
    (m : ExecutionModel) (running xs : List ℕ)
    → DependentsFirst m xs
    → ((x y : ℕ)
        → contains xs x ≡ true
        → contains running y ≡ true
        → contains xs y ≡ false
        → contains (dependencies_of m y) x ≡ false)
    → StopsSafely m running xs
stops-StopsSafely m running [] first free = tt
stops-StopsSafely m running (x ∷ xs) first free = (
  λ y h. elim (Bool-cases (contains xs y)) [
    | inl k ↦ first.0 y k
    | inr k ↦
        free x y (ground arith) (ground (arith, contains-erase x running y))
          (ground (arith, contains-erase x running y))
  ],
  stops-StopsSafely m (erase x running) xs first.1 (λ z y h k l.
      free z y (ground arith) (ground (arith, contains-erase x running y))
        (ground (arith, contains-erase x running y))),
)

served :
    (m : ExecutionModel) (r : List ℕ) (u : ℕ)
    → IsServed m r u
    → (d : ℕ) → contains (dependencies_of m u) d ≡ true
    → contains r d ≡ true
unfolding dependencies_of
served m r u (def, e, k) d h = k d (ground arith)

-- In a model without dependency cycles, a plan can be carried out safely: each stop of the plan
-- comes when no unit that still runs depends on the stopped one, and each start, once the stops are
-- done, comes when all the dependencies of the started unit run.
pub plan_is_safe :
    (m : ExecutionModel) (current : SystemConfiguration) (domain target : ℕ) (p : TransitionPlan)
    → IsAcyclic m
    → plan m current domain target ≡ ok p
    → StopsSafely m current.running_units p.stop
      × StartsSafely m (erase_all p.stop current.running_units) p.start
unfolding differences
plan_is_safe m current domain target p acyclic h =
    let (r, facts, new, parts, once) = plan_reaches_target m current domain target p h in
    let (same, distinct_r, all) = required_units-ok m _ r facts.requires in
    let running = current.running_units in
    let to_stop = keep (λ u. not (contains r u)) running in
    let to_start = keep (λ u. not (contains running u)) r in
    let starts : DepsFirst m to_start [] p.start =
      subst (λ (q : TransitionPlan). DepsFirst m to_start [] q.start) (sym facts.result)
        (order-DepsFirst m to_start acyclic) in
    let stops : DependentsFirst m p.stop =
      subst (λ (q : TransitionPlan). DependentsFirst m q.stop) (sym facts.result)
        (order-DependentsFirst m to_stop acyclic) in
    (
      stops-StopsSafely m running p.stop stops (λ x y hx hy ny.
          elim (Bool-cases (contains (dependencies_of m y) x)) [
            | inr e ↦ e
            | inl e ↦
                let ry : contains r y ≡ true = ground (arith, parts y) in
                let rx = served m r y (all y ry) x e in ground (arith, parts x)
          ]),
      starts-StartsSafely m to_start r [] (erase_all p.stop running) p.start starts
          (λ x d hx hd. served m r x (all x (ground (arith, parts x))) d hd)
          (λ d hr n. ground (
            arith,
            contains-keep (λ u. not (contains running u)) r d,
            contains-erase_all p.stop running d,
            parts d,
          ))
          (λ d e. cc),
    )
