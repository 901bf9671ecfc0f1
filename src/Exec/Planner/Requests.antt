-- ===== src/Exec/Planner/Requests.antt =====
-- exec/src/planner.cpp: the domains and the resources that a plan asks the scheduler to lock.
use openvehicleframework.Base.{
  ℕ, ◌≡◌, refl, sym, ◌∙◌, subst, Bool, true, false, ◌&&◌, ◌||◌, List, [], ◌∷◌, ◌++◌, ◌==◌, contains,
  keep, not, any_of, distinct, arith, set_insert, set_insert_all, IsAscending,
  set_insert-IsAscending, IsAscending-distinct, contains-set_insert, contains-append, ok, inl, inr,
  Option-cases,
}
use openvehicleframework.Exec.Types.{
  ExecutionModel, DomainDefinition, ModeDefinition, ModeConstraint,
}
use openvehicleframework.Exec.Model.{find_unit}
use openvehicleframework.Exec.Planner.Plans.{plan_reaches_target}
use openvehicleframework.Exec.Planner.{
  SystemConfiguration, TransitionPlan, resources_of, guard_constraints, guard_modes, guarded,
  differences, plan,
}

set_insert_all-IsAscending : (bs xs : List ℕ) → IsAscending xs → IsAscending (set_insert_all bs xs)
set_insert_all-IsAscending [] xs s = s
set_insert_all-IsAscending (b ∷ bs) xs s =
    set_insert_all-IsAscending bs (set_insert b xs) (set_insert-IsAscending b xs s)

resources_of-IsAscending :
    (m : ExecutionModel) (us set : List ℕ) → IsAscending set → IsAscending (resources_of m us set)
unfolding resources_of
resources_of-IsAscending m [] set s = s
resources_of-IsAscending m (u ∷ us) set s = elim (Option-cases (find_unit m u)) [
  | inl e ↦ rw (e, resources_of) (resources_of-IsAscending m us set s)
  | inr (d, e) ↦
      rw (e, resources_of)
        (resources_of-IsAscending m us (set_insert_all d.exclusive_resources set)
          (set_insert_all-IsAscending d.exclusive_resources set s))
]

guard_constraints-IsAscending :
    (domain candidate : ℕ) (cs : List ModeConstraint) (set : List ℕ)
    → IsAscending set
    → IsAscending (guard_constraints domain candidate cs set)
unfolding guard_constraints
guard_constraints-IsAscending domain candidate [] set s = s
guard_constraints-IsAscending domain candidate (c ∷ cs) set s =
    guard_constraints-IsAscending domain candidate cs _ (
      ground (
        arith,
        set_insert-IsAscending candidate set s,
        set_insert-IsAscending c.other.domain (set_insert candidate set),
      ))

guard_modes-IsAscending :
    (domain candidate : ℕ) (ns : List ModeDefinition) (set : List ℕ)
    → IsAscending set
    → IsAscending (guard_modes domain candidate ns set)
unfolding guard_modes
guard_modes-IsAscending domain candidate [] set s = s
guard_modes-IsAscending domain candidate (n ∷ ns) set s =
    guard_modes-IsAscending domain candidate ns _
      (guard_constraints-IsAscending domain candidate n.constraints set s)

guarded-IsAscending :
    (domain : ℕ) (ds : List DomainDefinition) (set : List ℕ)
    → IsAscending set
    → IsAscending (guarded domain ds set)
unfolding guarded
guarded-IsAscending domain [] set s = s
guarded-IsAscending domain (d ∷ ds) set s =
    guarded-IsAscending domain ds _ (guard_modes-IsAscending domain d.id d.modes set s)

-- Whether a constraint of one of the modes ties the two domains together.
abbrev pub ties : ℕ → ℕ → ModeConstraint → ℕ → Bool
ties domain candidate c x =
    ((candidate == domain) || (c.other.domain == domain))
    && ((candidate == x) || (c.other.domain == x))

abbrev pub tied : ℕ → List DomainDefinition → ℕ → Bool
tied domain ds x =
    any_of
      (λ d.
        any_of (λ (n : ModeDefinition). any_of (λ c. ties domain d.id c x) n.constraints) d.modes)
      ds

contains-guard_constraints :
    (domain candidate : ℕ) (cs : List ModeConstraint) (set : List ℕ) (x : ℕ)
    → contains (guard_constraints domain candidate cs set) x
      ≡ (any_of (λ c. ties domain candidate c x) cs || contains set x)
unfolding guard_constraints
contains-guard_constraints domain candidate [] set x = refl
contains-guard_constraints domain candidate (c ∷ cs) set x =
    contains-guard_constraints domain candidate cs _ x
    ∙ ground (
      arith,
      contains-set_insert candidate set x,
      contains-set_insert c.other.domain (set_insert candidate set) x,
    )

contains-guard_modes :
    (domain candidate : ℕ) (ns : List ModeDefinition) (set : List ℕ) (x : ℕ)
    → contains (guard_modes domain candidate ns set) x ≡ (
        any_of (λ (n : ModeDefinition). any_of (λ c. ties domain candidate c x) n.constraints) ns
        || contains set x)
unfolding guard_modes
contains-guard_modes domain candidate [] set x = refl
contains-guard_modes domain candidate (n ∷ ns) set x =
    contains-guard_modes domain candidate ns _ x
    ∙ ground (arith, contains-guard_constraints domain candidate n.constraints set x)

contains-guarded :
    (domain : ℕ) (ds : List DomainDefinition) (set : List ℕ) (x : ℕ)
    → contains (guarded domain ds set) x ≡ (tied domain ds x || contains set x)
unfolding guarded
contains-guarded domain [] set x = refl
contains-guarded domain (d ∷ ds) set x =
    contains-guarded domain ds _ x ∙ ground (arith, contains-guard_modes domain d.id d.modes set x)

distinct-append :
    (xs ys : List ℕ)
    → distinct xs ≡ true
    → distinct ys ≡ true
    → ((x : ℕ) → contains xs x ≡ true → contains ys x ≡ false)
    → distinct (xs ++ ys) ≡ true
distinct-append [] ys dx dy apart = dy
distinct-append (x ∷ xs) ys dx dy apart = ground (
  arith,
  contains-append xs ys x,
  apart x (ground arith),
  distinct-append xs ys (ground arith) dy (λ z h. apart z (ground arith)),
)

-- A plan locks its own domain and every domain that a mode constraint ties to it, and no other.
-- None of the three lists that the scheduler is asked for, the domains, the units to stop and to
-- start, and the exclusive resources, names an identifier twice.
pub plan_requests :
    (m : ExecutionModel) (current : SystemConfiguration) (domain target : ℕ) (p : TransitionPlan)
    → plan m current domain target ≡ ok p
    → ((x : ℕ) → contains p.guarded_domains x ≡ (tied domain m.domains x || (domain == x)))
      × (distinct p.guarded_domains ≡ true)
      × (distinct (p.stop ++ p.start) ≡ true)
      × (distinct p.affected_resources ≡ true)
unfolding differences
plan_requests m current domain target p h =
    let (r, facts, new, parts, once) = plan_reaches_target m current domain target p h in
    let running = current.running_units in
    let to_stop = keep (λ u. not (contains r u)) running in
    let to_start = keep (λ u. not (contains running u)) r in
    let units = distinct-append p.stop p.start once.1 once.2 (λ x k. ground (arith, parts x)) in
    let P : TransitionPlan → Type 0 = λ q.
      ((x : ℕ) → contains q.guarded_domains x ≡ (tied domain m.domains x || (domain == x)))
      × IsAscending q.guarded_domains
      × IsAscending q.affected_resources in
    let sets : P p = subst P (sym facts.result) (
      λ x. contains-guarded domain m.domains (domain ∷ []) x ∙ ground arith,
      guarded-IsAscending domain m.domains (domain ∷ []) (tt, tt),
      resources_of-IsAscending m to_stop (resources_of m to_start [])
          (resources_of-IsAscending m to_start [] tt),
    ) in
    (
      sets.0,
      IsAscending-distinct p.guarded_domains sets.1,
      units,
      IsAscending-distinct p.affected_resources sets.2,
    )
