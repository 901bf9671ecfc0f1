-- ===== src/Exec/Planner/Plans.antt =====
-- exec/src/planner.cpp: what a plan of `BuildPlan` says and does.
use openvehicleframework.Base.{
  ℕ, ◌≡◌, refl, sym, ◌∙◌, Bool, true, false, not, ◌&&◌, some, List, [], ◌∷◌, find, assign, is_some,
  ◌==◌, contains, insert_all, erase, keep, distinct, arith, contains-keep, contains-erase,
  contains-insert_all, ok, >>=-eq-ok, reject_if-eq-ok, or_fail-eq-ok, subst,
}
use openvehicleframework.Exec.Types.{ExecutionModel}
use openvehicleframework.Exec.Model.{find_domain, find_mode}
use openvehicleframework.Exec.Planner.Walk.Members.{order-members}
use openvehicleframework.Exec.Planner.Walk.Topology.{}
use openvehicleframework.Exec.Planner.Required.{AllMeet, validate_constraints-ok}
use openvehicleframework.Exec.Planner.{
  SystemConfiguration, TransitionPlan, required_units, validate_constraints, differences,
  build_plan, plan,
}

-- What a successful plan records, with the units that the target configuration requires.
pub record IsPlan (m : ExecutionModel) (current : SystemConfiguration) (domain target : ℕ)
    (required : List ℕ) (p : TransitionPlan) : Type 0 where
  pub same_generation : current.generation ≡ m.generation
  pub known_target : is_some (find_mode m (record { domain = domain; mode = target })) ≡ true
  pub source : find domain current.committed_modes ≡ some p.source_mode
  pub meets :
      AllMeet m
        (assign domain target current.committed_modes)
        (assign domain target current.committed_modes)
  pub requires : required_units m (assign domain target current.committed_modes) ≡ ok required
  pub result : p ≡ differences m current domain p.source_mode target required

build_plan-IsPlan :
    (m : ExecutionModel) (current : SystemConfiguration) (domain target : ℕ) (allow : Bool)
    (p : TransitionPlan)
    → build_plan m current domain target allow ≡ ok p
    → (required : List ℕ) × IsPlan m current domain target required p
      × ((not allow && (p.source_mode == target)) ≡ false)
unfolding build_plan differences
build_plan-IsPlan m current domain target allow p h =
    let (g, h1) = reject_if-eq-ok (not (current.generation == m.generation)) _ _ h in
    let (k, h2) = reject_if-eq-ok (not (is_some (find_domain m domain))) _ _ h1 in
    let (t, h3) =
      reject_if-eq-ok (not (is_some (find_mode m (record { domain = domain; mode = target })))) _ _
        h2 in
    let (s, e, h4) = or_fail-eq-ok (find domain current.committed_modes) _ _ h3 in
    let (n, h5) = reject_if-eq-ok (not allow && (s == target)) _ _ h4 in
    let proposed = assign domain target current.committed_modes in
    let (u, v, h6) = >>=-eq-ok (validate_constraints m proposed) _ h5 in
    let (r, q, h7) = >>=-eq-ok (required_units m proposed) _ h6 in
    let same : differences m current domain s target r ≡ p = ground arith in
    (
      r,
      subst (IsPlan m current domain target r) same (record {
        same_generation = ground arith;
        known_target = ground arith;
        source = e;
        meets = validate_constraints-ok m proposed v;
        requires = q;
        result = refl;
      }),
      subst (λ (p' : TransitionPlan). (not allow && (p'.source_mode == target)) ≡ false) same n,
    )

module _ (m : ExecutionModel) (current : SystemConfiguration) (domain source target : ℕ)
    (required : List ℕ) where
  -- The three lists by membership.
  differences-members :
      (x : ℕ)
      → let p = differences m current domain source target required in
        (contains p.retain x ≡ (contains required x && contains current.running_units x))
        × (contains p.stop x ≡ (contains current.running_units x && not (contains required x)))
        × (contains p.start x ≡ (contains required x && not (contains current.running_units x)))
  unfolding differences
  differences-members x =
      let running = current.running_units in
      let retained = keep (contains running) required in
      let to_stop = keep (λ u. not (contains required u)) running in
      let to_start = keep (λ u. not (contains running u)) required in
      (
        (order-members m retained false).0 x
            ∙ ground (arith, contains-keep (contains running) required x),
        (order-members m to_stop true).0 x
            ∙ ground (arith, contains-keep (λ u. not (contains required u)) running x),
        (order-members m to_start false).0 x
            ∙ ground (arith, contains-keep (λ u. not (contains running u)) required x),
      )

  differences-once :
      let p = differences m current domain source target required in
      (distinct p.retain ≡ true) × (distinct p.stop ≡ true) × (distinct p.start ≡ true)
  unfolding differences
  differences-once = (
    (order-members m (keep (contains current.running_units) required) false).1,
    (order-members m (keep (λ u. not (contains required u)) current.running_units) true).1,
    (order-members m (keep (λ u. not (contains current.running_units u)) required) false).1,
  )

-- The running units after a plan: those that it stops are gone, those that it starts are there.
abbrev pub erase_all : List ℕ → List ℕ → List ℕ
erase_all [] xs = xs
erase_all (b ∷ bs) xs = erase_all bs (erase b xs)

pub contains-erase_all :
    (bs xs : List ℕ) (x : ℕ) → contains (erase_all bs xs) x ≡ (not (contains bs x) && contains xs x)
contains-erase_all [] xs x = refl
contains-erase_all (b ∷ bs) xs x =
    ground (arith, contains-erase_all bs (erase b xs) x, contains-erase b xs x)

abbrev pub after_plan : TransitionPlan → List ℕ → List ℕ
after_plan p running = insert_all p.start (erase_all p.stop running)

-- Carrying a plan out, its stops before its starts, turns the running units into exactly the units
-- that the proposed modes require. The plan is made for the domain's committed mode and for another,
-- defined mode, and the proposed modes meet their constraints. It stops only what runs, starts only
-- what does not, keeps the rest, and names each unit once.
pub plan_reaches_target :
    (m : ExecutionModel) (current : SystemConfiguration) (domain target : ℕ) (p : TransitionPlan)
    → plan m current domain target ≡ ok p
    → (required : List ℕ) × IsPlan m current domain target required p
      × ((p.source_mode == target) ≡ false)
      × ((x : ℕ)
          → (contains (after_plan p current.running_units) x ≡ contains required x)
            × (contains p.retain x ≡ (contains required x && contains current.running_units x))
            × (contains p.stop x ≡ (contains current.running_units x && not (contains required x)))
            × (contains p.start x
                ≡ (contains required x && not (contains current.running_units x))))
      × ((distinct p.retain ≡ true) × (distinct p.stop ≡ true) × (distinct p.start ≡ true))
unfolding plan
plan_reaches_target m current domain target p h =
    let (r, facts, new) = build_plan-IsPlan m current domain target false p h in
    let s = p.source_mode in
    let P : TransitionPlan → Type 0 = λ q.
      ((x : ℕ)
        → (contains (after_plan q current.running_units) x ≡ contains r x)
          × (contains q.retain x ≡ (contains r x && contains current.running_units x))
          × (contains q.stop x ≡ (contains current.running_units x && not (contains r x)))
          × (contains q.start x ≡ (contains r x && not (contains current.running_units x))))
      × ((distinct q.retain ≡ true) × (distinct q.stop ≡ true) × (distinct q.start ≡ true)) in
    let q = differences m current domain s target r in
    let both : P q = (
      λ x.
          let parts = differences-members m current domain s target r x in
          let after : contains (after_plan q current.running_units) x ≡ contains r x =
            contains-insert_all q.start (erase_all q.stop current.running_units) x
            ∙ ground (arith, contains-erase_all q.stop current.running_units x, parts) in
          (after, parts.0, parts.1, parts.2),
      differences-once m current domain s target r,
    ) in
    let done = subst P (sym facts.result) both in (r, facts, ground arith, done.0, done.1)
