-- ===== src/Exec/Validation/Sound.antt =====
-- exec/src/model.cpp: what a model satisfies that `ValidateModel` accepts.
use mathlib.Core.WellFounded.{Acc}
use mathlib.Core.Path.{fun_ext}
use openvehicleframework.Base.{
  ℕ, ◌≤◌, ◌<◌, ◌≡◌, refl, sym, subst, ap, ◌∙◌, ◌⊎◌, inl, inr, Bool, true, false, not, ◌||◌, some,
  none, List, [], ◌∷◌, ◌++◌, Table, find, emplace, find-emplace, is_some, ◌==◌, ltb, contains,
  insert, distinct, arith, contains-insert, ==_iff, ok,
}
use openvehicleframework.Exec.Types.{
  ExecutionModel, ExecutionUnitDefinition, valid, not_positive, is_negative,
}
use openvehicleframework.Exec.Model.{find_unit}
use openvehicleframework.Exec.Model.Lookup.{first_unit, find_unit-first_unit}
use openvehicleframework.Exec.Planner.Walk.{dependencies_of}
use openvehicleframework.Exec.Planner.Walk.Topology.{Below, direct, further, IsAcyclic}
use openvehicleframework.Exec.Validation.Names.{
  IssueCode, Segment, ModelIssue, raise, Seen, no_names, is_valid_name, inspect_identity,
}
use openvehicleframework.Exec.Validation.Cycles.{unit_path, inspect_dependency_cycles}
use openvehicleframework.Exec.Validation.Cycles.Acyclic.{
  unit_ids, dependencies_in, IsIndex, Known, no_cycle_reported,
}
use openvehicleframework.Exec.Validation.{
  applications, valid_readiness, inspect_unit, inspect_units, unknown_dependencies,
  inspect_dependencies, inspect_model, validate_model,
}

append-nil-parts {ℓ} : {A : Type ℓ} (xs ys : List A) → xs ++ ys ≡ [] → (xs ≡ []) × (ys ≡ [])
append-nil-parts [] ys h = (refl, h)
append-nil-parts (x ∷ xs) ys h = cc

raise-nil : (b : Bool) (c : IssueCode) (p : List Segment) → raise b c p ≡ [] → b ≡ false
raise-nil true c p h = cc
raise-nil false c p h = refl

-- The checks of one unit that do not look at the rest of the model.
pub record UnitIsFine (u : ExecutionUnitDefinition) : Type 0 where
  pub identified : valid u.id ≡ true
  pub named : is_valid_name u.name ≡ true
  pub starts : not_positive u.start_timeout ≡ false
  pub stops : not_positive u.stop_timeout ≡ false
  pub attempts : (0 < u.retry.max_attempts) × (u.retry.max_attempts ≤ 100)
  pub delay : is_negative u.retry.delay ≡ false
  pub readiness : valid_readiness u.kind u.readiness ≡ true

abbrev pub AllFine : List ExecutionUnitDefinition → Type 0
AllFine [] = Unit {0}
AllFine (u ∷ us) = UnitIsFine u × AllFine us

identity_silent :
    (id : ℕ) (name : List ℕ) (path : List Segment) (seen : Seen)
    → (inspect_identity id name path seen).1 ≡ []
    → (valid id ≡ true)
      × (contains seen.ids id ≡ false)
      × (is_valid_name name ≡ true)
      × ((inspect_identity id name path seen).0.ids ≡ insert id seen.ids)
unfolding inspect_identity
identity_silent id name path seen h = (ground arith, ground arith, ground arith, ground arith)

three_silent :
    (a b c : Bool) (ca cb cc' : IssueCode) (pa pb pc : List Segment) (rest : List ModelIssue)
    → raise a ca pa ++ (raise b cb pb ++ (raise c cc' pc ++ rest)) ≡ []
    → (a ≡ false) × (b ≡ false) × (c ≡ false)
three_silent true b c ca cb cc' pa pb pc rest h = cc
three_silent false true c ca cb cc' pa pb pc rest h = cc
three_silent false false true ca cb cc' pa pb pc rest h = cc
three_silent false false false ca cb cc' pa pb pc rest h = (refl, refl, refl)

neither : (a b : Bool) → (a || b) ≡ false → a ≡ false
neither true b h = cc
neither false b h = refl

nor : (a b : Bool) → (a || b) ≡ false → b ≡ false
nor true b h = cc
nor false b h = h

double_negation : (a : Bool) → not a ≡ false → a ≡ true
double_negation true h = refl
double_negation false h = cc

within_attempts : (n : ℕ) (b : Bool) → ((n == 0) || ltb 100 n || b) ≡ false → (0 < n) × (n ≤ 100)
within_attempts n b h = ground arith

unit_silent :
    (u : ExecutionUnitDefinition)
    → valid u.id ≡ true
    → is_valid_name u.name ≡ true
    → inspect_unit u ≡ []
    → UnitIsFine u
unfolding inspect_unit
unit_silent u i n h =
    let tests =
      three_silent (not_positive u.start_timeout || not_positive u.stop_timeout)
        ((u.retry.max_attempts == 0) || ltb 100 u.retry.max_attempts || is_negative u.retry.delay)
        (not (valid_readiness u.kind u.readiness)) _ _ _ _ _ _ _ h in
    record {
      identified = i;
      named = n;
      starts = neither (not_positive u.start_timeout) (not_positive u.stop_timeout) tests.0;
      stops = nor (not_positive u.start_timeout) (not_positive u.stop_timeout) tests.0;
      attempts = within_attempts u.retry.max_attempts (is_negative u.retry.delay) tests.1;
      delay =
          nor ((u.retry.max_attempts == 0) || ltb 100 u.retry.max_attempts)
            (is_negative u.retry.delay) tests.1;
      readiness = double_negation (valid_readiness u.kind u.readiness) tests.2;
    }

units_silent :
    (us : List ExecutionUnitDefinition) (seen : Seen)
    → inspect_units us seen ≡ []
    → AllFine us
      × (distinct (unit_ids us) ≡ true)
      × ((x : ℕ) → contains seen.ids x ≡ true → contains (unit_ids us) x ≡ false)
unfolding inspect_units
units_silent [] seen h = (tt, refl, λ x c. refl)
units_silent (u ∷ us) seen h =
    let (a, h1) = append-nil-parts _ _ h in
    let (b, h2) = append-nil-parts _ _ h1 in
    let (i, fresh, n, same) = identity_silent u.id u.name (unit_path u) seen a in
    let seen' = (inspect_identity u.id u.name (unit_path u) seen).0 in
    let (fine, once, apart) = units_silent us seen' h2 in
    let inserted = λ (x : ℕ). ap (λ l. contains l x) same ∙ contains-insert u.id seen.ids x in
    (
      (unit_silent u i n b, fine),
      ground (arith, apart u.id, inserted u.id),
      λ x c. ground (arith, apart x, inserted x, ==_iff u.id x, ap (contains seen.ids)),
    )

-- The table of first definitions.
find-applications :
    (us : List ExecutionUnitDefinition) (x : ℕ) (t : Table ExecutionUnitDefinition)
    → find x (applications us t) ≡ elim (find x t) [ none ↦ first_unit x us | some u ↦ some u ]
unfolding applications
find-applications [] x t = ground arith
find-applications (u ∷ us) x t =
    find-applications us x (emplace u.id u t) ∙ ground (arith, find-emplace u.id x u t)

find-applications_lem :
    (m : ExecutionModel) (x : ℕ) → find x (applications m.units []) ≡ find_unit m x
find-applications_lem m x = find-applications m.units x [] ∙ sym (find_unit-first_unit m x)

-- Every unit stands in its table under its identifier.
Known-distinct :
    (apps : Table ExecutionUnitDefinition) (ids : List ℕ) (us all : List ExecutionUnitDefinition)
    → ((x : ℕ) → contains (unit_ids us) x ≡ true → first_unit x us ≡ find x apps)
    → distinct (unit_ids us) ≡ true
    → Known apps ids us
Known-distinct apps ids [] all same d = tt
Known-distinct apps ids (u ∷ us) all same d = (
  sym (same u.id (ground arith)) ∙ ground arith,
  Known-distinct apps ids us all
      (λ x c. ground (arith, same x, ==_iff u.id x, ap (contains (unit_ids us)))) (ground arith),
)

first_unit-facts :
    (us : List ExecutionUnitDefinition) (x : ℕ) (v : ExecutionUnitDefinition)
    → first_unit x us ≡ some v
    → (v.id ≡ x) × (contains (unit_ids us) x ≡ true)
first_unit-facts [] x v h = cc
first_unit-facts (u ∷ us) x v h = ground (arith, first_unit-facts us x v)

unknown_silent :
    (apps : Table ExecutionUnitDefinition) (path : List Segment) (ds : List ℕ) (d : ℕ)
    → unknown_dependencies apps path ds ≡ []
    → contains ds d ≡ true
    → is_some (find d apps) ≡ true
unfolding unknown_dependencies
unknown_silent apps path [] d h c = cc
unknown_silent apps path (e ∷ ds) d h c =
    ground (arith, unknown_silent apps path ds d, ==_iff e d, ap (λ k. is_some (find k apps)))

-- Every dependency of the units is defined.
abbrev pub AllDefined : ExecutionModel → List ExecutionUnitDefinition → Type 0
AllDefined m [] = Unit {0}
AllDefined m (u ∷ us) =
    ((d : ℕ) → contains u.dependencies d ≡ true → is_some (find_unit m d) ≡ true) × AllDefined m us

dependencies_silent :
    (m : ExecutionModel) (us : List ExecutionUnitDefinition)
    → inspect_dependencies (applications m.units []) us ≡ []
    → AllDefined m us
unfolding inspect_dependencies
dependencies_silent m [] h = tt
dependencies_silent m (u ∷ us) h =
    let parts =
      append-nil-parts (unknown_dependencies (applications m.units []) (unit_path u) u.dependencies)
        _ h in
    (
      λ d c.
          subst (λ o. is_some o ≡ true) (find-applications_lem m d)
            (unknown_silent (applications m.units []) (unit_path u) u.dependencies d parts.0 c),
      dependencies_silent m us parts.1,
    )

-- The last dependency of a chain.
Below-last :
    (m : ExecutionModel) {d a : ℕ}
    → Below m d a
    → (p : ℕ) × (contains (dependencies_of m a) p ≡ true) × ((d ≡ p) ⊎ Below m d p)
Below-last m (direct d u h) = (d, h, inl refl)
Below-last m (further d u a h b) =
    let (p, hp, r) = Below-last m b in
    elim r [
      | inl e ↦ (p, hp, inr (subst (Below m d) e (direct d u h)))
      | inr c ↦ (p, hp, inr (further d u p h c))
    ]

grounded-irreflexive :
    (m : ExecutionModel) (x : ℕ)
    → Acc (λ d u. contains (dependencies_of m u) d ≡ true) x
    → ¬ Below m x x
grounded-irreflexive m x (Acc.intro _ smaller) b =
    let (p, hp, r) = Below-last m b in
    elim r [
      | inl e ↦ grounded-irreflexive m p (smaller p hp) (subst (λ y. Below m y y) e b)
      | inr c ↦ grounded-irreflexive m p (smaller p hp) (further p x p hp c)
    ]

-- A model that passed the validation.
pub record IsValid (m : ExecutionModel) : Type 0 where
  pub generation : valid m.generation ≡ true
  pub fine : AllFine m.units
  pub once : distinct (unit_ids m.units) ≡ true
  pub defined : AllDefined m m.units
  pub acyclic : IsAcyclic m

dependencies_in-applications :
    (m : ExecutionModel) → dependencies_in (applications m.units []) ≡ dependencies_of m
unfolding dependencies_of
dependencies_in-applications m =
    fun_ext
      (λ u. ap (λ o. elim o [ none ↦ [] | some d ↦ d.dependencies ]) (find-applications_lem m u))

no_issue-IsValid : (m : ExecutionModel) → inspect_model m ≡ [] → IsValid m
unfolding inspect_model
no_issue-IsValid m h =
    let apps = applications m.units [] in
    let (a, h1) = append-nil-parts _ _ h in
    let (b, h2) = append-nil-parts (inspect_units m.units no_names) _ h1 in
    let (c, h3) = append-nil-parts (inspect_dependencies apps m.units) _ h2 in
    let (d, h4) = append-nil-parts (inspect_dependency_cycles apps m.units) _ h3 in
    let (fine, once, apart) = units_silent m.units no_names b in
    let same = λ (x : ℕ). sym (find-applications_lem m x ∙ find_unit-first_unit m x) in
    let index : IsIndex apps (unit_ids m.units) =
      λ x v e. first_unit-facts m.units x v (same x ∙ e) in
    let known = Known-distinct apps (unit_ids m.units) m.units m.units (λ x k. same x) once in
    let grounded = no_cycle_reported apps m.units index known d in
    record {
      generation = double_negation (valid m.generation) (raise-nil _ _ _ a);
      fine = fine;
      once = once;
      defined = dependencies_silent m m.units c;
      acyclic = λ x. grounded-irreflexive m x (
          subst (λ (deps : ℕ → List ℕ). Acc (λ d u. contains (deps u) d ≡ true) x)
            (dependencies_in-applications m) (grounded x));
    }

-- `ValidateModel` accepts only models whose generation is not zero, whose units have distinct,
-- non-zero identifiers, valid names, positive timeouts, 1 to 100 attempts and a readiness policy
-- that suits their kind, whose dependencies are all defined, and in which no unit depends on itself
-- over any number of steps. It returns the model unchanged.
pub validate_model-IsValid : (m n : ExecutionModel) → validate_model m ≡ ok n → (n ≡ m) × IsValid m
unfolding validate_model
validate_model-IsValid m n h = by_issues (inspect_model m) refl
  where
    by_issues : (is : List ModelIssue) → inspect_model m ≡ is → (n ≡ m) × IsValid m
    by_issues [] e = (ground arith, no_issue-IsValid m e)
    by_issues (x ∷ xs) e = ground arith
