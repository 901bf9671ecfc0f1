-- ===== src/Exec/Planner/Required.antt =====
-- exec/src/planner.cpp: what `RequiredUnits` and `ValidateConstraints` accept.
use openvehicleframework.Base.{
  ℕ, ◌≡◌, refl, ap, ◌∙◌, inl, inr, Bool, true, ◌&&◌, ◌||◌, some, none, List, [], ◌∷◌, Table, find,
  if◌then◌else◌, ◌==◌, contains, insert, insert_all, all_of, any_of, distinct, arith, Bool-cases,
  Option-cases, contains-insert, contains-insert_all, distinct-insert, distinct-insert_all, ok,
  >>=-eq-ok, ==_iff,
}
use openvehicleframework.Exec.Types.{
  ExecutionModel, ExecutionUnitDefinition, DomainDefinition, ModeDefinition, ModeConstraint,
  ModeRef, ConstraintKind, requires_mode, excludes_mode,
}
use openvehicleframework.Exec.Model.{find_unit, find_mode}
use openvehicleframework.Exec.Planner.{
  bootstrap_units, selected_units, check_dependencies, required_units, is_selected,
  check_constraints, check_modes, validate_constraints,
}

-- Whether a definition of the unit is marked as bootstrap.
abbrev pub is_bootstrap : List ExecutionUnitDefinition → ℕ → Bool
is_bootstrap us x = any_of (λ u. u.bootstrap && (u.id == x)) us

-- The units of the mode that the domain has selected.
abbrev pub mode_units : ExecutionModel → Table ℕ → DomainDefinition → List ℕ
mode_units m modes d = elim (find d.id modes) [
  | none ↦ []
  | some selected ↦ elim (find_mode m (record { domain = d.id; mode = selected })) [
    | none ↦ []
    | some mode ↦ mode.units
  ]
]

-- Whether the selected mode of one of the domains lists the unit.
abbrev pub in_selected : ExecutionModel → Table ℕ → List DomainDefinition → ℕ → Bool
in_selected m modes ds x = any_of (λ d. contains (mode_units m modes d) x) ds

contains-bootstrap_units :
    (us : List ExecutionUnitDefinition) (r : List ℕ) (x : ℕ)
    → contains (bootstrap_units us r) x ≡ (is_bootstrap us x || contains r x)
unfolding bootstrap_units
contains-bootstrap_units [] r x = refl
contains-bootstrap_units (u ∷ us) r x =
    contains-bootstrap_units us (if u.bootstrap then insert u.id r else r) x
    ∙ ground (arith, contains-insert u.id r x)

distinct-bootstrap_units :
    (us : List ExecutionUnitDefinition) (r : List ℕ)
    → distinct r ≡ true
    → distinct (bootstrap_units us r) ≡ true
unfolding bootstrap_units
distinct-bootstrap_units [] r d = d
distinct-bootstrap_units (u ∷ us) r d =
    distinct-bootstrap_units us (if u.bootstrap then insert u.id r else r)
      (ground (arith, distinct-insert u.id r))

selected_units-ok :
    (m : ExecutionModel) (modes : Table ℕ) (ds : List DomainDefinition) (r : List ℕ) {q : List ℕ}
    → selected_units m modes ds r ≡ ok q
    → ((x : ℕ) → contains q x ≡ (in_selected m modes ds x || contains r x))
      × (distinct r ≡ true → distinct q ≡ true)
unfolding selected_units
selected_units-ok m modes [] r {q = q} h = (λ x. ground arith, λ d. ground arith)
selected_units-ok m modes (d ∷ ds) r {q = q} h = elim (Option-cases (find d.id modes)) [
  | inl e ↦ ground arith
  | inr (s, e) ↦ elim (Option-cases (find_mode m (record { domain = d.id; mode = s }))) [
    | inl e' ↦ ground arith
    | inr (n, e') ↦
        let rest = selected_units-ok m modes ds (insert_all n.units r) {q = q} (ground arith) in
        (
          λ x. rest.0 x ∙ ground (arith, contains-insert_all n.units r x),
          λ dr. rest.1 (distinct-insert_all n.units r dr),
        )
  ]
]

-- The unit is defined and its dependencies belong to the set.
abbrev pub IsServed : ExecutionModel → List ℕ → ℕ → Type 0
IsServed m required u =
    (d : ExecutionUnitDefinition) × (find_unit m u ≡ some d)
    × ((x : ℕ) → contains d.dependencies x ≡ true → contains required x ≡ true)

contains-all_of :
    (xs ys : List ℕ) (x : ℕ)
    → all_of (contains ys) xs ≡ true
    → contains xs x ≡ true
    → contains ys x ≡ true
contains-all_of [] ys x h c = cc
contains-all_of (y ∷ xs) ys x h c =
    ground (arith, contains-all_of xs ys x, ==_iff y x, ap (contains ys))

check_dependencies-ok :
    (m : ExecutionModel) (required us : List ℕ)
    → check_dependencies m required us ≡ ok tt
    → (u : ℕ) → contains us u ≡ true
    → IsServed m required u
unfolding check_dependencies
check_dependencies-ok m required [] h u c = cc
check_dependencies-ok m required (v ∷ us) h u c = elim (Option-cases (find_unit m v)) [
  | inl e ↦ ground arith
  | inr (d, e) ↦ elim (Bool-cases (v == u)) [
    | inl w ↦ (
      d,
      rw (← (==_iff v u).0 w) e,
      λ x k. contains-all_of d.dependencies required x (ground arith) k,
    )
    | inr w ↦ check_dependencies-ok m required us (ground arith) u (ground arith)
  ]
]

-- If `RequiredUnits` succeeds, its units are exactly the bootstrap units and the units of the
-- selected modes, each once, and each of them is defined and has its dependencies among them.
pub required_units-ok :
    (m : ExecutionModel) (modes : Table ℕ) (r : List ℕ)
    → required_units m modes ≡ ok r
    → ((x : ℕ) → contains r x ≡ (is_bootstrap m.units x || in_selected m modes m.domains x))
      × (distinct r ≡ true)
      × ((u : ℕ) → contains r u ≡ true → IsServed m r u)
unfolding required_units
required_units-ok m modes r h =
    let (q, eq, h') =
      >>=-eq-ok (selected_units m modes m.domains (bootstrap_units m.units [])) _ h in
    let (u, ec, h'') = >>=-eq-ok (check_dependencies m q q) _ h' in
    let same : q ≡ r = ground arith in
    let units = selected_units-ok m modes m.domains (bootstrap_units m.units []) {q = q} eq in
    let served = check_dependencies-ok m q q ec in
    rw (← same) (
      λ x. units.0 x ∙ ground (arith, contains-bootstrap_units m.units [] x),
      units.1 (distinct-bootstrap_units m.units [] refl),
      served,
    )

-- What a constraint asks of the selected modes.
abbrev pub Holds : Table ℕ → ModeConstraint → Type 0
Holds modes c = elim c.kind [
  | requires_mode ↦ find c.other.domain modes ≡ some c.other.mode
  | excludes_mode ↦ ¬ (find c.other.domain modes ≡ some c.other.mode)
]

abbrev pub AllHold : Table ℕ → List ModeConstraint → Type 0
AllHold modes [] = Unit {0}
AllHold modes (c ∷ cs) = Holds modes c × AllHold modes cs

-- Every entry of the table selects a defined mode whose constraints the modes meet.
abbrev pub AllMeet : ExecutionModel → Table ℕ → Table ℕ → Type 0
AllMeet m modes [] = Unit {0}
AllMeet m modes ((d, mode) ∷ rest) =
    ((n : ModeDefinition) × (find_mode m (record { domain = d; mode = mode }) ≡ some n)
      × AllHold modes n.constraints)
    × AllMeet m modes rest

is_selected_iff :
    (modes : Table ℕ) (r : ModeRef)
    → ((is_selected modes r ≡ true) → find r.domain modes ≡ some r.mode)
      × ((find r.domain modes ≡ some r.mode) → is_selected modes r ≡ true)
is_selected_iff modes r = (λ h. ground arith, λ h. ground arith)

check_constraints-ok :
    (modes : Table ℕ) (cs : List ModeConstraint)
    → check_constraints modes cs ≡ ok tt
    → AllHold modes cs
unfolding check_constraints
check_constraints-ok modes [] h = tt
check_constraints-ok modes (c ∷ cs) h =
    (kind_case c.kind refl, check_constraints-ok modes cs (ground arith))
  where
    kind_case : (k : ConstraintKind) → c.kind ≡ k → Holds modes c
    kind_case requires_mode e = rw e (ground (arith, (is_selected_iff modes c.other).0))
    kind_case excludes_mode e = rw e λ s. ground (arith, (is_selected_iff modes c.other).1 s)

check_modes-ok :
    (m : ExecutionModel) (modes rest : Table ℕ)
    → check_modes m modes rest ≡ ok tt
    → AllMeet m modes rest
unfolding check_modes
check_modes-ok m modes [] h = tt
check_modes-ok m modes ((d, mode) ∷ rest) h =
    elim (Option-cases (find_mode m (record { domain = d; mode = mode }))) [
      | inl e ↦ ground arith
      | inr (n, e) ↦ (
        (n, e, check_constraints-ok modes n.constraints (ground arith)),
        check_modes-ok m modes rest (ground arith),
      )
    ]

-- If `ValidateConstraints` succeeds, every selected mode is defined, the modes that its constraints
-- require are selected, and those that they exclude are not.
pub validate_constraints-ok :
    (m : ExecutionModel) (modes : Table ℕ)
    → validate_constraints m modes ≡ ok tt
    → AllMeet m modes modes
unfolding validate_constraints
validate_constraints-ok m modes h = check_modes-ok m modes modes h
