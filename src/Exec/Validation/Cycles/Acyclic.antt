-- ===== src/Exec/Validation/Cycles/Acyclic.antt =====
-- exec/src/model.cpp: if `InspectDependencyCycles` reports nothing, no unit depends on itself.
use mathlib.Core.WellFounded.{Acc}
use openvehicleframework.Base.{
  ℕ, zero, suc, ◌≤◌, ◌<◌, ◌≡◌, refl, sym, subst, ap, ◌≢◌, ◌⊎◌, inl, inr, true, Option, some, none,
  List, [], ◌∷◌, ◌++◌, Table, find, find-assign, ◌==◌, length, contains, count, count_mono,
  count_strict, count-le-length, arith, Bool-cases, Option-cases, ==_iff,
}
use openvehicleframework.Exec.Types.{ExecutionUnitDefinition}
use openvehicleframework.Exec.Validation.Cycles.{
  Visit, unseen, active, complete, Search, colour, report, visit_coloured, visit_dependency,
  visit_dependencies, enter, leave, visit, is_unseen, search_unit, search_units, no_search,
  inspect_dependency_cycles,
}

-- The dependencies of a unit, by the table of first definitions.
abbrev pub dependencies_in : Table ExecutionUnitDefinition → ℕ → List ℕ
dependencies_in apps id = elim (find id apps) [ none ↦ [] | some u ↦ u.dependencies ]

abbrev pub DependsOn : Table ExecutionUnitDefinition → ℕ → ℕ → Type 0
DependsOn apps d u = contains (dependencies_in apps u) d ≡ true

abbrev pub unit_ids : List ExecutionUnitDefinition → List ℕ
unit_ids [] = []
unit_ids (u ∷ us) = u.id ∷ unit_ids us

-- Every chain of dependencies from the unit ends.
abbrev pub IsGrounded : Table ExecutionUnitDefinition → ℕ → Type 0
IsGrounded apps u = Acc (DependsOn apps) u

append-eq-nil {ℓ} : {A : Type ℓ} (xs ys : List A) → xs ++ ys ≡ [] → xs ≡ []
append-eq-nil [] ys h = refl
append-eq-nil (x ∷ xs) ys h = cc

append_one-ne-nil {ℓ} : {A : Type ℓ} (xs : List A) (a : A) → (xs ++ a ∷ []) ≢ []
append_one-ne-nil [] a h = cc
append_one-ne-nil (x ∷ xs) a h = cc

-- Issues are only added.
report-issues :
    (u : ExecutionUnitDefinition) (d : ℕ) (s : Search) → (report u d s).issues ≡ [] → s.issues ≡ []
unfolding report
report-issues u d s h = elim (Bool-cases (contains s.reported d)) [
  | inl e ↦ rw e at h
  | inr e ↦ append-eq-nil s.issues _ (rw e at h)
]

visit_dependency-issues :
    (call : ExecutionUnitDefinition → Search → Search)
    → ((v : ExecutionUnitDefinition) (s : Search) → (call v s).issues ≡ [] → s.issues ≡ [])
    → (u : ExecutionUnitDefinition) (d : ℕ) (o : Option ExecutionUnitDefinition) (s : Search)
    → (visit_dependency call u d o s).issues ≡ []
    → s.issues ≡ []
unfolding visit_dependency
visit_dependency-issues call keep u d none s h = h
visit_dependency-issues call keep u d (some v) s h = by_colour (colour d s.visits) h
  where
    by_colour : (c : Visit) → (visit_coloured call u d v c s).issues ≡ [] → s.issues ≡ []
    by_colour unseen h = keep v s h
    by_colour active h = report-issues u d s h
    by_colour complete h = h

visit_dependencies-issues :
    (call : ExecutionUnitDefinition → Search → Search)
    → ((v : ExecutionUnitDefinition) (s : Search) → (call v s).issues ≡ [] → s.issues ≡ [])
    → (apps : Table ExecutionUnitDefinition) (u : ExecutionUnitDefinition) (ds : List ℕ)
      (s : Search)
    → (visit_dependencies call apps u ds s).issues ≡ []
    → s.issues ≡ []
unfolding visit_dependencies
visit_dependencies-issues call keep apps u [] s h = h
visit_dependencies-issues call keep apps u (d ∷ ds) s h =
    visit_dependency-issues call keep u d (find d apps) s
      (visit_dependencies-issues call keep apps u ds (visit_dependency call u d (find d apps) s) h)

visit-issues :
    (apps : Table ExecutionUnitDefinition) (fuel : ℕ) (u : ExecutionUnitDefinition) (s : Search)
    → (visit apps fuel u s).issues ≡ []
    → s.issues ≡ []
unfolding visit
visit-issues apps zero u s h = h
visit-issues apps (suc fuel) u s h =
    visit_dependencies-issues (visit apps fuel) (visit-issues apps fuel) apps u u.dependencies
      (enter u s) h

-- Nothing is marked as reported without an issue, and each complete unit is grounded.
record IsSound (apps : Table ExecutionUnitDefinition) (s : Search) : Type 0 where
  quiet : s.issues ≡ [] → s.reported ≡ []
  grounded : (x : ℕ) → colour x s.visits ≡ complete → IsGrounded apps x

-- A part of the search: what is complete stays so, and nothing becomes unseen.
record Goes (s s' : Search) : Type 0 where
  stays : (x : ℕ) → colour x s.visits ≡ complete → colour x s'.visits ≡ complete
  settles : (x : ℕ) → colour x s'.visits ≡ active → colour x s.visits ≡ active
  shrinks : (x : ℕ) → is_unseen (colour x s'.visits) ≡ true → is_unseen (colour x s.visits) ≡ true

Goes-refl : (s : Search) → Goes s s
Goes-refl s = record { stays = λ x h. h; settles = λ x h. h; shrinks = λ x h. h }

Goes-trans : (s t u : Search) → Goes s t → Goes t u → Goes s u
Goes-trans s t u g h = record {
  stays = λ x k. h.stays x (g.stays x k);
  settles = λ x k. g.settles x (h.settles x k);
  shrinks = λ x k. g.shrinks x (h.shrinks x k);
}

module _ (apps : Table ExecutionUnitDefinition) (ids : List ℕ) where
  -- The table names each definition by its identifier.
  abbrev pub IsIndex : Type 0
  IsIndex =
      (d : ℕ) (v : ExecutionUnitDefinition)
      → find d apps ≡ some v
      → (v.id ≡ d) × (contains ids d ≡ true)

  abbrev left : Search → ℕ
  left s = count (λ x. is_unseen (colour x s.visits)) ids

  left_mono : (s s' : Search) → Goes s s' → left s' ≤ left s
  left_mono s s' g = count_mono _ _ ids g.shrinks

  left-enter :
      (u : ExecutionUnitDefinition) (s : Search)
      → contains ids u.id ≡ true
      → colour u.id s.visits ≡ unseen
      → left (enter u s) < left s
  left-enter u s c n =
      count_strict _ _ u.id ids (λ x h. ground (arith, find-assign u.id x active s.visits)) c
        (ground arith) (ground (arith, find-assign u.id u.id active s.visits))

  -- A call for an unseen unit with enough fuel that leaves no issue.
  abbrev Fine : ExecutionUnitDefinition → Search → Search → Type 0
  Fine u s s' = IsSound apps s' × Goes s s' × (colour u.id s'.visits ≡ complete)

  abbrev Calls : ℕ → (ExecutionUnitDefinition → Search → Search) → Type 0
  Calls fuel call =
      (v : ExecutionUnitDefinition) (s : Search)
      → find v.id apps ≡ some v
      → colour v.id s.visits ≡ unseen
      → left s < fuel
      → IsSound apps s
      → (call v s).issues ≡ []
      → Fine v s (call v s)

  enter-IsSound :
      (u : ExecutionUnitDefinition) (s : Search) → IsSound apps s → IsSound apps (enter u s)
  enter-IsSound u s v = record {
    quiet = v.quiet;
    grounded = λ x h. v.grounded x (ground (arith, find-assign u.id x active s.visits));
  }

  report_silent :
      (u : ExecutionUnitDefinition) (d : ℕ) (s : Search)
      → IsSound apps s
      → (report u d s).issues ≡ []
      → ⊥
  unfolding report
  report_silent u d s v h = elim (Bool-cases (contains s.reported d)) [
    | inl e ↦ ground (arith, v.quiet (report-issues u d s h))
    | inr e ↦ append_one-ne-nil s.issues _ (rw e at h)
  ]

  -- Each dependency so far is not defined or complete.
  abbrev Done : List ℕ → Search → Type 0
  Done ds s = (d : ℕ) → contains ds d ≡ true → (find d apps ≡ none) ⊎ (colour d s.visits ≡ complete)

  visit_coloured-Fine :
      (fuel : ℕ) (call : ExecutionUnitDefinition → Search → Search)
      → Calls fuel call
      → (u : ExecutionUnitDefinition) (d : ℕ) (v : ExecutionUnitDefinition) (s : Search) (c : Visit)
      → colour d s.visits ≡ c
      → find d apps ≡ some v
      → v.id ≡ d
      → left s < fuel
      → IsSound apps s
      → (visit_coloured call u d v c s).issues ≡ []
      → IsSound apps (visit_coloured call u d v c s)
        × Goes s (visit_coloured call u d v c s)
        × (colour d (visit_coloured call u d v c s).visits ≡ complete)
  unfolding visit_coloured
  visit_coloured-Fine fuel call calls u d v s unseen e f i l b h =
      let fine =
        calls v s (subst (λ k. find k apps ≡ some v) (sym i) f)
          (subst (λ k. colour k s.visits ≡ unseen) (sym i) e) l b h in
      (fine.0, fine.1, subst (λ k. colour k (call v s).visits ≡ complete) i fine.2)
  visit_coloured-Fine fuel call calls u d v s active e f i l b h = absurd (report_silent u d s b h)
  visit_coloured-Fine fuel call calls u d v s complete e f i l b h = (b, Goes-refl s, e)

  visit_dependency-Fine :
      (fuel : ℕ) (call : ExecutionUnitDefinition → Search → Search)
      → Calls fuel call
      → IsIndex
      → (u : ExecutionUnitDefinition) (d : ℕ) (o : Option ExecutionUnitDefinition) (s : Search)
      → find d apps ≡ o
      → left s < fuel
      → IsSound apps s
      → (visit_dependency call u d o s).issues ≡ []
      → IsSound apps (visit_dependency call u d o s)
        × Goes s (visit_dependency call u d o s)
        × ((find d apps ≡ none) ⊎ (colour d (visit_dependency call u d o s).visits ≡ complete))
  unfolding visit_dependency
  visit_dependency-Fine fuel call calls index u d none s f l b h = (b, Goes-refl s, inl f)
  visit_dependency-Fine fuel call calls index u d (some v) s f l b h =
      let fine =
        visit_coloured-Fine fuel call calls u d v s (colour d s.visits) refl f (index d v f).0 l b
          h in
      (fine.0, fine.1, inr fine.2)

  visit_dependencies-Fine :
      (fuel : ℕ) (call : ExecutionUnitDefinition → Search → Search)
      → Calls fuel call
      → ((v : ExecutionUnitDefinition) (s : Search) → (call v s).issues ≡ [] → s.issues ≡ [])
      → IsIndex
      → (u : ExecutionUnitDefinition) (ds : List ℕ) (s : Search) → left s < fuel
      → IsSound apps s
      → (visit_dependencies call apps u ds s).issues ≡ []
      → IsSound apps (visit_dependencies call apps u ds s)
        × Goes s (visit_dependencies call apps u ds s)
        × Done ds (visit_dependencies call apps u ds s)
  unfolding visit_dependencies
  visit_dependencies-Fine fuel call calls keep index u [] s l b h = (b, Goes-refl s, λ d k. cc)
  visit_dependencies-Fine fuel call calls keep index u (d ∷ ds) s l b h =
      let t = visit_dependency call u d (find d apps) s in
      let first =
        visit_dependency-Fine fuel call calls index u d (find d apps) s refl l b
          (visit_dependencies-issues call keep apps u ds t h) in
      let rest =
        visit_dependencies-Fine fuel call calls keep index u ds t
          (omega (arith, left_mono s t first.1)) first.0 h in
      (
        rest.0,
        Goes-trans s t (visit_dependencies call apps u ds t) first.1 rest.1,
        λ x k. elim (Bool-cases (d == x)) [
          | inr e ↦ rest.2 x (ground arith)
          | inl e ↦
              subst
                (λ y.
                  (find y apps ≡ none)
                  ⊎ (colour y (visit_dependencies call apps u ds t).visits ≡ complete))
                ((==_iff d x).0 e) (elim first.2 [ inl f ↦ inl f | inr f ↦ inr (rest.1.stays d f) ])
        ],
      )

  IsGrounded-none : (d : ℕ) → find d apps ≡ none → IsGrounded apps d
  IsGrounded-none d e = Acc.intro d (λ x h. absurd (ground arith))

  leave-Fine :
      (u : ExecutionUnitDefinition) (s t : Search)
      → find u.id apps ≡ some u
      → colour u.id s.visits ≡ unseen
      → IsSound apps t
      → Goes (enter u s) t
      → Done u.dependencies t
      → Fine u s (leave u t)
  leave-Fine u s t f n b g done = (
    record {
      quiet = b.quiet;
      grounded = λ x h. elim (Bool-cases (u.id == x)) [
        | inl e ↦ subst (IsGrounded apps) ((==_iff u.id x).0 e) here
        | inr e ↦ b.grounded x (ground (arith, find-assign u.id x complete t.visits))
      ];
    },
    record {
      stays = λ x h. ground (
        arith,
        find-assign u.id x complete t.visits,
        find-assign u.id x active s.visits,
        g.stays x,
        ==_iff u.id x,
        ap (λ k. colour k s.visits),
      );
      settles = λ x h. ground (
        arith,
        find-assign u.id x complete t.visits,
        find-assign u.id x active s.visits,
        g.settles x,
      );
      shrinks = λ x h. ground (
        arith,
        find-assign u.id x complete t.visits,
        find-assign u.id x active s.visits,
        g.shrinks x,
      );
    },
    ground (arith, find-assign u.id u.id complete t.visits),
  )
    where
      here : IsGrounded apps u.id
      here = Acc.intro u.id (λ d h. elim (done d (ground arith)) [
        | inl e ↦ IsGrounded-none d e
        | inr e ↦ b.grounded d e
      ])

  visit-Fine : IsIndex → (fuel : ℕ) → Calls fuel (visit apps fuel)
  unfolding visit
  visit-Fine index zero u s f n l b h = absurd (omega arith)
  visit-Fine index (suc fuel) u s f n l b h =
      let inside = (index u.id u f).1 in
      let deps =
        visit_dependencies-Fine fuel (visit apps fuel) (visit-Fine index fuel)
          (visit-issues apps fuel) index u u.dependencies (enter u s)
          (omega (arith, left-enter u s inside n)) (enter-IsSound u s b) h in
      leave-Fine u s _ f n deps.0 deps.1 deps.2

  -- Every unit of the list stands in the table under its identifier.
  abbrev pub Known : List ExecutionUnitDefinition → Type 0
  Known [] = Unit {0}
  Known (u ∷ us) = (find u.id apps ≡ some u) × Known us

  search_unit-issues :
      (fuel : ℕ) (u : ExecutionUnitDefinition) (c : Visit) (s : Search)
      → (search_unit apps fuel u c s).issues ≡ []
      → s.issues ≡ []
  unfolding search_unit
  search_unit-issues fuel u unseen s h = visit-issues apps fuel u s h
  search_unit-issues fuel u active s h = h
  search_unit-issues fuel u complete s h = h

  search_units-issues :
      (fuel : ℕ) (us : List ExecutionUnitDefinition) (s : Search)
      → (search_units apps fuel us s).issues ≡ []
      → s.issues ≡ []
  unfolding search_units
  search_units-issues fuel [] s h = h
  search_units-issues fuel (u ∷ us) s h =
      search_unit-issues fuel u (colour u.id s.visits) s
        (search_units-issues fuel us (search_unit apps fuel u (colour u.id s.visits) s) h)

  -- No call is under way.
  abbrev Resting : Search → Type 0
  Resting s = (x : ℕ) → ¬ (colour x s.visits ≡ active)

  search_unit-Fine :
      IsIndex
      → (fuel : ℕ) (u : ExecutionUnitDefinition) (c : Visit) (s : Search) → colour u.id s.visits ≡ c
      → find u.id apps ≡ some u
      → left s < fuel
      → IsSound apps s
      → Resting s
      → (search_unit apps fuel u c s).issues ≡ []
      → Fine u s (search_unit apps fuel u c s)
  unfolding search_unit
  search_unit-Fine index fuel u unseen s e f l b r h = visit-Fine index fuel u s f e l b h
  search_unit-Fine index fuel u active s e f l b r h = absurd (r u.id e)
  search_unit-Fine index fuel u complete s e f l b r h = (b, Goes-refl s, e)

  abbrev AllComplete : List ExecutionUnitDefinition → Search → Type 0
  AllComplete us s = (x : ℕ) → contains (unit_ids us) x ≡ true → colour x s.visits ≡ complete

  search_units-Fine :
      IsIndex
      → (fuel : ℕ) (us : List ExecutionUnitDefinition) (s : Search) → Known us
      → left s < fuel
      → IsSound apps s
      → Resting s
      → (search_units apps fuel us s).issues ≡ []
      → IsSound apps (search_units apps fuel us s)
        × Goes s (search_units apps fuel us s)
        × AllComplete us (search_units apps fuel us s)
  unfolding search_units
  search_units-Fine index fuel [] s k l b r h = (b, Goes-refl s, λ x c. cc)
  search_units-Fine index fuel (u ∷ us) s k l b r h =
      let t = search_unit apps fuel u (colour u.id s.visits) s in
      let first =
        search_unit-Fine index fuel u (colour u.id s.visits) s refl k.0 l b r
          (search_units-issues fuel us t h) in
      let rest =
        search_units-Fine index fuel us t k.1 (omega (arith, left_mono s t first.1)) first.0
          (λ x a. r x (first.1.settles x a)) h in
      (
        rest.0,
        Goes-trans s t (search_units apps fuel us t) first.1 rest.1,
        λ x c. elim (Bool-cases (u.id == x)) [
          | inr e ↦ rest.2 x (ground arith)
          | inl e ↦
              subst (λ y. colour y (search_units apps fuel us t).visits ≡ complete)
                ((==_iff u.id x).0 e) (rest.1.stays u.id first.2)
        ],
      )

  no_search-IsSound : IsSound apps no_search
  no_search-IsSound = record { quiet = λ _. refl; grounded = λ x h. cc }

length-unit_ids : (us : List ExecutionUnitDefinition) → length (unit_ids us) ≡ length us
length-unit_ids [] = refl
length-unit_ids (u ∷ us) = ap suc (length-unit_ids us)

-- If the search reports no issue for units that the table names by their identifiers, and no others,
-- then every chain of dependencies ends.
pub no_cycle_reported :
    (apps : Table ExecutionUnitDefinition) (us : List ExecutionUnitDefinition)
    → IsIndex apps (unit_ids us)
    → Known apps (unit_ids us) us
    → inspect_dependency_cycles apps us ≡ []
    → (x : ℕ) → IsGrounded apps x
unfolding inspect_dependency_cycles
no_cycle_reported apps us index known h x =
    let ids = unit_ids us in
    let enough : left apps ids no_search < suc (length us) = omega (
      arith,
      count-le-length (λ y. is_unseen (colour y no_search.visits)) ids,
      length-unit_ids us,
    ) in
    let fine =
      search_units-Fine apps ids index (suc (length us)) us no_search known enough
        (no_search-IsSound apps ids) (λ y e. cc) h in
    elim (Option-cases (find x apps)) [
      | inl e ↦ IsGrounded-none apps ids x e
      | inr (v, e) ↦ fine.0.grounded x (fine.2 x (index x v e).1)
    ]
