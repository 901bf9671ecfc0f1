-- ===== src/Exec/Planner/Walk/Topology.antt =====
-- What `Order` promises of dependencies, for a model without dependency cycles: a unit is started
-- after its dependencies, and stopped before them.
use mathlib.Core.List.{reverse-append}
use openvehicleframework.Base.{
  ℕ, zero, suc, ◌<◌, ◌≡◌, ◌∙◌, sym, ap, subst, inl, inr, true, false, ◌||◌, List, [], ◌∷◌, ◌++◌,
  ◌==◌, contains, sort, reverse, arith, Bool-cases, contains-insert, contains-append, contains-sort,
  contains-reverse, ==_iff,
}
use openvehicleframework.Exec.Types.{ExecutionModel}
use openvehicleframework.Exec.Planner.Walk.{Walk, dependencies_of, visit_each, visit, walk, order}
use openvehicleframework.Exec.Planner.Walk.Members.{
  left, IsWalk, Goes, left_mono, seen, left-seen, seen-IsWalk, visit_each-Goes, close, visit_skip,
  visit_work, visit-Fine, start, start-IsWalk, left-start,
}

-- The first unit is a dependency of the second, or a dependency of one that is.
pub data Below (m : ExecutionModel) : ℕ → ℕ → Type 0 where
  direct : (d u : ℕ) → contains (dependencies_of m u) d ≡ true → Below m d u
  further : (d u a : ℕ) → contains (dependencies_of m u) d ≡ true → Below m u a → Below m d a

-- No unit depends on itself, over any number of steps.
abbrev pub IsAcyclic : ExecutionModel → Type 0
IsAcyclic m = (u : ℕ) → ¬ Below m u u

-- Along the list, each unit comes after those of its dependencies that belong to the set; the units
-- in `before` came earlier.
abbrev pub DepsFirst : ExecutionModel → List ℕ → List ℕ → List ℕ → Type 0
DepsFirst m units before [] = Unit {0}
DepsFirst m units before (x ∷ xs) =
    ((d : ℕ)
      → contains (dependencies_of m x) d ≡ true
      → contains units d ≡ true
      → contains before d ≡ true)
    × DepsFirst m units (x ∷ before) xs

-- Along the list, no unit is followed by one that depends on it.
abbrev pub DependentsFirst : ExecutionModel → List ℕ → Type 0
DependentsFirst m [] = Unit {0}
DependentsFirst m (x ∷ xs) =
    ((y : ℕ) → contains xs y ≡ true → contains (dependencies_of m y) x ≡ false)
    × DependentsFirst m xs

DepsFirst-append_one :
    (m : ExecutionModel) (units before xs : List ℕ) (u : ℕ)
    → DepsFirst m units before xs
    → ((d : ℕ)
        → contains (dependencies_of m u) d ≡ true
        → contains units d ≡ true
        → (contains xs d || contains before d) ≡ true)
    → DepsFirst m units before (xs ++ u ∷ [])
DepsFirst-append_one m units before [] u h k = (k, tt)
DepsFirst-append_one m units before (x ∷ xs) u h k =
    (h.0, DepsFirst-append_one m units (x ∷ before) xs u h.1 (λ d a b. ground (arith, k d a b)))

module _ (m : ExecutionModel) (units : List ℕ) (acyclic : IsAcyclic m) where
  record IsOrdered (w : Walk) : Type 0 where
    closed :
        (y d : ℕ)
        → contains w.ordered y ≡ true
        → contains (dependencies_of m y) d ≡ true
        → contains units d ≡ true
        → contains w.ordered d ≡ true
    first : DepsFirst m units [] w.ordered
    safe : DependentsFirst m (reverse w.ordered)

  -- Every unit whose call is under way depends on the given one.
  abbrev Clear : ℕ → Walk → Type 0
  Clear u w = (x : ℕ) → contains w.visited x ≡ true → contains w.ordered x ≡ false → Below m u x

  Clear-mono : (u : ℕ) (w w' : Walk) → Goes m units w w' → Clear u w → Clear u w'
  Clear-mono u w w' g c x v o = elim (g.listed x v) [
    | inl v' ↦ c x v' (sym (g.alone x v') ∙ o)
    | inr o' ↦ cc
  ]

  Clear-seen :
      (u d : ℕ) (w : Walk)
      → contains (dependencies_of m u) d ≡ true
      → Clear u w
      → Clear d (seen m units u w)
  Clear-seen u d w h c x v o = elim (Bool-cases (u == x)) [
    | inl e ↦ subst (Below m d) ((==_iff u x).0 e) (direct d u h)
    | inr e ↦ further d u x h (c x (ground (arith, contains-insert u w.visited x)) o)
  ]

  -- What a call with enough fuel does.
  abbrev Places : ℕ → Walk → Type 0
  Places u w' = IsOrdered w' × (contains units u ≡ true → contains w'.ordered u ≡ true)

  visit_each-Places :
      (fuel : ℕ)
      → ((d : ℕ) (w : Walk)
          → IsWalk m units w
          → left m units w < fuel
          → IsOrdered w
          → Clear d w
          → Places d (visit m units fuel d w))
      → (ds : List ℕ) (w : Walk) → IsWalk m units w
      → left m units w < fuel
      → IsOrdered w
      → ((d : ℕ) → contains ds d ≡ true → Clear d w)
      → IsOrdered (visit_each (visit m units fuel) ds w)
        × ((d : ℕ)
            → contains ds d ≡ true
            → contains units d ≡ true
            → contains (visit_each (visit m units fuel) ds w).ordered d ≡ true)
  unfolding visit_each
  visit_each-Places fuel place [] w b l o c = (o, λ d h k. cc)
  visit_each-Places fuel place (d ∷ ds) w b l o c =
      let fine = visit-Fine m units fuel d w b l in
      let placed = place d w b l o (c d (ground arith)) in
      let w' = visit m units fuel d w in
      let l' : left m units w' < fuel = omega (arith, left_mono m units w w' fine.1) in
      let rest =
        visit_each-Places fuel place ds w' fine.0 l' placed.0
          (λ x h. Clear-mono x w w' fine.1 (c x (ground arith))) in
      let goes =
        visit_each-Goes m units (visit m units fuel) fuel (visit-Fine m units fuel) ds w' fine.0
          l' in
      (
        rest.0,
        λ x h k. elim (Bool-cases (d == x)) [
          | inl e ↦
              let here : contains w'.ordered x ≡ true =
                subst (λ y. contains units y ≡ true → contains w'.ordered y ≡ true)
                  ((==_iff d x).0 e) placed.1 k in
              goes.1.alone x (fine.0.marked x here) ∙ here
          | inr e ↦ rest.1 x (ground arith) k
        ],
      )

  close-IsOrdered :
      (u : ℕ) (w : Walk)
      → IsOrdered w
      → contains w.ordered u ≡ false
      → contains units u ≡ true
      → ((d : ℕ)
          → contains (dependencies_of m u) d ≡ true
          → contains units d ≡ true
          → contains w.ordered d ≡ true)
      → IsOrdered (close m units u w)
  close-IsOrdered u w o n c deps = record {
    closed = λ y d h k e. ground (
      arith,
      contains-append w.ordered (u ∷ []) d,
      contains-append w.ordered (u ∷ []) y,
      o.closed y d,
      deps d,
      ==_iff u y,
      ap (λ x. contains (dependencies_of m x) d),
    );
    first =
        DepsFirst-append_one m units [] w.ordered u o.first (λ d h k. ground (arith, deps d h k));
    safe = subst (DependentsFirst m) (sym (reverse-append w.ordered (u ∷ []))) (
      λ y h. elim (Bool-cases (contains (dependencies_of m y) u)) [
        | inl bad ↦
            ground (arith, o.closed y u (ground (arith, contains-reverse w.ordered y)) bad c)
        | inr good ↦ good
      ],
      o.safe,
    );
  }

  visit-Places :
      (fuel u : ℕ) (w : Walk)
      → IsWalk m units w
      → left m units w < fuel
      → IsOrdered w
      → Clear u w
      → Places u (visit m units fuel u w)
  visit-Places zero u w b l o c = absurd (omega arith)
  visit-Places (suc fuel) u w b l o c = elim (Bool-cases (contains units u)) [
    | inr e ↦ rw (visit_skip m units fuel u w (ground arith)) (o, λ h. cc)
    | inl k ↦ elim (Bool-cases (contains w.visited u)) [
      | inl v ↦ rw (visit_skip m units fuel u w (ground arith)) (o, λ _. settled v)
      | inr n ↦
          let s = seen m units u w in
          let bs = seen-IsWalk m units u w k b in
          let ls : left m units s < fuel = omega (arith, left-seen m units u w k n) in
          let deps = sort (dependencies_of m u) in
          let inner =
            visit_each-Places fuel (visit-Places fuel) deps s bs ls (ordered_seen o)
              (λ d h. Clear-seen u d w (sym (contains-sort (dependencies_of m u) d) ∙ h) c) in
          let goes =
            visit_each-Goes m units (visit m units fuel) fuel (visit-Fine m units fuel) deps s bs
              ls in
          rw (visit_work m units fuel u w k n) (
            close-IsOrdered u _ inner.0 (unlisted n _ goes.1) k
                (λ d h e. inner.1 d (contains-sort (dependencies_of m u) d ∙ h) e),
            λ _. ground (
              arith,
              contains-append (visit_each (visit m units fuel) deps s).ordered (u ∷ []) u,
            ),
          )
    ]
  ]
    where
      settled : contains w.visited u ≡ true → contains w.ordered u ≡ true
      settled v = elim (Bool-cases (contains w.ordered u)) [
        | inl h ↦ h
        | inr h ↦ absurd (acyclic u (c u v h))
      ]

      ordered_seen : IsOrdered w → IsOrdered (seen m units u w)
      ordered_seen o = record { closed = o.closed; first = o.first; safe = o.safe }

      unlisted :
          contains w.visited u ≡ false
          → (w' : Walk) → Goes m units (seen m units u w) w'
          → contains w'.ordered u ≡ false
      unlisted n w' g =
          ground (arith, g.alone u (ground (arith, contains-insert u w.visited u)), b.marked u)

  start-IsOrdered : IsOrdered (start m units)
  start-IsOrdered = record { closed = λ y d h k e. cc; first = tt; safe = tt }

  walk-IsOrdered : IsOrdered (walk m units)
  unfolding walk
  walk-IsOrdered =
      (visit_each-Places _ (visit-Places _) (sort units) (start m units) (start-IsWalk m units)
        (left-start m units) start-IsOrdered (λ d h x v o. cc)).0

  -- In a model without dependency cycles, each unit of the forward order comes after all its
  -- dependencies that belong to the set.
  pub order-DepsFirst : DepsFirst m units [] (order m units false)
  unfolding order
  order-DepsFirst = walk-IsOrdered.first

  -- In a model without dependency cycles, the backward order lists no unit before one that depends
  -- on it.
  pub order-DependentsFirst : DependentsFirst m (order m units true)
  unfolding order
  order-DependentsFirst = walk-IsOrdered.safe
