-- ===== src/Exec/Planner/Walk/Members.antt =====
-- The walk of `Order` visits every unit of the set and lists it once, for every model.
use mathlib.Core.List.{reverse-cons}
use openvehicleframework.Base.{
  ℕ, zero, suc, ◌≤◌, ◌<◌, ◌≡◌, refl, ◌∙◌, ap, ◌⊎◌, inl, inr, Bool, true, false, not, ◌||◌, List, [],
  ◌∷◌, ◌++◌, if◌then◌else◌, ◌==◌, length, contains, insert, count, distinct, sort, reverse, arith,
  Bool-cases, contains-insert, contains-append, contains-sort, contains-reverse,
  distinct-append_one, count-le-length, count_mono, count_strict, ==_iff,
}
use openvehicleframework.Exec.Types.{ExecutionModel}
use openvehicleframework.Exec.Planner.Walk.{Walk, dependencies_of, visit_each, visit, walk, order}

module _ (m : ExecutionModel) (units : List ℕ) where
  -- How many units of the set are not visited.
  abbrev pub left : Walk → ℕ
  left w = count (λ u. not (contains w.visited u)) units

  pub record IsWalk (w : Walk) : Type 0 where
    pub marked : (x : ℕ) → contains w.ordered x ≡ true → contains w.visited x ≡ true
    pub inside : (x : ℕ) → contains w.visited x ≡ true → contains units x ≡ true
    pub once : distinct w.ordered ≡ true

  -- What a part of the walk does: it forgets no visited unit, leaves alone the place of those, and
  -- lists each unit that it visits.
  pub record Goes (w w' : Walk) : Type 0 where
    pub kept : (x : ℕ) → contains w.visited x ≡ true → contains w'.visited x ≡ true
    pub alone : (x : ℕ) → contains w.visited x ≡ true → contains w'.ordered x ≡ contains w.ordered x
    pub listed :
        (x : ℕ)
        → contains w'.visited x ≡ true
        → (contains w.visited x ≡ true) ⊎ (contains w'.ordered x ≡ true)

  pub Goes-refl : (w : Walk) → Goes w w
  Goes-refl w = record { kept = λ x h. h; alone = λ x h. refl; listed = λ x h. inl h }

  pub Goes-trans : (w v u : Walk) → Goes w v → Goes v u → IsWalk w → Goes w u
  Goes-trans w v u g h b = record {
    kept = λ x k. h.kept x (g.kept x k);
    alone = λ x k. h.alone x (g.kept x k) ∙ g.alone x k;
    listed = λ x k. elim (h.listed x k) [
      | inr o ↦ inr o
      | inl k' ↦ elim (g.listed x k') [ inl k'' ↦ inl k'' | inr o ↦ inr (h.alone x k' ∙ o) ]
    ];
  }

  pub left_mono : (w w' : Walk) → Goes w w' → left w' ≤ left w
  left_mono w w' g = count_mono _ _ units (λ x h. ground (arith, g.kept x))

  -- The walk at the first moment of a call that does work.
  abbrev pub seen : ℕ → Walk → Walk
  seen u w = record w { visited = insert u w.visited }

  pub left-seen :
      (u : ℕ) (w : Walk)
      → contains units u ≡ true
      → contains w.visited u ≡ false
      → left (seen u w) < left w
  left-seen u w c n =
      count_strict _ _ u units (λ x h. ground (arith, contains-insert u w.visited x)) c
        (ground arith) (ground (arith, contains-insert u w.visited u))

  pub seen-IsWalk : (u : ℕ) (w : Walk) → contains units u ≡ true → IsWalk w → IsWalk (seen u w)
  seen-IsWalk u w c b = record {
    marked = λ x h. ground (arith, contains-insert u w.visited x, b.marked x);
    inside = λ x h.
        ground (arith, contains-insert u w.visited x, b.inside x, ==_iff u x, ap (contains units));
    once = b.once;
  }

  -- A call with enough fuel.
  abbrev pub Fine : ℕ → Walk → Walk → Type 0
  Fine u w w' = IsWalk w' × Goes w w' × (contains units u ≡ true → contains w'.visited u ≡ true)

  pub visit_each-Goes :
      (f : ℕ → Walk → Walk) (fuel : ℕ)
      → ((d : ℕ) (w : Walk) → IsWalk w → left w < fuel → Fine d w (f d w))
      → (ds : List ℕ) (w : Walk) → IsWalk w
      → left w < fuel
      → IsWalk (visit_each f ds w)
        × Goes w (visit_each f ds w)
        × ((x : ℕ)
            → contains ds x ≡ true
            → contains units x ≡ true
            → contains (visit_each f ds w).visited x ≡ true)
  unfolding visit_each
  visit_each-Goes f fuel fine [] w b l = (b, Goes-refl w, λ x h k. cc)
  visit_each-Goes f fuel fine (d ∷ ds) w b l =
      let here = fine d w b l in
      let there =
        visit_each-Goes f fuel fine ds (f d w) here.0 (omega (arith, left_mono w (f d w) here.1)) in
      (
        there.0,
        Goes-trans w (f d w) (visit_each f ds (f d w)) here.1 there.1 b,
        λ x h k. elim (Bool-cases (d == x)) [
          | inl e ↦ there.1.kept x (
              ground (
                arith,
                (==_iff d x).0 e,
                here.2,
                ap (contains units),
                ap (contains (f d w).visited),
              ))
          | inr e ↦ there.2 x (ground arith) k
        ],
      )

  -- The end of a call that does work.
  abbrev pub close : ℕ → Walk → Walk
  close u w = record w { ordered = w.ordered ++ u ∷ [] }

  close-Fine :
      (u : ℕ) (w w' : Walk)
      → contains units u ≡ true
      → contains w.visited u ≡ false
      → IsWalk w
      → IsWalk w'
      → Goes (seen u w) w'
      → Fine u w (close u w')
  close-Fine u w w' c n b b' g = (
    record {
      marked = λ x h. ground (
        arith,
        contains-append w'.ordered (u ∷ []) x,
        b'.marked x,
        here,
        ==_iff u x,
        ap (contains w'.visited),
      );
      inside = b'.inside;
      once = distinct-append_one w'.ordered u b'.once unlisted;
    },
    record {
      kept = λ x h. g.kept x (ground (arith, contains-insert u w.visited x));
      alone = λ x h. ground (
        arith,
        contains-append w'.ordered (u ∷ []) x,
        contains-insert u w.visited x,
        g.alone x,
        ==_iff u x,
        ap (contains w.visited),
      );
      listed = λ x h. ground (
        arith,
        contains-append w'.ordered (u ∷ []) x,
        contains-insert u w.visited x,
        g.listed x h,
      );
    },
    λ _. here,
  )
    where
      marked : contains (seen u w).visited u ≡ true
      marked = ground (arith, contains-insert u w.visited u)

      here : contains w'.visited u ≡ true
      here = g.kept u marked

      unlisted : contains w'.ordered u ≡ false
      unlisted = ground (arith, g.alone u marked, b.marked u)

  -- The two branches of a call.
  pub visit_skip :
      (fuel u : ℕ) (w : Walk)
      → (not (contains units u) || contains w.visited u) ≡ true
      → visit m units (suc fuel) u w ≡ w
  unfolding visit
  visit_skip fuel u w t = rw t

  pub visit_work :
      (fuel u : ℕ) (w : Walk)
      → contains units u ≡ true
      → contains w.visited u ≡ false
      → visit m units (suc fuel) u w
        ≡ close u (visit_each (visit m units fuel) (sort (dependencies_of m u)) (seen u w))
  unfolding visit
  visit_work fuel u w c n =
      let work =
        close u (visit_each (visit m units fuel) (sort (dependencies_of m u)) (seen u w)) in
      let test : (not (contains units u) || contains w.visited u) ≡ false = ground arith in
      ap (λ b. if b then w else work) test

  pub visit-Fine :
      (fuel u : ℕ) (w : Walk) → IsWalk w → left w < fuel → Fine u w (visit m units fuel u w)
  visit-Fine zero u w b l = absurd (omega arith)
  visit-Fine (suc fuel) u w b l = elim (Bool-cases (contains units u)) [
    | inr e ↦ rw (visit_skip fuel u w (ground arith)) (b, Goes-refl w, λ h. cc)
    | inl c ↦ elim (Bool-cases (contains w.visited u)) [
      | inl v ↦ rw (visit_skip fuel u w (ground arith)) (b, Goes-refl w, λ _. v)
      | inr n ↦
          let inner =
            visit_each-Goes (visit m units fuel) fuel (visit-Fine fuel) (sort (dependencies_of m u))
              (seen u w) (seen-IsWalk u w c b) (omega (arith, left-seen u w c n)) in
          rw (visit_work fuel u w c n) (close-Fine u w _ c n b inner.0 inner.1)
    ]
  ]

  abbrev pub start : Walk
  start = record { ordered = []; visited = [] }

  pub start-IsWalk : IsWalk start
  start-IsWalk = record { marked = λ x h. cc; inside = λ x h. cc; once = refl }

  pub left-start : left start < suc (length units)
  left-start = omega (arith, count-le-length (λ u. not (contains start.visited u)) units)

  walk-Goes :
      IsWalk (walk m units)
      × Goes start (walk m units)
      × ((x : ℕ)
          → contains (sort units) x ≡ true
          → contains units x ≡ true
          → contains (walk m units).visited x ≡ true)
  unfolding walk
  walk-Goes =
      visit_each-Goes (visit m units (suc (length units))) (suc (length units))
        (visit-Fine (suc (length units))) (sort units) start start-IsWalk left-start

  contains-walk : (x : ℕ) → contains (walk m units).ordered x ≡ contains units x
  contains-walk x = elim (Bool-cases (contains units x)) [
    | inl c ↦ ground (arith, walk-Goes.1.listed x (walk-Goes.2 x (contains-sort units x ∙ c) c))
    | inr n ↦ ground (arith, walk-Goes.0.marked x, walk-Goes.0.inside x)
  ]

  distinct-reverse : (xs : List ℕ) → distinct xs ≡ true → distinct (reverse xs) ≡ true
  distinct-reverse [] d = refl
  distinct-reverse (x ∷ xs) d = rw (reverse-cons x xs) (
      distinct-append_one (reverse xs) x (distinct-reverse xs (ground arith))
        (ground (arith, contains-reverse xs x)))

  -- For every model and every set of units, in both directions, the order holds exactly the units of
  -- the set, each once.
  pub order-members :
      (backwards : Bool)
      → ((x : ℕ) → contains (order m units backwards) x ≡ contains units x)
        × (distinct (order m units backwards) ≡ true)
  unfolding order
  order-members true = (
    λ x. contains-reverse (walk m units).ordered x ∙ contains-walk x,
    distinct-reverse (walk m units).ordered walk-Goes.0.once,
  )
  order-members false = (contains-walk, walk-Goes.0.once)
