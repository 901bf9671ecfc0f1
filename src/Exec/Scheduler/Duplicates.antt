-- ===== src/Exec/Scheduler/Duplicates.antt =====
-- exec/src/scheduler.cpp: `HasDuplicates` by sorting, against the definition of a duplicate.
use openvehicleframework.Base.{
  ℕ, ◌≤◌, ◌≡◌, refl, ap, ◌∙◌, true, not, ◌&&◌, List, [], ◌∷◌, contains, distinct, sort, place,
  IsSorted, AtLeast, sort-IsSorted, contains-place, contains-sort, arith,
}
use openvehicleframework.Exec.Scheduler.{adjacent_equal, has_duplicates}

AtLeast-contains : (a x : ℕ) (xs : List ℕ) → AtLeast a xs → contains xs x ≡ true → a ≤ x
AtLeast-contains a x [] h c = cc
AtLeast-contains a x (y ∷ xs) h c = ground (arith, AtLeast-contains a x xs)

adjacent_equal-sorted : (xs : List ℕ) → IsSorted xs → adjacent_equal xs ≡ not (distinct xs)
adjacent_equal-sorted [] s = refl
adjacent_equal-sorted (x ∷ []) s = refl
adjacent_equal-sorted (x ∷ y ∷ xs) s =
    ground (arith, adjacent_equal-sorted (y ∷ xs) s.1, AtLeast-contains y x xs s.1.0)

distinct-place_eq :
    (b : ℕ) (xs : List ℕ) → distinct (place b xs) ≡ (not (contains xs b) && distinct xs)
distinct-place_eq b [] = refl
distinct-place_eq b (x ∷ xs) = ground (arith, distinct-place_eq b xs, contains-place b xs x)

distinct-sort_eq : (xs : List ℕ) → distinct (sort xs) ≡ distinct xs
distinct-sort_eq [] = refl
distinct-sort_eq (x ∷ xs) =
    distinct-place_eq x (sort xs) ∙ ground (arith, distinct-sort_eq xs, contains-sort xs x)

-- Sorting and looking for equal neighbours finds a duplicate exactly where some value stands twice.
pub has_duplicates-distinct : (xs : List ℕ) → has_duplicates xs ≡ not (distinct xs)
unfolding has_duplicates
has_duplicates-distinct xs =
    adjacent_equal-sorted (sort xs) (sort-IsSorted xs) ∙ ap not (distinct-sort_eq xs)
