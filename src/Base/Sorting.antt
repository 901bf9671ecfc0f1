-- ===== src/Base/Sorting.antt =====
-- `std::sort` on identifiers, and `std::set` as the ascending list of its values.
use Prim.Native.Nat.{ℕ, ◌≤◌, ◌<◌}
use mathlib.Core.Path.{◌≡◌, refl}
use mathlib.Core.Bool.{true, false, ◌||◌}
use mathlib.Core.List.{List, [], ◌∷◌}
use native.Mathlib.Omega.{arith}
use openvehicleframework.Base.Tests.{leb, ltb, ◌==◌, if◌then◌else◌}
use openvehicleframework.Base.Lists.{contains, distinct}

abbrev pub place : ℕ → List ℕ → List ℕ
place a [] = a ∷ []
place a (x ∷ xs) = if leb a x then a ∷ x ∷ xs else x ∷ place a xs

-- The ascending arrangement, which is the only one.
abbrev pub sort : List ℕ → List ℕ
sort [] = []
sort (x ∷ xs) = place x (sort xs)

-- `std::set::insert`.
abbrev pub set_insert : ℕ → List ℕ → List ℕ
set_insert a [] = a ∷ []
set_insert a (x ∷ xs) =
    let rest = set_insert a xs in
    if a == x then x ∷ xs else if ltb a x then a ∷ x ∷ xs else x ∷ rest

abbrev pub set_insert_all : List ℕ → List ℕ → List ℕ
set_insert_all [] xs = xs
set_insert_all (b ∷ bs) xs = set_insert_all bs (set_insert b xs)

-- Every value is at least `a`.
abbrev pub AtLeast : ℕ → List ℕ → Type 0
AtLeast a [] = Unit {0}
AtLeast a (x ∷ xs) = (a ≤ x) × AtLeast a xs

abbrev pub IsSorted : List ℕ → Type 0
IsSorted [] = Unit {0}
IsSorted (x ∷ xs) = AtLeast x xs × IsSorted xs

pub contains-place :
    (b : ℕ) (xs : List ℕ) (a : ℕ) → contains (place b xs) a ≡ ((b == a) || contains xs a)
contains-place b [] a = refl
contains-place b (x ∷ xs) a = ground (arith, contains-place b xs a)

pub contains-sort : (xs : List ℕ) (a : ℕ) → contains (sort xs) a ≡ contains xs a
contains-sort [] a = refl
contains-sort (x ∷ xs) a = ground (arith, contains-place x (sort xs) a, contains-sort xs a)

pub contains-set_insert :
    (b : ℕ) (xs : List ℕ) (a : ℕ) → contains (set_insert b xs) a ≡ ((b == a) || contains xs a)
contains-set_insert b [] a = refl
contains-set_insert b (x ∷ xs) a = ground (arith, contains-set_insert b xs a)

pub contains-set_insert_all :
    (bs xs : List ℕ) (a : ℕ) → contains (set_insert_all bs xs) a ≡ (contains bs a || contains xs a)
contains-set_insert_all [] xs a = refl
contains-set_insert_all (b ∷ bs) xs a =
    ground (arith, contains-set_insert_all bs (set_insert b xs) a, contains-set_insert b xs a)

AtLeast-place : (c b : ℕ) (xs : List ℕ) → c ≤ b → AtLeast c xs → AtLeast c (place b xs)
AtLeast-place c b [] h k = (h, tt)
AtLeast-place c b (x ∷ xs) h k = ground (arith, AtLeast-place c b xs)

AtLeast-mono : (c b : ℕ) (xs : List ℕ) → c ≤ b → AtLeast b xs → AtLeast c xs
AtLeast-mono c b [] h k = tt
AtLeast-mono c b (x ∷ xs) h k = (omega arith, AtLeast-mono c b xs h k.1)

pub place-IsSorted : (b : ℕ) (xs : List ℕ) → IsSorted xs → IsSorted (place b xs)
place-IsSorted b [] s = (tt, tt)
place-IsSorted b (x ∷ xs) s =
    ground (arith, place-IsSorted b xs, AtLeast-place x b xs, AtLeast-mono b x xs)

pub sort-IsSorted : (xs : List ℕ) → IsSorted (sort xs)
sort-IsSorted [] = tt
sort-IsSorted (x ∷ xs) = place-IsSorted x (sort xs) (sort-IsSorted xs)

-- Values that ascend strictly: what a `std::set` holds.
abbrev pub Above : ℕ → List ℕ → Type 0
Above a [] = Unit {0}
Above a (x ∷ xs) = (a < x) × Above a xs

abbrev pub IsAscending : List ℕ → Type 0
IsAscending [] = Unit {0}
IsAscending (x ∷ xs) = Above x xs × IsAscending xs

Above-set_insert : (c b : ℕ) (xs : List ℕ) → c < b → Above c xs → Above c (set_insert b xs)
Above-set_insert c b [] h k = (h, tt)
Above-set_insert c b (x ∷ xs) h k = ground (arith, Above-set_insert c b xs)

Above-mono : (c b : ℕ) (xs : List ℕ) → c < b → Above b xs → Above c xs
Above-mono c b [] h k = tt
Above-mono c b (x ∷ xs) h k = (omega arith, Above-mono c b xs h k.1)

pub set_insert-IsAscending : (b : ℕ) (xs : List ℕ) → IsAscending xs → IsAscending (set_insert b xs)
set_insert-IsAscending b [] s = (tt, tt)
set_insert-IsAscending b (x ∷ xs) s =
    ground (arith, set_insert-IsAscending b xs, Above-set_insert x b xs, Above-mono b x xs)

not-contains-Above : (c a : ℕ) (xs : List ℕ) → a ≤ c → Above c xs → contains xs a ≡ false
not-contains-Above c a [] h k = refl
not-contains-Above c a (x ∷ xs) h k = ground (arith, not-contains-Above c a xs)

pub IsAscending-distinct : (xs : List ℕ) → IsAscending xs → distinct xs ≡ true
IsAscending-distinct [] s = refl
IsAscending-distinct (x ∷ xs) s = ground (arith, not-contains-Above x x xs, IsAscending-distinct xs)

pub distinct-place :
    (b : ℕ) (xs : List ℕ)
    → distinct xs ≡ true
    → contains xs b ≡ false
    → distinct (place b xs) ≡ true
distinct-place b [] d c = refl
distinct-place b (x ∷ xs) d c = ground (arith, distinct-place b xs, contains-place b xs x)

pub distinct-sort : (xs : List ℕ) → distinct xs ≡ true → distinct (sort xs) ≡ true
distinct-sort [] d = refl
distinct-sort (x ∷ xs) d =
    ground (arith, distinct-sort xs, distinct-place x (sort xs), contains-sort xs x)
