-- ===== src/Base/Lists.antt =====
-- Lists of identifiers: membership, filtering, counting, and sets as lists.
use Prim.Native.Nat.{ℕ, zero, suc, ◌+◌, ◌≤◌, ◌<◌}
use mathlib.Core.Path.{◌≡◌, refl, ap, ◌∙◌}
use mathlib.Core.Bool.{Bool, true, false, not, ◌&&◌, ◌||◌}
use mathlib.Core.Option.{Option, none, some}
use mathlib.Core.List.{List, [], ◌∷◌, ◌++◌, reverse, reverse-cons}
use native.Mathlib.Omega.{arith}
use openvehicleframework.Base.Tests.{◌==◌, if◌then◌else◌, ==_iff}

module _ {ℓ} {A : Type ℓ} where
  abbrev pub length : List A → ℕ
  length [] = 0
  length (x ∷ xs) = suc (length xs)

  pub length-append : (xs ys : List A) → length (xs ++ ys) ≡ length xs + length ys
  length-append [] ys = omega arith
  length-append (x ∷ xs) ys = omega (arith, length-append xs ys)

  abbrev pub is_empty : List A → Bool
  is_empty [] = true
  is_empty (x ∷ xs) = false

  abbrev pub get_elem? : List A → ℕ → Option A
  get_elem? [] i = none
  get_elem? (x ∷ xs) zero = some x
  get_elem? (x ∷ xs) (suc i) = get_elem? xs i

  -- `std::all_of`.
  abbrev pub all_of : (A → Bool) → List A → Bool
  all_of p [] = true
  all_of p (x ∷ xs) = p x && all_of p xs

  -- `std::any_of`.
  abbrev pub any_of : (A → Bool) → List A → Bool
  any_of p [] = false
  any_of p (x ∷ xs) = p x || any_of p xs

-- The list holds the identifier.
abbrev pub contains : List ℕ → ℕ → Bool
contains [] a = false
contains (x ∷ xs) a = (x == a) || contains xs a

-- `insert` of an `unordered_set`: a value that is there already changes nothing.
abbrev pub insert : ℕ → List ℕ → List ℕ
insert a xs = if contains xs a then xs else xs ++ a ∷ []

-- A range inserted value by value.
abbrev pub insert_all : List ℕ → List ℕ → List ℕ
insert_all [] xs = xs
insert_all (b ∷ bs) xs = insert_all bs (insert b xs)

-- `erase` of an `unordered_set`, whose values are distinct.
abbrev pub erase : ℕ → List ℕ → List ℕ
erase a [] = []
erase a (x ∷ xs) = let rest = erase a xs in if x == a then rest else x ∷ rest

-- The values that pass a test, in their order.
abbrev pub keep : (ℕ → Bool) → List ℕ → List ℕ
keep p [] = []
keep p (x ∷ xs) = let rest = keep p xs in if p x then x ∷ rest else rest

-- How many values pass a test.
abbrev pub count : (ℕ → Bool) → List ℕ → ℕ
count p [] = 0
count p (x ∷ xs) = let rest = count p xs in if p x then suc rest else rest

-- No value stands twice.
abbrev pub distinct : List ℕ → Bool
distinct [] = true
distinct (x ∷ xs) = not (contains xs x) && distinct xs

pub contains-append :
    (xs ys : List ℕ) (a : ℕ) → contains (xs ++ ys) a ≡ (contains xs a || contains ys a)
contains-append [] ys a = refl
contains-append (x ∷ xs) ys a = ground (arith, contains-append xs ys a)

pub contains-insert :
    (b : ℕ) (xs : List ℕ) (a : ℕ) → contains (insert b xs) a ≡ ((b == a) || contains xs a)
contains-insert b xs a = ground (arith, contains-append xs (b ∷ []) a)

pub contains-insert_all :
    (bs xs : List ℕ) (a : ℕ) → contains (insert_all bs xs) a ≡ (contains bs a || contains xs a)
contains-insert_all [] xs a = refl
contains-insert_all (b ∷ bs) xs a =
    ground (arith, contains-insert_all bs (insert b xs) a, contains-insert b xs a)

pub contains-erase :
    (b : ℕ) (xs : List ℕ) (a : ℕ) → contains (erase b xs) a ≡ (not (b == a) && contains xs a)
contains-erase b [] a = ground arith
contains-erase b (x ∷ xs) a = ground (arith, contains-erase b xs a)

pub contains-keep :
    (p : ℕ → Bool) (xs : List ℕ) (a : ℕ) → contains (keep p xs) a ≡ (p a && contains xs a)
contains-keep p [] a = ground arith
contains-keep p (x ∷ xs) a = ground (arith, contains-keep p xs a, ap p)

pub contains-reverse : (xs : List ℕ) (a : ℕ) → contains (reverse xs) a ≡ contains xs a
contains-reverse [] a = refl
contains-reverse (x ∷ xs) a =
    ap (λ l. contains l a) (reverse-cons x xs)
    ∙ contains-append (reverse xs) (x ∷ []) a
    ∙ ground (arith, contains-reverse xs a)

pub distinct-append_one :
    (xs : List ℕ) (a : ℕ)
    → distinct xs ≡ true
    → contains xs a ≡ false
    → distinct (xs ++ a ∷ []) ≡ true
distinct-append_one [] a d c = refl
distinct-append_one (x ∷ xs) a d c =
    ground (arith, distinct-append_one xs a, contains-append xs (a ∷ []) x)

pub distinct-insert : (a : ℕ) (xs : List ℕ) → distinct xs ≡ true → distinct (insert a xs) ≡ true
distinct-insert a xs d = ground (arith, distinct-append_one xs a)

pub distinct-insert_all : (bs xs : List ℕ) → distinct xs ≡ true → distinct (insert_all bs xs) ≡ true
distinct-insert_all [] xs d = d
distinct-insert_all (b ∷ bs) xs d = distinct-insert_all bs (insert b xs) (distinct-insert b xs d)

pub distinct-keep : (p : ℕ → Bool) (xs : List ℕ) → distinct xs ≡ true → distinct (keep p xs) ≡ true
distinct-keep p [] d = refl
distinct-keep p (x ∷ xs) d = ground (arith, distinct-keep p xs, contains-keep p xs x)

pub distinct-erase : (a : ℕ) (xs : List ℕ) → distinct xs ≡ true → distinct (erase a xs) ≡ true
distinct-erase a [] d = refl
distinct-erase a (x ∷ xs) d = ground (arith, distinct-erase a xs, contains-erase a xs x)

pub count-le-length : (p : ℕ → Bool) (xs : List ℕ) → count p xs ≤ length xs
count-le-length p [] = omega arith
count-le-length p (x ∷ xs) = ground (arith, count-le-length p xs)

pub count_mono :
    (p q : ℕ → Bool) (xs : List ℕ) → ((x : ℕ) → q x ≡ true → p x ≡ true) → count q xs ≤ count p xs
count_mono p q [] h = omega arith
count_mono p q (x ∷ xs) h = ground (arith, h x, count_mono p q xs h)

pub count_strict :
    (p q : ℕ → Bool) (u : ℕ) (xs : List ℕ)
    → ((x : ℕ) → q x ≡ true → p x ≡ true)
    → contains xs u ≡ true
    → p u ≡ true
    → q u ≡ false
    → count q xs < count p xs
count_strict p q u [] h c pu qu = cc
count_strict p q u (x ∷ xs) h c pu qu =
    ground (arith, h x, count_mono p q xs h, count_strict p q u xs h, ==_iff x u, ap p, ap q)
