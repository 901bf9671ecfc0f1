-- ===== src/Per/Bytes/Order.antt =====
-- The order of byte strings, and maps whose keys ascend.
use openvehicleframework.Base.{
  Bool, true, false, ◌&&◌, some, none, [], ◌∷◌, arith, ◌≡◌, refl, if◌then◌else◌, ◌↔◌, length, ◌≤◌,
}
use openvehicleframework.Per.Bytes.{
  Bytes, bytes_less, bytes_equal, Values, value_at, put_value, erase_value,
}

pub bytes_less_irrefl : (xs : Bytes) → bytes_less xs xs ≡ false
bytes_less_irrefl [] = refl
bytes_less_irrefl (x ∷ xs) = ground (arith, bytes_less_irrefl xs)

pub bytes_less_trans :
    (xs ys zs : Bytes) → bytes_less xs ys ≡ true → bytes_less ys zs ≡ true → bytes_less xs zs ≡ true
bytes_less_trans xs ys [] p q = ground arith
bytes_less_trans xs [] (z ∷ zs) p q = ground arith
bytes_less_trans [] (y ∷ ys) (z ∷ zs) p q = refl
bytes_less_trans (x ∷ xs) (y ∷ ys) (z ∷ zs) p q = ground (arith, bytes_less_trans xs ys zs)

pub bytes_less_total :
    (xs ys : Bytes) → bytes_less xs ys ≡ false → bytes_less ys xs ≡ false → xs ≡ ys
bytes_less_total [] [] p q = refl
bytes_less_total [] (y ∷ ys) p q = ground arith
bytes_less_total (x ∷ xs) [] p q = ground arith
bytes_less_total (x ∷ xs) (y ∷ ys) p q = ground (arith, bytes_less_total xs ys)

pub bytes_equal_iff : (xs ys : Bytes) → (bytes_equal xs ys ≡ true) ↔ (xs ≡ ys)
bytes_equal_iff [] [] = ground arith
bytes_equal_iff [] (y ∷ ys) = ground arith
bytes_equal_iff (x ∷ xs) [] = ground arith
bytes_equal_iff (x ∷ xs) (y ∷ ys) = ground (arith, bytes_equal_iff xs ys)

-- Every key comes after this one.
abbrev pub all_above : Bytes → Values → Bool
all_above k [] = true
all_above k ((j, w) ∷ t) = bytes_less k j && all_above k t

-- The keys ascend.
abbrev pub ascend : Values → Bool
ascend [] = true
ascend ((j, w) ∷ t) = all_above j t && ascend t

pub all_above-put_value :
    (i k v : Bytes) (t : Values)
    → bytes_less i k ≡ true
    → all_above i t ≡ true
    → all_above i (put_value k v t) ≡ true
unfolding put_value
all_above-put_value i k v [] l a = ground arith
all_above-put_value i k v ((j, w) ∷ t) l a = ground (arith, all_above-put_value i k v t)

all_above_trans :
    (i k : Bytes) (t : Values) → bytes_less i k ≡ true → all_above k t ≡ true → all_above i t ≡ true
all_above_trans i k [] l a = refl
all_above_trans i k ((j, w) ∷ t) l a = ground (arith, all_above_trans i k t, bytes_less_trans i k j)

pub ascend-put_value :
    (k v : Bytes) (t : Values) → ascend t ≡ true → ascend (put_value k v t) ≡ true
unfolding put_value
ascend-put_value k v [] a = refl
ascend-put_value k v ((j, w) ∷ t) a = ground (
  arith,
  ascend-put_value k v t,
  all_above-put_value j k v t,
  all_above_trans k j t,
  bytes_less_total j k,
)

all_above-erase_value :
    (i k : Bytes) (t : Values) → all_above i t ≡ true → all_above i (erase_value k t) ≡ true
unfolding erase_value
all_above-erase_value i k [] a = refl
all_above-erase_value i k ((j, w) ∷ t) a = ground (arith, all_above-erase_value i k t)

pub ascend-erase_value :
    (k : Bytes) (t : Values) → ascend t ≡ true → ascend (erase_value k t) ≡ true
unfolding erase_value
ascend-erase_value k [] a = refl
ascend-erase_value k ((j, w) ∷ t) a =
    ground (arith, ascend-erase_value k t, all_above-erase_value j k t)

value_at_above : (k : Bytes) (t : Values) → all_above k t ≡ true → value_at k t ≡ none
unfolding value_at
value_at_above k [] a = refl
value_at_above k ((j, w) ∷ t) a = ground (arith, bytes_less_trans k j k, bytes_less_irrefl k)

pub value_at-put_value :
    (k v i : Bytes) (t : Values)
    → ascend t ≡ true
    → value_at i (put_value k v t) ≡ (if bytes_equal k i then some v else value_at i t)
unfolding value_at put_value
value_at-put_value k v i [] a =
    ground (arith, bytes_less_total k i, bytes_equal_iff k i, bytes_less_irrefl k)
value_at-put_value k v i ((j, w) ∷ t) a = ground (
  arith,
  value_at-put_value k v i t,
  bytes_less_total j k,
  bytes_less_total j i,
  bytes_less_total k i,
  bytes_equal_iff k i,
  bytes_less_irrefl i,
  bytes_less_irrefl j,
  bytes_less_irrefl k,
  bytes_less_trans i k j,
  bytes_less_trans i j i,
)

pub value_at-erase_value :
    (k i : Bytes) (t : Values)
    → ascend t ≡ true
    → value_at i (erase_value k t) ≡ (if bytes_equal k i then none else value_at i t)
unfolding value_at erase_value
value_at-erase_value k i [] a = ground arith
value_at-erase_value k i ((j, w) ∷ t) a = ground (
  arith,
  value_at-erase_value k i t,
  bytes_less_total j k,
  bytes_less_total j i,
  bytes_less_total k i,
  bytes_equal_iff k i,
  bytes_less_irrefl i,
  bytes_less_irrefl j,
  bytes_less_irrefl k,
  bytes_less_trans i k j,
  bytes_less_trans i j i,
  bytes_less_trans i j k,
  value_at_above i t,
  all_above_trans i j t,
)

pub length-erase_value : (k : Bytes) (t : Values) → length (erase_value k t) ≤ length t
unfolding erase_value
length-erase_value k [] = omega arith
length-erase_value k ((j, w) ∷ t) = ground (arith, length-erase_value k t)
