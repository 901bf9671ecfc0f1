-- ===== src/Per/Bytes.antt =====
-- Byte strings in the order of `std::vector`, and `std::map` from byte strings as a list of entries
-- in that order (per/backends/memory.cpp: `Bytes`, `Values`, `Size`).
pub mod Order
pub mod Pieces
use openvehicleframework.Base.{
  ℕ, zero, suc, ◌+◌, Bool, true, false, not, ◌&&◌, ◌||◌, Option, some, none, List, [], ◌∷◌, ◌==◌,
  ltb, if◌then◌else◌, length,
}

abbrev pub Bytes : Type 0
Bytes = List ℕ

-- `operator<` of vectors.
abbrev pub bytes_less : Bytes → Bytes → Bool
bytes_less xs [] = false
bytes_less [] (y ∷ ys) = true
bytes_less (x ∷ xs) (y ∷ ys) = ltb x y || ((x == y) && bytes_less xs ys)

-- `operator==`.
abbrev pub bytes_equal : Bytes → Bytes → Bool
bytes_equal [] [] = true
bytes_equal [] (y ∷ ys) = false
bytes_equal (x ∷ xs) [] = false
bytes_equal (x ∷ xs) (y ∷ ys) = (x == y) && bytes_equal xs ys

abbrev pub Values : Type 0
Values = List (Bytes × Bytes)

-- `find`.
unfoldable pub value_at : Bytes → Values → Option Bytes
value_at k [] = none
value_at k ((j, w) ∷ t) =
    let rest = value_at k t in
    if bytes_less j k then rest else if bytes_less k j then none else some w

-- `values[key] = value`.
unfoldable pub put_value : Bytes → Bytes → Values → Values
put_value k v [] = (k, v) ∷ []
put_value k v ((j, w) ∷ t) =
    let rest = put_value k v t in
    if bytes_less j k
    then (j, w) ∷ rest
    else if bytes_less k j
    then (k, v) ∷ (j, w) ∷ t
    else (j, v) ∷ t

-- `erase` of a key.
unfoldable pub erase_value : Bytes → Values → Values
erase_value k [] = []
erase_value k ((j, w) ∷ t) =
    let rest = erase_value k t in
    if bytes_less j k then (j, w) ∷ rest else if bytes_less k j then (j, w) ∷ t else t

-- `Size`.
unfoldable pub size_of : Values → ℕ
size_of [] = 0
size_of ((k, v) ∷ t) = (length k + length v) + size_of t

-- `lower_bound`: the entries from the first one on whose key is not less.
unfoldable pub lower_bound : Bytes → Values → Values
lower_bound k [] = []
lower_bound k ((j, w) ∷ t) =
    let rest = lower_bound k t in if bytes_less j k then rest else (j, w) ∷ t

-- `std::equal` of a prefix and the start of a key that is no shorter.
abbrev pub starts_with : Bytes → Bytes → Bool
starts_with [] ys = true
starts_with (x ∷ xs) [] = false
starts_with (x ∷ xs) (y ∷ ys) = (x == y) && starts_with xs ys

-- The first bytes, and the others.
abbrev pub take : ℕ → Bytes → Bytes
take zero xs = []
take (suc n) [] = []
take (suc n) (x ∷ xs) = x ∷ take n xs

abbrev pub drop : ℕ → Bytes → Bytes
drop zero xs = xs
drop (suc n) [] = []
drop (suc n) (x ∷ xs) = drop n xs

-- `Bytes(size)`.
abbrev pub zeros : ℕ → Bytes
zeros zero = []
zeros (suc n) = 0 ∷ zeros n
