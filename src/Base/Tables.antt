-- ===== src/Base/Tables.antt =====
-- Maps from identifiers as association lists. A key stands at most once; the list's order is one
-- of the orders in which an `unordered_map` may be walked.
use Prim.Native.Nat.{ℕ}
use mathlib.Core.Path.{◌≡◌, refl}
use mathlib.Core.Bool.{Bool, true, false}
use mathlib.Core.Option.{Option, none, some}
use mathlib.Core.List.{List, [], ◌∷◌}
use native.Mathlib.Omega.{arith}
use openvehicleframework.Base.Tests.{◌==◌, if◌then◌else◌}
use openvehicleframework.Base.Lists.{contains}

abbrev pub Table {ℓ} : Type ℓ → Type ℓ
Table V = List (ℕ × V)

module _ {ℓ} {V : Type ℓ} where
  -- `find`.
  abbrev pub find : ℕ → Table V → Option V
  find k [] = none
  find k ((j, v) ∷ t) = if j == k then some v else find k t

  abbrev pub keys : Table V → List ℕ
  keys [] = []
  keys ((j, v) ∷ t) = j ∷ keys t

  abbrev pub is_some : Option V → Bool
  is_some none = false
  is_some (some v) = true

  -- `contains`.
  abbrev pub has_key : ℕ → Table V → Bool
  has_key k t = is_some (find k t)

  -- `operator[]=`: overwrites, or adds the key.
  abbrev pub assign : ℕ → V → Table V → Table V
  assign k v [] = (k, v) ∷ []
  assign k v ((j, w) ∷ t) = if j == k then (j, v) ∷ t else (j, w) ∷ assign k v t

  -- `emplace`: does nothing where the key is there.
  abbrev pub emplace : ℕ → V → Table V → Table V
  emplace k v [] = (k, v) ∷ []
  emplace k v ((j, w) ∷ t) = if j == k then (j, w) ∷ t else (j, w) ∷ emplace k v t

  -- `erase` of a key.
  abbrev pub remove : ℕ → Table V → Table V
  remove k [] = []
  remove k ((j, w) ∷ t) = let rest = remove k t in if j == k then rest else (j, w) ∷ rest

  pub find-assign :
      (k j : ℕ) (v : V) (t : Table V)
      → find j (assign k v t) ≡ (if k == j then some v else find j t)
  find-assign k j v [] = refl
  find-assign k j v ((i, w) ∷ t) = ground (arith, find-assign k j v t)

  pub find-emplace :
      (k j : ℕ) (v : V) (t : Table V)
      → find j (emplace k v t)
        ≡ (if k == j then (if has_key k t then find k t else some v) else find j t)
  find-emplace k j v [] = ground arith
  find-emplace k j v ((i, w) ∷ t) = ground (arith, find-emplace k j v t)

  pub find-remove :
      (k j : ℕ) (t : Table V) → find j (remove k t) ≡ (if k == j then none else find j t)
  find-remove k j [] = ground arith
  find-remove k j ((i, w) ∷ t) = ground (arith, find-remove k j t)

  pub contains-keys : (k : ℕ) (t : Table V) → contains (keys t) k ≡ has_key k t
  contains-keys k [] = refl
  contains-keys k ((i, w) ∷ t) = ground (arith, contains-keys k t)
