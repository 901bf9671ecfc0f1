-- ===== src/Base/Totals.antt =====
-- Sums over the values of a table, and the keys of a changed table.
use Prim.Native.Nat.{ℕ, suc, ◌+◌, ◌≤◌}
use mathlib.Core.Path.{◌≡◌, refl}
use mathlib.Core.Bool.{true}
use mathlib.Core.Option.{none, some}
use mathlib.Core.List.{[], ◌∷◌}
use native.Mathlib.Omega.{arith}
use openvehicleframework.Base.Tests.{if◌then◌else◌}
use openvehicleframework.Base.Lists.{distinct, length}
use openvehicleframework.Base.Tables.{
  Table, find, keys, has_key, assign, emplace, remove, contains-keys, find-remove, find-assign,
  find-emplace,
}

module _ {ℓ} {V : Type ℓ} where
  -- The sum of a number for each value.
  unfoldable pub total : (V → ℕ) → Table V → ℕ
  total f [] = 0
  total f ((k, v) ∷ t) = f v + total f t

  pub total_empty : (f : V → ℕ) → total f [] ≡ 0
  unfolding total
  total_empty f = refl

  pub total_cons :
      (f : V → ℕ) (k : ℕ) (v : V) (t : Table V) → total f ((k, v) ∷ t) ≡ f v + total f t
  unfolding total
  total_cons f k v t = refl

  pub find-le-total :
      (f : V → ℕ) (k : ℕ) (t : Table V) (v : V) → find k t ≡ some v → f v ≤ total f t
  unfolding total
  find-le-total f k [] v e = cc
  find-le-total f k ((j, w) ∷ t) v e = ground (arith, find-le-total f k t v)

  pub total-emplace :
      (f : V → ℕ) (k : ℕ) (v : V) (t : Table V)
      → total f (emplace k v t) ≡ (if has_key k t then total f t else f v + total f t)
  unfolding total
  total-emplace f k v [] = refl
  total-emplace f k v ((j, w) ∷ t) = ground (arith, total-emplace f k v t)

  pub total-assign :
      (f : V → ℕ) (k : ℕ) (v w : V) (t : Table V)
      → find k t ≡ some w
      → total f (assign k v t) + f w ≡ total f t + f v
  unfolding total
  total-assign f k v w [] e = cc
  total-assign f k v w ((j, u) ∷ t) e = ground (arith, total-assign f k v w t)

  total-remove_missing :
      (f : V → ℕ) (k : ℕ) (t : Table V) → find k t ≡ none → total f (remove k t) ≡ total f t
  unfolding total
  total-remove_missing f k [] e = refl
  total-remove_missing f k ((j, u) ∷ t) e = ground (arith, total-remove_missing f k t)

  pub total-remove :
      (f : V → ℕ) (k : ℕ) (w : V) (t : Table V)
      → distinct (keys t) ≡ true
      → find k t ≡ some w
      → total f (remove k t) + f w ≡ total f t
  unfolding total
  total-remove f k w [] d e = cc
  total-remove f k w ((j, u) ∷ t) d e =
      ground (arith, total-remove f k w t, total-remove_missing f k t, contains-keys j t)

  pub distinct-keys-assign :
      (k : ℕ) (v : V) (t : Table V)
      → distinct (keys t) ≡ true
      → distinct (keys (assign k v t)) ≡ true
  distinct-keys-assign k v [] d = refl
  distinct-keys-assign k v ((j, u) ∷ t) d = ground (
    arith,
    distinct-keys-assign k v t,
    contains-keys j t,
    contains-keys j (assign k v t),
    find-assign k j v t,
  )

  pub distinct-keys-emplace :
      (k : ℕ) (v : V) (t : Table V)
      → distinct (keys t) ≡ true
      → distinct (keys (emplace k v t)) ≡ true
  distinct-keys-emplace k v [] d = refl
  distinct-keys-emplace k v ((j, u) ∷ t) d = ground (
    arith,
    distinct-keys-emplace k v t,
    contains-keys j t,
    contains-keys j (emplace k v t),
    find-emplace k j v t,
  )

  pub distinct-keys-remove :
      (k : ℕ) (t : Table V) → distinct (keys t) ≡ true → distinct (keys (remove k t)) ≡ true
  distinct-keys-remove k [] d = refl
  distinct-keys-remove k ((j, u) ∷ t) d = ground (
    arith,
    distinct-keys-remove k t,
    contains-keys j t,
    contains-keys j (remove k t),
    find-remove k j t,
  )

  pub length-assign :
      (k : ℕ) (v : V) (t : Table V)
      → length (assign k v t) ≡ (if has_key k t then length t else suc (length t))
  length-assign k v [] = refl
  length-assign k v ((j, u) ∷ t) = ground (arith, length-assign k v t)

  pub length-emplace :
      (k : ℕ) (v : V) (t : Table V)
      → length (emplace k v t) ≡ (if has_key k t then length t else suc (length t))
  length-emplace k v [] = refl
  length-emplace k v ((j, u) ∷ t) = ground (arith, length-emplace k v t)

  pub length-remove : (k : ℕ) (t : Table V) → length (remove k t) ≤ length t
  length-remove k [] = omega arith
  length-remove k ((j, u) ∷ t) = ground (arith, length-remove k t)
