-- ===== src/Per/Memory/Writers/Recovery.antt =====
-- per/backends/memory.cpp: resets, migrations, rollbacks and cursors keep the flags right.
use openvehicleframework.Base.{
  true, is_empty, assign, if-cases, ℕ, ltb, ◌<◌, ◌^◌, suc, length, ◌||◌, Option, List, [], Table,
  find, has_key, arith, ◌≡◌, refl, Option-cases, inl, inr,
}
use openvehicleframework.Per.Bytes.{size_of, Values}
use openvehicleframework.Per.Types.{Reply, CommitResult, copy, Durability, View, Entry}
use openvehicleframework.Per.Memory.{
  Cursor, Backend, StoreData, MigrationOperation, store_at, set_store, StoreHandle,
}
use openvehicleframework.Per.Memory.Lifecycle.{start}
use openvehicleframework.Per.Memory.Transactions.{count_rejected, open_transaction}
use openvehicleframework.Per.Memory.Blobs.{}
use openvehicleframework.Per.Memory.Cursors.{
  prefixed, open_cursor, next_cursor, close_cursor, add_cursor,
}
use openvehicleframework.Per.Memory.Recovery.{collect, reset_store, reset_on, reset_to}
use openvehicleframework.Per.Memory.Migration.{}
use openvehicleframework.Per.Memory.Writers.{writers, IsConsistent, set_store-IsConsistent}
use openvehicleframework.Per.Memory.Writers.Stores.{next-IsConsistent}

pub start-IsConsistent : (b : Backend) → IsConsistent b → IsConsistent (start b).1
unfolding start writers store_at
start-IsConsistent b i = record {
  transactions_distinct = i.transactions_distinct;
  blobs_distinct = i.blobs_distinct;
  transactions_fresh = i.transactions_fresh;
  blobs_fresh = i.blobs_fresh;
  handles = i.handles;
  named = i.named;
  unallocated = i.unallocated;
  single = i.single;
}

-- The tables of the cursors and of the migrations do not count.
pub aside-IsConsistent :
    (b : Backend) (cursors : Table Cursor) (migrations : Table MigrationOperation)
    → IsConsistent b
    → IsConsistent (record b { cursors = cursors; migrations = migrations })
unfolding writers store_at
aside-IsConsistent b cursors migrations i = record {
  transactions_distinct = i.transactions_distinct;
  blobs_distinct = i.blobs_distinct;
  transactions_fresh = i.transactions_fresh;
  blobs_fresh = i.blobs_fresh;
  handles = i.handles;
  named = i.named;
  unallocated = i.unallocated;
  single = i.single;
}

pub open_cursor-cases :
    (P : Backend → Type 0) (h : ℕ) (p : View) (b : Backend)
    → P b
    → ((vs : Values) → P (add_cursor vs b).1)
    → P (open_cursor h p b).1
unfolding open_cursor
open_cursor-cases P h p b q r = elim (Option-cases (open_transaction h b)) [
  | inl e ↦ ground arith
  | inr (t, e) ↦ ground (arith, r (prefixed (copy p) t.values))
]

pub open_cursor-IsConsistent :
    (h : ℕ) (p : View) (b : Backend)
    → suc b.next_handle < 2 ^ 64
    → IsConsistent b
    → IsConsistent (open_cursor h p b).1
unfolding add_cursor
open_cursor-IsConsistent h p b l i =
    open_cursor-cases IsConsistent h p b i
      λ vs. next-IsConsistent b b.store_handles _ b.migrations l i.handles i

pub next_cursor-cases :
    (P : Backend → Type 0) (h : ℕ) (k v : Option ℕ) (b : Backend)
    → P b
    → ((cs : Table Cursor) → P (record b { cursors = cs }))
    → P (next_cursor h k v b).1
unfolding next_cursor
next_cursor-cases P h k v b p q = elim (Option-cases (find h b.cursors)) [
  | inl e ↦ rw (e, next_cursor) p
  | inr (c, e) ↦ ground (arith, q (assign h (record c { position = suc c.position }) b.cursors))
]

pub next_cursor-IsConsistent :
    (h : ℕ) (k v : Option ℕ) (b : Backend) → IsConsistent b → IsConsistent (next_cursor h k v b).1
next_cursor-IsConsistent h k v b i =
    next_cursor-cases IsConsistent h k v b i λ cs. aside-IsConsistent b cs b.migrations i

pub close_cursor-IsConsistent :
    (h : ℕ) (b : Backend) → IsConsistent b → IsConsistent (close_cursor h b).1
unfolding close_cursor
close_cursor-IsConsistent h b i =
    if-cases (λ (r : Reply (Unit {0}) × Backend). IsConsistent r.1) (has_key h b.cursors)
      (λ c. aside-IsConsistent b _ b.migrations i) (λ c. i)

-- A change of a store that leaves its flag alone.
abbrev pub Sets : (Backend → Type 0) → Backend → Type 0
Sets P b =
    (a : ℕ) (s : StoreData) → s.writer_active ≡ (store_at a b).writer_active → P (set_store a s b)

pub Sets-IsConsistent : (b : Backend) → IsConsistent b → Sets IsConsistent b
Sets-IsConsistent b i a s e = set_store-IsConsistent a s b e i

pub reset_to-cases :
    (P : Backend → Type 0) (a : ℕ) (vs : Values) (d : Durability) (b : Backend)
    → Sets P b
    → P (reset_to a vs d b).1
unfolding reset_to count_rejected
reset_to-cases P a vs d b q =
    if-cases (λ (r : Reply CommitResult × Backend). P r.1)
      (ltb (store_at a b).max_entries (length vs) || ltb (store_at a b).capacity (size_of vs))
      (λ c. q a _ refl) (λ c. q a _ refl)

pub reset_on-cases :
    (P : Backend → Type 0) (h : StoreHandle) (es : List Entry) (d : Durability) (b : Backend)
    → P b
    → P (count_rejected h.store b)
    → ((vs : Values)
        → is_empty (store_at h.store b).migration_id ≡ true
        → P (reset_to h.store vs d b).1)
    → P (reset_on h es d b).1
unfolding reset_on
reset_on-cases P h es d b p q r = elim (Option-cases (collect (store_at h.store b) es [])) [
  | inl e ↦ ground arith
  | inr (vs, e) ↦ ground (arith, r vs)
]

pub reset_store-IsConsistent :
    (h : ℕ) (es : List Entry) (d : Durability) (b : Backend)
    → IsConsistent b
    → IsConsistent (reset_store h es d b).1
unfolding reset_store count_rejected
reset_store-IsConsistent h es d b i = elim (Option-cases (find h b.store_handles)) [
  | inl e ↦ rw (e, reset_store) i
  | inr (s, e) ↦
      rw (e, reset_store)
        (reset_on-cases IsConsistent s es d b i (set_store-IsConsistent _ _ b refl i)
          λ vs none_pending. reset_to-cases IsConsistent s.store vs d b (Sets-IsConsistent b i))
]
