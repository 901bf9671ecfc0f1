-- ===== src/Per/Memory/Writers/Stores.antt =====
-- per/backends/memory.cpp: opening a store keeps the flags right.
use openvehicleframework.Base.{
  ℕ, ◌<◌, ◌^◌, suc, length, some, Table, find, find-assign, find-emplace, arith, ◌≡◌, Option-cases,
  ==_iff, inl, inr,
}
use openvehicleframework.Per.Types.{Access, copy, StoreDescriptor}
use openvehicleframework.Per.Memory.{
  Cursor, new_store, Backend, incremented, MigrationOperation, store_at, StoreHandle,
}
use openvehicleframework.Per.Memory.Lifecycle.{address_of, open_store, open_at, add_store}
use openvehicleframework.Per.Memory.Blobs.{}
use openvehicleframework.Per.Memory.Migration.{}
use openvehicleframework.Per.Memory.Writers.{writers, IsConsistent, incremented-eq}

-- A call that adds no writer and leaves the heap alone, with the next handle.
pub next-IsConsistent :
    (b : Backend) (handles : Table StoreHandle) (cursors : Table Cursor)
    (migrations : Table MigrationOperation)
    → suc b.next_handle < 2 ^ 64
    → ((k : ℕ) (s : StoreHandle) → find k handles ≡ some s → s.store < length b.stores)
    → IsConsistent b
    → IsConsistent (record b {
      next_handle = incremented b.next_handle;
      store_handles = handles;
      cursors = cursors;
      migrations = migrations;
    })
unfolding writers store_at
next-IsConsistent b handles cursors migrations l f i =
    let inc = incremented-eq b.next_handle l in
    record {
      transactions_distinct = i.transactions_distinct;
      blobs_distinct = i.blobs_distinct;
      transactions_fresh = λ h p. ground (arith, inc, i.transactions_fresh h);
      blobs_fresh = λ h p. ground (arith, inc, i.blobs_fresh h);
      handles = f;
      named = i.named;
      unallocated = i.unallocated;
      single = i.single;
    }

open_at-IsConsistent :
    (a : ℕ) (c : Access) (b : Backend)
    → suc b.next_handle < 2 ^ 64
    → a < length b.stores
    → IsConsistent b
    → IsConsistent (open_at a c b).1
unfolding open_at
open_at-IsConsistent a c b l m i =
    next-IsConsistent b _ b.cursors b.migrations l
      (λ k s p. ground (
        arith,
        i.handles k s,
        find-emplace b.next_handle k (record { store = a; access = c }) b.store_handles,
        i.handles b.next_handle s,
        ==_iff b.next_handle k,
      ))
      i

add_store-IsConsistent :
    (d : StoreDescriptor) (b : Backend) → IsConsistent b → IsConsistent (add_store d b)
unfolding add_store writers store_at address_of
add_store-IsConsistent d b i =
    let n = length b.stores in
    let free = λ (j : ℕ).
      find-assign n j
        (record new_store {
          capacity = d.capacity_bytes;
          max_entries = d.max_entries;
          max_key_size = d.max_key_size;
          max_value_size = d.max_value_size;
          max_blob_size = d.max_blob_size;
          schema_id = copy d.schema_id;
          schema_version = d.schema_version;
        })
        b.heap in
    record {
      transactions_distinct = i.transactions_distinct;
      blobs_distinct = i.blobs_distinct;
      transactions_fresh = i.transactions_fresh;
      blobs_fresh = i.blobs_fresh;
      handles = λ k s p. omega (arith, i.handles k s p);
      named = λ k a p. ground (arith, i.named k a);
      unallocated = λ j l. ground (arith, free j, i.unallocated j);
      single = λ j. ground (arith, free j, i.single j, i.unallocated j);
    }

pub open_store-cases :
    (P : Backend → Type 0) (d : StoreDescriptor) (b : Backend)
    → P b
    → P (open_at (length b.stores) d.access (add_store d b)).1
    → ((a : ℕ) → address_of (copy d.logical_name) b.stores ≡ some a → P (open_at a d.access b).1)
    → P (open_store d b).1
unfolding open_store
open_store-cases P d b p q r = elim (Option-cases (address_of (copy d.logical_name) b.stores)) [
  | inl e ↦ ground arith
  | inr (a, e) ↦ ground (arith, r a e)
]

pub open_store-IsConsistent :
    (d : StoreDescriptor) (b : Backend)
    → suc b.next_handle < 2 ^ 64
    → IsConsistent b
    → IsConsistent (open_store d b).1
unfolding add_store
open_store-IsConsistent d b l i =
    open_store-cases IsConsistent d b i
      (open_at-IsConsistent (length b.stores) d.access (add_store d b) l (omega arith)
        (add_store-IsConsistent d b i))
      λ a e. open_at-IsConsistent a d.access b l (i.named _ a e) i
