-- ===== src/Per/Memory/Writers.antt =====
-- per/backends/memory.cpp: the writers of a store, and what ties them to its flag
-- `writer_active`.
pub mod Changes
pub mod BlobChanges
pub mod Transactions
pub mod Blobs
pub mod Stops
pub mod Stores
pub mod Handles
pub mod Recovery
pub mod Migration
pub mod Calls
use openvehicleframework.Base.{
  ℕ, ◌+◌, ◌≤◌, ◌<◌, ◌^◌, suc, ap, length, total, total_empty, total-assign, total-emplace,
  total-remove, find-le-total, distinct-keys-assign, distinct-keys-emplace, distinct-keys-remove,
  distinct, keys, Bool, true, false, not, ◌&&◌, ◌||◌, Option, some, none, List, [], ◌∷◌, Table,
  find, find-assign, find-emplace, find-remove, has_key, all_of, arith, ◌≡◌, refl, sym, ◌∙◌,
  Bool-cases, Option-cases, if◌then◌else◌, ◌==◌, ==_iff, inl, inr,
}
use openvehicleframework.Per.Types.{Durability, View, StoreDescriptor, Entry, MigrationDescriptor}
use openvehicleframework.Per.Memory.{
  Backend, StoreData, incremented, BlobOperation, MigrationOperation, Transaction, store_at,
  set_store, end_writer, StoreHandle,
}
use openvehicleframework.Per.Memory.Lifecycle.{
  start, stop, open_store, close_store, open_at, add_store, end_migration,
}
use openvehicleframework.Per.Memory.Transactions.{
  begin, get, begin_at, begin_on, count_rejected, put, put_in, erase, commit, commit_of, abort,
  close_transaction, open_writer, open_transaction, set_values, finish, leave,
}
use openvehicleframework.Per.Memory.Blobs.{
  open_blob_read, begin_blob_replace, write_blob, commit_blob, abort_blob, close_blob, add_blob,
  replace_at, replace_on, finish_blob, commit_blob_of, leave_blob,
}
use openvehicleframework.Per.Memory.Cursors.{open_cursor, next_cursor, close_cursor, add_cursor}
use openvehicleframework.Per.Memory.Recovery.{reset_store, reset_on, reset_to, rollback_store}
use openvehicleframework.Per.Memory.Calls.{Call, call, run}
use openvehicleframework.Per.Memory.Migration.{
  begin_migration, migrate_on, migrate_at, apply_migration, apply_at, commit_migration,
  abort_migration, close_migration,
}
use openvehicleframework.Per.Memory.Lifecycle.{address_of}
use openvehicleframework.Per.Bytes.{Bytes}

-- A write transaction, or the replacement of a blob, that is not finished.
unfoldable pub weight : ℕ → Transaction → ℕ
weight a t = if t.write && not t.finished && (t.store == a) then 1 else 0

unfoldable pub weight_of_blob : ℕ → BlobOperation → ℕ
weight_of_blob a o = if o.write && not o.finished && (o.store == a) then 1 else 0

-- How many writers a store has.
unfoldable pub writers : ℕ → Backend → ℕ
unfolding weight weight_of_blob
writers a b = total (weight a) b.transactions + total (weight_of_blob a) b.blobs

-- What the flag of a store says.
abbrev pub flagged : ℕ → Backend → ℕ
flagged a b = if (store_at a b).writer_active then 1 else 0

-- Handles are fresh, and each store's flag tells of its writers.
pub record IsConsistent (b : Backend) : Type 0 where
  pub transactions_distinct : distinct (keys b.transactions) ≡ true
  pub blobs_distinct : distinct (keys b.blobs) ≡ true
  pub transactions_fresh : (h : ℕ) → has_key h b.transactions ≡ true → h < b.next_handle
  pub blobs_fresh : (h : ℕ) → has_key h b.blobs ≡ true → h < b.next_handle
  pub handles :
      (h : ℕ) (s : StoreHandle) → find h b.store_handles ≡ some s → s.store < length b.stores
  pub named : (n : Bytes) (a : ℕ) → address_of n b.stores ≡ some a → a < length b.stores
  pub unallocated : (a : ℕ) → length b.stores ≤ a → flagged a b ≡ 0
  pub single : (a : ℕ) → writers a b ≡ flagged a b

pub incremented-eq : (n : ℕ) → suc n < 2 ^ 64 → incremented n ≡ suc n
unfolding incremented
incremented-eq n l = omega arith

pub store_at-set_store :
    (a j : ℕ) (s : StoreData) (b : Backend)
    → store_at j (set_store a s b) ≡ (if a == j then s else store_at j b)
unfolding store_at set_store
store_at-set_store a j s b = ground (arith, find-assign a j s b.heap)

pub set_store-IsConsistent :
    (a : ℕ) (s : StoreData) (b : Backend)
    → s.writer_active ≡ (store_at a b).writer_active
    → IsConsistent b
    → IsConsistent (set_store a s b)
unfolding set_store writers
set_store-IsConsistent a s b e i = record {
  transactions_distinct = i.transactions_distinct;
  blobs_distinct = i.blobs_distinct;
  transactions_fresh = i.transactions_fresh;
  blobs_fresh = i.blobs_fresh;
  handles = i.handles;
  named = i.named;
  unallocated = λ j l. ground (arith, store_at-set_store a j s b, i.unallocated j l, ==_iff a j);
  single = λ j. ground (arith, store_at-set_store a j s b, i.single j, ==_iff a j);
}
