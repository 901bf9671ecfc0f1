-- ===== src/Per/Memory/Stuck.antt =====
-- per/backends/memory.cpp: a store that can no longer change.
pub mod Transactions
pub mod Blobs
pub mod Recovery
pub mod Calls
pub mod Rollback
use openvehicleframework.Base.{
  ℕ, ◌+◌, ◌≤◌, ◌<◌, ◌^◌, suc, subst, is_empty, length, total, find-le-total, if-cases, assign,
  emplace, remove, Bool, true, false, not, ◌&&◌, ◌||◌, Option, some, none, List, [], ◌∷◌, Table,
  find, find-assign, find-emplace, find-remove, has_key, all_of, arith, ◌≡◌, refl, sym, ◌∙◌,
  Bool-cases, Option-cases, if◌then◌else◌, ◌==◌, ==_iff, inl, inr,
}
use openvehicleframework.Per.Bytes.{Bytes, Values, put_value}
use openvehicleframework.Per.Types.{
  is_valid_view, size_of_view, copy, Reply, done, CommitResult, MigrationStatus, Access,
  is_read_write, Durability, View, StoreDescriptor, Entry, MigrationDescriptor,
}
use openvehicleframework.Per.Memory.{
  new_store, StoreData, BlobOperation, MigrationOperation, Cursor, incremented, Backend,
  Transaction, store_at, set_store, end_writer, StoreHandle,
}
use openvehicleframework.Per.Memory.Lifecycle.{
  create, address_of, stop_transactions, stop_blobs, stop_migrations, start, stop, open_store,
  close_store, open_at, add_store, end_migration,
}
use openvehicleframework.Per.Memory.Transactions.{
  begin, get, begin_at, begin_on, count_rejected, put, put_in, erase, commit, commit_of, abort,
  close_transaction, open_writer, open_transaction, set_values, finish, leave,
}
use openvehicleframework.Per.Memory.Blobs.{
  open_blob_read, begin_blob_replace, write_blob, commit_blob, abort_blob, close_blob, add_blob,
  replace_at, replace_on, finish_blob, commit_blob_of, leave_blob,
}
use openvehicleframework.Per.Memory.Cursors.{open_cursor, next_cursor, close_cursor, add_cursor}
use openvehicleframework.Per.Memory.Recovery.{reset_store, reset_on, reset_to, rollback_store}
use openvehicleframework.Per.Memory.Calls.{Call, call, run}
use openvehicleframework.Per.Memory.Migration.{
  begin_migration, migrate_on, migrate_at, apply_migration, apply_at, commit_migration,
  abort_migration, close_migration,
}
use openvehicleframework.Per.Memory.Writers.{
  weight, weight_of_blob, writers, flagged, IsConsistent, store_at-set_store,
}
use openvehicleframework.Per.Memory.Writers.Transactions.{
  open_writer-find, commit-cases, put-cases, erase-cases,
}

-- The content is that of a given store; a migration is under way that cannot be committed, there
-- is nothing to roll back to, and nobody writes.
pub record IsStuck (x s : StoreData) : Type 0 where
  pub values : s.values ≡ x.values
  pub blobs : s.blobs ≡ x.blobs
  pub generation : s.generation ≡ x.generation
  pub pending : is_empty s.migration_id ≡ false
  pub outdated : (s.generation == s.migration_source_generation) ≡ false
  pub no_rollback : s.rollback_available ≡ false
  pub no_writer : s.writer_active ≡ false

pub set_store-IsStuck :
    (x : StoreData) (a j : ℕ) (s : StoreData) (b : Backend)
    → (IsStuck x (store_at j b) → IsStuck x s)
    → IsStuck x (store_at a b)
    → IsStuck x (store_at a (set_store j s b))
set_store-IsStuck x a j s b f i = elim (Bool-cases (j == a)) [
  | inl e ↦
      let p = (==_iff j a).0 e in
      subst (IsStuck x) (sym (store_at-set_store j a s b ∙ ground arith))
        (f (subst (λ k. IsStuck x (store_at k b)) (sym p) i))
  | inr e ↦ subst (IsStuck x) (sym (store_at-set_store j a s b ∙ ground arith)) i
]

-- The fields that the predicate is about are the same.
pub kept-IsStuck :
    (x s s' : StoreData)
    → s'.values ≡ s.values
    → s'.blobs ≡ s.blobs
    → s'.generation ≡ s.generation
    → s'.migration_id ≡ s.migration_id
    → s'.migration_source_generation ≡ s.migration_source_generation
    → s'.rollback_available ≡ s.rollback_available
    → s'.writer_active ≡ s.writer_active
    → IsStuck x s
    → IsStuck x s'
kept-IsStuck x s s' e1 e2 e3 e4 e5 e6 e7 i = record {
  values = e1 ∙ i.values;
  blobs = e2 ∙ i.blobs;
  generation = e3 ∙ i.generation;
  pending = ground (arith, e4, i.pending);
  outdated = ground (arith, e3, e5, i.outdated);
  no_rollback = e6 ∙ i.no_rollback;
  no_writer = e7 ∙ i.no_writer;
}
