-- ===== src/Per/Memory/Stuck/Calls.antt =====
-- per/backends/memory.cpp: no call changes a stuck store.
use openvehicleframework.Base.{
  ℕ, ◌+◌, ◌<◌, ◌^◌, subst, length, if-cases, not, ◌&&◌, List, [], ◌∷◌, Table, has_key, arith, sym,
  ◌∙◌, if◌then◌else◌,
}
use openvehicleframework.Per.Types.{copy, Reply, StoreDescriptor}
use openvehicleframework.Per.Memory.{
  new_store, StoreData, BlobOperation, MigrationOperation, Backend, Transaction, store_at,
  set_store, end_writer,
}
use openvehicleframework.Per.Memory.Lifecycle.{
  stop_transactions, stop_blobs, stop_migrations, start, stop, open_store, close_store, open_at,
  add_store, end_migration,
}
use openvehicleframework.Per.Memory.Blobs.{}
use openvehicleframework.Per.Memory.Cursors.{close_cursor}
use openvehicleframework.Per.Memory.Calls.{Call, call, run}
use openvehicleframework.Per.Memory.Migration.{}
use openvehicleframework.Per.Memory.Writers.{IsConsistent, store_at-set_store}
use openvehicleframework.Per.Memory.Stuck.Transactions.{Stuck, end_writer-IsStuck}
use openvehicleframework.Per.Memory.Stuck.{IsStuck}
use openvehicleframework.Per.Memory.Writers.Blobs.{}
use openvehicleframework.Per.Memory.Writers.Calls.{call-IsConsistent}
use openvehicleframework.Per.Memory.Writers.Handles.{call-IsNext}
use openvehicleframework.Per.Memory.Writers.Stores.{open_store-cases}
use openvehicleframework.Per.Memory.Stuck.Transactions.{
  begin-IsStuck, put-IsStuck, erase-IsStuck, commit-IsStuck, abort-IsStuck,
  close_transaction-IsStuck,
}
use openvehicleframework.Per.Memory.Stuck.Blobs.{
  open_blob_read-IsStuck, begin_blob_replace-IsStuck, write_blob-IsStuck, commit_blob-IsStuck,
  abort_blob-IsStuck, close_blob-IsStuck, open_cursor-IsStuck, next_cursor-IsStuck,
}
use openvehicleframework.Per.Memory.Stuck.Recovery.{
  reset_store-IsStuck, begin_migration-IsStuck, apply_migration-IsStuck, commit_migration-IsStuck,
  end_migration-IsStuck, abort_migration-IsStuck, close_migration-IsStuck, rollback_store-IsStuck,
}

module _ (x : StoreData) (a : ℕ) where
  stop_transactions-IsStuck :
      (ts : Table Transaction) (b : Backend) → Stuck x a b → Stuck x a (stop_transactions ts b)
  unfolding stop_transactions
  stop_transactions-IsStuck [] b i = i
  stop_transactions-IsStuck ((h, t) ∷ ts) b i =
      stop_transactions-IsStuck ts (if t.write && not t.finished then end_writer t.store b else b) (
        if-cases (Stuck x a) (t.write && not t.finished) (λ c. end_writer-IsStuck x a t.store b i)
          (λ c. i))

  stop_blobs-IsStuck :
      (os : Table BlobOperation) (b : Backend) → Stuck x a b → Stuck x a (stop_blobs os b)
  unfolding stop_blobs
  stop_blobs-IsStuck [] b i = i
  stop_blobs-IsStuck ((h, o) ∷ os) b i =
      stop_blobs-IsStuck os (if o.write && not o.finished then end_writer o.store b else b) (
        if-cases (Stuck x a) (o.write && not o.finished) (λ c. end_writer-IsStuck x a o.store b i)
          (λ c. i))

  stop_migrations-IsStuck :
      (os : Table MigrationOperation) (b : Backend) → Stuck x a b → Stuck x a (stop_migrations os b)
  unfolding stop_migrations
  stop_migrations-IsStuck [] b i = i
  stop_migrations-IsStuck ((h, o) ∷ os) b i =
      stop_migrations-IsStuck os (end_migration o.store b) (end_migration-IsStuck x a o.store b i)

  stop-IsStuck : (b : Backend) → Stuck x a b → Stuck x a (stop b)
  unfolding stop store_at
  stop-IsStuck b i =
      stop_migrations-IsStuck b.migrations _
        (stop_blobs-IsStuck b.blobs _ (stop_transactions-IsStuck b.transactions b i))

  add_store-IsStuck :
      (d : StoreDescriptor) (b : Backend)
      → a < length b.stores
      → Stuck x a b
      → Stuck x a (add_store d b)
  unfolding add_store store_at set_store
  add_store-IsStuck d b m i =
      let s : StoreData = record new_store {
        capacity = d.capacity_bytes;
        max_entries = d.max_entries;
        max_key_size = d.max_key_size;
        max_value_size = d.max_value_size;
        max_blob_size = d.max_blob_size;
        schema_id = copy d.schema_id;
        schema_version = d.schema_version;
      } in
      subst (IsStuck x) (sym (store_at-set_store (length b.stores) a s b ∙ ground arith)) i

  open_store-IsStuck :
      (d : StoreDescriptor) (b : Backend)
      → a < length b.stores
      → Stuck x a b
      → Stuck x a (open_store d b).1
  unfolding open_at store_at
  open_store-IsStuck d b m i =
      open_store-cases (Stuck x a) d b i (add_store-IsStuck d b m i) λ j e. i

  call-IsStuck :
      (c : Call) (b : Backend)
      → IsConsistent b
      → a < length b.stores
      → Stuck x a b
      → Stuck x a (call c b)
  unfolding call start close_store close_cursor store_at
  call-IsStuck Call.start b k m i = i
  call-IsStuck Call.stop b k m i = stop-IsStuck b i
  call-IsStuck (Call.open_store d) b k m i = open_store-IsStuck d b m i
  call-IsStuck (Call.close_store h) b k m i =
      if-cases (λ (y : Reply (Unit {0}) × Backend). Stuck x a y.1) (has_key h b.store_handles)
        (λ c. i) (λ c. i)
  call-IsStuck (Call.begin_read h) b k m i = begin-IsStuck x a h _ _ _ b i
  call-IsStuck (Call.begin_write h d) b k m i = begin-IsStuck x a h _ _ _ b i
  call-IsStuck (Call.begin_write_at h d g) b k m i = begin-IsStuck x a h _ _ _ b i
  call-IsStuck (Call.put h y v) b k m i = put-IsStuck x a h y v b i
  call-IsStuck (Call.erase h y) b k m i = erase-IsStuck x a h y b i
  call-IsStuck (Call.commit h) b k m i = commit-IsStuck x a h b k i
  call-IsStuck (Call.abort h) b k m i = abort-IsStuck x a h b i
  call-IsStuck (Call.close_transaction h) b k m i = close_transaction-IsStuck x a h b i
  call-IsStuck (Call.open_blob_read h y) b k m i = open_blob_read-IsStuck x a h y b i
  call-IsStuck (Call.begin_blob_replace h y n d) b k m i =
      begin_blob_replace-IsStuck x a h y n d b i
  call-IsStuck (Call.write_blob h o v) b k m i = write_blob-IsStuck x a h o v b i
  call-IsStuck (Call.commit_blob h) b k m i = commit_blob-IsStuck x a h b k i
  call-IsStuck (Call.abort_blob h) b k m i = abort_blob-IsStuck x a h b i
  call-IsStuck (Call.close_blob h) b k m i = close_blob-IsStuck x a h b i
  call-IsStuck (Call.open_cursor h p) b k m i = open_cursor-IsStuck x a h p b i
  call-IsStuck (Call.next_cursor h y v) b k m i = next_cursor-IsStuck x a h y v b i
  call-IsStuck (Call.close_cursor h) b k m i =
      if-cases (λ (y : Reply (Unit {0}) × Backend). Stuck x a y.1) (has_key h b.cursors) (λ c. i)
        (λ c. i)
  call-IsStuck (Call.reset_store h es d) b k m i = reset_store-IsStuck x a h es d b i
  call-IsStuck (Call.begin_migration h d r) b k m i = begin_migration-IsStuck x a h d r b i
  call-IsStuck (Call.apply_migration h y e) b k m i = apply_migration-IsStuck x a h y e b i
  call-IsStuck (Call.commit_migration h) b k m i = commit_migration-IsStuck x a h b i
  call-IsStuck (Call.abort_migration h) b k m i = abort_migration-IsStuck x a h b i
  call-IsStuck (Call.close_migration h) b k m i = close_migration-IsStuck x a h b i
  call-IsStuck (Call.rollback_store h d) b k m i = rollback_store-IsStuck x a h d b i

  pub run-IsStuck :
      (cs : List Call) (b : Backend)
      → b.next_handle + length cs < 2 ^ 64
      → IsConsistent b
      → a < length b.stores
      → Stuck x a b
      → Stuck x a (run cs b)
  unfolding run
  run-IsStuck [] b l k m i = i
  run-IsStuck (c ∷ cs) b l k m i =
      let n = call-IsNext c b (omega arith) in
      run-IsStuck cs (call c b) (omega (arith, n.0)) (call-IsConsistent c b (omega arith) k)
        (omega (arith, n.1)) (call-IsStuck c b k m i)
