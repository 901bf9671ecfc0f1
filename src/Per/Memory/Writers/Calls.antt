-- ===== src/Per/Memory/Writers/Calls.antt =====
-- per/backends/memory.cpp: every call keeps the flags of the stores right.
use openvehicleframework.Base.{
  subst, ℕ, ◌+◌, ◌<◌, ◌^◌, suc, ap, length, total_empty, false, List, [], ◌∷◌, arith, ◌≡◌, refl,
  if◌then◌else◌,
}
use openvehicleframework.Per.Types.{done}
use openvehicleframework.Per.Memory.{Backend, store_at}
use openvehicleframework.Per.Memory.Lifecycle.{create, address_of}
use openvehicleframework.Per.Memory.Blobs.{}
use openvehicleframework.Per.Memory.Calls.{Call, call, run}
use openvehicleframework.Per.Memory.Migration.{}
use openvehicleframework.Per.Memory.Writers.{weight, weight_of_blob, writers, IsConsistent}
use openvehicleframework.Per.Memory.Writers.Transactions.{
  begin-IsConsistent, put-IsConsistent, erase-IsConsistent, commit-IsConsistent, abort-IsConsistent,
  close_transaction-IsConsistent,
}
use openvehicleframework.Per.Memory.Writers.Blobs.{
  open_blob_read-IsConsistent, begin_blob_replace-IsConsistent, write_blob-IsConsistent,
  commit_blob-IsConsistent, abort_blob-IsConsistent, close_blob-IsConsistent,
}
use openvehicleframework.Per.Memory.Writers.Handles.{call-IsNext}
use openvehicleframework.Per.Memory.Writers.Stops.{stop-IsConsistent, close_store-IsConsistent}
use openvehicleframework.Per.Memory.Writers.Stores.{open_store-IsConsistent}
use openvehicleframework.Per.Memory.Writers.Recovery.{
  start-IsConsistent, open_cursor-IsConsistent, next_cursor-IsConsistent, close_cursor-IsConsistent,
  reset_store-IsConsistent,
}
use openvehicleframework.Per.Memory.Writers.Migration.{
  begin_migration-IsConsistent, apply_migration-IsConsistent, commit_migration-IsConsistent,
  abort_migration-IsConsistent, close_migration-IsConsistent, rollback_store-IsConsistent,
}

pub call-IsConsistent :
    (c : Call) (b : Backend) → suc b.next_handle < 2 ^ 64 → IsConsistent b → IsConsistent (call c b)
unfolding call
call-IsConsistent Call.start b l i = start-IsConsistent b i
call-IsConsistent Call.stop b l i = stop-IsConsistent b i
call-IsConsistent (Call.open_store d) b l i = open_store-IsConsistent d b l i
call-IsConsistent (Call.close_store h) b l i = close_store-IsConsistent h b i
call-IsConsistent (Call.begin_read h) b l i = begin-IsConsistent h _ _ _ b l i
call-IsConsistent (Call.begin_write h d) b l i = begin-IsConsistent h _ _ _ b l i
call-IsConsistent (Call.begin_write_at h d g) b l i = begin-IsConsistent h _ _ _ b l i
call-IsConsistent (Call.put h k v) b l i = put-IsConsistent h k v b i
call-IsConsistent (Call.erase h k) b l i = erase-IsConsistent h k b i
call-IsConsistent (Call.commit h) b l i = commit-IsConsistent h b i
call-IsConsistent (Call.abort h) b l i = abort-IsConsistent h b i
call-IsConsistent (Call.close_transaction h) b l i = close_transaction-IsConsistent h b i
call-IsConsistent (Call.open_blob_read h k) b l i = open_blob_read-IsConsistent h k b l i
call-IsConsistent (Call.begin_blob_replace h k n d) b l i =
    begin_blob_replace-IsConsistent h k n d b l i
call-IsConsistent (Call.write_blob h o v) b l i = write_blob-IsConsistent h o v b i
call-IsConsistent (Call.commit_blob h) b l i = commit_blob-IsConsistent h b i
call-IsConsistent (Call.abort_blob h) b l i = abort_blob-IsConsistent h b i
call-IsConsistent (Call.close_blob h) b l i = close_blob-IsConsistent h b i
call-IsConsistent (Call.open_cursor h p) b l i = open_cursor-IsConsistent h p b l i
call-IsConsistent (Call.next_cursor h k v) b l i = next_cursor-IsConsistent h k v b i
call-IsConsistent (Call.close_cursor h) b l i = close_cursor-IsConsistent h b i
call-IsConsistent (Call.reset_store h es d) b l i = reset_store-IsConsistent h es d b i
call-IsConsistent (Call.begin_migration h d r) b l i = begin_migration-IsConsistent h d r b l i
call-IsConsistent (Call.apply_migration h k e) b l i = apply_migration-IsConsistent h k e b i
call-IsConsistent (Call.commit_migration h) b l i = commit_migration-IsConsistent h b i
call-IsConsistent (Call.abort_migration h) b l i = abort_migration-IsConsistent h b i
call-IsConsistent (Call.close_migration h) b l i = close_migration-IsConsistent h b i
call-IsConsistent (Call.rollback_store h d) b l i = rollback_store-IsConsistent h d b i

pub run-IsConsistent :
    (cs : List Call) (b : Backend)
    → b.next_handle + length cs < 2 ^ 64
    → IsConsistent b
    → IsConsistent (run cs b)
unfolding run
run-IsConsistent [] b l i = i
run-IsConsistent (c ∷ cs) b l i =
    run-IsConsistent cs (call c b) (omega (arith, call-IsNext c b (omega arith)))
      (call-IsConsistent c b (omega arith) i)

-- The backend of `Create`.
unfoldable pub new_backend : ℕ → ℕ → Backend
new_backend m n = record {
  heap = [];
  stores = [];
  store_handles = [];
  transactions = [];
  blobs = [];
  cursors = [];
  migrations = [];
  next_handle = 1;
  max_stores = m;
  max_transactions = n;
  running = false;
}

pub new_backend-IsConsistent : (m n : ℕ) → IsConsistent (new_backend m n)
unfolding new_backend writers store_at address_of
new_backend-IsConsistent m n = record {
  transactions_distinct = refl;
  blobs_distinct = refl;
  transactions_fresh = λ h p. cc;
  blobs_fresh = λ h p. cc;
  handles = λ h s p. cc;
  named = λ x a p. cc;
  unallocated = λ j l. refl;
  single = λ j. ground (arith, total_empty (weight j), total_empty (weight_of_blob j));
}

pub create-new_backend : (m n : ℕ) (b : Backend) → create m n ≡ done b → new_backend m n ≡ b
unfolding create new_backend
create-new_backend m n b e = ground arith

pub new_backend_next : (m n : ℕ) → (new_backend m n).next_handle ≡ 1
unfolding new_backend
new_backend_next m n = refl

-- One writer at a time: after any calls on a created backend, fewer than the handles there are, a
-- store has an unfinished write transaction or blob replacement exactly when its flag says so, and
-- it has only one. So a store that is found busy has a writer that may still end, a store that is
-- found free has none, and no two writers are open on one store.
pub writers-run :
    (m n a : ℕ) (b : Backend) (cs : List Call)
    → create m n ≡ done b
    → suc (length cs) < 2 ^ 64
    → writers a (run cs b) ≡ (if (store_at a (run cs b)).writer_active then 1 else 0)
writers-run m n a b cs e l =
    let start = subst IsConsistent (create-new_backend m n b e) (new_backend-IsConsistent m n) in
    let next = ap (λ (x : Backend). x.next_handle) (create-new_backend m n b e) in
    (run-IsConsistent cs b (omega (arith, next, new_backend_next m n)) start).single a
