-- ===== src/Per/Memory/Calls.antt =====
-- per/backends/memory.cpp: the table of functions that `Create` fills, as calls that change the
-- backend one after the other. `Capabilities`, `Get`, `ReadBlob` and `StoreStatus` change nothing.
use openvehicleframework.Base.{ℕ, true, false, Option, some, none, List, [], ◌∷◌}
use openvehicleframework.Per.Types.{Durability, View, StoreDescriptor, Entry, MigrationDescriptor}
use openvehicleframework.Per.Memory.{Backend}
use openvehicleframework.Per.Memory.Lifecycle
use openvehicleframework.Per.Memory.Transactions
use openvehicleframework.Per.Memory.Blobs
use openvehicleframework.Per.Memory.Cursors
use openvehicleframework.Per.Memory.Recovery
use openvehicleframework.Per.Memory.Migration

pub data Call : Type 0 where
  start stop : Call
  open_store : StoreDescriptor → Call
  close_store : ℕ → Call
  begin_read : ℕ → Call
  begin_write : ℕ → Durability → Call
  begin_write_at : ℕ → Durability → ℕ → Call
  put : ℕ → View → View → Call
  erase : ℕ → View → Call
  commit abort close_transaction : ℕ → Call
  open_blob_read : ℕ → View → Call
  begin_blob_replace : ℕ → View → ℕ → Durability → Call
  write_blob : ℕ → ℕ → View → Call
  commit_blob abort_blob close_blob : ℕ → Call
  open_cursor : ℕ → View → Call
  next_cursor : ℕ → Option ℕ → Option ℕ → Call
  close_cursor : ℕ → Call
  reset_store : ℕ → List Entry → Durability → Call
  begin_migration : ℕ → MigrationDescriptor → Option ℕ → Call
  apply_migration : ℕ → View → Option Entry → Call
  commit_migration abort_migration close_migration : ℕ → Call
  rollback_store : ℕ → Durability → Call

-- The backend after a call.
unfoldable pub call : Call → Backend → Backend
call Call.start b = (Lifecycle.start b).1
call Call.stop b = Lifecycle.stop b
call (Call.open_store d) b = (Lifecycle.open_store d b).1
call (Call.close_store h) b = (Lifecycle.close_store h b).1
call (Call.begin_read h) b = (Transactions.begin h Durability.buffered false none b).1
call (Call.begin_write h d) b = (Transactions.begin h d true none b).1
call (Call.begin_write_at h d g) b = (Transactions.begin h d true (some g) b).1
call (Call.put h k v) b = (Transactions.put h k v b).1
call (Call.erase h k) b = (Transactions.erase h k b).1
call (Call.commit h) b = (Transactions.commit h b).1
call (Call.abort h) b = (Transactions.abort h b).1
call (Call.close_transaction h) b = (Transactions.close_transaction h b).1
call (Call.open_blob_read h k) b = (Blobs.open_blob_read h k b).1
call (Call.begin_blob_replace h k n d) b = (Blobs.begin_blob_replace h k n d b).1
call (Call.write_blob h o i) b = (Blobs.write_blob h o i b).1
call (Call.commit_blob h) b = (Blobs.commit_blob h b).1
call (Call.abort_blob h) b = (Blobs.abort_blob h b).1
call (Call.close_blob h) b = (Blobs.close_blob h b).1
call (Call.open_cursor h p) b = (Cursors.open_cursor h p b).1
call (Call.next_cursor h k v) b = (Cursors.next_cursor h k v b).1
call (Call.close_cursor h) b = (Cursors.close_cursor h b).1
call (Call.reset_store h es d) b = (Recovery.reset_store h es d b).1
call (Call.begin_migration h d room) b = (Migration.begin_migration h d room b).1
call (Call.apply_migration h s t) b = (Migration.apply_migration h s t b).1
call (Call.commit_migration h) b = (Migration.commit_migration h b).1
call (Call.abort_migration h) b = (Migration.abort_migration h b).1
call (Call.close_migration h) b = (Migration.close_migration h b).1
call (Call.rollback_store h d) b = (Recovery.rollback_store h d b).1

-- The backend after calls, the first of the list first.
unfoldable pub run : List Call → Backend → Backend
unfolding call
run [] b = b
run (c ∷ cs) b = run cs (call c b)
