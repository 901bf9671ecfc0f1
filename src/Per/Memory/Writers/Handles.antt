-- ===== src/Per/Memory/Writers/Handles.antt =====
-- per/backends/memory.cpp: the next handle.
use openvehicleframework.Base.{length, List, ap, ℕ, ◌≤◌, ◌<◌, ◌^◌, suc, Bool, Option, List, arith}
use openvehicleframework.Per.Types.{Durability, View, StoreDescriptor, Entry, MigrationDescriptor}
use openvehicleframework.Per.Bytes.{Bytes}
use openvehicleframework.Per.Memory.{Backend, set_store, end_writer}
use openvehicleframework.Per.Memory.Lifecycle.{
  start, open_store, close_store, open_at, add_store, end_migration,
}
use openvehicleframework.Per.Memory.Transactions.{
  begin, begin_at, begin_on, count_rejected, put, put_in, erase, commit, commit_of, abort,
  close_transaction, open_writer, open_transaction, set_values, finish, leave,
}
use openvehicleframework.Per.Memory.Blobs.{
  open_blob_read, begin_blob_replace, write_blob, commit_blob, abort_blob, close_blob, add_blob,
  replace_at, replace_on, finish_blob, commit_blob_of, leave_blob,
}
use openvehicleframework.Per.Memory.Cursors.{open_cursor, next_cursor, close_cursor, add_cursor}
use openvehicleframework.Per.Memory.Recovery.{reset_store, reset_on, reset_to, rollback_store}
use openvehicleframework.Per.Memory.Calls.{Call, call}
use openvehicleframework.Per.Memory.Migration.{
  begin_migration, migrate_on, migrate_at, apply_migration, apply_at, commit_migration,
  abort_migration, close_migration,
}
use openvehicleframework.Per.Memory.Stopping.{stop-same}
use openvehicleframework.Per.Memory.Writers.{incremented-eq}

-- At most one handle is taken, and no store goes away.
abbrev pub IsNext : Backend → Backend → Type 0
IsNext b b' = (b'.next_handle ≤ suc b.next_handle) × (length b.stores ≤ length b'.stores)

open_store-IsNext :
    (d : StoreDescriptor) (b : Backend) → suc b.next_handle < 2 ^ 64 → IsNext b (open_store d b).1
unfolding open_store open_at add_store
open_store-IsNext d b l = ground (arith, incremented-eq b.next_handle l)

begin-IsNext :
    (h : ℕ) (d : Durability) (w : Bool) (e : Option ℕ) (b : Backend)
    → suc b.next_handle < 2 ^ 64
    → IsNext b (begin h d w e b).1
unfolding begin begin_on begin_at count_rejected set_store
begin-IsNext h d w e b l = ground (arith, incremented-eq b.next_handle l)

put-IsNext :
    (h : ℕ) (k v : View) (b : Backend) → suc b.next_handle < 2 ^ 64 → IsNext b (put h k v b).1
unfolding put put_in open_writer open_transaction set_values
put-IsNext h k v b l = ground (arith, incremented-eq b.next_handle l)

erase-IsNext :
    (h : ℕ) (k : View) (b : Backend) → suc b.next_handle < 2 ^ 64 → IsNext b (erase h k b).1
unfolding erase open_writer open_transaction set_values
erase-IsNext h k b l = ground (arith, incremented-eq b.next_handle l)

commit-IsNext : (h : ℕ) (b : Backend) → suc b.next_handle < 2 ^ 64 → IsNext b (commit h b).1
unfolding commit commit_of open_writer open_transaction finish end_writer set_store
commit-IsNext h b l = ground (arith, incremented-eq b.next_handle l)

begin_blob_replace-IsNext :
    (h : ℕ) (k : View) (n : ℕ) (d : Durability) (b : Backend)
    → suc b.next_handle < 2 ^ 64
    → IsNext b (begin_blob_replace h k n d b).1
unfolding begin_blob_replace replace_on replace_at add_blob set_store
begin_blob_replace-IsNext h k n d b l = ground (arith, incremented-eq b.next_handle l)

commit_blob-IsNext :
    (h : ℕ) (b : Backend) → suc b.next_handle < 2 ^ 64 → IsNext b (commit_blob h b).1
unfolding commit_blob commit_blob_of finish_blob end_writer set_store
commit_blob-IsNext h b l = ground (arith, incremented-eq b.next_handle l)

reset_store-IsNext :
    (h : ℕ) (es : List Entry) (d : Durability) (b : Backend)
    → suc b.next_handle < 2 ^ 64
    → IsNext b (reset_store h es d b).1
unfolding reset_store reset_on reset_to count_rejected set_store
reset_store-IsNext h es d b l = ground (arith, incremented-eq b.next_handle l)

begin_migration-IsNext :
    (h : ℕ) (d : MigrationDescriptor) (r : Option ℕ) (b : Backend)
    → suc b.next_handle < 2 ^ 64
    → IsNext b (begin_migration h d r b).1
unfolding begin_migration migrate_on migrate_at set_store
begin_migration-IsNext h d r b l = ground (arith, incremented-eq b.next_handle l)

pub call-IsNext : (c : Call) (b : Backend) → suc b.next_handle < 2 ^ 64 → IsNext b (call c b)
unfolding call start close_store open_blob_read add_blob write_blob abort_blob close_blob
    finish_blob leave_blob set_store end_writer open_cursor add_cursor next_cursor close_cursor
    rollback_store apply_migration apply_at commit_migration abort_migration close_migration
    end_migration abort close_transaction leave finish
call-IsNext Call.start b l = ground arith
call-IsNext Call.stop b l =
    let e = stop-same b in
    (omega (arith, e.3), omega (arith, ap (λ (l : List (Bytes × ℕ)). length l) e.0))
call-IsNext (Call.open_store d) b l = open_store-IsNext d b l
call-IsNext (Call.close_store h) b l = ground arith
call-IsNext (Call.begin_read h) b l = begin-IsNext h _ _ _ b l
call-IsNext (Call.begin_write h d) b l = begin-IsNext h _ _ _ b l
call-IsNext (Call.begin_write_at h d g) b l = begin-IsNext h _ _ _ b l
call-IsNext (Call.put h k v) b l = put-IsNext h k v b l
call-IsNext (Call.erase h k) b l = erase-IsNext h k b l
call-IsNext (Call.commit h) b l = commit-IsNext h b l
call-IsNext (Call.abort h) b l = ground arith
call-IsNext (Call.close_transaction h) b l = ground arith
call-IsNext (Call.open_blob_read h k) b l = ground (arith, incremented-eq b.next_handle l)
call-IsNext (Call.begin_blob_replace h k n d) b l = begin_blob_replace-IsNext h k n d b l
call-IsNext (Call.write_blob h o v) b l = ground arith
call-IsNext (Call.commit_blob h) b l = commit_blob-IsNext h b l
call-IsNext (Call.abort_blob h) b l = ground arith
call-IsNext (Call.close_blob h) b l = ground arith
call-IsNext (Call.open_cursor h p) b l = ground (arith, incremented-eq b.next_handle l)
call-IsNext (Call.next_cursor h k v) b l = ground arith
call-IsNext (Call.close_cursor h) b l = ground arith
call-IsNext (Call.reset_store h es d) b l = reset_store-IsNext h es d b l
call-IsNext (Call.begin_migration h d r) b l = begin_migration-IsNext h d r b l
call-IsNext (Call.apply_migration h k e) b l = ground arith
call-IsNext (Call.commit_migration h) b l = ground arith
call-IsNext (Call.abort_migration h) b l = ground arith
call-IsNext (Call.close_migration h) b l = ground arith
call-IsNext (Call.rollback_store h d) b l = ground arith
