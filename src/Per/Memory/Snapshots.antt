-- ===== src/Per/Memory/Snapshots.antt =====
-- per/backends/memory.cpp: what a read transaction shows while others write.
use openvehicleframework.Base.{
  ℕ, Bool, true, false, not, Option, some, List, [], ◌∷◌, find, find-assign, find-emplace,
  find-remove, all_of, arith, ◌≡◌, refl, Option-cases, ◌==◌, inl, inr,
}
use openvehicleframework.Per.Types.{Durability, View, StoreDescriptor, Entry, MigrationDescriptor}
use openvehicleframework.Per.Memory.{Backend, Transaction, set_store, end_writer, StoreHandle}
use openvehicleframework.Per.Memory.Lifecycle.{
  start, open_store, close_store, open_at, add_store, end_migration,
}
use openvehicleframework.Per.Memory.Transactions.{
  begin, get, begin_at, begin_on, count_rejected, put, put_in, erase, commit, commit_of, abort,
  close_transaction, open_writer, open_transaction, set_values, finish, leave,
}
use openvehicleframework.Per.Memory.Blobs.{
  open_blob_read, begin_blob_replace, write_blob, commit_blob, abort_blob, close_blob, add_blob,
  replace_at, replace_on, finish_blob, commit_blob_of, leave_blob,
}
use openvehicleframework.Per.Memory.Cursors.{open_cursor, next_cursor, close_cursor, add_cursor}
use openvehicleframework.Per.Memory.Recovery.{reset_store, reset_on, reset_to, rollback_store}
use openvehicleframework.Per.Memory.Calls.{Call, call, run}
use openvehicleframework.Per.Memory.Migration.{
  begin_migration, migrate_on, migrate_at, apply_migration, apply_at, commit_migration,
  abort_migration, close_migration,
}

-- The transactions are as before.
abbrev Keeps : Backend → Backend → Type 0
Keeps b b' = b'.transactions ≡ b.transactions

end_writer-Keeps : (a : ℕ) (b : Backend) → Keeps b (end_writer a b)
unfolding end_writer set_store
end_writer-Keeps a b = refl

open_store-Keeps : (d : StoreDescriptor) (b : Backend) → Keeps b (open_store d b).1
unfolding open_store open_at add_store
open_store-Keeps d b = ground arith

begin_blob_replace-Keeps :
    (h : ℕ) (k : View) (n : ℕ) (d : Durability) (b : Backend)
    → Keeps b (begin_blob_replace h k n d b).1
unfolding begin_blob_replace replace_on replace_at add_blob set_store
begin_blob_replace-Keeps h k n d b = ground arith

commit_blob-Keeps : (h : ℕ) (b : Backend) → Keeps b (commit_blob h b).1
unfolding commit_blob commit_blob_of finish_blob end_writer set_store
commit_blob-Keeps h b = ground arith

begin_migration-Keeps :
    (h : ℕ) (d : MigrationDescriptor) (r : Option ℕ) (b : Backend)
    → Keeps b (begin_migration h d r b).1
unfolding begin_migration migrate_on migrate_at set_store
begin_migration-Keeps h d r b = ground arith

reset_store-Keeps :
    (h : ℕ) (es : List Entry) (d : Durability) (b : Backend) → Keeps b (reset_store h es d b).1
unfolding reset_store reset_on reset_to count_rejected set_store
reset_store-Keeps h es d b = ground arith

-- What `Begin` does to the other transactions.
begin_at-find :
    (h : StoreHandle) (d : Durability) (w : Bool) (b : Backend) (j : ℕ) (t : Transaction)
    → find j b.transactions ≡ some t
    → find j (begin_at h d w b).1.transactions ≡ some t
unfolding begin_at set_store
begin_at-find h d w b j t f = grind (arith, find-emplace)

begin-find :
    (h : ℕ) (d : Durability) (w : Bool) (e : Option ℕ) (b : Backend) (j : ℕ) (t : Transaction)
    → find j b.transactions ≡ some t
    → find j (begin h d w e b).1.transactions ≡ some t
unfolding begin begin_on count_rejected set_store
begin-find h d w e b j t f = elim (Option-cases (find h b.store_handles)) [
  | inl n ↦ rw (n, begin) f
  | inr (s, n) ↦ rw (n, begin) (ground (arith, begin_at-find s d w b j t f))
]

put-find :
    (h : ℕ) (k v : View) (b : Backend) (j : ℕ) (t : Transaction)
    → t.write ≡ false
    → find j b.transactions ≡ some t
    → find j (put h k v b).1.transactions ≡ some t
unfolding put put_in open_writer open_transaction set_values
put-find h k v b j t r f = grind (arith, find-assign)

erase-find :
    (h : ℕ) (k : View) (b : Backend) (j : ℕ) (t : Transaction)
    → t.write ≡ false
    → find j b.transactions ≡ some t
    → find j (erase h k b).1.transactions ≡ some t
unfolding erase open_writer open_transaction set_values
erase-find h k b j t r f = grind (arith, find-assign)

commit-find :
    (h : ℕ) (b : Backend) (j : ℕ) (t : Transaction)
    → t.write ≡ false
    → find j b.transactions ≡ some t
    → find j (commit h b).1.transactions ≡ some t
unfolding commit commit_of open_writer open_transaction set_store end_writer finish
commit-find h b j t r f = grind (arith, find-assign)

abort-find :
    (h : ℕ) (b : Backend) (j : ℕ) (t : Transaction)
    → (h == j) ≡ false
    → find j b.transactions ≡ some t
    → find j (abort h b).1.transactions ≡ some t
unfolding abort leave set_store end_writer finish
abort-find h b j t r f = grind (arith, find-assign)

close_transaction-find :
    (h : ℕ) (b : Backend) (j : ℕ) (t : Transaction)
    → (h == j) ≡ false
    → find j b.transactions ≡ some t
    → find j (close_transaction h b).1.transactions ≡ some t
unfolding close_transaction leave set_store end_writer
close_transaction-find h b j t r f = grind (arith, find-remove)

-- The call neither ends the transaction nor stops the backend.
abbrev pub spares : ℕ → Call → Bool
spares j Call.stop = false
spares j (Call.abort h) = not (h == j)
spares j (Call.close_transaction h) = not (h == j)
spares j c = true

call-find :
    (c : Call) (b : Backend) (j : ℕ) (t : Transaction)
    → spares j c ≡ true
    → t.write ≡ false
    → find j b.transactions ≡ some t
    → find j (call c b).transactions ≡ some t
unfolding call start close_store open_blob_read add_blob write_blob abort_blob close_blob
    finish_blob leave_blob set_store end_writer open_cursor add_cursor next_cursor close_cursor
    rollback_store apply_migration apply_at commit_migration abort_migration close_migration
    end_migration
call-find Call.start b j t s r f = f
call-find Call.stop b j t s r f = cc
call-find (Call.open_store d) b j t s r f = rw (open_store-Keeps d b) f
call-find (Call.close_store h) b j t s r f = ground arith
call-find (Call.begin_read h) b j t s r f = begin-find _ _ _ _ _ _ _ f
call-find (Call.begin_write h d) b j t s r f = begin-find _ _ _ _ _ _ _ f
call-find (Call.begin_write_at h d g) b j t s r f = begin-find _ _ _ _ _ _ _ f
call-find (Call.put h k v) b j t s r f = put-find _ _ _ _ _ _ r f
call-find (Call.erase h k) b j t s r f = erase-find _ _ _ _ _ r f
call-find (Call.commit h) b j t s r f = commit-find _ _ _ _ r f
call-find (Call.abort h) b j t s r f = abort-find h _ j _ (ground arith) f
call-find (Call.close_transaction h) b j t s r f = close_transaction-find h _ j _ (ground arith) f
call-find (Call.open_blob_read h k) b j t s r f = ground arith
call-find (Call.begin_blob_replace h k n d) b j t s r f = rw (begin_blob_replace-Keeps h k n d b) f
call-find (Call.write_blob h o i) b j t s r f = ground arith
call-find (Call.commit_blob h) b j t s r f = rw (commit_blob-Keeps h b) f
call-find (Call.abort_blob h) b j t s r f = ground arith
call-find (Call.close_blob h) b j t s r f = ground arith
call-find (Call.open_cursor h p) b j t s r f = ground arith
call-find (Call.next_cursor h k v) b j t s r f = ground arith
call-find (Call.close_cursor h) b j t s r f = ground arith
call-find (Call.reset_store h es d) b j t s r f = rw (reset_store-Keeps h es d b) f
call-find (Call.begin_migration h d room) b j t s r f = rw (begin_migration-Keeps h d room b) f
call-find (Call.apply_migration h s' g) b j t s r f = ground arith
call-find (Call.commit_migration h) b j t s r f = ground arith
call-find (Call.abort_migration h) b j t s r f = ground arith
call-find (Call.close_migration h) b j t s r f = ground arith
call-find (Call.rollback_store h d) b j t s r f = ground arith

run-find :
    (cs : List Call) (b : Backend) (j : ℕ) (t : Transaction)
    → all_of (spares j) cs ≡ true
    → t.write ≡ false
    → find j b.transactions ≡ some t
    → find j (run cs b).transactions ≡ some t
unfolding run
run-find [] b j t s r f = f
run-find (c ∷ cs) b j t s r f =
    run-find cs (call c b) j t (ground arith) r (call-find c b j t (ground arith) r f)

-- A read transaction is a snapshot: as long as no call ends it or stops the backend, `Get` on it
-- answers what it answered before, whatever calls come between, commits, resets, migrations and
-- rollbacks of its store included.
pub get-run :
    (j : ℕ) (t : Transaction) (cs : List Call) (b : Backend) (key : View) (room : Option ℕ)
    → find j b.transactions ≡ some t
    → t.write ≡ false
    → all_of (spares j) cs ≡ true
    → get j key room (run cs b) ≡ get j key room b
unfolding get open_transaction
get-run j t cs b key room f r s = rw (run-find cs b j t s r f, f) refl
