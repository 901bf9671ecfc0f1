-- ===== src/Per/Memory/Limits.antt =====
-- per/backends/memory.cpp: the limits that the configuration of the backend sets.
use openvehicleframework.Base.{
  ℕ, ◌≤◌, length, length-emplace, length-assign, length-remove, Bool, Option, List, [], ◌∷◌, arith,
  ◌≡◌,
}
use openvehicleframework.Per.Types.{
  done, Durability, View, StoreDescriptor, Entry, MigrationDescriptor,
}
use openvehicleframework.Per.Memory.{Backend, set_store, end_writer}
use openvehicleframework.Per.Memory.Lifecycle.{
  create, start, stop, open_store, close_store, open_at, add_store, end_migration,
}
use openvehicleframework.Per.Memory.Transactions.{
  begin, begin_at, begin_on, count_rejected, put, put_in, erase, commit, commit_of, abort,
  close_transaction, open_writer, open_transaction, set_values, finish, leave,
}
use openvehicleframework.Per.Memory.Blobs.{
  open_blob_read, begin_blob_replace, write_blob, commit_blob, abort_blob, close_blob, add_blob,
  replace_at, replace_on, finish_blob, commit_blob_of, leave_blob,
}
use openvehicleframework.Per.Memory.Cursors.{open_cursor, next_cursor, close_cursor, add_cursor}
use openvehicleframework.Per.Memory.Recovery.{reset_store, reset_on, reset_to, rollback_store}
use openvehicleframework.Per.Memory.Calls.{Call, call, run}
use openvehicleframework.Per.Memory.Migration.{
  begin_migration, migrate_on, migrate_at, apply_migration, apply_at, commit_migration,
  abort_migration, close_migration,
}
use openvehicleframework.Per.Memory.Stopping.{stop-same}

-- No more stores and transactions than the configuration says.
pub record IsWithinLimits (m n : ℕ) (b : Backend) : Type 0 where
  pub max_stores : b.max_stores ≡ m
  pub max_transactions : b.max_transactions ≡ n
  pub stores : length b.stores ≤ m
  pub transactions : length b.transactions ≤ n

module _ {m n : ℕ} where
  open_store-IsWithinLimits :
      (d : StoreDescriptor) (b : Backend)
      → IsWithinLimits m n b
      → IsWithinLimits m n (open_store d b).1
  unfolding open_store open_at add_store
  open_store-IsWithinLimits d b w = record {
    max_stores = ground arith;
    max_transactions = ground arith;
    stores = ground arith;
    transactions = ground arith;
  }

  begin-IsWithinLimits :
      (h : ℕ) (d : Durability) (w : Bool) (e : Option ℕ) (b : Backend)
      → IsWithinLimits m n b
      → IsWithinLimits m n (begin h d w e b).1
  unfolding begin begin_on begin_at count_rejected set_store
  begin-IsWithinLimits h d w e b i = record {
    max_stores = ground arith;
    max_transactions = ground arith;
    stores = ground arith;
    transactions = grind (arith, length-emplace);
  }

  put-IsWithinLimits :
      (h : ℕ) (k v : View) (b : Backend) → IsWithinLimits m n b → IsWithinLimits m n (put h k v b).1
  unfolding put put_in open_writer open_transaction set_values
  put-IsWithinLimits h k v b i = record {
    max_stores = ground arith;
    max_transactions = ground arith;
    stores = ground arith;
    transactions = grind (arith, length-assign, length-remove);
  }

  erase-IsWithinLimits :
      (h : ℕ) (k : View) (b : Backend) → IsWithinLimits m n b → IsWithinLimits m n (erase h k b).1
  unfolding erase open_writer open_transaction set_values
  erase-IsWithinLimits h k b i = record {
    max_stores = ground arith;
    max_transactions = ground arith;
    stores = ground arith;
    transactions = grind (arith, length-assign, length-remove);
  }

  commit-IsWithinLimits :
      (h : ℕ) (b : Backend) → IsWithinLimits m n b → IsWithinLimits m n (commit h b).1
  unfolding commit commit_of open_writer open_transaction finish end_writer set_store
  commit-IsWithinLimits h b i = record {
    max_stores = ground arith;
    max_transactions = ground arith;
    stores = ground arith;
    transactions = grind (arith, length-assign, length-remove);
  }

  abort-IsWithinLimits :
      (h : ℕ) (b : Backend) → IsWithinLimits m n b → IsWithinLimits m n (abort h b).1
  unfolding abort leave finish end_writer set_store
  abort-IsWithinLimits h b i = record {
    max_stores = ground arith;
    max_transactions = ground arith;
    stores = ground arith;
    transactions = grind (arith, length-assign, length-remove);
  }

  close_transaction-IsWithinLimits :
      (h : ℕ) (b : Backend) → IsWithinLimits m n b → IsWithinLimits m n (close_transaction h b).1
  unfolding close_transaction leave end_writer set_store
  close_transaction-IsWithinLimits h b i = record {
    max_stores = ground arith;
    max_transactions = ground arith;
    stores = ground arith;
    transactions = grind (arith, length-assign, length-remove);
  }

  begin_blob_replace-IsWithinLimits :
      (h : ℕ) (k : View) (s : ℕ) (d : Durability) (b : Backend)
      → IsWithinLimits m n b
      → IsWithinLimits m n (begin_blob_replace h k s d b).1
  unfolding begin_blob_replace replace_on replace_at add_blob set_store
  begin_blob_replace-IsWithinLimits h k s d b i = record {
    max_stores = ground arith;
    max_transactions = ground arith;
    stores = ground arith;
    transactions = ground arith;
  }

  commit_blob-IsWithinLimits :
      (h : ℕ) (b : Backend) → IsWithinLimits m n b → IsWithinLimits m n (commit_blob h b).1
  unfolding commit_blob commit_blob_of finish_blob end_writer set_store
  commit_blob-IsWithinLimits h b i = record {
    max_stores = ground arith;
    max_transactions = ground arith;
    stores = ground arith;
    transactions = ground arith;
  }

  reset_store-IsWithinLimits :
      (h : ℕ) (es : List Entry) (d : Durability) (b : Backend)
      → IsWithinLimits m n b
      → IsWithinLimits m n (reset_store h es d b).1
  unfolding reset_store reset_on reset_to count_rejected set_store
  reset_store-IsWithinLimits h es d b i = record {
    max_stores = ground arith;
    max_transactions = ground arith;
    stores = ground arith;
    transactions = ground arith;
  }

  begin_migration-IsWithinLimits :
      (h : ℕ) (d : MigrationDescriptor) (r : Option ℕ) (b : Backend)
      → IsWithinLimits m n b
      → IsWithinLimits m n (begin_migration h d r b).1
  unfolding begin_migration migrate_on migrate_at set_store
  begin_migration-IsWithinLimits h d r b i = record {
    max_stores = ground arith;
    max_transactions = ground arith;
    stores = ground arith;
    transactions = ground arith;
  }

  stop-IsWithinLimits : (b : Backend) → IsWithinLimits m n b → IsWithinLimits m n (stop b)
  unfolding stop
  stop-IsWithinLimits b i =
      let e = stop-same b in
      record {
        max_stores = ground arith;
        max_transactions = ground arith;
        stores = ground arith;
        transactions = ground arith;
      }

  call-IsWithinLimits :
      (c : Call) (b : Backend) → IsWithinLimits m n b → IsWithinLimits m n (call c b)
  unfolding call start close_store open_blob_read add_blob write_blob abort_blob close_blob
      finish_blob leave_blob set_store end_writer open_cursor add_cursor next_cursor close_cursor
      rollback_store apply_migration apply_at commit_migration abort_migration close_migration
      end_migration
  call-IsWithinLimits Call.start b i = record {
    max_stores = ground arith;
    max_transactions = ground arith;
    stores = ground arith;
    transactions = ground arith;
  }
  call-IsWithinLimits Call.stop b i = stop-IsWithinLimits b i
  call-IsWithinLimits (Call.open_store d) b i = open_store-IsWithinLimits d b i
  call-IsWithinLimits (Call.close_store h) b i = record {
    max_stores = ground arith;
    max_transactions = ground arith;
    stores = ground arith;
    transactions = ground arith;
  }
  call-IsWithinLimits (Call.begin_read h) b i = begin-IsWithinLimits h _ _ _ b i
  call-IsWithinLimits (Call.begin_write h d) b i = begin-IsWithinLimits h _ _ _ b i
  call-IsWithinLimits (Call.begin_write_at h d g) b i = begin-IsWithinLimits h _ _ _ b i
  call-IsWithinLimits (Call.put h k v) b i = put-IsWithinLimits h k v b i
  call-IsWithinLimits (Call.erase h k) b i = erase-IsWithinLimits h k b i
  call-IsWithinLimits (Call.commit h) b i = commit-IsWithinLimits h b i
  call-IsWithinLimits (Call.abort h) b i = abort-IsWithinLimits h b i
  call-IsWithinLimits (Call.close_transaction h) b i = close_transaction-IsWithinLimits h b i
  call-IsWithinLimits (Call.open_blob_read h k) b i = record {
    max_stores = ground arith;
    max_transactions = ground arith;
    stores = ground arith;
    transactions = ground arith;
  }
  call-IsWithinLimits (Call.begin_blob_replace h k s d) b i =
      begin_blob_replace-IsWithinLimits h k s d b i
  call-IsWithinLimits (Call.write_blob h o v) b i = record {
    max_stores = ground arith;
    max_transactions = ground arith;
    stores = ground arith;
    transactions = ground arith;
  }
  call-IsWithinLimits (Call.commit_blob h) b i = commit_blob-IsWithinLimits h b i
  call-IsWithinLimits (Call.abort_blob h) b i = record {
    max_stores = ground arith;
    max_transactions = ground arith;
    stores = ground arith;
    transactions = ground arith;
  }
  call-IsWithinLimits (Call.close_blob h) b i = record {
    max_stores = ground arith;
    max_transactions = ground arith;
    stores = ground arith;
    transactions = ground arith;
  }
  call-IsWithinLimits (Call.open_cursor h p) b i = record {
    max_stores = ground arith;
    max_transactions = ground arith;
    stores = ground arith;
    transactions = ground arith;
  }
  call-IsWithinLimits (Call.next_cursor h k v) b i = record {
    max_stores = ground arith;
    max_transactions = ground arith;
    stores = ground arith;
    transactions = ground arith;
  }
  call-IsWithinLimits (Call.close_cursor h) b i = record {
    max_stores = ground arith;
    max_transactions = ground arith;
    stores = ground arith;
    transactions = ground arith;
  }
  call-IsWithinLimits (Call.reset_store h es d) b i = reset_store-IsWithinLimits h es d b i
  call-IsWithinLimits (Call.begin_migration h d r) b i = begin_migration-IsWithinLimits h d r b i
  call-IsWithinLimits (Call.apply_migration h k e) b i = record {
    max_stores = ground arith;
    max_transactions = ground arith;
    stores = ground arith;
    transactions = ground arith;
  }
  call-IsWithinLimits (Call.commit_migration h) b i = record {
    max_stores = ground arith;
    max_transactions = ground arith;
    stores = ground arith;
    transactions = ground arith;
  }
  call-IsWithinLimits (Call.abort_migration h) b i = record {
    max_stores = ground arith;
    max_transactions = ground arith;
    stores = ground arith;
    transactions = ground arith;
  }
  call-IsWithinLimits (Call.close_migration h) b i = record {
    max_stores = ground arith;
    max_transactions = ground arith;
    stores = ground arith;
    transactions = ground arith;
  }
  call-IsWithinLimits (Call.rollback_store h d) b i = record {
    max_stores = ground arith;
    max_transactions = ground arith;
    stores = ground arith;
    transactions = ground arith;
  }

  run-IsWithinLimits :
      (cs : List Call) (b : Backend) → IsWithinLimits m n b → IsWithinLimits m n (run cs b)
  unfolding run
  run-IsWithinLimits [] b i = i
  run-IsWithinLimits (c ∷ cs) b i = run-IsWithinLimits cs (call c b) (call-IsWithinLimits c b i)

create-IsWithinLimits : (m n : ℕ) (b : Backend) → create m n ≡ done b → IsWithinLimits m n b
unfolding create
create-IsWithinLimits m n b e = record {
  max_stores = ground arith;
  max_transactions = ground arith;
  stores = ground arith;
  transactions = ground arith;
}

-- A backend that was created for so many stores and transactions never has more of them, whatever
-- is called.
pub run-create-IsWithinLimits :
    (m n : ℕ) (b : Backend) (cs : List Call)
    → create m n ≡ done b
    → (length (run cs b).stores ≤ m) × (length (run cs b).transactions ≤ n)
unfolding create
run-create-IsWithinLimits m n b cs e =
    let i = run-IsWithinLimits cs b (create-IsWithinLimits m n b e) in (i.stores, i.transactions)
