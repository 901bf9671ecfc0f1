-- ===== src/Per/Memory/Examples.antt =====
-- Runs of the memory backend (per/backends/memory.cpp) on a store of settings.
use openvehicleframework.Base.{
  ℕ, ◌+◌, ◌≤◌, true, false, some, List, [], ◌∷◌, arith, ◌≡◌, refl, if◌then◌else◌, length, is_some,
}
use openvehicleframework.Per.Bytes.{Bytes, bytes_equal, value_at, put_value, Values}
use openvehicleframework.Per.Bytes.Pieces.{join}
use openvehicleframework.Per.Types.{
  Status, done, refused, view, Durability, Access, StoreDescriptor, MigrationDescriptor,
  CommitResult,
}
use openvehicleframework.Per.Memory.{Backend, StoreHandle, Transaction, store_at, incremented}
use openvehicleframework.Per.Memory.Lifecycle.{create}
use openvehicleframework.Per.Memory.Transactions.{
  begin_write, put, erase, get, commit, begin_read, open_transaction, open_writer,
}
use openvehicleframework.Per.Memory.Blobs.{
  begin_blob_replace, commit_blob, open_blob_read, read_blob,
}
use openvehicleframework.Per.Memory.Cursors.{open_cursor}
use openvehicleframework.Per.Memory.Recovery.{rollback_store}
use openvehicleframework.Per.Memory.Migration.{commit_migration}
use openvehicleframework.Per.Memory.Calls.{Call, run}
use openvehicleframework.Per.Memory.Snapshots.{get-run}
use openvehicleframework.Per.Memory.Limits.{run-create-IsWithinLimits}
use openvehicleframework.Per.Memory.Writers.{writers}
use openvehicleframework.Per.Memory.Writers.Calls.{writers-run}
use openvehicleframework.Per.Memory.Stuck.Rollback.{content, run-rollback_store}
use openvehicleframework.Per.Memory.Prefixes.{enumerate, with_prefix, enumerate-open_cursor}
use openvehicleframework.Per.Memory.Writes.{get-put, get-commit}
use openvehicleframework.Per.Memory.BlobWrites.{read_blob-commit_blob}
use openvehicleframework.Per.Memory.BlobWrites.Written.{write_pieces}

abbrev settings : StoreDescriptor
settings = record {
  logical_name = view (7 ∷ []);
  access = Access.read_write;
  minimum_durability = Durability.buffered;
  capacity_bytes = 100;
  max_entries = 10;
  max_key_size = 4;
  max_value_size = 8;
  max_blob_size = 16;
  schema_id = view (1 ∷ []);
  schema_version = 1;
}

abbrev created : Backend
created = record {
  heap = [];
  stores = [];
  store_handles = [];
  transactions = [];
  blobs = [];
  cursors = [];
  migrations = [];
  next_handle = 1;
  max_stores = 2;
  max_transactions = 8;
  running = false;
}

-- The store is open under 1, and the writer 2 has put two values.
abbrev writing : List Call
writing =
    Call.start
    ∷ Call.open_store settings
    ∷ Call.begin_write 1 Durability.buffered
    ∷ Call.put 2 (view (5 ∷ [])) (view (50 ∷ []))
    ∷ Call.put 2 (view (5 ∷ 6 ∷ [])) (view (56 ∷ []))
    ∷ []

abbrev written : Backend
written = run writing created

created_test : create 2 8 ≡ done created
unfolding create
created_test = refl

written_test : get 2 (view (5 ∷ 6 ∷ [])) (some 8) written ≡ done (56 ∷ [])
unfolding get run put openvehicleframework.Per.Memory.Transactions.begin
    openvehicleframework.Per.Memory.Lifecycle.open_store
    openvehicleframework.Per.Memory.Lifecycle.start openvehicleframework.Per.Bytes.size_of
written_test = refl

abbrev entries : Values
entries = (5 ∷ [], 50 ∷ []) ∷ (5 ∷ 6 ∷ [], 56 ∷ []) ∷ []

abbrev writer : Transaction
writer = record {
  store = 0;
  values = entries;
  base_generation = 0;
  durability = Durability.buffered;
  write = true;
  finished = false;
}

-- The writer has committed, and 3 reads.
abbrev read_back : Backend
read_back = run (Call.commit 2 ∷ Call.begin_read 1 ∷ []) written

abbrev reader : Transaction
reader = record writer { base_generation = 1; write = false }

abbrev overwriting : List Call
overwriting =
    Call.begin_write 1 Durability.buffered
    ∷ Call.put 4 (view (5 ∷ [])) (view (51 ∷ []))
    ∷ Call.commit 4
    ∷ Call.reset_store 1 [] Durability.buffered
    ∷ []

get-run_example :
    get 3 (view (5 ∷ [])) (some 8) (run overwriting read_back)
    ≡ get 3 (view (5 ∷ [])) (some 8) read_back
unfolding run openvehicleframework.Per.Memory.Transactions.begin commit put
    openvehicleframework.Per.Memory.Lifecycle.open_store
    openvehicleframework.Per.Memory.Lifecycle.start openvehicleframework.Per.Bytes.size_of
get-run_example = get-run 3 reader overwriting read_back (view (5 ∷ [])) (some 8) refl refl refl

run-create-IsWithinLimits_example :
    (length (run writing created).stores ≤ 2) × (length (run writing created).transactions ≤ 8)
run-create-IsWithinLimits_example = run-create-IsWithinLimits 2 8 created writing created_test

writers-run_example :
    writers 0 (run writing created)
    ≡ (if (store_at 0 (run writing created)).writer_active then 1 else 0)
writers-run_example = writers-run 2 8 0 created writing created_test (omega arith)

enumerate-open_cursor_example :
    ((open_cursor 3 (view (5 ∷ [])) read_back).0 ≡ done 4)
    × (enumerate 3 4 4 8 (open_cursor 3 (view (5 ∷ [])) read_back).1
        ≡ (with_prefix (5 ∷ []) entries, some Status.not_found))
unfolding open_transaction run openvehicleframework.Per.Memory.Transactions.begin commit put
    openvehicleframework.Per.Memory.Lifecycle.open_store
    openvehicleframework.Per.Memory.Lifecycle.start openvehicleframework.Per.Bytes.size_of
    with_prefix
enumerate-open_cursor_example =
    enumerate-open_cursor 3 3 4 8 (5 ∷ []) reader read_back refl refl refl refl refl (omega arith)

get-put_example :
    ((put 2 (view (6 ∷ [])) (view (60 ∷ [])) written).0 ≡ done tt
      → get 2 (view (5 ∷ [])) (some 8) (put 2 (view (6 ∷ [])) (view (60 ∷ [])) written).1 ≡ (
          if bytes_equal (6 ∷ []) (5 ∷ [])
          then done (60 ∷ [])
          else get 2 (view (5 ∷ [])) (some 8) written))
    × ((erase 2 (view (6 ∷ [])) written).0 ≡ done (is_some (value_at (6 ∷ []) entries)))
    × (get 2 (view (5 ∷ [])) (some 8) (erase 2 (view (6 ∷ [])) written).1 ≡ (
        if bytes_equal (6 ∷ []) (5 ∷ [])
        then refused Status.not_found
        else get 2 (view (5 ∷ [])) (some 8) written))
unfolding open_writer run put openvehicleframework.Per.Memory.Transactions.begin
    openvehicleframework.Per.Memory.Lifecycle.open_store
    openvehicleframework.Per.Memory.Lifecycle.start openvehicleframework.Per.Bytes.size_of
get-put_example =
    get-put 2 (6 ∷ []) (60 ∷ []) (5 ∷ []) 8 writer written refl refl refl refl (omega arith)

abbrev result : CommitResult
result = record { generation = 1; achieved_durability = Durability.buffered }

get-commit_example :
    (1 ≡ result.generation)
    × (get 3 (view (5 ∷ [])) (some 8) (begin_read 1 (commit 2 written).1).1
        ≡ get 2 (view (5 ∷ [])) (some 8) written)
unfolding open_writer run put openvehicleframework.Per.Memory.Transactions.begin
    openvehicleframework.Per.Memory.Lifecycle.open_store
    openvehicleframework.Per.Memory.Lifecycle.start openvehicleframework.Per.Bytes.size_of commit
    begin_read
get-commit_example =
    get-commit 2 1 3 1 8 (5 ∷ []) writer (record { store = 0; access = Access.read_write }) result
      written refl refl refl refl refl refl refl

abbrev opened_store : Backend
opened_store = run (Call.start ∷ Call.open_store settings ∷ []) created

abbrev pieces : List Bytes
pieces = (1 ∷ 2 ∷ []) ∷ (3 ∷ []) ∷ []

read_blob-commit_blob_example :
    let b =
      write_pieces 2 0 pieces
        (begin_blob_replace 1 (view (8 ∷ [])) 3 Durability.buffered opened_store).1 in
    ((commit_blob 2 b).0
      ≡ done (record { generation = incremented 0; achieved_durability = Durability.buffered }))
    × ((open_blob_read 1 (view (8 ∷ [])) (commit_blob 2 b).1).0
        ≡ done (incremented 2, 3, incremented 0))
    × (read_blob (incremented 2) 0 3 (open_blob_read 1 (view (8 ∷ [])) (commit_blob 2 b).1).1
        ≡ done (join pieces))
unfolding run openvehicleframework.Per.Memory.Lifecycle.open_store
    openvehicleframework.Per.Memory.Lifecycle.start begin_blob_replace
    openvehicleframework.Per.Bytes.size_of
read_blob-commit_blob_example =
    read_blob-commit_blob 1 2 0 (8 ∷ []) pieces Durability.buffered
      (record { store = 0; access = Access.read_write }) opened_store refl refl refl refl refl refl

-- From one version of the schema to the next.
abbrev migration : ℕ → MigrationDescriptor
migration version = record {
  migration_id = view (9 ∷ []);
  source_schema_id = view (1 ∷ []);
  source_schema_version = version;
  target_schema_id = view (1 ∷ []);
  target_schema_version = version + 1;
  durability = Durability.buffered;
}

-- A migration that is committed, and another one that is begun.
abbrev migrating : List Call
migrating =
    Call.start
    ∷ Call.open_store settings
    ∷ Call.begin_migration 1 (migration 1) (some 0)
    ∷ Call.commit_migration 2
    ∷ Call.begin_migration 1 (migration 2) (some 0)
    ∷ []

abbrev recovering : List Call
recovering =
    Call.commit_migration 3
    ∷ Call.begin_write 1 Durability.buffered
    ∷ Call.reset_store 1 [] Durability.buffered
    ∷ []

run-rollback_store_example :
    content 0 (run recovering (rollback_store 1 Durability.buffered (run migrating created)).1)
    ≡ content 0 (rollback_store 1 Durability.buffered (run migrating created)).1
unfolding run openvehicleframework.Per.Memory.Migration.begin_migration
    openvehicleframework.Per.Memory.Migration.commit_migration
    openvehicleframework.Per.Memory.Lifecycle.open_store
    openvehicleframework.Per.Memory.Lifecycle.start
run-rollback_store_example =
    run-rollback_store 2 8 created migrating recovering 1 Durability.buffered
      (record { store = 0; access = Access.read_write }) created_test (omega arith) refl refl refl
      refl refl refl

-- After a rollback in the middle of a migration, writing and committing the migration are refused.
busy_test :
    (begin_write 1 Durability.buffered
      (rollback_store 1 Durability.buffered (run migrating created)).1).0
    ≡ refused Status.busy
unfolding begin_write rollback_store run openvehicleframework.Per.Memory.Migration.begin_migration
    commit_migration openvehicleframework.Per.Memory.Lifecycle.open_store
    openvehicleframework.Per.Memory.Lifecycle.start
busy_test = refl

conflict_test :
    (commit_migration 3 (rollback_store 1 Durability.buffered (run migrating created)).1).0
    ≡ refused Status.conflict
unfolding commit_migration rollback_store run
    openvehicleframework.Per.Memory.Migration.begin_migration
    openvehicleframework.Per.Memory.Lifecycle.open_store
    openvehicleframework.Per.Memory.Lifecycle.start
conflict_test = refl
