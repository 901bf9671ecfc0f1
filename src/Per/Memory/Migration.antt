-- ===== src/Per/Memory/Migration.antt =====
-- per/backends/memory.cpp: the migration of a store to another schema.
use openvehicleframework.Base.{
  ℕ, Bool, true, false, not, ◌&&◌, ◌||◌, Option, some, none, [], find, emplace, remove, is_empty,
  if◌then◌else◌, ◌==◌, ltb, length,
}
use openvehicleframework.Per.Bytes.{Bytes, Values, bytes_equal, bytes_less, put_value, size_of}
use openvehicleframework.Per.Types.{
  Status, Reply, done, refused, is_read_write, RecoveryState, View, is_valid_view, copy,
  size_of_view, is_blank, CommitResult, Entry, null, view, MigrationDescriptor, MigrationStatus,
}
use openvehicleframework.Per.Memory.{
  StoreData, StoreHandle, Backend, incremented, store_at, set_store,
}
use openvehicleframework.Per.Memory.Lifecycle.{end_migration}
use openvehicleframework.Per.Memory.Recovery.{is_bad_entry}

-- `Same`.
abbrev pub is_same : View → Bytes → Bool
is_same (null size) expected = false
is_same (view bytes) expected = bytes_equal bytes expected

-- The first test of `BeginMigration`.
abbrev pub is_incomplete_migration : MigrationDescriptor → Bool
is_incomplete_migration d =
    is_blank d.migration_id || is_blank d.target_schema_id || (d.target_schema_version == 0)

-- The migration of the store is the one of the descriptor.
abbrev pub is_resumed_by : StoreData → MigrationDescriptor → Bool
is_resumed_by s d =
    bytes_equal s.migration_id (copy d.migration_id)
    && is_same d.source_schema_id s.migration_source_schema_id
    && (d.source_schema_version == s.migration_source_schema_version)
    && is_same d.target_schema_id s.migration_target_schema_id
    && (d.target_schema_version == s.migration_target_schema_version)

-- The descriptor starts from the schema of the store.
abbrev pub is_started_by : StoreData → MigrationDescriptor → Bool
is_started_by s d =
    is_same d.source_schema_id s.schema_id && (d.source_schema_version == s.schema_version)

-- A migration that begins anew.
abbrev pub with_migration : MigrationDescriptor → StoreData → StoreData
with_migration d s = record s {
  migration_id = copy d.migration_id;
  migration_source_schema_id = s.schema_id;
  migration_source_schema_version = s.schema_version;
  migration_target_schema_id = copy d.target_schema_id;
  migration_target_schema_version = d.target_schema_version;
  migration_source_generation = s.generation;
  migration_values = [];
  migration_checkpoint = [];
  migration_processed = 0;
}

-- The buffer, null where the room is none, does not hold the checkpoint.
abbrev pub lacks_checkpoint : Option ℕ → Bytes → Bool
lacks_checkpoint none checkpoint = not (is_empty checkpoint)
lacks_checkpoint (some room) checkpoint = ltb room (length checkpoint)

-- The end of `BeginMigration`, for a store with its migration.
unfoldable pub migrate_at :
    ℕ
    → StoreData
    → Bool
    → MigrationDescriptor
    → Option ℕ
    → Backend
    → Reply (ℕ × MigrationStatus × Bytes) × Backend
unfolding set_store incremented
migrate_at a s resumed d room b =
    if lacks_checkpoint room s.migration_checkpoint
    then (refused Status.buffer_too_small, set_store a s b)
    else (
      done (
        b.next_handle,
        record {
          source_generation = s.migration_source_generation;
          processed_entries = s.migration_processed;
          resumed = resumed;
        },
        s.migration_checkpoint,
      ),
      record (set_store a (record s { migration_handle_active = true }) b) {
        next_handle = incremented b.next_handle;
        migrations =
            emplace b.next_handle (record { store = a; durability = d.durability }) b.migrations;
      },
    )

-- `BeginMigration` on a handle that is there.
unfoldable pub migrate_on :
    StoreHandle
    → MigrationDescriptor
    → Option ℕ
    → Backend
    → Reply (ℕ × MigrationStatus × Bytes) × Backend
unfolding migrate_at store_at
migrate_on h d room b =
    let s = store_at h.store b in
    if not (is_read_write h.access)
    then (refused Status.permission_denied, b)
    else if s.writer_active || s.migration_handle_active
    then (refused Status.busy, b)
    else if not (is_empty s.migration_id)
    then (if is_resumed_by s d
        then migrate_at h.store s true d room b
        else (refused Status.conflict, b))
    else if is_started_by s d
    then migrate_at h.store (with_migration d s) false d room b
    else (refused Status.conflict, b)

-- `BeginMigration`: the handle, the status and the checkpoint.
unfoldable pub begin_migration :
    ℕ → MigrationDescriptor → Option ℕ → Backend → Reply (ℕ × MigrationStatus × Bytes) × Backend
unfolding migrate_on
begin_migration store d room b =
    if is_incomplete_migration d
    then (refused Status.invalid_argument, b)
    else elim (find store b.store_handles) [
      | none ↦ (refused Status.not_found, b)
      | some h ↦ migrate_on h d room b
    ]

-- `source <= store.migration_checkpoint`, where there is one.
abbrev pub is_behind : Bytes → Bytes → Bool
is_behind source checkpoint = not (is_empty checkpoint) && not (bytes_less checkpoint source)

-- The values of the migration with the target, if there is one, or none where it is bad.
unfoldable pub with_target : StoreData → Option Entry → Option Values
unfolding put_value
with_target s none = some s.migration_values
with_target s (some e) =
    if is_bad_entry s e
    then none
    else some (put_value (copy e.key) (copy e.value) s.migration_values)

-- `ApplyMigration` on a handle that is there.
unfoldable pub apply_at : ℕ → Bytes → Option Entry → Backend → Reply (Unit {0}) × Backend
unfolding with_target store_at set_store incremented
apply_at a source target b =
    let s = store_at a b in
    if is_behind source s.migration_checkpoint
    then (refused Status.conflict, b)
    else elim (with_target s target) [
      | none ↦ (refused Status.invalid_argument, b)
      | some candidate ↦
          if ltb s.max_entries (length candidate) || ltb s.capacity (size_of candidate)
          then (refused Status.quota_exceeded, b)
          else (
            done tt,
            set_store a
                (record s {
                  migration_values = candidate;
                  migration_checkpoint = source;
                  migration_processed = incremented s.migration_processed;
                })
                b,
          )
    ]

-- `ApplyMigration`; `write_target` is set where there is a target.
unfoldable pub apply_migration : ℕ → View → Option Entry → Backend → Reply (Unit {0}) × Backend
unfolding apply_at
apply_migration h source target b =
    if not (is_valid_view source) || (size_of_view source == 0)
    then (refused Status.invalid_argument, b)
    else elim (find h b.migrations) [
      | none ↦ (refused Status.not_found, b)
      | some o ↦ apply_at o.store (copy source) target b
    ]

-- The store of a migration that is committed. What is moved away is left empty.
abbrev pub as_migrated : StoreData → StoreData
as_migrated s = record s {
  rollback_values = s.values;
  rollback_blobs = s.blobs;
  rollback_schema_id = s.schema_id;
  rollback_schema_version = s.schema_version;
  rollback_available = true;
  values = s.migration_values;
  migration_values = [];
  schema_id = s.migration_target_schema_id;
  migration_target_schema_id = [];
  schema_version = s.migration_target_schema_version;
  migration_id = [];
  migration_checkpoint = [];
  migration_handle_active = false;
  generation = incremented s.generation;
  successful_commits = incremented s.successful_commits;
  recovery_count = incremented s.recovery_count;
  recovery_state = RecoveryState.migrated;
}

-- `CommitMigration`.
unfoldable pub commit_migration : ℕ → Backend → Reply CommitResult × Backend
unfolding store_at set_store incremented
commit_migration h b = elim (find h b.migrations) [
  | none ↦ (refused Status.not_found, b)
  | some o ↦
      let s = store_at o.store b in
      if not (s.generation == s.migration_source_generation)
      then (refused Status.conflict, b)
      else (
        done (record { generation = incremented s.generation; achieved_durability = o.durability }),
        set_store o.store (as_migrated s) b,
      )
]

-- `AbortMigration`.
unfoldable pub abort_migration : ℕ → Backend → Reply (Unit {0}) × Backend
unfolding end_migration
abort_migration h b = elim (find h b.migrations) [
  | none ↦ (refused Status.not_found, b)
  | some o ↦ (done tt, end_migration o.store b)
]

-- `CloseMigration`.
unfoldable pub close_migration : ℕ → Backend → Reply (Unit {0}) × Backend
unfolding end_migration
close_migration h b = elim (find h b.migrations) [
  | none ↦ (refused Status.not_found, b)
  | some o ↦ (done tt, record (end_migration o.store b) { migrations = remove h b.migrations })
]
