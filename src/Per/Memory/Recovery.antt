-- ===== src/Per/Memory/Recovery.antt =====
-- per/backends/memory.cpp: reset, status and rollback of a store.
use openvehicleframework.Base.{
  ℕ, Bool, false, not, ◌||◌, Option, some, none, List, [], ◌∷◌, find, is_some, is_empty,
  if◌then◌else◌, ◌==◌, ltb, length,
}
use openvehicleframework.Per.Bytes.{Values, value_at, put_value, size_of}
use openvehicleframework.Per.Types.{
  Status, Reply, done, refused, Durability, more_than_buffered, is_read_write, RecoveryState,
  is_valid_view, copy, size_of_view, CommitResult, StoreStatus, Entry,
}
use openvehicleframework.Per.Memory.{
  StoreData, StoreHandle, Backend, incremented, store_at, set_store,
}
use openvehicleframework.Per.Memory.Transactions.{count_rejected}

-- An entry that is no key and value of the store.
abbrev pub is_bad_entry : StoreData → Entry → Bool
is_bad_entry s e =
    not (is_valid_view e.key)
    || not (is_valid_view e.value)
    || (size_of_view e.key == 0)
    || ltb s.max_key_size (size_of_view e.key)
    || ltb s.max_value_size (size_of_view e.value)

-- The loop of `ResetStore`; a bad entry or a key that comes twice ends it.
unfoldable pub collect : StoreData → List Entry → Values → Option Values
unfolding value_at put_value
collect s [] values = some values
collect s (e ∷ es) values =
    let rest = collect s es (put_value (copy e.key) (copy e.value) values) in
    if is_bad_entry s e || is_some (value_at (copy e.key) values) then none else rest

-- `ResetStore` with the values that it collected.
unfoldable pub reset_to : ℕ → Values → Durability → Backend → Reply CommitResult × Backend
unfolding count_rejected store_at set_store incremented
reset_to a replacement durability b =
    let s = store_at a b in
    if ltb s.max_entries (length replacement) || ltb s.capacity (size_of replacement)
    then (refused Status.quota_exceeded, count_rejected a b)
    else (
      done (record { generation = incremented s.generation; achieved_durability = durability }),
      set_store a
          (record s {
            values = replacement;
            blobs = [];
            generation = incremented s.generation;
            successful_commits = incremented s.successful_commits;
            recovery_count = incremented s.recovery_count;
            recovery_state = RecoveryState.reset;
          })
          b,
    )

-- `ResetStore` on a handle that is there.
unfoldable pub reset_on :
    StoreHandle → List Entry → Durability → Backend → Reply CommitResult × Backend
unfolding reset_to collect count_rejected store_at
reset_on h entries durability b =
    let s = store_at h.store b in
    if not (is_read_write h.access)
    then (refused Status.permission_denied, b)
    else if more_than_buffered durability
    then (refused Status.unsupported, b)
    else if s.writer_active
    then (refused Status.busy, b)
    else if not (is_empty s.migration_id)
    then (refused Status.busy, b)
    else elim (collect s entries []) [
      | none ↦ (refused Status.invalid_argument, count_rejected h.store b)
      | some replacement ↦ reset_to h.store replacement durability b
    ]

-- `ResetStore`.
unfoldable pub reset_store : ℕ → List Entry → Durability → Backend → Reply CommitResult × Backend
unfolding reset_on
reset_store store entries durability b = elim (find store b.store_handles) [
  | none ↦ (refused Status.not_found, b)
  | some h ↦ reset_on h entries durability b
]

-- `StoreStatus`.
unfoldable pub store_status : ℕ → Backend → Reply StoreStatus
unfolding store_at
store_status store b = elim (find store b.store_handles) [
  | none ↦ refused Status.not_found
  | some h ↦
      let s = store_at h.store b in
      done (record {
        generation = s.generation;
        schema_version = s.schema_version;
        recovery_state = s.recovery_state;
        successful_commits = s.successful_commits;
        rejected_operations = s.rejected_operations;
        recovery_count = s.recovery_count;
      })
]

-- The store after a rollback. What is moved away is left empty.
abbrev pub as_rolled_back : StoreData → StoreData
as_rolled_back s = record s {
  values = s.rollback_values;
  blobs = s.rollback_blobs;
  schema_id = s.rollback_schema_id;
  rollback_values = [];
  rollback_blobs = [];
  rollback_schema_id = [];
  schema_version = s.rollback_schema_version;
  rollback_available = false;
  generation = incremented s.generation;
  successful_commits = incremented s.successful_commits;
  recovery_count = incremented s.recovery_count;
  recovery_state = RecoveryState.rolled_back;
}

-- `RollbackStore`.
unfoldable pub rollback_store : ℕ → Durability → Backend → Reply CommitResult × Backend
unfolding store_at set_store incremented
rollback_store store durability b = elim (find store b.store_handles) [
  | none ↦ (refused Status.not_found, b)
  | some h ↦
      let s = store_at h.store b in
      if not (is_read_write h.access)
      then (refused Status.permission_denied, b)
      else if not s.rollback_available
      then (refused Status.not_found, b)
      else (
        done (record { generation = incremented s.generation; achieved_durability = durability }),
        set_store h.store (as_rolled_back s) b,
      )
]
