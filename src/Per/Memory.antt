-- ===== src/Per/Memory.antt =====
-- per/backends/memory.cpp: the state of the memory backend. A shared
-- pointer to a store is an address in the heap; no store is ever freed while the backend lives, since
-- the table of names keeps it. Out parameters are results, hence never null; the texts for
-- `LastError` are left out. The mutex makes each call one step.
pub mod Lifecycle
pub mod Transactions
pub mod Blobs
pub mod Cursors
pub mod Recovery
pub mod Migration
pub mod Calls
pub mod Snapshots
mod Examples
pub mod BlobWrites
pub mod Writes
pub mod Prefixes
pub mod Stuck
pub mod Writers
pub mod Stopping
pub mod Limits
use openvehicleframework.Base.{
  ℕ, ◌+◌, ◌*◌, ◌%◌, ◌^◌, Bool, true, false, not, ◌&&◌, ◌||◌, Option, some, none, List, [], ◌∷◌,
  Table, find, assign, emplace, remove, has_key, is_empty, if◌then◌else◌, ◌==◌, leb, length,
}
use openvehicleframework.Per.Bytes.{Bytes, Values, bytes_equal}
use openvehicleframework.Per.Types.{
  Status, Reply, done, refused, Durability, more_than_buffered, Access, is_read_write,
  RecoveryState, View, copy, is_blank, StoreDescriptor, Capabilities,
}

-- `StoreData`.
pub record StoreData : Type 0 where
  pub values : Values
  pub blobs : Values
  pub generation : ℕ
  pub capacity : ℕ
  pub max_entries : ℕ
  pub max_key_size : ℕ
  pub max_value_size : ℕ
  pub max_blob_size : ℕ
  pub schema_id : Bytes
  pub schema_version : ℕ
  pub writer_active : Bool
  pub successful_commits : ℕ
  pub rejected_operations : ℕ
  pub recovery_count : ℕ
  pub recovery_state : RecoveryState
  pub rollback_values : Values
  pub rollback_blobs : Values
  pub rollback_schema_id : Bytes
  pub rollback_schema_version : ℕ
  pub rollback_available : Bool
  pub migration_id : Bytes
  pub migration_source_schema_id : Bytes
  pub migration_source_schema_version : ℕ
  pub migration_target_schema_id : Bytes
  pub migration_target_schema_version : ℕ
  pub migration_source_generation : ℕ
  pub migration_values : Values
  pub migration_checkpoint : Bytes
  pub migration_processed : ℕ
  pub migration_handle_active : Bool

-- `StoreData{}`.
abbrev pub new_store : StoreData
new_store = record {
  values = [];
  blobs = [];
  generation = 0;
  capacity = 0;
  max_entries = 0;
  max_key_size = 0;
  max_value_size = 0;
  max_blob_size = 0;
  schema_id = [];
  schema_version = 0;
  writer_active = false;
  successful_commits = 0;
  rejected_operations = 0;
  recovery_count = 0;
  recovery_state = RecoveryState.clean;
  rollback_values = [];
  rollback_blobs = [];
  rollback_schema_id = [];
  rollback_schema_version = 0;
  rollback_available = false;
  migration_id = [];
  migration_source_schema_id = [];
  migration_source_schema_version = 0;
  migration_target_schema_id = [];
  migration_target_schema_version = 0;
  migration_source_generation = 0;
  migration_values = [];
  migration_checkpoint = [];
  migration_processed = 0;
  migration_handle_active = false;
}

pub record Cursor : Type 0 where
  pub entries : Values
  pub position : ℕ

pub record MigrationOperation : Type 0 where
  pub store : ℕ
  pub durability : Durability

pub record BlobOperation : Type 0 where
  pub store : ℕ
  pub key : Bytes
  pub value : Bytes
  pub generation : ℕ
  pub written : ℕ
  pub durability : Durability
  pub write : Bool
  pub finished : Bool

pub record StoreHandle : Type 0 where
  pub store : ℕ
  pub access : Access

pub record Transaction : Type 0 where
  pub store : ℕ
  pub values : Values
  pub base_generation : ℕ
  pub durability : Durability
  pub write : Bool
  pub finished : Bool

-- `MemoryBackend`, with the heap of the stores.
pub record Backend : Type 0 where
  pub heap : Table StoreData
  pub stores : List (Bytes × ℕ)
  pub store_handles : Table StoreHandle
  pub transactions : Table Transaction
  pub blobs : Table BlobOperation
  pub cursors : Table Cursor
  pub migrations : Table MigrationOperation
  pub next_handle : ℕ
  pub max_stores : ℕ
  pub max_transactions : ℕ
  pub running : Bool

-- `++` of a 64-bit counter.
unfoldable pub incremented : ℕ → ℕ
incremented n = (n + 1) % 2 ^ 64

-- What a pointer to a store points at.
unfoldable pub store_at : ℕ → Backend → StoreData
store_at a b = elim (find a b.heap) [ none ↦ new_store | some s ↦ s ]

unfoldable pub set_store : ℕ → StoreData → Backend → Backend
set_store a s b = record b { heap = assign a s b.heap }

-- `store->writer_active = false`.
unfoldable pub end_writer : ℕ → Backend → Backend
unfolding store_at set_store
end_writer a b = set_store a (record (store_at a b) { writer_active = false }) b
