-- ===== src/Per/Memory/Lifecycle.antt =====
-- per/backends/memory.cpp: the life cycle of the backend, and the opening and closing of stores.
use openvehicleframework.Base.{
  ℕ, ◌*◌, Bool, true, false, not, ◌&&◌, ◌||◌, Option, some, none, List, [], ◌∷◌, Table, assign,
  emplace, remove, has_key, if◌then◌else◌, ◌==◌, leb, length,
}
use openvehicleframework.Per.Bytes.{Bytes, bytes_equal}
use openvehicleframework.Per.Types.{
  Status, Reply, done, refused, Durability, more_than_buffered, Access, copy, is_blank,
  StoreDescriptor, Capabilities,
}
use openvehicleframework.Per.Memory.{
  StoreData, new_store, MigrationOperation, BlobOperation, Transaction, Backend, incremented,
  store_at, set_store, end_writer,
}

-- `Create`.
unfoldable pub create : ℕ → ℕ → Reply Backend
create max_stores max_transactions =
    if (max_stores == 0) || (max_transactions == 0)
    then refused Status.invalid_argument
    else done (record {
      heap = [];
      stores = [];
      store_handles = [];
      transactions = [];
      blobs = [];
      cursors = [];
      migrations = [];
      next_handle = 1;
      max_stores = max_stores;
      max_transactions = max_transactions;
      running = false;
    })

-- `Start`.
unfoldable pub start : Backend → Reply (Unit {0}) × Backend
start b = (done tt, record b { running = true })

-- The loops of `Stop`.
unfoldable pub stop_transactions : Table Transaction → Backend → Backend
unfolding end_writer
stop_transactions [] b = b
stop_transactions ((h, t) ∷ ts) b =
    stop_transactions ts (if t.write && not t.finished then end_writer t.store b else b)

unfoldable pub stop_blobs : Table BlobOperation → Backend → Backend
unfolding end_writer
stop_blobs [] b = b
stop_blobs ((h, o) ∷ os) b =
    stop_blobs os (if o.write && not o.finished then end_writer o.store b else b)

unfoldable pub end_migration : ℕ → Backend → Backend
unfolding store_at set_store
end_migration a b = set_store a (record (store_at a b) { migration_handle_active = false }) b

unfoldable pub stop_migrations : Table MigrationOperation → Backend → Backend
unfolding end_migration
stop_migrations [] b = b
stop_migrations ((h, o) ∷ os) b = stop_migrations os (end_migration o.store b)

-- `Stop`.
unfoldable pub stop : Backend → Backend
unfolding stop_transactions stop_blobs stop_migrations
stop b =
    record (stop_migrations b.migrations
      (stop_blobs b.blobs (stop_transactions b.transactions b))) {
        running = false;
        transactions = [];
        blobs = [];
        cursors = [];
        migrations = [];
        store_handles = [];
      }

-- `Capabilities`.
unfoldable pub capabilities : Backend → Capabilities
capabilities b = record {
  max_stores = b.max_stores;
  max_transactions = b.max_transactions;
  max_store_bytes = 64 * 1024 * 1024;
  max_key_size = 4096;
  max_value_size = 16 * 1024 * 1024;
  max_blob_size = 64 * 1024 * 1024;
  maximum_durability = Durability.buffered;
  persistent = false;
  cross_process_leases = false;
}

-- `self.stores.find(name)`.
unfoldable pub address_of : Bytes → List (Bytes × ℕ) → Option ℕ
address_of name [] = none
address_of name ((n, a) ∷ rest) = if bytes_equal n name then some a else address_of name rest

-- The first test of `OpenStore`.
abbrev pub is_incomplete : StoreDescriptor → Bool
is_incomplete d =
    is_blank d.logical_name
    || (d.capacity_bytes == 0)
    || (d.max_entries == 0)
    || (d.max_key_size == 0)
    || (d.max_value_size == 0)
    || (d.max_blob_size == 0)
    || is_blank d.schema_id
    || (d.schema_version == 0)

-- The store has the limits and the schema of the descriptor.
abbrev pub fits : StoreData → StoreDescriptor → Bool
fits s d =
    (s.capacity == d.capacity_bytes)
    && (s.max_entries == d.max_entries)
    && (s.max_key_size == d.max_key_size)
    && (s.max_value_size == d.max_value_size)
    && (s.max_blob_size == d.max_blob_size)
    && bytes_equal s.schema_id (copy d.schema_id)
    && (s.schema_version == d.schema_version)

-- The end of `OpenStore`.
unfoldable pub open_at : ℕ → Access → Backend → Reply ℕ × Backend
unfolding incremented
open_at a access b = (
  done b.next_handle,
  record b {
    next_handle = incremented b.next_handle;
    store_handles = emplace b.next_handle (record { store = a; access = access }) b.store_handles;
  },
)

-- A new store of `OpenStore`.
unfoldable pub add_store : StoreDescriptor → Backend → Backend
add_store d b = record b {
  heap =
      assign (length b.stores)
        (record new_store {
          capacity = d.capacity_bytes;
          max_entries = d.max_entries;
          max_key_size = d.max_key_size;
          max_value_size = d.max_value_size;
          max_blob_size = d.max_blob_size;
          schema_id = copy d.schema_id;
          schema_version = d.schema_version;
        })
        b.heap;
  stores = (copy d.logical_name, length b.stores) ∷ b.stores;
}

-- `OpenStore`.
unfoldable pub open_store : StoreDescriptor → Backend → Reply ℕ × Backend
unfolding open_at add_store store_at address_of
open_store d b =
    if is_incomplete d
    then (refused Status.invalid_argument, b)
    else if not b.running
    then (refused Status.shutting_down, b)
    else if more_than_buffered d.minimum_durability
    then (refused Status.unsupported, b)
    else elim (address_of (copy d.logical_name) b.stores) [
      | none ↦
          if leb b.max_stores (length b.stores)
          then (refused Status.resource_exhausted, b)
          else open_at (length b.stores) d.access (add_store d b)
      | some a ↦
          if fits (store_at a b) d
          then open_at a d.access b
          else (refused Status.invalid_argument, b)
    ]

-- `CloseStore`.
unfoldable pub close_store : ℕ → Backend → Reply (Unit {0}) × Backend
close_store h b =
    if has_key h b.store_handles
    then (done tt, record b { store_handles = remove h b.store_handles })
    else (refused Status.not_found, b)
