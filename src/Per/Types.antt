-- ===== src/Per/Types.antt =====
-- per/include/ovf/per/backend_abi.h: what a persistence backend is given and what it answers.
use openvehicleframework.Base.{ℕ, Bool, true, false, [], ◌==◌, length}
use openvehicleframework.Per.Bytes.{Bytes}

pub data Status : Type 0 where
  invalid_argument incompatible_abi invalid_state not_found permission_denied unsupported : Status
  resource_exhausted buffer_too_small conflict quota_exceeded corrupted io_error busy : Status
  shutting_down backend_error : Status

-- A call that succeeds gives its out parameters; `OVF_PER_STATUS_OK` stands for `done`.
pub data Reply {ℓ} (A : Type ℓ) : Type ℓ where
  done : A → Reply A
  refused : Status → Reply A

pub data Durability : Type 0 where
  buffered process_crash media : Durability

-- `durability > OVF_PER_DURABILITY_BUFFERED`.
abbrev pub more_than_buffered : Durability → Bool
more_than_buffered Durability.buffered = false
more_than_buffered Durability.process_crash = true
more_than_buffered Durability.media = true

pub data Access : Type 0 where
  read_only read_write : Access

abbrev pub is_read_write : Access → Bool
is_read_write Access.read_only = false
is_read_write Access.read_write = true

pub data RecoveryState : Type 0 where
  clean journal_replayed failed_closed reset migrated rolled_back : RecoveryState

-- A view of bytes: a null pointer with a size, or the bytes.
pub data View : Type 0 where
  null : ℕ → View
  view : Bytes → View

-- `Valid`.
abbrev pub is_valid_view : View → Bool
is_valid_view (null size) = size == 0
is_valid_view (view bytes) = true

-- `Copy`, of a valid view.
abbrev pub copy : View → Bytes
copy (null size) = []
copy (view bytes) = bytes

abbrev pub size_of_view : View → ℕ
size_of_view (null size) = size
size_of_view (view bytes) = length bytes

-- Null, or empty: what the backend refuses as a name.
abbrev pub is_blank : View → Bool
is_blank (null size) = true
is_blank (view bytes) = length bytes == 0

pub record StoreDescriptor : Type 0 where
  pub logical_name : View
  pub access : Access
  pub minimum_durability : Durability
  pub capacity_bytes : ℕ
  pub max_entries : ℕ
  pub max_key_size : ℕ
  pub max_value_size : ℕ
  pub max_blob_size : ℕ
  pub schema_id : View
  pub schema_version : ℕ

pub record CommitResult : Type 0 where
  pub generation : ℕ
  pub achieved_durability : Durability

pub record StoreStatus : Type 0 where
  pub generation : ℕ
  pub schema_version : ℕ
  pub recovery_state : RecoveryState
  pub successful_commits : ℕ
  pub rejected_operations : ℕ
  pub recovery_count : ℕ

pub record Entry : Type 0 where
  pub key : View
  pub value : View

pub record MigrationDescriptor : Type 0 where
  pub migration_id : View
  pub source_schema_id : View
  pub source_schema_version : ℕ
  pub target_schema_id : View
  pub target_schema_version : ℕ
  pub durability : Durability

pub record MigrationStatus : Type 0 where
  pub source_generation : ℕ
  pub processed_entries : ℕ
  pub resumed : Bool

pub record Capabilities : Type 0 where
  pub max_stores : ℕ
  pub max_transactions : ℕ
  pub max_store_bytes : ℕ
  pub max_key_size : ℕ
  pub max_value_size : ℕ
  pub max_blob_size : ℕ
  pub maximum_durability : Durability
  pub persistent : Bool
  pub cross_process_leases : Bool
