-- ===== src/Per/Memory/Blobs.antt =====
-- per/backends/memory.cpp: blobs, which are replaced as a whole, piece by piece.
use openvehicleframework.Base.{
  ℕ, ◌+◌, ◌-◌, true, false, not, ◌&&◌, ◌||◌, some, none, find, assign, emplace, remove, is_empty,
  if◌then◌else◌, ◌==◌, ltb, length, ◌++◌,
}
use openvehicleframework.Per.Bytes.{Bytes, value_at, put_value, take, drop, zeros}
use openvehicleframework.Per.Types.{
  Status, Reply, done, refused, Durability, more_than_buffered, is_read_write, View, is_valid_view,
  copy, size_of_view, CommitResult,
}
use openvehicleframework.Per.Memory.{
  StoreHandle, BlobOperation, Backend, incremented, store_at, set_store, end_writer,
}
use openvehicleframework.Per.Memory.Transactions.{within_quota}

-- A new operation, under the next handle.
unfoldable pub add_blob : BlobOperation → Backend → Backend
unfolding incremented
add_blob o b = record b {
  next_handle = incremented b.next_handle;
  blobs = emplace b.next_handle o b.blobs;
}

-- `OpenBlobRead`: the handle, the size and the generation.
unfoldable pub open_blob_read : ℕ → View → Backend → Reply (ℕ × ℕ × ℕ) × Backend
unfolding add_blob store_at value_at
open_blob_read store key b =
    if not (is_valid_view key) || (size_of_view key == 0)
    then (refused Status.invalid_argument, b)
    else elim (find store b.store_handles) [
      | none ↦ (refused Status.not_found, b)
      | some h ↦
          let s = store_at h.store b in
          elim (value_at (copy key) s.blobs) [
            | none ↦ (refused Status.not_found, b)
            | some found ↦ (
              done (b.next_handle, length found, s.generation),
              add_blob
                  (record {
                    store = h.store;
                    key = copy key;
                    value = found;
                    generation = s.generation;
                    written = length found;
                    durability = Durability.buffered;
                    write = false;
                    finished = false;
                  })
                  b,
            )
          ]
    ]

-- The end of `BeginBlobReplace`.
unfoldable pub replace_at : StoreHandle → Bytes → ℕ → Durability → Backend → Reply (ℕ × ℕ) × Backend
unfolding add_blob store_at set_store
replace_at h key size durability b =
    let s = store_at h.store b in
    (
      done (b.next_handle, s.generation),
      add_blob
          (record {
            store = h.store;
            key = key;
            value = zeros size;
            generation = s.generation;
            written = 0;
            durability = durability;
            write = true;
            finished = false;
          })
          (set_store h.store (record s { writer_active = true }) b),
    )

-- `BeginBlobReplace` on a handle that is there.
unfoldable pub replace_on : StoreHandle → View → ℕ → Durability → Backend → Reply (ℕ × ℕ) × Backend
unfolding replace_at store_at within_quota put_value
replace_on h key size durability b =
    let s = store_at h.store b in
    if not (is_read_write h.access)
    then (refused Status.permission_denied, b)
    else if more_than_buffered durability
    then (refused Status.unsupported, b)
    else if s.writer_active
    then (refused Status.busy, b)
    else if not (is_empty s.migration_id)
    then (refused Status.busy, b)
    else if ltb s.max_key_size (size_of_view key) || ltb s.max_blob_size size
    then (refused Status.quota_exceeded, b)
    else if not (within_quota s s.values (put_value (copy key) (zeros size) s.blobs))
    then (refused Status.quota_exceeded, b)
    else replace_at h (copy key) size durability b

-- `BeginBlobReplace`: the handle and the generation.
unfoldable pub begin_blob_replace : ℕ → View → ℕ → Durability → Backend → Reply (ℕ × ℕ) × Backend
unfolding replace_on
begin_blob_replace store key size durability b =
    if not (is_valid_view key) || (size_of_view key == 0)
    then (refused Status.invalid_argument, b)
    else elim (find store b.store_handles) [
      | none ↦ (refused Status.not_found, b)
      | some h ↦ replace_on h key size durability b
    ]

-- `ReadBlob` into a buffer of that size.
unfoldable pub read_blob : ℕ → ℕ → ℕ → Backend → Reply Bytes
read_blob h offset size b = elim (find h b.blobs) [
  | none ↦ refused Status.invalid_argument
  | some o ↦
      if o.write || o.finished || ltb (length o.value) offset || ltb (length o.value - offset) size
      then refused Status.invalid_argument
      else done (take size (drop offset o.value))
]

-- `memcpy` into the value.
abbrev pub overwrite : ℕ → Bytes → Bytes → Bytes
overwrite offset input value = take offset value ++ input ++ drop (offset + length input) value

-- `WriteBlob`.
unfoldable pub write_blob : ℕ → ℕ → View → Backend → Reply (Unit {0}) × Backend
write_blob h offset input b =
    if not (is_valid_view input)
    then (refused Status.invalid_argument, b)
    else elim (find h b.blobs) [
      | none ↦ (refused Status.invalid_state, b)
      | some o ↦
          if not o.write
            || o.finished
            || not (offset == o.written)
            || ltb (length o.value - offset) (size_of_view input)
          then (refused Status.invalid_state, b)
          else (
            done tt,
            record b {
              blobs =
                  assign h
                    (record o {
                      value = overwrite offset (copy input) o.value;
                      written = o.written + size_of_view input;
                    })
                    b.blobs;
            },
          )
    ]

unfoldable pub finish_blob : ℕ → BlobOperation → Backend → Backend
finish_blob h o b = record b { blobs = assign h (record o { finished = true }) b.blobs }

-- `CommitBlob` of an operation that is whole.
unfoldable pub commit_blob_of : ℕ → BlobOperation → Backend → Reply CommitResult × Backend
unfolding finish_blob end_writer set_store store_at incremented put_value
commit_blob_of h o b =
    let s = store_at o.store b in
    if not (s.generation == o.generation)
    then (refused Status.conflict, finish_blob h o (end_writer o.store b))
    else (
      done (record { generation = incremented s.generation; achieved_durability = o.durability }),
      finish_blob h o (
          set_store o.store
            (record s {
              blobs = put_value o.key o.value s.blobs;
              generation = incremented s.generation;
              successful_commits = incremented s.successful_commits;
              writer_active = false;
            })
            b),
    )

-- `CommitBlob`.
unfoldable pub commit_blob : ℕ → Backend → Reply CommitResult × Backend
unfolding commit_blob_of
commit_blob h b = elim (find h b.blobs) [
  | none ↦ (refused Status.invalid_state, b)
  | some o ↦
      if not o.write || o.finished || not (o.written == length o.value)
      then (refused Status.invalid_state, b)
      else commit_blob_of h o b
]

-- A writer that is not finished gives its store free.
unfoldable pub leave_blob : BlobOperation → Backend → Backend
unfolding end_writer
leave_blob o b = if o.write && not o.finished then end_writer o.store b else b

-- `AbortBlob`.
unfoldable pub abort_blob : ℕ → Backend → Reply (Unit {0}) × Backend
unfolding leave_blob finish_blob
abort_blob h b = elim (find h b.blobs) [
  | none ↦ (refused Status.not_found, b)
  | some o ↦ (done tt, finish_blob h o (leave_blob o b))
]

-- `CloseBlob`.
unfoldable pub close_blob : ℕ → Backend → Reply (Unit {0}) × Backend
unfolding leave_blob
close_blob h b = elim (find h b.blobs) [
  | none ↦ (refused Status.not_found, b)
  | some o ↦ (done tt, record (leave_blob o b) { blobs = remove h b.blobs })
]
