-- ===== src/Per/Memory/Transactions.antt =====
-- per/backends/memory.cpp: transactions, which work on a copy of the values of their store.
use openvehicleframework.Base.{
  ℕ, ◌+◌, Bool, true, false, not, ◌&&◌, ◌||◌, Option, some, none, find, assign, emplace, remove,
  is_some, is_empty, if◌then◌else◌, ◌==◌, leb, ltb, length,
}
use openvehicleframework.Per.Bytes.{Bytes, Values, value_at, put_value, erase_value, size_of}
use openvehicleframework.Per.Types.{
  Status, Reply, done, refused, Durability, more_than_buffered, is_read_write, View, is_valid_view,
  copy, size_of_view, CommitResult,
}
use openvehicleframework.Per.Memory.{
  StoreData, StoreHandle, Transaction, Backend, incremented, store_at, set_store, end_writer,
}

-- The end of `Begin`.
unfoldable pub begin_at : StoreHandle → Durability → Bool → Backend → Reply (ℕ × ℕ) × Backend
unfolding incremented store_at set_store
begin_at h durability write b =
    let s = store_at h.store b in
    let b' = if write then set_store h.store (record s { writer_active = true }) b else b in
    (
      done (b.next_handle, s.generation),
      record b' {
        next_handle = incremented b.next_handle;
        transactions =
            emplace b.next_handle
              (record {
                store = h.store;
                values = s.values;
                base_generation = s.generation;
                durability = durability;
                write = write;
                finished = false;
              })
              b.transactions;
      },
    )

-- An expected generation that is not the store's.
abbrev pub is_unexpected : Option ℕ → ℕ → Bool
is_unexpected none generation = false
is_unexpected (some expected) generation = not (generation == expected)

unfoldable pub count_rejected : ℕ → Backend → Backend
unfolding incremented store_at set_store
count_rejected a b =
    let s = store_at a b in
    set_store a (record s { rejected_operations = incremented s.rejected_operations }) b

-- `Begin` on a handle that is there.
unfoldable pub begin_on :
    StoreHandle → Durability → Bool → Option ℕ → Backend → Reply (ℕ × ℕ) × Backend
unfolding begin_at count_rejected store_at
begin_on h durability write expected b =
    let s = store_at h.store b in
    if leb b.max_transactions (length b.transactions)
    then (refused Status.resource_exhausted, b)
    else if write && not (is_read_write h.access)
    then (refused Status.permission_denied, b)
    else if write && more_than_buffered durability
    then (refused Status.unsupported, b)
    else if write && s.writer_active
    then (refused Status.busy, b)
    else if write && not (is_empty s.migration_id)
    then (refused Status.busy, b)
    else if write && is_unexpected expected s.generation
    then (refused Status.conflict, count_rejected h.store b)
    else begin_at h durability write b

-- `Begin`: the handle of the transaction and the generation.
unfoldable pub begin : ℕ → Durability → Bool → Option ℕ → Backend → Reply (ℕ × ℕ) × Backend
unfolding begin_on
begin store durability write expected b = elim (find store b.store_handles) [
  | none ↦ (refused Status.not_found, b)
  | some h ↦ begin_on h durability write expected b
]

-- `BeginRead`, `BeginWrite` and `BeginWriteAt`.
unfoldable pub begin_read : ℕ → Backend → Reply (ℕ × ℕ) × Backend
unfolding begin
begin_read store b = begin store Durability.buffered false none b

unfoldable pub begin_write : ℕ → Durability → Backend → Reply (ℕ × ℕ) × Backend
unfolding begin
begin_write store durability b = begin store durability true none b

unfoldable pub begin_write_at : ℕ → Durability → ℕ → Backend → Reply (ℕ × ℕ) × Backend
unfolding begin
begin_write_at store durability expected b = begin store durability true (some expected) b

-- A transaction that is open.
unfoldable pub open_transaction : ℕ → Backend → Option Transaction
open_transaction h b = elim (find h b.transactions) [
  | none ↦ none
  | some t ↦ if t.finished then none else some t
]

-- One that is open for writing.
unfoldable pub open_writer : ℕ → Backend → Option Transaction
unfolding open_transaction
open_writer h b = elim (open_transaction h b) [
  | none ↦ none
  | some t ↦ if t.write then some t else none
]

-- `Get`. The room of the buffer is none where it is a null pointer; where it is too small, the call
-- also tells the size.
unfoldable pub get : ℕ → View → Option ℕ → Backend → Reply Bytes
unfolding open_transaction value_at
get h key room b =
    if not (is_valid_view key) || (size_of_view key == 0)
    then refused Status.invalid_argument
    else elim (open_transaction h b) [
      | none ↦ refused Status.not_found
      | some t ↦ elim (value_at (copy key) t.values) [
        | none ↦ refused Status.not_found
        | some v ↦ elim room [
          | none ↦ refused Status.buffer_too_small
          | some n ↦ if ltb n (length v) then refused Status.buffer_too_small else done v
        ]
      ]
    ]

unfoldable pub set_values : ℕ → Transaction → Values → Backend → Backend
set_values h t values b = record b {
  transactions = assign h (record t { values = values }) b.transactions;
}

-- The values and the blobs of a store keep to its limits.
unfoldable pub within_quota : StoreData → Values → Values → Bool
within_quota s values blobs = not (
    ltb s.max_entries (length values + length blobs)
    || ltb s.capacity (size_of values + size_of blobs))

-- `Put` in a transaction that is open for writing.
unfoldable pub put_in : ℕ → Transaction → View → View → Backend → Reply (Unit {0}) × Backend
unfolding set_values within_quota store_at put_value
put_in h t key value b =
    let s = store_at t.store b in
    let candidate = put_value (copy key) (copy value) t.values in
    if ltb s.max_key_size (size_of_view key) || ltb s.max_value_size (size_of_view value)
    then (refused Status.quota_exceeded, b)
    else if not (within_quota s candidate s.blobs)
    then (refused Status.quota_exceeded, b)
    else (done tt, set_values h t candidate b)

-- `Put`.
unfoldable pub put : ℕ → View → View → Backend → Reply (Unit {0}) × Backend
unfolding put_in open_writer
put h key value b =
    if not (is_valid_view key) || not (is_valid_view value) || (size_of_view key == 0)
    then (refused Status.invalid_argument, b)
    else elim (open_writer h b) [
      | none ↦ (refused Status.invalid_state, b)
      | some t ↦ put_in h t key value b
    ]

-- `Erase`: whether the key was there.
unfoldable pub erase : ℕ → View → Backend → Reply Bool × Backend
unfolding set_values open_writer value_at erase_value
erase h key b =
    if not (is_valid_view key) || (size_of_view key == 0)
    then (refused Status.invalid_argument, b)
    else elim (open_writer h b) [
      | none ↦ (refused Status.invalid_state, b)
      | some t ↦ (
        done (is_some (value_at (copy key) t.values)),
        set_values h t (erase_value (copy key) t.values) b,
      )
    ]

unfoldable pub finish : ℕ → Transaction → Backend → Backend
finish h t b = record b { transactions = assign h (record t { finished = true }) b.transactions }

-- `Commit` of a transaction that is open for writing.
unfoldable pub commit_of : ℕ → Transaction → Backend → Reply CommitResult × Backend
unfolding finish end_writer set_store store_at incremented
commit_of h t b =
    let s = store_at t.store b in
    if not (s.generation == t.base_generation)
    then (refused Status.conflict, finish h t (end_writer t.store b))
    else (
      done (record {
        generation = incremented s.generation;
        achieved_durability = Durability.buffered;
      }),
      finish h t (
          set_store t.store
            (record s {
              values = t.values;
              generation = incremented s.generation;
              successful_commits = incremented s.successful_commits;
              writer_active = false;
            })
            b),
    )

-- `Commit`.
unfoldable pub commit : ℕ → Backend → Reply CommitResult × Backend
unfolding commit_of open_writer
commit h b = elim (open_writer h b) [
  | none ↦ (refused Status.invalid_state, b)
  | some t ↦ commit_of h t b
]

-- A writer that is not finished gives its store free.
unfoldable pub leave : Transaction → Backend → Backend
unfolding end_writer
leave t b = if t.write && not t.finished then end_writer t.store b else b

-- `Abort`.
unfoldable pub abort : ℕ → Backend → Reply (Unit {0}) × Backend
unfolding leave finish
abort h b = elim (find h b.transactions) [
  | none ↦ (refused Status.not_found, b)
  | some t ↦ (done tt, finish h t (leave t b))
]

-- `CloseTransaction`.
unfoldable pub close_transaction : ℕ → Backend → Reply (Unit {0}) × Backend
unfolding leave
close_transaction h b = elim (find h b.transactions) [
  | none ↦ (refused Status.not_found, b)
  | some t ↦ (done tt, record (leave t b) { transactions = remove h b.transactions })
]
