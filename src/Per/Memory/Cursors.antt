-- ===== src/Per/Memory/Cursors.antt =====
-- per/backends/memory.cpp: cursors over the entries of a transaction under a prefix.
use openvehicleframework.Base.{
  ℕ, suc, Bool, not, ◌&&◌, ◌||◌, Option, some, none, [], ◌∷◌, find, assign, emplace, remove,
  has_key, if◌then◌else◌, ◌==◌, ltb, length, get_elem?,
}
use openvehicleframework.Per.Bytes.{Bytes, Values, lower_bound, starts_with}
use openvehicleframework.Per.Types.{Status, Reply, done, refused, View, is_valid_view, copy}
use openvehicleframework.Per.Memory.{Backend, incremented}
use openvehicleframework.Per.Memory.Transactions.{open_transaction}

-- The loop of `OpenCursor`: the entries up to the first one without the prefix.
unfoldable pub while_prefixed : Bytes → Values → Values
while_prefixed prefix [] = []
while_prefixed prefix ((k, v) ∷ t) =
    let rest = while_prefixed prefix t in if starts_with prefix k then (k, v) ∷ rest else []

-- The entries that a cursor collects.
unfoldable pub prefixed : Bytes → Values → Values
unfolding while_prefixed lower_bound
prefixed prefix values = while_prefixed prefix (lower_bound prefix values)

-- The end of `OpenCursor`.
unfoldable pub add_cursor : Values → Backend → Reply ℕ × Backend
unfolding incremented
add_cursor entries b = (
  done b.next_handle,
  record b {
    next_handle = incremented b.next_handle;
    cursors = emplace b.next_handle (record { entries = entries; position = 0 }) b.cursors;
  },
)

-- `OpenCursor`.
unfoldable pub open_cursor : ℕ → View → Backend → Reply ℕ × Backend
unfolding open_transaction add_cursor prefixed
open_cursor h prefix b =
    if not (is_valid_view prefix)
    then (refused Status.invalid_argument, b)
    else elim (open_transaction h b) [
      | none ↦ (refused Status.invalid_state, b)
      | some t ↦
          if t.write
          then (refused Status.invalid_state, b)
          else add_cursor (prefixed (copy prefix) t.values) b
    ]

-- A buffer, null where the room is none, that does not hold so many bytes.
abbrev pub lacks_room : Option ℕ → ℕ → Bool
lacks_room none size = not (size == 0)
lacks_room (some room) size = not (size == 0) && ltb room size

-- `NextCursor`: an entry, where both buffers have room for it.
unfoldable pub next_cursor : ℕ → Option ℕ → Option ℕ → Backend → Reply (Bytes × Bytes) × Backend
next_cursor h key_room value_room b = elim (find h b.cursors) [
  | none ↦ (refused Status.not_found, b)
  | some c ↦ elim (get_elem? c.entries c.position) [
    | none ↦ (refused Status.not_found, b)
    | some (k, v) ↦
        if lacks_room key_room (length k) || lacks_room value_room (length v)
        then (refused Status.buffer_too_small, b)
        else (
          done (k, v),
          record b { cursors = assign h (record c { position = suc c.position }) b.cursors },
        )
  ]
]

-- `CloseCursor`.
unfoldable pub close_cursor : ℕ → Backend → Reply (Unit {0}) × Backend
close_cursor h b =
    if has_key h b.cursors
    then (done tt, record b { cursors = remove h b.cursors })
    else (refused Status.not_found, b)
