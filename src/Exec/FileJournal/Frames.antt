-- ===== src/Exec/FileJournal/Frames.antt =====
-- exec/src/file_journal.cpp: the checksum, the frames, and Append and Replay on the bytes of the
-- file. The numbers of the operating system's errors are left out.
pub mod Reading
use Prim.Native.Nat.{bit_xor}
use openvehicleframework.Base.{
  ℕ, zero, suc, ◌+◌, ◌-◌, ◌*◌, ◌/◌, ◌%◌, Bool, true, false, not, ◌&&◌, ◌||◌, Option, some, none,
  List, [], ◌∷◌, ◌++◌, if◌then◌else◌, ltb, leb, ◌==◌, is_empty, length, Result, ok, err, fail,
  Error, persistence_error, invalid_argument, busy,
}
use openvehicleframework.Exec.FileJournal.{Event}
use openvehicleframework.Exec.FileJournal.Codec.{
  put_integer, Taken, goes_on, take_integer, take_bytes,
}
use openvehicleframework.Exec.FileJournal.Events.{encode, decode}

-- One bit of `Crc32`.
unfoldable pub crc_bit : ℕ → ℕ
crc_bit crc = if crc % 2 == 1 then bit_xor (crc / 2) 3988292384 else crc / 2

unfoldable pub crc_bits : ℕ → ℕ → ℕ
crc_bits zero crc = crc
crc_bits (suc n) crc = crc_bits n (crc_bit crc)

unfoldable pub crc_bytes : List ℕ → ℕ → ℕ
crc_bytes [] crc = crc
crc_bytes (b ∷ bytes) crc = crc_bytes bytes (crc_bits 8 (bit_xor crc b))

-- `Crc32`.
unfoldable pub crc32 : List ℕ → ℕ
crc32 bytes = 4294967295 - crc_bytes bytes 4294967295

-- The header, by `Put32` and `Put16`, and the payload.
unfoldable pub frame : List ℕ → List ℕ
frame payload = put_integer 4 1246123599 (
    put_integer 2 2
      (put_integer 2 0 (put_integer 4 (length payload) (put_integer 4 (crc32 payload) payload))))

-- The first bytes of a list.
unfoldable pub first : ℕ → List ℕ → List ℕ
first zero bytes = []
first (suc n) [] = []
first (suc n) (b ∷ bytes) = b ∷ first n bytes

-- What the operating system makes of a write: all bytes are written, and then synchronised or not;
-- or it fails after some bytes.
pub data Outcome : Type 0 where
  written : Bool → Outcome
  torn_after : ℕ → Outcome

-- `Append`.
unfoldable pub append : ℕ → Bool → Event → Outcome → List ℕ → Result (Unit {0}) × List ℕ
append maximum_size synchronize e outcome file = elim (encode maximum_size e) [
  | err x ↦ (err x, file)
  | ok payload ↦ elim outcome [
    | torn_after n ↦ (fail persistence_error, file ++ first n (frame payload))
    | written synchronized ↦ (
      (if synchronize && not synchronized then fail persistence_error else ok tt),
      file ++ frame payload,
    )
  ]
]

-- What a turn of the loop of `Replay` finds.
pub data Found : Type 0 where
  at_end : Found
  incomplete : Found
  broken : Error → Found
  event : Event → List ℕ → Found

-- The fields of a header, by `Get32` and `Get16`.
pub record Header : Type 0 where
  pub magic : ℕ
  pub version : ℕ
  pub reserved : ℕ
  pub size : ℕ
  pub checksum : ℕ

unfoldable pub take_header : List ℕ → Taken Header
take_header bytes = goes_on (take_integer 4 bytes) λ magic r1.
    goes_on (take_integer 2 r1) λ version r2. goes_on (take_integer 2 r2) λ reserved r3.
      goes_on (take_integer 4 r3) λ size r4. goes_on (take_integer 4 r4) λ checksum r5. some (
        record {
          magic = magic;
          version = version;
          reserved = reserved;
          size = size;
          checksum = checksum;
        },
        r5,
      )

unfoldable pub is_bad_header : ℕ → Header → Bool
is_bad_header maximum_size h =
    not (h.magic == 1246123599)
    || ltb h.version 1
    || ltb 2 h.version
    || not (h.reserved == 0)
    || ltb maximum_size h.size

-- The payload of a frame.
unfoldable pub read_payload : Header → List ℕ → List ℕ → Found
read_payload h payload rest =
    if not (crc32 payload == h.checksum)
    then broken (record { code = persistence_error; support_data = 0 })
    else elim (decode h.version payload) [ err x ↦ broken x | ok e ↦ event e rest ]

-- A frame after its header.
unfoldable pub read_rest : ℕ → Header → List ℕ → Found
read_rest maximum_size h rest =
    if is_bad_header maximum_size h
    then broken (record { code = persistence_error; support_data = 0 })
    else elim (take_bytes h.size rest) [
      | none ↦ incomplete
      | some (payload, rest') ↦ read_payload h payload rest'
    ]

-- A turn of the loop.
unfoldable pub read_frame : ℕ → List ℕ → Found
read_frame maximum_size bytes = if is_empty bytes then at_end else elim (take_header bytes) [
  | none ↦ incomplete
  | some (h, rest) ↦ read_rest maximum_size h rest
]

-- The loop of `Replay`: the events and the file, cut off where an incomplete frame starts. The
-- cutting may fail, and so may the synchronisation after it. A frame has sixteen bytes at least, so the length of the file is enough fuel.
unfoldable pub replay_from :
    ℕ → ℕ → Bool → Bool → List ℕ → List ℕ → List Event → Result (List Event) × List ℕ
replay_from zero maximum_size repaired unsynchronized file rest events = (ok events, file)
replay_from (suc n) maximum_size repaired unsynchronized file rest events =
    elim (read_frame maximum_size rest) [
      | at_end ↦ (ok events, file)
      | incomplete ↦ if not repaired then (fail persistence_error, file) else (
        (if unsynchronized then fail persistence_error else ok events),
        first (length file - length rest) file,
      )
      | broken x ↦ (err x, file)
      | event e rest' ↦
          replay_from n maximum_size repaired unsynchronized file rest' (events ++ e ∷ [])
    ]

-- `Replay`.
unfoldable pub replay : ℕ → Bool → Bool → List ℕ → Result (List Event) × List ℕ
replay maximum_size repaired unsynchronized file =
    replay_from (suc (length file)) maximum_size repaired unsynchronized file file []

-- `OpenFileTransitionJournal`: whether the options are taken; a path is its bytes, 47 being a slash.
-- The file is opened and locked by the operating system, which may refuse.
unfoldable pub open_file_transition_journal : List ℕ → ℕ → Bool → Bool → Result (Unit {0})
open_file_transition_journal [] maximum_record_size opened locked = fail invalid_argument
open_file_transition_journal (c ∷ path) maximum_record_size opened locked =
    if not (c == 47) || ltb maximum_record_size 4096 || ltb 4294967295 maximum_record_size
    then fail invalid_argument
    else if not opened
    then fail persistence_error
    else if not locked
    then fail busy
    else ok tt
