-- ===== src/Per/Memory/BlobWrites.antt =====
-- per/backends/memory.cpp: a blob that is written piece by piece, committed, and read back.
pub mod Written
use openvehicleframework.Base.{
  ℕ, ◌+◌, ◌-◌, ◌≤◌, true, false, not, ◌||◌, some, List, [], ◌∷◌, ◌++◌, ◌==◌, ==_refl, ==_iff, ltb,
  arith, ◌≡◌, refl, sym, ◌∙◌, ap, length, length-append, find, find-emplace, find-assign, has_key,
  emplace, assign, Table,
}
use openvehicleframework.Per.Bytes.{Bytes, value_at, put_value, drop, zeros}
use openvehicleframework.Per.Bytes.Order.{ascend, value_at-put_value, bytes_equal_iff}
use openvehicleframework.Per.Bytes.Pieces.{
  length-zeros, take-all, take-append, drop-append, drop-zeros, join, append_assoc, append_nil,
}
use openvehicleframework.Per.Types.{Reply, done, view, Durability, CommitResult}
use openvehicleframework.Per.Memory.Stuck.Rollback.{incremented-neq}
use openvehicleframework.Per.Memory.Writers.{store_at-set_store}
use openvehicleframework.Per.Memory.{
  Backend, BlobOperation, StoreHandle, store_at, set_store, StoreData, incremented,
}
use openvehicleframework.Per.Memory.Blobs.{
  add_blob, open_blob_read, replace_at, replace_on, begin_blob_replace, read_blob, overwrite,
  write_blob, finish_blob, commit_blob_of, commit_blob,
}
use openvehicleframework.Per.Memory.BlobWrites.Written.{
  write_pieces, overwrite_lem, with_written, with_blob, write_blob-with_written, find-with_blob,
  assign-twice, assign-same, write_pieces-with_written,
}

replace_on_done :
    (sh : StoreHandle) (k : Bytes) (size : ℕ) (d : Durability) (b : Backend) (n g : ℕ)
    → (replace_on sh (view k) size d b).0 ≡ done (n, g)
    → (replace_on sh (view k) size d b ≡ replace_at sh k size d b)
      × (n ≡ b.next_handle)
      × (g ≡ (store_at sh.store b).generation)
unfolding replace_on replace_at
replace_on_done sh k size d b n g e = ground arith

-- The operation that `BeginBlobReplace` opens.
opened : StoreHandle → Bytes → ℕ → Durability → Backend → BlobOperation
opened sh k size d b = record {
  store = sh.store;
  key = k;
  value = zeros size;
  generation = (store_at sh.store b).generation;
  written = 0;
  durability = d;
  write = true;
  finished = false;
}

replace_at-find :
    (sh : StoreHandle) (k : Bytes) (size : ℕ) (d : Durability) (b : Backend)
    → has_key b.next_handle b.blobs ≡ false
    → find b.next_handle (replace_at sh k size d b).1.blobs
      ≡ some (with_written (opened sh k size d b) [] size)
unfolding replace_at add_blob opened set_store
replace_at-find sh k size d b f = ground (
  arith,
  find-emplace b.next_handle b.next_handle (opened sh k size d b) b.blobs,
  ==_refl b.next_handle,
)

-- The two ends of `CommitBlob`.
with_committed : BlobOperation → StoreData → StoreData
with_committed o s = record s {
  blobs = put_value o.key o.value s.blobs;
  generation = incremented s.generation;
  successful_commits = incremented s.successful_commits;
  writer_active = false;
}

commit_blob_done :
    (h : ℕ) (o : BlobOperation) (b : Backend)
    → find h b.blobs ≡ some o
    → o.write ≡ true
    → o.finished ≡ false
    → o.written ≡ length o.value
    → (store_at o.store b).generation ≡ o.generation
    → commit_blob h b ≡ (
      done (record {
        generation = incremented (store_at o.store b).generation;
        achieved_durability = o.durability;
      }),
      finish_blob h o (set_store o.store (with_committed o (store_at o.store b)) b),
    )
unfolding commit_blob commit_blob_of with_committed
commit_blob_done h o b f r n w g =
    let c : (not o.write || o.finished || not (o.written == length o.value)) ≡ false =
      ground arith in
    let c' : not ((store_at o.store b).generation == o.generation) ≡ false = ground arith in
    rw (f, commit_blob) (rw c (rw (c', commit_blob_of) refl))

read_blob-add_blob :
    (o : BlobOperation) (b : Backend)
    → o.write ≡ false
    → o.finished ≡ false
    → has_key b.next_handle b.blobs ≡ false
    → read_blob b.next_handle 0 (length o.value) (add_blob o b) ≡ done o.value
unfolding read_blob add_blob
read_blob-add_blob o b r n h =
    let f : find b.next_handle (emplace b.next_handle o b.blobs) ≡ some o =
      ground (arith, find-emplace b.next_handle b.next_handle o b.blobs, ==_refl b.next_handle) in
    rw (f, read_blob) (ground (arith, take-all o.value))

open_blob_read_done :
    (s : ℕ) (sh : StoreHandle) (k found : Bytes) (b : Backend)
    → find s b.store_handles ≡ some sh
    → (length k == 0) ≡ false
    → value_at k (store_at sh.store b).blobs ≡ some found
    → has_key b.next_handle b.blobs ≡ false
    → ((open_blob_read s (view k) b).0
        ≡ done (b.next_handle, length found, (store_at sh.store b).generation))
      × (read_blob b.next_handle 0 (length found) (open_blob_read s (view k) b).1 ≡ done found)
unfolding open_blob_read
open_blob_read_done s sh k found b f n v h =
    let o : BlobOperation = record {
      store = sh.store;
      key = k;
      value = found;
      generation = (store_at sh.store b).generation;
      written = length found;
      durability = Durability.buffered;
      write = false;
      finished = false;
    } in
    let e : open_blob_read s (view k) b
        ≡ (done (b.next_handle, length found, (store_at sh.store b).generation), add_blob o b) =
      rw (n, open_blob_read) (rw f (rw v refl)) in
    (
      ap (λ (x : Reply (ℕ × ℕ × ℕ) × Backend). x.0) e,
      ap (λ (x : Reply (ℕ × ℕ × ℕ) × Backend). read_blob b.next_handle 0 (length found) x.1) e
          ∙ read_blob-add_blob o b refl refl h,
    )

-- What the store and the handles are after the commit.
replaced : StoreHandle → Bytes → Bytes → Durability → Backend → Backend
replaced sh k v d b =
    let b1 = (replace_at sh k (length v) d b).1 in
    let o = with_written (opened sh k (length v) d b) v 0 in
    let b2 = with_blob b.next_handle o b1 in
    finish_blob b.next_handle o (set_store sh.store (with_committed o (store_at sh.store b2)) b2)

store_at-set : (a : ℕ) (x : StoreData) (b : Backend) → store_at a (set_store a x b) ≡ x
store_at-set a x b = store_at-set_store a a x b ∙ ground (arith, ==_refl a)

replacing-store :
    (sh : StoreHandle) (k v : Bytes) (d : Durability) (b : Backend) (o : BlobOperation)
    → store_at sh.store (with_blob b.next_handle o (replace_at sh k (length v) d b).1)
      ≡ record (store_at sh.store b) { writer_active = true }
unfolding replace_at add_blob store_at set_store
replacing-store sh k v d b o =
    store_at-set sh.store (record (store_at sh.store b) { writer_active = true }) b

replaced-store :
    (sh : StoreHandle) (k v : Bytes) (d : Durability) (b : Backend)
    → ((store_at sh.store (replaced sh k v d b)).blobs ≡ put_value k v (store_at sh.store b).blobs)
      × ((store_at sh.store (replaced sh k v d b)).generation
          ≡ incremented (store_at sh.store b).generation)
unfolding replaced opened finish_blob with_committed store_at
replaced-store sh k v d b =
    let o = with_written (opened sh k (length v) d b) v 0 in
    let b2 = with_blob b.next_handle o (replace_at sh k (length v) d b).1 in
    let e : store_at sh.store b2 ≡ record (store_at sh.store b) { writer_active = true } =
      replacing-store sh k v d b o in
    let r = store_at-set sh.store (with_committed o (store_at sh.store b2)) b2 in
    (
      ap (λ (x : StoreData). x.blobs) r
          ∙ ap (λ (x : StoreData). put_value k (v ++ []) x.blobs) e
          ∙ ap (λ y. put_value k y (store_at sh.store b).blobs) (append_nil v),
      ap (λ (x : StoreData). x.generation) r ∙ ap (λ (x : StoreData). incremented x.generation) e,
    )

replaced-fresh :
    (sh : StoreHandle) (k v : Bytes) (d : Durability) (b : Backend)
    → has_key (incremented b.next_handle) b.blobs ≡ false
    → has_key (incremented b.next_handle) (replaced sh k v d b).blobs ≡ false
unfolding replaced finish_blob set_store replace_at add_blob opened
replaced-fresh sh k v d b h =
    let j = b.next_handle in
    let o = opened sh k (length v) d b in
    let p = with_written o v 0 in
    let f = record p { finished = true } in
    ground (
      arith,
      find-assign j (incremented j) f (assign j p (emplace j o b.blobs)),
      find-assign j (incremented j) p (emplace j o b.blobs),
      find-emplace j (incremented j) o b.blobs,
      incremented-neq j,
      ==_iff j (incremented j),
      ==_iff (incremented j) j,
    )

opened-open :
    (sh : StoreHandle) (k v : Bytes) (d : Durability) (b : Backend)
    → ((opened sh k (length v) d b).write ≡ true) × ((opened sh k (length v) d b).finished ≡ false)
unfolding opened
opened-open sh k v d b = (refl, refl)

-- The backend after the pieces are written and the blob is committed.
commit_blob-write_pieces :
    (sh : StoreHandle) (k : Bytes) (ps : List Bytes) (d : Durability) (b : Backend)
    → has_key b.next_handle b.blobs ≡ false
    → commit_blob b.next_handle
        (write_pieces b.next_handle 0 ps (replace_at sh k (length (join ps)) d b).1)
      ≡ (
        done (record {
          generation = incremented (store_at sh.store b).generation;
          achieved_durability = d;
        }),
        replaced sh k (join ps) d b,
      )
unfolding replaced opened store_at
commit_blob-write_pieces sh k ps d b f =
    let v = join ps in
    let o = opened sh k (length v) d b in
    let b1 = (replace_at sh k (length v) d b).1 in
    let p = with_written o v 0 in
    let e = replacing-store sh k v d b p in
    let w =
      write_pieces-with_written b.next_handle o [] ps b1 (replace_at-find sh k (length v) d b f)
        (opened-open sh k v d b).0 (opened-open sh k v d b).1 in
    let c =
      commit_blob_done b.next_handle p (with_blob b.next_handle p b1)
        (find-with_blob b.next_handle p b1) (opened-open sh k v d b).0 (opened-open sh k v d b).1
        (sym (ap (λ y. length y) (append_nil v))) (ap (λ (x : StoreData). x.generation) e) in
    ap (λ y. commit_blob b.next_handle y) w
    ∙ c
    ∙ ap
        (λ (x : StoreData). (
          done (record { generation = incremented x.generation; achieved_durability = d }),
          replaced sh k v d b,
        ))
        e

begin_blob_replace_done :
    (s n g size : ℕ) (k : Bytes) (d : Durability) (sh : StoreHandle) (b : Backend)
    → find s b.store_handles ≡ some sh
    → (length k == 0) ≡ false
    → (begin_blob_replace s (view k) size d b).0 ≡ done (n, g)
    → (begin_blob_replace s (view k) size d b ≡ replace_at sh k size d b)
      × (n ≡ b.next_handle)
      × (g ≡ (store_at sh.store b).generation)
unfolding begin_blob_replace
begin_blob_replace_done s n g size k d sh b f m e =
    let q : begin_blob_replace s (view k) size d b ≡ replace_on sh (view k) size d b =
      rw (m, begin_blob_replace) (rw f refl) in
    let u =
      replace_on_done sh k size d b n g (ap (λ (x : Reply (ℕ × ℕ) × Backend). x.0) (sym q) ∙ e) in
    (q ∙ u.0, u.1, u.2)

replaced-read :
    (s : ℕ) (k v : Bytes) (d : Durability) (sh : StoreHandle) (b : Backend)
    → find s b.store_handles ≡ some sh
    → (length k == 0) ≡ false
    → ascend (store_at sh.store b).blobs ≡ true
    → has_key (incremented b.next_handle) b.blobs ≡ false
    → ((open_blob_read s (view k) (replaced sh k v d b)).0
        ≡ done (incremented b.next_handle, length v, incremented (store_at sh.store b).generation))
      × (read_blob
            (incremented b.next_handle)
            0
            (length v)
            (open_blob_read s (view k) (replaced sh k v d b)).1
          ≡ done v)
unfolding replaced finish_blob set_store replace_at add_blob
replaced-read s k v d sh b f m a h =
    let r = replaced-store sh k v d b in
    let w : value_at k (store_at sh.store (replaced sh k v d b)).blobs ≡ some v =
      ap (λ y. value_at k y) r.0
      ∙ ground
          (arith, value_at-put_value k v k (store_at sh.store b).blobs a, bytes_equal_iff k k) in
    let o =
      open_blob_read_done s sh k v (replaced sh k v d b) f m w (replaced-fresh sh k v d b h) in
    (o.0 ∙ ap (λ y. done (incremented b.next_handle, length v, y)) r.1, o.1)

-- A blob that is written piece by piece is stored and read whole: after `BeginBlobReplace` for the
-- size of the pieces together, which succeeds, and the pieces written one after the other at their
-- offsets, `CommitBlob` succeeds with the next generation; then, if the keys of the store's blobs
-- ascend, `OpenBlobRead` of the key tells that size and generation, and `ReadBlob` of the whole
-- gives the pieces joined.
pub read_blob-commit_blob :
    (s n g : ℕ) (k : Bytes) (ps : List Bytes) (d : Durability) (sh : StoreHandle) (b : Backend)
    → find s b.store_handles ≡ some sh
    → (length k == 0) ≡ false
    → ascend (store_at sh.store b).blobs ≡ true
    → has_key b.next_handle b.blobs ≡ false
    → has_key (incremented b.next_handle) b.blobs ≡ false
    → (begin_blob_replace s (view k) (length (join ps)) d b).0 ≡ done (n, g)
    → let b' = write_pieces n 0 ps (begin_blob_replace s (view k) (length (join ps)) d b).1 in
      ((commit_blob n b').0 ≡ done (record { generation = incremented g; achieved_durability = d }))
      × ((open_blob_read s (view k) (commit_blob n b').1).0
          ≡ done (incremented b.next_handle, length (join ps), incremented g))
      × (read_blob
            (incremented b.next_handle)
            0
            (length (join ps))
            (open_blob_read s (view k) (commit_blob n b').1).1
          ≡ done (join ps))
read_blob-commit_blob s n g k ps d sh b f m a h h' e =
    let u = begin_blob_replace_done s n g (length (join ps)) k d sh b f m e in
    let b1 = (replace_at sh k (length (join ps)) d b).1 in
    let c =
      ap (λ (x : Reply (ℕ × ℕ) × Backend). commit_blob n (write_pieces n 0 ps x.1)) u.0
      ∙ ap (λ y. commit_blob y (write_pieces y 0 ps b1)) u.1
      ∙ commit_blob-write_pieces sh k ps d b h in
    let r = replaced-read s k (join ps) d sh b f m a h' in
    (
      ap (λ (x : Reply CommitResult × Backend). x.0) c
          ∙ ap (λ y. done (record { generation = incremented y; achieved_durability = d }))
              (sym u.2),
      ap (λ (x : Reply CommitResult × Backend). (open_blob_read s (view k) x.1).0) c
          ∙ r.0
          ∙ ap (λ y. done (incremented b.next_handle, length (join ps), incremented y)) (sym u.2),
      ap
            (λ (x : Reply CommitResult × Backend).
              read_blob (incremented b.next_handle) 0 (length (join ps))
                (open_blob_read s (view k) x.1).1)
            c
          ∙ r.1,
    )
