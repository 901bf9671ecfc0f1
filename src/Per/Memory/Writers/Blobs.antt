-- ===== src/Per/Memory/Writers/Blobs.antt =====
-- per/backends/memory.cpp: blob operations keep the flags of the stores right.
use openvehicleframework.Base.{
  is_empty, assign, remove, if-cases, ℕ, ◌+◌, ◌<◌, ◌^◌, suc, length, find-le-total, true, false,
  not, ◌&&◌, ◌||◌, some, find, find-assign, arith, ◌≡◌, refl, Bool-cases, Option-cases, ◌==◌,
  ==_iff, inl, inr,
}
use openvehicleframework.Per.Bytes.{Bytes, value_at}
use openvehicleframework.Per.Types.{
  is_valid_view, size_of_view, Reply, CommitResult, copy, Durability, View,
}
use openvehicleframework.Per.Memory.{
  Backend, StoreData, BlobOperation, store_at, set_store, end_writer, StoreHandle,
}
use openvehicleframework.Per.Memory.Blobs.{
  overwrite, open_blob_read, begin_blob_replace, write_blob, commit_blob, abort_blob, close_blob,
  add_blob, replace_at, replace_on, finish_blob, commit_blob_of, leave_blob,
}
use openvehicleframework.Per.Memory.Migration.{}
use openvehicleframework.Per.Memory.Writers.{weight_of_blob, writers, IsConsistent}
use openvehicleframework.Per.Memory.Writers.BlobChanges.{
  add_blob-IsConsistent, change_blob-IsConsistent, drop_blob-IsConsistent,
}

reading-IsConsistent :
    (o : BlobOperation) (b : Backend)
    → suc b.next_handle < 2 ^ 64
    → o.write ≡ false
    → IsConsistent b
    → IsConsistent (add_blob o b)
unfolding add_blob weight_of_blob
reading-IsConsistent o b l w i =
    add_blob-IsConsistent b b.heap o l (λ j. ground arith) (λ j n. i.unallocated j n) i

pub open_blob_read-cases :
    (P : Backend → Type 0) (h : ℕ) (k : View) (b : Backend)
    → P b
    → ((o : BlobOperation) → o.write ≡ false → P (add_blob o b))
    → P (open_blob_read h k b).1
unfolding open_blob_read
open_blob_read-cases P h k b p q =
    elim (Bool-cases (not (is_valid_view k) || (size_of_view k == 0))) [
      | inl c ↦ rw (c, open_blob_read) p
      | inr c ↦ elim (Option-cases (find h b.store_handles)) [
        | inl e ↦ rw (c, e, open_blob_read) p
        | inr (s, e) ↦ elim (Option-cases (value_at (copy k) (store_at s.store b).blobs)) [
          | inl f ↦ rw (c, e, open_blob_read) (rw f p)
          | inr (x, f) ↦ rw (c, e, open_blob_read) (rw f (q _ refl))
        ]
      ]
    ]

pub open_blob_read-IsConsistent :
    (h : ℕ) (k : View) (b : Backend)
    → suc b.next_handle < 2 ^ 64
    → IsConsistent b
    → IsConsistent (open_blob_read h k b).1
open_blob_read-IsConsistent h k b l i =
    open_blob_read-cases IsConsistent h k b i λ o w. reading-IsConsistent o b l w i

replace_at-IsConsistent :
    (h : StoreHandle) (k : Bytes) (n : ℕ) (d : Durability) (b : Backend)
    → suc b.next_handle < 2 ^ 64
    → h.store < length b.stores
    → (store_at h.store b).writer_active ≡ false
    → IsConsistent b
    → IsConsistent (replace_at h k n d b).1
unfolding replace_at add_blob set_store store_at weight_of_blob
replace_at-IsConsistent h k n d b l m free i =
    let s = record (store_at h.store b) { writer_active = true } in
    add_blob-IsConsistent b (assign h.store s b.heap) _ l
      (λ j. ground (arith, find-assign h.store j s b.heap, ==_iff h.store j))
      (λ j g. ground (arith, find-assign h.store j s b.heap, i.unallocated j g, ==_iff h.store j)) i

pub replace_on-cases :
    (P : Backend → Type 0) (h : StoreHandle) (k : View) (n : ℕ) (d : Durability) (b : Backend)
    → P b
    → ((store_at h.store b).writer_active ≡ false
        → is_empty (store_at h.store b).migration_id ≡ true
        → P (replace_at h (copy k) n d b).1)
    → P (replace_on h k n d b).1
unfolding replace_on
replace_on-cases P h k n d b p q = ground arith

pub begin_blob_replace-IsConsistent :
    (h : ℕ) (k : View) (n : ℕ) (d : Durability) (b : Backend)
    → suc b.next_handle < 2 ^ 64
    → IsConsistent b
    → IsConsistent (begin_blob_replace h k n d b).1
unfolding begin_blob_replace
begin_blob_replace-IsConsistent h k n d b l i =
    elim (Bool-cases (not (is_valid_view k) || (size_of_view k == 0))) [
      | inl c ↦ rw (c, begin_blob_replace) i
      | inr c ↦ elim (Option-cases (find h b.store_handles)) [
        | inl e ↦ rw (c, e, begin_blob_replace) i
        | inr (s, e) ↦
            rw (c, e, begin_blob_replace)
              (replace_on-cases IsConsistent s k n d b i λ free none_pending.
                replace_at-IsConsistent s (copy k) n d b l (i.handles h s e) free i)
      ]
    ]

pub write_blob-cases :
    (P : Backend → Type 0) (h n : ℕ) (v : View) (b : Backend)
    → P b
    → ((o : BlobOperation) (x : Bytes) (w : ℕ)
        → find h b.blobs ≡ some o
        → P (record b { blobs = assign h (record o { value = x; written = w }) b.blobs }))
    → P (write_blob h n v b).1
unfolding write_blob
write_blob-cases P h n v b p q = elim (Option-cases (find h b.blobs)) [
  | inl e ↦ rw (e, write_blob) (ground arith)
  | inr (o, e) ↦ ground (arith, q o (overwrite n (copy v) o.value) (o.written + size_of_view v) e)
]

pub write_blob-IsConsistent :
    (h n : ℕ) (v : View) (b : Backend) → IsConsistent b → IsConsistent (write_blob h n v b).1
unfolding weight_of_blob
write_blob-IsConsistent h n v b i = write_blob-cases IsConsistent h n v b i λ o x w e.
    change_blob-IsConsistent b b.heap h o (record o { value = x; written = w }) e (λ j. omega arith)
      (λ j. omega arith) i

-- A replacement that ends and gives its store free, whatever else changes in the store.
finish_blob-IsConsistent :
    (h : ℕ) (o : BlobOperation) (s : StoreData) (b : Backend)
    → find h b.blobs ≡ some o
    → o.finished ≡ false
    → o.write ≡ true
    → s.writer_active ≡ false
    → IsConsistent b
    → IsConsistent (finish_blob h o (set_store o.store s b))
unfolding finish_blob set_store store_at weight_of_blob writers
finish_blob-IsConsistent h o s b e f w n i =
    let free = λ (j : ℕ). find-assign o.store j s b.heap in
    let one = λ (j : ℕ). find-le-total (weight_of_blob j) h b.blobs o e in
    change_blob-IsConsistent b (assign o.store s b.heap) h o (record o { finished = true }) e
      (λ j. ground (arith, free j, one j, i.single j, ==_iff o.store j))
      (λ j. ground (arith, free j)) i

pub commit_blob_of-cases :
    (P : Backend → Type 0) (h : ℕ) (o : BlobOperation) (b : Backend)
    → ((s : StoreData) → s.writer_active ≡ false → P (finish_blob h o (set_store o.store s b)))
    → P (commit_blob_of h o b).1
unfolding commit_blob_of end_writer
commit_blob_of-cases P h o b q =
    let s = store_at o.store b in
    if-cases (λ (r : Reply CommitResult × Backend). P r.1) (not (s.generation == o.generation))
      (λ c. q (record s { writer_active = false }) refl) (λ c. q _ refl)

pub commit_blob-cases :
    (P : Backend → Type 0) (h : ℕ) (b : Backend)
    → P b
    → ((o : BlobOperation)
        → find h b.blobs ≡ some o
        → o.finished ≡ false
        → o.write ≡ true
        → P (commit_blob_of h o b).1)
    → P (commit_blob h b).1
unfolding commit_blob
commit_blob-cases P h b p q = elim (Option-cases (find h b.blobs)) [
  | inl n ↦ rw (n, commit_blob) p
  | inr (o, n) ↦ ground (arith, q o n)
]

pub commit_blob-IsConsistent :
    (h : ℕ) (b : Backend) → IsConsistent b → IsConsistent (commit_blob h b).1
commit_blob-IsConsistent h b i = commit_blob-cases IsConsistent h b i λ o e f w.
    commit_blob_of-cases IsConsistent h o b λ s n. finish_blob-IsConsistent h o s b e f w n i

leave_blob-finish_blob-IsConsistent :
    (h : ℕ) (o : BlobOperation) (b : Backend)
    → find h b.blobs ≡ some o
    → IsConsistent b
    → IsConsistent (finish_blob h o (leave_blob o b))
unfolding leave_blob end_writer finish_blob weight_of_blob
leave_blob-finish_blob-IsConsistent h o b e i = elim (Bool-cases (o.write && not o.finished)) [
  | inl c ↦
      rw (c, leave_blob)
        (finish_blob-IsConsistent h o (record (store_at o.store b) { writer_active = false }) b e
          (ground arith) (ground arith) refl i)
  | inr c ↦
      rw (c, leave_blob)
        (change_blob-IsConsistent b b.heap h o (record o { finished = true }) e (λ j. ground arith)
          (λ j. omega arith) i)
]

pub abort_blob-IsConsistent :
    (h : ℕ) (b : Backend) → IsConsistent b → IsConsistent (abort_blob h b).1
unfolding abort_blob
abort_blob-IsConsistent h b i = elim (Option-cases (find h b.blobs)) [
  | inl n ↦ rw (n, abort_blob) i
  | inr (o, n) ↦ rw (n, abort_blob) (leave_blob-finish_blob-IsConsistent h o b n i)
]

leave_blob-drop-IsConsistent :
    (h : ℕ) (o : BlobOperation) (b : Backend)
    → find h b.blobs ≡ some o
    → IsConsistent b
    → IsConsistent (record (leave_blob o b) { blobs = remove h b.blobs })
unfolding leave_blob end_writer set_store store_at weight_of_blob writers
leave_blob-drop-IsConsistent h o b e i = elim (Bool-cases (o.write && not o.finished)) [
  | inl c ↦
      let s = record (store_at o.store b) { writer_active = false } in
      rw (c, leave_blob)
        (drop_blob-IsConsistent b (assign o.store s b.heap) h o e
          (λ j. ground (
            arith,
            find-assign o.store j s b.heap,
            find-le-total (weight_of_blob j) h b.blobs o e,
            i.single j,
            ==_iff o.store j,
          ))
          i)
  | inr c ↦ rw (c, leave_blob) (drop_blob-IsConsistent b b.heap h o e (λ j. ground arith) i)
]

pub close_blob-IsConsistent :
    (h : ℕ) (b : Backend) → IsConsistent b → IsConsistent (close_blob h b).1
unfolding close_blob
close_blob-IsConsistent h b i = elim (Option-cases (find h b.blobs)) [
  | inl n ↦ rw (n, close_blob) i
  | inr (o, n) ↦ rw (n, close_blob) (leave_blob-drop-IsConsistent h o b n i)
]
