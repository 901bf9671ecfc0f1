-- ===== src/Per/Memory/Stuck/Blobs.antt =====
-- per/backends/memory.cpp: blob operations and cursors leave a stuck store alone.
use openvehicleframework.Base.{
  ==_refl, ℕ, is_empty, find-le-total, if-cases, true, false, not, ◌&&◌, ◌||◌, Option, some, find,
  arith, ◌≡◌, Bool-cases, Option-cases, ◌==◌, inl, inr,
}
use openvehicleframework.Per.Bytes.{Bytes}
use openvehicleframework.Per.Types.{is_valid_view, size_of_view, copy, Durability, View}
use openvehicleframework.Per.Memory.{
  StoreData, BlobOperation, Backend, store_at, set_store, StoreHandle,
}
use openvehicleframework.Per.Memory.Blobs.{
  open_blob_read, begin_blob_replace, write_blob, commit_blob, abort_blob, close_blob, add_blob,
  replace_at, finish_blob, leave_blob,
}
use openvehicleframework.Per.Memory.Cursors.{open_cursor, next_cursor, add_cursor}
use openvehicleframework.Per.Memory.Migration.{}
use openvehicleframework.Per.Memory.Writers.{weight_of_blob, writers, IsConsistent}
use openvehicleframework.Per.Memory.Stuck.Transactions.{Stuck, end_writer-IsStuck}
use openvehicleframework.Per.Memory.Stuck.{set_store-IsStuck}
use openvehicleframework.Per.Memory.Writers.Blobs.{
  commit_blob-cases, commit_blob_of-cases, open_blob_read-cases, write_blob-cases,
}
use openvehicleframework.Per.Memory.Writers.Blobs.{replace_on-cases}
use openvehicleframework.Per.Memory.Writers.Recovery.{open_cursor-cases, next_cursor-cases}

module _ (x : StoreData) (a : ℕ) where
  pub open_blob_read-IsStuck :
      (h : ℕ) (k : View) (b : Backend) → Stuck x a b → Stuck x a (open_blob_read h k b).1
  unfolding add_blob store_at
  open_blob_read-IsStuck h k b i = open_blob_read-cases (Stuck x a) h k b i λ o w. i

  replace_at-IsStuck :
      (h : StoreHandle) (k : Bytes) (n : ℕ) (d : Durability) (b : Backend)
      → is_empty (store_at h.store b).migration_id ≡ true
      → Stuck x a b
      → Stuck x a (replace_at h k n d b).1
  unfolding replace_at add_blob store_at set_store
  replace_at-IsStuck h k n d b e i =
      set_store-IsStuck x a h.store (record (store_at h.store b) { writer_active = true }) b
        (λ k. absurd (ground (arith, k.pending, e))) i

  pub begin_blob_replace-IsStuck :
      (h : ℕ) (k : View) (n : ℕ) (d : Durability) (b : Backend)
      → Stuck x a b
      → Stuck x a (begin_blob_replace h k n d b).1
  unfolding begin_blob_replace
  begin_blob_replace-IsStuck h k n d b i =
      elim (Bool-cases (not (is_valid_view k) || (size_of_view k == 0))) [
        | inl c ↦ rw (c, begin_blob_replace) i
        | inr c ↦ elim (Option-cases (find h b.store_handles)) [
          | inl e ↦ rw (c, e, begin_blob_replace) i
          | inr (s, e) ↦
              rw (c, e, begin_blob_replace)
                (replace_on-cases (Stuck x a) s k n d b i
                  λ f p. replace_at-IsStuck s (copy k) n d b p i)
        ]
      ]

  pub write_blob-IsStuck :
      (h n : ℕ) (v : View) (b : Backend) → Stuck x a b → Stuck x a (write_blob h n v b).1
  unfolding store_at
  write_blob-IsStuck h n v b i = write_blob-cases (Stuck x a) h n v b i λ o y w e. i

  -- A replacement of a blob is one of the writers of its store.
  replacing-flagged :
      (h : ℕ) (o : BlobOperation) (b : Backend)
      → find h b.blobs ≡ some o
      → o.finished ≡ false
      → o.write ≡ true
      → IsConsistent b
      → (store_at o.store b).writer_active ≡ true
  unfolding writers weight_of_blob
  replacing-flagged h o b e f w c = ground (
    arith,
    find-le-total (weight_of_blob o.store) h b.blobs o e,
    c.single o.store,
    ==_refl o.store,
  )

  pub commit_blob-IsStuck :
      (h : ℕ) (b : Backend) → IsConsistent b → Stuck x a b → Stuck x a (commit_blob h b).1
  unfolding finish_blob store_at
  commit_blob-IsStuck h b c i = commit_blob-cases (Stuck x a) h b i λ o e f w.
      commit_blob_of-cases (Stuck x a) h o b λ s n.
        set_store-IsStuck x a o.store s b
          (λ k. absurd (ground (arith, k.no_writer, replacing-flagged h o b e f w c))) i

  leave_blob-IsStuck : (o : BlobOperation) (b : Backend) → Stuck x a b → Stuck x a (leave_blob o b)
  unfolding leave_blob
  leave_blob-IsStuck o b i =
      if-cases (Stuck x a) (o.write && not o.finished) (λ c. end_writer-IsStuck x a o.store b i)
        (λ c. i)

  pub abort_blob-IsStuck : (h : ℕ) (b : Backend) → Stuck x a b → Stuck x a (abort_blob h b).1
  unfolding abort_blob finish_blob store_at
  abort_blob-IsStuck h b i = elim (Option-cases (find h b.blobs)) [
    | inl n ↦ rw (n, abort_blob) i
    | inr (o, n) ↦ rw (n, abort_blob) (leave_blob-IsStuck o b i)
  ]

  pub close_blob-IsStuck : (h : ℕ) (b : Backend) → Stuck x a b → Stuck x a (close_blob h b).1
  unfolding close_blob store_at
  close_blob-IsStuck h b i = elim (Option-cases (find h b.blobs)) [
    | inl n ↦ rw (n, close_blob) i
    | inr (o, n) ↦ rw (n, close_blob) (leave_blob-IsStuck o b i)
  ]

  pub open_cursor-IsStuck :
      (h : ℕ) (p : View) (b : Backend) → Stuck x a b → Stuck x a (open_cursor h p b).1
  unfolding add_cursor store_at
  open_cursor-IsStuck h p b i = open_cursor-cases (Stuck x a) h p b i λ vs. i

  pub next_cursor-IsStuck :
      (h : ℕ) (k v : Option ℕ) (b : Backend) → Stuck x a b → Stuck x a (next_cursor h k v b).1
  unfolding store_at
  next_cursor-IsStuck h k v b i = next_cursor-cases (Stuck x a) h k v b i λ cs. i
