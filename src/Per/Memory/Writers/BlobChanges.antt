-- ===== src/Per/Memory/Writers/BlobChanges.antt =====
-- per/backends/memory.cpp: what a changed table of blob operations does to the flags.
use openvehicleframework.Base.{
  emplace, assign, remove, ℕ, ◌+◌, ◌≤◌, ◌<◌, ◌^◌, suc, length, total-assign, total-emplace,
  total-remove, distinct-keys-assign, distinct-keys-emplace, distinct-keys-remove, false, some,
  Table, find, find-assign, find-emplace, find-remove, has_key, arith, ◌≡◌, ==_iff,
}
use openvehicleframework.Per.Memory.{Backend, StoreData, incremented, BlobOperation, store_at}
use openvehicleframework.Per.Memory.Blobs.{}
use openvehicleframework.Per.Memory.Migration.{}
use openvehicleframework.Per.Memory.Writers.{
  weight_of_blob, writers, flagged, IsConsistent, incremented-eq,
}

-- A blob operation that is added.
pub add_blob-IsConsistent :
    (b : Backend) (heap : Table StoreData) (t : BlobOperation)
    → suc b.next_handle < 2 ^ 64
    → ((j : ℕ) → flagged j (record b { heap = heap }) ≡ weight_of_blob j t + flagged j b)
    → ((j : ℕ) → length b.stores ≤ j → flagged j (record b { heap = heap }) ≡ 0)
    → IsConsistent b
    → IsConsistent (record b {
      heap = heap;
      next_handle = incremented b.next_handle;
      blobs = emplace b.next_handle t b.blobs;
    })
unfolding writers store_at
add_blob-IsConsistent b heap t l f u i =
    let n = b.next_handle in
    let inc = incremented-eq n l in
    let new : has_key n b.blobs ≡ false = ground (arith, i.blobs_fresh n) in
    record {
      blobs_distinct = distinct-keys-emplace n t _ i.blobs_distinct;
      transactions_distinct = i.transactions_distinct;
      blobs_fresh =
          λ h k. ground (arith, find-emplace n h t b.blobs, i.blobs_fresh h, inc, ==_iff n h);
      transactions_fresh = λ h k. ground (arith, i.transactions_fresh h, inc);
      handles = i.handles;
      named = i.named;
      unallocated = u;
      single = λ j. ground (arith, total-emplace (weight_of_blob j) n t b.blobs, i.single j, f j);
    }

-- A blob operation that is changed.
pub change_blob-IsConsistent :
    (b : Backend) (heap : Table StoreData) (h : ℕ) (t t' : BlobOperation)
    → find h b.blobs ≡ some t
    → ((j : ℕ)
        → flagged j (record b { heap = heap }) + weight_of_blob j t
          ≡ weight_of_blob j t' + flagged j b)
    → ((j : ℕ) → flagged j (record b { heap = heap }) ≤ flagged j b)
    → IsConsistent b
    → IsConsistent (record b { heap = heap; blobs = assign h t' b.blobs })
unfolding writers store_at
change_blob-IsConsistent b heap h t t' e f u i = record {
  blobs_distinct = distinct-keys-assign h t' _ i.blobs_distinct;
  transactions_distinct = i.transactions_distinct;
  blobs_fresh = λ k p. ground (arith, find-assign h k t' b.blobs, i.blobs_fresh k, ==_iff h k);
  transactions_fresh = i.transactions_fresh;
  handles = i.handles;
  named = i.named;
  unallocated = λ j l. ground (arith, u j, i.unallocated j l);
  single = λ j. ground (arith, total-assign (weight_of_blob j) h t' t b.blobs e, i.single j, f j);
}

-- A blob operation that is closed.
pub drop_blob-IsConsistent :
    (b : Backend) (heap : Table StoreData) (h : ℕ) (t : BlobOperation)
    → find h b.blobs ≡ some t
    → ((j : ℕ) → flagged j (record b { heap = heap }) + weight_of_blob j t ≡ flagged j b)
    → IsConsistent b
    → IsConsistent (record b { heap = heap; blobs = remove h b.blobs })
unfolding writers store_at
drop_blob-IsConsistent b heap h t e f i = record {
  blobs_distinct = distinct-keys-remove h _ i.blobs_distinct;
  transactions_distinct = i.transactions_distinct;
  blobs_fresh = λ k p. ground (arith, find-remove h k b.blobs, i.blobs_fresh k);
  transactions_fresh = i.transactions_fresh;
  handles = i.handles;
  named = i.named;
  unallocated = λ j l. ground (arith, f j, i.unallocated j l);
  single = λ j.
      ground
        (arith, total-remove (weight_of_blob j) h t b.blobs i.blobs_distinct e, i.single j, f j);
}
