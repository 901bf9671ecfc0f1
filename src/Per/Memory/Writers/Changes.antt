-- ===== src/Per/Memory/Writers/Changes.antt =====
-- per/backends/memory.cpp: what a changed table of transactions does to the flags.
use openvehicleframework.Base.{
  emplace, assign, remove, ℕ, ◌+◌, ◌≤◌, ◌<◌, ◌^◌, suc, length, total-assign, total-emplace,
  total-remove, distinct-keys-assign, distinct-keys-emplace, distinct-keys-remove, false, some,
  Table, find, find-assign, find-emplace, find-remove, has_key, arith, ◌≡◌, ==_iff,
}
use openvehicleframework.Per.Memory.{Backend, StoreData, incremented, Transaction, store_at}
use openvehicleframework.Per.Memory.Blobs.{}
use openvehicleframework.Per.Memory.Migration.{}
use openvehicleframework.Per.Memory.Writers.{weight, writers, flagged, IsConsistent, incremented-eq}

-- A transaction that is added.
pub add-IsConsistent :
    (b : Backend) (heap : Table StoreData) (t : Transaction)
    → suc b.next_handle < 2 ^ 64
    → ((j : ℕ) → flagged j (record b { heap = heap }) ≡ weight j t + flagged j b)
    → ((j : ℕ) → length b.stores ≤ j → flagged j (record b { heap = heap }) ≡ 0)
    → IsConsistent b
    → IsConsistent (record b {
      heap = heap;
      next_handle = incremented b.next_handle;
      transactions = emplace b.next_handle t b.transactions;
    })
unfolding writers store_at
add-IsConsistent b heap t l f u i =
    let n = b.next_handle in
    let inc = incremented-eq n l in
    let new : has_key n b.transactions ≡ false = ground (arith, i.transactions_fresh n) in
    record {
      transactions_distinct = distinct-keys-emplace n t _ i.transactions_distinct;
      blobs_distinct = i.blobs_distinct;
      transactions_fresh = λ h k.
          ground
            (arith, find-emplace n h t b.transactions, i.transactions_fresh h, inc, ==_iff n h);
      blobs_fresh = λ h k. ground (arith, i.blobs_fresh h, inc);
      handles = i.handles;
      named = i.named;
      unallocated = u;
      single = λ j. ground (arith, total-emplace (weight j) n t b.transactions, i.single j, f j);
    }

-- A transaction that is changed.
pub change-IsConsistent :
    (b : Backend) (heap : Table StoreData) (h : ℕ) (t t' : Transaction)
    → find h b.transactions ≡ some t
    → ((j : ℕ) → flagged j (record b { heap = heap }) + weight j t ≡ weight j t' + flagged j b)
    → ((j : ℕ) → flagged j (record b { heap = heap }) ≤ flagged j b)
    → IsConsistent b
    → IsConsistent (record b { heap = heap; transactions = assign h t' b.transactions })
unfolding writers store_at
change-IsConsistent b heap h t t' e f u i = record {
  transactions_distinct = distinct-keys-assign h t' _ i.transactions_distinct;
  blobs_distinct = i.blobs_distinct;
  transactions_fresh =
      λ k p. ground (arith, find-assign h k t' b.transactions, i.transactions_fresh k, ==_iff h k);
  blobs_fresh = i.blobs_fresh;
  handles = i.handles;
  named = i.named;
  unallocated = λ j l. ground (arith, u j, i.unallocated j l);
  single = λ j. ground (arith, total-assign (weight j) h t' t b.transactions e, i.single j, f j);
}

-- A transaction that is closed.
pub drop-IsConsistent :
    (b : Backend) (heap : Table StoreData) (h : ℕ) (t : Transaction)
    → find h b.transactions ≡ some t
    → ((j : ℕ) → flagged j (record b { heap = heap }) + weight j t ≡ flagged j b)
    → IsConsistent b
    → IsConsistent (record b { heap = heap; transactions = remove h b.transactions })
unfolding writers store_at
drop-IsConsistent b heap h t e f i = record {
  transactions_distinct = distinct-keys-remove h _ i.transactions_distinct;
  blobs_distinct = i.blobs_distinct;
  transactions_fresh =
      λ k p. ground (arith, find-remove h k b.transactions, i.transactions_fresh k);
  blobs_fresh = i.blobs_fresh;
  handles = i.handles;
  named = i.named;
  unallocated = λ j l. ground (arith, f j, i.unallocated j l);
  single = λ j. ground (
    arith,
    total-remove (weight j) h t b.transactions i.transactions_distinct e,
    i.single j,
    f j,
  );
}
