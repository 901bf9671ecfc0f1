-- ===== src/Per/Memory/Writers/Stops.antt =====
-- per/backends/memory.cpp: the life cycle and the closing of stores keep the flags right.
use openvehicleframework.Base.{
  ℕ, ◌-◌, total, total_empty, total_cons, false, [], ◌∷◌, Table, find-assign, find-remove, has_key,
  arith, ◌≡◌, refl, sym, ◌∙◌, Bool-cases, if◌then◌else◌, ◌==◌, ==_iff, inl, inr,
}
use openvehicleframework.Per.Memory.{
  Backend, BlobOperation, MigrationOperation, Transaction, store_at, set_store, end_writer,
}
use openvehicleframework.Per.Memory.Lifecycle.{
  stop_transactions, stop_blobs, stop_migrations, stop, close_store, end_migration,
}
use openvehicleframework.Per.Memory.Blobs.{}
use openvehicleframework.Per.Memory.Migration.{}
use openvehicleframework.Per.Memory.Stopping.{stop-same}
use openvehicleframework.Per.Memory.Writers.{
  weight, weight_of_blob, writers, flagged, IsConsistent, store_at-set_store,
}

end_writer-flagged :
    (a j : ℕ) (b : Backend) → flagged j (end_writer a b) ≡ (if a == j then 0 else flagged j b)
unfolding end_writer set_store store_at
end_writer-flagged a j b =
    ground (arith, find-assign a j (record (store_at a b) { writer_active = false }) b.heap)

stop_transactions-flagged :
    (ts : Table Transaction) (j : ℕ) (b : Backend)
    → flagged j (stop_transactions ts b) ≡ flagged j b - total (weight j) ts
unfolding stop_transactions weight
stop_transactions-flagged [] j b = ground (arith, total_empty (weight j))
stop_transactions-flagged ((h, t) ∷ ts) j b = ground (
  arith,
  total_cons (weight j) h t ts,
  stop_transactions-flagged ts j b,
  stop_transactions-flagged ts j (end_writer t.store b),
  end_writer-flagged t.store j b,
)

stop_blobs-flagged :
    (os : Table BlobOperation) (j : ℕ) (b : Backend)
    → flagged j (stop_blobs os b) ≡ flagged j b - total (weight_of_blob j) os
unfolding stop_blobs weight_of_blob
stop_blobs-flagged [] j b = ground (arith, total_empty (weight_of_blob j))
stop_blobs-flagged ((h, o) ∷ os) j b = ground (
  arith,
  total_cons (weight_of_blob j) h o os,
  stop_blobs-flagged os j b,
  stop_blobs-flagged os j (end_writer o.store b),
  end_writer-flagged o.store j b,
)

pub end_migration-flagged : (a j : ℕ) (b : Backend) → flagged j (end_migration a b) ≡ flagged j b
unfolding end_migration
end_migration-flagged a j b = ground (
  arith,
  store_at-set_store a j (record (store_at a b) { migration_handle_active = false }) b,
  ==_iff a j,
)

stop_migrations-flagged :
    (os : Table MigrationOperation) (j : ℕ) (b : Backend)
    → flagged j (stop_migrations os b) ≡ flagged j b
unfolding stop_migrations
stop_migrations-flagged [] j b = refl
stop_migrations-flagged ((h, o) ∷ os) j b =
    stop_migrations-flagged os j (end_migration o.store b) ∙ end_migration-flagged o.store j b

stop-flagged : (j : ℕ) (b : Backend) → IsConsistent b → flagged j (stop b) ≡ 0
unfolding stop writers store_at
stop-flagged j b i =
    let b' = stop_transactions b.transactions b in
    let b'' = stop_blobs b.blobs b' in
    let e = stop_migrations-flagged b.migrations j b'' in
    let f = stop_blobs-flagged b.blobs j b' in
    let g = stop_transactions-flagged b.transactions j b in e ∙ omega (arith, f, g, i.single j)

pub stop-IsConsistent : (b : Backend) → IsConsistent b → IsConsistent (stop b)
unfolding stop writers
stop-IsConsistent b i =
    let e = (stop-same b).0 in
    record {
      transactions_distinct = refl;
      blobs_distinct = refl;
      transactions_fresh = λ h p. cc;
      blobs_fresh = λ h p. cc;
      handles = λ h s p. cc;
      named = λ n a p. rw e (i.named n a (rw (sym e) p));
      unallocated = λ j l. stop-flagged j b i;
      single = λ j.
          ground
            (arith, total_empty (weight j), total_empty (weight_of_blob j), stop-flagged j b i);
    }

pub close_store-IsConsistent :
    (h : ℕ) (b : Backend) → IsConsistent b → IsConsistent (close_store h b).1
unfolding close_store writers store_at
close_store-IsConsistent h b i = elim (Bool-cases (has_key h b.store_handles)) [
  | inl c ↦
      rw (c, close_store)
        (record {
          transactions_distinct = i.transactions_distinct;
          blobs_distinct = i.blobs_distinct;
          transactions_fresh = i.transactions_fresh;
          blobs_fresh = i.blobs_fresh;
          handles = λ k s p. ground (arith, find-remove h k b.store_handles, i.handles k s);
          named = i.named;
          unallocated = i.unallocated;
          single = i.single;
        })
  | inr c ↦ rw (c, close_store) i
]
