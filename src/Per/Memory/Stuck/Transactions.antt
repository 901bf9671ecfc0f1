-- ===== src/Per/Memory/Stuck/Transactions.antt =====
-- per/backends/memory.cpp: transactions and blob operations leave a stuck store alone.
use openvehicleframework.Base.{
  ==_refl, ℕ, is_empty, find-le-total, if-cases, Bool, true, false, not, ◌&&◌, Option, some, find,
  arith, ◌≡◌, refl, Option-cases, inl, inr,
}
use openvehicleframework.Per.Types.{Durability, View}
use openvehicleframework.Per.Memory.{
  StoreData, Backend, Transaction, store_at, set_store, end_writer, StoreHandle,
}
use openvehicleframework.Per.Memory.Transactions.{
  begin, begin_at, count_rejected, put, erase, commit, abort, close_transaction, set_values, finish,
  leave,
}
use openvehicleframework.Per.Memory.Blobs.{}
use openvehicleframework.Per.Memory.Migration.{}
use openvehicleframework.Per.Memory.Writers.{weight, writers, IsConsistent}
use openvehicleframework.Per.Memory.Writers.Transactions.{
  open_writer-find, commit-cases, put-cases, erase-cases,
}
use openvehicleframework.Per.Memory.Stuck.{kept-IsStuck, IsStuck, set_store-IsStuck}
use openvehicleframework.Per.Memory.Writers.Blobs.{}
use openvehicleframework.Per.Memory.Writers.Transactions.{begin_on-cases}

module _ (x : StoreData) (a : ℕ) where
  abbrev pub Stuck : Backend → Type 0
  Stuck b = IsStuck x (store_at a b)

  -- A store that is given free, or whose flag is set to false.
  freed-IsStuck : (s : StoreData) → IsStuck x s → IsStuck x (record s { writer_active = false })
  freed-IsStuck s i = record {
    values = i.values;
    blobs = i.blobs;
    generation = i.generation;
    pending = i.pending;
    outdated = i.outdated;
    no_rollback = i.no_rollback;
    no_writer = refl;
  }

  pub end_writer-IsStuck : (j : ℕ) (b : Backend) → Stuck b → Stuck (end_writer j b)
  unfolding end_writer
  end_writer-IsStuck j b i = set_store-IsStuck x a j _ b (freed-IsStuck (store_at j b)) i

  pub count_rejected-IsStuck : (j : ℕ) (b : Backend) → Stuck b → Stuck (count_rejected j b)
  unfolding count_rejected
  count_rejected-IsStuck j b i =
      set_store-IsStuck x a j _ b
        (kept-IsStuck x (store_at j b) _ refl refl refl refl refl refl refl) i

  begin_at-IsStuck :
      (h : StoreHandle) (d : Durability) (w : Bool) (b : Backend)
      → (w && not (is_empty (store_at h.store b).migration_id)) ≡ false
      → Stuck b
      → Stuck (begin_at h d w b).1
  unfolding begin_at store_at set_store
  begin_at-IsStuck h d true b e i =
      set_store-IsStuck x a h.store (record (store_at h.store b) { writer_active = true }) b
        (λ k. absurd (ground (arith, k.pending, e))) i
  begin_at-IsStuck h d false b e i = i

  pub begin-IsStuck :
      (h : ℕ) (d : Durability) (w : Bool) (e : Option ℕ) (b : Backend)
      → Stuck b
      → Stuck (begin h d w e b).1
  unfolding begin
  begin-IsStuck h d w e b i = elim (Option-cases (find h b.store_handles)) [
    | inl n ↦ rw (n, begin) i
    | inr (s, n) ↦
        rw (n, begin)
          (begin_on-cases Stuck s d w e b i (count_rejected-IsStuck s.store b i)
            λ f n. begin_at-IsStuck s d w b n i)
  ]

  pub put-IsStuck : (h : ℕ) (k v : View) (b : Backend) → Stuck b → Stuck (put h k v b).1
  unfolding set_values store_at
  put-IsStuck h k v b i = put-cases Stuck h k v b i λ t vs e. i

  pub erase-IsStuck : (h : ℕ) (k : View) (b : Backend) → Stuck b → Stuck (erase h k b).1
  unfolding set_values store_at
  erase-IsStuck h k b i = erase-cases Stuck h k b i λ t vs e. i

  -- A writer of a store is one of its writers.
  writing-flagged :
      (h : ℕ) (t : Transaction) (b : Backend)
      → find h b.transactions ≡ some t
      → t.finished ≡ false
      → t.write ≡ true
      → IsConsistent b
      → (store_at t.store b).writer_active ≡ true
  unfolding writers weight
  writing-flagged h t b e f w c = ground (
    arith,
    find-le-total (weight t.store) h b.transactions t e,
    c.single t.store,
    ==_refl t.store,
  )

  pub commit-IsStuck : (h : ℕ) (b : Backend) → IsConsistent b → Stuck b → Stuck (commit h b).1
  unfolding finish store_at
  commit-IsStuck h b c i = commit-cases Stuck h b i λ t s e n.
      let o = open_writer-find h b t e in
      set_store-IsStuck x a t.store s b
        (λ k. absurd (ground (arith, k.no_writer, writing-flagged h t b o.0 o.1 o.2 c))) i

  leave-IsStuck : (t : Transaction) (b : Backend) → Stuck b → Stuck (leave t b)
  unfolding leave
  leave-IsStuck t b i =
      if-cases Stuck (t.write && not t.finished) (λ c. end_writer-IsStuck t.store b i) (λ c. i)

  pub abort-IsStuck : (h : ℕ) (b : Backend) → Stuck b → Stuck (abort h b).1
  unfolding abort finish store_at
  abort-IsStuck h b i = elim (Option-cases (find h b.transactions)) [
    | inl n ↦ rw (n, abort) i
    | inr (t, n) ↦ rw (n, abort) (leave-IsStuck t b i)
  ]

  pub close_transaction-IsStuck : (h : ℕ) (b : Backend) → Stuck b → Stuck (close_transaction h b).1
  unfolding close_transaction store_at
  close_transaction-IsStuck h b i = elim (Option-cases (find h b.transactions)) [
    | inl n ↦ rw (n, close_transaction) i
    | inr (t, n) ↦ rw (n, close_transaction) (leave-IsStuck t b i)
  ]
