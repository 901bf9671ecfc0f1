-- ===== src/Per/Memory/Writers/Transactions.antt =====
-- per/backends/memory.cpp: transactions keep the flags of the stores right.
use openvehicleframework.Base.{
  is_empty, assign, remove, if-cases, ℕ, ◌<◌, ◌^◌, suc, length, find-le-total, Bool, true, false,
  not, ◌&&◌, Option, some, find, find-assign, arith, ◌≡◌, refl, Bool-cases, Option-cases, ◌==◌,
  ==_iff, inl, inr,
}
use openvehicleframework.Per.Bytes.{Values, put_value, erase_value}
use openvehicleframework.Per.Types.{Reply, CommitResult, copy, Durability, View}
use openvehicleframework.Per.Memory.{
  Backend, StoreData, Transaction, store_at, set_store, end_writer, StoreHandle,
}
use openvehicleframework.Per.Memory.Transactions.{
  begin, begin_at, begin_on, count_rejected, put, put_in, erase, commit, commit_of, abort,
  close_transaction, open_writer, open_transaction, set_values, finish, leave,
}
use openvehicleframework.Per.Memory.Blobs.{}
use openvehicleframework.Per.Memory.Migration.{}
use openvehicleframework.Per.Memory.Writers.{weight, writers, IsConsistent, set_store-IsConsistent}
use openvehicleframework.Per.Memory.Writers.Changes.{
  add-IsConsistent, change-IsConsistent, drop-IsConsistent,
}

begin_at-IsConsistent :
    (h : StoreHandle) (d : Durability) (w : Bool) (b : Backend)
    → suc b.next_handle < 2 ^ 64
    → h.store < length b.stores
    → (w && (store_at h.store b).writer_active) ≡ false
    → IsConsistent b
    → IsConsistent (begin_at h d w b).1
unfolding begin_at set_store store_at weight
begin_at-IsConsistent h d true b l m free i =
    let s = record (store_at h.store b) { writer_active = true } in
    add-IsConsistent b (assign h.store s b.heap) _ l
      (λ j. ground (arith, find-assign h.store j s b.heap, ==_iff h.store j))
      (λ j n. ground (arith, find-assign h.store j s b.heap, i.unallocated j n, ==_iff h.store j)) i
begin_at-IsConsistent h d false b l m free i =
    add-IsConsistent b b.heap
      (record {
        store = h.store;
        values = (store_at h.store b).values;
        base_generation = (store_at h.store b).generation;
        durability = d;
        write = false;
        finished = false;
      })
      l (λ j. omega arith) (λ j n. i.unallocated j n) i

count_rejected-IsConsistent :
    (a : ℕ) (b : Backend) → IsConsistent b → IsConsistent (count_rejected a b)
unfolding count_rejected
count_rejected-IsConsistent a b i = set_store-IsConsistent a _ b refl i

pub begin_on-cases :
    (P : Backend → Type 0) (h : StoreHandle) (d : Durability) (w : Bool) (e : Option ℕ)
    (b : Backend)
    → P b
    → P (count_rejected h.store b)
    → ((w && (store_at h.store b).writer_active) ≡ false
        → (w && not (is_empty (store_at h.store b).migration_id)) ≡ false
        → P (begin_at h d w b).1)
    → P (begin_on h d w e b).1
unfolding begin_on
begin_on-cases P h d w e b p q r = ground arith

begin_on-IsConsistent :
    (h : StoreHandle) (d : Durability) (w : Bool) (e : Option ℕ) (b : Backend)
    → suc b.next_handle < 2 ^ 64
    → h.store < length b.stores
    → IsConsistent b
    → IsConsistent (begin_on h d w e b).1
begin_on-IsConsistent h d w e b l m i =
    begin_on-cases IsConsistent h d w e b i (count_rejected-IsConsistent h.store b i)
      λ free none_pending. begin_at-IsConsistent h d w b l m free i

pub begin-IsConsistent :
    (h : ℕ) (d : Durability) (w : Bool) (e : Option ℕ) (b : Backend)
    → suc b.next_handle < 2 ^ 64
    → IsConsistent b
    → IsConsistent (begin h d w e b).1
unfolding begin
begin-IsConsistent h d w e b l i = elim (Option-cases (find h b.store_handles)) [
  | inl n ↦ rw (n, begin) i
  | inr (s, n) ↦ rw (n, begin) (begin_on-IsConsistent s d w e b l (i.handles h s n) i)
]

-- A writer that `open_writer` finds.
pub open_writer-find :
    (h : ℕ) (b : Backend) (t : Transaction)
    → open_writer h b ≡ some t
    → (find h b.transactions ≡ some t) × (t.finished ≡ false) × (t.write ≡ true)
unfolding open_writer open_transaction
open_writer-find h b t e = ground arith

set_values-IsConsistent :
    (h : ℕ) (t : Transaction) (vs : Values) (b : Backend)
    → find h b.transactions ≡ some t
    → IsConsistent b
    → IsConsistent (set_values h t vs b)
unfolding set_values weight
set_values-IsConsistent h t vs b e i =
    change-IsConsistent b b.heap h t (record t { values = vs }) e (λ j. omega arith)
      (λ j. omega arith) i

pub put-cases :
    (P : Backend → Type 0) (h : ℕ) (k v : View) (b : Backend)
    → P b
    → ((t : Transaction) (vs : Values) → open_writer h b ≡ some t → P (set_values h t vs b))
    → P (put h k v b).1
unfolding put put_in
put-cases P h k v b p q = elim (Option-cases (open_writer h b)) [
  | inl n ↦ rw (n, put) (ground arith)
  | inr (t, n) ↦ ground (arith, q t (put_value (copy k) (copy v) t.values) n)
]

pub put-IsConsistent :
    (h : ℕ) (k v : View) (b : Backend) → IsConsistent b → IsConsistent (put h k v b).1
put-IsConsistent h k v b i =
    put-cases IsConsistent h k v b i
      λ t vs e. set_values-IsConsistent h t vs b (open_writer-find h b t e).0 i

pub erase-cases :
    (P : Backend → Type 0) (h : ℕ) (k : View) (b : Backend)
    → P b
    → ((t : Transaction) (vs : Values) → open_writer h b ≡ some t → P (set_values h t vs b))
    → P (erase h k b).1
unfolding erase
erase-cases P h k b p q = elim (Option-cases (open_writer h b)) [
  | inl n ↦ rw (n, erase) (ground arith)
  | inr (t, n) ↦ ground (arith, q t (erase_value (copy k) t.values) n)
]

pub erase-IsConsistent :
    (h : ℕ) (k : View) (b : Backend) → IsConsistent b → IsConsistent (erase h k b).1
erase-IsConsistent h k b i =
    erase-cases IsConsistent h k b i
      λ t vs e. set_values-IsConsistent h t vs b (open_writer-find h b t e).0 i

-- A writer that ends and gives its store free, whatever else changes in the store.
finish-IsConsistent :
    (h : ℕ) (t : Transaction) (s : StoreData) (b : Backend)
    → find h b.transactions ≡ some t
    → t.finished ≡ false
    → t.write ≡ true
    → s.writer_active ≡ false
    → IsConsistent b
    → IsConsistent (finish h t (set_store t.store s b))
unfolding finish set_store store_at weight writers
finish-IsConsistent h t s b e f w n i =
    let free = λ (j : ℕ). find-assign t.store j s b.heap in
    let one = λ (j : ℕ). find-le-total (weight j) h b.transactions t e in
    change-IsConsistent b (assign t.store s b.heap) h t (record t { finished = true }) e
      (λ j. ground (arith, free j, one j, i.single j, ==_iff t.store j))
      (λ j. ground (arith, free j)) i

pub commit-cases :
    (P : Backend → Type 0) (h : ℕ) (b : Backend)
    → P b
    → ((t : Transaction) (s : StoreData)
        → open_writer h b ≡ some t
        → s.writer_active ≡ false
        → P (finish h t (set_store t.store s b)))
    → P (commit h b).1
unfolding commit commit_of end_writer
commit-cases P h b p q = elim (Option-cases (open_writer h b)) [
  | inl n ↦ rw (n, commit) p
  | inr (t, n) ↦
      let s = store_at t.store b in
      rw (n, commit)
        (if-cases (λ (r : Reply CommitResult × Backend). P r.1)
          (not (s.generation == t.base_generation))
          (λ c. q t (record s { writer_active = false }) n refl) (λ c. q t _ n refl))
]

pub commit-IsConsistent : (h : ℕ) (b : Backend) → IsConsistent b → IsConsistent (commit h b).1
commit-IsConsistent h b i =
    commit-cases IsConsistent h b i
      λ t s e n. let o = open_writer-find h b t e in finish-IsConsistent h t s b o.0 o.1 o.2 n i

leave-finish-IsConsistent :
    (h : ℕ) (t : Transaction) (b : Backend)
    → find h b.transactions ≡ some t
    → IsConsistent b
    → IsConsistent (finish h t (leave t b))
unfolding leave end_writer finish weight
leave-finish-IsConsistent h t b e i = elim (Bool-cases (t.write && not t.finished)) [
  | inl c ↦
      rw (c, leave)
        (finish-IsConsistent h t (record (store_at t.store b) { writer_active = false }) b e
          (ground arith) (ground arith) refl i)
  | inr c ↦ rw (c, leave) (done_with h t b e c i)
]
  where
    done_with :
        (h : ℕ) (t : Transaction) (b : Backend)
        → find h b.transactions ≡ some t
        → (t.write && not t.finished) ≡ false
        → IsConsistent b
        → IsConsistent (finish h t b)
    done_with h t b e c i =
        change-IsConsistent b b.heap h t (record t { finished = true }) e (λ j. ground arith)
          (λ j. omega arith) i

pub abort-IsConsistent : (h : ℕ) (b : Backend) → IsConsistent b → IsConsistent (abort h b).1
unfolding abort
abort-IsConsistent h b i = elim (Option-cases (find h b.transactions)) [
  | inl n ↦ rw (n, abort) i
  | inr (t, n) ↦ rw (n, abort) (leave-finish-IsConsistent h t b n i)
]

leave-drop-IsConsistent :
    (h : ℕ) (t : Transaction) (b : Backend)
    → find h b.transactions ≡ some t
    → IsConsistent b
    → IsConsistent (record (leave t b) { transactions = remove h b.transactions })
unfolding leave end_writer set_store store_at weight writers
leave-drop-IsConsistent h t b e i = elim (Bool-cases (t.write && not t.finished)) [
  | inl c ↦
      let s = record (store_at t.store b) { writer_active = false } in
      rw (c, leave)
        (drop-IsConsistent b (assign t.store s b.heap) h t e
          (λ j. ground (
            arith,
            find-assign t.store j s b.heap,
            find-le-total (weight j) h b.transactions t e,
            i.single j,
            ==_iff t.store j,
          ))
          i)
  | inr c ↦ rw (c, leave) (drop-IsConsistent b b.heap h t e (λ j. ground arith) i)
]

pub close_transaction-IsConsistent :
    (h : ℕ) (b : Backend) → IsConsistent b → IsConsistent (close_transaction h b).1
unfolding close_transaction
close_transaction-IsConsistent h b i = elim (Option-cases (find h b.transactions)) [
  | inl n ↦ rw (n, close_transaction) i
  | inr (t, n) ↦ rw (n, close_transaction) (leave-drop-IsConsistent h t b n i)
]
