-- ===== src/Per/Memory/Stuck/Rollback.antt =====
-- per/backends/memory.cpp: a rollback in the middle of a migration.
use openvehicleframework.Base.{
  ap, ==_refl, ℕ, ◌+◌, ◌≤◌, ◌<◌, ◌^◌, subst, is_empty, length, true, false, some, List, [], ◌∷◌,
  find, arith, ◌≡◌, refl, sym, ◌==◌,
}
use openvehicleframework.Per.Bytes.{Values}
use openvehicleframework.Per.Types.{done, is_read_write, Durability}
use openvehicleframework.Per.Memory.{incremented, Backend, store_at, set_store, StoreHandle}
use openvehicleframework.Per.Memory.Lifecycle.{create}
use openvehicleframework.Per.Memory.Blobs.{}
use openvehicleframework.Per.Memory.Recovery.{as_rolled_back, rollback_store}
use openvehicleframework.Per.Memory.Calls.{Call, call, run}
use openvehicleframework.Per.Memory.Migration.{}
use openvehicleframework.Per.Memory.Writers.{IsConsistent, store_at-set_store}
use openvehicleframework.Per.Memory.Stuck.Transactions.{Stuck}
use openvehicleframework.Per.Memory.Stuck.{IsStuck}
use openvehicleframework.Per.Memory.Writers.Blobs.{}
use openvehicleframework.Per.Memory.Writers.Calls.{
  run-IsConsistent, new_backend-IsConsistent, new_backend_next, create-new_backend,
}
use openvehicleframework.Per.Memory.Writers.Handles.{call-IsNext}
use openvehicleframework.Per.Memory.Stuck.Calls.{run-IsStuck}
use openvehicleframework.Per.Memory.Writers.Migration.{rollback_store-IsConsistent}

pub incremented-neq : (n : ℕ) → (incremented n == n) ≡ false
unfolding incremented
incremented-neq n = ground arith

run-next_handle :
    (cs : List Call) (b : Backend)
    → b.next_handle + length cs < 2 ^ 64
    → (run cs b).next_handle ≤ b.next_handle + length cs
unfolding run
run-next_handle [] b l = omega arith
run-next_handle (c ∷ cs) b l = omega (
  arith,
  call-IsNext c b (omega arith),
  run-next_handle cs (call c b) (omega (arith, call-IsNext c b (omega arith))),
)

rollback_step :
    (h : ℕ) (d : Durability) (b : Backend)
    → ((rollback_store h d b).1.next_handle ≡ b.next_handle)
      × (length b.stores ≡ length (rollback_store h d b).1.stores)
unfolding rollback_store set_store
rollback_step h d b = ground arith

-- `RollbackStore` in the middle of a migration.
rollback_store-Stuck :
    (h : ℕ) (d : Durability) (b : Backend) (s : StoreHandle)
    → find h b.store_handles ≡ some s
    → is_read_write s.access ≡ true
    → (store_at s.store b).rollback_available ≡ true
    → is_empty (store_at s.store b).migration_id ≡ false
    → (store_at s.store b).migration_source_generation ≡ (store_at s.store b).generation
    → (store_at s.store b).writer_active ≡ false
    → Stuck (store_at s.store (rollback_store h d b).1) s.store (rollback_store h d b).1
unfolding rollback_store
rollback_store-Stuck h d b s f r v p q w =
    let b' = set_store s.store (as_rolled_back (store_at s.store b)) b in
    let e : (rollback_store h d b).1 ≡ b' = rw (f, rollback_store) (rw (r, v) refl) in
    let x = as_rolled_back (store_at s.store b) in
    let k = store_at-set_store s.store s.store x b in
    let same : store_at s.store b' ≡ x = ground (arith, k, ==_refl s.store) in
    subst (λ y. IsStuck (store_at s.store y) (store_at s.store y)) (sym e)
      (subst (λ y. IsStuck y y) (sym same)
        (record {
          values = refl;
          blobs = refl;
          generation = refl;
          pending = p;
          outdated = ground (arith, q, incremented-neq (store_at s.store b).generation);
          no_rollback = refl;
          no_writer = w;
        }))

-- What a store holds, and its generation.
abbrev pub content : ℕ → Backend → Values × Values × ℕ
content a b = ((store_at a b).values, (store_at a b).blobs, (store_at a b).generation)

-- `RollbackStore` in the middle of a migration that could be committed, while nobody writes, leaves
-- a store that never changes again: whatever is called afterwards on the backend, its values, its
-- blobs and its generation stay as the rollback left them. The rollback raises the generation, so
-- the migration can no longer be committed, and it does not end the migration, which refuses every
-- write and reset as busy.
pub run-rollback_store :
    (m n : ℕ) (b : Backend) (before after : List Call) (h : ℕ) (d : Durability) (s : StoreHandle)
    → create m n ≡ done b
    → length before + length after + 2 < 2 ^ 64
    → find h (run before b).store_handles ≡ some s
    → is_read_write s.access ≡ true
    → (store_at s.store (run before b)).rollback_available ≡ true
    → is_empty (store_at s.store (run before b)).migration_id ≡ false
    → (store_at s.store (run before b)).migration_source_generation
      ≡ (store_at s.store (run before b)).generation
    → (store_at s.store (run before b)).writer_active ≡ false
    → content s.store (run after (rollback_store h d (run before b)).1)
      ≡ content s.store (rollback_store h d (run before b)).1
run-rollback_store m n b before after h d s e l f r v p q w =
    let start = subst IsConsistent (create-new_backend m n b e) (new_backend-IsConsistent m n) in
    let next = ap (λ (x : Backend). x.next_handle) (create-new_backend m n b e) in
    let c = run-IsConsistent before b (omega (arith, next, new_backend_next m n)) start in
    let g = run-next_handle before b (omega (arith, next, new_backend_next m n)) in
    let b' = (rollback_store h d (run before b)).1 in
    let k = rollback_step h d (run before b) in
    let i =
      run-IsStuck (store_at s.store b') s.store after b'
        (omega (arith, k.0, g, next, new_backend_next m n))
        (rollback_store-IsConsistent h d (run before b) c) (omega (arith, k.1, c.handles h s f))
        (rollback_store-Stuck h d (run before b) s f r v p q w) in
    λ t. (i.values t, i.blobs t, i.generation t)
