-- ===== src/Per/Memory/Writers/Migration.antt =====
-- per/backends/memory.cpp: migrations and rollbacks keep the flags of the stores right.
use openvehicleframework.Base.{
  if-cases, ℕ, ◌<◌, ◌^◌, suc, Bool, true, false, not, ◌||◌, Option, find, arith, ◌≡◌, refl,
  Bool-cases, Option-cases, ◌==◌, inl, inr,
}
use openvehicleframework.Per.Bytes.{Bytes}
use openvehicleframework.Per.Types.{
  is_read_write, size_of_view, MigrationStatus, is_valid_view, Reply, CommitResult, copy,
  Durability, View, Entry, MigrationDescriptor,
}
use openvehicleframework.Per.Memory.{
  Backend, StoreData, incremented, store_at, set_store, StoreHandle,
}
use openvehicleframework.Per.Memory.Lifecycle.{end_migration}
use openvehicleframework.Per.Memory.Blobs.{}
use openvehicleframework.Per.Memory.Recovery.{rollback_store}
use openvehicleframework.Per.Memory.Migration.{
  lacks_checkpoint, is_incomplete_migration, with_target, with_migration, begin_migration,
  migrate_on, migrate_at, apply_migration, apply_at, commit_migration, abort_migration,
  close_migration,
}
use openvehicleframework.Per.Memory.Writers.{IsConsistent, set_store-IsConsistent}
use openvehicleframework.Per.Memory.Writers.Recovery.{aside-IsConsistent, Sets, Sets-IsConsistent}
use openvehicleframework.Per.Memory.Writers.Stores.{next-IsConsistent}

migrate_at-IsConsistent :
    (a : ℕ) (s : StoreData) (r : Bool) (d : MigrationDescriptor) (room : Option ℕ) (b : Backend)
    → suc b.next_handle < 2 ^ 64
    → s.writer_active ≡ (store_at a b).writer_active
    → IsConsistent b
    → IsConsistent (migrate_at a s r d room b).1
unfolding migrate_at set_store
migrate_at-IsConsistent a s r d room b l e i =
    let s' = record s { migration_handle_active = true } in
    if-cases (λ (x : Reply (ℕ × MigrationStatus × Bytes) × Backend). IsConsistent x.1)
      (lacks_checkpoint room s.migration_checkpoint) (λ c. set_store-IsConsistent a s b e i)
      (λ c.
        next-IsConsistent (set_store a s' b) b.store_handles b.cursors _ l i.handles
          (set_store-IsConsistent a s' b e i))

pub migrate_on-cases :
    (P : Backend → Type 0) (h : StoreHandle) (d : MigrationDescriptor) (room : Option ℕ)
    (b : Backend)
    → P b
    → ((s : StoreData) (r : Bool)
        → s.writer_active ≡ (store_at h.store b).writer_active
        → P (migrate_at h.store s r d room b).1)
    → P (migrate_on h d room b).1
unfolding migrate_on
migrate_on-cases P h d room b p q =
    ground (
      arith,
      q (store_at h.store b) true refl,
      q (with_migration d (store_at h.store b)) false refl,
    )

pub begin_migration-IsConsistent :
    (h : ℕ) (d : MigrationDescriptor) (room : Option ℕ) (b : Backend)
    → suc b.next_handle < 2 ^ 64
    → IsConsistent b
    → IsConsistent (begin_migration h d room b).1
unfolding begin_migration
begin_migration-IsConsistent h d room b l i = elim (Bool-cases (is_incomplete_migration d)) [
  | inl c ↦ rw (c, begin_migration) i
  | inr c ↦ elim (Option-cases (find h b.store_handles)) [
    | inl e ↦ rw (c, e, begin_migration) i
    | inr (s, e) ↦
        rw (c, e, begin_migration)
          (migrate_on-cases IsConsistent s d room b i
            λ x r f. migrate_at-IsConsistent s.store x r d room b l f i)
  ]
]

pub apply_at-cases :
    (P : Backend → Type 0) (a : ℕ) (x : Bytes) (t : Option Entry) (b : Backend)
    → P b
    → Sets P b
    → P (apply_at a x t b).1
unfolding apply_at
apply_at-cases P a x t b p q = elim (Option-cases (with_target (store_at a b) t)) [
  | inl e ↦ ground arith
  | inr (vs, e) ↦ ground (
    arith,
    q a
        (record (store_at a b) {
          migration_values = vs;
          migration_checkpoint = x;
          migration_processed = incremented (store_at a b).migration_processed;
        })
        refl,
  )
]

pub apply_migration-IsConsistent :
    (h : ℕ) (x : View) (t : Option Entry) (b : Backend)
    → IsConsistent b
    → IsConsistent (apply_migration h x t b).1
unfolding apply_migration
apply_migration-IsConsistent h x t b i = elim (Option-cases (find h b.migrations)) [
  | inl e ↦
      rw (e, apply_migration)
        (if-cases (λ (r : Reply (Unit {0}) × Backend). IsConsistent r.1)
          (not (is_valid_view x) || (size_of_view x == 0)) (λ c. i) (λ c. i))
  | inr (o, e) ↦
      rw (e, apply_migration)
        (if-cases (λ (r : Reply (Unit {0}) × Backend). IsConsistent r.1)
          (not (is_valid_view x) || (size_of_view x == 0)) (λ c. i)
          (λ c. apply_at-cases IsConsistent o.store (copy x) t b i (Sets-IsConsistent b i)))
]

pub commit_migration-IsConsistent :
    (h : ℕ) (b : Backend) → IsConsistent b → IsConsistent (commit_migration h b).1
unfolding commit_migration
commit_migration-IsConsistent h b i = elim (Option-cases (find h b.migrations)) [
  | inl e ↦ rw (e, commit_migration) i
  | inr (o, e) ↦
      let s = store_at o.store b in
      rw (e, commit_migration)
        (if-cases (λ (r : Reply CommitResult × Backend). IsConsistent r.1)
          (not (s.generation == s.migration_source_generation)) (λ c. i)
          (λ c. set_store-IsConsistent o.store _ b refl i))
]

end_migration-IsConsistent :
    (a : ℕ) (b : Backend) → IsConsistent b → IsConsistent (end_migration a b)
unfolding end_migration
end_migration-IsConsistent a b i = set_store-IsConsistent a _ b refl i

pub abort_migration-IsConsistent :
    (h : ℕ) (b : Backend) → IsConsistent b → IsConsistent (abort_migration h b).1
unfolding abort_migration
abort_migration-IsConsistent h b i = elim (Option-cases (find h b.migrations)) [
  | inl e ↦ rw (e, abort_migration) i
  | inr (o, e) ↦ rw (e, abort_migration) (end_migration-IsConsistent o.store b i)
]

pub close_migration-IsConsistent :
    (h : ℕ) (b : Backend) → IsConsistent b → IsConsistent (close_migration h b).1
unfolding close_migration
close_migration-IsConsistent h b i = elim (Option-cases (find h b.migrations)) [
  | inl e ↦ rw (e, close_migration) i
  | inr (o, e) ↦
      rw (e, close_migration)
        (aside-IsConsistent (end_migration o.store b) (end_migration o.store b).cursors _
          (end_migration-IsConsistent o.store b i))
]

pub rollback_store-IsConsistent :
    (h : ℕ) (d : Durability) (b : Backend) → IsConsistent b → IsConsistent (rollback_store h d b).1
unfolding rollback_store
rollback_store-IsConsistent h d b i = elim (Option-cases (find h b.store_handles)) [
  | inl e ↦ rw (e, rollback_store) i
  | inr (s, e) ↦
      let x = store_at s.store b in
      rw (e, rollback_store)
        (if-cases (λ (r : Reply CommitResult × Backend). IsConsistent r.1)
          (not (is_read_write s.access)) (λ c. i)
          (λ c.
            if-cases (λ (r : Reply CommitResult × Backend). IsConsistent r.1)
              (not x.rollback_available) (λ c. i) (λ c. set_store-IsConsistent s.store _ b refl i)))
]
