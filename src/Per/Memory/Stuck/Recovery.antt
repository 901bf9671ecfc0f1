-- ===== src/Per/Memory/Stuck/Recovery.antt =====
-- per/backends/memory.cpp: resets, migrations and rollbacks leave a stuck store alone.
use openvehicleframework.Base.{
  ltb, ℕ, is_empty, length, if-cases, Bool, true, false, not, ◌||◌, Option, List, find, arith, ◌≡◌,
  refl, Bool-cases, Option-cases, ◌==◌, inl, inr,
}
use openvehicleframework.Per.Bytes.{size_of, Bytes, Values}
use openvehicleframework.Per.Types.{
  is_valid_view, size_of_view, copy, Reply, CommitResult, MigrationStatus, is_read_write,
  Durability, View, Entry, MigrationDescriptor,
}
use openvehicleframework.Per.Memory.{
  StoreData, incremented, Backend, store_at, set_store, StoreHandle,
}
use openvehicleframework.Per.Memory.Lifecycle.{end_migration}
use openvehicleframework.Per.Memory.Blobs.{}
use openvehicleframework.Per.Memory.Recovery.{reset_store, reset_to, rollback_store}
use openvehicleframework.Per.Memory.Migration.{
  with_target, lacks_checkpoint, is_incomplete_migration, with_migration, begin_migration,
  migrate_on, migrate_at, apply_migration, apply_at, commit_migration, abort_migration,
  close_migration,
}
use openvehicleframework.Per.Memory.Stuck.Transactions.{Stuck, count_rejected-IsStuck}
use openvehicleframework.Per.Memory.Stuck.{kept-IsStuck, IsStuck, set_store-IsStuck}
use openvehicleframework.Per.Memory.Writers.Blobs.{}
use openvehicleframework.Per.Memory.Writers.Recovery.{reset_on-cases}

module _ (x : StoreData) (a : ℕ) where
  reset_to-IsStuck :
      (j : ℕ) (vs : Values) (d : Durability) (b : Backend)
      → is_empty (store_at j b).migration_id ≡ true
      → Stuck x a b
      → Stuck x a (reset_to j vs d b).1
  unfolding reset_to
  reset_to-IsStuck j vs d b p i =
      if-cases (λ (r : Reply CommitResult × Backend). Stuck x a r.1)
        (ltb (store_at j b).max_entries (length vs) || ltb (store_at j b).capacity (size_of vs))
        (λ c. count_rejected-IsStuck x a j b i)
        (λ c. set_store-IsStuck x a j _ b (λ k. absurd (ground (arith, k.pending, p))) i)

  pub reset_store-IsStuck :
      (h : ℕ) (es : List Entry) (d : Durability) (b : Backend)
      → Stuck x a b
      → Stuck x a (reset_store h es d b).1
  unfolding reset_store
  reset_store-IsStuck h es d b i = elim (Option-cases (find h b.store_handles)) [
    | inl e ↦ rw (e, reset_store) i
    | inr (s, e) ↦
        rw (e, reset_store)
          (reset_on-cases (Stuck x a) s es d b i (count_rejected-IsStuck x a s.store b i)
            λ vs p. reset_to-IsStuck s.store vs d b p i)
  ]

  migrate_at-IsStuck :
      (j : ℕ) (s : StoreData) (r : Bool) (d : MigrationDescriptor) (room : Option ℕ) (b : Backend)
      → (IsStuck x (store_at j b) → IsStuck x s)
      → Stuck x a b
      → Stuck x a (migrate_at j s r d room b).1
  unfolding migrate_at store_at set_store
  migrate_at-IsStuck j s r d room b f i =
      if-cases (λ (y : Reply (ℕ × MigrationStatus × Bytes) × Backend). Stuck x a y.1)
        (lacks_checkpoint room s.migration_checkpoint) (λ c. set_store-IsStuck x a j s b f i)
        (λ c.
          set_store-IsStuck x a j (record s { migration_handle_active = true }) b
            (λ k. kept-IsStuck x s _ refl refl refl refl refl refl refl (f k)) i)

  migrate_on-cases :
      (P : Backend → Type 0) (h : StoreHandle) (d : MigrationDescriptor) (room : Option ℕ)
      (b : Backend)
      → P b
      → P (migrate_at h.store (store_at h.store b) true d room b).1
      → (is_empty (store_at h.store b).migration_id ≡ true
          → P (migrate_at h.store (with_migration d (store_at h.store b)) false d room b).1)
      → P (migrate_on h d room b).1
  unfolding migrate_on
  migrate_on-cases P h d room b p q r = ground arith

  pub begin_migration-IsStuck :
      (h : ℕ) (d : MigrationDescriptor) (room : Option ℕ) (b : Backend)
      → Stuck x a b
      → Stuck x a (begin_migration h d room b).1
  unfolding begin_migration
  begin_migration-IsStuck h d room b i = elim (Bool-cases (is_incomplete_migration d)) [
    | inl c ↦ rw (c, begin_migration) i
    | inr c ↦ elim (Option-cases (find h b.store_handles)) [
      | inl e ↦ rw (c, e, begin_migration) i
      | inr (s, e) ↦
          rw (c, e, begin_migration)
            (migrate_on-cases (Stuck x a) s d room b i
              (migrate_at-IsStuck s.store _ true d room b (λ k. k) i)
              λ n.
                migrate_at-IsStuck s.store _ false d room b
                  (λ k. absurd (ground (arith, k.pending, n))) i)
    ]
  ]

  apply_at-cases :
      (P : Backend → Type 0) (j : ℕ) (y : Bytes) (t : Option Entry) (b : Backend)
      → P b
      → ((vs : Values)
          → P (
              set_store j
                (record (store_at j b) {
                  migration_values = vs;
                  migration_checkpoint = y;
                  migration_processed = incremented (store_at j b).migration_processed;
                })
                b))
      → P (apply_at j y t b).1
  unfolding apply_at
  apply_at-cases P j y t b p q = elim (Option-cases (with_target (store_at j b) t)) [
    | inl e ↦ ground arith
    | inr (vs, e) ↦ ground (arith, q vs)
  ]

  pub apply_migration-IsStuck :
      (h : ℕ) (y : View) (t : Option Entry) (b : Backend)
      → Stuck x a b
      → Stuck x a (apply_migration h y t b).1
  unfolding apply_migration
  apply_migration-IsStuck h y t b i =
      if-cases (λ (r : Reply (Unit {0}) × Backend). Stuck x a r.1)
        (not (is_valid_view y) || (size_of_view y == 0)) (λ c. i)
        λ c. elim (Option-cases (find h b.migrations)) [
          | inl e ↦ rw (e, apply_migration) i
          | inr (o, e) ↦
              rw (e, apply_migration)
                (apply_at-cases (Stuck x a) o.store (copy y) t b i λ vs.
                  set_store-IsStuck x a o.store _ b
                    (kept-IsStuck x (store_at o.store b) _ refl refl refl refl refl refl refl) i)
        ]

  pub commit_migration-IsStuck :
      (h : ℕ) (b : Backend) → Stuck x a b → Stuck x a (commit_migration h b).1
  unfolding commit_migration
  commit_migration-IsStuck h b i = elim (Option-cases (find h b.migrations)) [
    | inl e ↦ rw (e, commit_migration) i
    | inr (o, e) ↦
        let s = store_at o.store b in
        rw (e, commit_migration)
          (if-cases (λ (r : Reply CommitResult × Backend). Stuck x a r.1)
            (not (s.generation == s.migration_source_generation)) (λ c. i)
            (λ c.
              set_store-IsStuck x a o.store _ b (λ k. absurd (ground (arith, c, k.outdated))) i))
  ]

  pub end_migration-IsStuck : (j : ℕ) (b : Backend) → Stuck x a b → Stuck x a (end_migration j b)
  unfolding end_migration
  end_migration-IsStuck j b i =
      set_store-IsStuck x a j _ b
        (kept-IsStuck x (store_at j b) _ refl refl refl refl refl refl refl) i

  pub abort_migration-IsStuck :
      (h : ℕ) (b : Backend) → Stuck x a b → Stuck x a (abort_migration h b).1
  unfolding abort_migration
  abort_migration-IsStuck h b i = elim (Option-cases (find h b.migrations)) [
    | inl e ↦ rw (e, abort_migration) i
    | inr (o, e) ↦ rw (e, abort_migration) (end_migration-IsStuck o.store b i)
  ]

  pub close_migration-IsStuck :
      (h : ℕ) (b : Backend) → Stuck x a b → Stuck x a (close_migration h b).1
  unfolding close_migration store_at
  close_migration-IsStuck h b i = elim (Option-cases (find h b.migrations)) [
    | inl e ↦ rw (e, close_migration) i
    | inr (o, e) ↦ rw (e, close_migration) (end_migration-IsStuck o.store b i)
  ]

  pub rollback_store-IsStuck :
      (h : ℕ) (d : Durability) (b : Backend) → Stuck x a b → Stuck x a (rollback_store h d b).1
  unfolding rollback_store
  rollback_store-IsStuck h d b i = elim (Option-cases (find h b.store_handles)) [
    | inl e ↦ rw (e, rollback_store) i
    | inr (s, e) ↦
        let y = store_at s.store b in
        rw (e, rollback_store)
          (if-cases (λ (r : Reply CommitResult × Backend). Stuck x a r.1)
            (not (is_read_write s.access)) (λ c. i)
            (λ c.
              if-cases (λ (r : Reply CommitResult × Backend). Stuck x a r.1)
                (not y.rollback_available) (λ c. i)
                (λ n.
                  set_store-IsStuck x a s.store _ b (λ k. absurd (ground (arith, n, k.no_rollback)))
                    i)))
  ]
