-- ===== src/Per/Memory/Stopping.antt =====
-- per/backends/memory.cpp: what `Stop` leaves as it is.
use openvehicleframework.Base.{[], ◌∷◌, Table, arith, ◌≡◌, refl}
use openvehicleframework.Per.Types.{}
use openvehicleframework.Per.Memory.{
  Backend, Transaction, BlobOperation, MigrationOperation, set_store, end_writer,
}
use openvehicleframework.Per.Memory.Lifecycle.{
  stop, stop_transactions, stop_blobs, stop_migrations, end_migration,
}
use openvehicleframework.Per.Memory.Transactions.{}
use openvehicleframework.Per.Memory.Blobs.{}
use openvehicleframework.Per.Memory.Migration.{}

stop_transactions-same :
    (ts : Table Transaction) (b : Backend)
    → ((stop_transactions ts b).stores ≡ b.stores)
      × ((stop_transactions ts b).max_stores ≡ b.max_stores)
      × ((stop_transactions ts b).max_transactions ≡ b.max_transactions)
      × ((stop_transactions ts b).next_handle ≡ b.next_handle)
unfolding stop_transactions end_writer set_store
stop_transactions-same [] b = (refl, refl, refl, refl)
stop_transactions-same ((h, t) ∷ ts) b =
    ground (arith, stop_transactions-same ts b, stop_transactions-same ts (end_writer t.store b))

stop_blobs-same :
    (os : Table BlobOperation) (b : Backend)
    → ((stop_blobs os b).stores ≡ b.stores)
      × ((stop_blobs os b).max_stores ≡ b.max_stores)
      × ((stop_blobs os b).max_transactions ≡ b.max_transactions)
      × ((stop_blobs os b).next_handle ≡ b.next_handle)
unfolding stop_blobs end_writer set_store
stop_blobs-same [] b = (refl, refl, refl, refl)
stop_blobs-same ((h, t) ∷ ts) b =
    ground (arith, stop_blobs-same ts b, stop_blobs-same ts (end_writer t.store b))

stop_migrations-same :
    (os : Table MigrationOperation) (b : Backend)
    → ((stop_migrations os b).stores ≡ b.stores)
      × ((stop_migrations os b).max_stores ≡ b.max_stores)
      × ((stop_migrations os b).max_transactions ≡ b.max_transactions)
      × ((stop_migrations os b).next_handle ≡ b.next_handle)
unfolding stop_migrations end_migration set_store
stop_migrations-same [] b = (refl, refl, refl, refl)
stop_migrations-same ((h, t) ∷ ts) b =
    ground (arith, stop_migrations-same ts (end_migration t.store b))

-- `Stop` changes neither the names of the stores nor the limits nor the next handle.
pub stop-same :
    (b : Backend)
    → ((stop b).stores ≡ b.stores)
      × ((stop b).max_stores ≡ b.max_stores)
      × ((stop b).max_transactions ≡ b.max_transactions)
      × ((stop b).next_handle ≡ b.next_handle)
unfolding stop
stop-same b =
    let b' = stop_transactions b.transactions b in
    let b'' = stop_blobs b.blobs b' in
    let l = stop_transactions-same b.transactions b in
    let m = stop_blobs-same b.blobs b' in
    let o = stop_migrations-same b.migrations b'' in
    (ground arith, ground arith, ground arith, ground arith)
