-- ===== src/Per.antt =====
-- per/: the persistence library.
pub mod Bytes
pub mod Types
pub mod Memory
