-- ===== src/Exec.antt =====
-- exec/: the execution manager.
pub mod Types
pub mod Model
pub mod Planner
pub mod Sample
pub mod Scheduler
pub mod Validation
pub mod Engine
pub mod FileJournal
