-- ===== src/Lib.antt =====
-- Open Vehicle Framework: the execution manager under exec/, and the memory backend of the
-- persistence service under per/.
--
-- The execution manager: a model file describes execution units
-- (processes and services) with their dependencies, and domains with modes that select units. The
-- engine brings a domain from one mode to another: it plans which units to stop and to start, takes
-- a lease on what the transition touches, drives a process backend, keeps a journal of each phase,
-- recovers from failures, and rebuilds its state from the journal after a restart.
--
-- The memory backend keeps stores of values and blobs under byte keys. A client opens a store under a
-- handle and works on it by read and write transactions, by replacements of blobs, and by cursors; a
-- store has a generation that each commit raises. A store can be reset, migrated to another schema
-- entry by entry, and rolled back to what it was before its last migration.
--
-- Parts and files:
--   Base              shared names, lists as sets, tables as maps, sorting, results and errors
--                     (core/include/ovf/core/result.hpp, exec/include/ovf/exec/error.hpp)
--   Exec/Types        exec/include/ovf/exec/types.hpp and model.hpp
--   Exec/Model        exec/src/model.cpp: BuildIndex, FindUnit, FindDomain, FindMode
--   Exec/Validation   exec/src/model.cpp: InspectModel and ValidateModel; Validation/Names has
--                     IsValidName and InspectIdentity, Validation/Cycles InspectDependencyCycles
--   Exec/Planner      exec/src/planner.cpp: TransitionPlanner; Planner/Walk has Order
--   Exec/Scheduler    exec/src/scheduler.cpp: TransitionScheduler and its State
--   Exec/Engine       exec/src/engine.cpp: ExecutionEngine. Engine/Actions has Record, Fail,
--                     IsCancelled and AcceptModeFrom, Engine/Recovery has Recover and
--                     ApplyRecoveryPlan, Engine/Execution has Execute and RequestMode, Engine/Replay
--                     has Create, Engine/MemoryJournal has MemoryTransitionJournal
--   Exec/FileJournal  exec/src/file_journal.cpp. FileJournal/Codec has Encoder and Decoder,
--                     FileJournal/Events Encode and Decode, FileJournal/Frames Crc32, Append and Replay
--   Per/Bytes         byte strings and their order, and std::map from byte strings
--   Per/Types         per/include/ovf/per/backend_abi.h
--   Per/Memory        per/backends/memory.cpp: the state of the backend. Memory/Lifecycle has Create,
--                     Start, Stop, OpenStore and CloseStore, Memory/Transactions those from Begin to
--                     CloseTransaction, Memory/Blobs and Memory/Cursors those of blobs and cursors,
--                     Memory/Recovery has ResetStore, StoreStatus and RollbackStore, Memory/Migration
--                     the migrations, and Memory/Calls the table of functions, so that a run of the
--                     backend is a list of calls
-- A file below one of these proves what its name says. The files called Examples run the code on
-- small inputs, those of Exec on the model of Exec/Sample.
--
-- How the code is modelled:
--   * An identifier is its 64-bit value as a number, with zero as the invalid one. The count of
--     transitions wraps around at 2^64. A duration is a signed count of milliseconds, and a point of
--     the clock a count of nanoseconds.
--   * An unordered set is a list without repetition and an unordered map a table of pairs, both in
--     the order of their insertion, which stands for the order of iteration; std::set is an
--     ascending list. std::sort is an insertion sort.
--   * An operation that can fail returns a Result. An error keeps its code and its support data; a
--     model issue keeps its code, its path and the identifiers that its message lists.
--   * The engine is a record that the methods change. What it calls is the record Environment: the
--     clock, the process backend, the journal, and what other threads do meanwhile (they ask to
--     cancel a transition, or move leases). Each call may change the world in any way and answer
--     anything; a theorem that needs more of it has that as a hypothesis.
--   * One call of the scheduler is one step, since it holds the mutex. A call that waits tests its
--     condition between the steps that other threads make, which are a list. In the engine one
--     worker executes transitions, as in the coordinator.
--   * The walks over dependencies, Order and InspectDependencyCycles, run on fuel: one more than the
--     number of the units. Each call that does work marks one more unit of that set, so the fuel is
--     enough, which the theorems about the order and about accepted models carry with them. Attempts
--     to start a unit recur on the number that is left.
--   * A unit that is not defined, which the planner and the engine would read through a null
--     pointer, has no dependencies, no resources and zero timeouts, and is not started.
--   * The journal file is its bytes. What the operating system makes of a write, of cutting the file
--     and of a synchronisation is an argument. Replay recurs on fuel, the length of the file, which is
--     enough since each frame has bytes; the theorem on Replay carries that with it.
--   * The memory backend is a record, and a call gives a reply and the backend after it; the mutex
--     makes each call one step. A shared pointer to a store is an address in a heap. A std::map is a
--     list of entries in the order of the keys. Out parameters are results, so they are not null, and
--     a buffer is given by its room. Counters wrap around at 2^64, and the theorems about all runs
--     are for fewer calls than that, so that no handle comes twice; sizes are not bounded. A container
--     that is moved from is left empty.
--
-- Not modelled: the texts of messages, the branches for failed allocations and null arguments,
-- Snapshot and ToString, and the parts of the repository outside these files: the coordinator with
-- its queue and its protocol, the process backends and the daemon, the runtime of
-- the persistence service and its other backend, and the libraries for communication, cryptography
-- and logging. LastError, whose texts are not kept, is left out of the memory backend, and reads that
-- fail and the opening of the file out of the journal file.
pub mod Base
pub mod Exec
pub mod Per
