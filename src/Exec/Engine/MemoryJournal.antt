-- ===== src/Exec/Engine/MemoryJournal.antt =====
-- exec/src/engine.cpp: `MemoryTransitionJournal`, which keeps its events in a list.
use openvehicleframework.Base.{List, [], ◌∷◌, ◌++◌, Result, ok}
use openvehicleframework.Exec.Engine.{JournalEvent}

-- `Append`.
abbrev pub append : JournalEvent → List JournalEvent → Result (Unit {0}) × List JournalEvent
append e events = (ok tt, events ++ e ∷ [])

-- `Replay`.
abbrev pub replay : List JournalEvent → Result (List JournalEvent) × List JournalEvent
replay events = (ok events, events)
