-- ===== src/Exec/FileJournal.antt =====
-- exec/src/file_journal.cpp: the journal file of the execution engine. The events carry the texts of
-- errors and evidence here, which the engine's model leaves out, since they are written to the file.
pub mod Codec
pub mod Events
pub mod Frames
pub mod Replay
mod Examples
use openvehicleframework.Base.{ℕ, Bool, Option, List, ErrorCode}
use openvehicleframework.Exec.Types.{TransitionPhase, ApplicationState, FailureAction}
use openvehicleframework.Exec.Planner.{TransitionPlan}

-- `Error`, with its text.
pub record TextError : Type 0 where
  pub code : ErrorCode
  pub support_data : ℕ
  pub message : List ℕ

-- `BackendEvidence`, with its text. Exit code and signal are their 32-bit patterns.
pub record Evidence : Type 0 where
  pub state : ApplicationState
  pub exit_code : ℕ
  pub signal : ℕ
  pub native_code : ℕ
  pub message : List ℕ

-- `TransitionFailure`.
pub record Failure : Type 0 where
  pub error : TextError
  pub application : Option ℕ
  pub evidence : Evidence
  pub recovery_action : FailureAction
  pub recovery_attempted : Bool
  pub recovery_succeeded : Bool
  pub recovery_error : Option TextError
  pub recovered_mode : Option ℕ
  pub recovery_stopped_applications : List ℕ
  pub recovery_started_applications : List ℕ

-- `JournalEvent` with its `TransitionSnapshot`; the time is the 64-bit pattern of its nanoseconds.
pub record Event : Type 0 where
  pub generation : ℕ
  pub id : ℕ
  pub domain : ℕ
  pub source_mode : ℕ
  pub target_mode : ℕ
  pub phase : TransitionPhase
  pub updated_at : ℕ
  pub failure : Option Failure
  pub plan : Option TransitionPlan
