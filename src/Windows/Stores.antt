-- ===== src/Windows/Stores.antt =====
-- What the reverse windows of backend/internal/notty/reverse_window.go keep, are asked and answer.
use Prim.Native.String.{String}
use codesk.Common.{ℕ, Option, String_key}
use codesk.Common.Dict.{Dict}
use codesk.Wire.Reader.{Bytes}
use codesk.Wire.StateVector.{StateVector}
use codesk.Windows.Root.{RootDocument}

pub record Origin : Type 0 where
  pub daemon_id : String
  pub scope : String

pub record OpenRequest : Type 0 where
  pub origin : Origin
  pub operation_id : String
  pub expected_window_generation : ℕ
  pub entry_id : String
  pub content_document_id : String
  pub desired_path : String
  pub fingerprint : String

pub record ConsumeRequest : Type 0 where
  pub origin : Origin
  pub tombstone_operation_id : String
  pub restore_operation_id : String
  pub window_generation : ℕ
  pub content_state_vector : Bytes

-- The columns that are NULL until a window is consumed.
pub record Restore : Type 0 where
  pub operation : String
  pub update_id : ℕ
  pub consumed_at : ℕ

pub record Row : Type 0 where
  pub document_id : String
  pub root_document_id : String
  pub entry_id : String
  pub desired_path : String
  pub origin : Origin
  pub window_generation : ℕ
  pub tombstone_operation : String
  pub fingerprint : String
  pub tombstone_update_id : ℕ
  pub opened_at : ℕ
  pub reverse_until : ℕ
  pub restored : Option Restore

-- The head of the root document, with the document that its updates give.
pub record RootHead : Type 0 where
  pub document_id : String
  pub update_id : ℕ
  pub document : RootDocument

-- `windows` is the table by its primary key, `documents` the content documents with the state
-- vector of their updates, `cached_update_ids` the heads that the server holds in memory.
pub record Store : Type 0 where
  pub root : Option RootHead
  pub windows : Dict String Row
  pub documents : Dict String StateVector
  pub cached_update_ids : Dict String ℕ

-- What a call gets from outside: the time, the id of the row that an update is inserted as, and the
-- bytes of the update that the CRDT library makes.
pub record Call : Type 0 where
  pub now : ℕ
  pub update_id : ℕ
  pub update : Bytes

pub data Failure : Type 0 where
  root_not_found non_current_root no_accepted_generation document_not_found : Failure
  root_mismatch mutation_not_applied : Failure
  identity_mismatch expired frontier_not_reached path_claimed undecodable_entry : Failure

abbrev pub reverse_window_duration : ℕ
reverse_window_duration = 300_000_000

pub record OpenResult : Type 0 where
  pub window_generation : ℕ
  pub opened_at : ℕ
  pub reverse_until : ℕ
  pub tombstone_update_id : ℕ
  pub root_document_id : String
  pub root_update : Bytes

pub data OpenOutcome : Type 0 where
  accepted_new exact_replay : OpenResult → OpenOutcome
  operation_mismatch : OpenOutcome
  generation_conflict : ℕ → OpenOutcome
  open_failed : Failure → OpenOutcome

pub record ConsumeResult : Type 0 where
  pub window_generation : ℕ
  pub consumed_at : ℕ
  pub restore_update_id : ℕ
  pub root_document_id : String
  pub root_update : Bytes

pub data ConsumeOutcome : Type 0 where
  accepted consume_replay : ConsumeResult → ConsumeOutcome
  consume_failed : Failure → ConsumeOutcome
