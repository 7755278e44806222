-- ===== src/Windows.antt =====
-- The reverse windows of backend/internal/notty/reverse_window.go, with the root document of
-- root_semantics.go that they change. A request is modelled as its normalised form. The store is
-- what the transaction reads: an error of the database itself leaves it as it was and is not
-- modelled. Times are microseconds.
pub mod Root
pub mod Stores
pub mod Open
pub mod Consume
pub mod Table
pub mod Entries
pub mod Restored
pub mod Deleted
pub mod Spent
pub mod Allowed
mod Tests
use Prim.Native.String.{String}
use codesk.Common.{
  ℕ, ◌+◌, Bool, true, false, not, ◌&&◌, ◌||◌, Option, none, some, List, [], ◌∷◌, eqb, ltb,
  if◌then◌else◌, is_empty, is_none, String_key, ◌==◌,
}
use codesk.Common.Dict.{Dict, lookup, insert, modify, has}
use codesk.Wire.Reader.{Bytes, Result, ok, err, panic}
use codesk.Wire.StateVector.{
  StateVector, decode_state_vector_v1, reverse_window_state_vector_dominates,
}
use codesk.Windows.Root.{RootDocument, FileEntry, root_file_entry, set_deleted, is_claimed_by_other}
use codesk.Windows.Stores.{
  Origin, OpenRequest, ConsumeRequest, Restore, Row, RootHead, Store, Call, Failure, OpenResult,
  OpenOutcome, ConsumeResult, ConsumeOutcome, root_not_found, non_current_root,
  no_accepted_generation, document_not_found, root_mismatch, mutation_not_applied,
  identity_mismatch, expired, frontier_not_reached, path_claimed, undecodable_entry, accepted_new,
  exact_replay, operation_mismatch, generation_conflict, open_failed, accepted, consume_replay,
  consume_failed, reverse_window_duration,
}

abbrev pub same_origin : Origin → Origin → Bool
same_origin a b = (a.daemon_id == b.daemon_id) && (a.scope == b.scope)

unfoldable pub open_result_from_row : Row → OpenResult
open_result_from_row row = record {
  window_generation = row.window_generation;
  opened_at = row.opened_at;
  reverse_until = row.reverse_until;
  tombstone_update_id = row.tombstone_update_id;
  root_document_id = row.root_document_id;
  root_update = [];
}

-- `recordReverseWindowRootHeadLocked`: the cache never goes back to an older update.
abbrev record_root_head : String → ℕ → Dict String ℕ → Dict String ℕ
record_root_head document_id update_id cache =
    modify document_id (λ old. if ltb update_id old then old else update_id) cache

-- The root document as the inserted update leaves it, with its head moved on.
abbrev persist_root_update : Call → RootHead → RootDocument → Store → Store
persist_root_update call head document s = record s {
  root = some (record head { update_id = call.update_id; document = document });
  cached_update_ids = record_root_head head.document_id call.update_id s.cached_update_ids;
}

-- The row that an accepted request writes over whatever its document had.
abbrev pub row_of : Call → OpenRequest → RootHead → ℕ → Row
row_of call req head generation = record {
  document_id = req.content_document_id;
  root_document_id = head.document_id;
  entry_id = req.entry_id;
  desired_path = req.desired_path;
  origin = req.origin;
  window_generation = generation;
  tombstone_operation = req.operation_id;
  fingerprint = req.fingerprint;
  tombstone_update_id = call.update_id;
  opened_at = call.now;
  reverse_until = call.now + reverse_window_duration;
  restored = none;
}

-- From the check of the expected generation on.
unfoldable pub open_at : Call → OpenRequest → RootHead → ℕ → Store → Store × OpenOutcome
unfolding open_result_from_row
open_at call req head current_generation s =
    if not (eqb req.expected_window_generation current_generation)
    then (s, generation_conflict current_generation)
    else if not (has s.documents req.content_document_id)
    then (s, open_failed document_not_found)
    else elim (root_file_entry head.document req.entry_id req.content_document_id
        req.desired_path) [
          | none ↦ (s, open_failed root_mismatch)
          | some entry ↦
              if entry.deleted
              then (s, open_failed root_mismatch)
              else if is_empty call.update
              then (s, open_failed mutation_not_applied)
              else let row = row_of call req head (current_generation + 1) in
                let s' =
                  persist_root_update call head (set_deleted req.entry_id true head.document) s in
                (
                  record s' { windows = insert req.content_document_id row s'.windows },
                  accepted_new (record (open_result_from_row row) { root_update = call.update }),
                )
        ]

-- With the row of the document, if it has one.
unfoldable pub open_over : Call → OpenRequest → RootHead → Option Row → Store → Store × OpenOutcome
unfolding open_at open_result_from_row
open_over call req head none s = open_at call req head 0 s
open_over call req head (some current) s =
    if not (current.root_document_id == head.document_id)
    then (s, open_failed non_current_root)
    else if same_origin current.origin req.origin
        && (current.tombstone_operation == req.operation_id)
    then if not (current.fingerprint == req.fingerprint)
      then (s, operation_mismatch)
      else if eqb current.window_generation 0
      then (s, open_failed no_accepted_generation)
      else (s, exact_replay (open_result_from_row current))
    else if eqb current.window_generation 0
    then (s, open_failed no_accepted_generation)
    else open_at call req head current.window_generation s

-- With the root document of the workspace, if it has one.
unfoldable pub open_under : Call → OpenRequest → Option RootHead → Store → Store × OpenOutcome
unfolding open_over
open_under call req none s = (s, open_failed root_not_found)
open_under call req (some head) s =
    open_over call req head (lookup req.content_document_id s.windows) s

unfoldable pub open_or_replace_reverse_window : Call → OpenRequest → Store → Store × OpenOutcome
unfolding open_under
open_or_replace_reverse_window call req s = open_under call req s.root s

-- `loadReverseWindowByIdentityForUpdate`.
unfoldable pub find_window : Origin → String → Dict String Row → Option Row
find_window origin operation [] = none
find_window origin operation ((document_id, row) ∷ rows) =
    let rest = find_window origin operation rows in
    if same_origin row.origin origin && (row.tombstone_operation == operation)
    then some row
    else rest

abbrev pub identity_matches : Row → ConsumeRequest → Bool
identity_matches row req =
    same_origin row.origin req.origin
    && ((row.tombstone_operation == req.tombstone_operation_id)
        && eqb row.window_generation req.window_generation)

unfoldable pub replayed : Row → String → Option ConsumeResult
replayed row operation = elim row.restored [
  | none ↦ none
  | some restore ↦
      if restore.operation == operation
      then some (record {
        window_generation = row.window_generation;
        consumed_at = restore.consumed_at;
        restore_update_id = restore.update_id;
        root_document_id = row.root_document_id;
        root_update = [];
      })
      else none
]

-- The state vector of a request, unless it is missing or not one.
unfoldable pub required_vector : Bytes → Option StateVector
required_vector content_state_vector =
    if is_empty content_state_vector
    then none
    else elim (decode_state_vector_v1 content_state_vector) [
      | panic ↦ none
      | err e ↦ none
      | ok required ↦ some required
    ]

abbrev pub consumed_row : Call → ConsumeRequest → Row → Row
consumed_row call req row = record row {
  restored = some (record {
    operation = req.restore_operation_id;
    update_id = call.update_id;
    consumed_at = call.now;
  });
}

-- From the change of the root document on.
unfoldable pub restore_entry :
    Call → ConsumeRequest → RootHead → Row → Store → Store × ConsumeOutcome
restore_entry call req head row s =
    if is_empty call.update
    then (s, consume_failed mutation_not_applied)
    else let s' = persist_root_update call head (set_deleted row.entry_id false head.document) s in
      (
        record s' { windows = modify row.document_id (consumed_row call req) s'.windows },
        accepted (record {
          window_generation = req.window_generation;
          consumed_at = call.now;
          restore_update_id = call.update_id;
          root_document_id = head.document_id;
          root_update = call.update;
        }),
      )

-- The checks of the root document.
unfoldable pub restore_checked :
    Call → ConsumeRequest → RootHead → Row → Store → Store × ConsumeOutcome
unfolding restore_entry
restore_checked call req head row s =
    elim (root_file_entry head.document row.entry_id row.document_id row.desired_path) [
      | none ↦ (s, consume_failed root_mismatch)
      | some entry ↦
          if not entry.deleted
          then (s, consume_failed root_mismatch)
          else elim (is_claimed_by_other head.document row.entry_id row.desired_path) [
            | none ↦ (s, consume_failed undecodable_entry)
            | some claimed ↦
                if claimed
                then (s, consume_failed path_claimed)
                else restore_entry call req head row s
          ]
    ]

-- The window of the request's identity is there and belongs to the current root document.
unfoldable pub consume_window :
    Call → ConsumeRequest → RootHead → Row → Store → Store × ConsumeOutcome
unfolding replayed required_vector restore_checked
consume_window call req head row s = elim (replayed row req.restore_operation_id) [
  | some result ↦
      if identity_matches row req
      then (s, consume_replay result)
      else (s, consume_failed identity_mismatch)
  | none ↦
      if not (is_none row.restored) || not (identity_matches row req)
      then (s, consume_failed identity_mismatch)
      else if not (ltb call.now row.reverse_until)
      then (s, consume_failed expired)
      else elim (required_vector req.content_state_vector) [
        | none ↦ (s, consume_failed frontier_not_reached)
        | some required ↦ elim (lookup row.document_id s.documents) [
          | none ↦ (s, consume_failed identity_mismatch)
          | some current ↦
              if not (reverse_window_state_vector_dominates current required)
              then (s, consume_failed frontier_not_reached)
              else restore_checked call req head row s
        ]
      ]
]

unfoldable pub consume_under :
    Call → ConsumeRequest → Option RootHead → Store → Store × ConsumeOutcome
unfolding consume_window find_window
consume_under call req none s = (s, consume_failed root_not_found)
consume_under call req (some head) s =
    elim (find_window req.origin req.tombstone_operation_id s.windows) [
      | none ↦ (s, consume_failed identity_mismatch)
      | some row ↦
          if not (row.root_document_id == head.document_id)
          then (s, consume_failed identity_mismatch)
          else consume_window call req head row s
    ]

unfoldable pub consume_reverse_window : Call → ConsumeRequest → Store → Store × ConsumeOutcome
unfolding consume_under
consume_reverse_window call req s = consume_under call req s.root s
