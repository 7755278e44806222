-- ===== src/Windows/Tests.antt =====
-- A document that is deleted and restored.
use codesk.Common.{
  String_key, ℕ_key, ℕ, ◌≤◌, inl, arith, ◌<◌, ◌≡◌, ◌≢◌, refl, false, true, some, List, [], ◌∷◌,
}
use codesk.Common.Dict.{lookup, insert, modify}
use codesk.Wire.StateVector.{
  StateVector, decode_state_vector_v1, clock, reverse_window_state_vector_dominates,
}
use codesk.Wire.StateVector
use codesk.Windows.Root.{FileEntry, root_file_entry, set_deleted, is_claimed_by_other}
use codesk.Windows.Stores.{
  Origin, OpenRequest, ConsumeRequest, RootHead, Store, Call, OpenResult, accepted_new,
  generation_conflict, ConsumeResult, accepted,
}
use codesk.Windows.{row_of, find_window, open_or_replace_reverse_window, consume_reverse_window}
use codesk.Windows.Open.{opened, is_accepted_new}
use codesk.Windows.Deleted.{IsDeleted, open-IsDeleted}
use codesk.Windows.Consume.{is_accepted, restored_store}
use codesk.Windows.Entries.{Holds, IsFree}
use codesk.Windows.Allowed.{IsAllowed, consume-IsAllowed}
use codesk.Wire.Reader.{ok}
use codesk.Windows.Restored.{IsRestored, consume-IsRestored}
use codesk.Windows.Table.{IsTable}
use codesk.Windows.Spent.{WindowCall, opens, run_calls, consume-once}

abbrev entry : FileEntry
entry = record { content_document_id = "doc"; desired_path = "notes.md"; deleted = false }

abbrev head : RootHead
head = record { document_id = "root"; update_id = 6; document = ("e1", some entry) ∷ [] }

abbrev store : Store
store = record {
  root = some head;
  windows = [];
  documents = ("doc", (3, 10) ∷ []) ∷ [];
  cached_update_ids = ("root", 6) ∷ [];
}

abbrev alice : Origin
alice = record { daemon_id = "d1"; scope = "primary" }

abbrev deletion : OpenRequest
deletion = record {
  origin = alice;
  operation_id = "op1";
  expected_window_generation = 0;
  entry_id = "e1";
  content_document_id = "doc";
  desired_path = "notes.md";
  fingerprint = "f1";
}

abbrev at_noon : Call
at_noon = record { now = 1000; update_id = 7; update = 1 ∷ [] }

abbrev later : Call
later = record { now = 2000; update_id = 8; update = 2 ∷ [] }

abbrev deleted_store : Store
deleted_store = opened at_noon deletion head 0 store

abbrev deleted_result : OpenResult
deleted_result = record {
  window_generation = 1;
  opened_at = 1000;
  reverse_until = 300_001_000;
  tombstone_update_id = 7;
  root_document_id = "root";
  root_update = 1 ∷ [];
}

deletion_accepted :
    open_or_replace_reverse_window at_noon deletion store
    ≡ (deleted_store, accepted_new deleted_result)
unfolding open_or_replace_reverse_window lookup root_file_entry
deletion_accepted = refl

open-IsDeleted_example : IsDeleted at_noon deletion store deleted_store deleted_result
open-IsDeleted_example =
    open-IsDeleted at_noon deletion store deleted_store deleted_result deletion_accepted

abbrev stale : OpenRequest
stale = record deletion { operation_id = "op2"; expected_window_generation = 3 }

stale_conflicts : (open_or_replace_reverse_window later stale store).1 ≡ generation_conflict 0
unfolding open_or_replace_reverse_window lookup
stale_conflicts = refl

stale_rejected : is_accepted_new (open_or_replace_reverse_window later stale store).1 ≡ false
unfolding open_or_replace_reverse_window lookup
stale_rejected = refl

-- The client 3 has reached clock 9.
abbrev restoring : ConsumeRequest
restoring = record {
  origin = alice;
  tombstone_operation_id = "op1";
  restore_operation_id = "op3";
  window_generation = 1;
  content_state_vector = 1 ∷ 3 ∷ 9 ∷ [];
}

abbrev deleted_head : RootHead
deleted_head = record {
  document_id = "root";
  update_id = 7;
  document = set_deleted "e1" true head.document;
}

abbrev restored : Store
restored =
    restored_store later restoring deleted_head (row_of at_noon deletion head 1) deleted_store

abbrev restored_result : ConsumeResult
restored_result = record {
  window_generation = 1;
  consumed_at = 2000;
  restore_update_id = 8;
  root_document_id = "root";
  root_update = 2 ∷ [];
}

restoring_accepted :
    consume_reverse_window later restoring deleted_store ≡ (restored, accepted restored_result)
unfolding consume_reverse_window lookup insert modify root_file_entry set_deleted
    is_claimed_by_other decode_state_vector_v1 StateVector.decode_var_uint
    reverse_window_state_vector_dominates clock
restoring_accepted = refl

deleted-IsTable : IsTable deleted_store.windows
unfolding insert lookup
deleted-IsTable = record { distinct = (refl, tt); keyed = (refl, tt) }

consume-IsRestored_example : IsRestored later restoring deleted_store restored restored_result
consume-IsRestored_example =
    consume-IsRestored later restoring deleted_store restored restored_result deleted-IsTable
      restoring_accepted

deleted-Holds : Holds deleted_head.document "e1" "doc" "notes.md" (record entry { deleted = true })
unfolding lookup set_deleted insert modify
deleted-Holds = record { held = refl; of_document = refl; at_path = refl }

has_path : IsFree "e1" "notes.md" deleted_head.document
unfolding lookup set_deleted insert modify
has_path = (inl refl, tt)

found_it : find_window alice "op1" deleted_store.windows ≡ some (row_of at_noon deletion head 1)
unfolding find_window insert
found_it = refl

decoded_it : decode_state_vector_v1 (1 ∷ 3 ∷ 9 ∷ []) ≡ ok ((3, 9) ∷ [])
unfolding decode_state_vector_v1 StateVector.decode_var_uint insert
decoded_it = refl

has_content : lookup "doc" deleted_store.documents ≡ some ((3, 10) ∷ [])
unfolding lookup
has_content = refl

is_reached : (client : ℕ) → clock ((3, 9) ∷ []) client ≤ clock ((3, 10) ∷ []) client
unfolding clock lookup
is_reached client = ground arith

has_update : later.update ≢ []
has_update e = cc e

abbrev allowed : IsAllowed later restoring deleted_store
allowed = record {
  row = row_of at_noon deletion head 1;
  head = deleted_head;
  entry = record entry { deleted = true };
  required = (3, 9) ∷ [];
  current = (3, 10) ∷ [];
  found = found_it;
  generation = refl;
  unused = refl;
  in_time = omega arith;
  root = refl;
  in_root = refl;
  decoded = decoded_it;
  content = has_content;
  reached = is_reached;
  holds = deleted-Holds;
  deleted = refl;
  free = has_path;
  update = has_update;
}

consume-IsAllowed_example :
    (s' : Store) × (r : ConsumeResult) × (consume_reverse_window later restoring deleted_store
      ≡ (s', accepted r))
consume-IsAllowed_example = consume-IsAllowed later restoring deleted_store allowed

-- The file is deleted and restored once more.
abbrev deletion_again : OpenRequest
deletion_again = record deletion { operation_id = "op5"; expected_window_generation = 1 }

abbrev at_three : Call
at_three = record { now = 3000; update_id = 9; update = 3 ∷ [] }

abbrev between : List WindowCall
between = opens at_three deletion_again ∷ []

abbrev restoring_again : ConsumeRequest
restoring_again = record restoring {
  tombstone_operation_id = "op5";
  restore_operation_id = "op6";
  window_generation = 2;
}

abbrev at_four : Call
at_four = record { now = 4000; update_id = 10; update = 4 ∷ [] }

abbrev restored_head : RootHead
restored_head = record {
  document_id = "root";
  update_id = 8;
  document = set_deleted "e1" false deleted_head.document;
}

abbrev deleted_head_again : RootHead
deleted_head_again = record {
  document_id = "root";
  update_id = 9;
  document = set_deleted "e1" true restored_head.document;
}

abbrev restored_again : Store
restored_again =
    restored_store at_four restoring_again deleted_head_again
      (row_of at_three deletion_again restored_head 2) (run_calls between restored)

abbrev restored_again_result : ConsumeResult
restored_again_result = record {
  window_generation = 2;
  consumed_at = 4000;
  restore_update_id = 10;
  root_document_id = "root";
  root_update = 4 ∷ [];
}

restoring_again_accepted :
    consume_reverse_window at_four restoring_again (run_calls between restored)
    ≡ (restored_again, accepted restored_again_result)
unfolding consume_reverse_window open_or_replace_reverse_window run_calls lookup insert modify
    root_file_entry set_deleted is_claimed_by_other decode_state_vector_v1
    StateVector.decode_var_uint reverse_window_state_vector_dominates clock
restoring_again_accepted = refl

second_window :
    find_window alice "op5" (run_calls between restored).windows
    ≡ some (row_of at_three deletion_again restored_head 2)
unfolding find_window open_or_replace_reverse_window run_calls lookup insert modify root_file_entry
    set_deleted
second_window = refl

consume-once_example :
    (row_of at_noon deletion head 1).window_generation
    < (row_of at_three deletion_again restored_head 2).window_generation
consume-once_example =
    consume-once later at_four restoring restoring_again between deleted_store restored
      restored_again restored_result restored_again_result (row_of at_noon deletion head 1)
      (row_of at_three deletion_again restored_head 2) deleted-IsTable found_it restoring_accepted
      second_window restoring_again_accepted refl

abbrev much_later : Call
much_later = record { now = 300_001_000; update_id = 9; update = 3 ∷ [] }

too_late : is_accepted (consume_reverse_window much_later restoring deleted_store).1 ≡ false
unfolding consume_reverse_window lookup insert
too_late = refl
