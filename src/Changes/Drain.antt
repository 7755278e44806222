-- ===== src/Changes/Drain.antt =====
-- `drain` of daemon/internal/syncer/workspace_change_index.go: moves are found by file identity,
-- deletes wait for their delay, creates are taken all. The maps are ranged over in the order of
-- their lists.
use Prim.Native.String.{String}
use codesk.Common.{
  ℕ, Bool, true, false, Option, none, some, List, [], ◌∷◌, ◌++◌, String_key, ◌==◌, if◌then◌else◌,
  ltb,
}
use codesk.Common.Dict.{Dict, contains, delete}
use codesk.Common.Text.{str_lt}
use codesk.Common.Sorting.{sort}
use codesk.Changes.{
  FileIdentity, same_file_identity, LocalCreateCandidate, LocalMoveCandidate, LocalDeleteCandidate,
  WorkspaceChanges, PendingMissingPath, PendingCreatedPath, WorkspaceChangeIndex, note_identity,
  has_pending_missing, sorted_string_set,
}

-- The first create, in the order of the range, that no move has used and that is the same file.
unfoldable pub find_created :
    FileIdentity
    → List String
    → Dict String PendingCreatedPath
    → Option (String × PendingCreatedPath)
find_created identity used [] = none
find_created identity used ((path, created) ∷ rest) =
    if contains path used
    then find_created identity used rest
    else if same_file_identity identity created.identity
    then some (path, created)
    else find_created identity used rest

-- A missing path with no valid identity is passed over.
unfoldable pub search_created :
    Bool
    → FileIdentity
    → List String
    → Dict String PendingCreatedPath
    → Option (String × PendingCreatedPath)
search_created false identity used creates = none
search_created true identity used creates = find_created identity used creates

-- What the loop over the missing paths changes.
pub record Pairing : Type 0 where
  pub local_moves : List LocalMoveCandidate
  pub used_creates : List String
  pub missing : Dict String PendingMissingPath
  pub identities : Dict String FileIdentity

abbrev pub move_of : PendingMissingPath → PendingCreatedPath → LocalMoveCandidate
move_of gone created = record {
  document_id = gone.document_id;
  old_path = gone.path;
  new_path = created.candidate.path;
}

-- One round of the loop, after the search.
unfoldable pub match_one :
    String → PendingMissingPath → Option (String × PendingCreatedPath) → Pairing → Pairing
match_one document_id gone none s = s
match_one document_id gone (some (path, created)) s = record {
  local_moves = s.local_moves ++ move_of gone created ∷ [];
  used_creates = path ∷ s.used_creates;
  missing = delete document_id s.missing;
  identities =
      note_identity created.candidate.path created.identity (delete gone.path s.identities);
}

unfoldable pub match_missing :
    Dict String PendingCreatedPath → Dict String PendingMissingPath → Pairing → Pairing
match_missing creates [] s = s
match_missing creates ((document_id, gone) ∷ rest) s =
    let found = search_created gone.identity.valid gone.identity s.used_creates creates in
    match_missing creates rest (match_one document_id gone found s)

unfoldable pub delete_used :
    List String → Dict String PendingCreatedPath → Dict String PendingCreatedPath
delete_used [] creates = creates
delete_used (path ∷ paths) creates = delete_used paths (delete path creates)

unfoldable pub ready_deletes : ℕ → Dict String PendingMissingPath → List LocalDeleteCandidate
ready_deletes now [] = []
ready_deletes now ((document_id, m) ∷ rest) =
    let others = ready_deletes now rest in
    let ready : LocalDeleteCandidate = record {
      document_id = m.document_id;
      path = m.path;
      generation = m.generation;
    } in
    if ltb now m.ready_at then others else ready ∷ others

unfoldable pub taken_creates : Dict String PendingCreatedPath → List LocalCreateCandidate
taken_creates [] = []
taken_creates ((path, created) ∷ rest) = created.candidate ∷ taken_creates rest

unfoldable pub note_created :
    Dict String PendingCreatedPath → Dict String FileIdentity → Dict String FileIdentity
note_created [] ids = ids
note_created ((path, created) ∷ rest) ids =
    note_created rest (note_identity path created.identity ids)

unfoldable pub less_create : LocalCreateCandidate → LocalCreateCandidate → Bool
less_create a b = str_lt a.path b.path

unfoldable pub less_move : LocalMoveCandidate → LocalMoveCandidate → Bool
less_move a b =
    if a.document_id == b.document_id
    then str_lt a.new_path b.new_path
    else str_lt a.document_id b.document_id

unfoldable pub less_delete : LocalDeleteCandidate → LocalDeleteCandidate → Bool
less_delete a b =
    if a.document_id == b.document_id
    then str_lt a.path b.path
    else str_lt a.document_id b.document_id

abbrev pub no_matches : WorkspaceChangeIndex → Pairing
no_matches c = record {
  local_moves = [];
  used_creates = [];
  missing = c.missing;
  identities = c.identities;
}

unfoldable pub matches_of : WorkspaceChangeIndex → Pairing
matches_of c = match_missing c.creates c.missing (no_matches c)

unfoldable pub unused_creates : WorkspaceChangeIndex → Dict String PendingCreatedPath
unused_creates c = delete_used (matches_of c).used_creates c.creates

-- The index that `drain` leaves.
unfoldable pub drained : WorkspaceChangeIndex → WorkspaceChangeIndex
drained c = record c {
  dirty_documents = [];
  creates = [];
  missing = (matches_of c).missing;
  identities = note_created (unused_creates c) (matches_of c).identities;
}

-- The changes that it returns.
unfoldable pub changes_at : ℕ → WorkspaceChangeIndex → WorkspaceChanges
changes_at now c = record {
  dirty_document_ids = sorted_string_set c.dirty_documents;
  local_creates = sort less_create (taken_creates (unused_creates c));
  local_moves = sort less_move (matches_of c).local_moves;
  local_deletes = sort less_delete (ready_deletes now (matches_of c).missing);
}

-- The Boolean says that paths are still missing.
unfoldable pub drain : ℕ → WorkspaceChangeIndex → (WorkspaceChanges × Bool) × WorkspaceChangeIndex
drain now c = ((changes_at now c, has_pending_missing (drained c)), drained c)
