-- ===== src/Changes.antt =====
-- The index of local changes, daemon/internal/syncer/workspace_change_index.go: what the file
-- watcher saw and the reconciliation has not yet taken up. The receiver is not nil, the mutex makes
-- every method one step, times are nanoseconds.
use Prim.Native.String.{String}
use codesk.Common.{
  ℕ, ◌+◌, ◌%◌, ◌^◌, Bool, true, false, not, ◌&&◌, ◌||◌, Option, none, some, List, [], ◌∷◌,
  String_key, ◌==◌, if◌then◌else◌, eqb, is_empty,
}
use codesk.Common.Dict.{Dict, lookup, insert, delete}
use codesk.Common.Text.{is_blank, set_insert, str_lt}
use codesk.Common.Sorting.{sort}
pub mod Drain
pub mod Matching
pub mod Settled
pub mod Reported
pub mod Runs
pub mod Missing
pub mod Stale
pub mod Resolved
mod Tests

-- 250 * time.Millisecond
abbrev pub workspace_missing_path_delay : ℕ
workspace_missing_path_delay = 250_000_000

pub record FileIdentity : Type 0 where
  pub dev : ℕ
  pub ino : ℕ
  pub valid : Bool

abbrev pub no_identity : FileIdentity
no_identity = record { dev = 0; ino = 0; valid = false }

unfoldable pub same_file_identity : FileIdentity → FileIdentity → Bool
same_file_identity left right =
    left.valid && right.valid && eqb left.dev right.dev && eqb left.ino right.ino

pub record LocalCreateCandidate : Type 0 where
  pub root : String
  pub path : String
  pub actor_id : String
  pub actor_type : String

pub record LocalMoveCandidate : Type 0 where
  pub document_id : String
  pub old_path : String
  pub new_path : String

pub record LocalDeleteCandidate : Type 0 where
  pub document_id : String
  pub path : String
  pub generation : ℕ

pub record WorkspaceChanges : Type 0 where
  pub dirty_document_ids : List String
  pub local_creates : List LocalCreateCandidate
  pub local_moves : List LocalMoveCandidate
  pub local_deletes : List LocalDeleteCandidate

pub record PendingMissingPath : Type 0 where
  pub document_id : String
  pub path : String
  pub identity : FileIdentity
  pub ready_at : ℕ
  pub generation : ℕ

pub record PendingCreatedPath : Type 0 where
  pub candidate : LocalCreateCandidate
  pub identity : FileIdentity

pub record WorkspaceChangeIndex : Type 0 where
  pub dirty_documents : List String
  pub creates : Dict String PendingCreatedPath
  pub missing : Dict String PendingMissingPath
  pub discover_dirs : List String
  pub identities : Dict String FileIdentity
  pub next_missing_generation : ℕ

abbrev pub new_workspace_change_index : WorkspaceChangeIndex
new_workspace_change_index = record {
  dirty_documents = [];
  creates = [];
  missing = [];
  discover_dirs = [];
  identities = [];
  next_missing_generation = 0;
}

-- `if identity.valid { identities[path] = identity }`
unfoldable pub note_identity :
    String → FileIdentity → Dict String FileIdentity → Dict String FileIdentity
note_identity path identity ids = if identity.valid then insert path identity ids else ids

-- `missing, ok := …; ok && missing.path == path`
abbrev pub is_at : String → Option PendingMissingPath → Bool
is_at path none = false
is_at path (some missing) = missing.path == path

unfoldable pub forget_missing :
    String → String → Dict String PendingMissingPath → Dict String PendingMissingPath
forget_missing document_id path missing =
    if is_at path (lookup document_id missing) then delete document_id missing else missing

unfoldable pub record_identity : String → FileIdentity → WorkspaceChangeIndex → WorkspaceChangeIndex
record_identity path identity c =
    if is_blank path || not identity.valid
    then c
    else record c { identities = insert path identity c.identities }

unfoldable pub rekey_tracked_path :
    String → String → String → FileIdentity → WorkspaceChangeIndex → WorkspaceChangeIndex
rekey_tracked_path document_id old_path new_path identity c = record c {
  missing = forget_missing document_id old_path c.missing;
  creates = delete new_path c.creates;
  identities =
      if not (is_blank new_path) && identity.valid
      then insert new_path identity (delete old_path c.identities)
      else delete old_path c.identities;
}

unfoldable pub remove_identity : String → WorkspaceChangeIndex → WorkspaceChangeIndex
remove_identity path c =
    if is_blank path then c else record c { identities = delete path c.identities }

unfoldable pub mark_dirty_document : String → WorkspaceChangeIndex → WorkspaceChangeIndex
mark_dirty_document document_id c =
    if is_blank document_id
    then c
    else record c { dirty_documents = set_insert document_id c.dirty_documents }

unfoldable pub mark_local_create :
    LocalCreateCandidate → FileIdentity → WorkspaceChangeIndex → WorkspaceChangeIndex
mark_local_create candidate identity c =
    let created : PendingCreatedPath = record { candidate = candidate; identity = identity } in
    if is_blank candidate.path then c else record c {
      creates = insert candidate.path created c.creates;
      identities = note_identity candidate.path identity c.identities;
    }

-- `c.identities[path]`, with the zero value for a path that is not there.
unfoldable pub identity_at : String → Dict String FileIdentity → FileIdentity
identity_at path ids = elim (lookup path ids) [ none ↦ no_identity | some i ↦ i ]

-- `c.nextMissingGeneration++` on a uint64.
unfoldable pub next_generation : ℕ → ℕ
next_generation g = (g + 1) % 2 ^ 64

unfoldable pub mark_pending_missing :
    String → String → ℕ → WorkspaceChangeIndex → WorkspaceChangeIndex
mark_pending_missing document_id path now c =
    let generation : ℕ = next_generation c.next_missing_generation in
    let gone : PendingMissingPath = record {
      document_id = document_id;
      path = path;
      identity = identity_at path c.identities;
      ready_at = now + workspace_missing_path_delay;
      generation = generation;
    } in
    if is_blank document_id || is_blank path then c else record c {
      next_missing_generation = generation;
      missing = insert document_id gone c.missing;
      identities = delete path c.identities;
    }

unfoldable pub mark_tracked_present :
    String → String → FileIdentity → WorkspaceChangeIndex → WorkspaceChangeIndex
mark_tracked_present document_id path identity c =
    if is_blank document_id || is_blank path then c else record c {
      missing = forget_missing document_id path c.missing;
      identities = note_identity path identity c.identities;
    }

-- `!ok || missing.path != candidate.Path || missing.generation != candidate.generation`
abbrev pub is_stale : LocalDeleteCandidate → Option PendingMissingPath → Bool
is_stale candidate none = true
is_stale candidate (some missing) =
    not (missing.path == candidate.path) || not (eqb missing.generation candidate.generation)

-- The index and the Boolean that the method returns.
unfoldable pub resolve_pending_missing :
    LocalDeleteCandidate → WorkspaceChangeIndex → WorkspaceChangeIndex × Bool
resolve_pending_missing candidate c =
    if is_blank candidate.document_id || is_blank candidate.path || eqb candidate.generation 0
    then (c, false)
    else if is_stale candidate (lookup candidate.document_id c.missing)
    then (c, false)
    else (
      record c {
        missing = delete candidate.document_id c.missing;
        identities = delete candidate.path c.identities;
      },
      true,
    )

unfoldable pub has_pending_missing : WorkspaceChangeIndex → Bool
has_pending_missing c = not (is_empty c.missing)

unfoldable pub mark_discover_dir : String → WorkspaceChangeIndex → WorkspaceChangeIndex
mark_discover_dir path c =
    if is_blank path then c else record c { discover_dirs = set_insert path c.discover_dirs }

unfoldable pub sorted_string_set : List String → List String
sorted_string_set values = sort str_lt values

unfoldable pub drain_discover_dirs : WorkspaceChangeIndex → List String × WorkspaceChangeIndex
drain_discover_dirs c = (sorted_string_set c.discover_dirs, record c { discover_dirs = [] })
