-- ===== src/Windows/Root.antt =====
-- The file entries of the root document, as backend/internal/notty/root_semantics.go decodes them.
-- `none` stands for an entry that it does not decode: no file, or one without a document or a path.
-- Ids and paths are taken as trimmed and normalised.
use Prim.Native.String.{String}
use codesk.Common.{
  Bool, true, false, not, ◌&&◌, Option, none, some, [], ◌∷◌, if◌then◌else◌, String_key, ◌==◌,
}
use codesk.Common.Dict.{Dict, lookup, modify}

pub record FileEntry : Type 0 where
  pub content_document_id : String
  pub desired_path : String
  pub deleted : Bool

abbrev pub RootDocument : Type 0
RootDocument = Dict String (Option FileEntry)

abbrev pub expected_entry : FileEntry → String → String → Option FileEntry
expected_entry entry content_document_id desired_path =
    if not (entry.content_document_id == content_document_id)
    then none
    else if not (entry.desired_path == desired_path)
    then none
    else some entry

-- `rootFileEntryForCommand`; `none` is an error.
unfoldable pub root_file_entry : RootDocument → String → String → String → Option FileEntry
root_file_entry document entry_id content_document_id desired_path =
    elim (lookup entry_id document) [
      | none ↦ none
      | some undecoded ↦ elim undecoded [
        | none ↦ none
        | some entry ↦ expected_entry entry content_document_id desired_path
      ]
    ]

abbrev pub mark_deleted : Bool → Option FileEntry → Option FileEntry
mark_deleted deleted none = none
mark_deleted deleted (some entry) = some (record entry { deleted = deleted })

-- The mutation of `setRootFileDeleted`.
unfoldable pub set_deleted : String → Bool → RootDocument → RootDocument
set_deleted entry_id deleted document = modify entry_id (mark_deleted deleted) document

-- The answer of `rootPathClaimedByOtherActiveEntry`; `none` is the error on an entry that does not
-- decode before one that claims the path.
unfoldable pub is_claimed_by_other : RootDocument → String → String → Option Bool
is_claimed_by_other [] excluded_entry_id desired_path = some false
is_claimed_by_other ((entry_id, undecoded) ∷ items) excluded_entry_id desired_path =
    let rest = is_claimed_by_other items excluded_entry_id desired_path in
    if entry_id == excluded_entry_id then rest else elim undecoded [
      | none ↦ none
      | some entry ↦
          if not entry.deleted && (entry.desired_path == desired_path) then some true else rest
    ]
