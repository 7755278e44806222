-- ===== src/Projection.antt =====
-- The projection of the root document to files: `allocateRootProjectionEntries` and
-- `buildRootProjectionPlan` of daemon/internal/syncer/root_namespace.go. A map is the list of what it
-- holds, in the order of its iteration; entries are kept under their ids. All texts are runes.
use mathlib.Core.List.{map}
use codesk.Common.{
  ℕ, suc, ◌+◌, Bool, true, false, not, ◌&&◌, ◌||◌, Option, none, some, List, [], ◌∷◌, ◌++◌, ◌==◌,
  String_key, if◌then◌else◌, eqb, leb, ltb, is_empty, length, take,
}
use codesk.Common.Dict.{Dict, contains, lookup, insert, keys, get_or, has}
use codesk.Common.Text.{set_insert}
use codesk.Common.Sorting.{sort}
use codesk.Common.Search.{first_free}
use codesk.Paths.{
  PathText, trim, normalize_root_path, Visible, visible, path_required, absolute_path,
  escapes_workspace, ignored_path, normalize_visible_root_path,
}
use codesk.Paths.Texts.{PathText_key, less_text, file_ext, trim_suffix, itoa, runes}
use codesk.Intents.{
  LocalNamespaceClaim, local_namespace_intent_kind_create, local_namespace_intent_pending,
  local_namespace_intent_resolved,
}
pub mod Allocation
pub mod Planner
pub mod Candidates
pub mod Placed
pub mod Distinct
pub mod Claims
pub mod Announced
pub mod Plan
mod Tests

pub record RootEntry : Type 0 where
  pub entry_id : PathText
  pub content_document_id : PathText
  pub parent_id : PathText
  pub name : PathText
  pub deleted : Bool

pub record RootProjectionEntry : Type 0 where
  pub entry_id : PathText
  pub content_document_id : PathText
  pub desired_path : PathText
  pub materialized_path : PathText
  pub active : Bool
  pub projected_seq : ℕ

-- `desiredPath`
unfoldable pub desired_path : RootEntry → PathText
desired_path e =
    let name = normalize_root_path e.name in
    let parent = normalize_root_path e.parent_id in
    if is_empty parent
    then name
    else if is_empty name
    then parent
    else normalize_root_path (parent ++ 47 ∷ name)

abbrev pub pending : PathText
pending = runes local_namespace_intent_pending

abbrev pub resolved : PathText
resolved = runes local_namespace_intent_resolved

-- `untitled`
abbrev pub untitled : PathText
untitled = runes "untitled"

abbrev pub if_visible : Visible → Option PathText
if_visible (visible path) = some path
if_visible path_required = none
if_visible absolute_path = none
if_visible escapes_workspace = none
if_visible ignored_path = none

-- The path that an entry asks for, of the entries that are projected.
unfoldable pub active_path : RootEntry → Option PathText
active_path e =
    if e.deleted || is_empty e.content_document_id
    then none
    else if_visible (normalize_visible_root_path (desired_path e))

abbrev pub keep_entry : RootEntry → Option PathText → List RootEntry → List RootEntry
keep_entry e none rest = rest
keep_entry e (some path) rest = record e { name = path; parent_id = [] } ∷ rest

unfoldable pub active_entries : List RootEntry → List RootEntry
active_entries [] = []
active_entries (e ∷ es) = keep_entry e (active_path e) (active_entries es)

unfoldable pub less_active : RootEntry → RootEntry → Bool
less_active a b =
    if not (desired_path a == desired_path b)
    then less_text (desired_path a) (desired_path b)
    else if not (a.content_document_id == b.content_document_id)
    then less_text a.content_document_id b.content_document_id
    else less_text a.entry_id b.entry_id

unfoldable pub paths_by_document : List RootEntry → Dict PathText PathText → Dict PathText PathText
paths_by_document [] m = m
paths_by_document (e ∷ es) m =
    paths_by_document es (insert e.content_document_id (desired_path e) m)

-- `used` and `claimedByPath`
pub record Reserved : Type 0 where
  pub used : List PathText
  pub claimed_by_path : Dict PathText (List PathText)

abbrev pub add_owner : PathText → PathText → Reserved → Reserved
add_owner path document r = record r {
  claimed_by_path =
      insert path (set_insert document (get_or r.claimed_by_path path [])) r.claimed_by_path;
}

abbrev pub reserve_path :
    Dict PathText PathText → LocalNamespaceClaim → Option PathText → Reserved → Reserved
reserve_path active_paths claim none r = r
reserve_path active_paths claim (some path) r =
    let document = trim (runes claim.document_id) in
    let status =
      if is_empty (trim (runes claim.status)) then pending else trim (runes claim.status) in
    if is_empty path
    then r
    else if is_empty document
    then record r { used = set_insert path r.used }
    else if (status == resolved) && not (get_or active_paths document [] == path)
    then r
    else add_owner path document r

unfoldable pub reserve : Dict PathText PathText → LocalNamespaceClaim → Reserved → Reserved
reserve active_paths claim r =
    if not (claim.kind == "") && not (claim.kind == local_namespace_intent_kind_create)
    then r
    else reserve_path active_paths claim
        (if_visible (normalize_visible_root_path (runes claim.path))) r

unfoldable pub reserve_all : Dict PathText PathText → List LocalNamespaceClaim → Reserved → Reserved
reserve_all active_paths [] r = r
reserve_all active_paths (claim ∷ claims) r =
    reserve_all active_paths claims (reserve active_paths claim r)

unfoldable pub previous_by_document :
    List RootProjectionEntry → Dict PathText RootProjectionEntry → Dict PathText RootProjectionEntry
previous_by_document [] m = m
previous_by_document (p ∷ ps) m = previous_by_document ps (
    if p.active && not (is_empty (trim p.content_document_id))
    then insert p.content_document_id p m
    else m)
