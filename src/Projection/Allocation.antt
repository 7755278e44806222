-- ===== src/Projection/Allocation.antt =====
-- How each entry gets its path: `previousMaterializedRootPath`, `allocateMaterializedRootPath` and
-- `rootMaterializedPathTaken` of daemon/internal/syncer/root_namespace.go, and the loop of
-- `allocateRootProjectionEntries` that calls them.
use codesk.Common.{
  ℕ, suc, ◌+◌, Bool, true, false, not, ◌&&◌, ◌||◌, Option, none, some, List, [], ◌∷◌, ◌++◌, ◌==◌,
  String_key, if◌then◌else◌, eqb, leb, ltb, is_empty, length, take,
}
use codesk.Common.Dict.{Dict, contains, lookup, keys}
use codesk.Common.Text.{set_insert}
use codesk.Common.Sorting.{sort}
use codesk.Common.Search.{first_free}
use codesk.Paths.{PathText, trim, normalize_root_path, normalize_visible_root_path}
use codesk.Paths.Texts.{PathText_key, less_text, file_ext, trim_suffix, itoa, runes}
use codesk.Intents.{LocalNamespaceClaim}
use codesk.Projection.{
  RootEntry, RootProjectionEntry, desired_path, untitled, if_visible, active_entries, less_active,
  paths_by_document, Reserved, reserve_all, previous_by_document,
}

-- A path with another owner than the document, or with several.
abbrev pub claimed_by_others : PathText → Option (List PathText) → Bool
claimed_by_others document none = false
claimed_by_others document (some owners) =
    not (is_empty owners) && (not (contains document owners) || ltb 1 (length owners))

unfoldable pub root_materialized_path_taken : PathText → PathText → Reserved → Bool
root_materialized_path_taken path document r =
    contains path r.used || claimed_by_others document (lookup path r.claimed_by_path)

unfoldable pub safe_rune : ℕ → Bool
safe_rune c =
    (leb 97 c && leb c 122)
    || (leb 65 c && leb c 90)
    || (leb 48 c && leb c 57)
    || eqb c 45
    || eqb c 95

unfoldable pub safe_runes : PathText → PathText
safe_runes [] = []
safe_runes (c ∷ s) = (if safe_rune c then c else 95) ∷ safe_runes s

unfoldable pub safe_document_cache_name : PathText → PathText
safe_document_cache_name value = if is_empty value then runes "document" else safe_runes value

-- What stands between the suffix and the closing parenthesis.
abbrev pub number_text : ℕ → PathText
number_text index = if ltb 1 index then 45 ∷ itoa index else []

unfoldable pub candidate_path : PathText → PathText → PathText → PathText → PathText
candidate_path base suffix ext number =
    normalize_root_path (base ++ 32 ∷ 40 ∷ (suffix ++ (number ++ 41 ∷ ext)))

unfoldable pub candidate : PathText → PathText → ℕ → PathText
candidate desired document index =
    let ext = file_ext desired in
    candidate_path (trim_suffix ext desired) (take 14 (safe_document_cache_name document)) ext
      (number_text index)

-- The path that is tried first.
abbrev pub wanted : PathText → PathText
wanted desired =
    if is_empty (normalize_root_path desired) then untitled else normalize_root_path desired

unfoldable pub allocate_materialized_root_path : PathText → PathText → Reserved → Option PathText
allocate_materialized_root_path desired document r =
    let path = wanted desired in
    let tries =
      first_free (λ (p : PathText). root_materialized_path_taken p document r)
        (candidate path document) (suc (length r.used + length (keys r.claimed_by_path))) 1 in
    if root_materialized_path_taken path document r then tries else some path

abbrev pub previous_path : Option PathText → PathText → Reserved → PathText
previous_path none document r = []
previous_path (some path) document r =
    if is_empty path || root_materialized_path_taken path document r then [] else path

abbrev pub reusable : PathText → RootProjectionEntry → Bool
reusable desired p =
    p.active
    && not (is_empty p.content_document_id)
    && (p.desired_path == desired)
    && not (is_empty (trim p.materialized_path))

abbrev pub reuse_path : PathText → PathText → Option RootProjectionEntry → Reserved → PathText
reuse_path desired document none r = []
reuse_path desired document (some p) r =
    if reusable desired p
    then previous_path (if_visible (normalize_visible_root_path p.materialized_path)) document r
    else []

unfoldable pub previous_materialized_root_path :
    RootEntry → Dict PathText RootProjectionEntry → Reserved → PathText
previous_materialized_root_path e previous r =
    reuse_path (desired_path e) e.content_document_id (lookup e.content_document_id previous) r

unfoldable pub materialize :
    RootEntry → Dict PathText RootProjectionEntry → Reserved → Option PathText
materialize e previous r =
    let path = previous_materialized_root_path e previous r in
    if is_empty path
    then allocate_materialized_root_path (desired_path e) e.content_document_id r
    else some path

abbrev pub use_path : PathText → Reserved → Reserved
use_path path r = record r { used = set_insert path r.used }

abbrev pub projected_entry : RootEntry → PathText → ℕ → RootProjectionEntry
projected_entry e path seq = record {
  entry_id = e.entry_id;
  content_document_id = e.content_document_id;
  desired_path = desired_path e;
  materialized_path = path;
  active = true;
  projected_seq = seq;
}

abbrev pub with_rest :
    RootProjectionEntry → Option (List RootProjectionEntry) → Option (List RootProjectionEntry)
with_rest p none = none
with_rest p (some ps) = some (p ∷ ps)

-- The entry takes its path, and the others go on with what is left.
abbrev pub placed :
    (e : RootEntry) (seq : ℕ) (r : Reserved)
    → (Reserved → Option (List RootProjectionEntry))
    → Option PathText
    → Option (List RootProjectionEntry)
placed e seq r others none = none
placed e seq r others (some path) =
    with_rest (projected_entry e path seq) (others (use_path path r))

unfoldable pub materialize_all :
    Dict PathText RootProjectionEntry
    → ℕ
    → List RootEntry
    → Reserved
    → Option (List RootProjectionEntry)
materialize_all previous seq [] r = some []
materialize_all previous seq (e ∷ es) r =
    placed e seq r (λ (next : Reserved). materialize_all previous seq es next)
      (materialize e previous r)

abbrev pub deleted_entry : RootEntry → ℕ → RootProjectionEntry
deleted_entry e seq = record {
  entry_id = e.entry_id;
  content_document_id = e.content_document_id;
  desired_path = desired_path e;
  materialized_path = [];
  active = false;
  projected_seq = seq;
}

unfoldable pub deleted_entries : ℕ → List RootEntry → List RootProjectionEntry
deleted_entries seq [] = []
deleted_entries seq (e ∷ es) =
    let rest = deleted_entries seq es in if e.deleted then deleted_entry e seq ∷ rest else rest

unfoldable pub less_entry : RootProjectionEntry → RootProjectionEntry → Bool
less_entry a b = less_text a.entry_id b.entry_id

abbrev pub sorted_with :
    List RootProjectionEntry → Option (List RootProjectionEntry) → Option (List RootProjectionEntry)
sorted_with gone none = none
sorted_with gone (some placed_entries) = some (sort less_entry (placed_entries ++ gone))

abbrev pub in_order : List RootEntry → List RootEntry
in_order entries = sort less_active (active_entries entries)

abbrev pub reserved_paths : List RootEntry → List LocalNamespaceClaim → Reserved
reserved_paths entries claims =
    reserve_all (paths_by_document (in_order entries) []) claims
      (record { used = []; claimed_by_path = [] })

unfoldable pub allocate_root_projection_entries :
    List RootProjectionEntry
    → List RootEntry
    → ℕ
    → List LocalNamespaceClaim
    → Option (List RootProjectionEntry)
allocate_root_projection_entries previous entries seq claims =
    sorted_with (deleted_entries seq entries) (
      materialize_all (previous_by_document previous []) seq (in_order entries)
        (reserved_paths entries claims))
