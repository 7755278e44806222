-- ===== src/Projection/Tests.antt =====
-- Projections of a few entries.
use codesk.Common.{◌≡◌, ◌≤◌, refl, true, false, some, List, [], ◌∷◌, String_key}
use codesk.Common.Dict.{contains, lookup, insert, keys}
use codesk.Common.Text.{set_insert}
use codesk.Common.Sorting.{count, sort, insert_sorted}
use codesk.Common.Search.{first_free}
use codesk.Intents.{LocalNamespaceClaim}
use codesk.Paths.{
  PathText, is_space_rune, trim_left, trim_right, trim, same_text, has_prefix, slashes, split_slash,
  join_slash, replicate_dots, clean_elements, joined, clean, normalize_root_path, has_dot_field,
  is_ignored_workspace_relative_path, normalize_visible_root_path,
}
use codesk.Paths.Segments.{has_slash}
use codesk.Paths.Texts.{PathText_key, runes, less_text, file_ext, trim_suffix, decimal}
use codesk.Projection.{
  RootEntry, RootProjectionEntry, desired_path, active_path, active_entries, less_active,
  paths_by_document, reserve, reserve_all, previous_by_document,
}
use codesk.Projection.Allocation.{
  root_materialized_path_taken, safe_rune, safe_runes, safe_document_cache_name, candidate_path,
  candidate, allocate_materialized_root_path, previous_materialized_root_path, materialize,
  materialize_all, deleted_entries, less_entry, allocate_root_projection_entries,
}
use codesk.Projection.Planner.{
  is_upsert, upserts_of, is_removed, removed_of, build_root_projection_plan,
}
use codesk.Projection.Distinct.{paths, allocate_root_projection_entries-count}
use codesk.Projection.Announced.{IsClaim, allocate-claims}
use codesk.Projection.Plan.{documents, build_root_projection_plan-removed}

abbrev file : PathText → PathText → PathText → RootEntry
file id document name = record {
  entry_id = id;
  content_document_id = document;
  parent_id = [];
  name = name;
  deleted = false;
}

abbrev on_disk : PathText → PathText → PathText → PathText → RootProjectionEntry
on_disk id document desired path = record {
  entry_id = id;
  content_document_id = document;
  desired_path = desired;
  materialized_path = path;
  active = true;
  projected_seq = 7;
}

-- "e1" and so on
abbrev e1 : PathText
e1 = 101 ∷ 49 ∷ []

abbrev e2 : PathText
e2 = 101 ∷ 50 ∷ []

abbrev e3 : PathText
e3 = 101 ∷ 51 ∷ []

abbrev d1 : PathText
d1 = 100 ∷ 49 ∷ []

abbrev d2 : PathText
d2 = 100 ∷ 50 ∷ []

abbrev d3 : PathText
d3 = 100 ∷ 51 ∷ []

-- "a.b" and "a (d1).b"
abbrev name : PathText
name = 97 ∷ 46 ∷ 98 ∷ []

abbrev renamed : PathText
renamed = 97 ∷ 32 ∷ 40 ∷ 100 ∷ 49 ∷ 41 ∷ 46 ∷ 98 ∷ []

abbrev two_files : List RootEntry
two_files = file e1 d1 name ∷ file e2 d2 name ∷ []

abbrev claim : LocalNamespaceClaim
claim = record {
  path = "a.b";
  document_id = "d2";
  client_operation_id = "o";
  kind = "local_create";
  status = "pending";
}

abbrev before : List RootProjectionEntry
before = on_disk e3 d3 name name ∷ []

abbrev after : List RootProjectionEntry
after = on_disk e1 d1 name renamed ∷ on_disk e2 d2 name name ∷ []

-- The second file has announced the path, so the first one gets another.
two_files_allocated : allocate_root_projection_entries before two_files 7 (claim ∷ []) ≡ some after
unfolding contains lookup insert keys set_insert sort insert_sorted first_free is_space_rune
    trim_left trim_right trim same_text has_prefix slashes split_slash join_slash replicate_dots
    clean_elements joined clean normalize_root_path has_dot_field is_ignored_workspace_relative_path
    normalize_visible_root_path has_slash runes less_text file_ext trim_suffix decimal desired_path
    active_path active_entries less_active paths_by_document reserve reserve_all
    previous_by_document root_materialized_path_taken safe_rune safe_runes safe_document_cache_name
    candidate_path candidate allocate_materialized_root_path previous_materialized_root_path
    materialize materialize_all deleted_entries less_entry allocate_root_projection_entries
two_files_allocated = refl

claim-IsClaim : IsClaim name d2 claim
unfolding is_space_rune trim_left trim_right trim same_text has_prefix slashes split_slash
    join_slash replicate_dots clean_elements joined clean normalize_root_path has_dot_field
    is_ignored_workspace_relative_path normalize_visible_root_path runes
claim-IsClaim = record {
  create = refl;
  visible_path = refl;
  named = refl;
  some_document = refl;
  unresolved = refl;
}

removed_before : (build_root_projection_plan before after).removed ≡ before
unfolding sort insert_sorted contains same_text less_entry less_text is_upsert upserts_of is_removed
    removed_of build_root_projection_plan
removed_before = refl

allocate_root_projection_entries-count_example :
    (next : List RootProjectionEntry) × (allocate_root_projection_entries before two_files 7
        (claim ∷ [])
      ≡ some next)
    × (count name (paths next) ≤ 1)
allocate_root_projection_entries-count_example =
    allocate_root_projection_entries-count before two_files 7 (claim ∷ []) name refl

allocate-claims_example : d2 ≡ d2
allocate-claims_example =
    allocate-claims before two_files 7 name d2 claim [] [] after (on_disk e1 d1 name renamed ∷ [])
      [] (on_disk e2 d2 name name) claim-IsClaim two_files_allocated refl refl

build_root_projection_plan-removed_example :
    (true ≡ true) × (contains d3 (documents (active_entries two_files)) ≡ false)
build_root_projection_plan-removed_example =
    build_root_projection_plan-removed before two_files 7 (claim ∷ []) after [] []
      (on_disk e3 d3 name name) two_files_allocated removed_before

-- "./ ./ ../x" and "../x": each normalisation trims once more, and the last ones are not checked.
abbrev spaced : PathText
spaced = 46 ∷ 47 ∷ 32 ∷ 46 ∷ 47 ∷ 32 ∷ 46 ∷ 46 ∷ 47 ∷ 120 ∷ []

abbrev outside : PathText
outside = 46 ∷ 46 ∷ 47 ∷ 120 ∷ []

spaced_goes_outside :
    allocate_root_projection_entries [] (file e1 d1 spaced ∷ []) 7 []
    ≡ some (on_disk e1 d1 outside outside ∷ [])
unfolding contains lookup insert keys set_insert sort insert_sorted first_free is_space_rune
    trim_left trim_right trim same_text has_prefix slashes split_slash join_slash replicate_dots
    clean_elements joined clean normalize_root_path has_dot_field is_ignored_workspace_relative_path
    normalize_visible_root_path has_slash runes less_text file_ext trim_suffix decimal desired_path
    active_path active_entries less_active paths_by_document reserve reserve_all
    previous_by_document root_materialized_path_taken safe_rune safe_runes safe_document_cache_name
    candidate_path candidate allocate_materialized_root_path previous_materialized_root_path
    materialize materialize_all deleted_entries less_entry allocate_root_projection_entries
spaced_goes_outside = refl
