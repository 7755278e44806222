-- ===== src/Paths/Tests.antt =====
-- Paths that are accepted and refused.
use codesk.Common.{◌≡◌, refl, [], ◌∷◌}
use codesk.Paths.{
  PathText, is_space_rune, trim_left, trim_right, trim, same_text, has_prefix, slashes, split_slash,
  join_slash, replicate_dots, clean_elements, joined, clean, normalize_root_path, has_dot_field,
  is_ignored_workspace_relative_path, visible, escapes_workspace, normalize_visible_root_path,
}
use codesk.Paths.Inside.{IsInside, normalize_visible_root_path-IsInside}

-- " a\../b//c "
abbrev untidy : PathText
untidy = 32 ∷ 97 ∷ 92 ∷ 46 ∷ 46 ∷ 47 ∷ 98 ∷ 47 ∷ 47 ∷ 99 ∷ 32 ∷ []

-- "b/c"
abbrev tidy : PathText
tidy = 98 ∷ 47 ∷ 99 ∷ []

untidy_accepted : normalize_visible_root_path untidy ≡ visible tidy
unfolding is_space_rune trim_left trim_right trim same_text has_prefix slashes split_slash
    join_slash replicate_dots clean_elements joined clean normalize_root_path has_dot_field
    is_ignored_workspace_relative_path normalize_visible_root_path
untidy_accepted = refl

-- "a/../.."
up_refused : normalize_visible_root_path (97 ∷ 47 ∷ 46 ∷ 46 ∷ 47 ∷ 46 ∷ 46 ∷ []) ≡ escapes_workspace
unfolding is_space_rune trim_left trim_right trim same_text has_prefix slashes split_slash
    join_slash replicate_dots clean_elements joined clean normalize_root_path has_dot_field
    is_ignored_workspace_relative_path normalize_visible_root_path
up_refused = refl

normalize_visible_root_path-IsInside_example : IsInside tidy
normalize_visible_root_path-IsInside_example =
    normalize_visible_root_path-IsInside untidy tidy untidy_accepted
