-- ===== src/LineDiff/Tests.antt =====
-- Diffs of short texts.
use codesk.Common.{◌≤◌, ◌≡◌, refl, inl, inr, List, [], ◌∷◌, length, String_key}
use codesk.Paths.{same_text}
use codesk.LineDiff.{
  Bytes, equal, delete, insert, DocumentDiff, built, split_after, without_empty_last,
  split_lines_keep_end, newlines, ends_line, count_diff_lines, append_merged_hunk, at, row_at,
  fill_row, zeros, fill_table, append_all, walk, diff_text_by_line, render_lines,
  render_unified_diff, document_diff_hunk_text_bytes, validate_document_diff_size, response_bytes,
  build_document_diff,
}
use codesk.LineDiff.Longest.{IsSubsequence}
use codesk.LineDiff.Longest.Kept.{kept_lines, diff_text_by_line-longest}
use codesk.LineDiff.Restored.{side, in_old, in_new, diff_text_by_line-sides}
use codesk.LineDiff.Bounds.{IsSent, build_document_diff-IsSent}

-- "a\nb\nc" and "b\nd\nc"
abbrev before : Bytes
before = 97 ∷ 10 ∷ 98 ∷ 10 ∷ 99 ∷ []

abbrev after : Bytes
after = 98 ∷ 10 ∷ 100 ∷ 10 ∷ 99 ∷ []

abbrev b_line : Bytes
b_line = 98 ∷ 10 ∷ []

abbrev c_line : Bytes
c_line = 99 ∷ []

abbrev the_diff : DocumentDiff
the_diff = record {
  document_id = "d";
  from_update_id = 1;
  to_update_id = 2;
  from_content = before;
  to_content = after;
  -- "-a\n b\n+d\n c\n"
  unified = 45 ∷ 97 ∷ 10 ∷ 32 ∷ 98 ∷ 10 ∷ 43 ∷ 100 ∷ 10 ∷ 32 ∷ 99 ∷ 10 ∷ [];
  hunks =
      record { op = delete; text = 97 ∷ 10 ∷ [] }
      ∷ record { op = equal; text = b_line }
      ∷ record { op = insert; text = 100 ∷ 10 ∷ [] }
      ∷ record { op = equal; text = c_line }
      ∷ [];
}

the_diff_built : build_document_diff "d" 1 2 before after ≡ built the_diff
unfolding same_text split_after without_empty_last split_lines_keep_end newlines ends_line
    count_diff_lines append_merged_hunk at row_at fill_row zeros fill_table append_all walk
    diff_text_by_line render_lines render_unified_diff document_diff_hunk_text_bytes
    validate_document_diff_size response_bytes build_document_diff
the_diff_built = refl

abbrev common : List Bytes
common = b_line ∷ c_line ∷ []

common-before : IsSubsequence common (split_lines_keep_end before)
unfolding split_after without_empty_last split_lines_keep_end
common-before = inr (inl (refl, inl (refl, tt)))

common-after : IsSubsequence common (split_lines_keep_end after)
unfolding split_after without_empty_last split_lines_keep_end
common-after = inl (refl, inr (inl (refl, tt)))

diff_text_by_line-sides_example :
    (side in_old (diff_text_by_line before after) ≡ before)
    × (side in_new (diff_text_by_line before after) ≡ after)
diff_text_by_line-sides_example = diff_text_by_line-sides before after

diff_text_by_line-longest_example : length common ≤ kept_lines (diff_text_by_line before after)
diff_text_by_line-longest_example =
    diff_text_by_line-longest before after common common-before common-after

build_document_diff-IsSent_example : IsSent before after the_diff
build_document_diff-IsSent_example =
    build_document_diff-IsSent "d" 1 2 before after the_diff the_diff_built
