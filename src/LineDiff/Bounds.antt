-- ===== src/LineDiff/Bounds.antt =====
-- What the limits of `buildDocumentDiff` guarantee of a diff that is built.
use Prim.Native.String.{String}
use codesk.Common.{
  ℕ, ◌+◌, ◌*◌, ◌≤◌, ◌≡◌, ◌≢◌, refl, subst, inl, inr, false, Option, none, some, List, [], ◌∷◌, ◌==◌,
  arith, ltb, drop, length, Bool-cases, past_guard,
}
use codesk.Paths.Texts.{PathText_key, same_text_iff}
use codesk.LineDiff.{
  Bytes, DocumentDiff, DiffError, DiffResult, built, refused, from_too_large, to_too_large,
  from_too_long, to_too_long, product_too_large, content_too_large, response_too_large,
  max_diff_input_bytes_per_side, max_diff_lines_per_side, max_diff_line_product,
  max_diff_response_bytes, count_diff_lines, validate_document_diff_size, if_valid,
  empty_document_diff, response_bytes, full_diff, build_document_diff, split_lines_keep_end,
  document_diff_hunk_text_bytes, fill_row, zeros, fill_table, row_at,
}
use codesk.LineDiff.Lines.{count_diff_lines-split}
use codesk.LineDiff.Restored.{side, in_old, in_new, diff_text_by_line-sides}

-- The number of entries of a table.
abbrev pub table_size : List (List ℕ) → ℕ
table_size [] = 0
table_size (row ∷ rows) = length row + table_size rows

-- The most entries that a table has: the product of the line counts, and a row and a column more.
abbrev pub max_table_size : ℕ
max_table_size = 2040001

-- What a diff from one text to another holds.
pub data Holds (before after : Bytes) (d : DocumentDiff) : Type 0 where
  unchanged :
      before ≡ after
      → d.from_content ≡ []
      → d.to_content ≡ []
      → d.unified ≡ []
      → d.hunks ≡ []
      → Holds before after d
  changed :
      before ≢ after
      → d.from_content ≡ before
      → d.to_content ≡ after
      → side in_old d.hunks ≡ before
      → side in_new d.hunks ≡ after
      → table_size (fill_table (split_lines_keep_end before) (split_lines_keep_end after))
        ≤ max_table_size
      → Holds before after d

-- A diff of a size that is sent, from one text to another.
pub record IsSent (before after : Bytes) (d : DocumentDiff) : Type 0 where
  pub bytes :
      length d.from_content
        + length d.to_content
        + length d.unified
        + document_diff_hunk_text_bytes d.hunks
      ≤ max_diff_response_bytes
  pub holds : Holds before after d

length-fill_row :
    (x : Bytes) (ys : List Bytes) (below : List ℕ) → length (fill_row x ys below) ≡ length ys + 1
unfolding fill_row
length-fill_row x [] below = omega arith
length-fill_row x (y ∷ ys) below = omega (arith, length-fill_row x ys (drop 1 below))

length-zeros : (ys : List Bytes) → length (zeros ys) ≡ length ys + 1
unfolding zeros
length-zeros [] = omega arith
length-zeros (y ∷ ys) = omega (arith, length-zeros ys)

table_size-fill_table :
    (xs ys : List Bytes)
    → table_size (fill_table xs ys) ≡ length xs * length ys + length xs + length ys + 1
unfolding fill_table
table_size-fill_table [] ys = omega (arith, length-zeros ys)
table_size-fill_table (x ∷ xs) ys =
    grind (arith, length-fill_row x ys (row_at (fill_table xs ys) 0), table_size-fill_table xs ys)

empty_document_diff-IsSent :
    (id : String) (from_id to_id : ℕ) (before after : Bytes)
    → before ≡ after
    → IsSent before after (empty_document_diff id from_id to_id)
unfolding empty_document_diff document_diff_hunk_text_bytes
empty_document_diff-IsSent id from_id to_id before after e = record {
  bytes = omega arith;
  holds = unchanged e refl refl refl refl;
}

validate-within_limits :
    (before after : Bytes)
    → validate_document_diff_size before after ≡ none
    → (count_diff_lines before * count_diff_lines after ≤ max_diff_line_product)
      × (count_diff_lines before ≤ max_diff_lines_per_side)
      × (count_diff_lines after ≤ max_diff_lines_per_side)
unfolding validate_document_diff_size
validate-within_limits before after h =
    let g1 =
      past_guard (ltb max_diff_input_bytes_per_side (length before)) (some from_too_large) _ h
        (λ q. cc q) in
    let g2 =
      past_guard (ltb max_diff_input_bytes_per_side (length after)) (some to_too_large) _ (g1.1)
        (λ q. cc q) in
    let g3 =
      past_guard (ltb max_diff_lines_per_side (count_diff_lines before)) (some from_too_long) _
        (g2.1) (λ q. cc q) in
    let g4 =
      past_guard (ltb max_diff_lines_per_side (count_diff_lines after)) (some to_too_long) _ (g3.1)
        (λ q. cc q) in
    let g5 =
      past_guard (ltb max_diff_line_product (count_diff_lines before * count_diff_lines after))
        (some product_too_large) _ (g4.1) (λ q. cc q) in
    (ground (arith, g5.0), ground (arith, g3.0), ground (arith, g4.0))

valid :
    (o : Option DiffError) (r : DiffResult) (d : DocumentDiff)
    → if_valid o r ≡ built d
    → (o ≡ none) × (r ≡ built d)
valid none r d h = (refl, h)
valid (some e) r d h = absurd (cc h)

validate-table_size :
    (before after : Bytes)
    → validate_document_diff_size before after ≡ none
    → table_size (fill_table (split_lines_keep_end before) (split_lines_keep_end after))
      ≤ max_table_size
validate-table_size before after h =
    let (product, olds, news) = validate-within_limits before after h in
    rw (table_size-fill_table, ← count_diff_lines-split before, ← count_diff_lines-split after)
      (omega arith)

full_diff-IsSent :
    (id : String) (from_id to_id : ℕ) (before after : Bytes)
    → before ≢ after
    → validate_document_diff_size before after ≡ none
    → ltb max_diff_response_bytes (response_bytes before after) ≡ false
    → IsSent before after (full_diff id from_id to_id before after)
full_diff-IsSent id from_id to_id before after differ v h = record {
  bytes = unfold response_bytes in ground (arith, h);
  holds =
      changed differ refl refl (diff_text_by_line-sides before after).0
        (diff_text_by_line-sides before after).1 (validate-table_size before after v);
}

-- A diff that is built has at most 1 MiB. For equal texts it is empty; for different ones it names
-- both, its equal and deleted hunks are the text before and its equal and inserted hunks the text
-- after, and the table that it is computed with has at most 2,040,001 entries.
pub build_document_diff-IsSent :
    (id : String) (from_id to_id : ℕ) (before after : Bytes) (d : DocumentDiff)
    → build_document_diff id from_id to_id before after ≡ built d
    → IsSent before after d
unfolding build_document_diff
build_document_diff-IsSent id from_id to_id before after d h = elim (Bool-cases (before == after)) [
  | inl same ↦
      let e : empty_document_diff id from_id to_id ≡ d = cc (rw same at h) in
      subst (λ (t : DocumentDiff). IsSent before after t) e
        (empty_document_diff-IsSent id from_id to_id before after
          ((same_text_iff before after).0 same))
  | inr other ↦
      let v = valid (validate_document_diff_size before after) _ d (rw other at h) in
      let g1 =
        past_guard (ltb max_diff_response_bytes (length before + length after))
          (refused content_too_large) _ (v.1) (λ q. cc q) in
      let g2 =
        past_guard (ltb max_diff_response_bytes (response_bytes before after))
          (refused response_too_large) _ (g1.1) (λ q. cc q) in
      let e : full_diff id from_id to_id before after ≡ d = cc (g2.1) in
      subst (λ (t : DocumentDiff). IsSent before after t) e
        (full_diff-IsSent id from_id to_id before after
          (λ q. cc (other, (same_text_iff before after).1 q)) (v.0) (g2.0))
]
