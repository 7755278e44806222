-- ===== src/LineDiff.antt =====
-- The diff of two versions of a document, `buildDocumentDiff` of backend/internal/notty/store.go: the
-- lines, the table of longest common subsequences, the walk through it, and the limits. Texts are
-- bytes; an index out of the table, where the source would panic, reads 0.
use codesk.Common.{
  ℕ, zero, suc, ◌+◌, ◌*◌, ◌^◌, Bool, true, false, not, Option, none, some, ◌&&◌, ◌||◌, List, [],
  ◌∷◌, ◌++◌, ◌==◌, String_key, if◌then◌else◌, eqb, leb, ltb, is_empty, length, drop,
}
use codesk.Paths.Texts.{PathText_key}
use Prim.Native.String.{String}
pub mod Lines
pub mod Restored
pub mod Longest
pub mod Bounds
mod Tests

-- A text or a line, as bytes.
abbrev pub Bytes : Type 0
Bytes = List ℕ

pub data HunkOp : Type 0 where
  equal delete insert : HunkOp

abbrev pub same_op : HunkOp → HunkOp → Bool
same_op equal equal = true
same_op delete delete = true
same_op insert insert = true
same_op equal delete = false
same_op equal insert = false
same_op delete equal = false
same_op delete insert = false
same_op insert equal = false
same_op insert delete = false

pub record DocumentDiffHunk : Type 0 where
  pub op : HunkOp
  pub text : Bytes

abbrev pub put_first : ℕ → List Bytes → List Bytes
put_first c [] = (c ∷ []) ∷ []
put_first c (s ∷ ss) = (c ∷ s) ∷ ss

-- `strings.SplitAfter(value, "\n")`
unfoldable pub split_after : Bytes → List Bytes
split_after [] = [] ∷ []
split_after (c ∷ s) =
    let rest = split_after s in if eqb c 10 then (c ∷ []) ∷ rest else put_first c rest

unfoldable pub without_empty_last : List Bytes → List Bytes
without_empty_last [] = []
without_empty_last (s ∷ []) = if is_empty s then [] else s ∷ []
without_empty_last (s ∷ t ∷ ss) = s ∷ without_empty_last (t ∷ ss)

unfoldable pub split_lines_keep_end : Bytes → List Bytes
split_lines_keep_end value = if is_empty value then [] else without_empty_last (split_after value)

-- strings.Count(value, "\n")
unfoldable pub newlines : Bytes → ℕ
newlines [] = 0
newlines (c ∷ s) = if eqb c 10 then suc (newlines s) else newlines s

-- strings.HasSuffix(value, "\n")
unfoldable pub ends_line : Bytes → Bool
ends_line [] = false
ends_line (c ∷ []) = eqb c 10
ends_line (c ∷ d ∷ s) = ends_line (d ∷ s)

unfoldable pub count_diff_lines : Bytes → ℕ
count_diff_lines value =
    if is_empty value then 0 else if ends_line value then newlines value else suc (newlines value)

-- The last hunk takes a text of the same kind.
unfoldable pub append_merged_hunk : List DocumentDiffHunk → HunkOp → Bytes → List DocumentDiffHunk
append_merged_hunk [] op text = record { op = op; text = text } ∷ []
append_merged_hunk (h ∷ []) op text =
    if same_op h.op op
    then record h { text = h.text ++ text } ∷ []
    else h ∷ record { op = op; text = text } ∷ []
append_merged_hunk (h ∷ g ∷ hs) op text = h ∷ append_merged_hunk (g ∷ hs) op text

unfoldable pub at : List ℕ → ℕ → ℕ
at [] n = 0
at (x ∷ xs) zero = x
at (x ∷ xs) (suc n) = at xs n

-- `dp[i]` and `dp[i][j]`
unfoldable pub row_at : List (List ℕ) → ℕ → List ℕ
row_at [] i = []
row_at (r ∷ t) zero = r
row_at (r ∷ t) (suc i) = row_at t i

abbrev pub entry : List (List ℕ) → ℕ → ℕ → ℕ
entry t i j = at (row_at t i) j

-- `dp[i][j]` from `dp[i+1][j]`, `dp[i+1][j+1]` and `dp[i][j+1]`
abbrev pub cell : Bool → ℕ → ℕ → ℕ → ℕ
cell same below diagonal right =
    if same then suc diagonal else if leb right below then below else right

-- A row of the table, from the last column to the first.
unfoldable pub fill_row : Bytes → List Bytes → List ℕ → List ℕ
fill_row x [] below = 0 ∷ []
fill_row x (y ∷ rs) below =
    let rest = fill_row x rs (drop 1 below) in
    cell (x == y) (at below 0) (at below 1) (at rest 0) ∷ rest

unfoldable pub zeros : List Bytes → List ℕ
zeros [] = 0 ∷ []
zeros (y ∷ rs) = 0 ∷ zeros rs

-- The table, from the last row to the first.
unfoldable pub fill_table : List Bytes → List Bytes → List (List ℕ)
fill_table [] rs = zeros rs ∷ []
fill_table (x ∷ ls) rs = let below = fill_table ls rs in fill_row x rs (row_at below 0) ∷ below

-- The two loops at the end.
unfoldable pub append_all : HunkOp → List Bytes → List DocumentDiffHunk → List DocumentDiffHunk
append_all op [] hunks = hunks
append_all op (x ∷ xs) hunks = append_all op xs (append_merged_hunk hunks op x)

-- The walk at `i` and `j`, with the lines from there on.
unfoldable pub walk :
    List (List ℕ) → ℕ → List Bytes → ℕ → List Bytes → List DocumentDiffHunk → List DocumentDiffHunk
walk dp i [] j rs hunks = append_all insert rs hunks
walk dp i (x ∷ ls) j [] hunks = append_all delete (x ∷ ls) hunks
walk dp i (x ∷ ls) j (y ∷ rs) hunks = elim (x == y) [
  | true ↦ walk dp (suc i) ls (suc j) rs (append_merged_hunk hunks equal x)
  | false ↦ elim (leb (entry dp i (suc j)) (entry dp (suc i) j)) [
    | true ↦ walk dp (suc i) ls j (y ∷ rs) (append_merged_hunk hunks delete x)
    | false ↦ walk dp i (x ∷ ls) (suc j) rs (append_merged_hunk hunks insert y)
  ]
]

unfoldable pub diff_text_by_line : Bytes → Bytes → List DocumentDiffHunk
diff_text_by_line before after =
    let a = split_lines_keep_end before in
    let b = split_lines_keep_end after in walk (fill_table a b) 0 a 0 b []

abbrev pub hunk_prefix : HunkOp → ℕ
hunk_prefix insert = 43
hunk_prefix delete = 45
hunk_prefix equal = 32

unfoldable pub render_lines : ℕ → List Bytes → Bytes
render_lines prefix [] = []
render_lines prefix (line ∷ lines) =
    let rest = render_lines prefix lines in
    if ends_line line then prefix ∷ line ++ rest else prefix ∷ line ++ 10 ∷ rest

unfoldable pub render_unified_diff : List DocumentDiffHunk → Bytes
render_unified_diff [] = []
render_unified_diff (h ∷ hs) =
    render_lines (hunk_prefix h.op) (split_lines_keep_end h.text) ++ render_unified_diff hs

unfoldable pub document_diff_hunk_text_bytes : List DocumentDiffHunk → ℕ
document_diff_hunk_text_bytes [] = 0
document_diff_hunk_text_bytes (h ∷ hs) = length h.text + document_diff_hunk_text_bytes hs

abbrev pub max_diff_input_bytes_per_side : ℕ
max_diff_input_bytes_per_side = 2 * 1024 * 1024

abbrev pub max_diff_lines_per_side : ℕ
max_diff_lines_per_side = 20000

abbrev pub max_diff_line_product : ℕ
max_diff_line_product = 2000000

abbrev pub max_diff_response_bytes : ℕ
max_diff_response_bytes = 1024 * 1024

pub data DiffError : Type 0 where
  from_too_large to_too_large from_too_long to_too_long product_too_large content_too_large
        response_too_large :
      DiffError

pub record DocumentDiff : Type 0 where
  pub document_id : String
  pub from_update_id : ℕ
  pub to_update_id : ℕ
  pub from_content : Bytes
  pub to_content : Bytes
  pub unified : Bytes
  pub hunks : List DocumentDiffHunk

pub data DiffResult : Type 0 where
  built : DocumentDiff → DiffResult
  refused : DiffError → DiffResult

unfoldable pub validate_document_diff_size : Bytes → Bytes → Option DiffError
validate_document_diff_size before after =
    let before_lines = count_diff_lines before in
    let after_lines = count_diff_lines after in
    if ltb max_diff_input_bytes_per_side (length before)
    then some from_too_large
    else if ltb max_diff_input_bytes_per_side (length after)
    then some to_too_large
    else if ltb max_diff_lines_per_side before_lines
    then some from_too_long
    else if ltb max_diff_lines_per_side after_lines
    then some to_too_long
    else if ltb max_diff_line_product (before_lines * after_lines)
    then some product_too_large
    else none

abbrev pub if_valid : Option DiffError → DiffResult → DiffResult
if_valid (some e) result = refused e
if_valid none result = result

unfoldable pub empty_document_diff : String → ℕ → ℕ → DocumentDiff
empty_document_diff id from_id to_id = record {
  document_id = id;
  from_update_id = from_id;
  to_update_id = to_id;
  from_content = [];
  to_content = [];
  unified = [];
  hunks = [];
}

unfoldable pub response_bytes : Bytes → Bytes → ℕ
response_bytes before after =
    let hunks = diff_text_by_line before after in
    length before
    + length after
    + length (render_unified_diff hunks)
    + document_diff_hunk_text_bytes hunks

abbrev pub full_diff : String → ℕ → ℕ → Bytes → Bytes → DocumentDiff
full_diff id from_id to_id before after = record {
  document_id = id;
  from_update_id = from_id;
  to_update_id = to_id;
  from_content = before;
  to_content = after;
  unified = render_unified_diff (diff_text_by_line before after);
  hunks = diff_text_by_line before after;
}

unfoldable pub build_document_diff : String → ℕ → ℕ → Bytes → Bytes → DiffResult
build_document_diff id from_id to_id before after =
    if before == after
    then built (empty_document_diff id from_id to_id)
    else if_valid (validate_document_diff_size before after) (
        if ltb max_diff_response_bytes (length before + length after)
        then refused content_too_large
        else if ltb max_diff_response_bytes (response_bytes before after)
        then refused response_too_large
        else built (full_diff id from_id to_id before after))
