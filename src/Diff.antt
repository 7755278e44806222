-- ===== src/Diff.antt =====
-- daemon/internal/syncer/text_diff.go: the edits that take the text of a document to the text of
-- its local file, and their use in service.go. A valid UTF-8 string is the list of its runes, and
-- `none` stands for one that is not valid. The diff library is a parameter.
pub mod Texts
pub mod Edits
pub mod Interior
pub mod Collapse
pub mod Freshen
pub mod Correct
mod Tests
use codesk.Common.{
  ℕ, zero, suc, ◌+◌, ◌≡◌, Bool, true, false, ◌||◌, ◌&&◌, Option, none, some, List, [], ◌∷◌, ◌++◌,
  ltb, eqb, not, if◌then◌else◌, max, is_empty, drop, length,
}
use mathlib.Core.List.{reverse}
use codesk.Diff.Texts.{Text, utf16_length, has_nul, DiffKind, delete, insert, equal, Diff}

pub record DiffMatchPatch : Type 0 where
  pub diff_main : Text → Text → List Diff
  pub diff_cleanup_merge : List Diff → List Diff

pub data EditKind : Type 0 where
  insert_edit delete_edit : EditKind

pub record LocalTextEdit : Type 0 where
  pub kind : EditKind
  pub text : Text
  pub start : ℕ
  pub length : ℕ

-- The loop of `maxAdjacentEditLen` over the diffs on one side, the nearest first.
unfoldable pub adjacent_loop : List Diff → ℕ → ℕ → ℕ
adjacent_loop [] del ins = max del ins
adjacent_loop (d ∷ ds) del ins = elim d.kind [
  | delete ↦ adjacent_loop ds (del + utf16_length d.text) ins
  | insert ↦ adjacent_loop ds del (ins + utf16_length d.text)
  | equal ↦ max del ins
]

unfoldable pub max_adjacent_edit_len : List Diff → ℕ
unfolding adjacent_loop
max_adjacent_edit_len side = adjacent_loop side 0 0

-- Whether a pass leaves the equality `d` alone: `before` are the diffs in front of it, the nearest
-- first, and `after` those behind it.
unfoldable pub is_kept : List Diff → Diff → List Diff → Bool
unfolding max_adjacent_edit_len
is_kept before d after =
    let left_max = max_adjacent_edit_len before in
    let right_max = max_adjacent_edit_len after in
    let eq_len = utf16_length d.text in
    eqb left_max 0 || eqb right_max 0 || ltb left_max eq_len || ltb right_max eq_len

-- One pass of `collapseCoincidentalReuse`: the diffs that it writes, and whether it folded any.
unfoldable pub fold_pass : List Diff → List Diff → List Diff × Bool
unfolding is_kept
fold_pass before [] = ([], false)
fold_pass before (d ∷ ds) =
    let (out, folded) = fold_pass (d ∷ before) ds in
    elim d.kind [
      | delete ↦ (d ∷ out, folded)
      | insert ↦ (d ∷ out, folded)
      | equal ↦ if is_kept before d ds then (d ∷ out, folded) else (
        record { kind = delete; text = d.text } ∷ record { kind = insert; text = d.text } ∷ out,
        true,
      )
    ]

-- The loop around the passes, on fuel: `none` says that the fuel ran out.
unfoldable pub collapse_loop : DiffMatchPatch → ℕ → List Diff → Option (List Diff)
unfolding fold_pass
collapse_loop dmp zero diffs = none
collapse_loop dmp (suc fuel) diffs =
    let (out, folded) = fold_pass [] diffs in
    let merged = dmp.diff_cleanup_merge out in
    let rest = collapse_loop dmp fuel merged in if folded then rest else some merged

unfoldable pub collapse_coincidental_reuse : DiffMatchPatch → ℕ → List Diff → Option (List Diff)
unfolding collapse_loop
collapse_coincidental_reuse dmp fuel diffs = collapse_loop dmp fuel (dmp.diff_cleanup_merge diffs)

-- `"\r\n"` or `"\n"` at the start of a text, or nothing.
unfoldable pub leading_line_delimiter : Text → Text
leading_line_delimiter [] = []
leading_line_delimiter (c ∷ []) = if eqb c 0x0a then 0x0a ∷ [] else []
leading_line_delimiter (c ∷ b ∷ s) =
    if eqb c 0x0d && eqb b 0x0a then 0x0d ∷ 0x0a ∷ [] else if eqb c 0x0a then 0x0a ∷ [] else []

ends_in_newline : Text → Bool
ends_in_newline [] = false
ends_in_newline (c ∷ []) = eqb c 0x0a
ends_in_newline (c ∷ b ∷ s) = ends_in_newline (b ∷ s)

abbrev pub is_equality : Diff → Bool
is_equality d = elim d.kind [ equal ↦ true | _ ↦ false ]

-- Back over the change group to the equality before it, or to the start of the document.
group_start : List Diff → Bool
group_start [] = true
group_start (d ∷ before) = if is_equality d then ends_in_newline d.text else group_start before

-- `before` are the diffs in front of `diffs[i]`, the nearest first.
unfoldable pub terminates_fully_rewritten_line : List Diff → Bool
unfolding group_start ends_in_newline
terminates_fully_rewritten_line [] = false
terminates_fully_rewritten_line (d ∷ before) =
    if is_equality d then false else group_start (d ∷ before)

-- Takes the change group off the end of what was written; `out` is held back to front.
unfoldable pub pop_group : List Diff → Text → Text → Text × Text × List Diff
pop_group [] del_text ins_text = (del_text, ins_text, [])
pop_group (op ∷ out) del_text ins_text = elim op.kind [
  | delete ↦ pop_group out (op.text ++ del_text) ins_text
  | insert ↦ pop_group out del_text (op.text ++ ins_text)
  | equal ↦ (del_text, ins_text, op ∷ out)
]

abbrev pub diff_of : DiffKind → Text → Diff
diff_of kind text = record { kind = kind; text = text }

-- The body of the loop for an equality whose delimiter ends a rewritten line.
unfoldable pub freshen_delimiter : Diff → List Diff → List Diff
unfolding pop_group leading_line_delimiter
freshen_delimiter d out =
    let delim = leading_line_delimiter d.text in
    let (del_text, ins_text, kept) = pop_group out [] [] in
    let fresh = diff_of insert (ins_text ++ delim) ∷ diff_of delete (del_text ++ delim) ∷ kept in
    let rest = drop (length delim) d.text in
    if is_empty rest then fresh else diff_of equal rest ∷ fresh

unfoldable pub freshen_loop : List Diff → List Diff → List Diff → List Diff
unfolding freshen_delimiter terminates_fully_rewritten_line
freshen_loop before [] out = reverse out
freshen_loop before (d ∷ ds) out = freshen_loop (d ∷ before) ds (
    if is_equality d
      && (not (is_empty (leading_line_delimiter d.text)) && terminates_fully_rewritten_line before)
    then freshen_delimiter d out
    else d ∷ out)

unfoldable pub freshen_replaced_line_delimiters : List Diff → List Diff
unfolding freshen_loop
freshen_replaced_line_delimiters diffs = freshen_loop [] diffs []

abbrev edit_of : EditKind → Text → ℕ → LocalTextEdit
edit_of kind text cursor = record {
  kind = kind;
  text = text;
  start = cursor;
  length = utf16_length text;
}

-- The loop of `computeLocalTextEdits`.
unfoldable pub edits_loop : List Diff → ℕ → List LocalTextEdit
edits_loop [] cursor = []
edits_loop (d ∷ ds) cursor = elim d.kind [
  | equal ↦ edits_loop ds (cursor + utf16_length d.text)
  | delete ↦
      let rest = edits_loop ds cursor in
      if ltb 0 (utf16_length d.text) then edit_of delete_edit d.text cursor ∷ rest else rest
  | insert ↦
      let skipped = edits_loop ds cursor in
      let rest = edits_loop ds (cursor + utf16_length d.text) in
      if is_empty d.text then skipped else edit_of insert_edit d.text cursor ∷ rest
]

pub data Unsupported : Type 0 where
  base_not_utf8 local_not_utf8 base_has_nul local_has_nul : Unsupported

-- `stuck` is no value of the program: the fuel of the collapsing loop ran out.
pub data EditsResult : Type 0 where
  edits : List LocalTextEdit → EditsResult
  unsupported : Unsupported → EditsResult
  stuck : EditsResult

module _ (dmp : DiffMatchPatch) (fuel : ℕ) where
  -- What `computeLocalTextEdits` does with two valid texts.
  unfoldable pub diff_edits : Text → Text → EditsResult
  diff_edits base_content local_content =
      elim (collapse_coincidental_reuse dmp fuel (dmp.diff_main base_content local_content)) [
        | none ↦ stuck
        | some diffs ↦ edits (edits_loop (freshen_replaced_line_delimiters diffs) 0)
      ]

  unfoldable pub compute_local_text_edits : Option Text → Option Text → EditsResult
  compute_local_text_edits none local_content = unsupported base_not_utf8
  compute_local_text_edits (some base_content) none = unsupported local_not_utf8
  compute_local_text_edits (some base_content) (some local_content) =
      if has_nul base_content
      then unsupported base_has_nul
      else if has_nul local_content
      then unsupported local_has_nul
      else diff_edits base_content local_content

-- The text of a document, which the CRDT library edits at offsets in UTF-16 code units.
pub record YText : Type 0 where
  pub delete_range : ℕ → ℕ → Text → Text
  pub insert_value : ℕ → Text → Text → Text

-- The loop of `buildLocalUpdateFromBase` in service.go over the edits.
unfoldable pub apply_edits : YText → List LocalTextEdit → Text → Text
apply_edits y [] content = content
apply_edits y (e ∷ es) content = apply_edits y es (elim e.kind [
  | delete_edit ↦ if ltb 0 e.length then y.delete_range e.start e.length content else content
  | insert_edit ↦ if is_empty e.text then content else y.insert_value e.start e.text content
])
