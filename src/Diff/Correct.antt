-- ===== src/Diff/Correct.antt =====
-- `computeLocalTextEdits` as a whole.
use codesk.Common.{ℕ, ◌<◌, ◌≡◌, ◌∙◌, false, some, List}
use codesk.Diff.{
  DiffMatchPatch, YText, LocalTextEdit, edits, diff_edits, compute_local_text_edits, apply_edits,
  edits_loop, freshen_replaced_line_delimiters,
}
use codesk.Diff.Texts.{Text, has_nul, old_text, new_text}
use codesk.Diff.Edits.{IsYText, apply_edits-edits_loop}
use codesk.Diff.Interior.{interior}
use codesk.Diff.Collapse.{IsDiffMatchPatch, collapse_texts}
use codesk.Diff.Freshen.{freshen_texts}

module _ (dmp : DiffMatchPatch) (laws : IsDiffMatchPatch dmp) (y : YText)
    (text_laws : IsYText y) where
  diff_edits_correct :
      (fuel : ℕ) (base local : Text)
      → interior 0 (dmp.diff_cleanup_merge (dmp.diff_main base local)) < fuel
      → (es : List LocalTextEdit) × (diff_edits dmp fuel base local ≡ edits es)
        × (apply_edits y es base ≡ local)
  unfolding diff_edits
  diff_edits_correct fuel base local h =
      let (ds, e, o, n) = collapse_texts dmp laws fuel (dmp.diff_main base local) h in
      let fresh = freshen_replaced_line_delimiters ds in
      let (o', n') = freshen_texts ds in
      let old_eq : old_text fresh ≡ base = o' ∙ o ∙ laws.diff_old base local in
      let new_eq : new_text fresh ≡ local = n' ∙ n ∙ laws.diff_new base local in
      (
        edits_loop fresh 0,
        rw (e, diff_edits),
        rw old_eq at (apply_edits-edits_loop y text_laws fresh) ∙ new_eq,
      )

  -- With the laws of the diff library and of the CRDT's text, for two valid texts with no NUL,
  -- given more fuel than there are interior equalities, edits are computed, and applied in their
  -- order to the text of the document they give the local text.
  pub compute_local_text_edits_correct :
      (fuel : ℕ) (base local : Text)
      → has_nul base ≡ false
      → has_nul local ≡ false
      → interior 0 (dmp.diff_cleanup_merge (dmp.diff_main base local)) < fuel
      → (es : List LocalTextEdit) × (compute_local_text_edits dmp fuel (some base) (some local)
          ≡ edits es)
        × (apply_edits y es base ≡ local)
  unfolding compute_local_text_edits
  compute_local_text_edits_correct fuel base local nb nl h =
      let (es, e, applied) = diff_edits_correct fuel base local h in (es, rw (nb, nl) e, applied)
