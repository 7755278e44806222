-- ===== src/Diff/Collapse.antt =====
-- `collapseCoincidentalReuse`: it ends, and it changes neither of the two texts.
use codesk.Common.{
  ℕ, zero, suc, ◌≤◌, ◌<◌, ◌≡◌, refl, ap, ◌∙◌, inl, inr, some, List, [], ◌∷◌, ◌++◌, arith,
  Bool-cases, Option,
}
use codesk.Diff.{
  DiffMatchPatch, is_kept, fold_pass, collapse_loop, collapse_coincidental_reuse, diff_of,
}
use codesk.Diff.Texts.{Text, DiffKind, delete, insert, equal, Diff, old_text, new_text}
use codesk.Diff.Interior.{interior, one_if, fold_pass-interior}

-- What is used of the diff library: a diff of two texts has them for its two texts; the structural
-- merge keeps both, and makes no new interior equality.
pub record IsDiffMatchPatch (dmp : DiffMatchPatch) : Type 0 where
  pub diff_old : (a b : Text) → old_text (dmp.diff_main a b) ≡ a
  pub diff_new : (a b : Text) → new_text (dmp.diff_main a b) ≡ b
  pub merge_old : (ds : List Diff) → old_text (dmp.diff_cleanup_merge ds) ≡ old_text ds
  pub merge_new : (ds : List Diff) → new_text (dmp.diff_cleanup_merge ds) ≡ new_text ds
  pub merge_interior : (ds : List Diff) → interior 0 (dmp.diff_cleanup_merge ds) ≤ interior 0 ds

fold_step_texts :
    (k : DiffKind) (t : Text) (before ds : List Diff)
    → let d = diff_of k t in
      (old_text (fold_pass (d ∷ before) ds).0 ≡ old_text ds)
        × (new_text (fold_pass (d ∷ before) ds).0 ≡ new_text ds)
      → (old_text (fold_pass before (d ∷ ds)).0 ≡ old_text (d ∷ ds))
        × (new_text (fold_pass before (d ∷ ds)).0 ≡ new_text (d ∷ ds))
unfolding fold_pass old_text new_text
fold_step_texts delete t before ds ih = (ap (λ s. t ++ s) ih.0, ih.1)
fold_step_texts insert t before ds ih = (ih.0, ap (λ s. t ++ s) ih.1)
fold_step_texts equal t before ds ih = elim (Bool-cases (is_kept before (diff_of equal t) ds)) [
  | inl kept ↦ rw kept (ap (λ s. t ++ s) ih.0, ap (λ s. t ++ s) ih.1)
  | inr dropped ↦ rw dropped (ap (λ s. t ++ s) ih.0, ap (λ s. t ++ s) ih.1)
]

fold_pass_texts :
    (before ds : List Diff)
    → (old_text (fold_pass before ds).0 ≡ old_text ds)
      × (new_text (fold_pass before ds).0 ≡ new_text ds)
fold_pass_texts before [] = unfold fold_pass in (refl, refl)
fold_pass_texts before (d ∷ ds) =
    fold_step_texts d.kind d.text before ds (fold_pass_texts (d ∷ before) ds)

module _ (dmp : DiffMatchPatch) (laws : IsDiffMatchPatch dmp) where
  -- The loop ended with diffs of the same two texts.
  abbrev Collapsed : Option (List Diff) → List Diff → Type 0
  Collapsed r ds =
      (out : List Diff) × (r ≡ some out)
      × (old_text out ≡ old_text ds)
      × (new_text out ≡ new_text ds)

  collapse_loop-Collapsed :
      (fuel : ℕ) (ds : List Diff) → interior 0 ds < fuel → Collapsed (collapse_loop dmp fuel ds) ds
  unfolding collapse_loop
  collapse_loop-Collapsed zero ds h = absurd (omega arith)
  collapse_loop-Collapsed (suc fuel) ds h =
      let out = (fold_pass [] ds).0 in
      let merged = dmp.diff_cleanup_merge out in
      let old_kept : old_text merged ≡ old_text ds =
        laws.merge_old out ∙ (fold_pass_texts [] ds).0 in
      let new_kept : new_text merged ≡ new_text ds =
        laws.merge_new out ∙ (fold_pass_texts [] ds).1 in
      elim (Bool-cases (fold_pass [] ds).1) [
        | inl folded ↦
            let fewer : interior 0 merged < fuel =
              omega (arith, laws.merge_interior out, fold_pass-interior ds, ap one_if folded) in
            let (r, e, o, n) = collapse_loop-Collapsed fuel merged fewer in
            (r, rw folded e, o ∙ old_kept, n ∙ new_kept)
        | inr finished ↦ (merged, rw finished, old_kept, new_kept)
      ]

  -- With the laws of the diff library, and more fuel than there are interior equalities, the
  -- collapsing loop ends, with diffs of the same two texts.
  pub collapse_texts :
      (fuel : ℕ) (ds : List Diff)
      → interior 0 (dmp.diff_cleanup_merge ds) < fuel
      → Collapsed (collapse_coincidental_reuse dmp fuel ds) ds
  unfolding collapse_coincidental_reuse
  collapse_texts fuel ds h =
      let (out, e, o, n) = collapse_loop-Collapsed fuel (dmp.diff_cleanup_merge ds) h in
      (out, e, o ∙ laws.merge_old ds, n ∙ laws.merge_new ds)
