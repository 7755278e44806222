-- ===== src/Diff/Interior.antt =====
-- Interior equalities: those with an edit on both sides. A pass that folds any leaves fewer of
-- them, which is the measure of the collapsing loop.
use codesk.Common.{
  ℕ, ◌+◌, ◌*◌, ◌≤◌, ◌<◌, ◌≡◌, refl, Bool, true, false, inl, inr, List, [], ◌∷◌, arith, ltb,
  Bool-cases, if◌then◌else◌, ◌&&◌, ◌⊎◌,
}
use codesk.Diff.{adjacent_loop, max_adjacent_edit_len, is_kept, fold_pass, diff_of, is_equality}
use codesk.Diff.Texts.{Text, utf16_length, DiffKind, delete, insert, equal, Diff}

-- The units of the edits up to the next equality.
unfoldable pub run : List Diff → ℕ
run [] = 0
run (d ∷ ds) = if is_equality d then 0 else utf16_length d.text + run ds

abbrev pub one_if : Bool → ℕ
one_if true = 1
one_if false = 0

-- The equalities in `ds` with edits on both sides; `acc` units of edits stand in front of `ds`.
unfoldable pub interior : ℕ → List Diff → ℕ
interior acc [] = 0
interior acc (d ∷ ds) =
    if is_equality d
    then one_if (ltb 0 acc && ltb 0 (run ds)) + interior 0 ds
    else interior (acc + utf16_length d.text) ds

adjacent_loop-bounds :
    (ds : List Diff) (del ins : ℕ)
    → (adjacent_loop ds del ins ≤ run ds + del + ins)
      × (run ds + del + ins ≤ 2 * adjacent_loop ds del ins)
unfolding adjacent_loop run
adjacent_loop-bounds [] del ins = omega arith
adjacent_loop-bounds (d ∷ ds) del ins = ground (
  arith,
  adjacent_loop-bounds ds (del + utf16_length d.text) ins,
  adjacent_loop-bounds ds del (ins + utf16_length d.text),
)

-- A side has no edit exactly if its run has no unit.
max_adjacent-zero :
    (ds : List Diff) → (max_adjacent_edit_len ds ≤ run ds) × (run ds ≤ 2 * max_adjacent_edit_len ds)
unfolding max_adjacent_edit_len
max_adjacent-zero ds = omega (arith, adjacent_loop-bounds ds 0 0)

-- What a pass folds has edits on both sides.
folded_has_edits :
    (before ds : List Diff) (d : Diff)
    → is_kept before d ds ≡ false
    → (0 < run before) × (0 < run ds)
unfolding is_kept
folded_has_edits before ds d h = ground (arith, max_adjacent-zero before, max_adjacent-zero ds)

-- Where no edit stands in front of an equality, a pass leaves the run behind it as it is empty.
run-fold_pass : (before ds : List Diff) → run before + run ds ≡ 0 → run (fold_pass before ds).0 ≡ 0
unfolding run fold_pass
run-fold_pass before [] h = refl
run-fold_pass before (d ∷ ds) h =
    ground (arith, folded_has_edits before ds d, run-fold_pass (d ∷ before) ds)

-- The accounts of a pass: `acc` units stand in front of `ds` in what was written, at least as many
-- as in `before`, and some only where `before` or `ds` has some.
abbrev Accounts : List Diff → List Diff → ℕ → Type 0
Accounts before ds acc =
    run before ≤ acc
    → (0 < run before + run ds) ⊎ (acc ≡ 0)
    → interior acc (fold_pass before ds).0 + one_if (fold_pass before ds).1
      ≤ interior (run before) ds

interior_edit :
    (k : DiffKind) (t : Text) (before ds : List Diff) (acc : ℕ)
    → is_equality (diff_of k t) ≡ false
    → Accounts (diff_of k t ∷ before) ds (acc + utf16_length t)
    → Accounts before (diff_of k t ∷ ds) acc
unfolding run fold_pass interior
interior_edit equal t before ds acc e ih low high = absurd (cc)
interior_edit delete t before ds acc e ih low high = ground arith
interior_edit insert t before ds acc e ih low high = ground arith

interior_equal :
    (t : Text) (before ds : List Diff) (acc : ℕ)
    → ((n : ℕ) → Accounts (diff_of equal t ∷ before) ds n)
    → Accounts before (diff_of equal t ∷ ds) acc
interior_equal t before ds acc ih low high =
    let d = diff_of equal t in
    elim (Bool-cases (is_kept before d ds)) [
      | inl kept ↦
          unfold run fold_pass interior in ground (arith, ih 0, run-fold_pass (d ∷ before) ds)
      | inr dropped ↦
          unfold run fold_pass interior in
          ground (
            arith,
            ih (acc + utf16_length t + utf16_length t),
            folded_has_edits before ds d dropped,
          )
    ]

interior_step :
    (k : DiffKind) (t : Text) (before ds : List Diff) (acc : ℕ)
    → ((n : ℕ) → Accounts (diff_of k t ∷ before) ds n)
    → Accounts before (diff_of k t ∷ ds) acc
interior_step equal t before ds acc ih = interior_equal t before ds acc ih
interior_step delete t before ds acc ih =
    interior_edit delete t before ds acc refl (ih (acc + utf16_length t))
interior_step insert t before ds acc ih =
    interior_edit insert t before ds acc refl (ih (acc + utf16_length t))

interior-fold_pass : (before ds : List Diff) (acc : ℕ) → Accounts before ds acc
interior-fold_pass before [] acc low high = unfold fold_pass interior in omega arith
interior-fold_pass before (d ∷ ds) acc low high =
    interior_step d.kind d.text before ds acc (interior-fold_pass (d ∷ before) ds) low high

-- A pass over a whole list of diffs leaves no more interior equalities than it found, and fewer if
-- it folded one.
pub fold_pass-interior :
    (ds : List Diff) → interior 0 (fold_pass [] ds).0 + one_if (fold_pass [] ds).1 ≤ interior 0 ds
unfolding run
fold_pass-interior ds = interior-fold_pass [] ds 0 (omega arith) (inr refl)
