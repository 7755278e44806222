-- ===== src/Diff/Edits.antt =====
-- The edits computed from a list of diffs, applied one after another, turn its old text into its
-- new text. What is used of the CRDT text type: a deletion and an insertion at an offset between
-- two runes do what their names say.
use codesk.Common.{◌+◌, ◌≡◌, refl, false, List, [], ◌∷◌, ◌++◌, append_assoc, arith, ltb}
use codesk.Diff.{YText, edits_loop, apply_edits, diff_of}
use codesk.Diff.Texts.{
  Text, utf16_length, utf16_length-append, DiffKind, delete, insert, equal, Diff, old_text,
  new_text,
}

pub record IsYText (y : YText) : Type 0 where
  pub delete_between :
      (a t b : Text) → y.delete_range (utf16_length a) (utf16_length t) (a ++ (t ++ b)) ≡ a ++ b
  pub insert_between : (a t b : Text) → y.insert_value (utf16_length a) t (a ++ b) ≡ a ++ (t ++ b)

no_units : (t : Text) → ltb 0 (utf16_length t) ≡ false → t ≡ []
unfolding utf16_length
no_units [] h = refl
no_units (r ∷ t) h = ground arith

module _ (y : YText) (laws : IsYText y) where
  -- What is claimed of the diffs that are left, behind the text `done` that is finished.
  abbrev Sound : List Diff → Text → Type 0
  Sound ds done =
      apply_edits y (edits_loop ds (utf16_length done)) (done ++ old_text ds) ≡ done ++ new_text ds

  behind-Sound :
      (ds : List Diff) (done t : Text)
      → Sound ds (done ++ t)
      → apply_edits y
          (edits_loop ds (utf16_length done + utf16_length t))
          (done ++ (t ++ old_text ds))
        ≡ done ++ (t ++ new_text ds)
  behind-Sound ds done t h = rw (utf16_length-append, append_assoc, append_assoc) at h

  step-Sound :
      (k : DiffKind) (t : Text) (ds : List Diff) (done : Text)
      → ((front : Text) → Sound ds front)
      → Sound (diff_of k t ∷ ds) done
  unfolding edits_loop apply_edits old_text new_text
  step-Sound equal t ds done ih = behind-Sound ds done t (ih (done ++ t))
  step-Sound delete t ds done ih =
      ground (arith, laws.delete_between done t (old_text ds), no_units t, ih done)
  step-Sound insert [] ds done ih = ih done
  step-Sound insert (r ∷ t) ds done ih =
      rw (laws.insert_between done (r ∷ t) (old_text ds))
        (behind-Sound ds done (r ∷ t) (ih (done ++ r ∷ t)))

  edits_loop-Sound : (ds : List Diff) (done : Text) → Sound ds done
  edits_loop-Sound [] done = unfold edits_loop apply_edits old_text new_text in refl
  edits_loop-Sound (d ∷ ds) done = step-Sound d.kind d.text ds done (edits_loop-Sound ds)

  -- With the laws of the CRDT's text, from the start of the document: the edits take the old text
  -- of the diffs to their new text.
  pub apply_edits-edits_loop :
      (ds : List Diff) → apply_edits y (edits_loop ds 0) (old_text ds) ≡ new_text ds
  unfolding utf16_length
  apply_edits-edits_loop ds = edits_loop-Sound ds []
