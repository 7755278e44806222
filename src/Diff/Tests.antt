-- ===== src/Diff/Tests.antt =====
-- The local edits of a concrete pair of texts, with a diff that shares the common front.
use codesk.Common.{
  ℕ, ◌+◌, ◌-◌, ◌<◌, ◌≡◌, refl, true, false, some, List, [], ◌∷◌, ◌++◌, arith, eqb, append-nil,
  if◌then◌else◌,
}
use codesk.Diff.{
  DiffMatchPatch, YText, LocalTextEdit, edits, compute_local_text_edits, apply_edits, diff_of,
  fold_pass,
}
use codesk.Diff.Texts.{
  Text, rune_utf16_length, utf16_length, has_nul, Diff, delete, insert, equal, old_text, new_text,
}
use codesk.Diff.Edits.{IsYText}
use codesk.Diff.Interior.{interior, run}
use codesk.Diff.Collapse.{IsDiffMatchPatch}
use codesk.Diff.Correct.{compute_local_text_edits_correct}

-- The common front rune by rune, then one deletion and one insertion.
diff_front : Text → Text → List Diff
diff_front [] b = diff_of insert b ∷ []
diff_front (x ∷ a) [] = diff_of delete (x ∷ a) ∷ []
diff_front (x ∷ a) (y ∷ b) =
    if eqb x y
    then diff_of equal (x ∷ []) ∷ diff_front a b
    else diff_of delete (x ∷ a) ∷ diff_of insert (y ∷ b) ∷ []

diff_front_texts : (a b : Text) → (old_text (diff_front a b) ≡ a) × (new_text (diff_front a b) ≡ b)
unfolding diff_front old_text new_text
diff_front_texts [] b = (refl, append-nil b)
diff_front_texts (x ∷ a) [] = (append-nil (x ∷ a), refl)
diff_front_texts (x ∷ a) (y ∷ b) =
    ground (arith, diff_front_texts a b, append-nil (x ∷ a), append-nil (y ∷ b))

abbrev front_diff : DiffMatchPatch
front_diff = record { diff_main = diff_front; diff_cleanup_merge = λ ds. ds }

front_diff-IsDiffMatchPatch : IsDiffMatchPatch front_diff
front_diff-IsDiffMatchPatch = record {
  diff_old = λ a b. (diff_front_texts a b).0;
  diff_new = λ a b. (diff_front_texts a b).1;
  merge_old = λ ds. refl;
  merge_new = λ ds. refl;
  merge_interior = λ ds. omega arith;
}

-- Offsets in UTF-16 code units.
take_units : ℕ → Text → Text
take_units n [] = []
take_units n (r ∷ t) = if eqb n 0 then [] else r ∷ take_units (n - rune_utf16_length r) t

drop_units : ℕ → Text → Text
drop_units n [] = []
drop_units n (r ∷ t) = if eqb n 0 then r ∷ t else drop_units (n - rune_utf16_length r) t

take_units-zero : (b : Text) → take_units 0 b ≡ []
unfolding take_units
take_units-zero [] = refl
take_units-zero (r ∷ b) = refl

drop_units-zero : (b : Text) → drop_units 0 b ≡ b
unfolding drop_units
drop_units-zero [] = refl
drop_units-zero (r ∷ b) = refl

take_units-append : (a b : Text) → take_units (utf16_length a) (a ++ b) ≡ a
unfolding take_units utf16_length
take_units-append [] b = take_units-zero b
take_units-append (r ∷ a) b =
    let rest : rune_utf16_length r + utf16_length a - rune_utf16_length r ≡ utf16_length a =
      omega arith in
    ground (arith, take_units-append a b, rest)

drop_units-append : (a b : Text) → drop_units (utf16_length a) (a ++ b) ≡ b
unfolding drop_units utf16_length
drop_units-append [] b = drop_units-zero b
drop_units-append (r ∷ a) b =
    let rest : rune_utf16_length r + utf16_length a - rune_utf16_length r ≡ utf16_length a =
      omega arith in
    ground (arith, drop_units-append a b, rest)

abbrev plain_text : YText
plain_text = record {
  delete_range = λ start length t. take_units start t ++ drop_units length (drop_units start t);
  insert_value = λ start value t. take_units start t ++ (value ++ drop_units start t);
}

plain_text-IsYText : IsYText plain_text
plain_text-IsYText = record {
  delete_between = λ a t b. rw (take_units-append, drop_units-append, drop_units-append) refl;
  insert_between = λ a t b. rw (take_units-append, drop_units-append) refl;
}

-- "ab" and "ac", each on a line.
abbrev base : Text
base = 0x61 ∷ 0x62 ∷ 0x0a ∷ []

abbrev local : Text
local = 0x61 ∷ 0x63 ∷ 0x0a ∷ []

few_interior : interior 0 (front_diff.diff_cleanup_merge (front_diff.diff_main base local)) < 5
unfolding interior diff_front
few_interior = omega arith

base_has_no_nul : has_nul base ≡ false
unfolding has_nul
base_has_no_nul = refl

local_has_no_nul : has_nul local ≡ false
unfolding has_nul
local_has_no_nul = refl

compute_local_text_edits_correct_example :
    (es : List LocalTextEdit) × (compute_local_text_edits front_diff 5 (some base) (some local)
      ≡ edits es)
    × (apply_edits plain_text es base ≡ local)
compute_local_text_edits_correct_example =
    compute_local_text_edits_correct front_diff front_diff-IsDiffMatchPatch plain_text
      plain_text-IsYText 5 base local base_has_no_nul local_has_no_nul few_interior

-- A rewritten line around a space that happens to be kept.
abbrev reuse : List Diff
reuse =
    diff_of delete (0x61 ∷ 0x62 ∷ [])
    ∷ diff_of equal (0x20 ∷ [])
    ∷ diff_of insert (0x63 ∷ 0x64 ∷ [])
    ∷ diff_of equal (0x0a ∷ [])
    ∷ []

reuse_folds : (fold_pass [] reuse).1 ≡ true
unfolding fold_pass utf16_length
reuse_folds = refl

few_reused : interior 0 (front_diff.diff_cleanup_merge reuse) < 3
unfolding interior run utf16_length
few_reused = omega arith
