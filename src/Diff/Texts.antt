-- ===== src/Diff/Texts.antt =====
-- Texts, their length in UTF-16 code units, and the two texts that a list of diffs stands for.
use codesk.Common.{
  ℕ, ◌+◌, ◌≡◌, refl, Bool, false, ◌||◌, List, [], ◌∷◌, ◌++◌, append_assoc, arith, ltb, eqb,
  if◌then◌else◌,
}

-- Runes.
abbrev pub Text : Type 0
Text = List ℕ

-- A rune above the basic plane takes a surrogate pair.
abbrev pub rune_utf16_length : ℕ → ℕ
rune_utf16_length r = if ltb r 0x10000 then 1 else 2

unfoldable pub utf16_length : Text → ℕ
utf16_length [] = 0
utf16_length (r ∷ s) = rune_utf16_length r + utf16_length s

unfoldable pub has_nul : Text → Bool
has_nul [] = false
has_nul (r ∷ s) = eqb r 0 || has_nul s

pub data DiffKind : Type 0 where
  delete insert equal : DiffKind

pub record Diff : Type 0 where
  pub kind : DiffKind
  pub text : Text

-- What a diff says of the text before and of the text after it.
abbrev pub old_part : Diff → Text
old_part d = elim d.kind [ delete ↦ d.text | insert ↦ [] | equal ↦ d.text ]

abbrev pub new_part : Diff → Text
new_part d = elim d.kind [ delete ↦ [] | insert ↦ d.text | equal ↦ d.text ]

unfoldable pub old_text : List Diff → Text
old_text [] = []
old_text (d ∷ ds) = old_part d ++ old_text ds

unfoldable pub new_text : List Diff → Text
new_text [] = []
new_text (d ∷ ds) = new_part d ++ new_text ds

pub old_text-append : (xs ys : List Diff) → old_text (xs ++ ys) ≡ old_text xs ++ old_text ys
unfolding old_text
old_text-append [] ys = refl
old_text-append (d ∷ xs) ys = simp (old_text-append xs ys, append_assoc)

pub new_text-append : (xs ys : List Diff) → new_text (xs ++ ys) ≡ new_text xs ++ new_text ys
unfolding new_text
new_text-append [] ys = refl
new_text-append (d ∷ xs) ys = simp (new_text-append xs ys, append_assoc)

pub utf16_length-append : (a b : Text) → utf16_length (a ++ b) ≡ utf16_length a + utf16_length b
unfolding utf16_length
utf16_length-append [] b = omega arith
utf16_length-append (r ∷ a) b = ground (arith, utf16_length-append a b)
