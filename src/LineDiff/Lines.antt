-- ===== src/LineDiff/Lines.antt =====
-- The lines of a text: put together they are the text, and their number is `countDiffLines`.
use codesk.Common.{
  ℕ, ◌+◌, ◌≡◌, refl, ap, sym, ◌∙◌, true, false, List, [], ◌∷◌, ◌++◌, arith, eqb, length, is_empty,
  inl, inr, Bool-cases, append-nil,
}
use codesk.LineDiff.{
  Bytes, put_first, split_after, without_empty_last, split_lines_keep_end, newlines, ends_line,
  count_diff_lines,
}

unfoldable pub joined : List Bytes → Bytes
joined [] = []
joined (x ∷ xs) = x ++ joined xs

joined-put_first : (c : ℕ) (xs : List Bytes) → joined (put_first c xs) ≡ c ∷ joined xs
unfolding joined
joined-put_first c [] = refl
joined-put_first c (x ∷ xs) = refl

joined-split_after : (s : Bytes) → joined (split_after s) ≡ s
unfolding split_after
joined-split_after [] = unfold joined in refl
joined-split_after (c ∷ s) = elim (Bool-cases (eqb c 10)) [
  | inl e ↦ rw e (unfold_first (joined-split_after s))
  | inr e ↦ rw (e, joined-put_first c (split_after s), joined-split_after s) refl
]
  where
    unfold_first : joined (split_after s) ≡ s → joined ((c ∷ []) ∷ split_after s) ≡ c ∷ s
    unfold_first h = unfold joined in rw h refl

joined-without : (xs : List Bytes) → joined (without_empty_last xs) ≡ joined xs
unfolding joined without_empty_last
joined-without [] = refl
joined-without ([] ∷ []) = refl
joined-without ((c ∷ x) ∷ []) = refl
joined-without (x ∷ y ∷ xs) = ap (λ l. x ++ l) (joined-without (y ∷ xs))

pub joined-split_lines : (s : Bytes) → joined (split_lines_keep_end s) ≡ s
unfolding split_lines_keep_end
joined-split_lines [] = unfold joined in refl
joined-split_lines (c ∷ s) = joined-without (split_after (c ∷ s)) ∙ joined-split_after (c ∷ s)

-- A line with its end.
pub record IsEnded (x : Bytes) : Type 0 where
  pub ends : ends_line x ≡ true
  pub one : newlines x ≡ 1

-- Lines, of which the last one may have no end.
abbrev pub IsLines : List Bytes → Type 0
IsLines [] = Unit
IsLines (x ∷ []) = count_diff_lines x ≡ 1
IsLines (x ∷ y ∷ xs) = IsEnded x × IsLines (y ∷ xs)

abbrev IsSplit : List Bytes → Type 0
IsSplit [] = ⊥
IsSplit (x ∷ []) = newlines x ≡ 0
IsSplit (x ∷ y ∷ xs) = IsEnded x × IsSplit (y ∷ xs)

cons-IsEnded : (c : ℕ) (x : Bytes) → eqb c 10 ≡ false → IsEnded x → IsEnded (c ∷ x)
unfolding ends_line newlines
cons-IsEnded c [] e h = absurd (cc h.ends)
cons-IsEnded c (d ∷ x) e h = record { ends = h.ends; one = rw e h.one }

put_first-IsSplit :
    (c : ℕ) (xs : List Bytes) → eqb c 10 ≡ false → IsSplit xs → IsSplit (put_first c xs)
put_first-IsSplit c [] e h = absurd h
put_first-IsSplit c (x ∷ []) e h = unfold newlines in rw e h
put_first-IsSplit c (x ∷ y ∷ xs) e (ended, h) = (cons-IsEnded c x e ended, h)

end-IsSplit : (c : ℕ) (xs : List Bytes) → eqb c 10 ≡ true → IsSplit xs → IsSplit ((c ∷ []) ∷ xs)
end-IsSplit c [] e h = absurd h
end-IsSplit c (x ∷ xs) e h =
    (record { ends = unfold ends_line in e; one = unfold newlines in rw e refl }, h)

split_after-IsSplit : (s : Bytes) → IsSplit (split_after s)
unfolding split_after
split_after-IsSplit [] = unfold newlines in refl
split_after-IsSplit (c ∷ s) = elim (Bool-cases (eqb c 10)) [
  | inl e ↦ rw e (end-IsSplit c (split_after s) e (split_after-IsSplit s))
  | inr e ↦ rw e (put_first-IsSplit c (split_after s) e (split_after-IsSplit s))
]

no_newline : (x : Bytes) → newlines x ≡ 0 → ends_line x ≡ false
unfolding newlines ends_line
no_newline [] h = refl
no_newline (c ∷ []) h = ground (arith, h)
no_newline (c ∷ d ∷ x) h = no_newline (d ∷ x) (ground (arith, h))

unended-one : (x : Bytes) → is_empty x ≡ false → newlines x ≡ 0 → count_diff_lines x ≡ 1
unfolding count_diff_lines
unended-one x some_byte h = rw (some_byte, no_newline x h, h) refl

pub ended-one : (x : Bytes) → IsEnded x → count_diff_lines x ≡ 1
unfolding count_diff_lines
ended-one [] h = absurd (unfold ends_line in cc h.ends)
ended-one (c ∷ x) h = rw (h.ends, h.one) refl

without-IsLines : (xs : List Bytes) → IsSplit xs → IsLines (without_empty_last xs)
unfolding without_empty_last
without-IsLines [] h = absurd h
without-IsLines ([] ∷ []) h = tt
without-IsLines ((c ∷ x) ∷ []) h = unended-one (c ∷ x) refl h
without-IsLines (x ∷ y ∷ []) (ended, h) = elim (Bool-cases (is_empty y)) [
  | inl e ↦ rw e (ended-one x ended)
  | inr e ↦ rw e (ended, unended-one y e h)
]
without-IsLines (x ∷ y ∷ z ∷ xs) (ended, h) = (ended, without-IsLines (y ∷ z ∷ xs) h)

pub IsLines-split : (s : Bytes) → IsLines (split_lines_keep_end s)
unfolding split_lines_keep_end
IsLines-split [] = tt
IsLines-split (c ∷ s) = without-IsLines (split_after (c ∷ s)) (split_after-IsSplit (c ∷ s))

-- Lines that are put together are counted apart.
newlines-append : (x y : Bytes) → newlines (x ++ y) ≡ newlines x + newlines y
unfolding newlines
newlines-append [] y = omega arith
newlines-append (c ∷ x) y = ground (arith, newlines-append x y)

pub ends_line-append : (x y : Bytes) → is_empty y ≡ false → ends_line (x ++ y) ≡ ends_line y
unfolding ends_line
ends_line-append [] y h = refl
ends_line-append (c ∷ []) [] h = absurd (cc h)
ends_line-append (c ∷ []) (d ∷ y) h = refl
ends_line-append (c ∷ d ∷ x) y h = ends_line-append (d ∷ x) y h

pub count-ended :
    (x y : Bytes)
    → ends_line x ≡ true
    → count_diff_lines (x ++ y) ≡ count_diff_lines x + count_diff_lines y
unfolding count_diff_lines
count-ended [] y h = absurd (unfold ends_line in cc h)
count-ended (c ∷ x) [] h = rw (append-nil (c ∷ x)) (omega arith)
count-ended (c ∷ x) (d ∷ y) h =
    rw (ends_line-append (c ∷ x) (d ∷ y) refl, newlines-append (c ∷ x) (d ∷ y), h)
      (elim (Bool-cases (ends_line (d ∷ y))) [ inl e ↦ rw e refl | inr e ↦ rw e (omega arith) ])

count-joined : (xs : List Bytes) → IsLines xs → count_diff_lines (joined xs) ≡ length xs
unfolding joined
count-joined [] h = unfold count_diff_lines in refl
count-joined (x ∷ []) h = rw (append-nil x) h
count-joined (x ∷ y ∷ xs) (ended, h) =
    rw (count-ended x (joined (y ∷ xs)) ended.ends, ended-one x ended, count-joined (y ∷ xs) h)
      (omega arith)

-- `countDiffLines` counts the lines that `splitLinesKeepEnd` gives.
pub count_diff_lines-split : (s : Bytes) → count_diff_lines s ≡ length (split_lines_keep_end s)
count_diff_lines-split s =
    ap count_diff_lines (sym (joined-split_lines s))
    ∙ count-joined (split_lines_keep_end s) (IsLines-split s)
