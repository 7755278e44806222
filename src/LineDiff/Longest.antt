-- ===== src/LineDiff/Longest.antt =====
-- A diff keeps as many lines as any common subsequence of the lines has.
use codesk.Common.{
  ℕ, zero, suc, ◌+◌, ◌≤◌, max, ◌≡◌, refl, ap, sym, subst, ◌∙◌, ◌⊎◌, inl, inr, Bool, true, false,
  ◌||◌, List, [], ◌∷◌, ◌++◌, ◌==◌, arith, leb, if◌then◌else◌, Bool-cases, length, drop,
}
use codesk.Paths.Texts.{PathText_key, same_text_iff}
use codesk.LineDiff.{Bytes, at, row_at, entry, cell, fill_row, zeros, fill_table}
pub mod Kept

-- The length of a longest common subsequence.
unfoldable pub lcs : List Bytes → List Bytes → ℕ
lcs [] ys = 0
lcs (x ∷ xs) [] = 0
lcs (x ∷ xs) (y ∷ ys) = if x == y then suc (lcs xs ys) else max (lcs xs (y ∷ ys)) (lcs (x ∷ xs) ys)

-- Lines of a text, in their order, not all of them.
abbrev pub IsSubsequence : List Bytes → List Bytes → Type 0
IsSubsequence [] xs = Unit
IsSubsequence (z ∷ zs) [] = ⊥
IsSubsequence (z ∷ zs) (x ∷ xs) = ((z ≡ x) × IsSubsequence zs xs) ⊎ IsSubsequence (z ∷ zs) xs

IsSubsequence-tail :
    (z : Bytes) (zs xs : List Bytes) → IsSubsequence (z ∷ zs) xs → IsSubsequence zs xs
IsSubsequence-tail z [] xs h = tt
IsSubsequence-tail z (w ∷ zs) [] h = absurd h
IsSubsequence-tail z (w ∷ zs) (x ∷ xs) (inl (same, h)) = inr h
IsSubsequence-tail z (w ∷ zs) (x ∷ xs) (inr h) = inr (IsSubsequence-tail z (w ∷ zs) xs h)

-- After the first line of both, what is left of the subsequence.
IsSubsequence-drop :
    (z x : Bytes) (zs xs : List Bytes) → IsSubsequence (z ∷ zs) (x ∷ xs) → IsSubsequence zs xs
IsSubsequence-drop z x zs xs (inl (same, h)) = h
IsSubsequence-drop z x zs xs (inr h) = IsSubsequence-tail z zs xs h

pub length-lcs :
    (zs xs ys : List Bytes) → IsSubsequence zs xs → IsSubsequence zs ys → length zs ≤ lcs xs ys
unfolding lcs
length-lcs [] xs ys h g = omega arith
length-lcs (z ∷ zs) [] ys h g = absurd h
length-lcs (z ∷ zs) (x ∷ xs) [] h g = absurd g
length-lcs (z ∷ zs) (x ∷ xs) (y ∷ ys) h g =
    let both =
      length-lcs zs xs ys (IsSubsequence-drop z x zs xs h) (IsSubsequence-drop z y zs ys g) in
    let no_x : IsSubsequence (z ∷ zs) xs → length (z ∷ zs) ≤ lcs xs (y ∷ ys) =
      λ (k : IsSubsequence (z ∷ zs) xs). length-lcs (z ∷ zs) xs (y ∷ ys) k g in
    let no_y : IsSubsequence (z ∷ zs) ys → length (z ∷ zs) ≤ lcs (x ∷ xs) ys =
      λ (k : IsSubsequence (z ∷ zs) ys). length-lcs (z ∷ zs) (x ∷ xs) ys h k in
    elim (Bool-cases (x == y)) [
      | inl e ↦ rw e (omega (arith, both))
      | inr e ↦ rw e (apart e no_x no_y h g)
    ]
  where
    apart :
        (x == y) ≡ false
        → (IsSubsequence (z ∷ zs) xs → length (z ∷ zs) ≤ lcs xs (y ∷ ys))
        → (IsSubsequence (z ∷ zs) ys → length (z ∷ zs) ≤ lcs (x ∷ xs) ys)
        → IsSubsequence (z ∷ zs) (x ∷ xs)
        → IsSubsequence (z ∷ zs) (y ∷ ys)
        → length (z ∷ zs) ≤ max (lcs xs (y ∷ ys)) (lcs (x ∷ xs) ys)
    apart e no_x no_y (inr k) g = omega (arith, no_x k)
    apart e no_x no_y h (inr k) = omega (arith, no_y k)
    apart e no_x no_y (inl (p, k)) (inl (q, l)) = absurd (cc (e, (same_text_iff x y).1 (sym p ∙ q)))

-- The table holds these lengths.
at-drop : (xs : List ℕ) (j : ℕ) → at (drop 1 xs) j ≡ at xs (suc j)
unfolding at
at-drop [] j = refl
at-drop (x ∷ xs) j = refl

at-zeros : (ys : List Bytes) (j : ℕ) → at (zeros ys) j ≡ 0
unfolding at zeros
at-zeros [] zero = refl
at-zeros [] (suc j) = refl
at-zeros (y ∷ ys) zero = refl
at-zeros (y ∷ ys) (suc j) = at-zeros ys j

lcs-nil : (xs : List Bytes) → lcs xs [] ≡ 0
unfolding lcs
lcs-nil [] = refl
lcs-nil (x ∷ xs) = refl

drop-nil : (j : ℕ) → drop {A = Bytes} j [] ≡ []
drop-nil zero = refl
drop-nil (suc j) = refl

cell-lcs :
    (x y : Bytes) (xs ys : List Bytes)
    → cell (x == y) (lcs xs (y ∷ ys)) (lcs xs ys) (lcs (x ∷ xs) ys) ≡ lcs (x ∷ xs) (y ∷ ys)
cell-lcs x y xs ys = elim (Bool-cases (x == y)) [
  | inl e ↦ unfold lcs in rw e refl
  | inr e ↦ unfold lcs in rw e (ground arith)
]

fill_row-lcs :
    (x : Bytes) (xs ys : List Bytes) (below : List ℕ)
    → ((j : ℕ) → at below j ≡ lcs xs (drop j ys))
    → (j : ℕ) → at (fill_row x ys below) j ≡ lcs (x ∷ xs) (drop j ys)
unfolding fill_row at
fill_row-lcs x xs [] below h zero = sym (lcs-nil (x ∷ xs))
fill_row-lcs x xs [] below h (suc j) = sym (lcs-nil (x ∷ xs))
fill_row-lcs x xs (y ∷ ys) below h zero =
    rw (h 0, h 1, fill_row-lcs x xs ys (drop 1 below) (λ (k : ℕ). at-drop below k ∙ h (suc k)) 0)
      (cell-lcs x y xs ys)
fill_row-lcs x xs (y ∷ ys) below h (suc j) =
    fill_row-lcs x xs ys (drop 1 below) (λ (k : ℕ). at-drop below k ∙ h (suc k)) j

pub entry-lcs :
    (xs ys : List Bytes) (i j : ℕ) → entry (fill_table xs ys) i j ≡ lcs (drop i xs) (drop j ys)
unfolding fill_table row_at
entry-lcs [] ys zero j = at-zeros ys j ∙ unfold lcs in refl
entry-lcs [] ys (suc i) j = unfold at lcs in refl
entry-lcs (x ∷ xs) ys zero j =
    fill_row-lcs x xs ys (row_at (fill_table xs ys) 0) (λ (k : ℕ). entry-lcs xs ys 0 k) j
entry-lcs (x ∷ xs) ys (suc i) j = entry-lcs xs ys i j
