-- ===== src/LineDiff/Longest/Kept.antt =====
-- The lines in the equal hunks of a diff.
use codesk.Common.{
  ℕ, suc, ◌+◌, ◌≤◌, ◌≡◌, refl, ap, sym, subst, ◌∙◌, inl, inr, true, false, List, [], ◌∷◌, ◌++◌,
  ◌==◌, arith, leb, if◌then◌else◌, Bool-cases, length, drop, is_empty, All,
}
use codesk.Paths.Texts.{PathText_key}
use codesk.LineDiff.{
  Bytes, HunkOp, equal, delete, insert, same_op, DocumentDiffHunk, append_merged_hunk, append_all,
  entry, fill_table, walk, diff_text_by_line, split_lines_keep_end, count_diff_lines, ends_line,
}
use codesk.LineDiff.Lines.{IsLines, count-ended, ends_line-append, ended-one, IsLines-split}
use codesk.LineDiff.Restored.{same_op-eq}
use codesk.LineDiff.Longest.{lcs, entry-lcs, IsSubsequence, length-lcs}

-- How many lines the equal hunks have.
unfoldable pub kept_lines : List DocumentDiffHunk → ℕ
kept_lines [] = 0
kept_lines (h ∷ hs) =
    if same_op h.op equal then count_diff_lines h.text + kept_lines hs else kept_lines hs

-- All lines in the hunks are ended.
abbrev AreEnded : List DocumentDiffHunk → Type 0
AreEnded hs = All (λ (h : DocumentDiffHunk). ends_line h.text ≡ true) hs

kept-other :
    (hs : List DocumentDiffHunk) (op : HunkOp) (text : Bytes)
    → same_op op equal ≡ false
    → kept_lines (append_merged_hunk hs op text) ≡ kept_lines hs
unfolding append_merged_hunk kept_lines
kept-other [] op text other = rw other refl
kept-other (h ∷ []) op text other = elim (Bool-cases (same_op h.op op)) [
  | inl e ↦
      let no : same_op h.op equal ≡ false =
        subst (λ (o : HunkOp). same_op o equal ≡ false) (sym (same_op-eq h.op op e)) other in
      rw (e, no) refl
  | inr e ↦ rw (e, other) refl
]
kept-other (h ∷ g ∷ hs) op text other = rw (kept-other (g ∷ hs) op text other) refl

kept-append_all :
    (op : HunkOp) (xs : List Bytes) (hs : List DocumentDiffHunk)
    → same_op op equal ≡ false
    → kept_lines (append_all op xs hs) ≡ kept_lines hs
unfolding append_all
kept-append_all op [] hs other = refl
kept-append_all op (x ∷ xs) hs other =
    kept-append_all op xs (append_merged_hunk hs op x) other ∙ kept-other hs op x other

kept-equal :
    (hs : List DocumentDiffHunk) (x : Bytes)
    → AreEnded hs
    → count_diff_lines x ≡ 1
    → kept_lines (append_merged_hunk hs equal x) ≡ suc (kept_lines hs)
unfolding append_merged_hunk kept_lines
kept-equal [] x h one = rw one (omega arith)
kept-equal (h ∷ []) x (ended, rest) one = elim (Bool-cases (same_op h.op equal)) [
  | inl e ↦ rw (e, e, count-ended h.text x ended, one) (omega arith)
  | inr e ↦ rw (e, e, one) (omega arith)
]
kept-equal (h ∷ g ∷ hs) x (ended, rest) one = rw (kept-equal (g ∷ hs) x rest one) (ground arith)

append-AreEnded :
    (hs : List DocumentDiffHunk) (op : HunkOp) (x : Bytes)
    → AreEnded hs
    → ends_line x ≡ true
    → AreEnded (append_merged_hunk hs op x)
unfolding append_merged_hunk
append-AreEnded [] op x h e = (e, tt)
append-AreEnded (h ∷ []) op x (ended, rest) e = elim (Bool-cases (same_op h.op op)) [
  | inl same ↦ rw same (longer x e, tt)
  | inr other ↦ rw other (ended, (e, tt))
]
  where
    longer : (y : Bytes) → ends_line y ≡ true → ends_line (h.text ++ y) ≡ true
    longer [] k = absurd (unfold ends_line in cc k)
    longer (c ∷ y) k = ends_line-append h.text (c ∷ y) refl ∙ k
append-AreEnded (h ∷ g ∷ hs) op x (ended, rest) e = (ended, append-AreEnded (g ∷ hs) op x rest e)

first_line : (x : Bytes) (xs : List Bytes) → IsLines (x ∷ xs) → count_diff_lines x ≡ 1
first_line x [] h = h
first_line x (y ∷ xs) (ended, h) = ended-one x ended

IsLines-tail : (x : Bytes) (xs : List Bytes) → IsLines (x ∷ xs) → IsLines xs
IsLines-tail x [] h = tt
IsLines-tail x (y ∷ xs) (ended, h) = h

first-ends :
    (x : Bytes) (xs : List Bytes) → IsLines (x ∷ xs) → is_empty xs ≡ false → ends_line x ≡ true
first-ends x [] h some_line = absurd (cc some_line)
first-ends x (y ∷ xs) (ended, h) some_line = ended.ends

-- The table from an entry on.
abbrev IsTable : List (List ℕ) → ℕ → List Bytes → ℕ → List Bytes → Type 0
IsTable dp i xs j ys = (k m : ℕ) → entry dp (i + k) (j + m) ≡ lcs (drop k xs) (drop m ys)

down :
    (dp : List (List ℕ)) (i j : ℕ) (x : Bytes) (xs ys : List Bytes)
    → IsTable dp i (x ∷ xs) j ys
    → IsTable dp (suc i) xs j ys
down dp i j x xs ys h k m = ap (λ (n : ℕ). entry dp n (j + m)) (omega arith) ∙ h (suc k) m

right :
    (dp : List (List ℕ)) (i j : ℕ) (y : Bytes) (xs ys : List Bytes)
    → IsTable dp i xs j (y ∷ ys)
    → IsTable dp i xs (suc j) ys
right dp i j y xs ys h k m = ap (λ (n : ℕ). entry dp (i + k) n) (omega arith) ∙ h k (suc m)

below :
    (dp : List (List ℕ)) (i j : ℕ) (x : Bytes) (xs ys : List Bytes)
    → IsTable dp i (x ∷ xs) j ys
    → entry dp (suc i) j ≡ lcs xs ys
below dp i j x xs ys h =
    ap (λ (n : ℕ). entry dp n j) (omega arith)
    ∙ ap (λ (n : ℕ). entry dp (i + 1) n) (omega arith)
    ∙ h 1 0

beside :
    (dp : List (List ℕ)) (i j : ℕ) (y : Bytes) (xs ys : List Bytes)
    → IsTable dp i xs j (y ∷ ys)
    → entry dp i (suc j) ≡ lcs xs ys
beside dp i j y xs ys h =
    ap (λ (n : ℕ). entry dp n (suc j)) (omega arith)
    ∙ ap (λ (n : ℕ). entry dp (i + 0) n) (omega arith)
    ∙ h 0 1

-- At the walk's place, with what was collected before it.
walk-kept :
    (dp : List (List ℕ)) (i : ℕ) (xs : List Bytes) (j : ℕ) (ys : List Bytes)
    (hs : List DocumentDiffHunk)
    → IsTable dp i xs j ys
    → IsLines xs
    → IsLines ys
    → (is_empty xs ≡ false → is_empty ys ≡ false → AreEnded hs)
    → kept_lines (walk dp i xs j ys hs) ≡ kept_lines hs + lcs xs ys
unfolding walk lcs
walk-kept dp i [] j ys hs table h g ended = kept-append_all insert ys hs refl ∙ omega arith
walk-kept dp i (x ∷ xs) j [] hs table h g ended =
    kept-append_all delete (x ∷ xs) hs refl ∙ omega arith
walk-kept dp i (x ∷ xs) j (y ∷ ys) hs table h g ended =
    let all = ended refl refl in
    let kept =
      walk-kept dp (suc i) xs (suc j) ys (append_merged_hunk hs equal x)
        (right dp (suc i) j y xs ys (down dp i j x xs (y ∷ ys) table)) (IsLines-tail x xs h)
        (IsLines-tail y ys g)
        (λ (more : is_empty xs ≡ false) (more' : is_empty ys ≡ false).
          append-AreEnded hs equal x all (first-ends x xs h more)) in
    let deleted =
      walk-kept dp (suc i) xs j (y ∷ ys) (append_merged_hunk hs delete x)
        (down dp i j x xs (y ∷ ys) table) (IsLines-tail x xs h) g
        (λ (more : is_empty xs ≡ false) (more' : is_empty (y ∷ ys) ≡ false).
          append-AreEnded hs delete x all (first-ends x xs h more)) in
    let inserted =
      walk-kept dp i (x ∷ xs) (suc j) ys (append_merged_hunk hs insert y)
        (right dp i j y (x ∷ xs) ys table) h (IsLines-tail y ys g)
        (λ (more : is_empty (x ∷ xs) ≡ false) (more' : is_empty ys ≡ false).
          append-AreEnded hs insert y all (first-ends y ys g more')) in
    let one = kept-equal hs x all (first_line x xs h) in
    let not_deleted = kept-other hs delete x refl in
    let not_inserted = kept-other hs insert y refl in
    elim (Bool-cases (x == y)) [
      | inl e ↦ rw (walk, e) (kept ∙ rw one (omega arith))
      | inr e ↦ elim (Bool-cases (leb (entry dp i (suc j)) (entry dp (suc i) j))) [
        | inl f ↦
            let le =
              rw (below dp i j x xs (y ∷ ys) table, beside dp i j y (x ∷ xs) ys table) at f in
            rw (walk, e, f) (deleted ∙ rw not_deleted (ground (arith, le)))
        | inr f ↦
            let gt =
              rw (below dp i j x xs (y ∷ ys) table, beside dp i j y (x ∷ xs) ys table) at f in
            rw (walk, e, f) (inserted ∙ rw not_inserted (ground (arith, gt)))
      ]
    ]

-- No common subsequence of the lines of two texts is longer than the number of lines in the equal
-- hunks of their diff.
pub diff_text_by_line-longest :
    (before after : Bytes) (zs : List Bytes)
    → IsSubsequence zs (split_lines_keep_end before)
    → IsSubsequence zs (split_lines_keep_end after)
    → length zs ≤ kept_lines (diff_text_by_line before after)
unfolding diff_text_by_line
diff_text_by_line-longest before after zs h g =
    let xs = split_lines_keep_end before in
    let ys = split_lines_keep_end after in
    let all =
      walk-kept (fill_table xs ys) 0 xs 0 ys [] (λ (k m : ℕ). from_start xs ys k m)
        (IsLines-split before) (IsLines-split after)
        (λ (more : is_empty xs ≡ false) (more' : is_empty ys ≡ false). tt) in
    let longest = length-lcs zs xs ys h g in rw all (unfold kept_lines in omega (arith, longest))
  where
    from_start :
        (xs ys : List Bytes) (k m : ℕ)
        → entry (fill_table xs ys) (0 + k) (0 + m) ≡ lcs (drop k xs) (drop m ys)
    from_start xs ys k m =
        ap (λ (n : ℕ). entry (fill_table xs ys) n (0 + m)) (omega arith)
        ∙ ap (λ (n : ℕ). entry (fill_table xs ys) k n) (omega arith)
        ∙ entry-lcs xs ys k m
