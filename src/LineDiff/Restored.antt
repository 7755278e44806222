-- ===== src/LineDiff/Restored.antt =====
-- The hunks of a diff hold both texts, and no two hunks in a row are of one kind.
use codesk.Common.{
  ℕ, suc, ◌≡◌, refl, ap, sym, ◌∙◌, Bool, true, false, List, [], ◌∷◌, ◌++◌, ◌==◌, leb, if◌then◌else◌,
  inl, inr, Bool-cases, append_assoc, append-nil,
}
use codesk.Paths.Texts.{PathText_key, same_text_iff}
use codesk.LineDiff.{
  Bytes, HunkOp, equal, delete, insert, same_op, DocumentDiffHunk, append_merged_hunk, entry,
  fill_table, append_all, walk, diff_text_by_line, split_lines_keep_end,
}
use codesk.LineDiff.Lines.{joined, joined-split_lines}

abbrev pub in_old : HunkOp → Bool
in_old equal = true
in_old delete = true
in_old insert = false

abbrev pub in_new : HunkOp → Bool
in_new equal = true
in_new delete = false
in_new insert = true

-- The texts of the hunks of some kinds.
unfoldable pub side : (HunkOp → Bool) → List DocumentDiffHunk → Bytes
side keep [] = []
side keep (h ∷ hs) = if keep h.op then h.text ++ side keep hs else side keep hs

pub same_op-eq : (a b : HunkOp) → same_op a b ≡ true → a ≡ b
same_op-eq equal equal h = refl
same_op-eq delete delete h = refl
same_op-eq insert insert h = refl
same_op-eq equal delete h = absurd (cc h)
same_op-eq equal insert h = absurd (cc h)
same_op-eq delete equal h = absurd (cc h)
same_op-eq delete insert h = absurd (cc h)
same_op-eq insert equal h = absurd (cc h)
same_op-eq insert delete h = absurd (cc h)

module _ (keep : HunkOp → Bool) where
  -- What a text adds to a side.
  abbrev part : HunkOp → Bytes → Bytes
  part op text = if keep op then text else []

  side-one :
      (op : HunkOp) (text : Bytes) → side keep (record { op = op; text = text } ∷ []) ≡ part op text
  unfolding side
  side-one op text = elim (Bool-cases (keep op)) [
    | inl e ↦ rw (e, append-nil text) refl
    | inr e ↦ rw e refl
  ]

  side-cons :
      (h : DocumentDiffHunk) (hs : List DocumentDiffHunk)
      → side keep (h ∷ hs) ≡ part h.op h.text ++ side keep hs
  unfolding side
  side-cons h hs = elim (Bool-cases (keep h.op)) [ inl e ↦ rw e refl | inr e ↦ rw e refl ]

  part-append : (op : HunkOp) (s t : Bytes) → part op (s ++ t) ≡ part op s ++ part op t
  part-append op s t = elim (Bool-cases (keep op)) [ inl e ↦ rw e refl | inr e ↦ rw e refl ]

  side-append_merged :
      (hs : List DocumentDiffHunk) (op : HunkOp) (text : Bytes)
      → side keep (append_merged_hunk hs op text) ≡ side keep hs ++ part op text
  unfolding append_merged_hunk
  side-append_merged [] op text = side-one op text ∙ unfold side in refl
  side-append_merged (h ∷ []) op text = elim (Bool-cases (same_op h.op op)) [
    | inl e ↦ rw e (
        side-one h.op (h.text ++ text)
        ∙ part-append h.op h.text text
        ∙ ap (λ (o : HunkOp). part h.op h.text ++ part o text) (same_op-eq h.op op e)
        ∙ ap (λ (s : Bytes). s ++ part op text) (sym (side-one h.op h.text)))
    | inr e ↦ rw e (
        side-cons h (record { op = op; text = text } ∷ [])
        ∙ ap (λ (s : Bytes). part h.op h.text ++ s) (side-one op text)
        ∙ ap (λ (s : Bytes). s ++ part op text) (sym (side-one h.op h.text)))
  ]
  side-append_merged (h ∷ g ∷ hs) op text =
      rw
        (
          side-cons h (append_merged_hunk (g ∷ hs) op text),
          side-append_merged (g ∷ hs) op text,
          side-cons h (g ∷ hs),
          append_assoc (part h.op h.text) (side keep (g ∷ hs)) (part op text),
        )
        refl

  side-append_all :
      (op : HunkOp) (xs : List Bytes) (hs : List DocumentDiffHunk)
      → side keep (append_all op xs hs) ≡ side keep hs ++ part op (joined xs)
  unfolding append_all joined
  side-append_all op [] hs = elim (Bool-cases (keep op)) [
    | inl e ↦ rw (e, append-nil (side keep hs)) refl
    | inr e ↦ rw (e, append-nil (side keep hs)) refl
  ]
  side-append_all op (x ∷ xs) hs =
      rw
        (
          side-append_all op xs (append_merged_hunk hs op x),
          side-append_merged hs op x,
          append_assoc (side keep hs) (part op x) (part op (joined xs)),
          part-append op x (joined xs),
        )
        refl

-- A step of the walk, and what it leaves.
step-kept :
    (before line rest : Bytes) (after : Bytes)
    → after ≡ before ++ line
    → after ++ rest ≡ before ++ (line ++ rest)
step-kept before line rest after e = rw (e, append_assoc before line rest) refl

walk-old :
    (dp : List (List ℕ)) (i : ℕ) (xs : List Bytes) (j : ℕ) (ys : List Bytes)
    (hs : List DocumentDiffHunk)
    → side in_old (walk dp i xs j ys hs) ≡ side in_old hs ++ joined xs
unfolding walk
walk-old dp i [] j ys hs = side-append_all in_old insert ys hs ∙ unfold joined in refl
walk-old dp i (x ∷ xs) j [] hs = side-append_all in_old delete (x ∷ xs) hs
walk-old dp i (x ∷ xs) j (y ∷ ys) hs =
    let kept = walk-old dp (suc i) xs (suc j) ys (append_merged_hunk hs equal x) in
    let deleted = walk-old dp (suc i) xs j (y ∷ ys) (append_merged_hunk hs delete x) in
    let inserted = walk-old dp i (x ∷ xs) (suc j) ys (append_merged_hunk hs insert y) in
    elim (Bool-cases (x == y)) [
      | inl e ↦ rw (walk, e) (kept ∙ of_line (side-append_merged in_old hs equal x))
      | inr e ↦ elim (Bool-cases (leb (entry dp i (suc j)) (entry dp (suc i) j))) [
        | inl f ↦ rw (walk, e, f) (deleted ∙ of_line (side-append_merged in_old hs delete x))
        | inr f ↦
            rw (walk, e, f)
              (inserted
                ∙ rw (side-append_merged in_old hs insert y, append-nil (side in_old hs)) refl)
      ]
    ]
  where
    of_line :
        {s : Bytes} → s ≡ side in_old hs ++ x → s ++ joined xs ≡ side in_old hs ++ joined (x ∷ xs)
    of_line {s} e = step-kept (side in_old hs) x (joined xs) s e ∙ unfold joined in refl

walk-new :
    (dp : List (List ℕ)) (i : ℕ) (xs : List Bytes) (j : ℕ) (ys : List Bytes)
    (hs : List DocumentDiffHunk)
    → side in_new (walk dp i xs j ys hs) ≡ side in_new hs ++ joined ys
unfolding walk
walk-new dp i [] j ys hs = side-append_all in_new insert ys hs
walk-new dp i (x ∷ xs) j [] hs = side-append_all in_new delete (x ∷ xs) hs ∙ unfold joined in refl
walk-new dp i (x ∷ xs) j (y ∷ ys) hs =
    let kept = walk-new dp (suc i) xs (suc j) ys (append_merged_hunk hs equal x) in
    let deleted = walk-new dp (suc i) xs j (y ∷ ys) (append_merged_hunk hs delete x) in
    let inserted = walk-new dp i (x ∷ xs) (suc j) ys (append_merged_hunk hs insert y) in
    elim (Bool-cases (x == y)) [
      | inl e ↦
          rw (walk, e)
            (kept
              ∙ of_line (
                  side-append_merged in_new hs equal x
                  ∙ ap (λ (l : Bytes). side in_new hs ++ l) ((same_text_iff x y).0 e)))
      | inr e ↦ elim (Bool-cases (leb (entry dp i (suc j)) (entry dp (suc i) j))) [
        | inl f ↦
            rw (walk, e, f)
              (deleted
                ∙ rw (side-append_merged in_new hs delete x, append-nil (side in_new hs)) refl)
        | inr f ↦ rw (walk, e, f) (inserted ∙ of_line (side-append_merged in_new hs insert y))
      ]
    ]
  where
    of_line :
        {s : Bytes} → s ≡ side in_new hs ++ y → s ++ joined ys ≡ side in_new hs ++ joined (y ∷ ys)
    of_line {s} e = step-kept (side in_new hs) y (joined ys) s e ∙ unfold joined in refl

-- The equal and deleted texts of a diff are the text before, the equal and inserted ones the text
-- after.
pub diff_text_by_line-sides :
    (before after : Bytes)
    → (side in_old (diff_text_by_line before after) ≡ before)
      × (side in_new (diff_text_by_line before after) ≡ after)
unfolding diff_text_by_line
diff_text_by_line-sides before after =
    let xs = split_lines_keep_end before in
    let ys = split_lines_keep_end after in
    (
      walk-old (fill_table xs ys) 0 xs 0 ys [] ∙ unfold side in joined-split_lines before,
      walk-new (fill_table xs ys) 0 xs 0 ys [] ∙ unfold side in joined-split_lines after,
    )
