-- ===== src/Diff/Freshen.antt =====
-- `freshenReplacedLineDelimiters` changes neither of the two texts.
use mathlib.Core.List.{reverse, reverse-append}
use codesk.Common.{
  ◌≡◌, refl, ap, ◌∙◌, sym, true, false, List, [], ◌∷◌, ◌++◌, ◌&&◌, not, append_assoc, append-nil,
  arith, if◌then◌else◌, drop, length, is_empty,
}
use codesk.Diff.{
  pop_group, freshen_delimiter, freshen_loop, freshen_replaced_line_delimiters, diff_of,
  leading_line_delimiter, is_equality, terminates_fully_rewritten_line,
}
use codesk.Diff.Texts.{
  Text, DiffKind, delete, insert, equal, Diff, old_part, new_part, old_text, new_text,
  old_text-append, new_text-append,
}

-- The two texts of what was written, which is held back to front.
back_old : List Diff → Text
back_old [] = []
back_old (d ∷ out) = back_old out ++ old_part d

back_new : List Diff → Text
back_new [] = []
back_new (d ∷ out) = back_new out ++ new_part d

reverse_texts :
    (out : List Diff)
    → (old_text (reverse out) ≡ back_old out) × (new_text (reverse out) ≡ back_new out)
unfolding back_old back_new
reverse_texts [] = unfold old_text new_text in (refl, refl)
reverse_texts (d ∷ out) =
    let (o, n) = reverse_texts out in
    (
      rw (reverse-append (d ∷ []) out, old_text-append, o) (unfold old_text in rw append-nil),
      rw (reverse-append (d ∷ []) out, new_text-append, n) (unfold new_text in rw append-nil),
    )

leading_line_delimiter-drop :
    (t : Text) → leading_line_delimiter t ++ drop (length (leading_line_delimiter t)) t ≡ t
unfolding leading_line_delimiter
leading_line_delimiter-drop [] = refl
leading_line_delimiter-drop (c ∷ []) = ground arith
leading_line_delimiter-drop (c ∷ b ∷ s) = ground arith

-- What `pop_group` took off, put back behind what it kept.
abbrev Popped : List Diff → Text → Text → Type 0
Popped out del_text ins_text =
    let (del, ins, kept) = pop_group out del_text ins_text in
    (back_old kept ++ del ≡ back_old out ++ del_text)
    × (back_new kept ++ ins ≡ back_new out ++ ins_text)

pop_group_step :
    (k : DiffKind) (t : Text) (out : List Diff) (del_text ins_text : Text)
    → ((d i : Text) → Popped out d i)
    → Popped (diff_of k t ∷ out) del_text ins_text
unfolding pop_group back_old back_new
pop_group_step delete t out del_text ins_text ih =
    let (o, n) = ih (t ++ del_text) ins_text in
    (o ∙ sym (append_assoc (back_old out) t del_text), n ∙ rw append-nil)
pop_group_step insert t out del_text ins_text ih =
    let (o, n) = ih del_text (t ++ ins_text) in
    (o ∙ rw append-nil, n ∙ sym (append_assoc (back_new out) t ins_text))
pop_group_step equal t out del_text ins_text ih = (refl, refl)

pop_group-Popped : (out : List Diff) (del_text ins_text : Text) → Popped out del_text ins_text
pop_group-Popped [] del_text ins_text = unfold pop_group in (refl, refl)
pop_group-Popped (d ∷ out) del_text ins_text =
    pop_group_step d.kind d.text out del_text ins_text (pop_group-Popped out)

-- An equality that may be empty.
rest_texts :
    (rest : Text) (fresh : List Diff)
    → let written = if is_empty rest then fresh else diff_of equal rest ∷ fresh in
      (back_old written ≡ back_old fresh ++ rest) × (back_new written ≡ back_new fresh ++ rest)
unfolding back_old back_new
rest_texts [] fresh = (sym (append-nil _), sym (append-nil _))
rest_texts (c ∷ rest) fresh = (refl, refl)

fresh_texts :
    (delim : Text) (out : List Diff)
    → let (del_text, ins_text, kept) = pop_group out [] [] in
      let fresh = diff_of insert (ins_text ++ delim) ∷ diff_of delete (del_text ++ delim) ∷ kept in
      (back_old fresh ≡ back_old out ++ delim) × (back_new fresh ≡ back_new out ++ delim)
unfolding back_old back_new
fresh_texts delim out =
    let (del_text, ins_text, kept) = pop_group out [] [] in
    let (o, n) = pop_group-Popped out [] [] in
    let put = λ (s : Text). s ++ delim in
    (
      append-nil _
          ∙ sym (append_assoc (back_old kept) del_text delim)
          ∙ ap put (o ∙ append-nil (back_old out)),
      rw append-nil (sym (append_assoc (back_new kept) ins_text delim))
          ∙ ap put (n ∙ append-nil (back_new out)),
    )

-- An equality whose delimiter is made fresh stands for the same text as before.
freshen_delimiter_texts :
    (d : Diff) (out : List Diff)
    → (back_old (freshen_delimiter d out) ≡ back_old out ++ d.text)
      × (back_new (freshen_delimiter d out) ≡ back_new out ++ d.text)
unfolding freshen_delimiter
freshen_delimiter_texts d out =
    let delim = leading_line_delimiter d.text in
    let rest = drop (length delim) d.text in
    let (del_text, ins_text, kept) = pop_group out [] [] in
    let fresh = diff_of insert (ins_text ++ delim) ∷ diff_of delete (del_text ++ delim) ∷ kept in
    let (o, n) = fresh_texts delim out in
    let (o', n') = rest_texts rest fresh in
    let whole = leading_line_delimiter-drop d.text in
    let put = λ (s : Text). s ++ rest in
    (
      o' ∙ ap put o ∙ append_assoc (back_old out) delim rest ∙ ap (λ s. back_old out ++ s) whole,
      n' ∙ ap put n ∙ append_assoc (back_new out) delim rest ∙ ap (λ s. back_new out ++ s) whole,
    )

-- One round of the loop.
round : List Diff → Diff → List Diff → List Diff
round before d out =
    if is_equality d
      && (not (is_empty (leading_line_delimiter d.text)) && terminates_fully_rewritten_line before)
    then freshen_delimiter d out
    else d ∷ out

round_texts :
    (k : DiffKind) (t : Text) (before out : List Diff)
    → let d = diff_of k t in
      (back_old (round before d out) ≡ back_old out ++ old_part d)
      × (back_new (round before d out) ≡ back_new out ++ new_part d)
unfolding round back_old back_new
round_texts delete t before out = (refl, refl)
round_texts insert t before out = (refl, refl)
round_texts equal t before out =
    elim (not (is_empty (leading_line_delimiter t)) && terminates_fully_rewritten_line before)
      as (λ b.
        let written =
          if b then freshen_delimiter (diff_of equal t) out else diff_of equal t ∷ out in
        (back_old written ≡ back_old out ++ t) × (back_new written ≡ back_new out ++ t)) [
          | true ↦ freshen_delimiter_texts (diff_of equal t) out
          | false ↦ (refl, refl)
        ]

freshen_loop_texts :
    (ds before out : List Diff)
    → (old_text (freshen_loop before ds out) ≡ back_old out ++ old_text ds)
      × (new_text (freshen_loop before ds out) ≡ back_new out ++ new_text ds)
unfolding freshen_loop round old_text new_text
freshen_loop_texts [] before out =
    let (o, n) = reverse_texts out in (o ∙ sym (append-nil _), n ∙ sym (append-nil _))
freshen_loop_texts (d ∷ ds) before out =
    let (o, n) = freshen_loop_texts ds (d ∷ before) (round before d out) in
    let (o', n') = round_texts d.kind d.text before out in
    (
      o ∙ ap (λ s. s ++ old_text ds) o' ∙ append_assoc (back_old out) (old_part d) (old_text ds),
      n ∙ ap (λ s. s ++ new_text ds) n' ∙ append_assoc (back_new out) (new_part d) (new_text ds),
    )

-- Whatever delimiters it makes fresh, the pass keeps both texts.
pub freshen_texts :
    (ds : List Diff)
    → (old_text (freshen_replaced_line_delimiters ds) ≡ old_text ds)
      × (new_text (freshen_replaced_line_delimiters ds) ≡ new_text ds)
unfolding freshen_replaced_line_delimiters back_old back_new
freshen_texts ds = freshen_loop_texts ds [] []
