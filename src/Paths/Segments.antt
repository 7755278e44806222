-- ===== src/Paths/Segments.antt =====
-- A visible root path stays inside the workspace.
use mathlib.Core.List.{reverse, reverse-cons, reverse-reverse}
use codesk.Common.{
  ℕ, ◌≡◌, refl, ap, ◌∙◌, Bool, false, ◌||◌, List, [], ◌∷◌, ◌++◌, arith, eqb, is_empty, inl, inr,
  Bool-cases, All, append_assoc, append-nil,
}
use codesk.Paths.{
  PathText, same_text, dot, dot_dot, to_first, split_slash, join_slash, replicate_dots, Cleaned,
  back, element, clean_elements, starts_with_slash, joined, clean,
}

unfoldable pub has_slash : PathText → Bool
has_slash [] = false
has_slash (c ∷ s) = eqb c 47 || has_slash s

abbrev pub NoSlash : PathText → Type 0
NoSlash s = has_slash s ≡ false

-- The name of a file or directory: not empty, no slash, neither `.` nor `..`.
pub record IsName (s : PathText) : Type 0 where
  pub some_rune : is_empty s ≡ false
  pub not_dot : same_text s dot ≡ false
  pub not_dot_dot : same_text s dot_dot ≡ false
  pub no_slash : has_slash s ≡ false

to_first-NoSlash :
    (c : ℕ) (ss : List PathText) → eqb c 47 ≡ false → All NoSlash ss → All NoSlash (to_first c ss)
unfolding has_slash
to_first-NoSlash c [] e h = (rw e refl, tt)
to_first-NoSlash c (s ∷ ss) e (first, h) = (rw (e, first) refl, h)

pub split_slash-NoSlash : (p : PathText) → All NoSlash (split_slash p)
unfolding split_slash
split_slash-NoSlash [] = (unfold has_slash in refl, tt)
split_slash-NoSlash (c ∷ s) =
    let rest = split_slash-NoSlash s in
    elim (Bool-cases (eqb c 47)) [
      | inl here ↦ rw here (unfold has_slash in refl, rest)
      | inr other ↦ rw other (to_first-NoSlash c (split_slash s) other rest)
    ]

back-IsName :
    (rooted : Bool) (d : ℕ) (names : List PathText)
    → All IsName names
    → All IsName (back rooted d names).names
back-IsName rooted d [] h = tt
back-IsName rooted d (n ∷ ns) h = h.1

element-IsName :
    (rooted : Bool) (s : PathText) (c : Cleaned)
    → NoSlash s
    → All IsName c.names
    → All IsName (element rooted s c).names
element-IsName rooted s c free h = elim (Bool-cases (is_empty s || same_text s dot)) [
  | inl skipped ↦ rw skipped h
  | inr kept ↦ elim (Bool-cases (same_text s dot_dot)) [
    | inl up ↦ rw (kept, up) (back-IsName rooted c.dots c.names h)
    | inr name ↦
        rw (kept, name)
          (
            record {
              some_rune = ground (arith, kept);
              not_dot = ground (arith, kept);
              not_dot_dot = name;
              no_slash = free;
            },
            h,
          )
  ]
]

pub clean_elements-IsName :
    (rooted : Bool) (ss : List PathText) (c : Cleaned)
    → All NoSlash ss
    → All IsName c.names
    → All IsName (clean_elements rooted ss c).names
unfolding clean_elements
clean_elements-IsName rooted [] c free h = h
clean_elements-IsName rooted (s ∷ ss) c (first, free) h =
    clean_elements-IsName rooted ss (element rooted s c) free (element-IsName rooted s c first h)

-- Splitting at slashes takes names apart again.
split-append : (s rest : PathText) → NoSlash s → split_slash (s ++ 47 ∷ rest) ≡ s ∷ split_slash rest
unfolding split_slash has_slash
split-append [] rest h = refl
split-append (c ∷ s) rest h =
    let no : eqb c 47 ≡ false = ground (arith, h) in
    let tail : has_slash s ≡ false = ground (arith, h) in rw (no, split-append s rest tail) refl

pub split-one : (s : PathText) → NoSlash s → split_slash s ≡ s ∷ []
unfolding split_slash has_slash
split-one [] h = refl
split-one (c ∷ s) h =
    let no : eqb c 47 ≡ false = ground (arith, h) in
    let tail : has_slash s ≡ false = ground (arith, h) in rw (no, split-one s tail) refl

pub split-join :
    (s : PathText) (ss : List PathText)
    → All IsName (s ∷ ss)
    → split_slash (join_slash (s ∷ ss)) ≡ s ∷ ss
unfolding join_slash
split-join s [] (h, rest) = split-one s h.no_slash
split-join s (t ∷ ss) (h, rest) =
    split-append s (join_slash (t ∷ ss)) h.no_slash ∙ ap (λ l. s ∷ l) (split-join t ss rest)

-- Names are kept by a clean.
clean_names :
    (ss acc : List PathText)
    → All IsName ss
    → clean_elements false ss (record { dots = 0; names = acc })
      ≡ record { dots = 0; names = reverse ss ++ acc }
unfolding clean_elements
clean_names [] acc h = refl
clean_names (s ∷ ss) acc (name, h) =
    let skip : (is_empty s || same_text s dot) ≡ false =
      ground (arith, name.some_rune, name.not_dot) in
    rw (skip, name.not_dot_dot, reverse-cons s ss, append_assoc (reverse ss) (s ∷ []) acc)
      (clean_names ss (s ∷ acc) h)

pub join_head :
    (s : PathText) (ss : List PathText)
    → IsName s
    → (starts_with_slash (join_slash (s ∷ ss)) ≡ false) × (is_empty (join_slash (s ∷ ss)) ≡ false)
unfolding join_slash has_slash
join_head [] ss name = absurd (cc name.some_rune)
join_head (c ∷ s) [] name = (ground (arith, name.no_slash), refl)
join_head (c ∷ s) (t ∷ ss) name = (ground (arith, name.no_slash), refl)

pub clean-join :
    (s : PathText) (ss : List PathText)
    → All IsName (s ∷ ss)
    → clean (join_slash (s ∷ ss)) ≡ join_slash (s ∷ ss)
unfolding clean joined replicate_dots
clean-join s ss h =
    let head = join_head s ss (h.0) in
    rw
      (
        head.0,
        split-join s ss h,
        clean_names (s ∷ ss) [] h,
        append-nil (reverse (s ∷ ss)),
        reverse-reverse (s ∷ ss),
        head.1,
      )
      refl
