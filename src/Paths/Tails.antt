-- ===== src/Paths/Tails.antt =====
-- What `normalizeRootPath` makes of paths that differ only inside of their last name.
use mathlib.Core.List.{reverse, reverse-cons}
use codesk.Common.{
  ℕ, zero, suc, ◌≡◌, refl, ap, sym, subst, eqb_iff, ◌∙◌, Bool, true, false, List, [], ◌∷◌, ◌++◌,
  arith, eqb, is_empty, if◌then◌else◌, inl, inr, Bool-cases, append_assoc,
}
use codesk.Paths.{
  PathText, is_space_rune, trim_left, trim_right, trim, same_text, dot, dot_dot, split_slash,
  join_slash, replicate_dots, Cleaned, element, clean_elements, starts_with_slash, joined, clean,
  normalize_root_path,
}
use codesk.Paths.Segments.{has_slash, NoSlash, split-one}
use codesk.Paths.Decimal.{append-NoSlash}

trim_left-append :
    (s t : PathText) (c : ℕ)
    → is_space_rune c ≡ false
    → trim_left (s ++ c ∷ t) ≡ trim_left s ++ c ∷ t
unfolding trim_left
trim_left-append [] t c h = rw h refl
trim_left-append (d ∷ s) t c h = elim (Bool-cases (is_space_rune d)) [
  | inl space ↦ rw space (trim_left-append s t c h)
  | inr rune ↦ rw rune refl
]

nonempty-append : (s t : PathText) (c : ℕ) → is_empty (s ++ c ∷ t) ≡ false
nonempty-append [] t c = refl
nonempty-append (d ∷ s) t c = refl

trim_right-append :
    (s t : PathText) (c : ℕ)
    → is_space_rune c ≡ false
    → trim_right (s ++ c ∷ t) ≡ s ++ c ∷ trim_right t
unfolding trim_right
trim_right-append [] t c h = rw h refl
trim_right-append (d ∷ s) t c h =
    rw (trim_right-append s t c h, nonempty-append s (trim_right t) c) (ground arith)

trim_right-NoSlash : (s : PathText) → NoSlash s → NoSlash (trim_right s)
unfolding trim_right has_slash
trim_right-NoSlash [] h = refl
trim_right-NoSlash (c ∷ s) h = ground (arith, trim_right-NoSlash s, h)

-- A text without slashes goes to the last element.
record Elements (s : PathText) : Type 0 where
  pub front : List PathText
  pub last : PathText
  pub split : (t : PathText) → NoSlash t → split_slash (s ++ t) ≡ front ++ (last ++ t) ∷ []

add_rune :
    (c : ℕ) (s : PathText) (front : List PathText) (last : PathText)
    → eqb c 47 ≡ false
    → ((t : PathText) → NoSlash t → split_slash (s ++ t) ≡ front ++ (last ++ t) ∷ [])
    → Elements (c ∷ s)
add_rune c s [] last h split = record {
  front = [];
  last = c ∷ last;
  split = λ (t : PathText) (free : NoSlash t). unfold split_slash in rw (h, split t free) refl;
}
add_rune c s (f ∷ fs) last h split = record {
  front = (c ∷ f) ∷ fs;
  last = last;
  split = λ (t : PathText) (free : NoSlash t). unfold split_slash in rw (h, split t free) refl;
}

add_slash : (s : PathText) → Elements s → Elements (47 ∷ s)
add_slash s r = record {
  front = [] ∷ r.front;
  last = r.last;
  split = λ (t : PathText) (free : NoSlash t). unfold split_slash in rw (r.split t free) refl;
}

Elements-of : (s : PathText) → Elements s
Elements-of [] = record { front = []; last = []; split = λ (t : PathText). split-one t }
Elements-of (c ∷ s) = elim (Bool-cases (eqb c 47)) [
  | inl slash ↦
      subst (λ (d : ℕ). Elements (d ∷ s)) (sym ((eqb_iff c 47).0 slash))
        (add_slash s (Elements-of s))
  | inr other ↦ add_rune c s (Elements-of s).front (Elements-of s).last other (Elements-of s).split
]

clean_elements-append :
    (rooted : Bool) (ss : List PathText) (s : PathText) (c : Cleaned)
    → clean_elements rooted (ss ++ s ∷ []) c ≡ element rooted s (clean_elements rooted ss c)
unfolding clean_elements
clean_elements-append rooted [] s c = refl
clean_elements-append rooted (t ∷ ss) s c = clean_elements-append rooted ss s (element rooted t c)

-- A name with a parenthesis is kept.
named : (s t : PathText) → same_text (s ++ 40 ∷ t) dot ≡ false
unfolding same_text
named [] t = refl
named (c ∷ []) t = ground arith
named (c ∷ d ∷ s) t = ground arith

named_twice : (s t : PathText) → same_text (s ++ 40 ∷ t) dot_dot ≡ false
unfolding same_text
named_twice [] t = refl
named_twice (c ∷ []) t = ground arith
named_twice (c ∷ d ∷ []) t = ground arith
named_twice (c ∷ d ∷ e ∷ s) t = ground arith

element-named :
    (rooted : Bool) (s t : PathText) (c : Cleaned)
    → element rooted (s ++ 40 ∷ t) c ≡ record c { names = (s ++ 40 ∷ t) ∷ c.names }
element-named rooted s t c = rw (nonempty-append s t 40, named s t, named_twice s t) refl

replicate_dots-append :
    (n : ℕ) (ss ts : List PathText) → replicate_dots n (ss ++ ts) ≡ replicate_dots n ss ++ ts
unfolding replicate_dots
replicate_dots-append zero ss ts = refl
replicate_dots-append (suc n) ss ts = ap (λ l. dot_dot ∷ l) (replicate_dots-append n ss ts)

unfoldable before_last : List PathText → PathText
before_last [] = []
before_last (s ∷ ss) = s ++ 47 ∷ before_last ss

join_slash-append :
    (ss : List PathText) (s : PathText) → join_slash (ss ++ s ∷ []) ≡ before_last ss ++ s
unfolding join_slash before_last
join_slash-append [] s = refl
join_slash-append (t ∷ []) s = sym (append_assoc t (47 ∷ []) s)
join_slash-append (t ∷ u ∷ ss) s =
    ap (λ l. t ++ 47 ∷ l) (join_slash-append (u ∷ ss) s)
    ∙ sym (append_assoc t (47 ∷ before_last (u ∷ ss)) s)

-- What comes before the last name of a cleaned path.
abbrev front_of : Bool → Cleaned → PathText → PathText
front_of rooted c s =
    if rooted
    then 47 ∷ before_last (replicate_dots c.dots (reverse c.names)) ++ s
    else before_last (replicate_dots c.dots (reverse c.names)) ++ s

front_of-append :
    (rooted : Bool) (c : Cleaned) (s t : PathText)
    → (let body = (before_last (replicate_dots c.dots (reverse c.names)) ++ s) ++ 40 ∷ t in
        if rooted then 47 ∷ body else body)
      ≡ front_of rooted c s ++ 40 ∷ t
front_of-append true c s t = refl
front_of-append false c s t = refl

joined-named :
    (c : Cleaned) (s : PathText)
    → joined (record c { names = s ∷ c.names })
      ≡ before_last (replicate_dots c.dots (reverse c.names)) ++ s
unfolding joined
joined-named c s =
    rw (reverse-cons s c.names, replicate_dots-append c.dots (reverse c.names) (s ∷ []))
      (join_slash-append (replicate_dots c.dots (reverse c.names)) s)

starts-append :
    (s t : PathText) → starts_with_slash (s ++ 40 ∷ t) ≡ starts_with_slash (s ++ 40 ∷ [])
starts-append [] t = refl
starts-append (c ∷ s) t = refl

-- A path whose last name has a parenthesis keeps what follows the parenthesis.
clean-tail :
    (s : PathText)
    → (h : PathText) × ((t : PathText) → NoSlash t → clean (s ++ 40 ∷ t) ≡ h ++ 40 ∷ t)
unfolding clean
clean-tail s =
    (front_of rooted kept parts.last, λ (t : PathText) (free : NoSlash t). cleaned t free)
  where
    parts : Elements s
    parts = Elements-of s

    rooted : Bool
    rooted = starts_with_slash (s ++ 40 ∷ [])

    kept : Cleaned
    kept = clean_elements rooted parts.front (record { dots = 0; names = [] })

    body : PathText
    body = before_last (replicate_dots kept.dots (reverse kept.names))

    cleaned :
        (t : PathText) → NoSlash t → clean (s ++ 40 ∷ t) ≡ front_of rooted kept parts.last ++ 40 ∷ t
    cleaned t free =
        rw
          (
            starts-append s t,
            parts.split (40 ∷ t) (unfold has_slash in free),
            clean_elements-append rooted parts.front (parts.last ++ 40 ∷ t)
                (record { dots = 0; names = [] }),
            element-named rooted parts.last t kept,
            joined-named kept (parts.last ++ 40 ∷ t),
            sym (append_assoc body parts.last (40 ∷ t)),
            nonempty-append (body ++ parts.last) t 40,
          )
          (front_of-append rooted kept parts.last t)

trim-tail :
    (s t e : PathText)
    → trim (s ++ 40 ∷ (t ++ 41 ∷ e)) ≡ trim_left s ++ 40 ∷ (t ++ 41 ∷ trim_right e)
unfolding trim
trim-tail s t e =
    rw
      (
        trim_left-append s (t ++ 41 ∷ e) 40 (unfold is_space_rune in refl),
        trim_right-append (trim_left s) (t ++ 41 ∷ e) 40 (unfold is_space_rune in refl),
        trim_right-append t e 41 (unfold is_space_rune in refl),
      )
      refl

-- Paths that differ only between two parentheses of their last name.
pub normalize-tail :
    (s e : PathText)
    → NoSlash e
    → (h : PathText) × (f : PathText) × ((t : PathText)
        → NoSlash t
        → normalize_root_path (s ++ 40 ∷ (t ++ 41 ∷ e)) ≡ h ++ (t ++ 41 ∷ f))
unfolding normalize_root_path
normalize-tail s e free =
    (head.0 ++ 40 ∷ [], trim_right e, λ (t : PathText) (h : NoSlash t). normalized t h)
  where
    head :
        (h : PathText) × ((t : PathText) → NoSlash t → clean (trim_left s ++ 40 ∷ t) ≡ h ++ 40 ∷ t)
    head = clean-tail (trim_left s)

    normalized :
        (t : PathText)
        → NoSlash t
        → normalize_root_path (s ++ 40 ∷ (t ++ 41 ∷ e))
          ≡ (head.0 ++ 40 ∷ []) ++ (t ++ 41 ∷ trim_right e)
    normalized t h =
        let rest : PathText = t ++ 41 ∷ trim_right e in
        let plain : NoSlash rest =
          append-NoSlash t (41 ∷ trim_right e) h (unfold has_slash in trim_right-NoSlash e free) in
        rw
          (
            trim-tail s t e,
            nonempty-append (trim_left s) rest 40,
            head.1 rest plain,
            named (head.0) rest,
            append_assoc (head.0) (40 ∷ []) rest,
          )
          refl
