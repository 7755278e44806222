-- ===== src/Paths/Inside.antt =====
-- What `normalizeVisibleRootPath` accepts.
use mathlib.Core.List.{reverse, reverse-cons}
use codesk.Common.{
  ℕ, zero, suc, ◌≡◌, refl, ap, sym, subst, ◌∙◌, Bool, true, false, not, ◌&&◌, ◌||◌, List, [], ◌∷◌,
  arith, eqb, is_empty, inl, inr, Bool-cases, All, All-append, past_guard,
}
use codesk.Paths.{
  PathText, is_space_rune, trim_left, trim_right, trim, same_text, has_prefix, slashes, dot,
  dot_dot, split_slash, join_slash, replicate_dots, Cleaned, clean_elements, starts_with_slash,
  joined, clean, normalize_root_path, has_dot_field, is_ignored_workspace_relative_path, visible,
  path_required, absolute_path, escapes_workspace, ignored_path, normalize_visible_root_path,
}
use codesk.Paths.Segments.{
  IsName, split_slash-NoSlash, clean_elements-IsName, split-join, clean-join,
}

-- A name that is not hidden.
pub record IsPlain (s : PathText) : Type 0 where
  pub name : IsName s
  pub not_hidden : has_prefix s dot ≡ false

-- A path of plain names, one or more, with slashes between them.
pub record IsInside (p : PathText) : Type 0 where
  pub names : List PathText
  pub some_name : is_empty names ≡ false
  pub joined_names : p ≡ join_slash names
  pub plain : All IsPlain names

reverse-IsName : (ss : List PathText) → All IsName ss → All IsName (reverse ss)
reverse-IsName [] h = tt
reverse-IsName (s ∷ ss) (name, h) =
    rw (reverse-cons s ss)
      (All-append IsName (reverse ss) (s ∷ []) (reverse-IsName ss h) (name, tt))

trim_right-head :
    (c : ℕ) (s : PathText) → is_space_rune c ≡ false → trim_right (c ∷ s) ≡ c ∷ trim_right s
unfolding trim_right
trim_right-head c s rune = rw rune refl

trim-head : (c : ℕ) (s : PathText) → is_space_rune c ≡ false → trim (c ∷ s) ≡ c ∷ trim_right s
unfolding trim trim_left
trim-head c s rune = rw rune (trim_right-head c s rune)

head_kept :
    (c : ℕ) (s : PathText)
    → is_space_rune c ≡ false
    → starts_with_slash (slashes (trim_right (c ∷ s))) ≡ false
    → starts_with_slash (trim (slashes (trim_right (c ∷ s)))) ≡ false
unfolding slashes
head_kept c s rune h =
    let h' = rw (trim_right-head c s rune) at h in
    elim (Bool-cases (eqb c 92)) [
      | inl backslash ↦ absurd (cc (rw backslash at h'))
      | inr other ↦
          rw (trim_right-head c s rune, other, trim-head c (slashes (trim_right s)) rune)
            (rw other at h')
    ]

-- A trimmed text, its backslashes replaced, does not get a slash in front by another trim.
trim_left-head :
    (s : PathText)
    → starts_with_slash (slashes (trim_right (trim_left s))) ≡ false
    → starts_with_slash (trim (slashes (trim_right (trim_left s)))) ≡ false
unfolding trim_left
trim_left-head [] h = unfold trim_right slashes trim in refl
trim_left-head (c ∷ s) h = elim (Bool-cases (is_space_rune c)) [
  | inl space ↦ rw space (trim_left-head s (rw space at h))
  | inr rune ↦ rw rune (head_kept c s rune (rw rune at h))
]

trim_slashed :
    (p : PathText)
    → starts_with_slash (slashes (trim p)) ≡ false
    → starts_with_slash (trim (slashes (trim p))) ≡ false
unfolding trim
trim_slashed p h = trim_left-head p h

-- A normalised path that is not empty is a clean one.
normalize-clean :
    (p : PathText)
    → is_empty (normalize_root_path p) ≡ false
    → normalize_root_path p ≡ clean (trim p)
unfolding normalize_root_path
normalize-clean p h = elim (Bool-cases (is_empty (trim p))) [
  | inl nothing ↦ absurd (cc (rw nothing at h))
  | inr some ↦ elim (Bool-cases (same_text (clean (trim p)) dot)) [
    | inl root ↦ absurd (cc (rw (some, root) at h))
    | inr other ↦ rw (some, other) refl
  ]
]

abbrev no_elements : Cleaned
no_elements = record { dots = 0; names = [] }

abbrev elements : PathText → Cleaned
elements p = clean_elements false (split_slash p) no_elements

clean-joined :
    (p : PathText)
    → starts_with_slash p ≡ false
    → same_text (clean p) dot ≡ false
    → clean p ≡ joined (elements p)
unfolding clean
clean-joined p relative h =
    let h' = rw relative at h in
    elim (Bool-cases (is_empty (joined (elements p)))) [
      | inl nothing ↦ absurd (unfold same_text in cc (rw nothing at h'))
      | inr some ↦ rw (relative, some) refl
    ]

-- A path that begins with `..` is refused.
abbrev escapes : PathText → Bool
escapes p = same_text p dot_dot || has_prefix p (46 ∷ 46 ∷ 47 ∷ [])

dots-escapes : (ss : List PathText) → escapes (join_slash (dot_dot ∷ ss)) ≡ true
unfolding join_slash same_text has_prefix
dots-escapes [] = refl
dots-escapes (s ∷ ss) = refl

no_dots :
    (c : Cleaned) (d : ℕ)
    → c.dots ≡ d
    → escapes (joined c) ≡ false
    → joined c ≡ join_slash (reverse c.names)
unfolding joined replicate_dots
no_dots c zero e h = rw e refl
no_dots c (suc n) e h = absurd (cc (rw e at h, dots-escapes (replicate_dots n (reverse c.names))))

has_dot_field-IsPlain :
    (ss : List PathText) → All IsName ss → has_dot_field ss ≡ false → All IsPlain ss
unfolding has_dot_field
has_dot_field-IsPlain [] h q = tt
has_dot_field-IsPlain (s ∷ ss) (name, h) q = (
  record { name = name; not_hidden = ground (arith, q) },
  has_dot_field-IsPlain ss h (ground (arith, q)),
)

-- A joined list of names that is not ignored.
not_ignored-IsInside :
    (p : PathText) (ss : List PathText)
    → p ≡ join_slash ss
    → All IsName ss
    → (is_empty p || same_text p dot) ≡ false
    → is_ignored_workspace_relative_path p ≡ false
    → IsInside p
not_ignored-IsInside p [] e h some kept = absurd (unfold join_slash in cc (rw e at some))
not_ignored-IsInside p (s ∷ ss) e h some kept =
    let same : clean p ≡ p = ap clean e ∙ clean-join s ss h ∙ sym e in
    let fields : split_slash p ≡ s ∷ ss = ap split_slash e ∙ split-join s ss h in
    record {
      names = s ∷ ss;
      some_name = refl;
      joined_names = e;
      plain = has_dot_field-IsPlain (s ∷ ss) h (no_dot_field same fields kept some);
    }
  where
    no_dot_field :
        clean p ≡ p
        → split_slash p ≡ s ∷ ss
        → is_ignored_workspace_relative_path p ≡ false
        → (is_empty p || same_text p dot) ≡ false
        → has_dot_field (s ∷ ss) ≡ false
    no_dot_field same fields kept some =
        let kept' : (not (same_text p dot || is_empty p) && has_dot_field (s ∷ ss)) ≡ false =
          subst
            (λ (l : List PathText).
              (not (same_text p dot || is_empty p) && has_dot_field l) ≡ false)
            fields
            (subst
              (λ (q : PathText).
                (not (same_text q dot || is_empty q) && has_dot_field (split_slash q)) ≡ false)
              same (unfold is_ignored_workspace_relative_path in kept)) in
        ground (arith, kept', some)

clean-IsInside :
    (p : PathText)
    → starts_with_slash p ≡ false
    → (is_empty (clean p) || same_text (clean p) dot) ≡ false
    → escapes (clean p) ≡ false
    → is_ignored_workspace_relative_path (clean p) ≡ false
    → IsInside (clean p)
clean-IsInside p relative some within kept =
    let c = elements p in
    let e : clean p ≡ joined c = clean-joined p relative (ground (arith, some)) in
    let f : joined c ≡ join_slash (reverse c.names) = no_dots c c.dots refl (rw e at within) in
    not_ignored-IsInside (clean p) (reverse c.names) (e ∙ f)
      (reverse-IsName c.names
        (clean_elements-IsName false (split_slash p) no_elements (split_slash-NoSlash p) tt))
      some kept

-- A path that `normalizeVisibleRootPath` accepts is one name or more with slashes between them, and
-- no name is empty, begins with a dot or holds a slash: joined to the root of the workspace, it stays
-- inside, and outside of hidden directories.
pub normalize_visible_root_path-IsInside :
    (path accepted : PathText)
    → normalize_visible_root_path path ≡ visible accepted
    → IsInside accepted
unfolding normalize_visible_root_path
normalize_visible_root_path-IsInside path accepted h =
    let slashed = slashes (trim path) in
    let cleaned = normalize_root_path slashed in
    let g1 = past_guard (is_empty (trim path)) path_required _ h (λ q. cc q) in
    let g2 = past_guard (starts_with_slash slashed) absolute_path _ (g1.1) (λ q. cc q) in
    let g3 =
      past_guard (is_empty cleaned || same_text cleaned dot) path_required _ (g2.1) (λ q. cc q) in
    let g4 = past_guard (escapes cleaned) escapes_workspace _ (g3.1) (λ q. cc q) in
    let g5 =
      past_guard (is_ignored_workspace_relative_path cleaned) ignored_path _ (g4.1) (λ q. cc q) in
    let e : cleaned ≡ clean (trim slashed) = normalize-clean slashed (ground (arith, g3.0)) in
    let same : cleaned ≡ accepted = cc (g5.1) in
    subst IsInside same (
      subst IsInside (sym e) (
        clean-IsInside (trim slashed) (trim_slashed path (g2.0)) (rw e at g3.0) (rw e at g4.0)
          (rw e at g5.0)))
