-- ===== src/Projection/Candidates.antt =====
-- The candidates of `allocateMaterializedRootPath` are all different, so one is free.
use mathlib.Core.List.{append_cancel_left, append_cancel_right}
use codesk.Common.{
  ℕ, zero, suc, ◌+◌, ◌≤◌, ◌≡◌, refl, sym, ap, ◌∙◌, true, false, not, ◌&&◌, ◌||◌, none, some, List,
  [], ◌∷◌, ◌++◌, ◌==◌, arith, eqb, ltb, length, take, is_empty, inl, inr, Bool-cases, length-append,
  append_assoc,
}
use codesk.Common.Dict.{contains, keys, lookup, Dict}
use codesk.Common.Search.{first_free-enough}
use codesk.Paths.{PathText, normalize_root_path}
use codesk.Paths.Segments.{has_slash, NoSlash}
use codesk.Paths.Texts.{PathText_key, file_ext, trim_suffix, runes}
use codesk.Paths.Decimal.{itoa-inj, decimal-NoSlash, append-NoSlash}
use codesk.Paths.Tails.{normalize-tail}
use codesk.Projection.{Reserved}
use codesk.Projection.Allocation.{
  root_materialized_path_taken, safe_rune, safe_runes, safe_document_cache_name, number_text,
  candidate_path, candidate, wanted, allocate_materialized_root_path,
}

file_ext-NoSlash : (s : PathText) → NoSlash (file_ext s)
unfolding file_ext has_slash
file_ext-NoSlash [] = refl
file_ext-NoSlash (c ∷ s) = elim (Bool-cases (is_empty (file_ext s))) [
  | inl nothing ↦ elim (Bool-cases (eqb c 46 && not (has_slash s))) [
    | inl here ↦ rw (nothing, here) (ground (arith, here))
    | inr none_here ↦ rw (nothing, none_here) refl
  ]
  | inr rest ↦ rw rest (file_ext-NoSlash s)
]

safe_runes-NoSlash : (s : PathText) → NoSlash (safe_runes s)
unfolding safe_runes safe_rune has_slash
safe_runes-NoSlash [] = refl
safe_runes-NoSlash (c ∷ s) = ground (arith, safe_runes-NoSlash s)

safe_document_cache_name-NoSlash : (s : PathText) → NoSlash (safe_document_cache_name s)
unfolding safe_document_cache_name
safe_document_cache_name-NoSlash s = elim (Bool-cases (is_empty s)) [
  | inl nothing ↦ rw nothing (unfold has_slash runes in refl)
  | inr some_rune ↦ rw some_rune (safe_runes-NoSlash s)
]

take-NoSlash : (n : ℕ) (s : PathText) → NoSlash s → NoSlash (take n s)
unfolding has_slash
take-NoSlash zero s h = refl
take-NoSlash (suc n) [] h = refl
take-NoSlash (suc n) (c ∷ s) h = ground (arith, take-NoSlash n s, h)

number_text-NoSlash : (n : ℕ) → NoSlash (number_text n)
number_text-NoSlash n = elim (Bool-cases (ltb 1 n)) [
  | inl more ↦ rw more (unfold has_slash in decimal-NoSlash (suc n) n)
  | inr one ↦ rw one (unfold has_slash in refl)
]

number_text-inj : (n m : ℕ) → 1 ≤ n → 1 ≤ m → number_text n ≡ number_text m → n ≡ m
number_text-inj n m h g same = elim (Bool-cases (ltb 1 n)) [
  | inl more ↦ elim (Bool-cases (ltb 1 m)) [
    | inl more' ↦ itoa-inj n m (cc (rw (more, more') at same))
    | inr one' ↦ absurd (cc (rw (more, one') at same))
  ]
  | inr one ↦ elim (Bool-cases (ltb 1 m)) [
    | inl more' ↦ absurd (cc (rw (one, more') at same))
    | inr one' ↦ ground (arith, one, one', h, g)
  ]
]

-- What stands around the number in each candidate.
around :
    (desired document : PathText)
    → (h : PathText) × (f : PathText) × ((index : ℕ)
        → candidate desired document index ≡ h ++ (number_text index ++ 41 ∷ f))
unfolding candidate candidate_path
around desired document =
    let ext = file_ext desired in
    let suffix : PathText = take 14 (safe_document_cache_name document) in
    let tails =
      normalize-tail (trim_suffix ext desired ++ 32 ∷ []) ext (file_ext-NoSlash desired) in
    let suffix-NoSlash =
      take-NoSlash 14 (safe_document_cache_name document)
        (safe_document_cache_name-NoSlash document) in
    (
      tails.0 ++ suffix,
      tails.1,
      λ (index : ℕ).
          ap normalize_root_path
            (regroup (trim_suffix ext desired) suffix (number_text index) (41 ∷ ext))
          ∙ tails.2 (suffix ++ number_text index)
              (append-NoSlash suffix (number_text index) suffix-NoSlash (number_text-NoSlash index))
          ∙ regroup_tail (tails.0) suffix (number_text index) (41 ∷ tails.1),
    )
  where
    regroup :
        (base suffix number ext : PathText)
        → base ++ 32 ∷ 40 ∷ (suffix ++ (number ++ ext))
          ≡ (base ++ 32 ∷ []) ++ 40 ∷ ((suffix ++ number) ++ ext)
    regroup base suffix number ext =
        rw
          (
            append_assoc base (32 ∷ []) (40 ∷ ((suffix ++ number) ++ ext)),
            append_assoc suffix number ext,
          )
          refl

    regroup_tail :
        (h suffix number f : PathText)
        → h ++ ((suffix ++ number) ++ f) ≡ (h ++ suffix) ++ (number ++ f)
    regroup_tail h suffix number f =
        rw (append_assoc suffix number f, append_assoc h suffix (number ++ f)) refl

candidate-inj :
    (desired document : PathText) (i j : ℕ)
    → 1 ≤ i
    → 1 ≤ j
    → candidate desired document i ≡ candidate desired document j
    → i ≡ j
candidate-inj desired document i j le le' same =
    let parts = around desired document in
    let whole = sym (parts.2 i) ∙ same ∙ parts.2 j in
    number_text-inj i j le le' (
      append_cancel_right (number_text i) (number_text j) (41 ∷ parts.1) (
        append_cancel_left (parts.0) (number_text i ++ 41 ∷ parts.1) (number_text j ++ 41 ∷ parts.1)
          whole))

nonempty-middle : (h m f : PathText) → is_empty (h ++ (m ++ 41 ∷ f)) ≡ false
nonempty-middle [] [] f = refl
nonempty-middle [] (c ∷ m) f = refl
nonempty-middle (c ∷ h) m f = refl

pub candidate-nonempty :
    (desired document : PathText) (index : ℕ) → is_empty (candidate desired document index) ≡ false
candidate-nonempty desired document index =
    let parts = around desired document in
    rw (parts.2 index) (nonempty-middle (parts.0) (number_text index) (parts.1))

-- A path that is taken is used, or claimed.
contains-append :
    (p : PathText) (xs ys : List PathText)
    → contains p (xs ++ ys) ≡ (contains p xs || contains p ys)
unfolding contains
contains-append p [] ys = refl
contains-append p (x ∷ xs) ys = ground (arith, contains-append p xs ys)

absent-claimed :
    (p : PathText) (m : Dict PathText (List PathText))
    → contains p (keys m) ≡ false
    → lookup p m ≡ none
unfolding contains keys lookup
absent-claimed p [] h = refl
absent-claimed p ((q, owners) ∷ m) h =
    let here : (q == p) ≡ false = ground (arith, h) in
    rw here (absent-claimed p m (ground (arith, h)))

taken-held :
    (p document : PathText) (r : Reserved)
    → root_materialized_path_taken p document r ≡ true
    → contains p (r.used ++ keys r.claimed_by_path) ≡ true
unfolding root_materialized_path_taken
taken-held p document r h = elim (Bool-cases (contains p (keys r.claimed_by_path))) [
  | inl claimed ↦ rw (contains-append p r.used (keys r.claimed_by_path), claimed) (ground arith)
  | inr free ↦
      let used : contains p r.used ≡ true =
        ground (arith, rw (absent-claimed p r.claimed_by_path free) at h) in
      rw (contains-append p r.used (keys r.claimed_by_path), used) refl
]

-- The loop ends with a path.
pub allocate-some :
    (desired document : PathText) (r : Reserved)
    → (path : PathText) × (allocate_materialized_root_path desired document r ≡ some path)
unfolding allocate_materialized_root_path
allocate-some desired document r =
    let path : PathText = wanted desired in
    let found =
      first_free-enough (λ (p : PathText). root_materialized_path_taken p document r)
        (candidate path document) (suc (length r.used + length (keys r.claimed_by_path))) 1
        (r.used ++ keys r.claimed_by_path)
        (rw (length-append r.used (keys r.claimed_by_path)) (omega arith))
        (λ (i : ℕ) (le : 1 ≤ i)
            (h : root_materialized_path_taken (candidate path document i) document r ≡ true).
          taken-held (candidate path document i) document r h)
        (λ (i j : ℕ) (le : 1 ≤ i) (le' : 1 ≤ j)
            (same : candidate path document i ≡ candidate path document j).
          candidate-inj path document i j le le' same) in
    elim (Bool-cases (root_materialized_path_taken path document r)) [
      | inl busy ↦ (found.0, rw busy (found.1))
      | inr free ↦ (path, rw free refl)
    ]
