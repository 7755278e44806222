-- ===== src/Projection/Distinct.antt =====
-- No two files of a projection have the same path.
use mathlib.Core.List.{map, map-append}
use codesk.Common.{
  ◌≢◌, ℕ, ◌≤◌, ◌≡◌, refl, subst, true, false, ◌||◌, some, List, [], ◌∷◌, ◌++◌, ◌==◌, arith,
  is_empty, inl, inr, Bool-cases, same_refl,
}
use codesk.Common.Dict.{Dict, contains}
use codesk.Common.Text.{set_insert}
use codesk.Common.Sorting.{sort, count, count-append, count-sort}
use codesk.Paths.{PathText, same_text}
use codesk.Paths.Texts.{PathText_key, same_text_iff}
use codesk.Intents.{LocalNamespaceClaim}
use codesk.Projection.{RootEntry, RootProjectionEntry, Reserved, previous_by_document}
use codesk.Projection.Allocation.{
  root_materialized_path_taken, use_path, materialize_all, deleted_entries, less_entry, in_order,
  reserved_paths, allocate_root_projection_entries,
}
use codesk.Projection.Placed.{materialize_all-IsPlaced, materialize_all-some, materialize_all-nil}

abbrev pub paths : List RootProjectionEntry → List PathText
paths ps = map (λ (p : RootProjectionEntry). p.materialized_path) ps

pub contains-set_insert :
    (p q : PathText) (s : List PathText) → contains p (set_insert q s) ≡ ((q == p) || contains p s)
unfolding set_insert
contains-set_insert p q s = elim (Bool-cases (contains q s)) [
  | inl old ↦ elim (Bool-cases (q == p)) [
    | inl same ↦
        let at_p : q ≡ p = (same_text_iff q p).0 same in
        rw (old, same) (subst (λ (t : PathText). contains t s ≡ true) at_p old)
    | inr other ↦ rw (old, other) refl
  ]
  | inr fresh ↦ rw fresh (unfold contains in refl)
]

used_is_taken :
    (p document : PathText) (r : Reserved)
    → contains p r.used ≡ true
    → root_materialized_path_taken p document r ≢ false
unfolding root_materialized_path_taken
used_is_taken p document r used h = ground (arith, h, used)

-- A path that is used is not given again.
used-absent :
    (previous : Dict PathText RootProjectionEntry) (seq : ℕ) (es : List RootEntry) (r : Reserved)
    (ps : List RootProjectionEntry) (p : PathText)
    → materialize_all previous seq es r ≡ some ps
    → contains p r.used ≡ true
    → count p (paths ps) ≡ 0
used-absent previous seq [] r ps p h used =
    let same : [] ≡ ps = materialize_all-nil previous seq r ps h in
    rw (← same) (unfold count in refl)
used-absent previous seq (e ∷ es) r ps p h used =
    let place = materialize_all-IsPlaced previous seq e es r ps h in
    let still : contains p (set_insert place.path r.used) ≡ true =
      rw (contains-set_insert p place.path r.used, used) (ground arith) in
    rw (← place.whole) (
      skip place.path (paths place.rest)
        (used-absent previous seq es (use_path place.path r) place.rest p place.others still)
        place.free.not_taken)
  where
    skip :
        (q : PathText) (qs : List PathText)
        → count p qs ≡ 0
        → root_materialized_path_taken q e.content_document_id r ≡ false
        → count p (q ∷ qs) ≡ 0
    skip q qs none_left free = elim (Bool-cases (q == p)) [
      | inl same ↦
          let at_p : q ≡ p = (same_text_iff q p).0 same in
          absurd (used_is_taken p e.content_document_id r used (rw at_p at free))
      | inr other ↦ unfold count in rw other none_left
    ]

materialize_all-count :
    (previous : Dict PathText RootProjectionEntry) (seq : ℕ) (es : List RootEntry) (r : Reserved)
    (ps : List RootProjectionEntry) (p : PathText)
    → materialize_all previous seq es r ≡ some ps
    → count p (paths ps) ≤ 1
materialize_all-count previous seq [] r ps p h =
    let same : [] ≡ ps = materialize_all-nil previous seq r ps h in
    rw (← same) (unfold count in omega arith)
materialize_all-count previous seq (e ∷ es) r ps p h =
    let place = materialize_all-IsPlaced previous seq e es r ps h in
    rw (← place.whole) (
      also_there place.path (paths place.rest)
        (materialize_all-count previous seq es (use_path place.path r) place.rest p place.others)
        (λ (same : place.path ≡ p).
          used-absent previous seq es (use_path place.path r) place.rest p place.others
            (rw (contains-set_insert p place.path r.used, same, same_refl p) refl)))
  where
    also_there :
        (q : PathText) (qs : List PathText)
        → count p qs ≤ 1
        → (q ≡ p → count p qs ≡ 0)
        → count p (q ∷ qs) ≤ 1
    also_there q qs le absent = elim (Bool-cases (q == p)) [
      | inl same ↦ unfold count in rw (same, absent ((same_text_iff q p).0 same)) (omega arith)
      | inr other ↦ unfold count in rw other le
    ]

deleted-count :
    (seq : ℕ) (es : List RootEntry) (p : PathText)
    → is_empty p ≡ false
    → count p (paths (deleted_entries seq es)) ≡ 0
unfolding deleted_entries count same_text
deleted-count seq [] p some_rune = refl
deleted-count seq (e ∷ es) [] some_rune = absurd (cc some_rune)
deleted-count seq (e ∷ es) (c ∷ p) some_rune = elim (Bool-cases e.deleted) [
  | inl gone ↦ rw gone (deleted-count seq es (c ∷ p) some_rune)
  | inr here ↦ rw here (deleted-count seq es (c ∷ p) some_rune)
]

-- The allocation always returns entries, and no path but the empty one, which is that of deleted
-- entries, stands for two of them.
pub allocate_root_projection_entries-count :
    (previous : List RootProjectionEntry) (entries : List RootEntry) (seq : ℕ)
    (claims : List LocalNamespaceClaim) (p : PathText)
    → is_empty p ≡ false
    → (next : List RootProjectionEntry) × (allocate_root_projection_entries previous entries seq
          claims
        ≡ some next)
      × (count p (paths next) ≤ 1)
unfolding allocate_root_projection_entries
allocate_root_projection_entries-count previous entries seq claims p some_rune =
    let before = previous_by_document previous [] in
    let r = reserved_paths entries claims in
    let found = materialize_all-some before seq (in_order entries) r in
    let gone = deleted_entries seq entries in
    (
      sort less_entry (found.0 ++ gone),
      rw (found.1) refl,
      rw
          (
            count-sort less_entry (λ (q : RootProjectionEntry). q.materialized_path) p
                (found.0 ++ gone),
            map-append (λ (q : RootProjectionEntry). q.materialized_path) (found.0) gone,
            count-append p (paths (found.0)) (paths gone),
            deleted-count seq entries p some_rune,
          )
          (omega
            (arith, materialize_all-count before seq (in_order entries) r (found.0) p (found.1))),
    )
