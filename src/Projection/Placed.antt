-- ===== src/Projection/Placed.antt =====
-- Each active entry gets a path that is free, and takes it from the others.
use codesk.Common.{
  ℕ, zero, suc, ◌≡◌, refl, subst, Bool, false, ◌||◌, Option, none, some, List, [], ◌∷◌, arith,
  is_empty, inl, inr, Bool-cases,
}
use codesk.Common.Dict.{Dict, lookup}
use codesk.Common.Search.{first_free, first_free-taken}
use codesk.Paths.{PathText, normalize_root_path, normalize_visible_root_path}
use codesk.Paths.Texts.{PathText_key, runes}
use codesk.Projection.{RootEntry, RootProjectionEntry, Reserved, desired_path, if_visible}
use codesk.Projection.Allocation.{
  wanted, candidate, root_materialized_path_taken, allocate_materialized_root_path, previous_path,
  reusable, reuse_path, previous_materialized_root_path, materialize, use_path, projected_entry,
  with_rest, placed, materialize_all,
}
use codesk.Projection.Candidates.{allocate-some, candidate-nonempty}

-- A path that a document can have.
pub record IsFree (path document : PathText) (r : Reserved) : Type 0 where
  pub not_taken : root_materialized_path_taken path document r ≡ false
  pub some_rune : is_empty path ≡ false

first_free-candidate :
    (test : PathText → Bool) (desired document : PathText) (fuel index : ℕ) (path : PathText)
    → first_free test (candidate desired document) fuel index ≡ some path
    → is_empty path ≡ false
unfolding first_free
first_free-candidate test desired document zero index path h = absurd (cc h)
first_free-candidate test desired document (suc fuel) index path h =
    elim (Bool-cases (test (candidate desired document index))) [
      | inl e ↦ first_free-candidate test desired document fuel (suc index) path (rw e at h)
      | inr e ↦
          let same : candidate desired document index ≡ path = cc (rw e at h) in
          subst (λ (p : PathText). is_empty p ≡ false) same
            (candidate-nonempty desired document index)
    ]

wanted-nonempty : (desired : PathText) → is_empty (wanted desired) ≡ false
wanted-nonempty desired = elim (Bool-cases (is_empty (normalize_root_path desired))) [
  | inl e ↦ rw e (unfold runes in refl)
  | inr e ↦ rw (e, e) refl
]

allocate-IsFree :
    (desired document : PathText) (r : Reserved) (path : PathText)
    → allocate_materialized_root_path desired document r ≡ some path
    → IsFree path document r
unfolding allocate_materialized_root_path
allocate-IsFree desired document r path h =
    let test : PathText → Bool = λ (p : PathText). root_materialized_path_taken p document r in
    elim (Bool-cases (root_materialized_path_taken (wanted desired) document r)) [
      | inl busy ↦
          let tried = rw busy at h in
          record {
            not_taken = first_free-taken test (candidate (wanted desired) document) _ 1 path tried;
            some_rune = first_free-candidate test (wanted desired) document _ 1 path tried;
          }
      | inr free ↦
          let same : wanted desired ≡ path = cc (rw free at h) in
          subst (λ (p : PathText). IsFree p document r) same
            (record { not_taken = free; some_rune = wanted-nonempty desired })
    ]

previous_path-IsFree :
    (o : Option PathText) (document : PathText) (r : Reserved)
    → is_empty (previous_path o document r) ≡ false
    → IsFree (previous_path o document r) document r
previous_path-IsFree none document r h = absurd (cc h)
previous_path-IsFree (some path) document r h =
    elim (Bool-cases (is_empty path || root_materialized_path_taken path document r)) [
      | inl refused ↦ absurd (cc (rw refused at h))
      | inr kept ↦
          rw kept (record { not_taken = ground (arith, kept); some_rune = ground (arith, kept) })
    ]

reuse_path-IsFree :
    (desired document : PathText) (o : Option RootProjectionEntry) (r : Reserved)
    → is_empty (reuse_path desired document o r) ≡ false
    → IsFree (reuse_path desired document o r) document r
reuse_path-IsFree desired document none r h = absurd (cc h)
reuse_path-IsFree desired document (some p) r h = elim (Bool-cases (reusable desired p)) [
  | inl same ↦ rw same (
      previous_path-IsFree (if_visible (normalize_visible_root_path p.materialized_path)) document r
        (rw same at h))
  | inr other ↦ absurd (cc (rw other at h))
]

pub materialize-IsFree :
    (e : RootEntry) (previous : Dict PathText RootProjectionEntry) (r : Reserved) (path : PathText)
    → materialize e previous r ≡ some path
    → IsFree path e.content_document_id r
unfolding materialize previous_materialized_root_path
materialize-IsFree e previous r path h =
    elim (Bool-cases (is_empty (previous_materialized_root_path e previous r))) [
      | inl fresh ↦ allocate-IsFree (desired_path e) e.content_document_id r path (rw fresh at h)
      | inr kept ↦
          let same : previous_materialized_root_path e previous r ≡ path = cc (rw kept at h) in
          subst (λ (p : PathText). IsFree p e.content_document_id r) same
            (reuse_path-IsFree (desired_path e) e.content_document_id
              (lookup e.content_document_id previous) r kept)
    ]

materialize-some :
    (e : RootEntry) (previous : Dict PathText RootProjectionEntry) (r : Reserved)
    → (path : PathText) × (materialize e previous r ≡ some path)
unfolding materialize
materialize-some e previous r =
    elim (Bool-cases (is_empty (previous_materialized_root_path e previous r))) [
      | inl fresh ↦
          let found = allocate-some (desired_path e) e.content_document_id r in
          (found.0, rw fresh (found.1))
      | inr kept ↦ (previous_materialized_root_path e previous r, rw kept refl)
    ]

-- The path that an entry took, and what the others got.
pub record IsPlaced (e : RootEntry) (previous : Dict PathText RootProjectionEntry) (seq : ℕ)
    (es : List RootEntry) (r : Reserved) (ps : List RootProjectionEntry) : Type 0 where
  pub path : PathText
  pub rest : List RootProjectionEntry
  pub free : IsFree path e.content_document_id r
  pub others : materialize_all previous seq es (use_path path r) ≡ some rest
  pub whole : projected_entry e path seq ∷ rest ≡ ps

pub materialize_all-nil :
    (previous : Dict PathText RootProjectionEntry) (seq : ℕ) (r : Reserved)
    (ps : List RootProjectionEntry)
    → materialize_all previous seq [] r ≡ some ps
    → [] ≡ ps
unfolding materialize_all
materialize_all-nil previous seq r ps h = cc h

pub materialize_all-IsPlaced :
    (previous : Dict PathText RootProjectionEntry) (seq : ℕ) (e : RootEntry) (es : List RootEntry)
    (r : Reserved) (ps : List RootProjectionEntry)
    → materialize_all previous seq (e ∷ es) r ≡ some ps
    → IsPlaced e previous seq es r ps
unfolding materialize_all
materialize_all-IsPlaced previous seq e es r ps h = first (materialize e previous r) refl h
  where
    next : Reserved → Option (List RootProjectionEntry)
    next s = materialize_all previous seq es s

    rest_of :
        (path : PathText)
        → materialize e previous r ≡ some path
        → (o : Option (List RootProjectionEntry)) → next (use_path path r) ≡ o
        → with_rest (projected_entry e path seq) o ≡ some ps
        → IsPlaced e previous seq es r ps
    rest_of path found none g h = absurd (cc h)
    rest_of path found (some rest) g h = record {
      path = path;
      rest = rest;
      free = materialize-IsFree e previous r path found;
      others = g;
      whole = cc h;
    }

    first :
        (o : Option PathText)
        → materialize e previous r ≡ o
        → placed e seq r next o ≡ some ps
        → IsPlaced e previous seq es r ps
    first none found h = absurd (cc h)
    first (some path) found h = rest_of path found (next (use_path path r)) refl h

pub materialize_all-some :
    (previous : Dict PathText RootProjectionEntry) (seq : ℕ) (es : List RootEntry) (r : Reserved)
    → (ps : List RootProjectionEntry) × (materialize_all previous seq es r ≡ some ps)
materialize_all-some previous seq [] r = ([], unfold materialize_all in refl)
materialize_all-some previous seq (e ∷ es) r =
    let found = materialize-some e previous r in
    let others = materialize_all-some previous seq es (use_path (found.0) r) in
    (
      projected_entry e (found.0) seq ∷ others.0,
      placed_first (found.0) (others.0) (found.1) (others.1),
    )
  where
    placed_first :
        (path : PathText) (ps : List RootProjectionEntry)
        → materialize e previous r ≡ some path
        → materialize_all previous seq es (use_path path r) ≡ some ps
        → materialize_all previous seq (e ∷ es) r ≡ some (projected_entry e path seq ∷ ps)
    placed_first path ps h g = unfold materialize_all in rw (h, g) refl
