-- ===== src/Changes/Matching.antt =====
-- What `drain` makes of creates and missing paths: every one is reported once, moves join paths of
-- one file, and no such pair is overlooked.
use Prim.Native.String.{String}
use codesk.Common.{
  ℕ, ◌+◌, ◌≤◌, ◌≡◌, refl, Bool, true, false, Option, none, some, List, [], ◌∷◌, ◌++◌, arith,
  String_key, ◌==◌, if◌then◌else◌, inl, inr, Bool-cases, same_refl,
}
use mathlib.Core.List.{map}
use codesk.Common.Dict.{Dict, contains, lookup, delete, keys, IsMap}
use codesk.Common.Sorting.{count, count-append, count-sort, contains-count}
use codesk.Common.Counts.{count-keys, count-keys-delete, Each, delete-Each, Each-lookup}
use codesk.Changes.{
  FileIdentity, same_file_identity, LocalMoveCandidate, LocalCreateCandidate, PendingMissingPath,
  PendingCreatedPath, WorkspaceChangeIndex,
}
use codesk.Changes.Drain.{
  find_created, search_created, Pairing, move_of, match_one, match_missing, delete_used,
  taken_creates, less_create, less_move, matches_of, no_matches, unused_creates, changes_at, drain,
}

-- A create is kept under its own path, a missing path under its document.
abbrev pub UnderPath : String → PendingCreatedPath → Type 0
UnderPath path created = created.candidate.path ≡ path

abbrev pub UnderDocument : String → PendingMissingPath → Type 0
UnderDocument document_id gone = gone.document_id ≡ document_id

pub record IsIndex (c : WorkspaceChangeIndex) : Type 0 where
  pub creates_map : IsMap c.creates
  pub missing_map : IsMap c.missing
  pub creates_keyed : Each UnderPath c.creates
  pub missing_keyed : Each UnderDocument c.missing

-- What the search finds is there, is not used, and is the same file.
abbrev pub IsFound :
    FileIdentity
    → List String
    → Dict String PendingCreatedPath
    → String
    → PendingCreatedPath
    → Type 0
IsFound identity used creates path created =
    (contains path used ≡ false)
    × (same_file_identity identity created.identity ≡ true)
    × (lookup path creates ≡ some created)

module _ (identity : FileIdentity) (used : List String) where
  IsFound-later :
      (p : String) (x : PendingCreatedPath) (rest : Dict String PendingCreatedPath) (path : String)
      (created : PendingCreatedPath)
      → lookup p rest ≡ none
      → IsFound identity used rest path created
      → IsFound identity used ((p, x) ∷ rest) path created
  unfolding lookup
  IsFound-later p x rest path created fresh h = elim (Bool-cases (p == path)) [
    | inl e ↦
        let same_path : p ≡ path = (String_key.same_iff p path).0 e in
        absurd (cc (h.2, fresh, same_path))
    | inr e ↦ rw e h
  ]

  find_created-IsFound :
      (creates : Dict String PendingCreatedPath) (path : String) (created : PendingCreatedPath)
      → IsMap creates
      → find_created identity used creates ≡ some (path, created)
      → IsFound identity used creates path created
  unfolding find_created
  find_created-IsFound [] path created h found = absurd (cc found)
  find_created-IsFound ((p, x) ∷ rest) path created (fresh, h) found =
      let inner = find_created-IsFound rest path created h in
      let later : find_created identity used rest ≡ some (path, created)
          → IsFound identity used ((p, x) ∷ rest) path created =
        λ q. IsFound-later p x rest path created fresh (inner q) in
      elim (Bool-cases (contains p used)) [
        | inl taken ↦ later (rw taken at found)
        | inr free ↦ elim (Bool-cases (same_file_identity identity x.identity)) [
          | inr other ↦ later (rw (free, other) at found)
          | inl same ↦ here free same (rw (free, same) at found)
        ]
      ]
    where
      here :
          contains p used ≡ false
          → same_file_identity identity x.identity ≡ true
          → ◌≡◌ {A = Option (String × PendingCreatedPath)} (some (p, x)) (some (path, created))
          → IsFound identity used ((p, x) ∷ rest) path created
      here free same q =
          let e : p ≡ path = cc q in
          let f : x ≡ created = cc q in
          rw (← e, ← f) (free, same, unfold lookup in rw (same_refl p) refl)

  pub search_created-IsFound :
      (valid : Bool) (creates : Dict String PendingCreatedPath) (path : String)
      (created : PendingCreatedPath)
      → IsMap creates
      → search_created valid identity used creates ≡ some (path, created)
      → IsFound identity used creates path created
  unfolding search_created
  search_created-IsFound false creates path created h found = absurd (cc found)
  search_created-IsFound true creates path created h found =
      find_created-IsFound creates path created h found

  -- Where nothing is found, every create of the same file is used.
  pub find_created-none :
      (creates : Dict String PendingCreatedPath) (path : String) (created : PendingCreatedPath)
      → find_created identity used creates ≡ none
      → lookup path creates ≡ some created
      → same_file_identity identity created.identity ≡ true
      → contains path used ≡ true
  unfolding find_created lookup
  find_created-none [] path created q there same = absurd (cc there)
  find_created-none ((p, x) ∷ rest) path created q there same =
      let later = find_created-none rest path created in
      ground (arith, later, String_key.same_iff p path)

-- The new paths of the moves, which are the paths that creates are used under.
abbrev pub new_paths : List LocalMoveCandidate → List String
new_paths moves = map (λ (m : LocalMoveCandidate). m.new_path) moves

abbrev pub moved_documents : List LocalMoveCandidate → List String
moved_documents moves = map (λ (m : LocalMoveCandidate). m.document_id) moves

pub map-append_one {ℓ κ} :
    {A : Type ℓ} {B : Type κ} (f : A → B) (xs : List A) (x : A)
    → map f (xs ++ x ∷ []) ≡ map f xs ++ f x ∷ []
map-append_one f [] x = refl
map-append_one f (y ∷ xs) x = cc (map-append_one f xs x)

module _ (creates : Dict String PendingCreatedPath) where
  -- Every create is used at most once, by the move to its path.
  abbrev pub UsedOnce : Pairing → Type 0
  UsedOnce s =
      (path : String)
      → (count path s.used_creates ≤ count path (keys creates))
        × (count path (new_paths s.local_moves) ≡ count path s.used_creates)

  module _ (h : IsMap creates) (keyed : Each UnderPath creates) where
    match_one-UsedOnce :
        (document_id : String) (gone : PendingMissingPath) (s : Pairing)
        (found : Option (String × PendingCreatedPath))
        → ((path : String) (created : PendingCreatedPath)
            → found ≡ some (path, created)
            → IsFound gone.identity s.used_creates creates path created)
        → UsedOnce s
        → UsedOnce (match_one document_id gone found s)
    unfolding match_one
    match_one-UsedOnce document_id gone s none correct once j = once j
    match_one-UsedOnce document_id gone s (some (path, created)) correct once j =
        let new = correct path created refl in
        let same_path : created.candidate.path ≡ path =
          Each-lookup UnderPath path created creates keyed (new.2) in
        let before = once j in
        let unused = contains-count path s.used_creates in
        let there = count-keys path creates h in
        let moves =
          map-append_one (λ (m : LocalMoveCandidate). m.new_path) s.local_moves
            (move_of gone created) in
        let added = count-append j (new_paths s.local_moves) (path ∷ []) in
        unfold count in
        rw (moves, same_path) ground
          (arith, new, before, unused, there, added, String_key.same_iff path j)

    match_missing-UsedOnce :
        (rest : Dict String PendingMissingPath) (s : Pairing)
        → UsedOnce s
        → UsedOnce (match_missing creates rest s)
    unfolding match_missing
    match_missing-UsedOnce [] s once j = once j
    match_missing-UsedOnce ((document_id, gone) ∷ rest) s once j =
        let found = search_created gone.identity.valid gone.identity s.used_creates creates in
        let correct = λ (path : String) (created : PendingCreatedPath).
          search_created-IsFound gone.identity s.used_creates gone.identity.valid creates path
            created h in
        let once' = match_one-UsedOnce document_id gone s found correct once in
        match_missing-UsedOnce rest (match_one document_id gone found s) once' j

count-delete_used :
    (path : String) (used : List String) (creates : Dict String PendingCreatedPath)
    → count path (keys (delete_used used creates))
      ≡ (if contains path used then 0 else count path (keys creates))
unfolding delete_used contains
count-delete_used path [] creates = refl
count-delete_used path (u ∷ used) creates =
    ground (arith, count-delete_used path used (delete u creates), count-keys-delete u path creates)

delete_used-Each :
    (P : String → PendingCreatedPath → Type 0) (used : List String)
    (creates : Dict String PendingCreatedPath)
    → Each P creates
    → Each P (delete_used used creates)
unfolding delete_used
delete_used-Each P [] creates h = h
delete_used-Each P (u ∷ used) creates h =
    delete_used-Each P used (delete u creates) (delete-Each P u creates h)

-- The paths of the creates that a drain reports.
abbrev pub create_paths : List LocalCreateCandidate → List String
create_paths creates = map (λ (c : LocalCreateCandidate). c.path) creates

create_paths-taken_creates :
    (creates : Dict String PendingCreatedPath)
    → Each UnderPath creates
    → create_paths (taken_creates creates) ≡ keys creates
unfolding taken_creates keys
create_paths-taken_creates [] h = refl
create_paths-taken_creates ((path, created) ∷ rest) (e, h) =
    cc (e, create_paths-taken_creates rest h)

pub matches_of-UsedOnce : (c : WorkspaceChangeIndex) → IsIndex c → UsedOnce c.creates (matches_of c)
unfolding matches_of
matches_of-UsedOnce c h j =
    match_missing-UsedOnce c.creates h.creates_map h.creates_keyed c.missing (no_matches c)
      (λ j. unfold count in ground arith) j

-- A drain reports a pending create as the target of one move or as one create.
pub count-creates :
    (now : ℕ) (c : WorkspaceChangeIndex) (path : String)
    → IsIndex c
    → count path (keys c.creates)
      ≡ count path (new_paths (drain now c).0.0.local_moves)
        + count path (create_paths (drain now c).0.0.local_creates)
unfolding drain changes_at unused_creates
count-creates now c path h =
    let used = (matches_of c).used_creates in
    ground (
      arith,
      count-sort less_move (λ (m : LocalMoveCandidate). m.new_path) path (matches_of c).local_moves,
      count-sort less_create (λ (m : LocalCreateCandidate). m.path) path
          (taken_creates (delete_used used c.creates)),
      create_paths-taken_creates (delete_used used c.creates)
          (delete_used-Each UnderPath used c.creates h.creates_keyed),
      count-delete_used path used c.creates,
      contains-count path used,
      count-keys path c.creates h.creates_map,
      matches_of-UsedOnce c h path,
    )
