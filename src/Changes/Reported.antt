-- ===== src/Changes/Reported.antt =====
-- What a drain of the index reports and what it leaves.
use Prim.Native.String.{String}
use codesk.Common.{
  ℕ, ◌+◌, ◌≡◌, refl, true, Option, none, some, List, [], ◌∷◌, arith, String_key, if◌then◌else◌, ltb,
  All,
}
use mathlib.Core.List.{map}
use codesk.Common.Dict.{Dict, lookup, keys, IsMap}
use codesk.Common.Sorting.{count, count-sort, sort-All, contains-count}
use codesk.Common.Counts.{count-keys, Each, Each-self}
use codesk.Changes.{
  same_file_identity, LocalMoveCandidate, LocalDeleteCandidate, PendingMissingPath,
  PendingCreatedPath, WorkspaceChangeIndex,
}
use codesk.Changes.Drain.{
  ready_deletes, less_move, less_delete, matches_of, no_matches, drained, changes_at, drain,
}
use codesk.Changes.Matching.{
  IsIndex, count-creates, create_paths, UnderDocument, moved_documents, new_paths,
  matches_of-UsedOnce,
}
use codesk.Changes.Settled.{IsMove, Visited, match_missing-Visited, match_missing-Each}

matches_of-Visited :
    (c : WorkspaceChangeIndex) → IsIndex c → Visited c.creates c.missing [] (matches_of c)
unfolding matches_of
matches_of-Visited c h =
    let self = Each-self c.missing h.missing_map in
    match_missing-Visited c.creates c.missing h.creates_map h.creates_keyed c.missing (no_matches c)
      h.missing_map h.missing_keyed self
      (record {
        still_map = h.missing_map;
        still_missing = self;
        balance = λ d. unfold count in omega arith;
        moves = tt;
        settled = λ d gone path created there absent is_created same. absurd (cc (there, absent));
      })

pub matches_of-Each :
    (P : String → PendingMissingPath → Type 0) (c : WorkspaceChangeIndex)
    → Each P c.missing
    → Each P (matches_of c).missing
unfolding matches_of
matches_of-Each P c h = match_missing-Each P c.creates c.missing (no_matches c) h

pub drain-documents :
    (now : ℕ) (c : WorkspaceChangeIndex) (d : String)
    → IsIndex c
    → count d (keys c.missing)
      ≡ count d (moved_documents (drain now c).0.0.local_moves)
        + count d (keys (drain now c).1.missing)
unfolding drain changes_at drained
drain-documents now c d h = ground (
  arith,
  (matches_of-Visited c h).balance d,
  count-sort less_move (λ (m : LocalMoveCandidate). m.document_id) d (matches_of c).local_moves,
)

-- If the index is well formed, a drain reports every pending create exactly once, as the target of
-- a move or as a create, and keeps none; every missing document is moved once or stays missing.
pub drain_once :
    (now : ℕ) (c : WorkspaceChangeIndex) (path d : String)
    → IsIndex c
    → (count path (keys c.creates)
        ≡ count path (new_paths (drain now c).0.0.local_moves)
          + count path (create_paths (drain now c).0.0.local_creates))
      × ((drain now c).1.creates ≡ [])
      × (count d (keys c.missing)
          ≡ count d (moved_documents (drain now c).0.0.local_moves)
            + count d (keys (drain now c).1.missing))
drain_once now c path d h =
    (count-creates now c path h, unfold drain drained in refl, drain-documents now c d h)

-- If the index is well formed, every move that a drain reports joins a missing document, with its
-- old path, and a pending create, with its new path, that have the same device and inode.
pub drain-moves :
    (now : ℕ) (c : WorkspaceChangeIndex)
    → IsIndex c
    → All (IsMove c.creates c.missing) (drain now c).0.0.local_moves
unfolding drain changes_at
drain-moves now c h =
    sort-All less_move (IsMove c.creates c.missing) (matches_of c).local_moves
      (matches_of-Visited c h).moves

-- If the index is well formed, a document is missing after the drain, and a pending create has the
-- identity of its file, then one move went to the path of that create: no pair is overlooked.
pub drain_complete :
    (now : ℕ) (c : WorkspaceChangeIndex) (d : String) (gone : PendingMissingPath) (path : String)
    (created : PendingCreatedPath)
    → IsIndex c
    → lookup d (drain now c).1.missing ≡ some gone
    → lookup path c.creates ≡ some created
    → same_file_identity gone.identity created.identity ≡ true
    → count path (new_paths (drain now c).0.0.local_moves) ≡ 1
unfolding drain drained changes_at lookup
drain_complete now c d gone path created h still is_created same =
    let used = (matches_of-Visited c h).settled d gone path created still refl is_created same in
    ground (
      arith,
      used,
      contains-count path (matches_of c).used_creates,
      matches_of-UsedOnce c h path,
      count-keys path c.creates h.creates_map,
      is_created,
      count-sort less_move (λ (m : LocalMoveCandidate). m.new_path) path (matches_of c).local_moves,
    )

-- 1 for a document whose delay is over.
abbrev pub due_count : ℕ → Option PendingMissingPath → ℕ
due_count now none = 0
due_count now (some gone) = if ltb now gone.ready_at then 0 else 1

abbrev pub deleted_documents : List LocalDeleteCandidate → List String
deleted_documents deletes = map (λ (m : LocalDeleteCandidate). m.document_id) deletes

count-ready_deletes :
    (now : ℕ) (missing : Dict String PendingMissingPath) (d : String)
    → IsMap missing
    → Each UnderDocument missing
    → count d (deleted_documents (ready_deletes now missing)) ≡ due_count now (lookup d missing)
unfolding ready_deletes count lookup
count-ready_deletes now [] d h named = refl
count-ready_deletes now ((document_id, gone) ∷ rest) d (fresh, h) (name, named) = ground (
  arith,
  count-ready_deletes now rest d h named,
  String_key.same_iff document_id d,
  String_key.same_iff gone.document_id d,
  name,
  fresh,
)

-- A document is reported as deleted once if it is still missing after the drain and its delay is
-- over, and not otherwise.
pub drain-deletes :
    (now : ℕ) (c : WorkspaceChangeIndex) (d : String)
    → IsIndex c
    → count d (deleted_documents (drain now c).0.0.local_deletes)
      ≡ due_count now (lookup d (drain now c).1.missing)
unfolding drain drained changes_at
drain-deletes now c d h = ground (
  arith,
  count-sort less_delete (λ (m : LocalDeleteCandidate). m.document_id) d
      (ready_deletes now (matches_of c).missing),
  count-ready_deletes now (matches_of c).missing d (matches_of-Visited c h).still_map
      (matches_of-Each UnderDocument c h.missing_keyed),
)

-- A drain keeps the index well formed.
pub drain-IsIndex : (now : ℕ) (c : WorkspaceChangeIndex) → IsIndex c → IsIndex (drain now c).1
unfolding drain drained
drain-IsIndex now c h = record {
  creates_map = tt;
  missing_map = (matches_of-Visited c h).still_map;
  creates_keyed = tt;
  missing_keyed = matches_of-Each UnderDocument c h.missing_keyed;
}
