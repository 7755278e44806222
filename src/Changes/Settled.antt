-- ===== src/Changes/Settled.antt =====
-- The loop of `drain` over the missing paths: which documents it moves, between which paths, and
-- which it leaves.
use Prim.Native.String.{String}
use codesk.Common.{
  ◌+◌, ◌≡◌, refl, subst, Bool, true, false, Option, none, some, List, [], ◌∷◌, arith, String_key,
  ◌==◌, if◌then◌else◌, inl, inr, Bool-cases, All, All-append,
}
use codesk.Common.Dict.{Dict, contains, lookup, keys, IsMap, lookup-delete}
use codesk.Common.Sorting.{count, count-append}
use codesk.Common.Counts.{
  count-keys, count-keys-delete, Each, delete-IsMap, delete-Each, Each-lookup, delete-below,
}
use codesk.Changes.{
  FileIdentity, same_file_identity, LocalMoveCandidate, PendingMissingPath, PendingCreatedPath,
}
use codesk.Changes.Drain.{search_created, Pairing, move_of, match_one, match_missing}
use codesk.Changes.Matching.{
  UnderDocument, UnderPath, search_created-IsFound, find_created-none, moved_documents,
  map-append_one,
}

lookup-head :
    (k j : String) (gone : PendingMissingPath) (rest : Dict String PendingMissingPath)
    → lookup j ((k, gone) ∷ rest) ≡ (if k == j then some gone else lookup j rest)
unfolding lookup
lookup-head k j gone rest = refl

abbrev pub StillMissing : Dict String PendingMissingPath → String → PendingMissingPath → Type 0
StillMissing missing document_id gone = lookup document_id missing ≡ some gone

module _ (creates : Dict String PendingCreatedPath) (missing : Dict String PendingMissingPath) where
  -- A move joins a missing path and a create of one file.
  pub record IsMove (move : LocalMoveCandidate) : Type 0 where
    pub gone : PendingMissingPath
    pub created : PendingCreatedPath
    pub is_missing : lookup move.document_id missing ≡ some gone
    pub from : gone.path ≡ move.old_path
    pub is_created : lookup move.new_path creates ≡ some created
    pub one_file : same_file_identity gone.identity created.identity ≡ true

  -- What holds when the loop has come to `rest`: a document is moved or still missing, the moves
  -- are right, and of the documents passed the missing ones have no unused create of their file.
  pub record Visited (rest : Dict String PendingMissingPath) (s : Pairing) : Type 0 where
    pub still_map : IsMap s.missing
    pub still_missing : Each (StillMissing s.missing) rest
    pub balance :
        (d : String)
        → count d (keys missing)
          ≡ count d (moved_documents s.local_moves) + count d (keys s.missing)
    pub moves : All IsMove s.local_moves
    pub settled :
        (d : String) (gone : PendingMissingPath) (path : String) (created : PendingCreatedPath)
        → lookup d s.missing ≡ some gone
        → lookup d rest ≡ none
        → lookup path creates ≡ some created
        → same_file_identity gone.identity created.identity ≡ true
        → contains path s.used_creates ≡ true

  search_created-none :
      (valid : Bool) (identity : FileIdentity) (used : List String) (path : String)
      (created : PendingCreatedPath)
      → identity.valid ≡ valid
      → search_created valid identity used creates ≡ none
      → lookup path creates ≡ some created
      → same_file_identity identity created.identity ≡ true
      → contains path used ≡ true
  unfolding search_created
  search_created-none true identity used path created e q there same =
      find_created-none identity used creates path created q there same
  search_created-none false identity used path created e q there same =
      absurd (unfold same_file_identity in ground (arith, e, same))

  module _ (h : IsMap creates) (keyed : Each UnderPath creates) where
    visit_one :
        (document_id : String) (gone : PendingMissingPath) (rest : Dict String PendingMissingPath)
        (s : Pairing) (found : Option (String × PendingCreatedPath))
        → search_created gone.identity.valid gone.identity s.used_creates creates ≡ found
        → IsMap ((document_id, gone) ∷ rest)
        → Each UnderDocument ((document_id, gone) ∷ rest)
        → StillMissing missing document_id gone
        → Visited ((document_id, gone) ∷ rest) s
        → Visited rest (match_one document_id gone found s)
    unfolding match_one
    visit_one document_id gone rest s none q (fresh, map) (name, named) there v = record {
      still_map = v.still_map;
      still_missing = v.still_missing.1;
      balance = v.balance;
      moves = v.moves;
      settled = λ d left path created still passed is_created same.
          elim (Bool-cases (document_id == d)) [
            | inl here ↦
                let e : document_id ≡ d = (String_key.same_iff document_id d).0 here in
                let g : left ≡ gone = cc (e, still, v.still_missing.0) in
                search_created-none gone.identity.valid gone.identity s.used_creates path created
                  refl q is_created
                  (subst
                    (λ (m : PendingMissingPath).
                      same_file_identity m.identity created.identity ≡ true)
                    g same)
            | inr other ↦
                v.settled d left path created still
                  (rw (lookup-head document_id d gone rest, other) passed) is_created same
          ];
    }
    visit_one document_id gone rest s (some (path, created)) q (fresh, map) (name, named) there v =
        let new =
          search_created-IsFound gone.identity s.used_creates gone.identity.valid creates path
            created h q in
        let same_path : created.candidate.path ≡ path =
          Each-lookup UnderPath path created creates keyed (new.2) in
        let last = move_of gone created in
        record {
          still_map = delete-IsMap document_id s.missing v.still_map;
          still_missing = delete-below document_id s.missing rest fresh (v.still_missing.1);
          balance = λ d.
              let moved =
                map-append_one (λ (m : LocalMoveCandidate). m.document_id) s.local_moves last in
              let added = count-append d (moved_documents s.local_moves) (document_id ∷ []) in
              let before = v.balance d in
              let left = count-keys-delete document_id d s.missing in
              let once = count-keys document_id s.missing v.still_map in
              let here = v.still_missing.0 in
              unfold count in
              rw (moved, name) ground
                (arith, added, before, left, once, here, String_key.same_iff document_id d);
          moves = All-append IsMove s.local_moves (last ∷ []) v.moves (
            record {
              gone = gone;
              created = created;
              is_missing = cc (name, there);
              from = refl;
              is_created = cc (same_path, new.2);
              one_file = new.1;
            },
            tt,
          );
          settled = λ d left p c still passed is_created same.
              let earlier = v.settled d left p c in
              unfold contains in
              ground (
                arith,
                earlier,
                still,
                passed,
                is_created,
                same,
                lookup-delete document_id d s.missing,
                lookup-head document_id d gone rest,
              );
        }

    pub match_missing-Visited :
        (rest : Dict String PendingMissingPath) (s : Pairing)
        → IsMap rest
        → Each UnderDocument rest
        → Each (StillMissing missing) rest
        → Visited rest s
        → Visited [] (match_missing creates rest s)
    unfolding match_missing
    match_missing-Visited [] s map named there v = v
    match_missing-Visited ((document_id, gone) ∷ rest) s map named there v =
        let found = search_created gone.identity.valid gone.identity s.used_creates creates in
        let v' = visit_one document_id gone rest s found refl map named (there.0) v in
        match_missing-Visited rest (match_one document_id gone found s) (map.1) (named.1) (there.1)
          v'

-- The loop only takes documents away.
module _ (P : String → PendingMissingPath → Type 0) where
  match_one-Each :
      (document_id : String) (gone : PendingMissingPath)
      (found : Option (String × PendingCreatedPath)) (s : Pairing)
      → Each P s.missing
      → Each P (match_one document_id gone found s).missing
  unfolding match_one
  match_one-Each document_id gone none s h = h
  match_one-Each document_id gone (some (path, created)) s h = delete-Each P document_id s.missing h

  pub match_missing-Each :
      (creates : Dict String PendingCreatedPath) (rest : Dict String PendingMissingPath)
      (s : Pairing)
      → Each P s.missing
      → Each P (match_missing creates rest s).missing
  unfolding match_missing
  match_missing-Each creates [] s h = h
  match_missing-Each creates ((document_id, gone) ∷ rest) s h =
      let found = search_created gone.identity.valid gone.identity s.used_creates creates in
      match_missing-Each creates rest (match_one document_id gone found s)
        (match_one-Each document_id gone found s h)
