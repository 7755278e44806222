-- ===== src/Changes/Tests.antt =====
-- Runs of the index of local changes.
use Prim.Native.String.{String}
use codesk.Common.{
  ℕ, ◌+◌, ◌≡◌, refl, true, false, some, List, [], ◌∷◌, arith, String_key, All, if◌then◌else◌, ltb,
  false,
}
use codesk.Common.Dict.{lookup, delete, keys, contains}
use codesk.Common.Text.{is_blank, trim_space, trim_left, trim_right, is_space}
use codesk.Common.Sorting.{count}
use codesk.Changes.{
  FileIdentity, LocalCreateCandidate, LocalDeleteCandidate, WorkspaceChangeIndex,
  new_workspace_change_index, PendingMissingPath, PendingCreatedPath, same_file_identity,
  mark_pending_missing, resolve_pending_missing,
}
use codesk.Changes.Drain.{
  drain, drained, matches_of, match_missing, match_one, search_created, find_created,
}
use codesk.Changes.Matching.{IsIndex, new_paths, create_paths, moved_documents}
use codesk.Changes.Reported.{drain_once, drain_complete}
use codesk.Changes.Runs.{Operation, saw_identity, create, gone, dirty, run, run-IsIndex}
use codesk.Changes.Missing.{mark_pending_missing-drain, deletions, moves}
use codesk.Changes.Resolved.{resolve-again, drained_after}

abbrev file : ℕ → FileIdentity
file ino = record { dev = 1; ino = ino; valid = true }

abbrev created : String → LocalCreateCandidate
created path = record { root = "/w"; path = path; actor_id = "a"; actor_type = "agent" }

-- A file is renamed, one is deleted, one is new.
abbrev calls : List Operation
calls =
    saw_identity "old.md" (file 7)
    ∷ saw_identity "dead.md" (file 8)
    ∷ dirty "d1"
    ∷ gone "d1" "old.md" 1000
    ∷ create (created "new.md") (file 7)
    ∷ create (created "fresh.md") (file 9)
    ∷ gone "d2" "dead.md" 1000
    ∷ []

abbrev index : WorkspaceChangeIndex
index = run calls new_workspace_change_index

index-IsIndex : IsIndex index
index-IsIndex = run-IsIndex calls

abbrev later : ℕ
later = 300_000_000

drain_once_example :
    (count "new.md" (keys index.creates)
      ≡ count "new.md" (new_paths (drain later index).0.0.local_moves)
        + count "new.md" (create_paths (drain later index).0.0.local_creates))
    × ((drain later index).1.creates ≡ [])
    × (count "d1" (keys index.missing)
        ≡ count "d1" (moved_documents (drain later index).0.0.local_moves)
          + count "d1" (keys (drain later index).1.missing))
drain_once_example = drain_once later index "new.md" "d1" index-IsIndex

-- Two documents were links to one file, and one file of theirs came up elsewhere.
abbrev link : String → String → PendingMissingPath
link d path = record {
  document_id = d;
  path = path;
  identity = file 7;
  ready_at = 10;
  generation = 1;
}

abbrev new_file : PendingCreatedPath
new_file = record { candidate = created "c.md"; identity = file 7 }

abbrev links : WorkspaceChangeIndex
links = record {
  dirty_documents = [];
  creates = ("c.md", new_file) ∷ [];
  missing = ("d1", link "d1" "a.md") ∷ ("d2", link "d2" "b.md") ∷ [];
  discover_dirs = [];
  identities = [];
  next_missing_generation = 1;
}

links-IsIndex : IsIndex links
unfolding lookup
links-IsIndex = record {
  creates_map = (refl, tt);
  missing_map = (refl, (refl, tt));
  creates_keyed = (refl, tt);
  missing_keyed = (refl, (refl, tt));
}

second_link : lookup "d2" (drain later links).1.missing ≡ some (link "d2" "b.md")
unfolding drain drained matches_of match_missing match_one search_created find_created
    same_file_identity contains delete lookup
second_link = refl

new_file_there : lookup "c.md" links.creates ≡ some new_file
unfolding lookup
new_file_there = refl

one_file : same_file_identity (file 7) (file 7) ≡ true
unfolding same_file_identity
one_file = refl

drain_complete_example : count "c.md" (new_paths (drain later links).0.0.local_moves) ≡ 1
drain_complete_example =
    drain_complete later links "d2" (link "d2" "b.md") "c.md" new_file links-IsIndex second_link
      new_file_there one_file

named : is_blank "d3" ≡ false
unfolding is_blank trim_space trim_left trim_right is_space
named = refl

mark_pending_missing-drain_example :
    moves later (mark_pending_missing "d3" "d3" 5 links) "d3"
      + deletions later (mark_pending_missing "d3" "d3" 5 links) "d3"
    ≡ (if ltb later (5 + 250_000_000)
        then moves later (mark_pending_missing "d3" "d3" 5 links) "d3"
        else 1)
mark_pending_missing-drain_example =
    mark_pending_missing-drain "d3" "d3" 5 later links links-IsIndex named named

resolve-again_example :
    All
      (λ (x : LocalDeleteCandidate).
        resolve_pending_missing x
          (mark_pending_missing x.document_id "d3" 9 (run calls (drained_after calls later)))
        ≡ (
          mark_pending_missing x.document_id "d3" 9 (run calls (drained_after calls later)),
          false,
        ))
      (drain later index).0.0.local_deletes
resolve-again_example = resolve-again calls calls later 9 "d3" (omega arith) named
