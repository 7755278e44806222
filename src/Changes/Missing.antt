-- ===== src/Changes/Missing.antt =====
-- When a missing path is reported as deleted.
use Prim.Native.String.{String}
use codesk.Common.{
  ℕ, ◌+◌, ◌≤◌, ◌<◌, ◌≡◌, refl, ap, ◌∙◌, false, Option, none, some, arith, String_key, if◌then◌else◌,
  ltb, ltb→lt, inl, inr, Bool-cases,
}
use codesk.Common.Dict.{lookup, keys, lookup-insert_self}
use codesk.Common.Text.{is_blank}
use codesk.Common.Sorting.{count}
use codesk.Common.Counts.{count-keys, present, Each, Each-lookup, Each-self}
use codesk.Changes.{
  PendingMissingPath, WorkspaceChangeIndex, workspace_missing_path_delay, mark_pending_missing,
  next_generation, identity_at,
}
use codesk.Changes.Drain.{drain, drained, matches_of}
use codesk.Changes.Matching.{IsIndex, moved_documents}
use codesk.Changes.Reported.{
  drain-documents, drain-deletes, deleted_documents, drain-IsIndex, matches_of-Each, due_count,
}
use codesk.Changes.Runs.{gone-IsIndex}

-- What is noted of a path that is gone.
abbrev pub noted : String → String → ℕ → WorkspaceChangeIndex → PendingMissingPath
noted d path now c = record {
  document_id = d;
  path = path;
  identity = identity_at path c.identities;
  ready_at = now + workspace_missing_path_delay;
  generation = next_generation c.next_missing_generation;
}

pub lookup-noted :
    (d path : String) (now : ℕ) (c : WorkspaceChangeIndex)
    → is_blank d ≡ false
    → is_blank path ≡ false
    → lookup d (mark_pending_missing d path now c).missing ≡ some (noted d path now c)
unfolding mark_pending_missing
lookup-noted d path now c hd hp = rw (hd, hp) (lookup-insert_self d (noted d path now c) c.missing)

-- A document that is still missing after a drain is noted as before it.
drain-still :
    (now : ℕ) (c : WorkspaceChangeIndex) (d : String) (gone m : PendingMissingPath)
    → IsIndex c
    → lookup d c.missing ≡ some gone
    → lookup d (drain now c).1.missing ≡ some m
    → m ≡ gone
unfolding drain drained
drain-still now c d gone m h before still =
    let same : Each (λ (k : String) (v : PendingMissingPath). lookup k c.missing ≡ some v)
        (matches_of c).missing =
      matches_of-Each (λ k v. lookup k c.missing ≡ some v) c (Each-self c.missing h.missing_map) in
    let noted =
      Each-lookup (λ k v. lookup k c.missing ≡ some v) d m (matches_of c).missing same still in
    cc (noted, before)

-- The number of times that a drain reports a document as deleted, and as moved.
abbrev pub deletions : ℕ → WorkspaceChangeIndex → String → ℕ
deletions now c d = count d (deleted_documents (drain now c).0.0.local_deletes)

abbrev pub moves : ℕ → WorkspaceChangeIndex → String → ℕ
moves now c d = count d (moved_documents (drain now c).0.0.local_moves)

reported :
    (now : ℕ) (c : WorkspaceChangeIndex) (d : String) (gone : PendingMissingPath)
    (left : Option PendingMissingPath)
    → IsIndex c
    → lookup d c.missing ≡ some gone
    → lookup d (drain now c).1.missing ≡ left
    → (now < gone.ready_at → deletions now c d ≡ 0)
      × (gone.ready_at ≤ now → moves now c d + deletions now c d ≡ 1)
reported now c d gone left h there e =
    let before = count-keys d c.missing h.missing_map in
    let balance = drain-documents now c d h in
    let after = count-keys d (drain now c).1.missing (drain-IsIndex now c h).missing_map in
    let due = drain-deletes now c d h in
    let kept : (m : PendingMissingPath) → left ≡ some m → m ≡ gone =
      λ m q. drain-still now c d gone m h there (e ∙ q) in
    by_left left (rw e at due) (rw e at after) (rw there at before) balance kept
  where
    by_left :
        (left : Option PendingMissingPath)
        → deletions now c d ≡ due_count now left
        → count d (keys (drain now c).1.missing) ≡ present left
        → count d (keys c.missing) ≡ 1
        → count d (keys c.missing) ≡ moves now c d + count d (keys (drain now c).1.missing)
        → ((m : PendingMissingPath) → left ≡ some m → m ≡ gone)
        → (now < gone.ready_at → deletions now c d ≡ 0)
          × (gone.ready_at ≤ now → moves now c d + deletions now c d ≡ 1)
    by_left none due after before balance kept =
        (λ early. due, λ late. omega (arith, due, after, before, balance))
    by_left (some m) due after before balance kept =
        let ready : m.ready_at ≡ gone.ready_at =
          ap (λ (x : PendingMissingPath). x.ready_at) (kept m refl) in
        (
          λ early. ground (arith, due, ready, early),
          λ late. ground (arith, due, ready, late, after, before, balance),
        )

-- If the index is well formed and a document is noted as missing, with an id and a path that are
-- not blank, then a drain less than 250 ms later does not report it as deleted, and a drain after
-- that time reports it exactly once, as moved or as deleted.
pub mark_pending_missing-drain :
    (d path : String) (seen now : ℕ) (c : WorkspaceChangeIndex)
    → IsIndex c
    → is_blank d ≡ false
    → is_blank path ≡ false
    → moves now (mark_pending_missing d path seen c) d
        + deletions now (mark_pending_missing d path seen c) d
      ≡ (if ltb now (seen + 250_000_000)
          then moves now (mark_pending_missing d path seen c) d
          else 1)
mark_pending_missing-drain d path seen now c h hd hp =
    let marked = mark_pending_missing d path seen c in
    let both =
      reported now marked d (noted d path seen c) (lookup d (drain now marked).1.missing)
        (gone-IsIndex d path seen c h) (lookup-noted d path seen c hd hp) refl in
    elim (Bool-cases (ltb now (seen + 250_000_000))) [
      | inl early ↦
          let none = both.0 (ltb→lt now (seen + 250_000_000) early) in
          rw early (omega (arith, none))
      | inr late ↦ rw late (both.1 (ground (arith, late)))
    ]
