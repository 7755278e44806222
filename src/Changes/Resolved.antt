-- ===== src/Changes/Resolved.antt =====
-- Reports of deleted files, resolved at once or too late.
use Prim.Native.String.{String}
use codesk.Common.{
  ℕ, suc, ◌+◌, ◌^◌, ◌<◌, ◌≡◌, refl, ap, subst, Bool, true, false, ◌||◌, some, List, [], ◌∷◌, arith,
  String_key, if◌then◌else◌, ltb, eqb, inl, inr, Bool-cases, All, length,
}
use codesk.Common.Dict.{Dict, lookup, delete, lookup-delete_self}
use codesk.Common.Text.{is_blank}
use codesk.Common.Sorting.{sort-All}
use codesk.Common.Counts.{Each, Each-self, Each-lookup}
use codesk.Changes.{
  LocalDeleteCandidate, PendingMissingPath, WorkspaceChangeIndex, new_workspace_change_index,
  is_stale, mark_pending_missing, resolve_pending_missing, next_generation,
}
use codesk.Changes.Drain.{drain, drained, matches_of, changes_at, ready_deletes, less_delete}
use codesk.Changes.Matching.{IsIndex, UnderDocument}
use codesk.Changes.Reported.{matches_of-Each, drain-IsIndex}
use codesk.Changes.Runs.{Operation, take_changes, after, run, run-IsIndex}
use codesk.Changes.Missing.{lookup-noted}
use codesk.Changes.Stale.{Numbered, After, run-After, after-After}

-- What a reported delete has in common with the missing path it is about.
pub record IsReport (c : WorkspaceChangeIndex) (x : LocalDeleteCandidate) : Type 0 where
  pub path : PendingMissingPath
  pub is_missing : lookup x.document_id c.missing ≡ some path
  pub same_path : path.path ≡ x.path
  pub same_generation : path.generation ≡ x.generation

ready_deletes-IsReport :
    (now : ℕ) (c : WorkspaceChangeIndex) (missing : Dict String PendingMissingPath)
    → Each UnderDocument missing
    → Each (λ (k : String) (v : PendingMissingPath). lookup k c.missing ≡ some v) missing
    → All (IsReport c) (ready_deletes now missing)
unfolding ready_deletes
ready_deletes-IsReport now c [] named there = tt
ready_deletes-IsReport now c ((d, m) ∷ rest) (name, named) (here, there) =
    let others = ready_deletes-IsReport now c rest named there in
    elim (Bool-cases (ltb now m.ready_at)) [
      | inl early ↦ rw early others
      | inr late ↦ rw late (
        record { path = m; is_missing = cc (name, here); same_path = refl; same_generation = refl },
        others,
      )
    ]

drain-IsReport :
    (now : ℕ) (c : WorkspaceChangeIndex)
    → IsIndex c
    → All (IsReport (drain now c).1) (drain now c).0.0.local_deletes
unfolding drain changes_at drained
drain-IsReport now c h = sort-All less_delete (IsReport (drain now c).1) _ (
    ready_deletes-IsReport now (drain now c).1 (matches_of c).missing
      (matches_of-Each UnderDocument c h.missing_keyed)
      (Each-self (matches_of c).missing (drain-IsIndex now c h).missing_map))

All-map {ℓ κ} :
    {A : Type ℓ} {P Q : A → Type κ} (xs : List A) → ((x : A) → P x → Q x) → All P xs → All Q xs
All-map [] f h = tt
All-map (x ∷ xs) f (px, h) = (f x px, All-map xs f h)

new-After : After 0 new_workspace_change_index
new-After = record { few = omega arith; numbered = tt }

-- The index after some calls and one drain.
abbrev pub drained_after : List Operation → ℕ → WorkspaceChangeIndex
drained_after ops now = (drain now (run ops new_workspace_change_index)).1

drained_after-After :
    (ops : List Operation) (now : ℕ)
    → length ops + 1 < 2 ^ 64
    → After (suc (length ops)) (drained_after ops now)
drained_after-After ops now small =
    let before = run-After ops 0 new_workspace_change_index new-After (omega (arith, small)) in
    let here : After (length ops) (run ops new_workspace_change_index) =
      subst (λ (k : ℕ). After k (run ops new_workspace_change_index)) (omega arith) (before.0) in
    unfold after in
    (after-After (length ops) (run ops new_workspace_change_index) here (take_changes now)
      (omega (arith, small))).0

if_same {ℓ} : {A : Type ℓ} (b : Bool) (x : A) → (if b then x else x) ≡ x
if_same true x = refl
if_same false x = refl

-- A stale report changes nothing, whatever else it says.
resolve_stale :
    (x : LocalDeleteCandidate) (c : WorkspaceChangeIndex)
    → is_stale x (lookup x.document_id c.missing) ≡ true
    → resolve_pending_missing x c ≡ (c, false)
unfolding resolve_pending_missing
resolve_stale x c stale =
    rw stale (if_same (is_blank x.document_id || is_blank x.path || eqb x.generation 0) (c, false))

-- The index without the missing path that a report is about.
abbrev pub resolved : LocalDeleteCandidate → WorkspaceChangeIndex → WorkspaceChangeIndex
resolved x c = record c {
  missing = delete x.document_id c.missing;
  identities = delete x.path c.identities;
}

resolve_current :
    (x : LocalDeleteCandidate) (c : WorkspaceChangeIndex)
    → (is_blank x.document_id || is_blank x.path || eqb x.generation 0) ≡ false
    → is_stale x (lookup x.document_id c.missing) ≡ false
    → resolve_pending_missing x c ≡ (resolved x c, true)
unfolding resolve_pending_missing
resolve_current x c named fresh = rw (named, fresh) refl

resolve-once :
    (c : WorkspaceChangeIndex) (n : ℕ) (x : LocalDeleteCandidate)
    → After n c
    → IsReport c x
    → (resolve_pending_missing x c ≡ (resolved x c, true))
      × (resolve_pending_missing x (resolved x c) ≡ (resolved x c, false))
resolve-once c n x h report =
    let old =
      Each-lookup (Numbered c.next_missing_generation) x.document_id report.path c.missing
        h.numbered report.is_missing in
    let stale_none : is_stale x (lookup x.document_id (delete x.document_id c.missing)) ≡ true =
      rw (lookup-delete_self x.document_id c.missing) refl in
    (
      resolve_current x c
          (ground
            (arith, old, report.same_path, report.same_generation, same_blank report.same_path))
          (rw report.is_missing (
            ground (
              arith,
              report.same_generation,
              (String_key.same_iff report.path.path x.path).1 report.same_path,
            ))),
      resolve_stale x (resolved x c) stale_none,
    )
  where
    same_blank : {a b : String} → a ≡ b → is_blank a ≡ is_blank b
    same_blank q = ap is_blank q

-- If fewer than 2^64 - 1 calls were made on a new index, every delete that a drain then reports can
-- be resolved: the missing path it is about and the identity of its path are deleted. Resolving it
-- a second time is refused and changes nothing.
pub drain-resolve :
    (ops : List Operation) (now : ℕ)
    → length ops + 1 < 2 ^ 64
    → All
        (λ (x : LocalDeleteCandidate).
          (resolve_pending_missing x (drained_after ops now)
            ≡ (resolved x (drained_after ops now), true))
          × (resolve_pending_missing x (resolved x (drained_after ops now))
              ≡ (resolved x (drained_after ops now), false)))
        (drain now (run ops new_workspace_change_index)).0.0.local_deletes
drain-resolve ops now small =
    let c = run ops new_workspace_change_index in
    let h = drained_after-After ops now small in
    All-map (drain now c).0.0.local_deletes
      (λ x report. resolve-once (drained_after ops now) (suc (length ops)) x h report)
      (drain-IsReport now c (run-IsIndex ops))

-- If calls are made on a new index, then a drain, then further calls, fewer than 2^64 - 2 calls beside
-- the drain, and then the document of a delete that the drain reported is noted as missing again, under
-- a path that is not blank, the report is stale: it is refused and changes nothing.
pub resolve-again :
    (ops later : List Operation) (now seen : ℕ) (path : String)
    → length ops + length later + 2 < 2 ^ 64
    → is_blank path ≡ false
    → All
        (λ (x : LocalDeleteCandidate).
          resolve_pending_missing x
            (mark_pending_missing x.document_id path seen (run later (drained_after ops now)))
          ≡ (
            mark_pending_missing x.document_id path seen (run later (drained_after ops now)),
            false,
          ))
        (drain now (run ops new_workspace_change_index)).0.0.local_deletes
resolve-again ops later now seen path small named =
    let c = run ops new_workspace_change_index in
    let d = drained_after ops now in
    let h = drained_after-After ops now (omega (arith, small)) in
    let final = run-After later (suc (length ops)) d h (omega (arith, small)) in
    All-map (drain now c).0.0.local_deletes
      (λ (x : LocalDeleteCandidate) (report : IsReport d x).
        let old =
          Each-lookup (Numbered d.next_missing_generation) x.document_id report.path d.missing
            h.numbered report.is_missing in
        resolve_stale x (mark_pending_missing x.document_id path seen (run later d)) (
          rw (lookup-noted x.document_id path seen (run later d) (old.0) named) (
            unfold next_generation in
            ground (arith, report.same_generation, old.3, final.1, final.0.few, small))))
      (drain-IsReport now c (run-IsIndex ops))
