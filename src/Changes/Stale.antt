-- ===== src/Changes/Stale.antt =====
-- Which reported deletes can still be resolved: the numbers of the missing paths.
use Prim.Native.String.{String}
use codesk.Common.{
  ℕ, suc, ◌+◌, ◌^◌, ◌≤◌, ◌<◌, ◌≡◌, refl, subst, false, ◌||◌, List, [], ◌∷◌, arith, String_key, eqb,
  inl, inr, Bool-cases, length,
}
use codesk.Common.Dict.{Dict, lookup, delete}
use codesk.Common.Text.{is_blank}
use codesk.Common.Counts.{Each, delete-Each, insert-Each, Each-map}
use codesk.Changes.{
  FileIdentity, LocalDeleteCandidate, PendingMissingPath, WorkspaceChangeIndex, forget_missing,
  is_at, is_stale, record_identity, rekey_tracked_path, remove_identity, mark_dirty_document,
  mark_local_create, mark_pending_missing, mark_tracked_present, resolve_pending_missing,
  mark_discover_dir, drain_discover_dirs, next_generation,
}
use codesk.Changes.Drain.{drain, drained}
use codesk.Changes.Reported.{matches_of-Each}
use codesk.Changes.Runs.{
  Operation, saw_identity, rekey, forget_identity, dirty, create, gone, back, resolve, discover,
  take_dirs, take_changes, after, run, if_keeps,
}
use codesk.Changes.Missing.{noted}

-- A missing path has names that are not blank, and a number of those given out.
abbrev pub Numbered : ℕ → String → PendingMissingPath → Type 0
Numbered top d m =
    (is_blank d ≡ false) × (is_blank m.path ≡ false) × (1 ≤ m.generation) × (m.generation ≤ top)

-- After at most `n` calls, the numbers given out are at most `n`.
pub record After (n : ℕ) (c : WorkspaceChangeIndex) : Type 0 where
  pub few : c.next_missing_generation ≤ n
  pub numbered : Each (Numbered c.next_missing_generation) c.missing

raise :
    (low high : ℕ) (missing : Dict String PendingMissingPath)
    → low ≤ high
    → Each (Numbered low) missing
    → Each (Numbered high) missing
raise low high missing h each =
    Each-map missing (λ k v old. (old.0, old.1, old.2, omega (arith, old.3, h))) each

module _ (n : ℕ) (c : WorkspaceChangeIndex) (h : After n c) where
  -- A call that gives out no number.
  no_number :
      (c' : WorkspaceChangeIndex)
      → c.next_missing_generation ≡ c'.next_missing_generation
      → Each (Numbered c.next_missing_generation) c'.missing
      → After (suc n) c' × (c.next_missing_generation ≤ c'.next_missing_generation)
  no_number c' same each = (
    record {
      few = omega (arith, h.few, same);
      numbered =
          raise c.next_missing_generation c'.next_missing_generation c'.missing
            (omega (arith, same)) each;
    },
    omega (arith, same),
  )

  same_missing :
      (c' : WorkspaceChangeIndex)
      → c.next_missing_generation ≡ c'.next_missing_generation
      → c.missing ≡ c'.missing
      → After (suc n) c' × (c.next_missing_generation ≤ c'.next_missing_generation)
  same_missing c' same q =
      no_number c' same (subst (λ m. Each (Numbered c.next_missing_generation) m) q h.numbered)

  forgotten :
      (d path : String)
      → Each (Numbered c.next_missing_generation) (forget_missing d path c.missing)
  unfolding forget_missing
  forgotten d path =
      if_keeps (λ m. Each (Numbered c.next_missing_generation) m) (is_at path (lookup d c.missing))
        (delete d c.missing) c.missing
        (delete-Each (Numbered c.next_missing_generation) d c.missing h.numbered) h.numbered

  gone-After :
      (d path : String) (now : ℕ)
      → n + 1 < 2 ^ 64
      → After (suc n) (mark_pending_missing d path now c)
        × (c.next_missing_generation ≤ (mark_pending_missing d path now c).next_missing_generation)
  unfolding mark_pending_missing
  gone-After d path now small = elim (Bool-cases (is_blank d || is_blank path)) [
    | inl blank ↦ rw blank (same_missing c refl refl)
    | inr named ↦
        let top : next_generation c.next_missing_generation ≡ suc c.next_missing_generation =
          unfold next_generation in omega (arith, h.few, small) in
        let old =
          raise c.next_missing_generation (next_generation c.next_missing_generation) c.missing
            (omega (arith, top)) h.numbered in
        let new : Numbered (next_generation c.next_missing_generation) d (noted d path now c) =
          (ground (arith, named), ground (arith, named), omega (arith, top), omega arith) in
        rw named (
          record {
            few = omega (arith, top, h.few);
            numbered =
                insert-Each (Numbered (next_generation c.next_missing_generation)) d
                  (noted d path now c) c.missing new old;
          },
          omega (arith, top),
        )
  ]

  resolve-After :
      (candidate : LocalDeleteCandidate)
      → After (suc n) (resolve_pending_missing candidate c).0
        × (c.next_missing_generation
            ≤ (resolve_pending_missing candidate c).0.next_missing_generation)
  unfolding resolve_pending_missing
  resolve-After candidate =
      elim (Bool-cases
        (is_blank candidate.document_id || is_blank candidate.path || eqb candidate.generation 0)) [
          | inl blank ↦ rw blank (same_missing c refl refl)
          | inr named ↦
              elim (Bool-cases (is_stale candidate (lookup candidate.document_id c.missing))) [
                | inl stale ↦ rw (named, stale) (same_missing c refl refl)
                | inr fresh ↦
                    rw (named, fresh)
                      (no_number _ refl (
                        delete-Each (Numbered c.next_missing_generation) candidate.document_id
                          c.missing h.numbered))
              ]
        ]

  back-After :
      (d path : String) (identity : FileIdentity)
      → After (suc n) (mark_tracked_present d path identity c)
        × (c.next_missing_generation
            ≤ (mark_tracked_present d path identity c).next_missing_generation)
  unfolding mark_tracked_present
  back-After d path identity = elim (Bool-cases (is_blank d || is_blank path)) [
    | inl blank ↦ rw blank (same_missing c refl refl)
    | inr named ↦ rw named (no_number _ refl (forgotten d path))
  ]

  pub after-After :
      (op : Operation)
      → n + 1 < 2 ^ 64
      → After (suc n) (after op c)
        × (c.next_missing_generation ≤ (after op c).next_missing_generation)
  unfolding after record_identity remove_identity mark_dirty_document mark_discover_dir
      drain_discover_dirs rekey_tracked_path mark_local_create drain drained
  after-After (saw_identity path identity) small = same_missing _ (ground arith) (ground arith)
  after-After (rekey d old new identity) small = no_number _ refl (forgotten d old)
  after-After (forget_identity path) small = same_missing _ (ground arith) (ground arith)
  after-After (dirty d) small = same_missing _ (ground arith) (ground arith)
  after-After (create candidate identity) small = same_missing _ (ground arith) (ground arith)
  after-After (gone d path now) small = gone-After d path now small
  after-After (back d path identity) small = back-After d path identity
  after-After (resolve candidate) small = resolve-After candidate
  after-After (discover path) small = same_missing _ (ground arith) (ground arith)
  after-After take_dirs small = same_missing _ refl refl
  after-After (take_changes now) small =
      no_number _ refl (matches_of-Each (Numbered c.next_missing_generation) c h.numbered)

pub run-After :
    (ops : List Operation) (n : ℕ) (c : WorkspaceChangeIndex)
    → After n c
    → n + length ops < 2 ^ 64
    → After (n + length ops) (run ops c)
      × (c.next_missing_generation ≤ (run ops c).next_missing_generation)
unfolding run
run-After [] n c h small = (subst (λ (k : ℕ). After k c) (omega arith) h, omega arith)
run-After (op ∷ ops) n c h small =
    let first = after-After n c h op (omega (arith, small)) in
    let rest = run-After ops (suc n) (after op c) (first.0) (omega (arith, small)) in
    (
      subst (λ (k : ℕ). After k (run ops (after op c))) (omega arith) (rest.0),
      omega (arith, first.1, rest.1),
    )
