-- ===== src/Changes/Runs.antt =====
-- Runs of the index: what every sequence of calls keeps.
use Prim.Native.String.{String}
use codesk.Common.{
  ℕ, ◌≡◌, refl, subst, Bool, true, false, ◌||◌, List, [], ◌∷◌, arith, String_key, if◌then◌else◌,
  eqb, inl, inr, Bool-cases,
}
use codesk.Common.Dict.{Dict, lookup, IsMap, insert-IsMap}
use codesk.Common.Text.{is_blank}
use codesk.Common.Counts.{Each, delete-IsMap, delete-Each, insert-Each}
use codesk.Changes.{
  FileIdentity, LocalCreateCandidate, LocalDeleteCandidate, PendingMissingPath, PendingCreatedPath,
  WorkspaceChangeIndex, new_workspace_change_index, forget_missing, is_at, is_stale,
  record_identity, rekey_tracked_path, remove_identity, mark_dirty_document, mark_local_create,
  mark_pending_missing, mark_tracked_present, resolve_pending_missing, mark_discover_dir,
  drain_discover_dirs,
}
use codesk.Changes.Drain.{drain}
use codesk.Changes.Matching.{IsIndex, UnderPath, UnderDocument}
use codesk.Changes.Reported.{drain-IsIndex}

-- A call of one of the methods that write.
pub data Operation : Type 0 where
  saw_identity : String → FileIdentity → Operation
  rekey : String → String → String → FileIdentity → Operation
  forget_identity : String → Operation
  dirty : String → Operation
  create : LocalCreateCandidate → FileIdentity → Operation
  gone : String → String → ℕ → Operation
  back : String → String → FileIdentity → Operation
  resolve : LocalDeleteCandidate → Operation
  discover : String → Operation
  take_dirs : Operation
  take_changes : ℕ → Operation

unfoldable pub after : Operation → WorkspaceChangeIndex → WorkspaceChangeIndex
after (saw_identity path identity) c = record_identity path identity c
after (rekey d old new identity) c = rekey_tracked_path d old new identity c
after (forget_identity path) c = remove_identity path c
after (dirty d) c = mark_dirty_document d c
after (create candidate identity) c = mark_local_create candidate identity c
after (gone d path now) c = mark_pending_missing d path now c
after (back d path identity) c = mark_tracked_present d path identity c
after (resolve candidate) c = (resolve_pending_missing candidate c).0
after (discover path) c = mark_discover_dir path c
after take_dirs c = (drain_discover_dirs c).1
after (take_changes now) c = (drain now c).1

unfoldable pub run : List Operation → WorkspaceChangeIndex → WorkspaceChangeIndex
run [] c = c
run (op ∷ ops) c = run ops (after op c)

pub if_keeps {ℓ κ} :
    {A : Type ℓ} (P : A → Type κ) (b : Bool) (x y : A) → P x → P y → P (if b then x else y)
if_keeps P true x y px py = px
if_keeps P false x y px py = py

-- Only the creates and the missing paths count.
same_maps-IsIndex :
    (c c' : WorkspaceChangeIndex)
    → c.creates ≡ c'.creates
    → c.missing ≡ c'.missing
    → IsIndex c
    → IsIndex c'
same_maps-IsIndex c c' same_creates same_missing h = record {
  creates_map = subst (λ m. IsMap m) same_creates h.creates_map;
  missing_map = subst (λ m. IsMap m) same_missing h.missing_map;
  creates_keyed = subst (λ m. Each UnderPath m) same_creates h.creates_keyed;
  missing_keyed = subst (λ m. Each UnderDocument m) same_missing h.missing_keyed;
}

forget_missing-IsIndex :
    (d path : String) (c : WorkspaceChangeIndex)
    → IsIndex c
    → IsMap (forget_missing d path c.missing) × Each UnderDocument (forget_missing d path c.missing)
unfolding forget_missing
forget_missing-IsIndex d path c h = (
  if_keeps (λ (m : Dict String PendingMissingPath). IsMap m) (is_at path (lookup d c.missing)) _ _
      (delete-IsMap d c.missing h.missing_map) h.missing_map,
  if_keeps (λ (m : Dict String PendingMissingPath). Each UnderDocument m)
      (is_at path (lookup d c.missing)) _ _ (delete-Each UnderDocument d c.missing h.missing_keyed)
      h.missing_keyed,
)

create-IsIndex :
    (candidate : LocalCreateCandidate) (identity : FileIdentity) (c : WorkspaceChangeIndex)
    → IsIndex c
    → IsIndex (mark_local_create candidate identity c)
unfolding mark_local_create
create-IsIndex candidate identity c h = elim (Bool-cases (is_blank candidate.path)) [
  | inl blank ↦ rw blank h
  | inr named ↦
      let created : PendingCreatedPath = record { candidate = candidate; identity = identity } in
      rw named (record {
        creates_map = insert-IsMap candidate.path created c.creates h.creates_map;
        missing_map = h.missing_map;
        creates_keyed = insert-Each UnderPath candidate.path created c.creates refl h.creates_keyed;
        missing_keyed = h.missing_keyed;
      })
]

pub gone-IsIndex :
    (d path : String) (now : ℕ) (c : WorkspaceChangeIndex)
    → IsIndex c
    → IsIndex (mark_pending_missing d path now c)
unfolding mark_pending_missing
gone-IsIndex d path now c h = elim (Bool-cases (is_blank d || is_blank path)) [
  | inl blank ↦ rw blank h
  | inr named ↦ rw named (record {
    creates_map = h.creates_map;
    missing_map = insert-IsMap d _ c.missing h.missing_map;
    creates_keyed = h.creates_keyed;
    missing_keyed = insert-Each UnderDocument d _ c.missing refl h.missing_keyed;
  })
]

back-IsIndex :
    (d path : String) (identity : FileIdentity) (c : WorkspaceChangeIndex)
    → IsIndex c
    → IsIndex (mark_tracked_present d path identity c)
unfolding mark_tracked_present
back-IsIndex d path identity c h = elim (Bool-cases (is_blank d || is_blank path)) [
  | inl blank ↦ rw blank h
  | inr named ↦
      let left = forget_missing-IsIndex d path c h in
      rw named (record {
        creates_map = h.creates_map;
        missing_map = left.0;
        creates_keyed = h.creates_keyed;
        missing_keyed = left.1;
      })
]

resolve-IsIndex :
    (candidate : LocalDeleteCandidate) (c : WorkspaceChangeIndex)
    → IsIndex c
    → IsIndex (resolve_pending_missing candidate c).0
unfolding resolve_pending_missing
resolve-IsIndex candidate c h =
    elim (Bool-cases
      (is_blank candidate.document_id || is_blank candidate.path || eqb candidate.generation 0)) [
        | inl blank ↦ rw blank h
        | inr named ↦
            elim (Bool-cases (is_stale candidate (lookup candidate.document_id c.missing))) [
              | inl stale ↦ rw (named, stale) h
              | inr fresh ↦
                  rw (named, fresh)
                    (record {
                      creates_map = h.creates_map;
                      missing_map = delete-IsMap candidate.document_id c.missing h.missing_map;
                      creates_keyed = h.creates_keyed;
                      missing_keyed =
                          delete-Each UnderDocument candidate.document_id c.missing h.missing_keyed;
                    })
            ]
      ]

-- A call keeps the index well formed.
pub after-IsIndex : (op : Operation) (c : WorkspaceChangeIndex) → IsIndex c → IsIndex (after op c)
unfolding after record_identity remove_identity mark_dirty_document mark_discover_dir
    drain_discover_dirs rekey_tracked_path
after-IsIndex (saw_identity path identity) c h =
    same_maps-IsIndex c _ (ground arith) (ground arith) h
after-IsIndex (rekey d old new identity) c h =
    let left = forget_missing-IsIndex d old c h in
    record {
      creates_map = delete-IsMap new c.creates h.creates_map;
      missing_map = left.0;
      creates_keyed = delete-Each UnderPath new c.creates h.creates_keyed;
      missing_keyed = left.1;
    }
after-IsIndex (forget_identity path) c h = same_maps-IsIndex c _ (ground arith) (ground arith) h
after-IsIndex (dirty d) c h = same_maps-IsIndex c _ (ground arith) (ground arith) h
after-IsIndex (create candidate identity) c h = create-IsIndex candidate identity c h
after-IsIndex (gone d path now) c h = gone-IsIndex d path now c h
after-IsIndex (back d path identity) c h = back-IsIndex d path identity c h
after-IsIndex (resolve candidate) c h = resolve-IsIndex candidate c h
after-IsIndex (discover path) c h = same_maps-IsIndex c _ (ground arith) (ground arith) h
after-IsIndex take_dirs c h = same_maps-IsIndex c _ refl refl h
after-IsIndex (take_changes now) c h = drain-IsIndex now c h

pub run-IsIndex_from :
    (ops : List Operation) (c : WorkspaceChangeIndex) → IsIndex c → IsIndex (run ops c)
unfolding run
run-IsIndex_from [] c h = h
run-IsIndex_from (op ∷ ops) c h = run-IsIndex_from ops (after op c) (after-IsIndex op c h)

-- Whatever calls are made on a new index, in whatever order, it is well formed: the keys of its maps
-- are different, every create is under its own path and every missing path under its document.
pub run-IsIndex : (ops : List Operation) → IsIndex (run ops new_workspace_change_index)
run-IsIndex ops =
    run-IsIndex_from ops new_workspace_change_index
      (record { creates_map = tt; missing_map = tt; creates_keyed = tt; missing_keyed = tt })
