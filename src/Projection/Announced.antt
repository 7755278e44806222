-- ===== src/Projection/Announced.antt =====
-- The path of a file that the daemon has announced goes to its document only.
use codesk.Common.{
  ℕ, ◌≡◌, refl, ◌∙◌, subst, true, false, not, ◌&&◌, ◌||◌, some, List, [], ◌∷◌, ◌++◌, ◌==◌,
  String_key, arith, is_empty, if◌then◌else◌, inl, inr, Bool-cases, All, All-append,
}
use codesk.Common.Dict.{Dict, get_or}
use codesk.Common.Sorting.{sort, sort-All}
use codesk.Paths.{PathText, same_text, trim, join_slash, normalize_visible_root_path, visible}
use codesk.Paths.Texts.{PathText_key, runes}
use codesk.Paths.Segments.{join_head}
use codesk.Paths.Inside.{IsPlain, normalize_visible_root_path-IsInside}
use codesk.Intents.{LocalNamespaceClaim, local_namespace_intent_kind_create}
use codesk.Projection.{
  RootEntry, RootProjectionEntry, Reserved, pending, resolved, reserve, reserve_all,
  paths_by_document, previous_by_document,
}
use codesk.Projection.Allocation.{
  use_path, materialize_all, deleted_entries, less_entry, in_order, reserved_paths,
  allocate_root_projection_entries,
}
use codesk.Projection.Placed.{materialize_all-IsPlaced, materialize_all-nil, materialize_all-some}
use codesk.Projection.Claims.{IsOwner, IsOwner-free, add_owner-own, reserve_all-IsOwner}

-- A claim that is in force.
pub record IsClaim (path document : PathText) (claim : LocalNamespaceClaim) : Type 0 where
  pub create : ((claim.kind == "") || (claim.kind == local_namespace_intent_kind_create)) ≡ true
  pub visible_path : normalize_visible_root_path (runes claim.path) ≡ visible path
  pub named : trim (runes claim.document_id) ≡ document
  pub some_document : is_empty document ≡ false
  pub unresolved : (trim (runes claim.status) == resolved) ≡ false

accepted-nonempty :
    (p path : PathText) → normalize_visible_root_path p ≡ visible path → is_empty path ≡ false
accepted-nonempty p path h =
    let inside = normalize_visible_root_path-IsInside p path h in
    rw inside.joined_names (some_name inside.names inside.some_name inside.plain)
  where
    some_name :
        (ss : List PathText)
        → is_empty ss ≡ false
        → All IsPlain ss
        → is_empty (join_slash ss) ≡ false
    some_name [] h g = absurd (cc h)
    some_name (s ∷ ss) h (plain, g) = (join_head s ss plain.name).1

claim-IsOwner :
    (active_paths : Dict PathText PathText) (path document : PathText) (claim : LocalNamespaceClaim)
    (r : Reserved)
    → IsClaim path document claim
    → IsOwner path document (reserve active_paths claim r)
unfolding reserve
claim-IsOwner active_paths path document claim r h =
    let status : PathText =
      if is_empty (trim (runes claim.status)) then pending else trim (runes claim.status) in
    let kept : (not (claim.kind == "") && not (claim.kind == local_namespace_intent_kind_create))
        ≡ false =
      ground (arith, h.create) in
    let named : is_empty (trim (runes claim.document_id)) ≡ false = rw h.named h.some_document in
    let in_force : ((status == resolved)
          && not (get_or active_paths (trim (runes claim.document_id)) [] == path))
        ≡ false =
      rw (not_resolved h.unresolved) refl in
    rw
      (
        kept,
        h.visible_path,
        accepted-nonempty (runes claim.path) path h.visible_path,
        named,
        in_force,
      )
      (rw h.named (add_owner-own path document r))
  where
    not_resolved :
        (trim (runes claim.status) == resolved) ≡ false
        → ((if is_empty (trim (runes claim.status)) then pending else trim (runes claim.status))
            == resolved)
          ≡ false
    not_resolved h = elim (Bool-cases (is_empty (trim (runes claim.status)))) [
      | inl e ↦ rw e (unfold runes same_text in refl)
      | inr e ↦ rw e h
    ]

claims-IsOwner :
    (active_paths : Dict PathText PathText) (path document : PathText) (claim : LocalNamespaceClaim)
    (before after : List LocalNamespaceClaim) (r : Reserved)
    → IsClaim path document claim
    → IsOwner path document (reserve_all active_paths (before ++ claim ∷ after) r)
unfolding reserve_all
claims-IsOwner active_paths path document claim [] after r h =
    reserve_all-IsOwner active_paths path document after (reserve active_paths claim r)
      (claim-IsOwner active_paths path document claim r h)
claims-IsOwner active_paths path document claim (c ∷ before) after r h =
    claims-IsOwner active_paths path document claim before after (reserve active_paths c r) h

-- Who has the path.
abbrev Respects : PathText → PathText → RootProjectionEntry → Type 0
Respects path document p = p.materialized_path ≡ path → p.content_document_id ≡ document

materialize_all-Respects :
    (previous : Dict PathText RootProjectionEntry) (seq : ℕ) (path document : PathText)
    (es : List RootEntry) (r : Reserved) (ps : List RootProjectionEntry)
    → IsOwner path document r
    → materialize_all previous seq es r ≡ some ps
    → All (Respects path document) ps
materialize_all-Respects previous seq path document [] r ps owner h =
    rw (← materialize_all-nil previous seq r ps h) tt
materialize_all-Respects previous seq path document (e ∷ es) r ps owner h =
    let place = materialize_all-IsPlaced previous seq e es r ps h in
    rw (← place.whole) (
      λ (at_path : place.path ≡ path).
          IsOwner-free path document e.content_document_id r owner
            (rw at_path at place.free.not_taken),
      materialize_all-Respects previous seq path document es (use_path place.path r) place.rest
          (record { owners = owner.owners; listed = owner.listed; among = owner.among })
          place.others,
    )

deleted-Respects :
    (seq : ℕ) (path document : PathText) (es : List RootEntry)
    → is_empty path ≡ false
    → All (Respects path document) (deleted_entries seq es)
unfolding deleted_entries
deleted-Respects seq path document [] h = tt
deleted-Respects seq path document (e ∷ es) h =
    let rest = deleted-Respects seq path document es h in
    elim (Bool-cases e.deleted) [
      | inl gone ↦ rw gone ((λ (at_path : [] ≡ path). absurd (cc (rw (← at_path) at h))), rest)
      | inr here ↦ rw here rest
    ]

All-middle :
    (P : RootProjectionEntry → Type 0) (xs ys : List RootProjectionEntry) (x : RootProjectionEntry)
    → All P (xs ++ x ∷ ys)
    → P x
All-middle P [] ys x h = h.0
All-middle P (y ∷ xs) ys x h = All-middle P xs ys x (h.1)

-- Where a claim of a document for a visible path is in force, whatever the other claims and the
-- entries are, an entry of the allocation that stands at this path is an entry of this document.
pub allocate-claims :
    (previous : List RootProjectionEntry) (entries : List RootEntry) (seq : ℕ)
    (path document : PathText) (claim : LocalNamespaceClaim)
    (before after : List LocalNamespaceClaim) (next front rest : List RootProjectionEntry)
    (p : RootProjectionEntry)
    → IsClaim path document claim
    → allocate_root_projection_entries previous entries seq (before ++ claim ∷ after) ≡ some next
    → next ≡ front ++ p ∷ rest
    → p.materialized_path ≡ path
    → p.content_document_id ≡ document
unfolding allocate_root_projection_entries
allocate-claims previous entries seq path document claim before after next front rest p h returned
      split at_path =
    let previous_entries = previous_by_document previous [] in
    let r = reserved_paths entries (before ++ claim ∷ after) in
    let found = materialize_all-some previous_entries seq (in_order entries) r in
    let owner =
      claims-IsOwner (paths_by_document (in_order entries) []) path document claim before after
        (record { used = []; claimed_by_path = [] }) h in
    let all =
      sort-All less_entry (Respects path document) (found.0 ++ deleted_entries seq entries) (
        All-append (Respects path document) (found.0) (deleted_entries seq entries)
          (materialize_all-Respects previous_entries seq path document (in_order entries) r
            (found.0) owner (found.1))
          (deleted-Respects seq path document entries
            (accepted-nonempty (runes claim.path) path h.visible_path))) in
    let same : sort less_entry (found.0 ++ deleted_entries seq entries) ≡ next =
      cc (rw (found.1) at returned) in
    All-middle (Respects path document) front rest p
      (subst (λ (ps : List RootProjectionEntry). All (Respects path document) ps) (same ∙ split)
        all)
      at_path
