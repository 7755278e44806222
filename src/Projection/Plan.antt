-- ===== src/Projection/Plan.antt =====
-- What a plan removes from the disk.
use mathlib.Core.List.{map}
use codesk.Common.{
  ℕ, ◌≢◌, ◌≡◌, refl, sym, ◌∙◌, Bool, true, false, ◌&&◌, ◌||◌, Option, none, some, List, [], ◌∷◌,
  ◌++◌, ◌==◌, arith, is_empty, inl, inr, Bool-cases, All, ap, subst, ltb,
}
use codesk.Common.Dict.{Dict, contains}
use codesk.Common.Sorting.{sort, insert_sorted, sort-All, count-sort, contains-count}
use codesk.Intents.{LocalNamespaceClaim}
use codesk.Paths.{PathText}
use codesk.Paths.Texts.{PathText_key}
use codesk.Projection.{
  RootEntry, RootProjectionEntry, Reserved, active_path, keep_entry, active_entries, less_active,
  previous_by_document,
}
use codesk.Projection.Allocation.{
  less_entry, projected_entry, materialize_all, use_path, in_order, reserved_paths, deleted_entries,
  allocate_root_projection_entries,
}
use codesk.Projection.Planner.{
  is_upsert, upserts_of, is_removed, removed_of, build_root_projection_plan,
}
use codesk.Projection.Placed.{materialize_all-IsPlaced, materialize_all-some}

abbrev pub documents : List RootEntry → List PathText
documents es = map (λ (e : RootEntry). e.content_document_id) es

abbrev pub projected_documents : List RootProjectionEntry → List PathText
projected_documents ps = map (λ (p : RootProjectionEntry). p.content_document_id) ps

-- A document is on the disk after the plan.
abbrev stays : PathText → List RootProjectionEntry → Bool
stays d ps = contains d (projected_documents (upserts_of ps))

stays-cons :
    (d : PathText) (p : RootProjectionEntry) (ps : List RootProjectionEntry)
    → stays d (p ∷ ps) ≡ ((is_upsert p && (p.content_document_id == d)) || stays d ps)
unfolding upserts_of contains
stays-cons d p ps = elim (Bool-cases (is_upsert p)) [ inl e ↦ rw e refl | inr e ↦ rw e refl ]

stays-insert_sorted :
    (d : PathText) (p : RootProjectionEntry) (ps : List RootProjectionEntry)
    → stays d (insert_sorted less_entry p ps) ≡ stays d (p ∷ ps)
unfolding insert_sorted
stays-insert_sorted d p [] = refl
stays-insert_sorted d p (q ∷ ps) = elim (Bool-cases (less_entry p q)) [
  | inl e ↦ rw e refl
  | inr e ↦
      rw
        (
          e,
          stays-cons d q (insert_sorted less_entry p ps),
          stays-insert_sorted d p ps,
          stays-cons d p (q ∷ ps),
          stays-cons d p ps,
          stays-cons d q ps,
        )
        (ground arith)
]

stays-sort :
    (d : PathText) (ps : List RootProjectionEntry) → stays d (sort less_entry ps) ≡ stays d ps
unfolding sort
stays-sort d [] = refl
stays-sort d (p ∷ ps) =
    stays-insert_sorted d p (sort less_entry ps)
    ∙ stays-cons d p (sort less_entry ps)
    ∙ rw (stays-sort d ps) (sym (stays-cons d p ps))

stays-front :
    (d : PathText) (ps qs : List RootProjectionEntry)
    → stays d ps ≡ true
    → stays d (ps ++ qs) ≡ true
stays-front d [] qs h = absurd (unfold upserts_of contains in cc h)
stays-front d (p ∷ ps) qs h =
    let here = rw (stays-cons d p ps) at h in
    rw (stays-cons d p (ps ++ qs)) (ground (arith, here, stays-front d ps qs))

-- An active entry has a document.
abbrev HasDocument : RootEntry → Type 0
HasDocument e = is_empty e.content_document_id ≡ false

active_entries-HasDocument : (es : List RootEntry) → All HasDocument (active_entries es)
unfolding active_entries active_path
active_entries-HasDocument [] = tt
active_entries-HasDocument (e ∷ es) =
    elim (Bool-cases (e.deleted || is_empty e.content_document_id)) [
      | inl out ↦ rw out (active_entries-HasDocument es)
      | inr kept ↦ rw kept (with_entry _ (ground (arith, kept)) (active_entries-HasDocument es))
    ]
  where
    with_entry :
        (o : Option PathText)
        → HasDocument e
        → All HasDocument (active_entries es)
        → All HasDocument (keep_entry e o (active_entries es))
    with_entry none h rest = rest
    with_entry (some path) h rest = (h, rest)

materialize_all-stays :
    (previous : Dict PathText RootProjectionEntry) (seq : ℕ) (d : PathText) (es : List RootEntry)
    (r : Reserved) (ps : List RootProjectionEntry)
    → All HasDocument es
    → materialize_all previous seq es r ≡ some ps
    → contains d (documents es) ≡ true
    → stays d ps ≡ true
unfolding contains
materialize_all-stays previous seq d [] r ps named h here = absurd (cc here)
materialize_all-stays previous seq d (e ∷ es) r ps (first, named) h here =
    let place = materialize_all-IsPlaced previous seq e es r ps h in
    rw (← place.whole, stays-cons d (projected_entry e place.path seq) place.rest)
      (ground (
        arith,
        here,
        upsert place.path place.free.some_rune,
        materialize_all-stays previous seq d es (use_path place.path r) place.rest named
            place.others,
      ))
  where
    upsert :
        (path : PathText) → is_empty path ≡ false → is_upsert (projected_entry e path seq) ≡ true
    upsert path h = unfold is_upsert in rw (first, h) refl

-- A removed file is of a document that is not there any more.
removed_of-All :
    (active ps : List RootProjectionEntry)
    → All (λ (p : RootProjectionEntry). is_removed active p ≡ true) (removed_of active ps)
unfolding removed_of
removed_of-All active [] = tt
removed_of-All active (p ∷ ps) = elim (Bool-cases (is_removed active p)) [
  | inl e ↦ rw e (e, removed_of-All active ps)
  | inr e ↦ rw e (removed_of-All active ps)
]

All-at :
    (P : RootProjectionEntry → Type 0) (front rest : List RootProjectionEntry)
    (p : RootProjectionEntry)
    → All P (front ++ p ∷ rest)
    → P p
All-at P [] rest p h = h.0
All-at P (q ∷ front) rest p h = All-at P front rest p (h.1)

allocate-stays :
    (previous : List RootProjectionEntry) (entries : List RootEntry) (seq : ℕ)
    (claims : List LocalNamespaceClaim) (next : List RootProjectionEntry) (d : PathText)
    → allocate_root_projection_entries previous entries seq claims ≡ some next
    → contains d (documents (active_entries entries)) ≡ true
    → stays d next ≡ true
unfolding allocate_root_projection_entries
allocate-stays previous entries seq claims next d returned here =
    let before = previous_by_document previous [] in
    let r = reserved_paths entries claims in
    let found = materialize_all-some before seq (in_order entries) r in
    let gone = deleted_entries seq entries in
    let same : sort less_entry (found.0 ++ gone) ≡ next = cc (rw (found.1) at returned) in
    let sorted : contains d (documents (in_order entries)) ≡ true =
      contains-count d (documents (in_order entries))
      ∙ ap (λ (n : ℕ). ltb 0 n)
          (count-sort less_active (λ (e : RootEntry). e.content_document_id) d
            (active_entries entries))
      ∙ sym (contains-count d (documents (active_entries entries)))
      ∙ here in
    let all =
      materialize_all-stays before seq d (in_order entries) r (found.0)
        (sort-All less_active HasDocument (active_entries entries)
          (active_entries-HasDocument entries))
        (found.1) sorted in
    rw (← same, stays-sort d (found.0 ++ gone)) (stays-front d (found.0) gone all)

-- A file that the plan of an allocation removes was active before, and no active entry of the root
-- document is of its document.
pub build_root_projection_plan-removed :
    (previous : List RootProjectionEntry) (entries : List RootEntry) (seq : ℕ)
    (claims : List LocalNamespaceClaim) (next front rest : List RootProjectionEntry)
    (p : RootProjectionEntry)
    → allocate_root_projection_entries previous entries seq claims ≡ some next
    → (build_root_projection_plan previous next).removed ≡ front ++ p ∷ rest
    → (p.active ≡ true)
      × (contains p.content_document_id (documents (active_entries entries)) ≡ false)
unfolding build_root_projection_plan
build_root_projection_plan-removed previous entries seq claims next front rest p returned split =
    let Gone : RootProjectionEntry → Type 0 =
      λ (q : RootProjectionEntry). is_removed (upserts_of next) q ≡ true in
    let gone : is_removed (upserts_of next) p ≡ true = All-at Gone front rest p (
      subst (λ (ps : List RootProjectionEntry). All Gone ps) split
        (sort-All less_entry Gone (removed_of (upserts_of next) previous)
          (removed_of-All (upserts_of next) previous))) in
    (unfold is_removed in ground (arith, gone), absent gone)
  where
    still : stays p.content_document_id next ≡ true → is_removed (upserts_of next) p ≢ true
    still h g = unfold is_removed in ground (arith, h, g)

    absent :
        is_removed (upserts_of next) p ≡ true
        → contains p.content_document_id (documents (active_entries entries)) ≡ false
    absent gone =
        elim (Bool-cases (contains p.content_document_id (documents (active_entries entries)))) [
          | inl here ↦ absurd (
              still
                (allocate-stays previous entries seq claims next p.content_document_id returned
                  here)
                gone)
          | inr missing ↦ missing
        ]
