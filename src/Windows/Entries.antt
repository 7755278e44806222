-- ===== src/Windows/Entries.antt =====
-- What the root document holds, before and after a change of one entry, without the tests of
-- backend/internal/notty/root_semantics.go.
use Prim.Native.String.{String}
use codesk.Common.{
  ◌≡◌, ◌≢◌, ◌⊎◌, refl, sym, ap, ◌∙◌, Bool, true, false, Option, none, some, [], ◌∷◌, arith,
  if◌then◌else◌, String_key, ◌==◌, inl, inr, Bool-cases,
}
use codesk.Common.Dict.{lookup, lookup-modify}
use codesk.Windows.Root.{
  FileEntry, RootDocument, root_file_entry, expected_entry, set_deleted, is_claimed_by_other,
}

-- The root document has the entry under its id, for the document and the path.
pub record Holds (document : RootDocument) (entry_id content_document_id desired_path : String)
    (entry : FileEntry) : Type 0 where
  pub held : lookup entry_id document ≡ some (some entry)
  pub of_document : entry.content_document_id ≡ content_document_id
  pub at_path : entry.desired_path ≡ desired_path

pub root_file_entry-Holds :
    (document : RootDocument) (entry_id content_document_id desired_path : String)
    (entry : FileEntry)
    → root_file_entry document entry_id content_document_id desired_path ≡ some entry
    → Holds document entry_id content_document_id desired_path entry
unfolding root_file_entry
root_file_entry-Holds document entry_id content_document_id desired_path entry h =
    found (lookup entry_id document) refl h
  where
    found :
        (o : Option (Option FileEntry))
        → lookup entry_id document ≡ o
        → elim o [
          | none ↦ none
          | some undecoded ↦ elim undecoded [
            | none ↦ none
            | some e ↦ expected_entry e content_document_id desired_path
          ]
        ]
          ≡ some entry
        → Holds document entry_id content_document_id desired_path entry
    found none e k = absurd (cc)
    found (some none) e k = absurd (cc)
    found (some (some w)) e k = elim (Bool-cases (w.content_document_id == content_document_id)) [
      | inr other ↦ absurd (cc (rw other at k))
      | inl same_document ↦ elim (Bool-cases (w.desired_path == desired_path)) [
        | inr other ↦ absurd (cc (rw (same_document, other) at k))
        | inl same_path ↦
            let it : w ≡ entry = cc (rw (same_document, same_path) at k) in
            record {
              held = e ∙ ap (λ (t : FileEntry). some (some t)) it;
              of_document =
                  ap (λ (t : FileEntry). t.content_document_id) (sym it)
                  ∙ (String_key.same_iff w.content_document_id content_document_id).0 same_document;
              at_path =
                  ap (λ (t : FileEntry). t.desired_path) (sym it)
                  ∙ (String_key.same_iff w.desired_path desired_path).0 same_path;
            }
      ]
    ]

-- A marked entry is the only one that changes.
pub lookup-set_deleted :
    (entry_id id : String) (deleted : Bool) (document : RootDocument) (entry : FileEntry)
    → lookup entry_id document ≡ some (some entry)
    → lookup id (set_deleted entry_id deleted document) ≡ (
        if entry_id == id
        then some (some (record entry { deleted = deleted }))
        else lookup id document)
unfolding set_deleted
lookup-set_deleted entry_id id deleted document entry h =
    rw lookup-modify (elim (Bool-cases (entry_id == id)) [
      | inl same ↦
          let e : entry_id ≡ id = (String_key.same_iff entry_id id).0 same in rw (same, ← e, h) refl
      | inr other ↦ rw other refl
    ])

-- Every entry but one is decoded, and is deleted or has another path.
abbrev pub IsFree : String → String → RootDocument → Type 0
IsFree entry_id path [] = Unit
IsFree entry_id path ((id, undecoded) ∷ items) =
    ((id ≡ entry_id)
      ⊎ (e : FileEntry) × (undecoded ≡ some e) × (e.deleted ≡ true ⊎ e.desired_path ≢ path))
    × IsFree entry_id path items

pub is_claimed_by_other-IsFree :
    (document : RootDocument) (entry_id path : String)
    → is_claimed_by_other document entry_id path ≡ some false
    → IsFree entry_id path document
unfolding is_claimed_by_other
is_claimed_by_other-IsFree [] entry_id path h = tt
is_claimed_by_other-IsFree ((id, none) ∷ items) entry_id path h =
    elim (Bool-cases (id == entry_id)) [
      | inl same ↦ (
        inl ((String_key.same_iff id entry_id).0 same),
        is_claimed_by_other-IsFree items entry_id path (rw same at h),
      )
      | inr other ↦ absurd (cc (rw other at h))
    ]
is_claimed_by_other-IsFree ((id, some e) ∷ items) entry_id path h =
    elim (Bool-cases (id == entry_id)) [
      | inl same ↦ (
        inl ((String_key.same_iff id entry_id).0 same),
        is_claimed_by_other-IsFree items entry_id path (rw same at h),
      )
      | inr other ↦ elim (Bool-cases e.deleted) [
        | inl gone ↦ (
          inr (e, refl, inl gone),
          is_claimed_by_other-IsFree items entry_id path (rw (other, gone) at h),
        )
        | inr active ↦ elim (Bool-cases (e.desired_path == path)) [
          | inl taken ↦ absurd (cc (rw (other, active, taken) at h))
          | inr elsewhere ↦ (
            inr (e, refl, inr (λ p. cc (elsewhere, (String_key.same_iff e.desired_path path).1 p))),
            is_claimed_by_other-IsFree items entry_id path (rw (other, active, elsewhere) at h),
          )
        ]
      ]
    ]

pub Holds-root_file_entry :
    (document : RootDocument) (entry_id content_document_id desired_path : String)
    (entry : FileEntry)
    → Holds document entry_id content_document_id desired_path entry
    → root_file_entry document entry_id content_document_id desired_path ≡ some entry
unfolding root_file_entry
Holds-root_file_entry document entry_id content_document_id desired_path entry h =
    let same_document =
      (String_key.same_iff entry.content_document_id content_document_id).1 h.of_document in
    let same_path = (String_key.same_iff entry.desired_path desired_path).1 h.at_path in
    rw (root_file_entry, h.held, same_document, same_path) refl

pub IsFree-is_claimed_by_other :
    (document : RootDocument) (entry_id path : String)
    → IsFree entry_id path document
    → is_claimed_by_other document entry_id path ≡ some false
unfolding is_claimed_by_other
IsFree-is_claimed_by_other [] entry_id path h = refl
IsFree-is_claimed_by_other ((id, undecoded) ∷ items) entry_id path (inl own, h) =
    rw ((String_key.same_iff id entry_id).1 own) (IsFree-is_claimed_by_other items entry_id path h)
IsFree-is_claimed_by_other ((id, undecoded) ∷ items) entry_id path (inr (e, decoded, other), h) =
    let rest = IsFree-is_claimed_by_other items entry_id path h in
    elim (Bool-cases (id == entry_id)) [
      | inl own ↦ rw own rest
      | inr other_id ↦ elim other [
        | inl gone ↦ rw (other_id, decoded, gone) rest
        | inr elsewhere ↦
            let p : (e.desired_path == path) ≡ false =
              ground (arith, String_key.same_iff e.desired_path path) in
            rw (other_id, decoded) (ground (arith, p, rest))
      ]
    ]
