-- ===== src/Projection/Claims.antt =====
-- Documents that own a path: what is claimed stays claimed.
use codesk.Common.{
  ◌≡◌, refl, sym, ◌∙◌, true, false, not, ◌&&◌, ◌||◌, Option, none, some, List, [], ◌∷◌, ◌==◌,
  String_key, arith, is_empty, if◌then◌else◌, inl, inr, Bool-cases, same_refl,
}
use codesk.Common.Dict.{Dict, contains, lookup, get_or, lookup-insert, get_or-lookup}
use codesk.Common.Text.{set_insert}
use codesk.Paths.{PathText, trim, normalize_visible_root_path}
use codesk.Paths.Texts.{PathText_key, same_text_iff, runes}
use codesk.Intents.{LocalNamespaceClaim, local_namespace_intent_kind_create}
use codesk.Projection.{
  Reserved, pending, resolved, if_visible, reserve, reserve_path, reserve_all, add_owner,
}
use codesk.Projection.Allocation.{claimed_by_others, root_materialized_path_taken}
use codesk.Projection.Distinct.{contains-set_insert}

-- A document among the owners of a path.
pub record IsOwner (path document : PathText) (r : Reserved) : Type 0 where
  pub owners : List PathText
  pub listed : lookup path r.claimed_by_path ≡ some owners
  pub among : contains document owners ≡ true

only_owner :
    (a b : PathText) (owners : List PathText)
    → contains a owners ≡ true
    → claimed_by_others b (some owners) ≡ false
    → b ≡ a
unfolding contains
only_owner a b [] h g = absurd (cc h)
only_owner a b (c ∷ []) h g =
    let here : (c == a) ≡ true = ground (arith, h) in
    let also : (c == b) ≡ true = ground (arith, g) in
    sym ((same_text_iff c b).0 also) ∙ (same_text_iff c a).0 here
only_owner a b (c ∷ d ∷ owners) h g = absurd (unfold contains in ground (arith, g))

pub IsOwner-free :
    (path document other : PathText) (r : Reserved)
    → IsOwner path document r
    → root_materialized_path_taken path other r ≡ false
    → other ≡ document
unfolding root_materialized_path_taken
IsOwner-free path document other r owner free =
    only_owner document other owner.owners owner.among (rw owner.listed at (not_claimed free))
  where
    not_claimed :
        (contains path r.used || claimed_by_others other (lookup path r.claimed_by_path)) ≡ false
        → claimed_by_others other (lookup path r.claimed_by_path) ≡ false
    not_claimed h = ground (arith, h)

-- Further claims only add owners.
add_owner-IsOwner :
    (path document q d : PathText) (r : Reserved)
    → IsOwner path document r
    → IsOwner path document (add_owner q d r)
add_owner-IsOwner path document q d r owner = elim (Bool-cases (q == path)) [
  | inl same ↦ record {
    owners = set_insert d (get_or r.claimed_by_path q []);
    listed =
        rw
          (
            lookup-insert q path (set_insert d (get_or r.claimed_by_path q [])) r.claimed_by_path,
            same,
          )
          refl;
    among =
        rw (contains-set_insert document d (get_or r.claimed_by_path q []))
          (still ((same_text_iff q path).0 same));
  }
  | inr other ↦ record {
    owners = owner.owners;
    listed =
        rw
          (
            lookup-insert q path (set_insert d (get_or r.claimed_by_path q [])) r.claimed_by_path,
            other,
          )
          owner.listed;
    among = owner.among;
  }
]
  where
    still : q ≡ path → ((d == document) || contains document (get_or r.claimed_by_path q [])) ≡ true
    still e =
        rw (e, get_or-lookup path owner.owners [] r.claimed_by_path owner.listed, owner.among)
          (ground arith)

pub add_owner-own :
    (path document : PathText) (r : Reserved) → IsOwner path document (add_owner path document r)
add_owner-own path document r = record {
  owners = set_insert document (get_or r.claimed_by_path path []);
  listed =
      rw
        (
          lookup-insert path path (set_insert document (get_or r.claimed_by_path path []))
              r.claimed_by_path,
          same_refl path,
        )
        refl;
  among =
      rw
        (
          contains-set_insert document document (get_or r.claimed_by_path path []),
          same_refl document,
        )
        refl;
}

module _ (active_paths : Dict PathText PathText) where
  reserve_path-IsOwner :
      (path document : PathText) (claim : LocalNamespaceClaim) (o : Option PathText) (r : Reserved)
      → IsOwner path document r
      → IsOwner path document (reserve_path active_paths claim o r)
  reserve_path-IsOwner path document claim none r owner = owner
  reserve_path-IsOwner path document claim (some q) r owner =
      let status =
        if is_empty (trim (runes claim.status)) then pending else trim (runes claim.status) in
      elim (Bool-cases (is_empty q)) [
        | inl e ↦ rw e owner
        | inr e ↦ elim (Bool-cases (is_empty (trim (runes claim.document_id)))) [
          | inl f ↦
              rw (e, f)
                (record { owners = owner.owners; listed = owner.listed; among = owner.among })
          | inr f ↦
              elim (Bool-cases (
                (status == resolved)
                && not (get_or active_paths (trim (runes claim.document_id)) [] == q))) [
                  | inl g ↦ rw (e, f, g) owner
                  | inr g ↦
                      rw (e, f, g)
                        (add_owner-IsOwner path document q (trim (runes claim.document_id)) r owner)
                ]
        ]
      ]

  pub reserve-IsOwner :
      (path document : PathText) (claim : LocalNamespaceClaim) (r : Reserved)
      → IsOwner path document r
      → IsOwner path document (reserve active_paths claim r)
  unfolding reserve
  reserve-IsOwner path document claim r owner =
      elim (Bool-cases
        (not (claim.kind == "") && not (claim.kind == local_namespace_intent_kind_create))) [
          | inl e ↦ rw e owner
          | inr e ↦ rw e (
              reserve_path-IsOwner path document claim
                (if_visible (normalize_visible_root_path (runes claim.path))) r owner)
        ]

  pub reserve_all-IsOwner :
      (path document : PathText) (claims : List LocalNamespaceClaim) (r : Reserved)
      → IsOwner path document r
      → IsOwner path document (reserve_all active_paths claims r)
  unfolding reserve_all
  reserve_all-IsOwner path document [] r owner = owner
  reserve_all-IsOwner path document (claim ∷ claims) r owner =
      reserve_all-IsOwner path document claims (reserve active_paths claim r)
        (reserve-IsOwner path document claim r owner)
