-- ===== src/Windows/Allowed.antt =====
-- Which consumptions `ConsumeReverseWindow` accepts.
use codesk.Common.{
  ℕ, ◌≤◌, ◌<◌, ◌≡◌, ◌≢◌, refl, ap, ◌∙◌, true, false, not, ◌||◌, Option, none, some, [], ◌∷◌, arith,
  String_key, ◌==◌, eqb_iff, is_empty, is_none, ltb,
}
use codesk.Common.Dict.{lookup}
use codesk.Wire.Reader.{Bytes, ok, err, unexpected_eof}
use codesk.Wire.StateVector.{StateVector, clock, decode_state_vector_v1}
use codesk.Wire.StateVector
use codesk.Wire.StateVector.Decode.{decode_state_vector-IsMap}
use codesk.Wire.StateVector.Dominance.{dominates_iff}
use codesk.Windows.Root.{FileEntry}
use codesk.Windows.Stores.{Row, RootHead, Store, Call, ConsumeRequest, ConsumeResult, accepted}
use codesk.Windows.{
  same_origin, find_window, required_vector, identity_matches, restore_entry, restore_checked,
  consume_window, consume_under, consume_reverse_window,
}
use codesk.Windows.Consume.{replayed-none, restored_store}
use codesk.Windows.Table.{find_window-matches, under_window}
use codesk.Windows.Entries.{Holds, Holds-root_file_entry, IsFree, IsFree-is_claimed_by_other}

-- The store has all that a consumption needs.
pub record IsAllowed (call : Call) (req : ConsumeRequest) (s : Store) : Type 0 where
  pub row : Row
  pub head : RootHead
  pub entry : FileEntry
  pub required : StateVector
  pub current : StateVector
  pub found : find_window req.origin req.tombstone_operation_id s.windows ≡ some row
  pub generation : row.window_generation ≡ req.window_generation
  pub unused : row.restored ≡ none
  pub in_time : call.now < row.reverse_until
  pub root : s.root ≡ some head
  pub in_root : row.root_document_id ≡ head.document_id
  pub decoded : decode_state_vector_v1 req.content_state_vector ≡ ok required
  pub content : lookup row.document_id s.documents ≡ some current
  pub reached : (client : ℕ) → clock required client ≤ clock current client
  pub holds : Holds head.document row.entry_id row.document_id row.desired_path entry
  pub deleted : entry.deleted ≡ true
  pub free : IsFree row.entry_id row.desired_path head.document
  pub update : call.update ≢ []

nothing_decoded : decode_state_vector_v1 [] ≡ err unexpected_eof
unfolding decode_state_vector_v1 StateVector.decode_var_uint
nothing_decoded = refl

decoded-required_vector :
    (bytes : Bytes) (required : StateVector)
    → decode_state_vector_v1 bytes ≡ ok required
    → required_vector bytes ≡ some required
unfolding required_vector
decoded-required_vector [] required h = cc (h, nothing_decoded)
decoded-required_vector (b ∷ bytes) required h = rw h refl

open_identity :
    (req : ConsumeRequest) (row : Row)
    → same_origin row.origin req.origin ≡ true
    → (row.tombstone_operation == req.tombstone_operation_id) ≡ true
    → row.window_generation ≡ req.window_generation
    → row.restored ≡ none
    → (not (is_none row.restored) || not (identity_matches row req)) ≡ false
open_identity req row a b g u =
    let g' = (eqb_iff row.window_generation req.window_generation).1 g in
    rw u (ground (arith, a, b, g'))

not_empty : (update : Bytes) → update ≢ [] → is_empty update ≡ false
not_empty [] h = absurd (h refl)
not_empty (b ∷ update) h = refl

module _ (call : Call) (req : ConsumeRequest) (s : Store) (a : IsAllowed call req s) where
  window_passes : consume_window call req a.head a.row s ≡ restore_checked call req a.head a.row s
  unfolding consume_window
  window_passes =
      let (origin, tombstone) =
        find_window-matches req.origin req.tombstone_operation_id s.windows {row = a.row} a.found in
      let known = open_identity req a.row origin tombstone a.generation a.unused in
      let in_time : ltb call.now a.row.reverse_until ≡ true = ground (arith, a.in_time) in
      let dominates =
        (dominates_iff a.current a.required
            (decode_state_vector-IsMap req.content_state_vector a.decoded)).1
          a.reached in
      rw
        (
          consume_window,
          replayed-none a.row req.restore_operation_id a.unused,
          known,
          in_time,
          decoded-required_vector req.content_state_vector a.required a.decoded,
          a.content,
          dominates,
        )
        refl

  entry_passes : restore_checked call req a.head a.row s ≡ restore_entry call req a.head a.row s
  unfolding restore_checked
  entry_passes =
      rw
        (
          restore_checked,
          Holds-root_file_entry a.head.document a.row.entry_id a.row.document_id a.row.desired_path
              a.entry a.holds,
          a.deleted,
          IsFree-is_claimed_by_other a.head.document a.row.entry_id a.row.desired_path a.free,
        )
        refl

  restore_passes :
      (s' : Store) × (r : ConsumeResult) × (restore_entry call req a.head a.row s
        ≡ (s', accepted r))
  unfolding restore_entry
  restore_passes = (
    restored_store call req a.head a.row s,
    record {
      window_generation = req.window_generation;
      consumed_at = call.now;
      restore_update_id = call.update_id;
      root_document_id = a.head.document_id;
      root_update = call.update;
    },
    rw (restore_entry, not_empty call.update a.update) refl,
  )

pub consume-IsAllowed :
    (call : Call) (req : ConsumeRequest) (s : Store)
    → IsAllowed call req s
    → (s' : Store) × (r : ConsumeResult) × (consume_reverse_window call req s ≡ (s', accepted r))
unfolding consume_reverse_window
consume-IsAllowed call req s a =
    let (s', r, done) = restore_passes call req s a in
    let same_root = (String_key.same_iff a.row.root_document_id a.head.document_id).1 a.in_root in
    (
      s',
      r,
      ap (λ (o : Option RootHead). consume_under call req o s) a.root
          ∙ under_window call req a.head a.row s a.found same_root
          ∙ window_passes call req s a
          ∙ entry_passes call req s a
          ∙ done,
    )
