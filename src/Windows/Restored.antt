-- ===== src/Windows/Restored.antt =====
-- What a consumption that `ConsumeReverseWindow` accepts has found and leaves behind.
use Prim.Native.String.{String}
use codesk.Common.{
  ℕ, ◌≤◌, ◌<◌, ◌≡◌, refl, sym, ap, ◌∙◌, true, false, none, some, arith, String_key, ◌==◌,
  if◌then◌else◌, Bool-cases, inl, inr, is_empty,
}
use codesk.Common.Dict.{Dict, lookup, modify, lookup-modify}
use codesk.Wire.Reader.{Bytes, Result, ok, err, panic}
use codesk.Wire.StateVector.{StateVector, clock, decode_state_vector_v1}
use codesk.Wire.StateVector.Dominance.{dominates_sound}
use codesk.Windows.Root.{FileEntry}
use codesk.Windows.Stores.{
  Origin, Row, RootHead, Store, Call, ConsumeRequest, ConsumeResult, accepted,
}
use codesk.Windows.{same_origin, find_window, required_vector, consumed_row, consume_reverse_window}
use codesk.Windows.Entries.{
  Holds, root_file_entry-Holds, lookup-set_deleted, IsFree, is_claimed_by_other-IsFree,
}
use codesk.Windows.Consume.{Restores, consume-Restores}
use codesk.Windows.Table.{IsTable, lookup-find_window, find_window-matches}

-- The window, the head of the root document, the entry and the state vectors of a consumption, what
-- holds of them before it, and what the store has after it.
pub record IsRestored (call : Call) (req : ConsumeRequest) (s s' : Store) (r : ConsumeResult)
    : Type 0 where
  pub row : Row
  pub head : RootHead
  pub entry : FileEntry
  pub required : StateVector
  pub current : StateVector
  pub found : find_window req.origin req.tombstone_operation_id s.windows ≡ some row
  pub window : lookup row.document_id s.windows ≡ some row
  pub origin : row.origin ≡ req.origin
  pub tombstone : row.tombstone_operation ≡ req.tombstone_operation_id
  pub generation : row.window_generation ≡ req.window_generation
  pub unused : row.restored ≡ none
  pub in_time : call.now < row.reverse_until
  pub root : s.root ≡ some head
  pub in_root : row.root_document_id ≡ head.document_id
  pub decoded : decode_state_vector_v1 req.content_state_vector ≡ ok required
  pub content : lookup row.document_id s.documents ≡ some current
  pub reached : (client : ℕ) → clock required client ≤ clock current client
  pub holds : Holds head.document row.entry_id row.document_id row.desired_path entry
  pub deleted : entry.deleted ≡ true
  pub free : IsFree row.entry_id row.desired_path head.document
  pub head' : RootHead
  pub root' : s'.root ≡ some head'
  pub same_root : head'.document_id ≡ head.document_id
  pub update' : head'.update_id ≡ call.update_id
  pub entries' :
      (id : String)
      → lookup id head'.document ≡ (
          if row.entry_id == id
          then some (some (record entry { deleted = false }))
          else lookup id head.document)
  pub windows' :
      (id : String)
      → lookup id s'.windows ≡ (
          if row.document_id == id
          then some (record row {
            restored = some (record {
              operation = req.restore_operation_id;
              update_id = call.update_id;
              consumed_at = call.now;
            });
          })
          else lookup id s.windows)
  pub documents' : s'.documents ≡ s.documents
  pub result : r ≡ record {
    window_generation = row.window_generation;
    consumed_at = call.now;
    restore_update_id = call.update_id;
    root_document_id = head.document_id;
    root_update = call.update;
  }

pub same_origin_sound : (a b : Origin) → same_origin a b ≡ true → a ≡ b
same_origin_sound a b h =
    ground (arith, String_key.same_iff a.daemon_id b.daemon_id, String_key.same_iff a.scope b.scope)

required_vector-decoded :
    (bytes : Bytes) (required : StateVector)
    → required_vector bytes ≡ some required
    → decode_state_vector_v1 bytes ≡ ok required
unfolding required_vector
required_vector-decoded bytes required h = elim (Bool-cases (is_empty bytes)) [
  | inl nothing ↦ absurd (cc (rw nothing at h))
  | inr something ↦ decoded (decode_state_vector_v1 bytes) (rw something at h)
]
  where
    decoded :
        (r : Result StateVector)
        → elim r [ panic ↦ none | err e ↦ none | ok required ↦ some required ] ≡ some required
        → r ≡ ok required
    decoded panic k = absurd (cc)
    decoded (err e) k = absurd (cc)
    decoded (ok v) k = cc

lookup-consumed :
    (call : Call) (req : ConsumeRequest) (row : Row) (document_id id : String)
    (rows : Dict String Row)
    → lookup document_id rows ≡ some row
    → lookup id (modify document_id (consumed_row call req) rows) ≡ (
        if document_id == id
        then some (record row {
          restored = some (record {
            operation = req.restore_operation_id;
            update_id = call.update_id;
            consumed_at = call.now;
          });
        })
        else lookup id rows)
lookup-consumed call req row document_id id rows h =
    rw lookup-modify (elim (Bool-cases (document_id == id)) [
      | inl same ↦
          let e : document_id ≡ id = (String_key.same_iff document_id id).0 same in
          rw (same, ← e, h) refl
      | inr other ↦ rw other refl
    ])

Restores-IsRestored :
    (call : Call) (req : ConsumeRequest) (s s' : Store) (r : ConsumeResult)
    → IsTable s.windows
    → Restores call req s s' r
    → IsRestored call req s s' r
Restores-IsRestored call req s s' r t c =
    let (origin, tombstone) =
      find_window-matches req.origin req.tombstone_operation_id s.windows {row = c.row} c.window in
    let window =
      lookup-find_window req.origin req.tombstone_operation_id s.windows {row = c.row} t c.window in
    let holds =
      root_file_entry-Holds c.head.document c.row.entry_id c.row.document_id c.row.desired_path
        c.entry c.found in
    record {
      row = c.row;
      head = c.head;
      entry = c.entry;
      required = c.required;
      current = c.current;
      found = c.window;
      window = window;
      origin = same_origin_sound c.row.origin req.origin origin;
      tombstone =
          (String_key.same_iff c.row.tombstone_operation req.tombstone_operation_id).0 tombstone;
      generation = c.generation;
      unused = c.unused;
      in_time = c.open_still;
      root = c.root;
      in_root = (String_key.same_iff c.row.root_document_id c.head.document_id).0 c.same_root;
      decoded = required_vector-decoded req.content_state_vector c.required c.decoded;
      content = c.content;
      reached = dominates_sound c.current c.required c.dominates;
      holds = holds;
      deleted = c.deleted;
      free =
          is_claimed_by_other-IsFree c.head.document c.row.entry_id c.row.desired_path c.unclaimed;
      head' = _;
      root' = ap (λ (x : Store). x.root) c.store;
      same_root = refl;
      update' = refl;
      entries' =
          λ id. lookup-set_deleted c.row.entry_id id false c.head.document c.entry holds.held;
      windows' = λ id.
          ap (λ (x : Store). lookup id x.windows) c.store
          ∙ lookup-consumed call req c.row c.row.document_id id s.windows window;
      documents' = ap (λ (x : Store). x.documents) c.store;
      result = c.result ∙ (λ i. record {
        window_generation = sym c.generation i;
        consumed_at = call.now;
        restore_update_id = call.update_id;
        root_document_id = c.head.document_id;
        root_update = call.update;
      });
    }

-- A consumption that is accepted, in a table with each row under its document, once: it has found
-- the window of the origin, the tombstone and the generation that it names, not consumed yet and
-- not over, in the current root document; the state vector of the request is one, and no client of
-- it is ahead of the content document; the entry of the window is there, for its document and path,
-- deleted, and every other entry is deleted or has another path. Afterwards this entry is active and
-- all others are as they were, the root document is at the new update, the window keeps the
-- operation, the update and the time that consumed it, and all other windows and the content
-- documents are as they were.
pub consume-IsRestored :
    (call : Call) (req : ConsumeRequest) (s s' : Store) (r : ConsumeResult)
    → IsTable s.windows
    → consume_reverse_window call req s ≡ (s', accepted r)
    → IsRestored call req s s' r
consume-IsRestored call req s s' r t h =
    Restores-IsRestored call req s s' r t (consume-Restores call req s s' r h)
