-- ===== src/Windows/Deleted.antt =====
-- What an opening that `OpenOrReplaceReverseWindow` accepts has found and leaves behind.
use Prim.Native.String.{String}
use codesk.Common.{
  ℕ, ◌+◌, ◌≡◌, ◌≢◌, refl, subst, ap, ◌∙◌, true, false, not, ◌&&◌, Option, none, some, arith,
  String_key, ◌==◌, if◌then◌else◌, eqb, past_guard, same_refl,
}
use codesk.Common.Dict.{Dict, lookup, lookup-insert, has}
use codesk.Wire.StateVector.{StateVector}
use codesk.Windows.Root.{FileEntry}
use codesk.Windows.Stores.{Row, RootHead, Store, Call, OpenRequest, OpenResult, accepted_new}
use codesk.Windows.{
  open_result_from_row, same_origin, open_over, open_under, open_or_replace_reverse_window,
}
use codesk.Windows.Entries.{Holds, root_file_entry-Holds, lookup-set_deleted}
use codesk.Windows.Open.{Opens, open-Opens, generation_of, replay_differs}

-- The window that a document had, if it had one, can give way to that of a request: it is of the
-- current root document, has a generation, and is not the one that the request has opened before.
pub data GivesWay (req : OpenRequest) (root_document_id : String) (old : Option Row) : Type 0 where
  first : old ≡ none → GivesWay req root_document_id old
  next :
      (row : Row)
      → old ≡ some row
      → row.root_document_id ≡ root_document_id
      → row.window_generation ≢ 0
      → ¬ ((row.origin ≡ req.origin) × (row.tombstone_operation ≡ req.operation_id))
      → GivesWay req root_document_id old

-- The head of the root document, the entry and the content document of an opening, what holds of
-- them before it, and what the store has after it.
pub record IsDeleted (call : Call) (req : OpenRequest) (s s' : Store) (r : OpenResult)
    : Type 0 where
  pub head : RootHead
  pub entry : FileEntry
  pub generation : ℕ
  pub content : StateVector
  pub root : s.root ≡ some head
  pub expected : req.expected_window_generation ≡ generation
  pub current : generation ≡ generation_of (lookup req.content_document_id s.windows)
  pub gives_way : GivesWay req head.document_id (lookup req.content_document_id s.windows)
  pub exists : lookup req.content_document_id s.documents ≡ some content
  pub holds : Holds head.document req.entry_id req.content_document_id req.desired_path entry
  pub active : entry.deleted ≡ false
  pub head' : RootHead
  pub root' : s'.root ≡ some head'
  pub same_root : head'.document_id ≡ head.document_id
  pub update' : head'.update_id ≡ call.update_id
  pub entries' :
      (id : String)
      → lookup id head'.document ≡ (
          if req.entry_id == id
          then some (some (record entry { deleted = true }))
          else lookup id head.document)
  pub windows' :
      (id : String)
      → lookup id s'.windows ≡ (
          if req.content_document_id == id
          then some (record {
            document_id = req.content_document_id;
            root_document_id = head.document_id;
            entry_id = req.entry_id;
            desired_path = req.desired_path;
            origin = req.origin;
            window_generation = generation + 1;
            tombstone_operation = req.operation_id;
            fingerprint = req.fingerprint;
            tombstone_update_id = call.update_id;
            opened_at = call.now;
            reverse_until = call.now + 300_000_000;
            restored = none;
          })
          else lookup id s.windows)
  pub documents' : s'.documents ≡ s.documents
  pub result : r ≡ record {
    window_generation = generation + 1;
    opened_at = call.now;
    reverse_until = call.now + 300_000_000;
    tombstone_update_id = call.update_id;
    root_document_id = head.document_id;
    root_update = call.update;
  }

found :
    (d : String) (documents : Dict String StateVector)
    → has documents d ≡ true
    → (v : StateVector) × (lookup d documents ≡ some v)
found d documents h = held (lookup d documents) h
  where
    held :
        (o : Option StateVector)
        → elim o [ none ↦ false | some v ↦ true ] ≡ true
        → (v : StateVector) × (o ≡ some v)
    held none k = absurd (cc)
    held (some v) k = (v, refl)

same_origin_refl :
    (row : Row) (req : OpenRequest)
    → row.origin ≡ req.origin
    → row.tombstone_operation ≡ req.operation_id
    → (same_origin row.origin req.origin && (row.tombstone_operation == req.operation_id)) ≡ true
same_origin_refl row req e f =
    rw
      (e, f, same_refl req.origin.daemon_id, same_refl req.origin.scope, same_refl req.operation_id)
      refl

open_over-GivesWay :
    (call : Call) (req : OpenRequest) (head : RootHead) (o : Option Row) (s : Store) {s' : Store}
    {r : OpenResult}
    → open_over call req head o s ≡ (s', accepted_new r)
    → GivesWay req head.document_id o
unfolding open_over
open_over-GivesWay call req head none s h = first refl
open_over-GivesWay call req head (some row) s h =
    let (a, h1) = past_guard (not (row.root_document_id == head.document_id)) _ _ h (λ q. cc) in
    let (b, h2) =
      past_guard
        (same_origin row.origin req.origin && (row.tombstone_operation == req.operation_id)) _ _ h1
        (λ q. replay_differs row req s q) in
    let (c, h3) = past_guard (eqb row.window_generation 0) _ _ h2 (λ q. cc) in
    next row refl ((String_key.same_iff row.root_document_id head.document_id).0 (ground arith))
      (λ z. ground arith) (λ e. cc (b, same_origin_refl row req (e.0) (e.1)))

open_under-GivesWay :
    (call : Call) (req : OpenRequest) (o : Option RootHead) (s : Store) (head : RootHead)
    {s' : Store} {r : OpenResult}
    → o ≡ some head
    → open_under call req o s ≡ (s', accepted_new r)
    → GivesWay req head.document_id (lookup req.content_document_id s.windows)
unfolding open_under
open_under-GivesWay call req none s head e h = absurd (cc)
open_under-GivesWay call req (some held) s head e h =
    let same : held ≡ head = cc in
    subst (λ (t : RootHead). GivesWay req t.document_id (lookup req.content_document_id s.windows))
      same (open_over-GivesWay call req held (lookup req.content_document_id s.windows) s h)

Opens-IsDeleted :
    (call : Call) (req : OpenRequest) (s s' : Store) (r : OpenResult)
    → (o : Opens call req s s' r)
    → GivesWay req o.head.document_id (lookup req.content_document_id s.windows)
    → IsDeleted call req s s' r
Opens-IsDeleted call req s s' r o g =
    let (content, exists) = found req.content_document_id s.documents o.exists in
    let holds =
      root_file_entry-Holds o.head.document req.entry_id req.content_document_id req.desired_path
        o.entry o.found in
    record {
      head = o.head;
      entry = o.entry;
      generation = o.generation;
      content = content;
      root = o.root;
      expected = o.expected;
      current = o.current;
      gives_way = g;
      exists = exists;
      holds = holds;
      active = o.active;
      head' = _;
      root' = ap (λ (x : Store). x.root) o.store;
      same_root = refl;
      update' = refl;
      entries' = λ id. lookup-set_deleted req.entry_id id true o.head.document o.entry holds.held;
      windows' = λ id.
          ap (λ (x : Store). lookup id x.windows) o.store
          ∙ lookup-insert req.content_document_id id _ s.windows;
      documents' = ap (λ (x : Store). x.documents) o.store;
      result = o.result ∙ unfold open_result_from_row in refl;
    }

-- An opening that is accepted has found: the generation of the document's window (0 if it has
-- none) is the one that it expects, and that window, if there is one, is of the current root
-- document, has a generation above 0 and was not opened by the same origin with the same operation;
-- the document is in the store; and its entry is in the root document, for its document and path,
-- and not deleted. Afterwards this entry is deleted and all others are as they were, the root
-- document is at the new update, the document has a window of the request, one generation on, open
-- for five minutes and not consumed, and all other windows and the content documents are as they
-- were.
pub open-IsDeleted :
    (call : Call) (req : OpenRequest) (s s' : Store) (r : OpenResult)
    → open_or_replace_reverse_window call req s ≡ (s', accepted_new r)
    → IsDeleted call req s s' r
unfolding open_or_replace_reverse_window
open-IsDeleted call req s s' r h =
    let o = open-Opens call req s s' r h in
    Opens-IsDeleted call req s s' r o (open_under-GivesWay call req s.root s o.head o.root h)
