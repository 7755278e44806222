-- ===== src/Windows/Consume.antt =====
-- What `ConsumeReverseWindow` does.
use Prim.Native.String.{String}
use codesk.Common.{
  ◌<◌, ◌≡◌, refl, ap, sym, ◌∙◌, Bool, true, false, not, ◌||◌, Option, none, some, arith, eqb_iff,
  ltb, is_empty, is_none, String_key, ◌==◌, past_guard, past_lookup, Bool-cases, inl, inr,
}
use codesk.Common.Dict.{lookup, modify}
use codesk.Wire.StateVector.{StateVector, reverse_window_state_vector_dominates}
use codesk.Windows.Root.{FileEntry, root_file_entry, set_deleted, is_claimed_by_other}
use codesk.Windows.Stores.{
  Row, RootHead, Store, Call, ConsumeRequest, ConsumeResult, ConsumeOutcome, accepted,
  consume_replay, consume_failed,
}
use codesk.Windows.{
  persist_root_update, find_window, identity_matches, replayed, required_vector, consumed_row,
  restore_entry, restore_checked, consume_window, consume_under, consume_reverse_window,
}

abbrev pub is_accepted : ConsumeOutcome → Bool
is_accepted (accepted r) = true
is_accepted (consume_replay r) = false
is_accepted (consume_failed f) = false

-- The store after an accepted request.
abbrev pub restored_store : Call → ConsumeRequest → RootHead → Row → Store → Store
restored_store call req head row s =
    let s' = persist_root_update call head (set_deleted row.entry_id false head.document) s in
    record s' { windows = modify row.document_id (consumed_row call req) s'.windows }

-- The conditions and the effect of an accepted request.
pub record Restores (call : Call) (req : ConsumeRequest) (s s' : Store) (r : ConsumeResult)
    : Type 0 where
  pub head : RootHead
  pub row : Row
  pub entry : FileEntry
  pub required : StateVector
  pub current : StateVector
  pub root : s.root ≡ some head
  pub window : find_window req.origin req.tombstone_operation_id s.windows ≡ some row
  pub same_root : (row.root_document_id == head.document_id) ≡ true
  pub generation : row.window_generation ≡ req.window_generation
  pub unused : row.restored ≡ none
  pub open_still : call.now < row.reverse_until
  pub decoded : required_vector req.content_state_vector ≡ some required
  pub content : lookup row.document_id s.documents ≡ some current
  pub dominates : reverse_window_state_vector_dominates current required ≡ true
  pub found :
      root_file_entry head.document row.entry_id row.document_id row.desired_path ≡ some entry
  pub deleted : entry.deleted ≡ true
  pub unclaimed : is_claimed_by_other head.document row.entry_id row.desired_path ≡ some false
  pub store : s' ≡ restored_store call req head row s
  pub result : r ≡ record {
    window_generation = req.window_generation;
    consumed_at = call.now;
    restore_update_id = call.update_id;
    root_document_id = head.document_id;
    root_update = call.update;
  }

consume_window-unchanged :
    (call : Call) (req : ConsumeRequest) (head : RootHead) (row : Row) (s : Store)
    → is_accepted (consume_window call req head row s).1 ≡ false
    → (consume_window call req head row s).0 ≡ s
unfolding consume_window restore_checked restore_entry
consume_window-unchanged call req head row s h = ground arith

consume_under-unchanged :
    (call : Call) (req : ConsumeRequest) (o : Option RootHead) (s : Store)
    → is_accepted (consume_under call req o s).1 ≡ false
    → (consume_under call req o s).0 ≡ s
unfolding consume_under
consume_under-unchanged call req none s h = refl
consume_under-unchanged call req (some head) s h =
    ground (arith, λ (row : Row). consume_window-unchanged call req head row s)

-- A request that is not accepted, be it replayed or refused, changes nothing.
pub consume-unchanged :
    (call : Call) (req : ConsumeRequest) (s : Store)
    → is_accepted (consume_reverse_window call req s).1 ≡ false
    → (consume_reverse_window call req s).0 ≡ s
unfolding consume_reverse_window
consume-unchanged call req s h = consume_under-unchanged call req s.root s h

-- A window that was not consumed has nothing to replay.
pub replayed-none :
    (row : Row) (operation : String) → row.restored ≡ none → replayed row operation ≡ none
unfolding replayed
replayed-none row operation h = rw h

restore_checked-Restores :
    (call : Call) (req : ConsumeRequest) (head : RootHead) (row : Row) (s : Store) {s' : Store}
    {r : ConsumeResult} (required current : StateVector)
    → s.root ≡ some head
    → find_window req.origin req.tombstone_operation_id s.windows ≡ some row
    → (row.root_document_id == head.document_id) ≡ true
    → row.window_generation ≡ req.window_generation
    → row.restored ≡ none
    → call.now < row.reverse_until
    → required_vector req.content_state_vector ≡ some required
    → lookup row.document_id s.documents ≡ some current
    → reverse_window_state_vector_dominates current required ≡ true
    → restore_checked call req head row s ≡ (s', accepted r)
    → Restores call req s s' r
unfolding restore_checked restore_entry
restore_checked-Restores call req head row s required current a b c d e f g i j h =
    let (entry, found, h1) =
      past_lookup (root_file_entry head.document row.entry_id row.document_id row.desired_path) _ _
        h (λ q. cc) in
    let (deleted, h2) = past_guard (not entry.deleted) _ _ h1 (λ q. cc) in
    let (claimed, answer, h3) =
      past_lookup (is_claimed_by_other head.document row.entry_id row.desired_path) _ _ h2
        (λ q. cc) in
    let (unclaimed, h4) = past_guard claimed _ _ h3 (λ q. cc) in
    let (update, h5) = past_guard (is_empty call.update) _ _ h4 (λ q. cc) in
    record {
      head = head;
      row = row;
      entry = entry;
      required = required;
      current = current;
      root = a;
      window = b;
      same_root = c;
      generation = d;
      unused = e;
      open_still = f;
      decoded = g;
      content = i;
      dominates = j;
      found = found;
      deleted = ground arith;
      unclaimed = answer ∙ ap some unclaimed;
      store = sym (ap (λ (o : Store × ConsumeOutcome). o.0) h5);
      result = cc h5;
    }

consume_window-Restores :
    (call : Call) (req : ConsumeRequest) (head : RootHead) (row : Row) (s : Store) {s' : Store}
    {r : ConsumeResult}
    → s.root ≡ some head
    → find_window req.origin req.tombstone_operation_id s.windows ≡ some row
    → (row.root_document_id == head.document_id) ≡ true
    → (o : Option ConsumeResult) → replayed row req.restore_operation_id ≡ o
    → consume_window call req head row s ≡ (s', accepted r)
    → Restores call req s s' r
unfolding consume_window
consume_window-Restores call req head row s a b c (some old) e h =
    let h' = rw (e, consume_window) at h in
    elim (Bool-cases (identity_matches row req)) [
      | inl same ↦ absurd (cc (rw same at h'))
      | inr other ↦ absurd (cc (rw other at h'))
    ]
consume_window-Restores call req head row s a b c none e h =
    let h0 = rw (e, consume_window) at h in
    let (known, h1) =
      past_guard (not (is_none row.restored) || not (identity_matches row req)) _ _ h0 (λ q. cc) in
    let (in_time, h2) = past_guard (not (ltb call.now row.reverse_until)) _ _ h1 (λ q. cc) in
    let (required, decoded, h3) =
      past_lookup (required_vector req.content_state_vector) _ _ h2 (λ q. cc) in
    let (current, content, h4) =
      past_lookup (lookup row.document_id s.documents) _ _ h3 (λ q. cc) in
    let (dominates, h5) =
      past_guard (not (reverse_window_state_vector_dominates current required)) _ _ h4 (λ q. cc) in
    let generation : row.window_generation ≡ req.window_generation =
      ground (arith, eqb_iff row.window_generation req.window_generation) in
    let unused : row.restored ≡ none = ground arith in
    restore_checked-Restores call req head row s required current a b c generation unused
      (ground arith) decoded content (ground arith) h5

consume_under-Restores :
    (call : Call) (req : ConsumeRequest) (o : Option RootHead) (s : Store) {s' : Store}
    {r : ConsumeResult}
    → s.root ≡ o
    → consume_under call req o s ≡ (s', accepted r)
    → Restores call req s s' r
unfolding consume_under
consume_under-Restores call req none s e h = absurd (cc)
consume_under-Restores call req (some head) s e h =
    let (row, window, h1) =
      past_lookup (find_window req.origin req.tombstone_operation_id s.windows) _ _ h (λ q. cc) in
    let (same_root, h2) =
      past_guard (not (row.root_document_id == head.document_id)) _ _ h1 (λ q. cc) in
    consume_window-Restores call req head row s e window (ground arith)
      (replayed row req.restore_operation_id) refl h2

-- A window is consumed only if the request names its origin, its tombstone and its generation, it
-- belongs to the current root document, it has not been consumed, its time is not over, the content
-- document has reached the state vector of the request, the entry is still there, deleted, and no
-- other active entry has its path. Then the entry is marked active in the root document and the
-- window keeps the operation that consumed it.
pub consume-Restores :
    (call : Call) (req : ConsumeRequest) (s s' : Store) (r : ConsumeResult)
    → consume_reverse_window call req s ≡ (s', accepted r)
    → Restores call req s s' r
unfolding consume_reverse_window
consume-Restores call req s s' r h = consume_under-Restores call req s.root s refl h
