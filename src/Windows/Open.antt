-- ===== src/Windows/Open.antt =====
-- What `OpenOrReplaceReverseWindow` does.
use codesk.Common.{
  ℕ, ◌+◌, ◌≡◌, ◌≢◌, refl, ap, sym, Bool, true, false, not, ◌&&◌, Option, none, some, [], arith, eqb,
  eqb_iff, if◌then◌else◌, is_empty, String_key, ◌==◌, same_refl, past_guard, past_lookup,
}
use codesk.Common.Dict.{lookup, insert, has, lookup-insert_self}
use codesk.Windows.Root.{FileEntry, root_file_entry, set_deleted}
use codesk.Windows.Stores.{
  Row, RootHead, Store, Call, Failure, OpenRequest, OpenResult, OpenOutcome, accepted_new,
  exact_replay, operation_mismatch, generation_conflict, open_failed,
}
use codesk.Windows.{
  open_result_from_row, persist_root_update, row_of, open_at, open_over, open_under,
  open_or_replace_reverse_window, same_origin,
}

abbrev pub is_accepted_new : OpenOutcome → Bool
is_accepted_new (accepted_new r) = true
is_accepted_new (exact_replay r) = false
is_accepted_new operation_mismatch = false
is_accepted_new (generation_conflict g) = false
is_accepted_new (open_failed f) = false

abbrev pub generation_of : Option Row → ℕ
generation_of none = 0
generation_of (some row) = row.window_generation

-- The store after an accepted request.
abbrev pub opened : Call → OpenRequest → RootHead → ℕ → Store → Store
opened call req head generation s =
    let s' = persist_root_update call head (set_deleted req.entry_id true head.document) s in
    record s' {
      windows = insert req.content_document_id (row_of call req head (generation + 1)) s'.windows;
    }

-- The conditions and the effect of an accepted request.
pub record Opens (call : Call) (req : OpenRequest) (s s' : Store) (r : OpenResult) : Type 0 where
  pub head : RootHead
  pub entry : FileEntry
  pub root : s.root ≡ some head
  pub generation : ℕ
  pub expected : req.expected_window_generation ≡ generation
  pub current : generation ≡ generation_of (lookup req.content_document_id s.windows)
  pub exists : has s.documents req.content_document_id ≡ true
  pub found :
      root_file_entry head.document req.entry_id req.content_document_id req.desired_path
      ≡ some entry
  pub active : entry.deleted ≡ false
  pub store : s' ≡ opened call req head generation s
  pub result : r ≡ record (open_result_from_row (row_of call req head (generation + 1))) {
    root_update = call.update;
  }

open_at-unchanged :
    (call : Call) (req : OpenRequest) (head : RootHead) (g : ℕ) (s : Store)
    → is_accepted_new (open_at call req head g s).1 ≡ false
    → (open_at call req head g s).0 ≡ s
unfolding open_at
open_at-unchanged call req head g s h = ground arith

open_over-unchanged :
    (call : Call) (req : OpenRequest) (head : RootHead) (o : Option Row) (s : Store)
    → is_accepted_new (open_over call req head o s).1 ≡ false
    → (open_over call req head o s).0 ≡ s
unfolding open_over
open_over-unchanged call req head none s h = open_at-unchanged call req head 0 s h
open_over-unchanged call req head (some row) s h =
    ground (arith, open_at-unchanged call req head row.window_generation s)

open_under-unchanged :
    (call : Call) (req : OpenRequest) (o : Option RootHead) (s : Store)
    → is_accepted_new (open_under call req o s).1 ≡ false
    → (open_under call req o s).0 ≡ s
unfolding open_under
open_under-unchanged call req none s h = refl
open_under-unchanged call req (some head) s h = open_over-unchanged call req head _ s h

-- A request that is not accepted, be it replayed, in conflict or in error, changes nothing.
pub open-unchanged :
    (call : Call) (req : OpenRequest) (s : Store)
    → is_accepted_new (open_or_replace_reverse_window call req s).1 ≡ false
    → (open_or_replace_reverse_window call req s).0 ≡ s
unfolding open_or_replace_reverse_window
open-unchanged call req s h = open_under-unchanged call req s.root s h

open_at-Opens :
    (call : Call) (req : OpenRequest) (head : RootHead) (g : ℕ) (s : Store) {s' : Store}
    {r : OpenResult}
    → s.root ≡ some head
    → g ≡ generation_of (lookup req.content_document_id s.windows)
    → open_at call req head g s ≡ (s', accepted_new r)
    → Opens call req s s' r
unfolding open_at
open_at-Opens call req head g s root current h =
    let (expected, h1) = past_guard (not (eqb req.expected_window_generation g)) _ _ h (λ e. cc) in
    let (exists, h2) =
      past_guard (not (has s.documents req.content_document_id)) _ _ h1 (λ e. cc) in
    let (entry, found, h3) =
      past_lookup
        (root_file_entry head.document req.entry_id req.content_document_id req.desired_path) _ _ h2
        (λ e. cc) in
    let (active, h4) = past_guard entry.deleted _ _ h3 (λ e. cc) in
    let (update, h5) = past_guard (is_empty call.update) _ _ h4 (λ e. cc) in
    record {
      head = head;
      entry = entry;
      root = root;
      generation = g;
      expected = ground (arith, eqb_iff req.expected_window_generation g);
      current = current;
      exists = ground arith;
      found = found;
      active = active;
      store = sym (ap (λ (o : Store × OpenOutcome). o.0) h5);
      result = cc h5;
    }

-- The answers to a request that its document has had already are not acceptances.
pub replay_differs :
    (row : Row) (req : OpenRequest) (s : Store) {s' : Store} {r : OpenResult}
    → ◌≢◌ {A = Store × OpenOutcome}
        (if not (row.fingerprint == req.fingerprint)
          then (s, operation_mismatch)
          else if eqb row.window_generation 0
          then (s, open_failed Failure.no_accepted_generation)
          else (s, exact_replay (open_result_from_row row)))
        (s', accepted_new r)
replay_differs row req s h =
    let (a, h1) = past_guard (not (row.fingerprint == req.fingerprint)) _ _ h (λ q. cc) in
    let (b, h2) = past_guard (eqb row.window_generation 0) _ _ h1 (λ q. cc) in cc h2

open_over-Opens :
    (call : Call) (req : OpenRequest) (head : RootHead) (o : Option Row) (s : Store) {s' : Store}
    {r : OpenResult}
    → s.root ≡ some head
    → lookup req.content_document_id s.windows ≡ o
    → open_over call req head o s ≡ (s', accepted_new r)
    → Opens call req s s' r
unfolding open_over
open_over-Opens call req head none s root e h =
    open_at-Opens call req head 0 s root (sym (ap generation_of e)) h
open_over-Opens call req head (some row) s root e h =
    let (a, h1) = past_guard (not (row.root_document_id == head.document_id)) _ _ h (λ q. cc) in
    let (b, h2) =
      past_guard
        (same_origin row.origin req.origin && (row.tombstone_operation == req.operation_id)) _ _ h1
        (λ q. replay_differs row req s q) in
    let (c, h3) = past_guard (eqb row.window_generation 0) _ _ h2 (λ q. cc) in
    open_at-Opens call req head row.window_generation s root (sym (ap generation_of e)) h3

open_under-Opens :
    (call : Call) (req : OpenRequest) (o : Option RootHead) (s : Store) {s' : Store}
    {r : OpenResult}
    → s.root ≡ o
    → open_under call req o s ≡ (s', accepted_new r)
    → Opens call req s s' r
unfolding open_under
open_under-Opens call req none s e h = absurd (cc)
open_under-Opens call req (some head) s e h = open_over-Opens call req head _ s e refl h

-- A request is accepted only if it names the current generation of the document's window (0 if it
-- has none), a document of the store, and a file entry of the root document that is not deleted and
-- has that document and path. Then the entry is marked deleted in the root document and the window,
-- one generation on and open for five minutes, takes the place of the document's last one.
pub open-Opens :
    (call : Call) (req : OpenRequest) (s s' : Store) (r : OpenResult)
    → open_or_replace_reverse_window call req s ≡ (s', accepted_new r)
    → Opens call req s s' r
unfolding open_or_replace_reverse_window
open-Opens call req s s' r h = open_under-Opens call req s.root s refl h

replay_over :
    (call later : Call) (req : OpenRequest) (head head' : RootHead) (g : ℕ) (s : Store)
    → head'.document_id ≡ head.document_id
    → open_over later req head' (some (row_of call req head (g + 1))) s
      ≡ (s, exact_replay (open_result_from_row (row_of call req head (g + 1))))
unfolding open_over
replay_over call later req head head' g s h = ground (
  arith,
  same_refl head.document_id,
  same_refl req.origin.daemon_id,
  same_refl req.origin.scope,
  same_refl req.operation_id,
  same_refl req.fingerprint,
)

-- An opening sent again to the store that it left when it was accepted is answered with the stored
-- result, at any time, and changes nothing.
pub open-replay :
    (call later : Call) (req : OpenRequest) (s s' : Store) (r : OpenResult)
    → open_or_replace_reverse_window call req s ≡ (s', accepted_new r)
    → open_or_replace_reverse_window later req s'
      ≡ (s', exact_replay (record r { root_update = [] }))
unfolding open_or_replace_reverse_window open_under open_result_from_row
open-replay call later req s s' r h =
    let o = open-Opens call req s s' r h in
    let moved : RootHead = record o.head {
      update_id = call.update_id;
      document = set_deleted req.entry_id true o.head.document;
    } in
    rw (o.store, o.result, lookup-insert_self)
      (replay_over call later req o.head moved o.generation _ refl)
