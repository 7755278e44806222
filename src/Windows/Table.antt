-- ===== src/Windows/Table.antt =====
-- The table of reverse windows: every row stands under its document.
use Prim.Native.String.{String}
use codesk.Common.{
  ◌≡◌, refl, ap, sym, ◌∙◌, true, false, Option, some, [], ◌∷◌, arith, eqb_iff, String_key, ◌==◌,
  same_refl, Bool-cases, inl, inr, ◌⊎◌,
}
use codesk.Common.Dict.{Dict, lookup, insert, modify, IsMap, insert-IsMap}
use codesk.Windows.Stores.{
  Origin, OpenRequest, OpenResult, OpenOutcome, accepted_new, exact_replay, operation_mismatch,
  generation_conflict, open_failed, Row, RootHead, Store, Call, ConsumeRequest, ConsumeResult,
  ConsumeOutcome, accepted, consume_replay, consume_failed,
}
use codesk.Windows.{
  open_or_replace_reverse_window, find_window, same_origin, replayed, consumed_row, consume_window,
  consume_under, consume_reverse_window,
}
use codesk.Windows.Root.{set_deleted}
use codesk.Windows.Open.{open-Opens, open-unchanged, is_accepted_new}
use codesk.Windows.Consume.{is_accepted, consume-Restores, Restores, consume-unchanged}

abbrev pub IsKeyed : Dict String Row → Type 0
IsKeyed [] = Unit
IsKeyed ((document_id, row) ∷ rows) = (row.document_id ≡ document_id) × IsKeyed rows

pub record IsTable (rows : Dict String Row) : Type 0 where
  pub distinct : IsMap rows
  pub keyed : IsKeyed rows

insert-IsKeyed :
    (d : String) (row : Row) (rows : Dict String Row)
    → row.document_id ≡ d
    → IsKeyed rows
    → IsKeyed (insert d row rows)
unfolding insert
insert-IsKeyed d row [] h k = (h, tt)
insert-IsKeyed d row ((c, w) ∷ rows) h (first, k) = elim (Bool-cases (c == d)) [
  | inl same ↦ rw same (h, k)
  | inr other ↦ rw other (first, insert-IsKeyed d row rows h k)
]

insert-IsTable :
    (d : String) (row : Row) (rows : Dict String Row)
    → row.document_id ≡ d
    → IsTable rows
    → IsTable (insert d row rows)
insert-IsTable d row rows h t = record {
  distinct = insert-IsMap d row rows t.distinct;
  keyed = insert-IsKeyed d row rows h t.keyed;
}

-- A window that is found by its identity stands under its document.
pub lookup-find_window :
    (o : Origin) (op : String) (rows : Dict String Row) {row : Row}
    → IsTable rows
    → find_window o op rows ≡ some row
    → lookup row.document_id rows ≡ some row
unfolding find_window lookup
lookup-find_window o op [] t h = absurd (cc)
lookup-find_window o op ((c, w) ∷ rows) {row} t h =
    let (fresh, distinct) = t.distinct in
    let (first, keyed) = t.keyed in
    let rest =
      lookup-find_window o op rows {row = row} (record { distinct = distinct; keyed = keyed }) in
    ground (arith, String_key.same_iff c row.document_id, rest)

find_window-insert :
    (o : Origin) (op : String) (rows : Dict String Row) (row row' : Row)
    → IsTable rows
    → find_window o op rows ≡ some row
    → row'.origin ≡ row.origin
    → row'.tombstone_operation ≡ row.tombstone_operation
    → find_window o op (insert row.document_id row' rows) ≡ some row'
unfolding find_window lookup insert
find_window-insert o op [] row row' t h a b = absurd (cc)
find_window-insert o op ((c, w) ∷ rows) row row' t h a b =
    let (fresh, distinct) = t.distinct in
    let (first, keyed) = t.keyed in
    let inner : IsTable rows = record { distinct = distinct; keyed = keyed } in
    ground (
      arith,
      String_key.same_iff c row.document_id,
      lookup-find_window o op rows {row = row} inner,
      find_window-insert o op rows row row' inner,
    )

-- The window after an accepted request: it is found again, with its restore.
pub found_after :
    (call : Call) (req : ConsumeRequest) (s s' : Store) (r : ConsumeResult) (t : IsTable s.windows)
    (c : Restores call req s s' r)
    → (find_window req.origin req.tombstone_operation_id s'.windows
        ≡ some (consumed_row call req c.row))
      × IsTable s'.windows
unfolding modify insert
found_after call req s s' r t c =
    let here =
      lookup-find_window req.origin req.tombstone_operation_id s.windows {row = c.row} t c.window in
    let changed : s'.windows ≡ insert c.row.document_id (consumed_row call req c.row) s.windows =
      ap (λ (t : Store). t.windows) c.store ∙ rw (modify, here) refl in
    (
      rw changed (
          find_window-insert req.origin req.tombstone_operation_id s.windows c.row
            (consumed_row call req c.row) t c.window refl refl),
      rw changed (insert-IsTable c.row.document_id (consumed_row call req c.row) s.windows refl t),
    )

pub opened-IsTable :
    (call : Call) (req : OpenRequest) (s : Store) (o : OpenOutcome)
    → IsTable s.windows
    → (open_or_replace_reverse_window call req s).1 ≡ o
    → is_accepted_new o ≡ false ⊎ (r : OpenResult) × (o ≡ accepted_new r)
    → IsTable (open_or_replace_reverse_window call req s).0.windows
opened-IsTable call req s o t e (inl rejected) = rw (open-unchanged call req s (rw e rejected)) t
opened-IsTable call req s o t e (inr (r, is_new)) =
    let s' = (open_or_replace_reverse_window call req s).0 in
    let h : open_or_replace_reverse_window call req s ≡ (s', accepted_new r) =
      λ i. (s', (e ∙ is_new) i) in
    let opens = open-Opens call req s s' r h in
    rw (ap (λ (t : Store). t.windows) opens.store)
      (insert-IsTable req.content_document_id _ s.windows refl t)

pub consumed-IsTable :
    (call : Call) (req : ConsumeRequest) (s : Store) (o : ConsumeOutcome)
    → IsTable s.windows
    → (consume_reverse_window call req s).1 ≡ o
    → is_accepted o ≡ false ⊎ (r : ConsumeResult) × (o ≡ accepted r)
    → IsTable (consume_reverse_window call req s).0.windows
consumed-IsTable call req s o t e (inl rejected) =
    rw (consume-unchanged call req s (rw e rejected)) t
consumed-IsTable call req s o t e (inr (r, is_new)) =
    let s' = (consume_reverse_window call req s).0 in
    let h : consume_reverse_window call req s ≡ (s', accepted r) = λ i. (s', (e ∙ is_new) i) in
    (found_after call req s s' r t (consume-Restores call req s s' r h)).1

pub open_cases :
    (o : OpenOutcome) → is_accepted_new o ≡ false ⊎ (r : OpenResult) × (o ≡ accepted_new r)
open_cases (accepted_new r) = inr (r, refl)
open_cases (exact_replay r) = inl refl
open_cases operation_mismatch = inl refl
open_cases (generation_conflict g) = inl refl
open_cases (open_failed f) = inl refl

pub consume_cases :
    (o : ConsumeOutcome) → is_accepted o ≡ false ⊎ (r : ConsumeResult) × (o ≡ accepted r)
consume_cases (accepted r) = inr (r, refl)
consume_cases (consume_replay r) = inl refl
consume_cases (consume_failed f) = inl refl

-- Whatever their outcome, opening and consuming keep every row of the table under its document, and
-- each document once.
pub outcomes-IsTable :
    (call : Call) (open_req : OpenRequest) (req : ConsumeRequest) (s : Store)
    → IsTable s.windows
    → IsTable (open_or_replace_reverse_window call open_req s).0.windows
      × IsTable (consume_reverse_window call req s).0.windows
outcomes-IsTable call open_req req s t = (
  opened-IsTable call open_req s _ t refl (open_cases _),
  consumed-IsTable call req s _ t refl (consume_cases _),
)

pub find_window-matches :
    (o : Origin) (op : String) (rows : Dict String Row) {row : Row}
    → find_window o op rows ≡ some row
    → (same_origin row.origin o ≡ true) × ((row.tombstone_operation == op) ≡ true)
unfolding find_window
find_window-matches o op [] h = absurd (cc)
find_window-matches o op ((c, w) ∷ rows) {row} h =
    ground (arith, find_window-matches o op rows {row = row})

replay_window :
    (call later : Call) (req : ConsumeRequest) (head : RootHead) (row : Row) (s : Store)
    → same_origin row.origin req.origin ≡ true
    → (row.tombstone_operation == req.tombstone_operation_id) ≡ true
    → row.window_generation ≡ req.window_generation
    → consume_window later req head (consumed_row call req row) s ≡ (
      s,
      consume_replay (record {
        window_generation = row.window_generation;
        consumed_at = call.now;
        restore_update_id = call.update_id;
        root_document_id = row.root_document_id;
        root_update = [];
      }),
    )
unfolding consume_window replayed
replay_window call later req head row s a b g =
    ground (
      arith,
      same_refl req.restore_operation_id,
      eqb_iff row.window_generation req.window_generation,
    )

pub under_window :
    (call : Call) (req : ConsumeRequest) (head : RootHead) (row : Row) (s : Store)
    → find_window req.origin req.tombstone_operation_id s.windows ≡ some row
    → (row.root_document_id == head.document_id) ≡ true
    → consume_under call req (some head) s ≡ consume_window call req head row s
unfolding consume_under
under_window call req head row s h e = rw (consume_under, h, e)

-- In a table with each row under its document, once: a consumption sent again to the store that it
-- left when it was accepted is answered with the stored result, at any time, and changes nothing.
pub consume-replay :
    (call later : Call) (req : ConsumeRequest) (s s' : Store) (r : ConsumeResult)
    → IsTable s.windows
    → consume_reverse_window call req s ≡ (s', accepted r)
    → consume_reverse_window later req s' ≡ (s', consume_replay (record r { root_update = [] }))
unfolding consume_reverse_window consume_under
consume-replay call later req s s' r t h =
    let c = consume-Restores call req s s' r h in
    let (found, table) = found_after call req s s' r t c in
    let (origin, tombstone) =
      find_window-matches req.origin req.tombstone_operation_id s.windows {row = c.row} c.window in
    let moved : RootHead = record c.head {
      update_id = call.update_id;
      document = set_deleted c.row.entry_id false c.head.document;
    } in
    let root : s'.root ≡ some moved = ap (λ (t : Store). t.root) c.store in
    let same_id : c.row.root_document_id ≡ c.head.document_id =
      (String_key.same_iff c.row.root_document_id c.head.document_id).0 c.same_root in
    let stored : Path (Store × ConsumeOutcome) _ _ = λ i. (
      s',
      consume_replay (record {
        window_generation = c.generation i;
        consumed_at = call.now;
        restore_update_id = call.update_id;
        root_document_id = same_id i;
        root_update = [];
      }),
    ) in
    ap (λ (o : Option RootHead). consume_under later req o s') root
    ∙ under_window later req moved (consumed_row call req c.row) s' found c.same_root
    ∙ replay_window call later req moved c.row s' origin tombstone c.generation
    ∙ stored
    ∙ ap (λ (x : ConsumeResult). (s', consume_replay (record x { root_update = [] })))
        (sym c.result)
