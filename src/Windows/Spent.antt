-- ===== src/Windows/Spent.antt =====
-- A window is consumed once, whatever calls come in between.
use Prim.Native.String.{String}
use codesk.Common.{
  ℕ, ◌<◌, ◌≤◌, ◌≡◌, ◌≢◌, ◌⊎◌, inl, inr, refl, sym, ap, subst, ◌∙◌, Bool, true, false, none, some,
  List, [], ◌∷◌, arith, String_key, ◌==◌, if◌then◌else◌, Bool-cases, same_refl,
}
use mathlib.Core.Option.{some-injective}
use codesk.Common.Dict.{Dict, lookup}
use codesk.Windows.Stores.{
  Row, Store, Call, OpenRequest, OpenResult, accepted_new, ConsumeRequest, ConsumeResult,
  ConsumeOutcome, accepted,
}
use codesk.Windows.{open_or_replace_reverse_window, consume_reverse_window, find_window}
use codesk.Windows.Open.{is_accepted_new, open-unchanged}
use codesk.Windows.Consume.{is_accepted, consume-unchanged}
use codesk.Windows.Table.{IsTable, opened-IsTable, consumed-IsTable, open_cases, consume_cases}
use codesk.Windows.Deleted.{IsDeleted, open-IsDeleted}
use codesk.Windows.Restored.{IsRestored, consume-IsRestored}

-- A call of the server, whatever it answers.
pub data WindowCall : Type 0 where
  opens : Call → OpenRequest → WindowCall
  consumes : Call → ConsumeRequest → WindowCall

abbrev pub called : WindowCall → Store → Store
called (opens call req) s = (open_or_replace_reverse_window call req s).0
called (consumes call req) s = (consume_reverse_window call req s).0

unfoldable pub run_calls : List WindowCall → Store → Store
run_calls [] s = s
run_calls (c ∷ calls) s = run_calls calls (called c s)

-- The window of the document is of a later generation, or of this one and consumed.
record IsSpent (document_id : String) (generation : ℕ) (rows : Dict String Row) : Type 0 where
  row : Row
  window : lookup document_id rows ≡ some row
  spent :
      (generation < row.window_generation)
      ⊎ ((row.window_generation ≡ generation) × (row.restored ≢ none))

if_true {ℓ} : {A : Type ℓ} {b : Bool} {x : A} (y : A) → b ≡ true → (if b then x else y) ≡ x
if_true y h = rw h refl

module _ (document_id : String) (generation : ℕ) where
  opened-IsSpent :
      (call : Call) (req : OpenRequest) (s s' : Store) (r : OpenResult)
      → IsDeleted call req s s' r
      → IsSpent document_id generation s.windows
      → IsSpent document_id generation s'.windows
  opened-IsSpent call req s s' r o h = elim (Bool-cases (req.content_document_id == document_id)) [
    | inr other ↦ record {
      row = h.row;
      window = o.windows' document_id ∙ rw other h.window;
      spent = h.spent;
    }
    | inl same ↦
        let e = (String_key.same_iff req.content_document_id document_id).0 same in
        let g : o.generation ≡ h.row.window_generation = o.current ∙ rw e (rw (h.window) refl) in
        record {
          row = _;
          window = o.windows' document_id ∙ if_true _ same;
          spent = inl (omega (arith, g, at_least h));
        }
  ]
    where
      at_least :
          (k : IsSpent document_id generation s.windows) → generation ≤ k.row.window_generation
      at_least k = elim k.spent [ inl later ↦ omega (arith, later) | inr e ↦ omega (arith, e.0) ]

  consumed-IsSpent :
      (call : Call) (req : ConsumeRequest) (s s' : Store) (r : ConsumeResult)
      → IsRestored call req s s' r
      → IsSpent document_id generation s.windows
      → IsSpent document_id generation s'.windows
  consumed-IsSpent call req s s' r c h = elim (Bool-cases (c.row.document_id == document_id)) [
    | inr other ↦ record {
      row = h.row;
      window = c.windows' document_id ∙ rw other h.window;
      spent = h.spent;
    }
    | inl same ↦
        let e = (String_key.same_iff c.row.document_id document_id).0 same in
        let one : h.row ≡ c.row = some-injective _ _ (sym h.window ∙ rw (← e) c.window) in
        record {
          row = _;
          window = c.windows' document_id ∙ if_true _ same;
          spent = elim h.spent [
            | inl later ↦ inl (omega (arith, later, ap (λ (w : Row). w.window_generation) one))
            | inr (g, used) ↦ absurd (used (ap (λ (w : Row). w.restored) one ∙ c.unused))
          ];
        }
  ]

  called-IsSpent :
      (c : WindowCall) (s : Store)
      → IsTable s.windows
      → IsSpent document_id generation s.windows
      → IsSpent document_id generation (called c s).windows
  called-IsSpent (opens call req) s t h =
      go (open_cases (open_or_replace_reverse_window call req s).1)
    where
      go :
          (is_accepted_new (open_or_replace_reverse_window call req s).1 ≡ false)
            ⊎ (r : OpenResult) × ((open_or_replace_reverse_window call req s).1 ≡ accepted_new r)
          → IsSpent document_id generation (open_or_replace_reverse_window call req s).0.windows
      go (inl refused) = rw (open-unchanged call req s refused) h
      go (inr (r, answer)) =
          let s' = (open_or_replace_reverse_window call req s).0 in
          opened-IsSpent call req s s' r (open-IsDeleted call req s s' r (λ i. (s', answer i))) h
  called-IsSpent (consumes call req) s t h =
      go (consume_cases (consume_reverse_window call req s).1)
    where
      go :
          (is_accepted (consume_reverse_window call req s).1 ≡ false)
            ⊎ (r : ConsumeResult) × ((consume_reverse_window call req s).1 ≡ accepted r)
          → IsSpent document_id generation (consume_reverse_window call req s).0.windows
      go (inl refused) = rw (consume-unchanged call req s refused) h
      go (inr (r, answer)) =
          let s' = (consume_reverse_window call req s).0 in
          consumed-IsSpent call req s s' r
            (consume-IsRestored call req s s' r t (λ i. (s', answer i))) h

called-IsTable : (c : WindowCall) (s : Store) → IsTable s.windows → IsTable (called c s).windows
called-IsTable (opens call req) s t = opened-IsTable call req s _ t refl (open_cases _)
called-IsTable (consumes call req) s t = consumed-IsTable call req s _ t refl (consume_cases _)

run_calls-IsSpent :
    (document_id : String) (generation : ℕ) (calls : List WindowCall) (s : Store)
    → IsTable s.windows
    → IsSpent document_id generation s.windows
    → IsTable (run_calls calls s).windows
      × IsSpent document_id generation (run_calls calls s).windows
unfolding run_calls
run_calls-IsSpent document_id generation [] s t h = (t, h)
run_calls-IsSpent document_id generation (c ∷ calls) s t h =
    run_calls-IsSpent document_id generation calls (called c s) (called-IsTable c s t)
      (called-IsSpent document_id generation c s t h)

-- An accepted consumption spends its window.
consume-IsSpent :
    (call : Call) (req : ConsumeRequest) (s s' : Store) (r : ConsumeResult)
    → (c : IsRestored call req s s' r)
    → IsSpent c.row.document_id c.row.window_generation s'.windows
consume-IsSpent call req s s' r c = record {
  row = _;
  window = c.windows' c.row.document_id ∙ if_true _ (same_refl c.row.document_id);
  spent = inr (refl, λ e. cc e);
}

spent-later :
    (document_id : String) (generation : ℕ) (rows : Dict String Row) (row : Row)
    → IsSpent document_id generation rows
    → lookup document_id rows ≡ some row
    → row.restored ≡ none
    → generation < row.window_generation
spent-later document_id generation rows row h window unused =
    let one : h.row ≡ row = some-injective _ _ (sym h.window ∙ window) in
    elim h.spent [
      | inl later ↦ omega (arith, later, ap (λ (w : Row). w.window_generation) one)
      | inr (g, used) ↦ absurd (used (ap (λ (w : Row). w.restored) one ∙ unused))
    ]

-- Where a window of a document has been consumed, in a table with each row under its document,
-- once, then, whatever openings and consumptions are called for afterwards, and whatever they are
-- answered, a window of the same document whose consumption is accepted is of a later generation:
-- no window is ever consumed twice.
pub consume-once :
    (call later : Call) (req req' : ConsumeRequest) (calls : List WindowCall) (s s' s'' : Store)
    (r r' : ConsumeResult) (row row' : Row)
    → IsTable s.windows
    → find_window req.origin req.tombstone_operation_id s.windows ≡ some row
    → consume_reverse_window call req s ≡ (s', accepted r)
    → find_window req'.origin req'.tombstone_operation_id (run_calls calls s').windows ≡ some row'
    → consume_reverse_window later req' (run_calls calls s') ≡ (s'', accepted r')
    → row'.document_id ≡ row.document_id
    → row.window_generation < row'.window_generation
consume-once call later req req' calls s s' s'' r r' row row' t window h window' h' same =
    let c = consume-IsRestored call req s s' r t h in
    let table = called-IsTable (consumes call req) s t in
    let one : c.row ≡ row = some-injective _ _ (sym c.found ∙ window) in
    let e : s' ≡ called (consumes call req) s = ap (λ (o : Store × ConsumeOutcome). o.0) (sym h) in
    let first : IsSpent row.document_id row.window_generation s'.windows =
      subst (λ (w : Row). IsSpent w.document_id w.window_generation s'.windows) one
        (consume-IsSpent call req s s' r c) in
    let table' : IsTable s'.windows = rw e table in
    let (table'', spent) =
      run_calls-IsSpent row.document_id row.window_generation calls s' table' first in
    let c' = consume-IsRestored later req' (run_calls calls s') s'' r' table'' h' in
    let one' : c'.row ≡ row' = some-injective _ _ (sym c'.found ∙ window') in
    let here : lookup row'.document_id (run_calls calls s').windows ≡ some row' =
      subst (λ (w : Row). lookup w.document_id (run_calls calls s').windows ≡ some w) one'
        c'.window in
    let unused = ap (λ (w : Row). w.restored) (sym one') ∙ c'.unused in
    spent-later row.document_id row.window_generation (run_calls calls s').windows row' spent
      (ap (λ (d : String). lookup d (run_calls calls s').windows) (sym same) ∙ here) unused
