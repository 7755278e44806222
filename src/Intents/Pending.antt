-- ===== src/Intents/Pending.antt =====
-- A path has one pending intent at most.
use Prim.Native.String.{String}
use codesk.Common.{
  ℕ, ◌+◌, ◌≤◌, ◌≡◌, refl, ap, Bool, true, false, not, ◌||◌, Option, none, some, List, [], ◌∷◌,
  arith, String_key, ◌==◌, if◌then◌else◌, ltb, is_none, inl, inr, Bool-cases,
}
use codesk.Common.Dict.{lookup, insert}
use codesk.Intents.{
  LocalNamespaceIntent, IntentTable, with_intent_defaults, is_intent_status, is_pending_at,
  pending_at, insert_or_ignore, store_local_namespace_intent, UpdateResult, updated, check_failed,
  update_row, update_local_namespace_intent_status,
}

abbrev pub count_if : Bool → ℕ
count_if true = 1
count_if false = 0

-- A row more, and a row in place of another.
pub pending_at-insert_new :
    (path id : String) (row : LocalNamespaceIntent) (rows : IntentTable)
    → lookup id rows ≡ none
    → pending_at path (insert id row rows)
      ≡ pending_at path rows + count_if (is_pending_at path row)
unfolding pending_at insert lookup
pending_at-insert_new path id row [] h = ground arith
pending_at-insert_new path id row ((k, r) ∷ rest) h =
    let later = pending_at-insert_new path id row rest in
    elim (Bool-cases (k == id)) [
      | inl here ↦ absurd (cc (rw here at h))
      | inr there ↦ rw there (ground (arith, later (rw there at h)))
    ]

pending_at-insert_old :
    (path id : String) (old new : LocalNamespaceIntent) (rows : IntentTable)
    → lookup id rows ≡ some old
    → is_pending_at path new ≡ false
    → pending_at path (insert id new rows) ≤ pending_at path rows
unfolding pending_at insert lookup
pending_at-insert_old path id old new [] h q = absurd (cc h)
pending_at-insert_old path id old new ((k, r) ∷ rest) h q =
    let later = pending_at-insert_old path id old new rest in
    elim (Bool-cases (k == id)) [
      | inl here ↦ rw (here, q) (ground arith)
      | inr there ↦ rw there (ground (arith, later (rw there at h) q))
    ]

pending_path :
    (path : String) (row : LocalNamespaceIntent)
    → is_pending_at path row ≡ true
    → (row.workspace_relative_path == path) ≡ true
unfolding is_pending_at
pending_path path row h = ground (arith, h)

module _ (path : String) where
  -- Storing an intent where none is pending adds one at most; elsewhere it adds none.
  insert_or_ignore-pending :
      (intent : LocalNamespaceIntent) (rows : IntentTable)
      → pending_at intent.workspace_relative_path rows ≡ 0
      → pending_at path rows ≤ 1
      → pending_at path (insert_or_ignore intent rows) ≤ 1
  unfolding insert_or_ignore
  insert_or_ignore-pending intent rows free one =
      elim (Bool-cases (is_none (lookup intent.id rows))) [
        | inr taken ↦ rw taken one
        | inl fresh ↦ rw fresh (
            checked (not (intent.kind == "local_create") || not (is_intent_status intent.status)) (
              pending_at-insert_new path intent.id intent rows
                (is_none-none (lookup intent.id rows) fresh)))
      ]
    where
      is_none-none : (o : Option LocalNamespaceIntent) → is_none o ≡ true → o ≡ none
      is_none-none none h = refl
      is_none-none (some row) h = absurd (cc h)

      at_path : is_pending_at path intent ≡ true → pending_at path rows ≡ 0
      at_path pending =
          let here : intent.workspace_relative_path ≡ path =
            (String_key.same_iff intent.workspace_relative_path path).0
              (pending_path path intent pending) in
          cc (here, free)

      checked :
          (b : Bool)
          → pending_at path (insert intent.id intent rows)
            ≡ pending_at path rows + count_if (is_pending_at path intent)
          → pending_at path (if b then rows else insert intent.id intent rows) ≤ 1
      checked true new = one
      checked false new = elim (Bool-cases (is_pending_at path intent)) [
        | inl pending ↦ omega (arith, new, at_path pending, ap count_if pending)
        | inr other ↦ omega (arith, new, one, ap count_if other)
      ]

  store-pending :
      (now : ℕ) (intent : LocalNamespaceIntent) (rows : IntentTable)
      → pending_at path rows ≤ 1
      → pending_at path (store_local_namespace_intent now intent rows) ≤ 1
  unfolding store_local_namespace_intent
  store-pending now intent rows one =
      elim (Bool-cases (
        (intent.id == "")
        || (intent.workspace_relative_path == "")
        || (intent.document_id == "")
        || (intent.client_operation_id == ""))) [
          | inl blank ↦ rw blank one
          | inr named ↦ elim (Bool-cases (ltb 0 (pending_at intent.workspace_relative_path rows))) [
            | inl there ↦ rw (named, there) one
            | inr free ↦
                let none_pending : pending_at intent.workspace_relative_path rows ≡ 0 =
                  ground (arith, free) in
                let stored =
                  insert_or_ignore-pending (with_intent_defaults now intent) rows
                    (unfold with_intent_defaults in none_pending) one in
                rw (named, free) stored
          ]
        ]

  -- A status other than pending takes a row away at most.
  update-pending :
      (id status : String) (now : ℕ) (rows : IntentTable)
      → (status == "pending") ≡ false
      → pending_at path rows ≤ 1
      → pending_at path (update_local_namespace_intent_status id status now rows).1 ≤ 1
  unfolding update_local_namespace_intent_status
  update-pending id status now rows final one = elim (Bool-cases ((id == "") || (status == ""))) [
    | inl blank ↦ rw blank one
    | inr named ↦ rw named (at_row (lookup id rows) refl)
  ]
    where
      at_row :
          (o : Option LocalNamespaceIntent)
          → lookup id rows ≡ o
          → pending_at path (update_row id status now rows o).1 ≤ 1
      at_row none h = one
      at_row (some row) h =
          let new : LocalNamespaceIntent = record row { status = status; updated_at = now } in
          let less =
            pending_at-insert_old path id row new rows h
              (unfold is_pending_at in ground (arith, final)) in
          by_check (is_intent_status status) (omega (arith, less, one))
        where
          by_check :
              (b : Bool)
              → pending_at path (insert id (record row { status = status; updated_at = now }) rows)
                ≤ 1
              → pending_at path
                  (if◌then◌else◌ {A = UpdateResult × IntentTable} b
                    (updated, insert id (record row { status = status; updated_at = now }) rows)
                    (check_failed, rows)).1
                ≤ 1
          by_check true h = h
          by_check false h = one

-- What the daemon does with its intents: it announces a file, and marks an intent as resolved or failed.
pub data Operation : Type 0 where
  announce : ℕ → LocalNamespaceIntent → Operation
  resolve fail : String → ℕ → Operation

unfoldable pub after : Operation → IntentTable → IntentTable
after (announce now intent) rows = store_local_namespace_intent now intent rows
after (resolve id now) rows = (update_local_namespace_intent_status id "resolved" now rows).1
after (fail id now) rows = (update_local_namespace_intent_status id "failed" now rows).1

unfoldable pub run : List Operation → IntentTable → IntentTable
run [] rows = rows
run (op ∷ ops) rows = run ops (after op rows)

module _ (path : String) where
  after-pending :
      (op : Operation) (rows : IntentTable)
      → pending_at path rows ≤ 1
      → pending_at path (after op rows) ≤ 1
  unfolding after
  after-pending (announce now intent) rows one = store-pending path now intent rows one
  after-pending (resolve id now) rows one = update-pending path id "resolved" now rows refl one
  after-pending (fail id now) rows one = update-pending path id "failed" now rows refl one

  pub run-pending :
      (ops : List Operation) (rows : IntentTable)
      → pending_at path rows ≤ 1
      → pending_at path (run ops rows) ≤ 1
  unfolding run
  run-pending [] rows one = one
  run-pending (op ∷ ops) rows one = run-pending ops (after op rows) (after-pending op rows one)
