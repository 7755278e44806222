-- ===== src/Intents/Announced.antt =====
-- A file that is announced has one pending intent.
use Prim.Native.String.{String}
use codesk.Common.{
  ℕ, ◌≤◌, ◌≡◌, refl, ap, Bool, true, false, none, List, [], arith, String_key, ◌==◌, if◌then◌else◌,
  ltb, inl, inr, Bool-cases, same_refl,
}
use codesk.Common.Dict.{lookup, insert}
use codesk.Intents.{
  LocalNamespaceIntent, IntentTable, new_local_create_intent, with_intent_defaults,
  is_intent_status, is_pending_at, pending_at, insert_or_ignore, store_local_namespace_intent,
}
use codesk.Intents.Pending.{pending_at-insert_new, count_if, Operation, run, run-pending}

module _ (now : ℕ) (id document_id path actor_id actor_type hash : String) (mtime : ℕ)
    (rows : IntentTable) (has_id : (id == "") ≡ false) (has_document : (document_id == "") ≡ false)
    (has_path : (path == "") ≡ false) (fresh : lookup id rows ≡ none) where
  intent : LocalNamespaceIntent
  intent = new_local_create_intent id document_id path actor_id actor_type hash mtime

  stored : LocalNamespaceIntent
  stored = with_intent_defaults now intent

  inserted : insert_or_ignore stored rows ≡ insert id stored rows
  unfolding insert_or_ignore stored intent with_intent_defaults new_local_create_intent
      is_intent_status
  inserted = rw fresh refl

  stored_pending : is_pending_at path stored ≡ true
  unfolding is_pending_at stored intent with_intent_defaults new_local_create_intent
  stored_pending = same_refl path

  -- By whether one is pending already.
  store_by :
      (b : Bool)
      → ltb 0 (pending_at path rows) ≡ b
      → store_local_namespace_intent now intent rows ≡ (if b then rows else insert id stored rows)
  unfolding store_local_namespace_intent intent new_local_create_intent with_intent_defaults stored
  store_by true q = rw (has_id, has_path, has_document, q) refl
  store_by false q = rw (has_id, has_path, has_document, q) inserted

  store-announced :
      pending_at path rows ≤ 1 → pending_at path (store_local_namespace_intent now intent rows) ≡ 1
  store-announced one = elim (Bool-cases (ltb 0 (pending_at path rows))) [
    | inl there ↦ rw (store_by true there) (ground (arith, there, one))
    | inr free ↦
        let new = pending_at-insert_new path id stored rows fresh in
        rw (store_by false free) (omega (arith, new, ap count_if stored_pending, ground_zero free))
  ]
    where
      ground_zero : ltb 0 (pending_at path rows) ≡ false → pending_at path rows ≡ 0
      ground_zero h = ground (arith, h)

-- After any sequence of announcements and of intents marked as resolved or failed, no path has more
-- than one pending intent; and when a file is then announced, under an id that the table does not have,
-- and its id, path and document are not empty, its path has exactly one.
pub announce-pending :
    (ops : List Operation) (now : ℕ) (id document_id path other actor_id actor_type hash : String)
    (mtime : ℕ)
    → (id == "") ≡ false
    → (document_id == "") ≡ false
    → (path == "") ≡ false
    → lookup id (run ops []) ≡ none
    → (pending_at other (run ops []) ≤ 1)
      × (pending_at path (
            store_local_namespace_intent now
              (new_local_create_intent id document_id path actor_id actor_type hash mtime)
              (run ops []))
          ≡ 1)
announce-pending ops now id document_id path other actor_id actor_type hash mtime has_id
      has_document has_path fresh =
    (
      run-pending other ops [] (unfold pending_at in omega arith),
      unfold intent in
          store-announced now id document_id path actor_id actor_type hash mtime (run ops []) has_id
            has_document has_path fresh
            (run-pending path ops [] (unfold pending_at in omega arith)),
    )
