-- ===== src/Intents.antt =====
-- The local intents of daemon/internal/syncer/local_namespace_intents.go: files that the daemon saw
-- first and announces to the server. The table is keyed by id, with the constraints that
-- document_cache.go declares. Times are nanoseconds, 0 is the zero time; ids and the clock are taken
-- from outside. Errors of the database are left out, but for the constraints.
use Prim.Native.String.{String}
use codesk.Common.{
  ℕ, suc, Bool, true, false, not, ◌&&◌, ◌||◌, Option, none, some, List, [], ◌∷◌, String_key, ◌==◌,
  if◌then◌else◌, ltb, eqb, is_none,
}
use mathlib.Core.List.{map}
use codesk.Common.Dict.{Dict, lookup, insert, contains}
use codesk.Common.Text.{str_lt}
use codesk.Common.Sorting.{sort}
pub mod Pending
pub mod Announced
mod Tests

abbrev pub local_namespace_intent_kind_create : String
local_namespace_intent_kind_create = "local_create"

abbrev pub local_namespace_intent_pending : String
local_namespace_intent_pending = "pending"

abbrev pub local_namespace_intent_resolved : String
local_namespace_intent_resolved = "resolved"

abbrev pub local_namespace_intent_failed : String
local_namespace_intent_failed = "failed"

pub record LocalNamespaceIntent : Type 0 where
  pub id : String
  pub workspace_relative_path : String
  pub kind : String
  pub status : String
  pub document_id : String
  pub client_operation_id : String
  pub observed_file_identity : String
  pub observed_content_hash : String
  pub observed_mtime : ℕ
  pub actor_id : String
  pub actor_type : String
  pub created_at : ℕ
  pub updated_at : ℕ

pub record LocalNamespaceClaim : Type 0 where
  pub path : String
  pub document_id : String
  pub client_operation_id : String
  pub kind : String
  pub status : String

abbrev pub IntentTable : Type 0
IntentTable = Dict String LocalNamespaceIntent

-- `id` and `document_id` are the two UUIDs, the first with its prefix.
unfoldable pub new_local_create_intent :
    String → String → String → String → String → String → ℕ → LocalNamespaceIntent
new_local_create_intent id document_id relative_path actor_id actor_type observed_hash
      observed_mtime =
    record {
      id = id;
      workspace_relative_path = relative_path;
      kind = local_namespace_intent_kind_create;
      status = local_namespace_intent_pending;
      document_id = document_id;
      client_operation_id = id;
      observed_file_identity = "";
      observed_content_hash = observed_hash;
      observed_mtime = observed_mtime;
      actor_id = actor_id;
      actor_type = actor_type;
      created_at = 0;
      updated_at = 0;
    }

unfoldable pub with_intent_defaults : ℕ → LocalNamespaceIntent → LocalNamespaceIntent
with_intent_defaults now intent = record intent {
  kind = if intent.kind == "" then local_namespace_intent_kind_create else intent.kind;
  status = if intent.status == "" then local_namespace_intent_pending else intent.status;
  created_at = if eqb intent.created_at 0 then now else intent.created_at;
  updated_at = now;
}

-- check (status in ('pending', 'resolved', 'failed'))
unfoldable pub is_intent_status : String → Bool
is_intent_status s =
    (s == local_namespace_intent_pending)
    || (s == local_namespace_intent_resolved)
    || (s == local_namespace_intent_failed)

-- `select count(*) … where status = ? and workspace_relative_path = ?`
unfoldable pub is_pending_at : String → LocalNamespaceIntent → Bool
is_pending_at path row =
    (row.status == local_namespace_intent_pending) && (row.workspace_relative_path == path)

unfoldable pub pending_at : String → IntentTable → ℕ
pending_at path [] = 0
pending_at path ((id, row) ∷ rest) =
    let others = pending_at path rest in if is_pending_at path row then suc others else others

-- `insert or ignore`, which also passes over a row that a check of the table refuses.
unfoldable pub insert_or_ignore : LocalNamespaceIntent → IntentTable → IntentTable
insert_or_ignore intent rows =
    if not (is_none (lookup intent.id rows))
      || not (intent.kind == local_namespace_intent_kind_create)
      || not (is_intent_status intent.status)
    then rows
    else insert intent.id intent rows

unfoldable pub store_local_namespace_intent : ℕ → LocalNamespaceIntent → IntentTable → IntentTable
store_local_namespace_intent now intent rows =
    if (intent.id == "")
      || (intent.workspace_relative_path == "")
      || (intent.document_id == "")
      || (intent.client_operation_id == "")
    then rows
    else if ltb 0 (pending_at intent.workspace_relative_path rows)
    then rows
    else insert_or_ignore (with_intent_defaults now intent) rows

pub data UpdateResult : Type 0 where
  updated no_rows check_failed : UpdateResult

-- `update … set status = ?, updated_at = ? where id = ?`, on the row under the id.
abbrev pub update_row :
    String → String → ℕ → IntentTable → Option LocalNamespaceIntent → UpdateResult × IntentTable
update_row id status now rows none = (no_rows, rows)
update_row id status now rows (some row) =
    if is_intent_status status
    then (updated, insert id (record row { status = status; updated_at = now }) rows)
    else (check_failed, rows)

unfoldable pub update_local_namespace_intent_status :
    String → String → ℕ → IntentTable → UpdateResult × IntentTable
update_local_namespace_intent_status id status now rows =
    if (id == "") || (status == "")
    then (updated, rows)
    else update_row id status now rows (lookup id rows)

unfoldable pub rows_with_status : List String → IntentTable → List LocalNamespaceIntent
rows_with_status statuses [] = []
rows_with_status statuses ((id, row) ∷ rest) =
    let others = rows_with_status statuses rest in
    if contains row.status statuses then row ∷ others else others

-- `order by created_at, id`
unfoldable pub less_row : LocalNamespaceIntent → LocalNamespaceIntent → Bool
less_row a b =
    if eqb a.created_at b.created_at then str_lt a.id b.id else ltb a.created_at b.created_at

unfoldable pub without_empty : List String → List String
without_empty [] = []
without_empty (s ∷ ss) = let rest = without_empty ss in if s == "" then rest else s ∷ rest

unfoldable pub load_local_namespace_intents_by_status :
    List String → IntentTable → List LocalNamespaceIntent
load_local_namespace_intents_by_status statuses rows =
    sort less_row (rows_with_status (without_empty statuses) rows)

unfoldable pub load_pending_local_namespace_intents : IntentTable → List LocalNamespaceIntent
load_pending_local_namespace_intents rows =
    load_local_namespace_intents_by_status (local_namespace_intent_pending ∷ []) rows

abbrev pub claim_of : LocalNamespaceIntent → LocalNamespaceClaim
claim_of intent = record {
  path = intent.workspace_relative_path;
  document_id = intent.document_id;
  client_operation_id = intent.client_operation_id;
  kind = intent.kind;
  status = intent.status;
}

unfoldable pub load_local_namespace_projection_claims : IntentTable → List LocalNamespaceClaim
load_local_namespace_projection_claims rows =
    map (λ (i : LocalNamespaceIntent). claim_of i)
      (load_local_namespace_intents_by_status
        (local_namespace_intent_pending ∷ local_namespace_intent_resolved ∷ []) rows)
