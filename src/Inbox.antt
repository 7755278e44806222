-- ===== src/Inbox.antt =====
-- The inbox of the agents: the statements on the table `agent_events` of one workspace in
-- backend/internal/notty/store_postgres.go, and the operations of store.go that are made of them. A
-- statement is one step. Times are nanoseconds, a claim that was never made is `none`, and ids are
-- UUIDs, where the empty text stands for a null. New ids are taken from outside, and the box of an
-- event is one that `normalizeInboxBox` gives.
use Prim.Native.String.{String}
use codesk.Common.{
  ℕ, zero, suc, ◌+◌, ◌*◌, Bool, true, false, not, ◌&&◌, ◌||◌, Option, none, some, List, [], ◌∷◌,
  ◌++◌, ◌==◌, String_key, if◌then◌else◌, eqb, leb, ltb, is_none,
}
use Prim.Native.Nat.{min, max}
use codesk.Common.Dict.{Dict, lookup}
use codesk.Common.Text.{trim_space, has_text_prefix}
pub mod Documents
pub mod Steps
pub mod Held
pub mod Leases
pub mod Cards
pub mod Claims
pub mod Rows
pub mod Active
pub mod Unique
pub mod Edits
mod Tests

pub record AgentEvent : Type 0 where
  pub id : String
  pub agent_id : String
  pub agent_handle : String
  pub event_type : String
  pub box : String
  pub status : String
  pub document_id : String
  pub thread_id : String
  pub thread_message_id : String
  pub from_update_id : ℕ
  pub to_update_id : ℕ
  pub summary : String
  pub prompt : String
  pub dedup_key : String
  pub claimed_by : String
  pub run_id : String
  pub last_error : String
  pub attempt_count : ℕ
  pub available_at : ℕ
  pub claimed_at : Option ℕ
  pub completed_at : Option ℕ
  pub created_at : ℕ
  pub updated_at : ℕ

abbrev pub EventTable : Type 0
EventTable = List AgentEvent

abbrev pub event_second : ℕ
event_second = 1000000000

-- documentQuiescenceWindow
abbrev pub document_quiescence_window : ℕ
document_quiescence_window = 60 * event_second

-- status IN ('completed', 'dismissed')
unfoldable pub is_done : AgentEvent → Bool
is_done e = (e.status == "completed") || (e.status == "dismissed")

-- A row that the unique index has, under its key.
unfoldable pub is_active_as : String → AgentEvent → Bool
is_active_as key e = not (is_done e) && (e.dedup_key == key)

unfoldable pub has_active : String → EventTable → Bool
has_active key [] = false
has_active key (e ∷ es) = is_active_as key e || has_active key es

-- `UPDATE … SET … WHERE …`
unfoldable pub update_where :
    (AgentEvent → Bool) → (AgentEvent → AgentEvent) → EventTable → EventTable
update_where test change [] = []
update_where test change (e ∷ es) = (if test e then change e else e) ∷ update_where test change es

-- A conflict with the unique index.
unfoldable pub conflicts : AgentEvent → EventTable → Bool
conflicts event rows = not (is_done event) && has_active event.dedup_key rows

abbrev pub has_id : String → AgentEvent → Bool
has_id id e = e.id == id

unfoldable pub has_row : String → EventTable → Bool
has_row id [] = false
has_row id (e ∷ es) = has_id id e || has_row id es

-- A new row; the primary key refuses a second one with its id.
unfoldable pub append_event : AgentEvent → EventTable → EventTable
append_event event rows = if has_row event.id rows then rows else rows ++ event ∷ []

-- `insertAgentEventTx`: on a conflict nothing is written.
unfoldable pub insert_agent_event_tx : AgentEvent → EventTable → EventTable
insert_agent_event_tx event rows = if conflicts event rows then rows else append_event event rows

abbrev pub merge_event : AgentEvent → AgentEvent → AgentEvent
merge_event new old = record old {
  agent_handle = new.agent_handle;
  thread_id = new.thread_id;
  from_update_id = min new.from_update_id old.from_update_id;
  to_update_id = max new.to_update_id old.to_update_id;
  summary = new.summary;
  prompt = new.prompt;
  available_at = new.available_at;
  updated_at = new.updated_at;
}

-- `upsertDocumentInboxEventPostgres`: on a conflict the active row takes the event in.
unfoldable pub upsert_document_inbox_event : AgentEvent → EventTable → EventTable
upsert_document_inbox_event event rows =
    if conflicts event rows
    then update_where (is_active_as event.dedup_key) (merge_event event) rows
    else append_event event rows

-- NOT (status = 'processing' AND claimed_at > now - 30s), where a null is not true.
abbrev pub claim_is_over : ℕ → Option ℕ → Bool
claim_is_over now none = false
claim_is_over now (some at) = leb (at + 30 * event_second) now

unfoldable pub is_claimable : ℕ → String → AgentEvent → Bool
is_claimable now agent e =
    (e.agent_id == agent)
    && leb e.available_at now
    && not (is_done e)
    && (not (e.status == "processing") || claim_is_over now e.claimed_at)

-- ORDER BY created_at ASC LIMIT 1
abbrev pub earlier : AgentEvent → Option AgentEvent → AgentEvent
earlier e none = e
earlier e (some f) = if leb e.created_at f.created_at then e else f

unfoldable pub next_event : ℕ → String → EventTable → Option AgentEvent
next_event now agent [] = none
next_event now agent (e ∷ es) =
    let rest = next_event now agent es in
    if is_claimable now agent e then some (earlier e rest) else rest

abbrev pub claimed : ℕ → String → String → AgentEvent → AgentEvent
claimed now handle claimed_by e = record e {
  status = "processing";
  agent_handle = handle;
  claimed_by = claimed_by;
  claimed_at = some now;
  attempt_count = e.attempt_count + 1;
  updated_at = now;
}

abbrev pub claim_next :
    ℕ → String → String → EventTable → Option AgentEvent → Option (AgentEvent × EventTable)
claim_next now handle claimed_by rows none = none
claim_next now handle claimed_by rows (some e) = some (
  claimed now handle claimed_by e,
  update_where (has_id e.id) (claimed now handle claimed_by) rows,
)

unfoldable pub claim_agent_event :
    ℕ → String → String → String → EventTable → Option (AgentEvent × EventTable)
claim_agent_event now agent handle claimed_by rows =
    claim_next now handle claimed_by rows (next_event now agent rows)

pub record UpdateAgentEventRequest : Type 0 where
  pub status : String
  pub thread_id : String
  pub run_id : String
  pub last_error : String

-- A text of the request, or what the row has.
abbrev pub or_old : String → String → String
or_old new old = if trim_space new == "" then old else trim_space new

abbrev pub with_request : ℕ → UpdateAgentEventRequest → AgentEvent → AgentEvent
with_request now req e = record e {
  status = or_old req.status e.status;
  thread_id = or_old req.thread_id e.thread_id;
  run_id = or_old req.run_id e.run_id;
  last_error = or_old req.last_error e.last_error;
  completed_at = if trim_space req.status == "completed" then some now else e.completed_at;
  available_at =
      if (trim_space req.status == "pending") && ltb e.available_at now
      then now + 5 * event_second
      else e.available_at;
  updated_at = now;
}

unfoldable pub find_event : String → EventTable → Option AgentEvent
find_event id [] = none
find_event id (e ∷ es) = if has_id id e then some e else find_event id es

-- Another active row has the key.
unfoldable pub other_active : String → String → EventTable → Bool
other_active id key [] = false
other_active id key (e ∷ es) = (not (has_id id e) && is_active_as key e) || other_active id key es

pub data EventUpdate : Type 0 where
  not_found duplicate_key : EventUpdate
  event_updated : AgentEvent → EventUpdate

abbrev pub update_found :
    ℕ → UpdateAgentEventRequest → EventTable → Option AgentEvent → EventUpdate × EventTable
update_found now req rows none = (not_found, rows)
update_found now req rows (some e) =
    if not (is_done (with_request now req e)) && other_active e.id e.dedup_key rows
    then (duplicate_key, rows)
    else (
      event_updated (with_request now req e),
      update_where (has_id e.id) (with_request now req) rows,
    )

unfoldable pub update_agent_event :
    ℕ → String → UpdateAgentEventRequest → EventTable → EventUpdate × EventTable
update_agent_event now id req rows = update_found now req rows (find_event id rows)
