-- ===== src/Inbox/Documents.antt =====
-- Views of documents, and the cards that tell agents of edits: `MarkDocumentViewed` and
-- `enqueueDocumentInboxEventsLocked` of backend/internal/notty/store.go with their statements in
-- store_postgres.go. What the texts of a card say is taken from outside.
use Prim.Native.String.{String, ◌++◌ as str_append}
use codesk.Common.{
  ℕ, ◌+◌, Bool, not, ◌&&◌, ◌||◌, Option, none, some, List, [], ◌∷◌, ◌==◌, String_key, if◌then◌else◌,
  eqb, leb, ltb,
}
use codesk.Common.Dict.{Dict, lookup}
use codesk.Common.Text.{has_text_prefix}
use codesk.Inbox.{
  EventUpdate, not_found, duplicate_key, event_updated, UpdateAgentEventRequest, update_agent_event,
  AgentEvent, EventTable, document_quiescence_window, is_done, update_where,
  upsert_document_inbox_event,
}

-- A card of the document that an agent has not dealt with, up to an update.
unfoldable pub is_card_until : String → String → ℕ → AgentEvent → Bool
is_card_until agent document update e =
    (e.agent_id == agent)
    && (e.document_id == document)
    && has_text_prefix e.event_type "document."
    && not (is_done e)
    && leb e.to_update_id update

abbrev pub completed : ℕ → AgentEvent → AgentEvent
completed now e = record e { status = "completed"; completed_at = some now; updated_at = now }

unfoldable pub complete_document_inbox_events : String → String → ℕ → ℕ → EventTable → EventTable
complete_document_inbox_events agent document update now rows =
    update_where (is_card_until agent document update) (completed now) rows

pub record ViewedDocument : Type 0 where
  pub id : String
  pub hidden : Bool
  pub update_id : ℕ
  pub state_vector : String

pub record AgentDocumentView : Type 0 where
  pub agent_id : String
  pub document_id : String
  pub update_id : ℕ
  pub view_state_vector : String
  pub viewed_at : ℕ

abbrev pub same_view : AgentDocumentView → AgentDocumentView → Bool
same_view v w = (v.agent_id == w.agent_id) && (v.document_id == w.document_id)

-- `upsertAgentDocumentViewPostgres`
unfoldable pub upsert_agent_document_view :
    AgentDocumentView → List AgentDocumentView → List AgentDocumentView
upsert_agent_document_view v [] = v ∷ []
upsert_agent_document_view v (w ∷ ws) =
    if same_view v w then v ∷ ws else w ∷ upsert_agent_document_view v ws

unfoldable pub get_agent_document_view :
    String → String → List AgentDocumentView → Option AgentDocumentView
get_agent_document_view agent document [] = none
get_agent_document_view agent document (v ∷ vs) =
    if (v.agent_id == agent) && (v.document_id == document)
    then some v
    else get_agent_document_view agent document vs

-- The update that a request names; 0, or one beyond the head, is the head.
abbrev pub viewed_update : ViewedDocument → ℕ → ℕ
viewed_update document requested =
    if eqb requested 0 || ltb document.update_id requested then document.update_id else requested

abbrev pub view_of : ViewedDocument → String → ℕ → ℕ → AgentDocumentView
view_of document agent requested now = record {
  agent_id = agent;
  document_id = document.id;
  update_id = viewed_update document requested;
  view_state_vector =
      if eqb (viewed_update document requested) document.update_id
      then document.state_vector
      else "";
  viewed_at = now;
}

-- `MarkDocumentViewed` of a document that there is, by an agent.
unfoldable pub mark_document_viewed :
    ViewedDocument
    → String
    → ℕ
    → ℕ
    → List AgentDocumentView × EventTable
    → List AgentDocumentView × EventTable
mark_document_viewed document agent requested now (views, rows) = (
  upsert_agent_document_view (view_of document agent requested now) views,
  complete_document_inbox_events agent document.id (viewed_update document requested) now rows,
)

-- `shouldMarkDocumentViewedForEvent`
unfoldable pub should_mark_document_viewed_for_event : AgentEvent → Bool
should_mark_document_viewed_for_event e =
    not (e.agent_id == "")
    && not (e.document_id == "")
    && has_text_prefix e.event_type "document."
    && is_done e

pub data StoreUpdate : Type 0 where
  event_not_updated document_not_found : StoreUpdate
  store_updated : AgentEvent → StoreUpdate

-- The views and the events.
abbrev pub Tables : Type 0
Tables = List AgentDocumentView × EventTable

abbrev pub view_event : ℕ → AgentEvent → Option ViewedDocument → Tables → StoreUpdate × Tables
view_event now e none tables = (document_not_found, tables)
view_event now e (some document) tables =
    (store_updated e, mark_document_viewed document e.agent_id e.to_update_id now tables)

abbrev pub after_update :
    ℕ
    → Dict String ViewedDocument
    → List AgentDocumentView
    → EventUpdate × EventTable
    → StoreUpdate × Tables
after_update now documents views (not_found, rows) = (event_not_updated, (views, rows))
after_update now documents views (duplicate_key, rows) = (event_not_updated, (views, rows))
after_update now documents views (event_updated e, rows) =
    if should_mark_document_viewed_for_event e
    then view_event now e (lookup e.document_id documents) (views, rows)
    else (store_updated e, (views, rows))

-- `UpdateAgentEvent`: the event, and the view of its document when the event is done.
unfoldable pub update_store_event :
    ℕ
    → String
    → UpdateAgentEventRequest
    → Dict String ViewedDocument
    → Tables
    → StoreUpdate × Tables
update_store_event now id req documents (views, rows) =
    after_update now documents views (update_agent_event now id req rows)

-- `shouldNotifyAgentPostgres`, with the actor that caused the event.
unfoldable pub should_notify_agent : String → String → Bool
should_notify_agent origin agent = (origin == "") || not (origin == agent)

abbrev pub seen_update : Option AgentDocumentView → ℕ
seen_update none = 0
seen_update (some v) = v.update_id

-- What an edit is told with; the texts are taken from outside.
pub record EditCard : Type 0 where
  pub new_id : String → String
  pub summary_text : ℕ → String
  pub prompt_text : ℕ → String
  pub edited_at : ℕ

-- "document-updated:%s:%s:%s" of the box, the document and the agent
unfoldable pub edit_key : String → String → String
edit_key document agent =
    str_append "document-updated:general:" (str_append document (str_append ":" agent))

abbrev pub edit_event : EditCard → ViewedDocument → String → String → ℕ → AgentEvent
edit_event card document agent handle seen = record {
  id = card.new_id agent;
  agent_id = agent;
  agent_handle = handle;
  event_type = "document.updated";
  box = "general";
  status = "pending";
  document_id = document.id;
  thread_id = "";
  thread_message_id = "";
  from_update_id = seen;
  to_update_id = document.update_id;
  summary = card.summary_text seen;
  prompt = card.prompt_text seen;
  dedup_key = edit_key document.id agent;
  claimed_by = "";
  run_id = "";
  last_error = "";
  attempt_count = 0;
  available_at = card.edited_at + document_quiescence_window;
  claimed_at = none;
  completed_at = none;
  created_at = card.edited_at;
  updated_at = card.edited_at;
}

abbrev pub enqueue_for :
    EditCard
    → ViewedDocument
    → String
    → List AgentDocumentView
    → String
    → Option String
    → EventTable
    → EventTable
enqueue_for card document origin views agent none rows = rows
enqueue_for card document origin views agent (some handle) rows =
    let seen = seen_update (get_agent_document_view agent document.id views) in
    if not (should_notify_agent origin agent) || leb document.update_id seen
    then rows
    else upsert_document_inbox_event (edit_event card document agent handle seen) rows

unfoldable pub enqueue_all :
    EditCard
    → ViewedDocument
    → String
    → List AgentDocumentView
    → Dict String String
    → List String
    → EventTable
    → EventTable
enqueue_all card document origin views handles [] rows = rows
enqueue_all card document origin views handles (agent ∷ agents) rows =
    enqueue_all card document origin views handles agents
      (enqueue_for card document origin views agent (lookup agent handles) rows)

-- `enqueueDocumentInboxEventsLocked`
unfoldable pub enqueue_document_inbox_events :
    EditCard
    → ViewedDocument
    → String
    → List AgentDocumentView
    → Dict String String
    → List String
    → EventTable
    → EventTable
enqueue_document_inbox_events card document origin views handles subscribers rows =
    if document.hidden || leb document.update_id 1
    then rows
    else enqueue_all card document origin views handles subscribers rows
