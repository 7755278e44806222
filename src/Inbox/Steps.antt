-- ===== src/Inbox/Steps.antt =====
-- The statements on the table of events, one after another.
use Prim.Native.String.{String}
use codesk.Common.{ℕ, Option, none, some, List, [], ◌∷◌}
use codesk.Inbox.{
  AgentEvent, EventTable, UpdateAgentEventRequest, insert_agent_event_tx,
  upsert_document_inbox_event, claim_agent_event, update_agent_event,
}
use codesk.Inbox.Documents.{complete_document_inbox_events}

pub data Operation : Type 0 where
  inserted : AgentEvent → Operation
  upserted : AgentEvent → Operation
  claim : ℕ → String → String → String → Operation
  update : ℕ → String → UpdateAgentEventRequest → Operation
  viewed : String → String → ℕ → ℕ → Operation

abbrev pub table_after : EventTable → Option (AgentEvent × EventTable) → EventTable
table_after rows none = rows
table_after rows (some (e, rows')) = rows'

unfoldable pub after : Operation → EventTable → EventTable
after (inserted event) rows = insert_agent_event_tx event rows
after (upserted event) rows = upsert_document_inbox_event event rows
after (claim now agent handle claimed_by) rows =
    table_after rows (claim_agent_event now agent handle claimed_by rows)
after (update now id req) rows = (update_agent_event now id req rows).1
after (viewed agent document until now) rows =
    complete_document_inbox_events agent document until now rows

unfoldable pub run : List Operation → EventTable → EventTable
run [] rows = rows
run (o ∷ os) rows = run os (after o rows)
