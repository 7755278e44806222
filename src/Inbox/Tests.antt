-- ===== src/Inbox/Tests.antt =====
-- Inboxes of a few events.
use Prim.Native.String.{String}
use codesk.Common.{
  ℕ, ◌≤◌, ◌≡◌, refl, true, false, none, some, List, [], ◌∷◌, ◌==◌, String_key, arith,
}
use codesk.Common.Dict.{Dict, lookup}
use codesk.Common.Text.{is_space, trim_left, trim_right, trim_space, has_text_prefix}
use codesk.Inbox.{
  upsert_document_inbox_event, AgentEvent, EventTable, is_done, is_active_as, has_active,
  update_where, conflicts, has_row, append_event, insert_agent_event_tx, is_claimable, next_event,
  claimed, claim_agent_event, UpdateAgentEventRequest, find_event, other_active, update_agent_event,
  duplicate_key,
}
use codesk.Inbox.Documents.{
  update_store_event, should_mark_document_viewed_for_event, is_card_until,
  complete_document_inbox_events, ViewedDocument, upsert_agent_document_view,
  get_agent_document_view, mark_document_viewed, should_notify_agent, EditCard, edit_key,
  enqueue_all, enqueue_document_inbox_events,
}
use codesk.Inbox.Steps.{Operation, inserted, upserted, claim, after, run}
use codesk.Inbox.Leases.{claim_agent_event-lease}
use codesk.Inbox.Cards.{find_card, IsCard}
use codesk.Inbox.Edits.{enqueue_document_inbox_events-IsCard}
use codesk.Inbox.Active.{active_count}
use codesk.Inbox.Unique.{run-active_count}

abbrev event : String → String → ℕ → AgentEvent
event id key created = record {
  id = id;
  agent_id = "a";
  agent_handle = "ann";
  event_type = "document.updated";
  box = "general";
  status = "pending";
  document_id = "d";
  thread_id = "";
  thread_message_id = "";
  from_update_id = 1;
  to_update_id = 4;
  summary = "s";
  prompt = "p";
  dedup_key = key;
  claimed_by = "";
  run_id = "";
  last_error = "";
  attempt_count = 0;
  available_at = created;
  claimed_at = none;
  completed_at = none;
  created_at = created;
  updated_at = created;
}

abbrev two_events : EventTable
two_events = event "e1" "k1" 10 ∷ event "e2" "k2" 20 ∷ []

abbrev first_claimed : AgentEvent
first_claimed = claimed 30 "ann" "a" (event "e1" "k1" 10)

abbrev second_claimed : AgentEvent
second_claimed = claimed 50 "ann" "a" (event "e2" "k2" 20)

abbrev after_first : EventTable
after_first = first_claimed ∷ event "e2" "k2" 20 ∷ []

abbrev after_second : EventTable
after_second = first_claimed ∷ second_claimed ∷ event "e3" "k3" 60 ∷ []

-- Another event comes in between.
abbrev between : List Operation
between = inserted (event "e3" "k3" 60) ∷ []

first_claim : claim_agent_event 30 "a" "ann" "a" two_events ≡ some (first_claimed, after_first)
unfolding claim_agent_event next_event is_claimable is_done update_where
first_claim = refl

second_claim :
    claim_agent_event 50 "a" "ann" "a" (run between after_first)
    ≡ some (second_claimed, after_second)
unfolding claim_agent_event next_event is_claimable is_done update_where run after
    insert_agent_event_tx conflicts has_active is_active_as append_event has_row
second_claim = refl

-- A completed event cannot become pending beside an active one with its key.
abbrev reopened : UpdateAgentEventRequest
reopened = record { status = " pending "; thread_id = ""; run_id = ""; last_error = "" }

abbrev replaced : EventTable
replaced = record (event "e1" "k" 10) { status = "completed" } ∷ event "e2" "k" 20 ∷ []

reopen_refused : update_agent_event 70 "e1" reopened replaced ≡ (duplicate_key, replaced)
unfolding update_agent_event find_event other_active is_active_as is_done is_space trim_left
    trim_right trim_space
reopen_refused = refl

abbrev document : ViewedDocument
document = record { id = "d"; hidden = false; update_id = 7; state_vector = "v" }

abbrev edit : EditCard
edit = record {
  new_id = λ (agent : String). "e9";
  summary_text = λ (since : ℕ). "s";
  prompt_text = λ (since : ℕ). "p";
  edited_at = 90;
}

abbrev handles : Dict String String
handles = ("a", "ann") ∷ []

-- A request for an update that there is not marks the head as viewed, and completes the cards.
viewed_head : mark_document_viewed document "a" 9 95 ([], event "e1" "k1" 10 ∷ []) ≡ (
  record {
    agent_id = "a";
    document_id = "d";
    update_id = 7;
    view_state_vector = "v";
    viewed_at = 95;
  }
      ∷ [],
  record (event "e1" "k1" 10) { status = "completed"; completed_at = some 95; updated_at = 95 }
      ∷ [],
)
unfolding mark_document_viewed upsert_agent_document_view complete_document_inbox_events
    update_where is_card_until is_done has_text_prefix
viewed_head = refl

claim_agent_event-lease_example : ◌==◌ {K = String} "e2" "e1" ≡ false
claim_agent_event-lease_example =
    claim_agent_event-lease 30 50 "a" "ann" "a" "a" "ann" "a" two_events after_first after_second
      first_claimed second_claimed between first_claim (refl, tt) (omega arith) second_claim

has_handle : lookup "a" handles ≡ some "ann"
unfolding lookup
has_handle = refl

is_notified : should_notify_agent "b" "a" ≡ true
unfolding should_notify_agent
is_notified = refl

new_row : has_row "e9" (enqueue_all edit document "b" [] handles [] two_events) ≡ false
unfolding has_row enqueue_all
new_row = refl

the_key : edit_key "d" "a" ≡ "document-updated:general:d:a"
unfolding edit_key
the_key = refl

no_card :
    find_card (edit_key "d" "a") (enqueue_all edit document "b" [] handles [] two_events) ≡ none
unfolding find_card enqueue_all is_active_as is_done edit_key
no_card = refl

enqueue_document_inbox_events-IsCard_example :
    let rows' = enqueue_document_inbox_events edit document "b" [] handles ("a" ∷ []) two_events in
    (e : AgentEvent) × (find_card (edit_key "d" "a") rows' ≡ some e)
    × IsCard 0 7 60_000_000_090 60_000_000_100 "a" e
    × (is_claimable 60_000_000_100 "a" e ≡ true)
    × (answer : AgentEvent × EventTable) × (claim_agent_event 60_000_000_100 "a" "ann" "a" rows'
        ≡ some answer)
unfolding get_agent_document_view
enqueue_document_inbox_events-IsCard_example =
    enqueue_document_inbox_events-IsCard edit document "b" [] handles [] [] "a" "ann" "a"
      60_000_000_100 two_events refl (omega arith) has_handle is_notified (omega arith)
      (omega arith) (λ old h. absurd (cc (h, no_card))) new_row

run-active_count_example :
    active_count "k1" (
      run
        (inserted (event "e1" "k1" 10)
          ∷ claim 30 "a" "ann" "a"
          ∷ upserted (event "e4" "k1" 40)
          ∷ [])
        [])
    ≤ 1
run-active_count_example =
    run-active_count
      (inserted (event "e1" "k1" 10) ∷ claim 30 "a" "ann" "a" ∷ upserted (event "e4" "k1" 40) ∷ [])
      "k1"

-- An edit that comes while its agent works on the card: the claimed row takes the edit in, and when
-- the agent completes the row, the edit counts as dealt with.
abbrev newer : AgentEvent
newer = record (event "e9" "k1" 40) { to_update_id = 9; available_at = 100 }

abbrev done : UpdateAgentEventRequest
done = record { status = "completed"; thread_id = ""; run_id = ""; last_error = "" }

abbrev newer_head : ViewedDocument
newer_head = record { id = "d"; hidden = false; update_id = 9; state_vector = "w" }

merged_while_claimed :
    (update_store_event 50 "e1" done
      (("d", newer_head) ∷ [])
      ([], run (upserted newer ∷ []) (first_claimed ∷ []))).1.0
    ≡ record {
      agent_id = "a";
      document_id = "d";
      update_id = 9;
      view_state_vector = "w";
      viewed_at = 50;
    }
      ∷ []
unfolding run after upsert_document_inbox_event conflicts has_active is_active_as is_done
    update_where update_agent_event find_event other_active is_space trim_left trim_right trim_space
    update_store_event should_mark_document_viewed_for_event has_text_prefix lookup
    mark_document_viewed upsert_agent_document_view
merged_while_claimed = refl
