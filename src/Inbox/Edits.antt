-- ===== src/Inbox/Edits.antt =====
-- Each subscriber of an edited document has a card after the edit.
use Prim.Native.String.{String}
use codesk.Common.{
  ℕ, ◌+◌, ◌≤◌, ◌<◌, ◌≡◌, refl, true, false, not, ◌||◌, Option, none, some, List, [], ◌∷◌, ◌++◌,
  String_key, arith, leb, inl, inr, Bool-cases,
}
use codesk.Common.Dict.{Dict, lookup}
use codesk.Inbox.{
  AgentEvent, EventTable, document_quiescence_window, is_done, has_row, is_claimable,
  claim_agent_event,
}
use codesk.Inbox.Documents.{
  ViewedDocument, AgentDocumentView, get_agent_document_view, should_notify_agent, seen_update,
  EditCard, edit_event, edit_key, enqueue_for, enqueue_all, enqueue_document_inbox_events,
}
use codesk.Inbox.Cards.{
  find_card, IsLeftAlone, unclaimed, IsCard, HasCard, upsert-HasCard, own-HasCard,
}
use codesk.Inbox.Claims.{
  IsCard-is_claimable, find_card-is_active_as, find_card-next_event, next_event-claim,
}

module _ (card : EditCard) (document : ViewedDocument) (origin : String)
    (views : List AgentDocumentView) (handles : Dict String String) where
  -- When the cards of the edit can be claimed.
  abbrev pub quiet_until : ℕ
  quiet_until = card.edited_at + document_quiescence_window

  -- What an agent has seen of the document.
  abbrev pub seen_by : String → ℕ
  seen_by agent = seen_update (get_agent_document_view agent document.id views)

  enqueue_for-HasCard :
      (since until now : ℕ) (who key agent : String) (o : Option String) (rows : EventTable)
      → HasCard since until quiet_until now who key rows
      → HasCard since until quiet_until now who key
          (enqueue_for card document origin views agent o rows)
  enqueue_for-HasCard since until now who key agent none rows h = h
  enqueue_for-HasCard since until now who key agent (some handle) rows h =
      elim (Bool-cases
        (not (should_notify_agent origin agent) || leb document.update_id (seen_by agent))) [
          | inl e ↦ rw e h
          | inr e ↦ rw e (
              upsert-HasCard since until quiet_until now who
                (edit_event card document agent handle (seen_by agent)) key rows refl h)
        ]

  enqueue_all-HasCard :
      (since until now : ℕ) (who key : String) (agents : List String) (rows : EventTable)
      → HasCard since until quiet_until now who key rows
      → HasCard since until quiet_until now who key
          (enqueue_all card document origin views handles agents rows)
  unfolding enqueue_all
  enqueue_all-HasCard since until now who key [] rows h = h
  enqueue_all-HasCard since until now who key (agent ∷ agents) rows h =
      enqueue_all-HasCard since until now who key agents
        (enqueue_for card document origin views agent (lookup agent handles) rows)
        (enqueue_for-HasCard since until now who key agent (lookup agent handles) rows h)

  enqueue_all-append :
      (front rest : List String) (rows : EventTable)
      → enqueue_all card document origin views handles (front ++ rest) rows
        ≡ enqueue_all card document origin views handles rest
            (enqueue_all card document origin views handles front rows)
  unfolding enqueue_all
  enqueue_all-append [] rest rows = refl
  enqueue_all-append (agent ∷ front) rest rows =
      enqueue_all-append front rest
        (enqueue_for card document origin views agent (lookup agent handles) rows)

  told-HasCard :
      (now : ℕ) (agent handle : String) (rows : EventTable)
      → lookup agent handles ≡ some handle
      → should_notify_agent origin agent ≡ true
      → seen_by agent < document.update_id
      → ((old : AgentEvent)
          → find_card (edit_key document.id agent) rows ≡ some old
          → (old.agent_id ≡ agent) × IsLeftAlone now old)
      → has_row (card.new_id agent) rows ≡ false
      → HasCard
          (seen_by agent)
          document.update_id
          quiet_until
          now
          agent
          (edit_key document.id agent)
          (enqueue_for card document origin views agent (lookup agent handles) rows)
  told-HasCard now agent handle rows known notified behind free fresh =
      let behind' : leb document.update_id (seen_by agent) ≡ false = ground (arith, behind) in
      rw (known, notified, behind')
        (own-HasCard (seen_by agent) document.update_id quiet_until now agent
          (edit_event card document agent handle (seen_by agent)) rows refl (omega arith)
          (omega arith) refl (unclaimed (λ e. cc e)) free (unfold is_done in refl) fresh)

-- After an edit of a visible document that has more than one update, take a subscriber that is
-- known, is not the origin of the edit and has not seen its update. Let the id for its card not be
-- in the table at its turn, and let the active event that its key has by then, if there is one, be
-- its own, and at the time `now` not be in processing or have been claimed 30 seconds before or
-- earlier. Then it has an active card under its key: the card is for it, covers the updates from
-- what it has seen to the head of the document, and is available from 60 seconds after the edit on.
-- At the time `now`, which is not before that, the card can be claimed by it, and its claim is
-- answered with an event.
pub enqueue_document_inbox_events-IsCard :
    (card : EditCard) (document : ViewedDocument) (origin : String) (views : List AgentDocumentView)
    (handles : Dict String String) (front rest : List String) (agent handle claimed_by : String)
    (now : ℕ) (rows : EventTable)
    → document.hidden ≡ false
    → 1 < document.update_id
    → lookup agent handles ≡ some handle
    → should_notify_agent origin agent ≡ true
    → seen_update (get_agent_document_view agent document.id views) < document.update_id
    → card.edited_at + 60_000_000_000 ≤ now
    → ((old : AgentEvent)
        → find_card
            (edit_key document.id agent)
            (enqueue_all card document origin views handles front rows)
          ≡ some old
        → (old.agent_id ≡ agent) × IsLeftAlone now old)
    → has_row (card.new_id agent) (enqueue_all card document origin views handles front rows)
      ≡ false
    → let rows' =
        enqueue_document_inbox_events card document origin views handles
          (front ++ agent ∷ rest)
          rows in
      (e : AgentEvent) × (find_card (edit_key document.id agent) rows' ≡ some e)
      × IsCard
          (seen_by card document origin views handles agent)
          document.update_id
          (card.edited_at + 60_000_000_000)
          now
          agent
          e
      × (is_claimable now agent e ≡ true)
      × (answer : AgentEvent × EventTable) × (claim_agent_event now agent handle claimed_by rows'
          ≡ some answer)
unfolding enqueue_document_inbox_events
enqueue_document_inbox_events-IsCard card document origin views handles front rest agent handle
      claimed_by now rows shown edited known notified behind due free fresh =
    let sent : (document.hidden || leb document.update_id 1) ≡ false =
      ground (arith, shown, edited) in
    let since = seen_by card document origin views handles agent in
    let key = edit_key document.id agent in
    let before = enqueue_all card document origin views handles front rows in
    let told =
      told-HasCard card document origin views handles now agent handle before known notified behind
        free fresh in
    let (e, found, is_card) =
      enqueue_all-HasCard card document origin views handles since document.update_id now agent key
        rest (enqueue_for card document origin views agent (lookup agent handles) before) told in
    let after = enqueue_all-append card document origin views handles front (agent ∷ rest) rows in
    let claimable =
      IsCard-is_claimable since document.update_id _ now agent key e is_card due
        (find_card-is_active_as key _ e found) in
    let (x, chosen) = find_card-next_event now agent key _ e found claimable in
    let answer = next_event-claim now agent handle claimed_by _ x chosen in
    rw (sent, after) (unfold enqueue_all in (e, found, is_card, claimable, answer.0, answer.1))
