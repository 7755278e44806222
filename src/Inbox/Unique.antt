-- ===== src/Inbox/Unique.antt =====
-- No two active events of the inbox have one key, whatever statements come.
use Prim.Native.String.{String}
use codesk.Common.{
  ℕ, ◌≤◌, ◌≡◌, refl, sym, subst, Bool, true, false, not, ◌&&◌, Option, none, some, List, [], ◌∷◌,
  ◌++◌, String_key, arith, inl, inr, Bool-cases,
}
use codesk.Inbox.{
  AgentEvent, EventTable, UpdateAgentEventRequest, is_done, is_active_as, has_active, update_where,
  conflicts, append_event, has_row, insert_agent_event_tx, merge_event, upsert_document_inbox_event,
  next_event, claimed, has_id, claim_next, claim_agent_event, with_request, find_event,
  other_active, update_found, update_agent_event,
}
use codesk.Inbox.Documents.{is_card_until, completed, complete_document_inbox_events}
use codesk.Inbox.Steps.{
  Operation, inserted, upserted, claim, update, viewed, table_after, after, run,
}
use codesk.Inbox.Leases.{find_event-id}
use codesk.Inbox.Cards.{merge-is_active_as}
use codesk.Inbox.Rows.{IsIds, update-IsIds, append-IsIds, next_event-found}
use codesk.Inbox.Active.{
  one, active_count, count-update_one, count-append, count-none, count-alone, count-update_le,
}

-- A table that its two indexes allow.
record IsInbox (rows : EventTable) : Type 0 where
  pub ids : IsIds rows
  pub keys : (key : String) → active_count key rows ≤ 1

one_le : (b : Bool) → one b ≤ 1
one_le true = omega arith
one_le false = omega arith

append-keys :
    (event : AgentEvent) (rows : EventTable)
    → IsInbox rows
    → conflicts event rows ≡ false
    → (key : String) → active_count key (rows ++ event ∷ []) ≤ 1
append-keys event rows h free key = elim (Bool-cases (is_active_as key event)) [
  | inl e ↦
      let same_key : event.dedup_key ≡ key =
        (String_key.same_iff event.dedup_key key).0 (unfold is_active_as in ground (arith, e)) in
      let none_yet : has_active key rows ≡ false =
        subst (λ (k : String). has_active k rows ≡ false) same_key
          (unfold conflicts is_active_as in ground (arith, free, e)) in
      rw (count-append key rows event, count-none key rows none_yet)
        (omega (arith, one_le (is_active_as key event)))
  | inr e ↦ rw (count-append key rows event, e) (omega (arith, h.keys key))
]

append_event-IsInbox :
    (event : AgentEvent) (rows : EventTable)
    → IsInbox rows
    → conflicts event rows ≡ false
    → IsInbox (append_event event rows)
unfolding append_event
append_event-IsInbox event rows h free = elim (Bool-cases (has_row event.id rows)) [
  | inl e ↦ rw e h
  | inr e ↦
      rw e (record { ids = append-IsIds event rows e h.ids; keys = append-keys event rows h free })
]

-- A change of rows that keeps ids, and makes none active.
quiet-IsInbox :
    (test : AgentEvent → Bool) (change : AgentEvent → AgentEvent) (rows : EventTable)
    → ((e : AgentEvent) → (change e).id ≡ e.id)
    → ((key : String) (e : AgentEvent)
        → one (is_active_as key (change e)) ≤ one (is_active_as key e))
    → IsInbox rows
    → IsInbox (update_where test change rows)
quiet-IsInbox test change rows same less h = record {
  ids = update-IsIds test change rows same h.ids;
  keys = λ (key : String).
      omega
        (arith, h.keys key, count-update_le key test change rows (λ (e : AgentEvent). less key e));
}

claim-IsInbox :
    (now : ℕ) (agent handle claimed_by : String) (rows : EventTable)
    → IsInbox rows
    → IsInbox (table_after rows (claim_agent_event now agent handle claimed_by rows))
unfolding claim_agent_event
claim-IsInbox now agent handle claimed_by rows h = of_next (next_event now agent rows) refl
  where
    still :
        (key : String) (e : AgentEvent)
        → is_done e ≡ false
        → one (is_active_as key (claimed now handle claimed_by e)) ≡ one (is_active_as key e)
    still key e open_event = unfold is_active_as in rw open_event (unfold is_done in refl)

    of_next :
        (o : Option AgentEvent)
        → next_event now agent rows ≡ o
        → IsInbox (table_after rows (claim_next now handle claimed_by rows o))
    of_next none found = h
    of_next (some e) found =
        let row = next_event-found now agent rows e h.ids found in
        record {
          ids =
              update-IsIds (has_id e.id) (claimed now handle claimed_by) rows
                (λ (r : AgentEvent). refl) h.ids;
          keys = λ (key : String). omega (
            arith,
            h.keys key,
            count-update_one key e.id (claimed now handle claimed_by) rows e h.ids (row.0),
            still key e (row.1),
          );
        }

update-IsInbox :
    (now : ℕ) (id : String) (req : UpdateAgentEventRequest) (rows : EventTable)
    → IsInbox rows
    → IsInbox (update_agent_event now id req rows).1
unfolding update_agent_event
update-IsInbox now id req rows h = of_found (find_event id rows) refl
  where
    keys_after :
        (e : AgentEvent)
        → find_event e.id rows ≡ some e
        → (not (is_done (with_request now req e)) && other_active e.id e.dedup_key rows) ≡ false
        → (key : String)
        → active_count key (update_where (has_id e.id) (with_request now req) rows) ≤ 1
    keys_after e at allowed key =
        let count = count-update_one key e.id (with_request now req) rows e h.ids at in
        elim (Bool-cases (is_active_as key (with_request now req e))) [
          | inl active ↦
              let same_key : e.dedup_key ≡ key =
                (String_key.same_iff e.dedup_key key).0
                  (unfold is_active_as in ground (arith, active)) in
              let alone : other_active e.id key rows ≡ false =
                subst (λ (k : String). other_active e.id k rows ≡ false) same_key
                  (unfold is_active_as in ground (arith, allowed, active)) in
              omega (
                arith,
                count,
                count-alone key e.id rows e h.ids at alone,
                one_le (is_active_as key (with_request now req e)),
              )
          | inr gone ↦ omega (arith, rw gone at count, h.keys key)
        ]

    of_found :
        (o : Option AgentEvent) → find_event id rows ≡ o → IsInbox (update_found now req rows o).1
    of_found none found = h
    of_found (some e) found =
        elim (Bool-cases
          (not (is_done (with_request now req e)) && other_active e.id e.dedup_key rows)) [
            | inl refused ↦ rw refused h
            | inr allowed ↦ rw allowed (record {
              ids =
                  update-IsIds (has_id e.id) (with_request now req) rows (λ (r : AgentEvent). refl)
                    h.ids;
              keys =
                  keys_after e
                    (subst (λ (i : String). find_event i rows ≡ some e)
                      (sym (find_event-id id rows e found)) found)
                    allowed;
            })
          ]

after-IsInbox : (o : Operation) (rows : EventTable) → IsInbox rows → IsInbox (after o rows)
unfolding after insert_agent_event_tx upsert_document_inbox_event complete_document_inbox_events
after-IsInbox (inserted event) rows h = elim (Bool-cases (conflicts event rows)) [
  | inl e ↦ rw e h
  | inr e ↦ rw e (append_event-IsInbox event rows h e)
]
after-IsInbox (upserted event) rows h = elim (Bool-cases (conflicts event rows)) [
  | inl e ↦ rw e (
      quiet-IsInbox (is_active_as event.dedup_key) (merge_event event) rows
        (λ (r : AgentEvent). refl)
        (λ (key : String) (r : AgentEvent). rw (merge-is_active_as event r key) (omega arith)) h)
  | inr e ↦ rw e (append_event-IsInbox event rows h e)
]
after-IsInbox (claim now agent handle claimed_by) rows h =
    claim-IsInbox now agent handle claimed_by rows h
after-IsInbox (update now id req) rows h = update-IsInbox now id req rows h
after-IsInbox (viewed agent document until now) rows h =
    quiet-IsInbox (is_card_until agent document until) (completed now) rows
      (λ (r : AgentEvent). refl) (λ (key : String) (r : AgentEvent). none_active key r) h
  where
    none_active :
        (key : String) (r : AgentEvent)
        → one (is_active_as key (completed now r)) ≤ one (is_active_as key r)
    none_active key r =
        let gone : is_active_as key (completed now r) ≡ false =
          unfold is_active_as is_done in refl in
        rw gone (omega arith)

run-IsInbox : (os : List Operation) (rows : EventTable) → IsInbox rows → IsInbox (run os rows)
unfolding run
run-IsInbox [] rows h = h
run-IsInbox (o ∷ os) rows h = run-IsInbox os (after o rows) (after-IsInbox o rows h)

-- Whatever statements run on an empty table, at most one event that is neither completed nor
-- dismissed has a key.
pub run-active_count : (os : List Operation) (key : String) → active_count key (run os []) ≤ 1
run-active_count os key =
    (run-IsInbox os []
        (record { ids = tt; keys = λ (k : String). unfold active_count in omega arith })).keys
      key
