-- ===== src/Inbox/Leases.antt =====
-- Who has claimed an event keeps it for 30 seconds.
use Prim.Native.String.{String}
use codesk.Common.{
  ℕ, ◌<◌, ◌≡◌, refl, ap, subst, Bool, true, false, not, ◌&&◌, Option, none, some, List, [], ◌∷◌,
  ◌==◌, ℕ_key, String_key, arith, if◌then◌else◌, inl, inr, Bool-cases, All, same_refl,
}
use codesk.Inbox.{
  AgentEvent, EventTable, UpdateAgentEventRequest, is_done, is_active_as, update_where, conflicts,
  insert_agent_event_tx, merge_event, upsert_document_inbox_event, next_event, claimed, has_id,
  claim_next, claim_agent_event, with_request, find_event, other_active, update_found,
  update_agent_event,
}
use codesk.Inbox.Documents.{is_card_until, completed, complete_document_inbox_events}
use codesk.Inbox.Steps.{
  Operation, inserted, upserted, claim, update, viewed, table_after, after, run,
}
use codesk.Inbox.Held.{
  is_held, AllHeld, lease_end, IsDuring, update_where-All, append_event-AllHeld, next_event-free,
}

-- A change of rows with another id.
elsewhere :
    (t : ℕ) (id row : String) (change : AgentEvent → AgentEvent) (rows : EventTable)
    → ((e : AgentEvent) → (change e).id ≡ e.id)
    → (row == id) ≡ false
    → AllHeld t id rows
    → AllHeld t id (update_where (has_id row) change rows)
elsewhere t id row change rows same_id other h =
    update_where-All (λ (r : AgentEvent). is_held t id r ≡ true) (has_id row) change rows
      (λ (r : AgentEvent) (at : has_id row r ≡ true) (held : is_held t id r ≡ true).
        not_it (change r) (rw (same_id r) (differ r at)))
      h
  where
    differ : (r : AgentEvent) → (r.id == row) ≡ true → (r.id == id) ≡ false
    differ r at = let p : r.id ≡ row = (String_key.same_iff r.id row).0 at in rw p other

    not_it : (r : AgentEvent) → (r.id == id) ≡ false → is_held t id r ≡ true
    not_it r h = unfold is_held in rw h refl

pub find_event-id :
    (id : String) (rows : EventTable) (e : AgentEvent) → find_event id rows ≡ some e → e.id ≡ id
unfolding find_event
find_event-id id [] e h = absurd (cc h)
find_event-id id (f ∷ fs) e h = elim (Bool-cases (has_id id f)) [
  | inl here ↦
      let p : f ≡ e = cc (rw here at h) in
      subst (λ (g : AgentEvent). g.id ≡ id) p ((String_key.same_iff f.id id).0 here)
  | inr other ↦ find_event-id id fs e (rw other at h)
]

-- The events of the lease keep it.
claim-AllHeld :
    (t now : ℕ) (id agent handle claimed_by : String) (rows : EventTable)
    → now < lease_end t
    → AllHeld t id rows
    → AllHeld t id (table_after rows (claim_agent_event now agent handle claimed_by rows))
unfolding claim_agent_event
claim-AllHeld t now id agent handle claimed_by rows h held =
    of_next (next_event now agent rows) refl
  where
    of_next :
        (o : Option AgentEvent)
        → next_event now agent rows ≡ o
        → AllHeld t id (table_after rows (claim_next now handle claimed_by rows o))
    of_next none found = held
    of_next (some e) found =
        elsewhere t id e.id (claimed now handle claimed_by) rows (λ (r : AgentEvent). refl)
          (next_event-free t now id agent rows e h held found) held

update-AllHeld :
    (t now : ℕ) (id row : String) (req : UpdateAgentEventRequest) (rows : EventTable)
    → (row == id) ≡ false
    → AllHeld t id rows
    → AllHeld t id (update_agent_event now row req rows).1
unfolding update_agent_event
update-AllHeld t now id row req rows other held = of_found (find_event row rows) refl
  where
    of_found :
        (o : Option AgentEvent)
        → find_event row rows ≡ o
        → AllHeld t id (update_found now req rows o).1
    of_found none found = held
    of_found (some e) found =
        elim (Bool-cases
          (not (is_done (with_request now req e)) && other_active e.id e.dedup_key rows)) [
            | inl refused ↦ rw refused held
            | inr done ↦ rw done (
                elsewhere t id e.id (with_request now req) rows (λ (r : AgentEvent). refl)
                  (rw (find_event-id row rows e found) other) held)
          ]

after-AllHeld :
    (t : ℕ) (id : String) (o : Operation) (rows : EventTable)
    → IsDuring t id o
    → AllHeld t id rows
    → AllHeld t id (after o rows)
unfolding after insert_agent_event_tx upsert_document_inbox_event complete_document_inbox_events
after-AllHeld t id (inserted event) rows other held = elim (Bool-cases (conflicts event rows)) [
  | inl e ↦ rw e held
  | inr e ↦ rw e (append_event-AllHeld t id event rows other held)
]
after-AllHeld t id (upserted event) rows other held = elim (Bool-cases (conflicts event rows)) [
  | inl e ↦ rw e (
      update_where-All (λ (r : AgentEvent). is_held t id r ≡ true) (is_active_as event.dedup_key)
        (merge_event event) rows
        (λ (r : AgentEvent) (at : is_active_as event.dedup_key r ≡ true)
            (h : is_held t id r ≡ true).
          unfold is_held is_done in h)
        held)
  | inr e ↦ rw e (append_event-AllHeld t id event rows other held)
]
after-AllHeld t id (claim now agent handle claimed_by) rows h held =
    claim-AllHeld t now id agent handle claimed_by rows h held
after-AllHeld t id (update now row req) rows other held =
    update-AllHeld t now id row req rows other held
after-AllHeld t id (viewed agent document until now) rows h held =
    update_where-All (λ (r : AgentEvent). is_held t id r ≡ true)
      (is_card_until agent document until) (completed now) rows
      (λ (r : AgentEvent) (at : is_card_until agent document until r ≡ true)
          (old : is_held t id r ≡ true).
        unfold is_held is_done in ground arith)
      held

run-AllHeld :
    (t : ℕ) (id : String) (os : List Operation) (rows : EventTable)
    → All (IsDuring t id) os
    → AllHeld t id rows
    → AllHeld t id (run os rows)
unfolding run
run-AllHeld t id [] rows h held = held
run-AllHeld t id (o ∷ os) rows (first, h) held =
    run-AllHeld t id os (after o rows) h (after-AllHeld t id o rows first held)

-- The claimed event itself.
claimed-AllHeld :
    (t : ℕ) (id handle claimed_by : String) (rows : EventTable)
    → AllHeld t id (update_where (has_id id) (claimed t handle claimed_by) rows)
unfolding update_where
claimed-AllHeld t id handle claimed_by [] = tt
claimed-AllHeld t id handle claimed_by (e ∷ es) =
    (row (has_id id e) refl, claimed-AllHeld t id handle claimed_by es)
  where
    row :
        (b : Bool)
        → has_id id e ≡ b
        → is_held t id (if b then claimed t handle claimed_by e else e) ≡ true
    row true at = unfold is_held in rw (same_refl t) (ground arith)
    row false at = unfold is_held in rw at refl

-- An event that was claimed is not handed out again within 30 seconds, to whichever agent, whatever
-- is inserted or merged in under other ids, claimed within that time, viewed, or updated under other
-- ids in between.
pub claim_agent_event-lease :
    (t now : ℕ) (agent handle claimed_by other other_handle other_by : String)
    (rows rows' rows'' : EventTable) (e f : AgentEvent) (os : List Operation)
    → claim_agent_event t agent handle claimed_by rows ≡ some (e, rows')
    → All (IsDuring t e.id) os
    → now < lease_end t
    → claim_agent_event now other other_handle other_by (run os rows') ≡ some (f, rows'')
    → (f.id == e.id) ≡ false
unfolding claim_agent_event
claim_agent_event-lease t now agent handle claimed_by other other_handle other_by rows rows' rows''
      e f os first during early second =
    of_first (next_event t agent rows) first
  where
    of_second :
        (o : Option AgentEvent)
        → next_event now other (run os rows') ≡ o
        → AllHeld t e.id rows'
        → claim_next now other_handle other_by (run os rows') o ≡ some (f, rows'')
        → (f.id == e.id) ≡ false
    of_second none found held h = absurd (cc h)
    of_second (some g) found held h =
        let p : claimed now other_handle other_by g ≡ f = cc h in
        subst (λ (k : AgentEvent). (k.id == e.id) ≡ false) p
          (next_event-free t now e.id other (run os rows') g early
            (run-AllHeld t e.id os rows' during held) found)

    of_first :
        (o : Option AgentEvent)
        → claim_next t handle claimed_by rows o ≡ some (e, rows')
        → (f.id == e.id) ≡ false
    of_first none h = absurd (cc h)
    of_first (some g) h =
        let p : claimed t handle claimed_by g ≡ e = cc h in
        let q : update_where (has_id g.id) (claimed t handle claimed_by) rows ≡ rows' = cc h in
        let same_id : g.id ≡ e.id = ap (λ (k : AgentEvent). k.id) p in
        of_second (next_event now other (run os rows')) refl
          (subst (λ (r : EventTable). AllHeld t e.id r) q
            (rw same_id (claimed-AllHeld t e.id handle claimed_by rows)))
          second
