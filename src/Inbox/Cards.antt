-- ===== src/Inbox/Cards.antt =====
-- The card that tells a subscriber of an edit.
use Prim.Native.String.{String}
use codesk.Common.{
  ℕ, ◌+◌, ◌≤◌, ◌≡◌, ◌≢◌, refl, ◌∙◌, ap, Bool, true, false, Option, none, some, [], ◌∷◌, ◌++◌,
  String_key, arith, if◌then◌else◌, inl, inr, Bool-cases, same_refl,
}
use codesk.Inbox.{
  AgentEvent, EventTable, is_done, is_active_as, has_active, update_where, conflicts, has_row,
  append_event, merge_event, upsert_document_inbox_event,
}

-- The active event under a key.
unfoldable pub find_card : String → EventTable → Option AgentEvent
find_card key [] = none
find_card key (e ∷ es) = if is_active_as key e then some e else find_card key es

-- Nobody works on the event at the time `now`: it is not claimed, or its lease of 30 seconds is over.
pub data IsLeftAlone (now : ℕ) (e : AgentEvent) : Type 0 where
  unclaimed : e.status ≢ "processing" → IsLeftAlone now e
  lease_over : (at : ℕ) → e.claimed_at ≡ some at → at + 30_000_000_000 ≤ now → IsLeftAlone now e

-- A card for an agent, of the updates from `since` to `until` at least, that waits until `time` and
-- that nobody works on at the time `now`.
pub record IsCard (since until time now : ℕ) (agent : String) (e : AgentEvent) : Type 0 where
  pub covers_since : e.from_update_id ≤ since
  pub covers_until : until ≤ e.to_update_id
  pub waits : e.available_at ≡ time
  pub is_for : e.agent_id ≡ agent
  pub left_alone : IsLeftAlone now e

merge-IsLeftAlone :
    (event old : AgentEvent) (now : ℕ)
    → IsLeftAlone now old
    → IsLeftAlone now (merge_event event old)
merge-IsLeftAlone event old now (unclaimed h) = unclaimed h
merge-IsLeftAlone event old now (lease_over at h over) = lease_over at h over

pub merge-is_active_as :
    (event old : AgentEvent) (key : String)
    → is_active_as key (merge_event event old) ≡ is_active_as key old
unfolding is_active_as is_done
merge-is_active_as event old key = refl

find_card-later :
    (key : String) (e : AgentEvent) (es : EventTable)
    → is_active_as key e ≡ false
    → find_card key (e ∷ es) ≡ find_card key es
unfolding find_card
find_card-later key e es h = rw h refl

find_card-one :
    (key : String) (e : AgentEvent) → is_active_as key e ≡ true → find_card key (e ∷ []) ≡ some e
unfolding find_card
find_card-one key e h = rw h refl

module _ (since until time now : ℕ) (agent : String) where
  -- There is such a card under the key.
  abbrev pub HasCard : String → EventTable → Type 0
  HasCard key rows =
      (e : AgentEvent) × (find_card key rows ≡ some e) × IsCard since until time now agent e

  merge-IsCard :
      (event old : AgentEvent)
      → event.available_at ≡ time
      → IsCard since until time now agent old
      → IsCard since until time now agent (merge_event event old)
  merge-IsCard event old at card = record {
    covers_since = omega (arith, card.covers_since);
    covers_until = omega (arith, card.covers_until);
    waits = at;
    is_for = card.is_for;
    left_alone = merge-IsLeftAlone event old now card.left_alone;
  }

  update-HasCard :
      (event : AgentEvent) (test : AgentEvent → Bool) (key : String) (rows : EventTable)
      → event.available_at ≡ time
      → HasCard key rows
      → HasCard key (update_where test (merge_event event) rows)
  unfolding update_where find_card
  update-HasCard event test key [] at (c, found, card) = absurd (cc found)
  update-HasCard event test key (e ∷ es) at (c, found, card) =
      elim (Bool-cases (is_active_as key e)) [
        | inl here ↦
            let same : e ≡ c = cc (rw here at found) in
            elim (Bool-cases (test e)) [
              | inl f ↦ (
                merge_event event e,
                rw (f, merge-is_active_as event e key, here) refl,
                merge-IsCard event e at (rw same card),
              )
              | inr f ↦ (c, rw (f, here) (ap some same), card)
            ]
        | inr there ↦
            let rest = update-HasCard event test key es at (c, rw there at found, card) in
            elim (Bool-cases (test e)) [
              | inl f ↦ (rest.0, rw (f, merge-is_active_as event e key, there) (rest.1), rest.2)
              | inr f ↦ (rest.0, rw (f, there) (rest.1), rest.2)
            ]
      ]

  append-HasCard :
      (key : String) (rows others : EventTable) → HasCard key rows → HasCard key (rows ++ others)
  unfolding find_card
  append-HasCard key [] others (c, found, card) = absurd (cc found)
  append-HasCard key (e ∷ es) others (c, found, card) = elim (Bool-cases (is_active_as key e)) [
    | inl here ↦ (c, rw here (rw here at found), card)
    | inr there ↦
        let rest = append-HasCard key es others (c, rw there at found, card) in
        (rest.0, rw there (rest.1), rest.2)
  ]

  -- Other edits of the moment leave the card.
  pub upsert-HasCard :
      (event : AgentEvent) (key : String) (rows : EventTable)
      → event.available_at ≡ time
      → HasCard key rows
      → HasCard key (upsert_document_inbox_event event rows)
  unfolding upsert_document_inbox_event append_event
  upsert-HasCard event key rows at card = elim (Bool-cases (conflicts event rows)) [
    | inl e ↦ rw e (update-HasCard event (is_active_as event.dedup_key) key rows at card)
    | inr e ↦ elim (Bool-cases (has_row event.id rows)) [
      | inl f ↦ rw (e, f) card
      | inr f ↦ rw (e, f) (append-HasCard key rows (event ∷ []) card)
    ]
  ]

  -- The edit's own card: merged into the active one, or new.
  merged-HasCard :
      (event : AgentEvent) (rows : EventTable)
      → event.available_at ≡ time
      → event.from_update_id ≤ since
      → until ≤ event.to_update_id
      → ((old : AgentEvent)
          → find_card event.dedup_key rows ≡ some old
          → (old.agent_id ≡ agent) × IsLeftAlone now old)
      → has_active event.dedup_key rows ≡ true
      → HasCard event.dedup_key
          (update_where (is_active_as event.dedup_key) (merge_event event) rows)
  unfolding has_active update_where find_card
  merged-HasCard event [] at from to free active = absurd (cc active)
  merged-HasCard event (e ∷ es) at from to free active =
      elim (Bool-cases (is_active_as event.dedup_key e)) [
        | inl here ↦ (
          merge_event event e,
          rw (here, merge-is_active_as event e event.dedup_key, here) refl,
          record {
            covers_since = omega (arith, from);
            covers_until = omega (arith, to);
            waits = at;
            is_for = (free e (rw here refl)).0;
            left_alone = merge-IsLeftAlone event e now (free e (rw here refl)).1;
          },
        )
        | inr there ↦
            let rest =
              merged-HasCard event es at from to (λ old found. free old (rw there found))
                (ground (arith, active, there)) in
            (rest.0, rw (there, there) (rest.1), rest.2)
      ]

  new-HasCard :
      (event : AgentEvent) (rows : EventTable)
      → event.available_at ≡ time
      → event.from_update_id ≤ since
      → until ≤ event.to_update_id
      → event.agent_id ≡ agent
      → IsLeftAlone now event
      → is_active_as event.dedup_key event ≡ true
      → has_active event.dedup_key rows ≡ false
      → HasCard event.dedup_key (rows ++ event ∷ [])
  unfolding has_active find_card
  new-HasCard event [] at from to owner alone mine free = (
    event,
    find_card-one event.dedup_key event mine,
    record {
      covers_since = from;
      covers_until = to;
      waits = at;
      is_for = owner;
      left_alone = alone;
    },
  )
  new-HasCard event (e ∷ es) at from to owner alone mine free =
      let there : is_active_as event.dedup_key e ≡ false = ground (arith, free) in
      let rest = new-HasCard event es at from to owner alone mine (ground (arith, free)) in
      (rest.0, find_card-later event.dedup_key e (es ++ event ∷ []) there ∙ rest.1, rest.2)

  pub own-HasCard :
      (event : AgentEvent) (rows : EventTable)
      → event.available_at ≡ time
      → event.from_update_id ≤ since
      → until ≤ event.to_update_id
      → event.agent_id ≡ agent
      → IsLeftAlone now event
      → ((old : AgentEvent)
          → find_card event.dedup_key rows ≡ some old
          → (old.agent_id ≡ agent) × IsLeftAlone now old)
      → is_done event ≡ false
      → has_row event.id rows ≡ false
      → HasCard event.dedup_key (upsert_document_inbox_event event rows)
  unfolding upsert_document_inbox_event append_event conflicts
  own-HasCard event rows at from to owner alone free open_event fresh =
      elim (Bool-cases (has_active event.dedup_key rows)) [
        | inl e ↦ rw (open_event, e) (merged-HasCard event rows at from to free e)
        | inr e ↦ rw (open_event, e, fresh) (new-HasCard event rows at from to owner alone mine e)
      ]
    where
      mine : is_active_as event.dedup_key event ≡ true
      mine = unfold is_active_as in rw (open_event, same_refl event.dedup_key) refl
