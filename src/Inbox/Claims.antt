-- ===== src/Inbox/Claims.antt =====
-- The claim of a card by the agent that it is for.
use Prim.Native.String.{String}
use mathlib.Core.Option.{some-injective}
use codesk.Common.{
  ℕ, ◌≤◌, ◌≡◌, refl, ap, sym, subst, true, not, ◌||◌, some, [], ◌∷◌, String_key, arith, inl, inr,
  Bool-cases, ◌==◌, leb,
}
use codesk.Inbox.{
  claim_is_over, is_claimable, next_event, earlier, claim_agent_event, claim_next, claimed, has_id,
  AgentEvent, EventTable, is_active_as, update_where,
}
use codesk.Inbox.Cards.{find_card, IsLeftAlone, unclaimed, lease_over, IsCard}

-- A card can be claimed by its agent when its time has come, and then the agent is given an event.
IsLeftAlone-free :
    (now : ℕ) (e : AgentEvent)
    → IsLeftAlone now e
    → (not (e.status == "processing") || claim_is_over now e.claimed_at) ≡ true
IsLeftAlone-free now e (unclaimed h) = ground (arith, String_key.same_iff e.status "processing")
IsLeftAlone-free now e (lease_over at h over) =
    let ended : claim_is_over now e.claimed_at ≡ true = rw h (ground (arith, over)) in
    ground (arith, ended)

pub IsCard-is_claimable :
    (since until time now : ℕ) (agent key : String) (e : AgentEvent)
    → IsCard since until time now agent e
    → time ≤ now
    → is_active_as key e ≡ true
    → is_claimable now agent e ≡ true
unfolding is_claimable is_active_as
IsCard-is_claimable since until time now agent key e card due active =
    let mine : (e.agent_id == agent) ≡ true =
      (String_key.same_iff e.agent_id agent).1 card.is_for in
    let ready : leb e.available_at now ≡ true = ground (arith, card.waits) in
    ground (arith, mine, ready, IsLeftAlone-free now e card.left_alone)

pub find_card-is_active_as :
    (key : String) (rows : EventTable) (e : AgentEvent)
    → find_card key rows ≡ some e
    → is_active_as key e ≡ true
unfolding find_card
find_card-is_active_as key [] e h = absurd (cc h)
find_card-is_active_as key (f ∷ fs) e h = elim (Bool-cases (is_active_as key f)) [
  | inl here ↦
      subst (λ (x : AgentEvent). is_active_as key x ≡ true) (some-injective _ _ (rw here at h)) here
  | inr there ↦ find_card-is_active_as key fs e (rw there at h)
]

pub find_card-next_event :
    (now : ℕ) (agent key : String) (rows : EventTable) (e : AgentEvent)
    → find_card key rows ≡ some e
    → is_claimable now agent e ≡ true
    → (x : AgentEvent) × (next_event now agent rows ≡ some x)
unfolding find_card next_event
find_card-next_event now agent key [] e h c = absurd (cc h)
find_card-next_event now agent key (f ∷ fs) e h c = elim (Bool-cases (is_claimable now agent f)) [
  | inl first ↦ (earlier f (next_event now agent fs), rw first refl)
  | inr not_first ↦ elim (Bool-cases (is_active_as key f)) [
    | inl here ↦ absurd (
        cc (
          not_first,
          subst (λ (x : AgentEvent). is_claimable now agent x ≡ true)
              (sym (some-injective _ _ (rw here at h))) c,
        ))
    | inr there ↦
        let rest = find_card-next_event now agent key fs e (rw there at h) c in
        (rest.0, rw not_first (rest.1))
  ]
]

pub next_event-claim :
    (now : ℕ) (agent handle claimed_by : String) (rows : EventTable) (x : AgentEvent)
    → next_event now agent rows ≡ some x
    → (answer : AgentEvent × EventTable) × (claim_agent_event now agent handle claimed_by rows
        ≡ some answer)
unfolding claim_agent_event
next_event-claim now agent handle claimed_by rows x h = (
  (
    claimed now handle claimed_by x,
    update_where (has_id x.id) (claimed now handle claimed_by) rows,
  ),
  ap (claim_next now handle claimed_by rows) h,
)
