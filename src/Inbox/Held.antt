-- ===== src/Inbox/Held.antt =====
-- The rows of a claimed event during its lease are not claimed again.
use Prim.Native.String.{String}
use codesk.Common.{
  ℕ, ◌+◌, ◌*◌, ◌<◌, ◌≡◌, refl, subst, Bool, true, false, not, ◌&&◌, ◌||◌, Option, none, some, [],
  ◌∷◌, ◌==◌, ℕ_key, String_key, arith, if◌then◌else◌, eqb, leb, inl, inr, Bool-cases, All,
  All-append,
}
use codesk.Inbox.{
  AgentEvent, EventTable, event_second, is_done, update_where, append_event, has_row, claim_is_over,
  is_claimable, earlier, next_event, has_id,
}
use codesk.Inbox.Steps.{Operation, inserted, upserted, claim, update, viewed}

abbrev pub claimed_then : ℕ → Option ℕ → Bool
claimed_then t none = false
claimed_then t (some at) = eqb at t

-- A row of the event is dealt with, or claimed since `t`.
unfoldable pub is_held : ℕ → String → AgentEvent → Bool
is_held t id e =
    not (has_id id e) || is_done e || ((e.status == "processing") && claimed_then t e.claimed_at)

abbrev pub AllHeld : ℕ → String → EventTable → Type 0
AllHeld t id rows = All (λ (e : AgentEvent). is_held t id e ≡ true) rows

-- The lease of a claim at `t`.
abbrev pub lease_end : ℕ → ℕ
lease_end t = t + 30 * event_second

-- An operation during the lease that leaves the event to its claimer.
abbrev pub IsDuring : ℕ → String → Operation → Type 0
IsDuring t id (inserted event) = (event.id == id) ≡ false
IsDuring t id (upserted event) = (event.id == id) ≡ false
IsDuring t id (claim now agent handle claimed_by) = now < lease_end t
IsDuring t id (update now updated req) = (updated == id) ≡ false
IsDuring t id (viewed agent document until now) = Unit

pub update_where-All :
    (P : AgentEvent → Type 0) (test : AgentEvent → Bool) (change : AgentEvent → AgentEvent)
    (rows : EventTable)
    → ((e : AgentEvent) → test e ≡ true → P e → P (change e))
    → All P rows
    → All P (update_where test change rows)
unfolding update_where
update_where-All P test change [] keeps h = tt
update_where-All P test change (e ∷ es) keeps (first, h) =
    (kept (test e) refl, update_where-All P test change es keeps h)
  where
    kept : (b : Bool) → test e ≡ b → P (if b then change e else e)
    kept true at = keeps e at first
    kept false at = first

pub append_event-AllHeld :
    (t : ℕ) (id : String) (event : AgentEvent) (rows : EventTable)
    → (event.id == id) ≡ false
    → AllHeld t id rows
    → AllHeld t id (append_event event rows)
unfolding append_event
append_event-AllHeld t id event rows other h = elim (Bool-cases (has_row event.id rows)) [
  | inl e ↦ rw e h
  | inr e ↦
      rw e (All-append (λ (r : AgentEvent). is_held t id r ≡ true) rows (event ∷ []) h (new, tt))
]
  where
    new : is_held t id event ≡ true
    new = unfold is_held in rw other refl

pub claimed_held :
    (t now : ℕ) (o : Option ℕ)
    → now < lease_end t
    → claimed_then t o ≡ true
    → claim_is_over now o ≡ false
claimed_held t now none h g = refl
claimed_held t now (some at) h g = ground (arith, h, g)

-- A held row is not claimed again during the lease.
pub held-claimable :
    (t now : ℕ) (id agent : String) (e : AgentEvent)
    → now < lease_end t
    → is_held t id e ≡ true
    → is_claimable now agent e ≡ true
    → (e.id == id) ≡ false
unfolding is_held is_claimable
held-claimable t now id agent e h held free = elim (Bool-cases (claimed_then t e.claimed_at)) [
  | inl g ↦ ground (arith, held, free, claimed_held t now e.claimed_at h g)
  | inr g ↦ ground (arith, held, free, g)
]

pub next_event-free :
    (t now : ℕ) (id agent : String) (rows : EventTable) (e : AgentEvent)
    → now < lease_end t
    → AllHeld t id rows
    → next_event now agent rows ≡ some e
    → (e.id == id) ≡ false
unfolding next_event
next_event-free t now id agent [] e h held found = absurd (cc found)
next_event-free t now id agent (f ∷ fs) e h (first, held) found =
    elim (Bool-cases (is_claimable now agent f)) [
      | inl free ↦
          pick (next_event now agent fs) (held-claimable t now id agent f h first free)
            (λ (g : AgentEvent) (at : next_event now agent fs ≡ some g).
              next_event-free t now id agent fs g h held at)
            (rw free at found)
      | inr busy ↦ next_event-free t now id agent fs e h held (rw busy at found)
    ]
  where
    pick :
        (o : Option AgentEvent)
        → (f.id == id) ≡ false
        → ((g : AgentEvent) → o ≡ some g → (g.id == id) ≡ false)
        → some (earlier f o) ≡ some e
        → (e.id == id) ≡ false
    pick none mine others same =
        let p : f ≡ e = cc same in subst (λ (g : AgentEvent). (g.id == id) ≡ false) p mine
    pick (some g) mine others same = elim (Bool-cases (leb f.created_at g.created_at)) [
      | inl le ↦
          let p : f ≡ e = cc (rw le at same) in
          subst (λ (g : AgentEvent). (g.id == id) ≡ false) p mine
      | inr gt ↦
          let p : g ≡ e = cc (rw gt at same) in
          subst (λ (g : AgentEvent). (g.id == id) ≡ false) p (others g refl)
    ]
