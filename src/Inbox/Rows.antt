-- ===== src/Inbox/Rows.antt =====
-- The ids of the rows, and which row a claim takes.
use Prim.Native.String.{String}
use codesk.Common.{
  ℕ, ◌≡◌, refl, subst, Bool, true, false, ◌||◌, Option, none, some, [], ◌∷◌, ◌++◌, String_key,
  arith, leb, inl, inr, Bool-cases, same_refl,
}
use codesk.Inbox.{
  AgentEvent, EventTable, is_done, update_where, has_row, is_claimable, earlier, next_event, has_id,
  find_event,
}

-- The ids of the rows are all different.
abbrev pub IsIds : EventTable → Type 0
IsIds [] = Unit
IsIds (e ∷ es) = (has_row e.id es ≡ false) × IsIds es

has_row-update :
    (id : String) (test : AgentEvent → Bool) (change : AgentEvent → AgentEvent) (rows : EventTable)
    → ((e : AgentEvent) → (change e).id ≡ e.id)
    → has_row id (update_where test change rows) ≡ has_row id rows
unfolding has_row update_where
has_row-update id test change [] same = refl
has_row-update id test change (e ∷ es) same = elim (Bool-cases (test e)) [
  | inl f ↦ rw (f, same e, has_row-update id test change es same) refl
  | inr f ↦ rw (f, has_row-update id test change es same) refl
]

pub update-IsIds :
    (test : AgentEvent → Bool) (change : AgentEvent → AgentEvent) (rows : EventTable)
    → ((e : AgentEvent) → (change e).id ≡ e.id)
    → IsIds rows
    → IsIds (update_where test change rows)
unfolding update_where
update-IsIds test change [] same h = tt
update-IsIds test change (e ∷ es) same (fresh, h) = elim (Bool-cases (test e)) [
  | inl f ↦ rw f (
    rw (same e, has_row-update e.id test change es same) fresh,
    update-IsIds test change es same h,
  )
  | inr f ↦
      rw f (rw (has_row-update e.id test change es same) fresh, update-IsIds test change es same h)
]

has_row-append :
    (id : String) (rows : EventTable) (e : AgentEvent)
    → has_row id (rows ++ e ∷ []) ≡ (has_row id rows || has_id id e)
unfolding has_row
has_row-append id [] e = ground arith
has_row-append id (f ∷ fs) e = ground (arith, has_row-append id fs e)

pub append-IsIds :
    (event : AgentEvent) (rows : EventTable)
    → has_row event.id rows ≡ false
    → IsIds rows
    → IsIds (rows ++ event ∷ [])
unfolding has_row
append-IsIds event [] fresh h = (refl, tt)
append-IsIds event (e ∷ es) fresh (first, h) = (
  rw (has_row-append e.id es event, first)
      (ground (arith, fresh, String_key.same_iff e.id event.id, String_key.same_iff event.id e.id)),
  append-IsIds event es (ground (arith, fresh)) h,
)

find-has_row :
    (id : String) (rows : EventTable) (e : AgentEvent)
    → find_event id rows ≡ some e
    → has_row id rows ≡ true
unfolding find_event has_row
find-has_row id [] e h = absurd (cc h)
find-has_row id (f ∷ fs) e h = elim (Bool-cases (has_id id f)) [
  | inl here ↦ rw here refl
  | inr there ↦ rw there (find-has_row id fs e (rw there at h))
]

-- The row that a claim takes is in the table, and active.
pub next_event-found :
    (now : ℕ) (agent : String) (rows : EventTable) (e : AgentEvent)
    → IsIds rows
    → next_event now agent rows ≡ some e
    → (find_event e.id rows ≡ some e) × (is_done e ≡ false)
unfolding next_event find_event
next_event-found now agent [] e ids h = absurd (cc h)
next_event-found now agent (f ∷ fs) e (fresh, ids) h =
    elim (Bool-cases (is_claimable now agent f)) [
      | inl free ↦
          pick (next_event now agent fs) free
            (λ (g : AgentEvent) (at : next_event now agent fs ≡ some g).
              next_event-found now agent fs g ids at)
            (rw free at h)
      | inr busy ↦
          let rest = next_event-found now agent fs e ids (rw busy at h) in
          (rw (later e (rest.0)) (rest.0), rest.1)
    ]
  where
    later : (g : AgentEvent) → find_event g.id fs ≡ some g → has_id g.id f ≡ false
    later g at = elim (Bool-cases (has_id g.id f)) [
      | inl same ↦
          let p : f.id ≡ g.id = (String_key.same_iff f.id g.id).0 same in
          absurd (cc (find-has_row g.id fs g at, rw p at fresh))
      | inr other ↦ other
    ]

    Known : AgentEvent → Type 0
    Known g = (find_event g.id (f ∷ fs) ≡ some g) × (is_done g ≡ false)

    this : is_claimable now agent f ≡ true → Known f
    this free = (rw (same_refl f.id) refl, unfold is_claimable in ground (arith, free))

    that : (g : AgentEvent) → (find_event g.id fs ≡ some g) × (is_done g ≡ false) → Known g
    that g (at, open_event) = (rw (later g at) at, open_event)

    pick :
        (o : Option AgentEvent)
        → is_claimable now agent f ≡ true
        → ((g : AgentEvent) → o ≡ some g → (find_event g.id fs ≡ some g) × (is_done g ≡ false))
        → some (earlier f o) ≡ some e
        → Known e
    pick none free known same = let p : f ≡ e = cc same in subst Known p (this free)
    pick (some g) free known same = elim (Bool-cases (leb f.created_at g.created_at)) [
      | inl le ↦ let p : f ≡ e = cc (rw le at same) in subst Known p (this free)
      | inr gt ↦ let p : g ≡ e = cc (rw gt at same) in subst Known p (that g (known g refl))
    ]
