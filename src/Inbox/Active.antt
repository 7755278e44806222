-- ===== src/Inbox/Active.antt =====
-- How many active events have a key, and what the changes of the table make of it.
use Prim.Native.String.{String}
use codesk.Common.{
  ℕ, ◌+◌, ◌≤◌, ◌≡◌, refl, Bool, true, false, some, [], ◌∷◌, ◌++◌, String_key, arith, inl, inr,
  Bool-cases,
}
use codesk.Inbox.{
  AgentEvent, EventTable, is_active_as, has_active, update_where, has_row, has_id, find_event,
  other_active,
}
use codesk.Inbox.Rows.{IsIds}

abbrev pub one : Bool → ℕ
one true = 1
one false = 0

-- How many active events have a key.
unfoldable pub active_count : String → EventTable → ℕ
active_count key [] = 0
active_count key (e ∷ es) = one (is_active_as key e) + active_count key es

-- What a change of one row makes of the count.
absent-update :
    (id : String) (change : AgentEvent → AgentEvent) (rows : EventTable)
    → has_row id rows ≡ false
    → update_where (has_id id) change rows ≡ rows
unfolding has_row update_where
absent-update id change [] h = refl
absent-update id change (e ∷ es) h =
    let other : has_id id e ≡ false = ground (arith, h) in
    rw (other, absent-update id change es (ground (arith, h))) refl

pub count-update_one :
    (key id : String) (change : AgentEvent → AgentEvent) (rows : EventTable) (e : AgentEvent)
    → IsIds rows
    → find_event id rows ≡ some e
    → active_count key (update_where (has_id id) change rows) + one (is_active_as key e)
      ≡ active_count key rows + one (is_active_as key (change e))
unfolding active_count update_where find_event
count-update_one key id change [] e ids h = absurd (cc h)
count-update_one key id change (f ∷ fs) e (fresh, ids) h = elim (Bool-cases (has_id id f)) [
  | inl here ↦
      let p : f ≡ e = cc (rw here at h) in
      let q : f.id ≡ id = (String_key.same_iff f.id id).0 here in
      rw (here, ← p, absent-update id change fs (rw q at fresh)) (omega arith)
  | inr there ↦
      let rest = count-update_one key id change fs e ids (rw there at h) in
      rw there (omega (arith, rest))
]

pub count-append :
    (key : String) (rows : EventTable) (e : AgentEvent)
    → active_count key (rows ++ e ∷ []) ≡ active_count key rows + one (is_active_as key e)
unfolding active_count
count-append key [] e = omega arith
count-append key (f ∷ fs) e = omega (arith, count-append key fs e)

pub count-none :
    (key : String) (rows : EventTable) → has_active key rows ≡ false → active_count key rows ≡ 0
unfolding has_active active_count
count-none key [] h = refl
count-none key (e ∷ es) h =
    let none_here : is_active_as key e ≡ false = ground (arith, h) in
    rw (none_here, count-none key es (ground (arith, h))) (omega arith)

absent-alone :
    (key id : String) (rows : EventTable)
    → has_row id rows ≡ false
    → other_active id key rows ≡ false
    → active_count key rows ≡ 0
unfolding has_row other_active active_count
absent-alone key id [] h g = refl
absent-alone key id (e ∷ es) h g =
    let none_here : is_active_as key e ≡ false = ground (arith, h, g) in
    rw (none_here, absent-alone key id es (ground (arith, h)) (ground (arith, g))) (omega arith)

pub count-alone :
    (key id : String) (rows : EventTable) (e : AgentEvent)
    → IsIds rows
    → find_event id rows ≡ some e
    → other_active id key rows ≡ false
    → active_count key rows ≡ one (is_active_as key e)
unfolding other_active active_count find_event
count-alone key id [] e ids h g = absurd (cc h)
count-alone key id (f ∷ fs) e (fresh, ids) h g = elim (Bool-cases (has_id id f)) [
  | inl here ↦
      let p : f ≡ e = cc (rw here at h) in
      let q : f.id ≡ id = (String_key.same_iff f.id id).0 here in
      rw (← p, absent-alone key id fs (rw q at fresh) (ground (arith, g))) (omega arith)
  | inr there ↦
      let none_here : is_active_as key f ≡ false = ground (arith, g, there) in
      rw (none_here, count-alone key id fs e ids (rw there at h) (ground (arith, g))) (omega arith)
]

-- A change that makes no row active under another key.
pub count-update_le :
    (key : String) (test : AgentEvent → Bool) (change : AgentEvent → AgentEvent) (rows : EventTable)
    → ((e : AgentEvent) → one (is_active_as key (change e)) ≤ one (is_active_as key e))
    → active_count key (update_where test change rows) ≤ active_count key rows
unfolding active_count update_where
count-update_le key test change [] h = omega arith
count-update_le key test change (e ∷ es) h = elim (Bool-cases (test e)) [
  | inl f ↦ rw f (omega (arith, h e, count-update_le key test change es h))
  | inr f ↦ rw f (omega (arith, count-update_le key test change es h))
]
