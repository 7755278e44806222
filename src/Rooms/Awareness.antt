-- ===== src/Rooms/Awareness.antt =====
-- What an awareness update does to each client of a room.
use codesk.Common.{
  ℕ, ◌-◌, ◌%◌, ◌^◌, ◌≡◌, ◌≢◌, ◌↔◌, refl, sym, ◌∙◌, Bool, ◌&&◌, true, false, Option, none, some,
  List, [], ◌∷◌, ◌++◌, arith, ℕ_key, ◌==◌, eqb_iff, if◌then◌else◌, inl, inr, Bool-cases, ltb,
}
use codesk.Common.Int.{ℤ, pos, negsuc, int_lt}
use codesk.Wire.Reader.{Bytes}
use codesk.Common.Dict.{Dict, lookup, IsMap, lookup-insert, lookup-delete}
use codesk.Wire.Awareness.{AwarenessState, int64_lt}
use codesk.Rooms.{
  DocumentRoom, is_null, accepts, apply_state, apply_loop, apply_awareness, same_bytes,
}

-- What becomes of one client: `current` is its state in the room, `next` what the update holds.
abbrev outcome : Option AwarenessState → Option AwarenessState → Option AwarenessState
outcome current none = current
outcome current (some next) =
    if accepts current next then if is_null next.state then none else some next else current

lookup-apply_state :
    (c j : ℕ) (next : AwarenessState) (m : Dict ℕ AwarenessState)
    → lookup j (apply_state c next m)
      ≡ (if c == j then if is_null next.state then none else some next else lookup j m)
unfolding apply_state
lookup-apply_state c j next m = ground (arith, lookup-insert c j next m, lookup-delete c j m)

-- One round of the loop.
abbrev round : ℕ → AwarenessState → Dict ℕ AwarenessState → Dict ℕ AwarenessState
round c next m = if accepts (lookup c m) next then apply_state c next m else m

lookup-round_self :
    (c : ℕ) (next : AwarenessState) (m : Dict ℕ AwarenessState)
    → lookup c (round c next m) ≡ outcome (lookup c m) (some next)
lookup-round_self c next m = elim (Bool-cases (accepts (lookup c m) next)) [
  | inl taken ↦ rw taken (lookup-apply_state c c next m ∙ rw ((eqb_iff c c).1 refl))
  | inr left ↦ rw left
]

lookup-round_ne :
    (c j : ℕ) (next : AwarenessState) (m : Dict ℕ AwarenessState)
    → (c == j) ≡ false
    → lookup j (round c next m) ≡ lookup j m
lookup-round_ne c j next m ne = elim (Bool-cases (accepts (lookup c m) next)) [
  | inl taken ↦ rw taken (lookup-apply_state c j next m ∙ rw ne)
  | inr left ↦ rw left
]

lookup-apply_loop :
    (update m : Dict ℕ AwarenessState) (changed : List ℕ) (j : ℕ)
    → IsMap update
    → lookup j (apply_loop update m changed).0 ≡ outcome (lookup j m) (lookup j update)
unfolding apply_loop lookup
lookup-apply_loop [] m changed j h = refl
lookup-apply_loop ((c, next) ∷ update) m changed j (fresh, h) =
    let changed' = if accepts (lookup c m) next then changed ++ c ∷ [] else changed in
    lookup-apply_loop update (round c next m) changed' j h ∙ step
  where
    step :
        outcome (lookup j (round c next m)) (lookup j update)
        ≡ outcome (lookup j m) (lookup j ((c, next) ∷ update))
    step = elim (Bool-cases (c == j)) [
      | inl same_client ↦
          let e : c ≡ j = (eqb_iff c j).0 same_client in
          rw (same_client, ← e, fresh) (lookup-round_self c next m)
      | inr other ↦ rw (other, lookup-round_ne c j next m other)
    ]

-- One client after an update, by what the code tests.
lookup-apply_awareness :
    (r : DocumentRoom) (update : Dict ℕ AwarenessState) (j : ℕ)
    → IsMap update
    → lookup j (apply_awareness r update).0.awareness
      ≡ outcome (lookup j r.awareness) (lookup j update)
unfolding apply_awareness
lookup-apply_awareness r update j h = lookup-apply_loop update r.awareness [] j h

-- The signed integer that the 64 bits of a clock stand for.
abbrev pub as_int64 : ℕ → ℤ
as_int64 bits =
    if ltb (bits % 2 ^ 64) (2 ^ 63)
    then pos (bits % 2 ^ 64)
    else negsuc (2 ^ 64 - 1 - bits % 2 ^ 64)

int64_lt-int_lt : (a b : ℕ) → int64_lt a b ≡ int_lt (as_int64 a) (as_int64 b)
int64_lt-int_lt a b = ground arith

abbrev pub null_text : Bytes
null_text = b'n' ∷ b'u' ∷ b'l' ∷ b'l' ∷ []

same_bytes_sound : (a b : Bytes) → same_bytes a b ≡ true → a ≡ b
unfolding same_bytes
same_bytes_sound [] [] h = refl
same_bytes_sound [] (y ∷ b) h = absurd (cc)
same_bytes_sound (x ∷ a) [] h = absurd (cc)
same_bytes_sound (x ∷ a) (y ∷ b) h = ground (arith, same_bytes_sound a b)

same_bytes_refl : (a : Bytes) → same_bytes a a ≡ true
unfolding same_bytes
same_bytes_refl [] = refl
same_bytes_refl (x ∷ a) = ground (arith, same_bytes_refl a)

is_null_iff : (state : Bytes) → (is_null state ≡ true) ↔ (state ≡ null_text)
unfolding is_null
is_null_iff state = (same_bytes_sound state null_text, λ e. rw e (same_bytes_refl null_text))

-- `next` is news to a room that holds `current` for its client: the client is new, its clock has
-- moved on, or it leaves at the clock that it had.
pub data IsNews (current : Option AwarenessState) (next : AwarenessState) : Type 0 where
  joins : current ≡ none → IsNews current next
  moves_on :
      (old : AwarenessState)
      → current ≡ some old
      → int_lt (as_int64 old.clock) (as_int64 next.clock) ≡ true
      → IsNews current next
  leaves :
      (old : AwarenessState)
      → current ≡ some old
      → old.clock ≡ next.clock
      → next.state ≡ null_text
      → IsNews current next

-- What an update that holds `next` for a client makes of its state `current`.
pub data Merged (current next after : Option AwarenessState) : Type 0 where
  not_named : next ≡ none → after ≡ current → Merged current next after
  ignored :
      (n : AwarenessState)
      → next ≡ some n
      → ¬ IsNews current n
      → after ≡ current
      → Merged current next after
  removed :
      (n : AwarenessState)
      → next ≡ some n
      → IsNews current n
      → n.state ≡ null_text
      → after ≡ none
      → Merged current next after
  replaced :
      (n : AwarenessState)
      → next ≡ some n
      → IsNews current n
      → n.state ≢ null_text
      → after ≡ some n
      → Merged current next after

accepts-IsNews :
    (current : Option AwarenessState) (next : AwarenessState)
    → accepts current next ≡ true
    → IsNews current next
accepts-IsNews none next h = joins refl
accepts-IsNews (some old) next h = elim (Bool-cases (int64_lt old.clock next.clock)) [
  | inl later ↦ moves_on old refl (sym (int64_lt-int_lt old.clock next.clock) ∙ later)
  | inr not_later ↦
      let (same_clock, gone) = parts (rw not_later at h) in
      leaves old refl ((eqb_iff old.clock next.clock).0 same_clock)
        ((is_null_iff next.state).0 gone)
]
  where
    parts : {a b : Bool} → (a && b) ≡ true → (a ≡ true) × (b ≡ true)
    parts {a} {b} h = ground arith

IsNews-accepts :
    (current : Option AwarenessState) (next : AwarenessState)
    → IsNews current next
    → accepts current next ≡ true
IsNews-accepts current next (joins e) = rw e refl
IsNews-accepts current next (moves_on old e later) =
    rw (e, int64_lt-int_lt old.clock next.clock ∙ later) refl
IsNews-accepts current next (leaves old e same_clock gone) =
    let c = (eqb_iff old.clock next.clock).1 same_clock in
    let n = (is_null_iff next.state).1 gone in rw e (ground (arith, c, n))

outcome-Merged : (current next : Option AwarenessState) → Merged current next (outcome current next)
outcome-Merged current none = not_named refl refl
outcome-Merged current (some n) = elim (Bool-cases (accepts current n)) [
  | inl taken ↦
      let news = accepts-IsNews current n taken in
      elim (Bool-cases (is_null n.state)) [
        | inl null ↦ removed n refl news ((is_null_iff n.state).0 null) (rw (taken, null) refl)
        | inr kept ↦
            replaced n refl news (λ e. cc (kept, (is_null_iff n.state).1 e)) (rw (taken, kept) refl)
      ]
  | inr left ↦
      ignored n refl (λ (news : IsNews current n). cc (left, IsNews-accepts current n news))
        (rw left refl)
]

-- For an update that names each client once, and each client on its own, whatever the order in
-- which the update is walked: a client that the update does not name keeps its state. One that it
-- names has news if the room has no state of it, if the signed 64-bit integer of the new clock is
-- above that of the old one, or if the clocks are equal and the new state is the text null. Without
-- news it keeps its state; with news it is removed if the new state is null, and takes the new
-- state otherwise.
pub apply_awareness-Merged :
    (r : DocumentRoom) (update : Dict ℕ AwarenessState) (j : ℕ)
    → IsMap update
    → Merged
        (lookup j r.awareness)
        (lookup j update)
        (lookup j (apply_awareness r update).0.awareness)
apply_awareness-Merged r update j h =
    rw (lookup-apply_awareness r update j h)
      (outcome-Merged (lookup j r.awareness) (lookup j update))

-- A client that is in the room before and after an update that names each client once has not gone
-- back to an older clock.
pub apply_awareness-clock :
    (r : DocumentRoom) (update : Dict ℕ AwarenessState) (j : ℕ) (before after : AwarenessState)
    → IsMap update
    → lookup j r.awareness ≡ some before
    → lookup j (apply_awareness r update).0.awareness ≡ some after
    → int64_lt after.clock before.clock ≡ false
apply_awareness-clock r update j before after h was now_is =
    ground (arith, lookup-apply_awareness r update j h)
