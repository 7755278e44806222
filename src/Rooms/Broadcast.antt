-- ===== src/Rooms/Broadcast.antt =====
-- What a broadcast does to each connection.
use codesk.Common.{
  ℕ, ◌≤◌, ◌≡◌, ◌⊎◌, refl, ◌∙◌, Bool, true, false, not, ◌||◌, ◌&&◌, Option, List, [], ◌∷◌, ◌++◌,
  arith, ℕ_key, ◌==◌, eqb_iff, if◌then◌else◌, inl, inr, Bool-cases, length, length-append,
}
use codesk.Common.Dict.{lookup, modify, on_some, lookup-modify}
use codesk.Wire.Reader.{Bytes}
use codesk.Rooms.{
  DocumentConn, Conns, DocumentRoom, close, try_enqueue, add, remove, is_skip, conns_loop, try_send,
  try_send_or_close, broadcast_sync_update, broadcast_document_best_effort, member, drop_conn,
}

-- The connections of a room are a set.
abbrev pub IsSetOf : List ℕ → Type 0
IsSetOf [] = Unit
IsSetOf (c ∷ cs) = (member c cs ≡ false) × IsSetOf cs

-- Whether the loop of a broadcast calls a connection.
abbrev pub is_called : DocumentRoom → Option ℕ → ℕ → Bool
is_called r skip j = member j r.conns && not (is_skip skip j)

lookup-conns_loop :
    (f : DocumentConn → DocumentConn) (cs : List ℕ) (skip : Option ℕ) (store : Conns) (j : ℕ)
    → IsSetOf cs
    → lookup j (conns_loop f cs skip store)
      ≡ (if member j cs && not (is_skip skip j) then on_some f (lookup j store) else lookup j store)
unfolding conns_loop member
lookup-conns_loop f [] skip store j h = refl
lookup-conns_loop f (c ∷ cs) skip store j (fresh, h) = elim (Bool-cases (c == j)) [
  | inl here ↦
      let e : c ≡ j = (eqb_iff c j).0 here in
      lookup-conns_loop f cs skip store' j h ∙ rw (here, ← e, fresh) (called (is_skip skip c))
  | inr there ↦ lookup-conns_loop f cs skip store' j h ∙ rw (there, kept there (is_skip skip c))
]
  where
    store' : Conns
    store' = if is_skip skip c then store else modify c f store

    called :
        (b : Bool)
        → lookup c (if b then store else modify c f store)
          ≡ (if not b then on_some f (lookup c store) else lookup c store)
    called true = refl
    called false = rw (lookup-modify c c f store, (eqb_iff c c).1 refl)

    kept :
        (c == j) ≡ false
        → (b : Bool) → lookup j (if b then store else modify c f store) ≡ lookup j store
    kept h true = refl
    kept h false = rw (lookup-modify c j f store, h)

-- If the connections of a room are a set, both broadcasts call exactly them, the skipped one
-- excepted, each of them once; every other connection is left as it was.
pub broadcast-called :
    (r : DocumentRoom) (payload : Bytes) (skip : Option ℕ) (store : Conns) (j : ℕ)
    → IsSetOf r.conns
    → (lookup j (broadcast_document_best_effort r payload skip store) ≡ (
        if is_called r skip j then on_some (try_send payload) (lookup j store) else lookup j store))
      × (lookup j (broadcast_sync_update r payload skip store) ≡ (
          if is_called r skip j
          then on_some (try_send_or_close payload) (lookup j store)
          else lookup j store))
unfolding broadcast_document_best_effort broadcast_sync_update
broadcast-called r payload skip store j h = (
  lookup-conns_loop (try_send payload) r.conns skip store j h,
  lookup-conns_loop (try_send_or_close payload) r.conns skip store j h,
)

-- The channel of a connection never holds more than it was made for.
abbrev pub WithinBuffer : DocumentConn → Type 0
WithinBuffer c = length c.queue ≤ c.send_buffer

-- After a sync update is sent to a connection whose channel is within its capacity, the channel
-- still is, and the connection is closed or its channel is the old one with the update at its end.
pub try_send_or_close_complete :
    (payload : Bytes) (c : DocumentConn)
    → WithinBuffer c
    → WithinBuffer (try_send_or_close payload c)
      × (((try_send_or_close payload c).closed ≡ true)
          ⊎ ((try_send_or_close payload c).queue ≡ c.queue ++ payload ∷ []))
unfolding try_enqueue close
try_send_or_close_complete payload c h = ground (arith, length-append c.queue (payload ∷ []))

member-drop_conn :
    (c d : ℕ) (cs : List ℕ) → member d (drop_conn c cs) ≡ (if c == d then false else member d cs)
unfolding member drop_conn
member-drop_conn c d [] = ground arith
member-drop_conn c d (x ∷ cs) = ground (arith, member-drop_conn c d cs)

drop_conn-IsSetOf : (c : ℕ) (cs : List ℕ) → IsSetOf cs → IsSetOf (drop_conn c cs)
unfolding drop_conn
drop_conn-IsSetOf c [] h = tt
drop_conn-IsSetOf c (x ∷ cs) (fresh, h) =
    ground (arith, member-drop_conn c x cs, drop_conn-IsSetOf c cs h)

-- If the connections of a room are a set, `Add` and `Remove` keep them one, and change the
-- membership of the one connection only: it is in the room after the first, and not after the
-- second.
pub add-remove-member :
    (r : DocumentRoom) (c j : ℕ)
    → IsSetOf r.conns
    → IsSetOf (add r c).conns
      × IsSetOf (remove r c).conns
      × (member j (add r c).conns ≡ (c == j) || member j r.conns)
      × (member j (remove r c).conns ≡ not (c == j) && member j r.conns)
unfolding add remove
add-remove-member r c j h = (
  elim (Bool-cases (member c r.conns)) [ inl e ↦ rw e h | inr e ↦ rw e (e, h) ],
  drop_conn-IsSetOf c r.conns h,
  added,
  ground (arith, member-drop_conn c j r.conns),
)
  where
    added : member j (add r c).conns ≡ (c == j) || member j r.conns
    added = elim (Bool-cases (c == j)) [
      | inl e ↦ let p : c ≡ j = (eqb_iff c j).0 e in rw (e, ← p) (there (member c r.conns) refl)
      | inr e ↦ rw e (other e (member c r.conns))
    ]
      where
        there :
            (b : Bool)
            → member c r.conns ≡ b
            → member c (if b then r else record r { conns = c ∷ r.conns }).conns ≡ true
        there true q = q
        there false q = unfold member in ground (arith, eqb_iff c c)

        other :
            (c == j) ≡ false
            → (b : Bool)
            → member j (if b then r else record r { conns = c ∷ r.conns }).conns ≡ member j r.conns
        other q true = refl
        other q false = unfold member in rw q
