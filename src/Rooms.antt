-- ===== src/Rooms.antt =====
-- backend/internal/notty/rooms.go: the connections that follow a document, what is broadcast to
-- them, and the awareness states that they share. A connection is known by an id; `Conns` holds the
-- connections of all rooms, which rooms share.
pub mod Awareness
pub mod Broadcast
mod Tests
use Prim.Native.String.{String}
use codesk.Common.{
  ℕ, ◌+◌, ◌≤◌, Bool, true, false, ◌&&◌, ◌||◌, not, Option, none, some, List, [], ◌∷◌, ◌++◌, ltb,
  if◌then◌else◌, length, ℕ_key, String_key, ◌==◌, eqb,
}
use codesk.Common.Dict.{Dict, lookup, insert, delete, has, modify}
use codesk.Wire.Reader.{Bytes}
use codesk.Wire.Awareness.{AwarenessState, int64_lt}

-- `send` is a channel of capacity `send_buffer` with `queue` in it; `done` is closed with `closed`.
pub record DocumentConn : Type 0 where
  pub send_buffer : ℕ
  pub queue : List Bytes
  pub closed : Bool

abbrev pub Conns : Type 0
Conns = Dict ℕ DocumentConn

pub record DocumentRoom : Type 0 where
  pub conns : List ℕ
  pub awareness : Dict ℕ AwarenessState

unfoldable pub new_document_conn : ℕ → DocumentConn
new_document_conn send_buffer = record { send_buffer = send_buffer; queue = []; closed = false }

unfoldable pub close : DocumentConn → DocumentConn
close c = record c { closed = true }

-- `TryEnqueue`: a closed connection refuses, and so does one whose channel is full.
unfoldable pub try_enqueue : DocumentConn → Bytes → DocumentConn × Bool
try_enqueue c payload =
    if c.closed
    then (c, false)
    else if ltb (length c.queue) c.send_buffer
    then (record c { queue = c.queue ++ payload ∷ [] }, true)
    else (c, false)

-- `ForDocument`: the room of a document, made on first use.
unfoldable pub empty_room : DocumentRoom
empty_room = record { conns = []; awareness = [] }

unfoldable pub for_document :
    Dict String DocumentRoom → String → Dict String DocumentRoom × DocumentRoom
unfolding empty_room
for_document rooms document_id = elim (lookup document_id rooms) [
  | some room ↦ (rooms, room)
  | none ↦ (insert document_id empty_room rooms, empty_room)
]

unfoldable pub member : ℕ → List ℕ → Bool
member c [] = false
member c (d ∷ ds) = (d == c) || member c ds

unfoldable pub drop_conn : ℕ → List ℕ → List ℕ
drop_conn c [] = []
drop_conn c (d ∷ ds) = if d == c then drop_conn c ds else d ∷ drop_conn c ds

-- A map with empty values is a set; a second `Add` changes nothing.
unfoldable pub add : DocumentRoom → ℕ → DocumentRoom
unfolding member
add r conn = if member conn r.conns then r else record r { conns = conn ∷ r.conns }

unfoldable pub remove : DocumentRoom → ℕ → DocumentRoom
unfolding drop_conn
remove r conn = record r { conns = drop_conn conn r.conns }

abbrev pub is_skip : Option ℕ → ℕ → Bool
is_skip none conn = false
is_skip (some s) conn = conn == s

-- `for conn := range r.conns { if conn == skip { continue }; … }`, with a call on each connection.
conns_loop : (DocumentConn → DocumentConn) → List ℕ → Option ℕ → Conns → Conns
conns_loop f [] skip store = store
conns_loop f (c ∷ cs) skip store =
    conns_loop f cs skip (if is_skip skip c then store else modify c f store)

-- `conn.trySendDocument(documentID, payload)`; a `DocumentConn` does not use the document id.
abbrev pub try_send : Bytes → DocumentConn → DocumentConn
try_send payload c = (try_enqueue c payload).0

-- The same, and `conn.close()` if it refuses.
abbrev pub try_send_or_close : Bytes → DocumentConn → DocumentConn
try_send_or_close payload c =
    let (c', sent) = try_enqueue c payload in if sent then c' else close c'

unfoldable pub broadcast_document_best_effort : DocumentRoom → Bytes → Option ℕ → Conns → Conns
unfolding conns_loop
broadcast_document_best_effort r payload skip store =
    conns_loop (try_send payload) r.conns skip store

unfoldable pub broadcast_sync_update : DocumentRoom → Bytes → Option ℕ → Conns → Conns
unfolding conns_loop
broadcast_sync_update r payload skip store =
    conns_loop (try_send_or_close payload) r.conns skip store

same_bytes : Bytes → Bytes → Bool
same_bytes [] [] = true
same_bytes (a ∷ as') (b ∷ bs) = eqb a b && same_bytes as' bs
same_bytes _ _ = false

-- `string(state) == "null"`.
unfoldable pub is_null : Bytes → Bool
unfolding same_bytes
is_null state = same_bytes state (b'n' ∷ b'u' ∷ b'l' ∷ b'l' ∷ [])

-- Whether `ApplyAwareness` takes `next` over the current state of its client.
abbrev pub accepts : Option AwarenessState → AwarenessState → Bool
accepts none next = true
accepts (some current) next =
    int64_lt current.clock next.clock || (eqb current.clock next.clock && is_null next.state)

-- One round of the loop of `ApplyAwareness`.
apply_state : ℕ → AwarenessState → Dict ℕ AwarenessState → Dict ℕ AwarenessState
apply_state client_id next awareness =
    if is_null next.state then delete client_id awareness else insert client_id next awareness

apply_loop : Dict ℕ AwarenessState → Dict ℕ AwarenessState → List ℕ → Dict ℕ AwarenessState × List ℕ
apply_loop [] awareness changed = (awareness, changed)
apply_loop ((client_id, next) ∷ update) awareness changed =
    let take = accepts (lookup client_id awareness) next in
    apply_loop update (if take then apply_state client_id next awareness else awareness)
      (if take then changed ++ client_id ∷ [] else changed)

-- The room after the update, and the clients that it changed.
unfoldable pub apply_awareness : DocumentRoom → Dict ℕ AwarenessState → DocumentRoom × List ℕ
unfolding apply_loop apply_state
apply_awareness r update =
    let (awareness, changed) = apply_loop update r.awareness [] in
    (record r { awareness = awareness }, changed)

unfoldable pub remove_awareness : DocumentRoom → ℕ → DocumentRoom × Bool
remove_awareness r client_id =
    if has r.awareness client_id
    then (record r { awareness = delete client_id r.awareness }, true)
    else (r, false)
