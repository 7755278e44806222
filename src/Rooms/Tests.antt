-- ===== src/Rooms/Tests.antt =====
-- A room with two connections, and the awareness updates it takes.
use codesk.Common.{
  ℕ, ◌≡◌, ◌⊎◌, refl, true, false, none, some, [], ◌∷◌, ◌++◌, arith, ℕ_key, if◌then◌else◌,
}
use codesk.Common.Dict.{Dict, lookup, delete, insert, on_some, IsMap}
use codesk.Wire.Awareness.{AwarenessState}
use codesk.Rooms.{
  DocumentConn, Conns, DocumentRoom, member, try_send, try_send_or_close, broadcast_sync_update,
  broadcast_document_best_effort, apply_awareness, is_null,
}
use codesk.Rooms.Awareness.{Merged, apply_awareness-Merged}
use codesk.Rooms.Broadcast.{is_called, broadcast-called, WithinBuffer, try_send_or_close_complete}

abbrev at_clock : ℕ → AwarenessState
at_clock n = record { clock = n; state = 0x7b ∷ 0x7d ∷ [] }

abbrev gone_at : ℕ → AwarenessState
gone_at n = record { clock = n; state = b'n' ∷ b'u' ∷ b'l' ∷ b'l' ∷ [] }

abbrev room : DocumentRoom
room = record { conns = 1 ∷ 2 ∷ []; awareness = (7, at_clock 4) ∷ (8, at_clock 2) ∷ [] }

abbrev update : Dict ℕ AwarenessState
update = (8, gone_at 2) ∷ (7, at_clock 5) ∷ []

update-IsMap : IsMap update
unfolding lookup
update-IsMap = (refl, (refl, tt))

client_8_leaves : lookup 8 (apply_awareness room update).0.awareness ≡ none
unfolding apply_awareness lookup is_null delete insert
client_8_leaves = refl

apply_awareness-Merged_example :
    Merged
      (lookup 8 room.awareness)
      (lookup 8 update)
      (lookup 8 (apply_awareness room update).0.awareness)
apply_awareness-Merged_example = apply_awareness-Merged room update 8 update-IsMap

client_7_before : lookup 7 room.awareness ≡ some (at_clock 4)
unfolding lookup
client_7_before = refl

client_7_moves : lookup 7 (apply_awareness room update).0.awareness ≡ some (at_clock 5)
unfolding apply_awareness lookup is_null delete insert
client_7_moves = refl

abbrev full : DocumentConn
full = record { send_buffer = 1; queue = (9 ∷ []) ∷ []; closed = false }

abbrev empty : DocumentConn
empty = record { send_buffer = 1; queue = []; closed = false }

abbrev store : Conns
store = (1, full) ∷ (2, empty) ∷ []

broadcast-called_example :
    (lookup 1 (broadcast_document_best_effort room (5 ∷ []) (some 2) store) ≡ (
      if is_called room (some 2) 1
      then on_some (try_send (5 ∷ [])) (lookup 1 store)
      else lookup 1 store))
    × (lookup 1 (broadcast_sync_update room (5 ∷ []) (some 2) store) ≡ (
        if is_called room (some 2) 1
        then on_some (try_send_or_close (5 ∷ [])) (lookup 1 store)
        else lookup 1 store))
broadcast-called_example =
    broadcast-called room (5 ∷ []) (some 2) store 1 (unfold member in (refl, (refl, tt)))

try_send_or_close_complete_example :
    WithinBuffer (try_send_or_close (5 ∷ []) full)
    × (((try_send_or_close (5 ∷ []) full).closed ≡ true)
        ⊎ ((try_send_or_close (5 ∷ []) full).queue ≡ full.queue ++ (5 ∷ []) ∷ []))
try_send_or_close_complete_example = try_send_or_close_complete (5 ∷ []) full (omega arith)

abbrev second : ℕ
second = 2

abbrev third : ℕ
third = 3
