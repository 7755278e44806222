-- ===== src/Wire/Awareness/RoundTrip.antt =====
-- An awareness update is read back as the states of the clients that it names.
use codesk.Common.{
  ℕ, ◌≤◌, ◌≡◌, refl, ◌∙◌, sym, none, some, List, [], ◌∷◌, ◌++◌, arith, append_assoc, append-nil,
  length, All, ℕ_key, eqb_iff, if◌then◌else◌,
}
use codesk.Common.Dict.{Dict, lookup, insert, get_or, contains, lookup-insert}
use codesk.Wire.Reader.{Bytes, IsU64, Result, ok, ◌>>=◌}
use codesk.Wire.VarUint.{encode_var_uint}
use codesk.Wire.VarUint.RoundTrip.{decode-encode}
use codesk.Wire.Messages.{
  message_awareness, encode_var_string, decode_var_string, decode_protocol_message,
}
use codesk.Wire.Messages.VarBytes.{decode_var_bytes-encode}
use codesk.Wire.Awareness.{
  AwarenessState, no_state, append_states, build_awareness_update, decode_states,
  decode_awareness_update,
}

abbrev state_of : Dict ℕ AwarenessState → ℕ → AwarenessState
state_of states client = get_or states client no_state

-- What the loop of the encoder appends.
wire_states : Dict ℕ AwarenessState → List ℕ → Bytes
wire_states states [] = []
wire_states states (c ∷ clients) =
    encode_var_uint c
    ++ (encode_var_uint (state_of states c).clock
        ++ (encode_var_string (state_of states c).state ++ wire_states states clients))

append_states-wire_states :
    (states : Dict ℕ AwarenessState) (clients : List ℕ) (message : Bytes)
    → append_states states clients message ≡ message ++ wire_states states clients
unfolding append_states wire_states
append_states-wire_states states [] message = sym (append-nil message)
append_states-wire_states states (c ∷ clients) message =
    simp (append_states-wire_states states clients, append_assoc)

-- The writes of the decoder's loop.
received : Dict ℕ AwarenessState → List ℕ → Dict ℕ AwarenessState → Dict ℕ AwarenessState
received states [] m = m
received states (c ∷ clients) m = received states clients (insert c (state_of states c) m)

lookup-received :
    (states : Dict ℕ AwarenessState) (clients : List ℕ) (m : Dict ℕ AwarenessState) (j : ℕ)
    → lookup j (received states clients m)
      ≡ (if contains j clients then some (state_of states j) else lookup j m)
unfolding received contains
lookup-received states [] m j = refl
lookup-received states (c ∷ clients) m j = ground (
  arith,
  eqb_iff c j,
  lookup-insert c j (state_of states c) m,
  lookup-received states clients (insert c (state_of states c) m) j,
)

-- What the wire can carry of one client: its id and clock are uint64s, and its state fits a slice.
abbrev pub Fits : ℕ → Dict ℕ AwarenessState → ℕ → Type 0
Fits max_alloc states c =
    IsU64 c × IsU64 (state_of states c).clock × (length (state_of states c).state ≤ max_alloc)

module _ (max_alloc : ℕ) (hm : IsU64 max_alloc) (states : Dict ℕ AwarenessState) where
  decode_states-wire_states :
      (clients : List ℕ) (m : Dict ℕ AwarenessState)
      → All (Fits max_alloc states) clients
      → decode_states max_alloc (length clients) (wire_states states clients) m
        ≡ ok (received states clients m, [])
  unfolding decode_states wire_states received decode_var_string encode_var_string
  decode_states-wire_states [] m h = refl
  decode_states-wire_states (c ∷ clients) m ((hc, hk, hs), h) =
      rw
        (
          decode-encode c _ hc,
          decode-encode (state_of states c).clock _ hk,
          decode_var_bytes-encode max_alloc (state_of states c).state (wire_states states clients)
              hm hs,
        )
        (decode_states-wire_states clients (insert c (state_of states c) m) h)

-- How a peer reads an awareness message: the protocol type, then the update behind it.
abbrev pub read_awareness : ℕ → Bytes → Result (ℕ × Dict ℕ AwarenessState × Bytes)
read_awareness max_alloc message = do
  (kind, reader) ← decode_protocol_message message
  (states, rest) ← decode_awareness_update max_alloc reader
  ok (kind, states, rest)

-- If the ids and clocks are uint64s and every state fits a slice, the update built for `clients`
-- (fewer than 2 ^ 64 of them) is read back, to its last byte, as a map that holds for each
-- client of the list its state in `states` (the zero state if it has none there), and nothing for
-- any other client.
pub read_awareness-build :
    (max_alloc : ℕ) (states : Dict ℕ AwarenessState) (clients : List ℕ)
    → IsU64 max_alloc
    → IsU64 (length clients)
    → All (Fits max_alloc states) clients
    → (m : Dict ℕ AwarenessState) × (read_awareness max_alloc
          (build_awareness_update states clients)
        ≡ ok (message_awareness, m, []))
      × ((j : ℕ)
          → lookup j m ≡ (if contains j clients then some (get_or states j no_state) else none))
unfolding decode_protocol_message decode_awareness_update build_awareness_update
read_awareness-build max_alloc states clients hm few fits = (
  received states clients [],
  rw (
    append_states-wire_states states clients,
    append_assoc,
    decode-encode message_awareness (encode_var_uint (length clients) ++ wire_states states clients)
        (omega arith),
    decode-encode (length clients) (wire_states states clients) few,
    decode_states-wire_states max_alloc hm states clients [] fits,
  ),
  λ j. lookup-received states clients [] j ∙ unfold lookup in refl,
)
