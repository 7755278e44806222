-- ===== src/Wire/Awareness.antt =====
-- Awareness updates of internal/yproto/yproto.go. A clock is an int64 and travels as a uint64 with
-- the same 64 bits; it is kept here as those bits.
pub mod RoundTrip
use codesk.Common.{ℕ, zero, suc, ◌+◌, ◌%◌, ◌^◌, Bool, List, [], ◌∷◌, ◌++◌, ltb, length, ℕ_key}
use codesk.Common.Dict.{Dict, get_or, insert}
use codesk.Wire.Reader.{Bytes, Result, ok, ◌>>=◌}
use codesk.Wire.VarUint.{encode_var_uint, decode_var_uint}
use codesk.Wire.Messages.{message_awareness, encode_var_string, decode_var_string}

pub record AwarenessState : Type 0 where
  pub clock : ℕ
  pub state : Bytes

-- `a < b` of the int64s with the bits `a` and `b`.
abbrev pub int64_lt : ℕ → ℕ → Bool
int64_lt a b = ltb ((a + 2 ^ 63) % 2 ^ 64) ((b + 2 ^ 63) % 2 ^ 64)

-- The zero value, which `states[clientID]` is for a missing client.
abbrev pub no_state : AwarenessState
no_state = record { clock = 0; state = [] }

-- The loop over `clients`.
append_states : Dict ℕ AwarenessState → List ℕ → Bytes → Bytes
append_states states [] message = message
append_states states (client_id ∷ clients) message =
    let state = get_or states client_id no_state in
    append_states states clients (
      ((message ++ encode_var_uint client_id) ++ encode_var_uint state.clock)
      ++ encode_var_string state.state)

unfoldable pub build_awareness_update : Dict ℕ AwarenessState → List ℕ → Bytes
unfolding append_states
build_awareness_update states clients =
    append_states states clients
      (encode_var_uint message_awareness ++ encode_var_uint (length clients))

module _ (max_alloc : ℕ) where
  -- The loop over `count` entries.
  decode_states : ℕ → Bytes → Dict ℕ AwarenessState → Result (Dict ℕ AwarenessState × Bytes)
  decode_states zero reader states = ok (states, reader)
  decode_states (suc count) reader states = do
    (client_id, reader1) ← decode_var_uint reader
    (clock, reader2) ← decode_var_uint reader1
    (state_text, reader3) ← decode_var_string max_alloc reader2
    decode_states count reader3
        (insert client_id (record { clock = clock; state = state_text }) states)

  -- The map, and what the reader still holds.
  unfoldable pub decode_awareness_update : Bytes → Result (Dict ℕ AwarenessState × Bytes)
  unfolding decode_states
  decode_awareness_update reader = do
    (count, reader') ← decode_var_uint reader
    decode_states count reader' []
