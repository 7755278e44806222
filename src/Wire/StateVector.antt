-- ===== src/Wire/StateVector.antt =====
-- internal/ycrdt/state_vector.go: a map from client ids to clocks and its decoder, which has a
-- varuint reader of its own; and the comparison of two vectors in
-- backend/internal/notty/reverse_window.go.
pub mod Decode
pub mod Dominance
use Prim.Native.Nat.{bit_and, bit_or}
use codesk.Common.{
  ℕ, zero, suc, ◌+◌, ◌*◌, ◌%◌, ◌^◌, Bool, true, false, [], ◌∷◌, ltb, eqb, if◌then◌else◌, length,
  not, ℕ_key,
}
use codesk.Common.Dict.{Dict, get_or, insert}
use codesk.Wire.Reader.{
  Bytes, Result, ok, err, ◌>>=◌, ◌>>◌, reject_if, unexpected_eof, varuint_overflow, trailing_bytes,
}

abbrev pub StateVector : Type 0
StateVector = Dict ℕ ℕ

-- A missing client has clock 0, and so has every client of a nil map.
unfoldable pub clock : StateVector → ℕ → ℕ
clock s client = get_or s client 0

-- As in `Wire.VarUint`, except that the end of the input is `io.ErrUnexpectedEOF`.
pub decode_loop : Bytes → ℕ → ℕ → Result (ℕ × Bytes)
decode_loop [] value shift = err unexpected_eof
decode_loop (current ∷ reader) value shift =
    let value' = bit_or value (bit_and current 0x7f * 2 ^ shift % 2 ^ 64) in
    let more = decode_loop reader value' (shift + 7) in
    if eqb (bit_and current 0x80) 0
    then ok (value', reader)
    else if ltb 63 (shift + 7)
    then err varuint_overflow
    else more

unfoldable pub decode_var_uint : Bytes → Result (ℕ × Bytes)
unfolding decode_loop
decode_var_uint reader = decode_loop reader 0 0

-- The loop over `count` entries.
decode_entries : ℕ → Bytes → StateVector → Result (StateVector × Bytes)
decode_entries zero reader vector = ok (vector, reader)
decode_entries (suc count) reader vector = do
  (client, reader') ← decode_var_uint reader
  (clock, reader'') ← decode_var_uint reader'
  decode_entries count reader'' (insert client clock vector)

unfoldable pub decode_state_vector_v1 : Bytes → Result StateVector
unfolding decode_entries
decode_state_vector_v1 bytes = do
  (count, reader) ← decode_var_uint bytes
  (vector, reader') ← decode_entries count reader []
  reject_if (not (eqb (length reader') 0)) trailing_bytes
  ok vector

unfoldable pub reverse_window_state_vector_dominates : StateVector → StateVector → Bool
reverse_window_state_vector_dominates current [] = true
reverse_window_state_vector_dominates current ((client, required_clock) ∷ required) =
    if ltb (clock current client) required_clock
    then false
    else reverse_window_state_vector_dominates current required
