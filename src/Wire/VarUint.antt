-- ===== src/Wire/VarUint.antt =====
-- `encodeVarUint` and `decodeVarUint` of internal/yproto/yproto.go: a uint64 in groups of seven
-- bits, lowest first. `value >>= 7` is a division, `x << shift` is cut to 64 bits.
pub mod Encode
pub mod RoundTrip
pub mod Cut
pub mod Decode
use Prim.Native.Nat.{bit_and, bit_or}
use mathlib.Core.Logic.{dite}
use mathlib.Core.WellFounded.{Acc, WellFounded}
use native.Mathlib.Decide.{dec_lt}
use codesk.Common.{
  ℕ, zero, suc, ◌+◌, ◌*◌, ◌/◌, ◌%◌, ◌^◌, ◌≤◌, ◌<◌, [], ◌∷◌, ◌++◌, arith, ltb, eqb, if◌then◌else◌,
}
use codesk.Wire.Reader.{Bytes, Result, ok, err, eof, varuint_overflow}

acc_below : (k n : ℕ) → n < k → Acc ◌<◌ n
acc_below zero n h = absurd (omega arith)
acc_below (suc k) n h = Acc.intro n λ m lt. acc_below k m (omega arith)

lt_wf : WellFounded ◌<◌
unfolding acc_below
lt_wf = record { apply = λ n. acc_below (suc n) n (omega arith) }

shift_lt : (value : ℕ) → 0 < value / 2 ^ 7 → value / 2 ^ 7 < value
shift_lt value h = omega arith

-- The `for` loop: it goes on as long as the shifted value is not 0.
encode_loop : (value : ℕ) → Acc ◌<◌ value → Bytes → Bytes
encode_loop value (Acc.intro _ smaller) buffer =
    let next = bit_and value 0x7f % 256 in
    dite (dec_lt 0 (value / 2 ^ 7))
      (λ more.
        encode_loop (value / 2 ^ 7) (smaller _ (shift_lt value more))
          (buffer ++ bit_or next 0x80 ∷ []))
      (λ _. buffer ++ next ∷ [])

unfoldable pub encode_var_uint : ℕ → Bytes
unfolding encode_loop lt_wf dec_lt shift_lt
encode_var_uint value = encode_loop value (lt_wf.apply value) []

-- The `for` loop over the reader. `shift` is at most 63 at each shift, so it cannot wrap.
unfoldable pub decode_loop : Bytes → ℕ → ℕ → Result (ℕ × Bytes)
decode_loop [] value shift = err eof
decode_loop (current ∷ reader) value shift =
    let value' = bit_or value (bit_and current 0x7f * 2 ^ shift % 2 ^ 64) in
    let more = decode_loop reader value' (shift + 7) in
    if eqb (bit_and current 0x80) 0
    then ok (value', reader)
    else if ltb 63 (shift + 7)
    then err varuint_overflow
    else more

unfoldable pub decode_var_uint : Bytes → Result (ℕ × Bytes)
unfolding decode_loop
decode_var_uint reader = decode_loop reader 0 0
