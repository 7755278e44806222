-- ===== src/Wire/VarUint/RoundTrip.antt =====
-- Decoding what was encoded.
use native.Mathlib.Nat.{div-add-mod}
use codesk.Common.{ℕ, zero, suc, ◌+◌, ◌*◌, ◌/◌, ◌%◌, ◌^◌, ◌≤◌, ◌<◌, ◌≡◌, ap, ◌++◌, arith}
use codesk.Wire.Reader.{Bytes, IsU64, ok}
use codesk.Wire.VarUint.{encode_var_uint, decode_loop, decode_var_uint}
use codesk.Wire.VarUint.Encode.{groups, encode_var_uint-groups}
use codesk.Wire.VarUint.Decode.{shift_seven, decode_last, decode_inner}

-- The lowest group of `w` and the rest, both shifted by `s`.
split_group : (w s : ℕ) → w * 2 ^ s ≡ w % 128 * 2 ^ s + w / 128 * 2 ^ (s + 7)
split_group w s =
    let whole = ap (λ (t : ℕ). t * 2 ^ s) (div-add-mod w 128) in
    omega (arith, whole, ap (λ (t : ℕ). w / 128 * t) (shift_seven s))

pub low_fits : (value g s : ℕ) → value < 2 ^ s → g < 128 → value + g * 2 ^ s < 2 ^ (s + 7)
low_fits value g s h hg = rw (shift_seven s) (grind arith)

-- `w` is what is still to be read, and it counts from bit `shift` on.
decode_loop-groups :
    (k w value shift : ℕ) (rest : Bytes)
    → w < 128 ^ suc k
    → shift + 7 * k ≤ 63
    → value < 2 ^ shift
    → IsU64 (value + w * 2 ^ shift)
    → decode_loop (groups k w ++ rest) value shift ≡ ok (value + w * 2 ^ shift, rest)
unfolding groups
decode_loop-groups zero w value shift rest hw hs below fits =
    decode_last value shift below rest w hw fits
decode_loop-groups (suc k) w value shift rest hw hs below fits = ground (
  arith,
  split_group w shift,
  low_fits value (w % 128) shift below (omega arith),
  decode_last value shift below rest w,
  decode_inner value shift below (groups k (w / 128) ++ rest) (w % 128),
  decode_loop-groups k (w / 128) (value + w % 128 * 2 ^ shift) (shift + 7) rest (omega arith),
)

-- Decoding the encoding of a uint64 gives it back, and leaves what follows it in the reader.
pub decode-encode :
    (v : ℕ) (rest : Bytes) → IsU64 v → decode_var_uint (encode_var_uint v ++ rest) ≡ ok (v, rest)
unfolding decode_var_uint
decode-encode v rest h =
    rw (encode_var_uint-groups v h)
      (ground (arith, decode_loop-groups 9 v 0 0 rest (omega arith) (omega arith) (omega arith)))
