-- ===== src/Wire/VarUint/Encode.antt =====
-- What `encodeVarUint` writes, in plain arithmetic.
use Prim.Native.Nat.{bit_and, bit_or}
use mathlib.Core.WellFounded.{Acc}
use codesk.Common.{
  ℕ, zero, suc, ◌+◌, ◌/◌, ◌%◌, ◌^◌, ◌≤◌, ◌<◌, ◌≡◌, [], ◌∷◌, ◌++◌, append_assoc, arith, ltb,
  if◌then◌else◌, length, All,
}
use codesk.Common.Bits.{and_low_seven, bit_or-add}
use codesk.Wire.Reader.{Bytes, IsByte, IsU64}
use codesk.Wire.VarUint.{lt_wf, encode_loop, encode_var_uint}

-- The groups of a value below 128 ^ (k + 1).
unfoldable pub groups : ℕ → ℕ → Bytes
groups zero v = v ∷ []
groups (suc k) v = if ltb v 128 then v ∷ [] else (v % 128 + 128) ∷ groups k (v / 128)

last_group : (v : ℕ) → v < 128 → bit_and v 0x7f % 256 ≡ v
last_group v h = omega (arith, and_low_seven v)

marked_group : (v : ℕ) → bit_or (bit_and v 0x7f % 256) 0x80 ≡ v % 128 + 128
marked_group v =
    let group : bit_and v 0x7f % 256 ≡ v % 128 = omega (arith, and_low_seven v) in
    rw group (bit_or-add 7 (v % 128) 1 (omega arith))

encode_loop-groups :
    (k v : ℕ) (w : Acc ◌<◌ v) (buffer : Bytes)
    → v < 128 ^ suc k
    → encode_loop v w buffer ≡ buffer ++ groups k v
unfolding encode_loop groups
encode_loop-groups zero v (Acc.intro _ smaller) buffer h = ground (arith, last_group v)
encode_loop-groups (suc k) v (Acc.intro _ smaller) buffer h =
    let byte : Bytes = (v % 128 + 128) ∷ [] in
    grind (
      arith,
      last_group v,
      marked_group v,
      λ (w : Acc ◌<◌ (v / 128)). encode_loop-groups k (v / 128) w (buffer ++ byte) (omega arith),
      append_assoc buffer byte (groups k (v / 128)),
    )

pub encode_var_uint-groups : (v : ℕ) → IsU64 v → encode_var_uint v ≡ groups 9 v
unfolding encode_var_uint
encode_var_uint-groups v h = encode_loop-groups 9 v (lt_wf.apply v) [] (omega arith)

groups-IsByte : (k v : ℕ) → v < 128 ^ suc k → All IsByte (groups k v)
unfolding groups
groups-IsByte zero v h = omega arith
groups-IsByte (suc k) v h = ground (arith, groups-IsByte k (v / 128) (omega arith))

length-groups : (k v : ℕ) → (1 ≤ length (groups k v)) × (length (groups k v) ≤ k + 1)
unfolding groups
length-groups zero v = omega arith
length-groups (suc k) v = ground (arith, length-groups k (v / 128))

-- On every uint64 the encoder writes between 1 and 10 elements, and each is a byte.
pub encode_shape :
    (v : ℕ)
    → IsU64 v
    → All IsByte (encode_var_uint v)
      × (1 ≤ length (encode_var_uint v))
      × (length (encode_var_uint v) ≤ 10)
encode_shape v h =
    let (least, most) = length-groups 9 v in
    rw (encode_var_uint-groups v h) (groups-IsByte 9 v (omega arith), least, most)
