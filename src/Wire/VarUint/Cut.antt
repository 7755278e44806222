-- ===== src/Wire/VarUint/Cut.antt =====
-- A number of ten groups, more than the uint64 of `decodeVarUint` holds.
use Prim.Native.Nat.{bit_and}
use codesk.Common.{
  ℕ, suc, ◌+◌, ◌*◌, ◌%◌, ◌^◌, ◌<◌, ◌≡◌, ◌∙◌, ap, List, [], ◌∷◌, ◌++◌, arith, length, All,
}
use codesk.Common.Bits.{and_low_seven, and_top_bit, bit_or-add}
use codesk.Wire.Reader.{Bytes, ok}
use codesk.Wire.VarUint.{decode_loop, decode_var_uint}
use codesk.Wire.VarUint.Decode.{decode_inner, shift_seven}
use codesk.Wire.VarUint.RoundTrip.{low_fits}

-- The number that groups of seven bits stand for, the lowest group first.
abbrev pub groups_value : List ℕ → ℕ
groups_value [] = 0
groups_value (g ∷ gs) = g + 128 * groups_value gs

-- The bytes of groups that ask for another one.
abbrev pub continued : List ℕ → Bytes
continued [] = []
continued (g ∷ gs) = (g + 128) ∷ continued gs

abbrev pub IsGroup : ℕ → Type 0
IsGroup g = g < 128

-- The number of groups from a bit on.
shifted : (g v s : ℕ) → (g + 128 * v) * 2 ^ s ≡ g * 2 ^ s + v * 2 ^ (s + 7)
shifted g v s = grind (arith, ap (λ (t : ℕ). v * t) (shift_seven s))

value-append :
    (gs : List ℕ) (c s : ℕ)
    → groups_value (gs ++ c ∷ []) * 2 ^ s ≡ groups_value gs * 2 ^ s + c * 2 ^ (s + 7 * length gs)
value-append [] c s = let e : s + 7 * 0 ≡ s = omega arith in rw e (omega arith)
value-append (g ∷ gs) c s =
    let e : s + 7 * suc (length gs) ≡ s + 7 + 7 * length gs = omega arith in
    rw e (
      omega (
        arith,
        shifted g (groups_value (gs ++ c ∷ [])) s,
        shifted g (groups_value gs) s,
        value-append gs c (s + 7),
      ))

-- The decoder on groups that ask for another one, up to bit 63.
open_groups :
    (gs : List ℕ) (value shift : ℕ) (reader : Bytes)
    → All IsGroup gs
    → shift + 7 * length gs ≡ 63
    → value < 2 ^ shift
    → (decode_loop (continued gs ++ reader) value shift
        ≡ decode_loop reader (value + groups_value gs * 2 ^ shift) 63)
      × (value + groups_value gs * 2 ^ shift < 2 ^ 63)
open_groups [] value shift reader h l v =
    let e : shift ≡ 63 = omega arith in
    let whole : value ≡ value + groups_value [] * 2 ^ shift = omega arith in
    let below : value < 2 ^ 63 = rw e at v in
    (λ i. decode_loop reader (whole i) (e i), omega (arith, below, whole))
open_groups (g ∷ gs) value shift reader (first, h) l v =
    let next = value + g * 2 ^ shift in
    let fits = low_fits value g shift v first in
    let rest = open_groups gs next (shift + 7) reader h (omega arith) fits in
    let sum : next + groups_value gs * 2 ^ (shift + 7) ≡ value + groups_value (g ∷ gs) * 2 ^ shift =
      omega (arith, shifted g (groups_value gs) shift) in
    (
      decode_inner value shift v (continued gs ++ reader) g first (omega arith)
            (omega (arith, rest.1))
          ∙ rest.0
          ∙ ap (λ (t : ℕ). decode_loop reader t 63) sum,
      omega (arith, rest.1, sum),
    )

last_group :
    (value c : ℕ) (rest : Bytes)
    → value < 2 ^ 63
    → c < 128
    → decode_loop (c ∷ rest) value 63 ≡ ok (value + c % 2 * 2 ^ 63, rest)
unfolding decode_loop
last_group value c rest v h =
    let top : bit_and c 0x80 ≡ 0 = omega (arith, and_top_bit c) in
    let kept : bit_and c 0x7f * 2 ^ 63 % 2 ^ 64 ≡ c % 2 * 2 ^ 63 = omega (arith, and_low_seven c) in
    rw (top, kept, bit_or-add 63 value (c % 2) v)

-- A number of ten groups of seven bits is decoded to its remainder modulo 2 ^ 64, whatever its
-- groups are: bits 1 to 6 of the tenth are dropped, and no overflow is reported.
pub decode-ten_groups :
    (gs : List ℕ) (c : ℕ) (rest : Bytes)
    → length gs ≡ 9
    → All IsGroup gs
    → c < 128
    → decode_var_uint (continued gs ++ c ∷ rest) ≡ ok (groups_value (gs ++ c ∷ []) % 2 ^ 64, rest)
unfolding decode_var_uint
decode-ten_groups gs c rest l h hc =
    let (steps, below) = open_groups gs 0 0 (c ∷ rest) h (omega arith) (omega arith) in
    let e : 0 + 7 * length gs ≡ 63 = omega arith in
    let whole = rw e at (value-append gs c 0) in
    let cut : 0 + groups_value gs * 2 ^ 0 + c % 2 * 2 ^ 63 ≡ groups_value (gs ++ c ∷ []) % 2 ^ 64 =
      omega arith in
    steps ∙ last_group _ c rest below hc ∙ ap (λ (t : ℕ). ok (t, rest)) cut
