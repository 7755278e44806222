-- ===== src/Wire/VarUint/Decode.antt =====
-- One round of the decoder, and what it does on any input, well formed or not.
use Prim.Native.Nat.{bit_and, bit_or}
use native.Mathlib.Numerals.{towards_suc}
use codesk.Common.{
  ℕ, zero, suc, ◌+◌, ◌*◌, ◌%◌, ◌^◌, ◌≤◌, ◌<◌, ◌≡◌, ◌⊎◌, inl, inr, ap, [], ◌∷◌, ◌++◌, arith, length,
  ltb, eqb, lt→ltb, Bool-cases, true, false, refl, ◌∙◌,
}
use codesk.Common.Bits.{and_low_seven, and_top_bit, bit_or-add, bit_or-lt}
use codesk.Wire.Reader.{Bytes, IsU64, Result, ok, err, eof, varuint_overflow}
use codesk.Wire.VarUint.{decode_loop, decode_var_uint}

-- What the byte `current` adds to a value below bit `shift`; of the tenth byte the upper six bits
-- are cut off.
pub add_group :
    (value current shift : ℕ)
    → value < 2 ^ shift
    → current % 128 * 2 ^ shift < 2 ^ 64
    → bit_or value (bit_and current 0x7f * 2 ^ shift % 2 ^ 64) ≡ value + current % 128 * 2 ^ shift
add_group value current shift h fits =
    rw (and_low_seven, cut) (bit_or-add shift value (current % 128) h)
  where
    cut : current % 128 * 2 ^ shift % 2 ^ 64 ≡ current % 128 * 2 ^ shift
    cut = omega arith

pub shift_seven : (s : ℕ) → 2 ^ (s + 7) ≡ 128 * 2 ^ s
shift_seven s = simp towards_suc (omega arith)

module _ (value shift : ℕ) (below : value < 2 ^ shift) (reader : Bytes) where
  -- A byte below 128 ends the number.
  pub decode_last :
      (w : ℕ)
      → w < 128
      → IsU64 (value + w * 2 ^ shift)
      → decode_loop (w ∷ reader) value shift ≡ ok (value + w * 2 ^ shift, reader)
  unfolding decode_loop
  decode_last w hw fits =
      let group : w % 128 ≡ w = omega arith in
      let top : bit_and w 0x80 ≡ 0 = omega (arith, and_top_bit w) in
      let added = rw group at (add_group value w shift below (rw group (omega arith))) in
      rw (top, added)

  -- A byte with the top bit set goes on to the next group.
  pub decode_inner :
      (g : ℕ)
      → g < 128
      → shift + 7 ≤ 63
      → IsU64 (value + g * 2 ^ shift)
      → decode_loop ((g + 128) ∷ reader) value shift
        ≡ decode_loop reader (value + g * 2 ^ shift) (shift + 7)
  unfolding decode_loop
  decode_inner g hg hs fits =
      let group : (g + 128) % 128 ≡ g = omega arith in
      let top : bit_and (g + 128) 0x80 ≡ 128 = omega (arith, and_top_bit (g + 128)) in
      let added = rw group at (add_group value (g + 128) shift below (rw group (omega arith))) in
      rw (top, added) (ground arith)

-- What the decoder can answer on the input `s`, of which it takes `n` bytes at most.
pub data Decoded (s : Bytes) (n : ℕ) (r : Result (ℕ × Bytes)) : Type 0 where
  number :
      (v : ℕ) (front rest : Bytes)
      → r ≡ ok (v, rest)
      → IsU64 v
      → s ≡ front ++ rest
      → 1 ≤ length front
      → length front ≤ n
      → Decoded s n r
  short : r ≡ err eof → length s < n → Decoded s n r
  too_long : r ≡ err varuint_overflow → n ≤ length s → Decoded s n r

pub Decoded-cons :
    (b : ℕ) (s : Bytes) (n : ℕ) {r q : Result (ℕ × Bytes)}
    → r ≡ q
    → Decoded s n q
    → Decoded (b ∷ s) (suc n) r
Decoded-cons b s n e (number v front rest ok_v fits cut least most) =
    number v (b ∷ front) rest (e ∙ ok_v) fits (ap (λ l. b ∷ l) cut) (omega arith) (omega arith)
Decoded-cons b s n e (short p h) = short (e ∙ p) (omega arith)
Decoded-cons b s n e (too_long p h) = too_long (e ∙ p) (omega arith)

decode_loop_any :
    (s : Bytes) (value n shift : ℕ)
    → IsU64 value
    → shift + 7 * n ≡ 63
    → Decoded s (suc n) (decode_loop s value shift)
unfolding decode_loop
decode_loop_any [] value n shift fits hs = short refl (omega arith)
decode_loop_any (c ∷ s) value n shift fits hs =
    go n hs (Bool-cases (eqb (bit_and c 0x80) 0))
      (λ m. decode_loop_any s value' m (shift + 7) fits')
  where
    value' : ℕ
    value' = bit_or value (bit_and c 0x7f * 2 ^ shift % 2 ^ 64)

    fits' : IsU64 value'
    fits' = bit_or-lt 64 value (bit_and c 0x7f * 2 ^ shift % 2 ^ 64) fits (omega arith)

    go :
        (m : ℕ)
        → shift + 7 * m ≡ 63
        → (eqb (bit_and c 0x80) 0 ≡ true) ⊎ (eqb (bit_and c 0x80) 0 ≡ false)
        → ((k : ℕ) → shift + 7 + 7 * k ≡ 63 → Decoded s (suc k) (decode_loop s value' (shift + 7)))
        → Decoded (c ∷ s) (suc m) (decode_loop (c ∷ s) value shift)
    go m h (inl done) ih = number value' (c ∷ []) s (rw done) fits' refl (omega arith) (omega arith)
    go zero h (inr more) ih =
        too_long (rw (more, lt→ltb 63 (shift + 7) (omega arith))) (omega arith)
    go (suc m) h (inr more) ih =
        let early : ltb 63 (shift + 7) ≡ false = ground arith in
        Decoded-cons c s (suc m) (rw (more, early)) (ih m (omega arith))

-- On every input the decoder ends with one of three answers, and never panics: a uint64, taken from
-- between 1 and 10 bytes at the front, with the rest left in the reader; `io.EOF`, only on an
-- input of fewer than 10 bytes; or an overflow, only on an input of 10 bytes or more.
pub decode_any : (s : Bytes) → Decoded s 10 (decode_var_uint s)
unfolding decode_var_uint
decode_any s = decode_loop_any s 0 9 0 (omega arith) refl

pub decode_var_uint_cut :
    (s : Bytes) {v : ℕ} {rest : Bytes}
    → decode_var_uint s ≡ ok (v, rest)
    → (front : Bytes) × (s ≡ front ++ rest) × IsU64 v × (1 ≤ length front)
decode_var_uint_cut s {v} {rest} h = go (decode_any s)
  where
    go :
        Decoded s 10 (decode_var_uint s)
        → (front : Bytes) × (s ≡ front ++ rest) × IsU64 v × (1 ≤ length front)
    go (number w front tail e fits cut least most) = (front, ground arith, ground arith, least)
    go (short e few) = absurd (cc)
    go (too_long e many) = absurd (cc)
