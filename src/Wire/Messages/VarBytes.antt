-- ===== src/Wire/Messages/VarBytes.antt =====
-- Length-prefixed bytes: round trip, what an accepted prefix means, and when the decoder panics.
use codesk.Common.{
  ℕ, ◌≤◌, ◌<◌, ◌≡◌, refl, ap, ◌∙◌, inl, inr, [], ◌∷◌, ◌++◌, arith, append_assoc, length,
  length-append, take-append, drop-append, take-append-drop, length-take, Bool-cases, ltb, lt→ltb,
}
use codesk.Wire.Reader.{Bytes, IsU64, ok, panic, read_full}
use codesk.Wire.VarUint.{encode_var_uint, decode_var_uint}
use codesk.Wire.VarUint.Decode.{Decoded, number, short, too_long, decode_any}
use codesk.Wire.VarUint.RoundTrip.{decode-encode}
use codesk.Wire.Messages.{encode_var_bytes, decode_var_bytes}

pub read_full-append : (b rest : Bytes) → read_full (length b) (b ++ rest) ≡ ok (b, rest)
unfolding read_full
read_full-append [] rest = refl
read_full-append (x ∷ b) rest =
    rw (take-append (x ∷ b) rest, drop-append (x ∷ b) rest)
      (ground (arith, length-append (x ∷ b) rest))

pub read_full_cut :
    (n : ℕ) (s b rest : Bytes) → read_full n s ≡ ok (b, rest) → (s ≡ b ++ rest) × (length b ≡ n)
unfolding read_full
read_full_cut n s b rest h = ground (arith, take-append-drop n s, length-take n s)

pub decode_var_bytes-encode :
    (max_alloc : ℕ) (b rest : Bytes)
    → IsU64 max_alloc
    → length b ≤ max_alloc
    → decode_var_bytes max_alloc (encode_var_bytes b ++ rest) ≡ ok (b, rest)
unfolding decode_var_bytes encode_var_bytes
decode_var_bytes-encode max_alloc b rest hm h =
    rw (append_assoc, decode-encode (length b) (b ++ rest) (omega arith))
      (ground (arith, read_full-append b rest))

-- An accepted length and the bytes behind it: nothing is skipped, and nothing is left out.
pub decode_var_bytes_cut :
    (max_alloc : ℕ) (s b rest : Bytes)
    → decode_var_bytes max_alloc s ≡ ok (b, rest)
    → (front : Bytes) × (s ≡ front ++ (b ++ rest))
      × (length b ≤ max_alloc)
      × (decode_var_uint s ≡ ok (length b, b ++ rest))
unfolding decode_var_bytes
decode_var_bytes_cut max_alloc s b rest h = go (decode_any s) h
  where
    go :
        Decoded s 10 (decode_var_uint s)
        → decode_var_bytes max_alloc s ≡ ok (b, rest)
        → (front : Bytes) × (s ≡ front ++ (b ++ rest))
          × (length b ≤ max_alloc)
          × (decode_var_uint s ≡ ok (length b, b ++ rest))
    go (number v front tail e fits cut least most) q = elim (Bool-cases (ltb max_alloc v)) [
      | inl long ↦ absurd (cc (rw (e, long) at q))
      | inr short_enough ↦
          let p : read_full v tail ≡ ok (b, rest) = rw (e, short_enough) at q in
          let (tail_eq, length_eq) = read_full_cut v tail b rest p in
          (front, cut ∙ ap (λ t. front ++ t) tail_eq, ground arith, cc)
    ]
    go (short e few) q = absurd (cc (rw e at q))
    go (too_long e many) q = absurd (cc (rw e at q))

-- A declared length above the largest slice panics, whatever bytes follow.
pub decode_var_bytes_oversized :
    (max_alloc n : ℕ) (rest : Bytes)
    → max_alloc < n
    → IsU64 n
    → decode_var_bytes max_alloc (encode_var_uint n ++ rest) ≡ panic
unfolding decode_var_bytes
decode_var_bytes_oversized max_alloc n rest h fits =
    rw (decode-encode n rest fits, lt→ltb max_alloc n h)
