-- ===== src/Wire/StateVector/Decode.antt =====
-- The varuint reader of ycrdt against the one of yproto, and the decoding of a state vector.
use Prim.Native.Nat.{bit_and, bit_or}
use codesk.Common.{
  ℕ, zero, suc, ◌+◌, ◌*◌, ◌%◌, ◌^◌, ◌≡◌, refl, [], ◌∷◌, ◌++◌, arith, append_assoc, append-nil,
  length, All, ℕ_key,
}
use codesk.Common.Dict.{insert, insert_all, IsMap, insert-IsMap}
use codesk.Wire.Reader.{
  Bytes, IsU64, Result, ok, err, panic, >>=-ok, eof, unexpected_eof, trailing_bytes,
}
use codesk.Wire.VarUint
use codesk.Wire.VarUint.{encode_var_uint}
use codesk.Wire.VarUint.RoundTrip.{decode-encode}
use codesk.Wire.StateVector.{
  StateVector, decode_loop, decode_var_uint, decode_entries, decode_state_vector_v1,
}

-- How ycrdt reports an error of the reader.
abbrev pub as_unexpected {ℓ} : {A : Type ℓ} → Result A → Result A
as_unexpected (ok a) = ok a
as_unexpected (err eof) = err unexpected_eof
as_unexpected (err e) = err e
as_unexpected panic = panic

decode_loop-as_unexpected :
    (s : Bytes) (value shift : ℕ)
    → decode_loop s value shift ≡ as_unexpected (VarUint.decode_loop s value shift)
unfolding decode_loop VarUint.decode_loop
decode_loop-as_unexpected [] value shift = refl
decode_loop-as_unexpected (c ∷ s) value shift = ground (
  arith,
  decode_loop-as_unexpected s (bit_or value (bit_and c 0x7f * 2 ^ shift % 2 ^ 64)) (shift + 7),
)

-- On every input the two varuint readers of the repository give the same number and leave the same
-- rest, and fail on the same inputs; they differ only in how the end of the input is named.
pub decode_var_uint-as_unexpected :
    (s : Bytes) → decode_var_uint s ≡ as_unexpected (VarUint.decode_var_uint s)
unfolding decode_var_uint VarUint.decode_var_uint
decode_var_uint-as_unexpected s = decode_loop-as_unexpected s 0 0

decode_varuint :
    (v : ℕ) (rest : Bytes) → IsU64 v → decode_var_uint (encode_var_uint v ++ rest) ≡ ok (v, rest)
decode_varuint v rest h = rw (decode_var_uint-as_unexpected, decode-encode v rest h)

-- The entries of a state vector on the wire.
unfoldable pub entries : StateVector → Bytes
entries [] = []
entries ((client, clock) ∷ ps) = encode_var_uint client ++ (encode_var_uint clock ++ entries ps)

abbrev pub IsEntry : ℕ × ℕ → Type 0
IsEntry p = IsU64 p.0 × IsU64 p.1

decode_entries-entries :
    (ps m : StateVector) (rest : Bytes)
    → All IsEntry ps
    → decode_entries (length ps) (entries ps ++ rest) m ≡ ok (insert_all ps m, rest)
unfolding decode_entries entries insert_all
decode_entries-entries [] m rest h = refl
decode_entries-entries ((client, clock) ∷ ps) m rest ((hc, hk), h) =
    rw
      (
        append_assoc,
        append_assoc,
        decode_varuint client (encode_var_uint clock ++ (entries ps ++ rest)) hc,
        decode_varuint clock (entries ps ++ rest) hk,
      )
      (decode_entries-entries ps (insert client clock m) rest h)

module _ (ps : StateVector) (fits : All IsEntry ps) (few : IsU64 (length ps)) where
  -- The wire form of any list of fewer than 2 ^ 64 entries of uint64s decodes to the map that they
  -- write, in their order; one more byte behind it, and the decoder refuses the whole.
  pub decode_state_vector-entries :
      (x : ℕ) (rest : Bytes)
      → (decode_state_vector_v1 (encode_var_uint (length ps) ++ entries ps) ≡ ok (insert_all ps []))
        × (decode_state_vector_v1 (encode_var_uint (length ps) ++ (entries ps ++ x ∷ rest))
            ≡ err trailing_bytes)
  unfolding decode_state_vector_v1
  decode_state_vector-entries x rest = (
    rw (
      decode_varuint (length ps) (entries ps) few,
      rw append-nil at (decode_entries-entries ps [] [] fits),
    ),
    rw
        (
          decode_varuint (length ps) (entries ps ++ x ∷ rest) few,
          decode_entries-entries ps [] (x ∷ rest) fits,
        )
        (ground arith),
  )

decode_entries-IsMap :
    (n : ℕ) (s : Bytes) (m : StateVector) {r : StateVector} {rest : Bytes}
    → IsMap m
    → decode_entries n s m ≡ ok (r, rest)
    → IsMap r
unfolding decode_entries
decode_entries-IsMap zero s m {r} {rest} h e = let same : m ≡ r = ground arith in rw (← same) h
decode_entries-IsMap (suc n) s m {r} {rest} h e =
    let ((client, s'), _, e1) = >>=-ok (decode_var_uint s) _ e in
    let ((clock, s''), _, e2) = >>=-ok (decode_var_uint s') _ e1 in
    decode_entries-IsMap n s'' (insert client clock m) (insert-IsMap client clock m h) e2

-- Every state vector that the decoder accepts has each client once.
pub decode_state_vector-IsMap :
    (s : Bytes) {r : StateVector} → decode_state_vector_v1 s ≡ ok r → IsMap r
unfolding decode_state_vector_v1
decode_state_vector-IsMap s {r} e =
    let ((n, s'), _, e1) = >>=-ok (decode_var_uint s) _ e in
    let ((m, s''), d, e2) = >>=-ok (decode_entries n s' []) _ e1 in
    let same : m ≡ r = ground arith in rw (← same) (decode_entries-IsMap n s' [] tt d)
