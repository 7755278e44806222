-- ===== src/Wire/Messages/Document.antt =====
-- Document and sync messages: round trips, what an accepted message consists of, and panics.
use codesk.Common.{
  ℕ, ◌≤◌, ◌<◌, ◌≡◌, ◌≢◌, refl, false, inl, inr, List, [], ◌∷◌, ◌++◌, arith, append_assoc,
  append-nil, length, Bool-cases, eqb, is_empty, not,
}
use codesk.Wire.Reader.{
  Bytes, IsU64, Result, ok, panic, ◌>>=◌, ◌>>◌, reject_if, >>=-ok, Error, id_required,
  payload_required, trailing_bytes,
}
use codesk.Wire.VarUint.{encode_var_uint}
use codesk.Wire.VarUint.Decode.{decode_var_uint_cut}
use codesk.Wire.VarUint.RoundTrip.{decode-encode}
use codesk.Wire.Messages.{
  message_sync, message_notty_document, sync_step1, sync_step2, sync_update, encode_var_bytes,
  decode_var_bytes, decode_protocol_message, build_document_message, decode_document_message,
  build_sync_step1_from_state_vector, build_sync_step2_from_update, build_sync_update,
  decode_sync_message,
}
use codesk.Wire.Messages.VarBytes.{
  decode_var_bytes-encode, decode_var_bytes_cut, decode_var_bytes_oversized,
}

is_empty_of_ne {ℓ} : {A : Type ℓ} (xs : List A) → xs ≢ [] → is_empty xs ≡ false
is_empty_of_ne [] h = absurd (h refl)
is_empty_of_ne (x ∷ xs) h = refl

ne_of_is_empty {ℓ} : {A : Type ℓ} (xs : List A) → is_empty xs ≡ false → xs ≢ []
ne_of_is_empty [] h = cc
ne_of_is_empty (x ∷ xs) h = λ e. cc

nil_of_length {ℓ} : {A : Type ℓ} (xs : List A) → length xs ≡ 0 → xs ≡ []
nil_of_length [] h = refl
nil_of_length (x ∷ xs) h = absurd (omega arith)

-- `decode_var_bytes` at the end of a message.
decode_last_bytes :
    (max_alloc : ℕ) (b : Bytes)
    → IsU64 max_alloc
    → length b ≤ max_alloc
    → decode_var_bytes max_alloc (encode_var_bytes b) ≡ ok (b, [])
decode_last_bytes max_alloc b hm h = rw append-nil at (decode_var_bytes-encode max_alloc b [] hm h)

-- A document message built from a document id and a payload that are both non-empty, and that a Go
-- slice can hold, is decoded to that id and that payload.
pub decode_document-build :
    (max_alloc : ℕ) (document_id payload : Bytes)
    → IsU64 max_alloc
    → length document_id ≤ max_alloc
    → length payload ≤ max_alloc
    → document_id ≢ []
    → payload ≢ []
    → decode_document_message max_alloc (build_document_message document_id payload)
      ≡ ok (document_id, payload)
unfolding decode_document_message build_document_message
decode_document-build max_alloc document_id payload hm hi hp ni np = rw (
  append_assoc,
  decode-encode message_notty_document (encode_var_bytes document_id ++ encode_var_bytes payload)
      (omega arith),
  decode_var_bytes-encode max_alloc document_id (encode_var_bytes payload) hm hi,
  is_empty_of_ne document_id ni,
  decode_last_bytes max_alloc payload hm hp,
  is_empty_of_ne payload np,
)

-- A decoded string that must not be empty, in front of the rest of a decoder.
non_empty_bytes {ℓ} :
    {A : Type ℓ} (max_alloc : ℕ) (s : Bytes) (e : Error) (k : Bytes → Bytes → Result A) {a : A}
    → (do (b, rest) ← decode_var_bytes max_alloc s; reject_if (is_empty b) e; k b rest) ≡ ok a
    → (b rest front : Bytes) × (s ≡ front ++ (b ++ rest)) × (b ≢ []) × (k b rest ≡ ok a)
non_empty_bytes max_alloc s e k h =
    let ((b, rest), decoded, h1) = >>=-ok (decode_var_bytes max_alloc s) _ h in
    let (front, cut, _, _) = decode_var_bytes_cut max_alloc s b rest decoded in
    elim (Bool-cases (is_empty b)) [
      | inl empty ↦ absurd (cc (rw empty at h1))
      | inr full ↦ (b, rest, front, cut, ne_of_is_empty b full, rw full at h1)
    ]

-- The last test of the decoder, and the pieces of the message in a row.
assemble :
    {message r r' b p document_id payload : Bytes} (front front' front'' : Bytes)
    → message ≡ front ++ r
    → r ≡ front' ++ (b ++ r')
    → (r'' : Bytes) → r' ≡ front'' ++ (p ++ r'')
    → b ≢ []
    → p ≢ []
    → ◌>>◌ {Y = Bytes × Bytes} (reject_if (not (eqb (length r'') 0)) trailing_bytes) (ok (b, p))
      ≡ ok (document_id, payload)
    → (document_id ≢ [])
      × (payload ≢ [])
      × (front mid : Bytes) × (message ≡ front ++ (document_id ++ (mid ++ payload)))
assemble {b} {p} {document_id} {payload} front front' front'' cut cut' [] cut'' nb np h =
    let same : (b ≡ document_id) × (p ≡ payload) = ground arith in
    (
      rw same.0 at nb,
      rw same.1 at np,
      front ++ front',
      front'',
      rw (cut, cut', cut'', append-nil, ← same.0, ← same.1, append_assoc),
    )
assemble front front' front'' cut cut' (x ∷ r'') cut'' nb np h = ground arith

-- Whatever bytes a peer sends, an accepted document message carries a non-empty id and a non-empty
-- payload, the id stands in it whole, and the payload is its very end.
pub decode_document_sound :
    (max_alloc : ℕ) (message document_id payload : Bytes)
    → decode_document_message max_alloc message ≡ ok (document_id, payload)
    → (document_id ≢ [])
      × (payload ≢ [])
      × (front mid : Bytes) × (message ≡ front ++ (document_id ++ (mid ++ payload)))
unfolding decode_document_message
decode_document_sound max_alloc message document_id payload h =
    let ((kind, r), e1, h1) = >>=-ok (decode_protocol_message message) _ h in
    let (front, cut, _, _) = decode_var_uint_cut message e1 in
    elim (Bool-cases (eqb kind message_notty_document)) [
      | inl right_kind ↦
          let (b, r', front', cut', nb, h2) =
            non_empty_bytes max_alloc r id_required _ (rw right_kind at h1) in
          let (p, r'', front'', cut'', np, h3) =
            non_empty_bytes max_alloc r' payload_required _ h2 in
          assemble front front' front'' cut cut' r'' cut'' nb np h3
      | inr wrong_kind ↦ absurd (cc (rw wrong_kind at h1))
    ]

-- A document message whose first length is above the largest slice panics, whatever follows.
pub decode_document_oversized :
    (max_alloc n : ℕ) (rest : Bytes)
    → max_alloc < n
    → IsU64 n
    → decode_document_message max_alloc
        (encode_var_uint message_notty_document ++ (encode_var_uint n ++ rest))
      ≡ panic
unfolding decode_document_message
decode_document_oversized max_alloc n rest h fits = rw (
  decode-encode message_notty_document (encode_var_uint n ++ rest) (omega arith),
  decode_var_bytes_oversized max_alloc n rest h fits,
)

-- How a peer reads a sync message: the protocol type, then the sync message behind it.
abbrev pub read_sync : ℕ → Bytes → Result (ℕ × ℕ × Bytes × Bytes)
read_sync max_alloc message = do
  (kind, reader) ← decode_protocol_message message
  (step, value, rest) ← decode_sync_message max_alloc reader
  ok (kind, step, value, rest)

sync_message :
    (max_alloc step : ℕ) (b : Bytes)
    → IsU64 max_alloc
    → length b ≤ max_alloc
    → step ≤ sync_update
    → read_sync max_alloc
        ((encode_var_uint message_sync ++ encode_var_uint step) ++ encode_var_bytes b)
      ≡ ok (message_sync, step, b, [])
unfolding decode_protocol_message decode_sync_message
sync_message max_alloc step b hm h hs =
    rw
      (
        append_assoc,
        decode-encode message_sync (encode_var_uint step ++ encode_var_bytes b) (omega arith),
        decode-encode step (encode_var_bytes b) (omega arith),
      )
      (ground (arith, decode_last_bytes max_alloc b hm h))

-- Each of the three sync messages, built from bytes that a Go slice can hold, is read back as a
-- sync message of its own kind, with those bytes and nothing left over.
pub read_sync-build :
    (max_alloc : ℕ) (b : Bytes)
    → IsU64 max_alloc
    → length b ≤ max_alloc
    → (read_sync max_alloc (build_sync_step1_from_state_vector b)
        ≡ ok (message_sync, sync_step1, b, []))
      × (read_sync max_alloc (build_sync_step2_from_update b)
          ≡ ok (message_sync, sync_step2, b, []))
      × (read_sync max_alloc (build_sync_update b) ≡ ok (message_sync, sync_update, b, []))
unfolding build_sync_step1_from_state_vector build_sync_step2_from_update build_sync_update
read_sync-build max_alloc b hm h = (
  sync_message max_alloc sync_step1 b hm h (omega arith),
  sync_message max_alloc sync_step2 b hm h (omega arith),
  sync_message max_alloc sync_update b hm h (omega arith),
)
