-- ===== src/Wire/Messages.antt =====
-- Length-prefixed bytes and the document and sync messages of internal/yproto/yproto.go. A Go
-- string is its bytes. `max_alloc` is the longest slice that the Go runtime hands out: `make` of a
-- longer one panics.
pub mod VarBytes
pub mod Document
use codesk.Common.{ℕ, ◌≤◌, ◌++◌, not, ltb, leb, eqb, if◌then◌else◌, length, is_empty}
use codesk.Wire.Reader.{
  Bytes, Result, ok, err, panic, ◌>>=◌, ◌>>◌, reject_if, read_full, unexpected_type, id_required,
  payload_required, trailing_bytes, unknown_sync_type,
}
use codesk.Wire.VarUint.{encode_var_uint, decode_var_uint}

abbrev pub message_sync : ℕ
message_sync = 0

abbrev pub message_awareness : ℕ
message_awareness = 1

abbrev pub message_notty_document : ℕ
message_notty_document = 42

abbrev pub sync_step1 : ℕ
sync_step1 = 0

abbrev pub sync_step2 : ℕ
sync_step2 = 1

abbrev pub sync_update : ℕ
sync_update = 2

unfoldable pub encode_var_bytes : Bytes → Bytes
encode_var_bytes value = encode_var_uint (length value) ++ value

unfoldable pub encode_var_string : Bytes → Bytes
encode_var_string value = encode_var_bytes value

unfoldable pub build_document_message : Bytes → Bytes → Bytes
unfolding encode_var_string
build_document_message document_id payload =
    (encode_var_uint message_notty_document ++ encode_var_string document_id)
    ++ encode_var_bytes payload

unfoldable pub build_sync_step1_from_state_vector : Bytes → Bytes
build_sync_step1_from_state_vector state_vector =
    (encode_var_uint message_sync ++ encode_var_uint sync_step1) ++ encode_var_bytes state_vector

unfoldable pub build_sync_step2_from_update : Bytes → Bytes
build_sync_step2_from_update update =
    (encode_var_uint message_sync ++ encode_var_uint sync_step2) ++ encode_var_bytes update

unfoldable pub build_sync_update : Bytes → Bytes
build_sync_update update =
    (encode_var_uint message_sync ++ encode_var_uint sync_update) ++ encode_var_bytes update

unfoldable pub decode_protocol_message : Bytes → Result (ℕ × Bytes)
decode_protocol_message payload = decode_var_uint payload

module _ (max_alloc : ℕ) where
  -- `make([]byte, n)`.
  unfoldable pub make_bytes : ℕ → Result (Unit {0})
  make_bytes n = if ltb max_alloc n then panic else ok tt

  unfoldable pub decode_var_bytes : Bytes → Result (Bytes × Bytes)
  unfolding make_bytes
  decode_var_bytes reader = do
    (length, reader') ← decode_var_uint reader
    make_bytes length
    read_full length reader'

  unfoldable pub decode_var_string : Bytes → Result (Bytes × Bytes)
  decode_var_string reader = decode_var_bytes reader

  unfoldable pub decode_document_message : Bytes → Result (Bytes × Bytes)
  unfolding decode_protocol_message decode_var_string
  decode_document_message payload = do
    (message_type, reader) ← decode_protocol_message payload
    reject_if (not (eqb message_type message_notty_document)) unexpected_type
    (document_id, reader') ← decode_var_string reader
    reject_if (is_empty document_id) id_required
    (document_payload, reader'') ← decode_var_bytes reader'
    reject_if (is_empty document_payload) payload_required
    reject_if (not (eqb (length reader'') 0)) trailing_bytes
    ok (document_id, document_payload)

  -- The type, the value and the rest of the reader.
  unfoldable pub decode_sync_message : Bytes → Result (ℕ × Bytes × Bytes)
  decode_sync_message reader = do
    (message_type, reader') ← decode_var_uint reader
    reject_if (not (leb message_type sync_update)) unknown_sync_type
    (value, reader'') ← decode_var_bytes reader'
    ok (message_type, value, reader'')
