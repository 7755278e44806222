-- ===== src/Wire/Tests.antt =====
-- Concrete runs of the wire codecs.
use codesk.Common.{List, ◌%◌, ℕ, ◌^◌, ◌≤◌, ◌≡◌, ◌≢◌, ◌↔◌, refl, true, [], ◌∷◌, ◌++◌, arith, ℕ_key}
use codesk.Common.Dict.{Dict, lookup, insert, IsMap}
use codesk.Wire.Reader.{Bytes, read_full, ok, panic}
use codesk.Wire.VarUint.{encode_var_uint, decode_var_uint}
use codesk.Wire.VarUint.Cut.{groups_value, continued, decode-ten_groups}
use codesk.Wire.VarUint.RoundTrip.{decode-encode}
use codesk.Wire.Messages.{
  message_notty_document, build_document_message, decode_document_message, decode_var_bytes,
}
use codesk.Wire.Messages.Document.{
  decode_document-build, decode_document_sound, decode_document_oversized,
}
use codesk.Wire.StateVector.{
  StateVector, clock, decode_state_vector_v1, reverse_window_state_vector_dominates,
}
use codesk.Wire.StateVector
use codesk.Wire.StateVector.Dominance.{dominates_iff}
use codesk.Wire.Awareness.{AwarenessState}

abbrev largest_slice : ℕ
largest_slice = 2 ^ 47

abbrev note_id : Bytes
note_id = 0x6e ∷ 0x31 ∷ []

abbrev note_payload : Bytes
note_payload = 0 ∷ 255 ∷ 7 ∷ []

encode_300 : encode_var_uint 300 ≡ 0xac ∷ 0x02 ∷ []
unfolding encode_var_uint
encode_300 = refl

decode-encode_example : decode_var_uint (encode_var_uint 300 ++ 5 ∷ []) ≡ ok (300, 5 ∷ [])
decode-encode_example = decode-encode 300 (5 ∷ []) (omega arith)

abbrev nine_groups : List ℕ
nine_groups = 5 ∷ 0 ∷ 0 ∷ 0 ∷ 0 ∷ 0 ∷ 0 ∷ 0 ∷ 0 ∷ []

-- 2 ^ 64 + 5
decode-ten_groups_example :
    decode_var_uint (continued nine_groups ++ 0x02 ∷ [])
    ≡ ok (groups_value (nine_groups ++ 0x02 ∷ []) % 2 ^ 64, [])
decode-ten_groups_example = decode-ten_groups nine_groups 0x02 [] refl (omega arith) (omega arith)

decode_document-build_example :
    decode_document_message largest_slice (build_document_message note_id note_payload)
    ≡ ok (note_id, note_payload)
decode_document-build_example =
    decode_document-build largest_slice note_id note_payload (omega arith) (omega arith)
      (omega arith) (λ e. cc) (λ e. cc)

abbrev short_id : Bytes
short_id = 7 ∷ []

abbrev short_payload : Bytes
short_payload = 9 ∷ []

short_message_decodes :
    decode_document_message largest_slice (42 ∷ 1 ∷ 7 ∷ 1 ∷ 9 ∷ []) ≡ ok (short_id, short_payload)
unfolding decode_document_message decode_var_uint decode_var_bytes read_full
short_message_decodes = refl

decode_document_sound_example :
    (short_id ≢ [])
    × (short_payload ≢ [])
    × (front mid : Bytes) × (42 ∷ 1 ∷ 7 ∷ 1 ∷ 9 ∷ []
        ≡ front ++ (short_id ++ (mid ++ short_payload)))
decode_document_sound_example =
    decode_document_sound largest_slice (42 ∷ 1 ∷ 7 ∷ 1 ∷ 9 ∷ []) short_id short_payload
      short_message_decodes

decode_document_oversized_example :
    decode_document_message largest_slice
      (encode_var_uint message_notty_document ++ (encode_var_uint (2 ^ 63) ++ []))
    ≡ panic
decode_document_oversized_example =
    decode_document_oversized largest_slice (2 ^ 63) [] (omega arith) (omega arith)

abbrev two_clients : StateVector
two_clients = (3, 10) ∷ (5, 2) ∷ []

two_clients-IsMap : IsMap two_clients
unfolding lookup
two_clients-IsMap = (refl, (refl, tt))

dominates_iff_example :
    (reverse_window_state_vector_dominates ((3, 9) ∷ []) two_clients ≡ true)
    ↔ ((client : ℕ) → clock two_clients client ≤ clock ((3, 9) ∷ []) client)
dominates_iff_example = dominates_iff ((3, 9) ∷ []) two_clients two_clients-IsMap

abbrev last_clock : StateVector
last_clock = (3, 4) ∷ []

twice_the_client : decode_state_vector_v1 (2 ∷ 3 ∷ 10 ∷ 3 ∷ 4 ∷ []) ≡ ok last_clock
unfolding decode_state_vector_v1 StateVector.decode_var_uint insert
twice_the_client = refl

abbrev one_state : Dict ℕ AwarenessState
one_state = (7, record { clock = 4; state = 0x7b ∷ 0x7d ∷ [] }) ∷ []
