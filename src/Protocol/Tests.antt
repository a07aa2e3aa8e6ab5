-- ===== src/Protocol/Tests.antt =====
-- The wire format at concrete inputs.
use mtds.Prelude.{
  ℕ, ◌≡◌, refl, none, some, List, [], ◌∷◌, length, ok, raise, struct_error, value_error, arith,
}
use mtds.Prelude.Int.{pos, negsuc}
use mtds.Memory.Objects.{value, kv_2ltd, float16, format_of_value}
use mtds.Protocol.{
  RemoteMetadata, ServerMetaMessage, dtype_to_int, dtype_of_code, int_to_dtype, format_of,
  word_bytes, pack_int, pack, int_of_word, unpack_ints, unpack, fields, serialize, deserialize,
  serialize_message, deserialize_message, message_of_fields, packlength,
}
use mtds.Keys.Text.{digits, str, to_string}
use mtds.Protocol.Text.{
  char_of, encode_char, encode, lead, decode_byte, decode_from, decode, ljust, len_text, is_space,
  lstrip, rstrip, strip,
}
use mtds.Protocol.Client.{
  ClientMetaMessage, serialize_client, deserialize_client, client_packlength,
}
use mtds.Protocol.Control.{IsWireKey, deserialize_client-serialize_client}
use mtds.Protocol.Messages.{deserialize-serialize, deserialize_message-serialize_message}

program : Unit {0}
unfolding dtype_to_int dtype_of_code int_to_dtype format_of format_of_value value word_bytes
    pack_int pack int_of_word unpack_ints unpack fields serialize serialize_message
    deserialize_message message_of_fields packlength
program = tt

abbrev metadata : RemoteMetadata
metadata = record {
  length = pos 1024;
  shape = pos 2 ∷ pos 1 ∷ pos 4 ∷ pos 64 ∷ [];
  dtype = some float16;
  fmt = kv_2ltd;
}

abbrev failure : ServerMetaMessage
failure = record {
  code = pos 400;
  length = negsuc 0;
  fmt = kv_2ltd;
  dtype = none;
  shape = pos 0 ∷ pos 0 ∷ pos 0 ∷ pos 0 ∷ [];
}

written :
    serialize metadata
    ≡ ok (
        0 ∷ 4 ∷ 0 ∷ 0 ∷ 1 ∷ 0 ∷ 0 ∷ 0 ∷ 2 ∷ 0 ∷ 0 ∷ 0 ∷ 2 ∷ 0 ∷ 0 ∷ 0 ∷ 1 ∷ 0 ∷ 0 ∷ 0 ∷ 4 ∷ 0 ∷ 0
        ∷ 0 ∷ 64 ∷ 0 ∷ 0 ∷ 0 ∷ [])
unfolding program
written = refl

too_long : serialize (record metadata { length = pos 2147483648 }) ≡ raise struct_error
unfolding program
too_long = refl

deserialize-serialize_example :
    (bytes : List ℕ) × (serialize metadata ≡ ok bytes)
    × (length bytes ≡ 28)
    × (deserialize bytes ≡ ok metadata)
deserialize-serialize_example =
    deserialize-serialize metadata (pos 2) (pos 1) (pos 4) (pos 64) refl
      (omega arith, (omega arith, (omega arith, (omega arith, (omega arith, tt)))))

deserialize_message-serialize_message_example :
    (bytes : List ℕ) × (serialize_message failure ≡ ok bytes)
    × (length bytes ≡ packlength)
    × (deserialize_message bytes ≡ ok failure)
deserialize_message-serialize_message_example =
    deserialize_message-serialize_message failure (pos 0) (pos 0) (pos 0) (pos 0) refl
      (omega arith, (omega arith, (omega arith, (omega arith, (omega arith, (omega arith, tt))))))

text_program : Unit {0}
unfolding char_of encode_char encode lead decode_byte decode_from decode ljust len_text is_space
    lstrip rstrip strip digits str to_string
text_program = tt

-- A character of each width.
encoded : encode "aé€😀" ≡ 97 ∷ 195 ∷ 169 ∷ 226 ∷ 130 ∷ 172 ∷ 240 ∷ 159 ∷ 152 ∷ 128 ∷ []
unfolding text_program
encoded = refl

decoded : decode (97 ∷ 195 ∷ 169 ∷ 226 ∷ 130 ∷ 172 ∷ 240 ∷ 159 ∷ 152 ∷ 128 ∷ []) ≡ ok "aé€😀"
unfolding text_program
decoded = refl

-- The half of a pair, a number written with too many bytes, and a character that is cut.
refused_half : decode (237 ∷ 160 ∷ 128 ∷ []) ≡ raise value_error
unfolding text_program
refused_half = refl

refused_long : decode (192 ∷ 128 ∷ []) ≡ raise value_error
unfolding text_program
refused_long = refl

refused_cut : decode (226 ∷ 130 ∷ []) ≡ raise value_error
unfolding text_program
refused_cut = refl

stripped : strip " a b  " ≡ "a b"
unfolding text_program
stripped = refl

abbrev request : ClientMetaMessage
request = record {
  command = pos 2;
  key = record {
    fmt = "vllm";
    model_name = "m";
    world_size = 12;
    worker_id = 0;
    chunk_hash = "f0";
  };
  length = pos 1024;
  fmt = kv_2ltd;
  dtype = some float16;
  shape = pos 2 ∷ pos 1 ∷ pos 4 ∷ pos 64 ∷ [];
}

request_wire : IsWireKey request.key
request_wire = (
  ((refl, (refl, (refl, (refl, tt)))), (refl, tt), (refl, (refl, tt))),
  (refl, (refl, (refl, (refl, tt)))),
  (refl, tt),
  (refl, (refl, tt)),
)

request_size : len_text (to_string request.key) ≡ 14
unfolding text_program
request_size = refl

deserialize_client-serialize_client_example :
    (bytes : List ℕ) × (serialize_client request ≡ ok bytes)
    × (length bytes ≡ client_packlength)
    × (deserialize_client bytes ≡ ok request)
deserialize_client-serialize_client_example =
    deserialize_client-serialize_client request (pos 2) (pos 1) (pos 4) (pos 64) refl
      (omega arith, (omega arith, (omega arith, (omega arith, (omega arith, (omega arith, tt))))))
      request_wire (omega (arith, request_size))
