-- ===== src/Server/Tests.antt =====
-- A client's requests at concrete inputs.
use mtds.Prelude.{ℕ, ◌≡◌, refl, none, some, List, [], ◌∷◌, ◌++◌, length, ok, type_error, arith}
use mtds.Prelude.Int.{pos}
use mtds.Memory.Objects.{kv_2ltd, float16}
use mtds.Dict.{get}
use mtds.Keys.{CacheEngineKey, chunk_key_eq}
use mtds.Keys.Text.{digits, str, to_string}
use mtds.Protocol.{deserialize_message, packlength}
use mtds.Protocol.Text.{len_text}
use mtds.Protocol.Client.{ClientMetaMessage, serialize_client}
use mtds.Protocol.Control.{IsWireKey}
use mtds.Server.{LmsLocalBackend, handle, serve, handle_client}
use mtds.Server.Stream.{serve-handle_client}
use mtds.Server.Connection.{IsSendable, put_then_get, put_cut}

abbrev chunk_key : CacheEngineKey
chunk_key = record {
  fmt = "vllm";
  model_name = "m";
  world_size = 1;
  worker_id = 0;
  chunk_hash = "h";
}

abbrev put_request : ClientMetaMessage
put_request = record {
  command = pos 1;
  key = chunk_key;
  length = pos 3;
  fmt = kv_2ltd;
  dtype = some float16;
  shape = pos 3 ∷ pos 0 ∷ pos 0 ∷ pos 0 ∷ [];
}

abbrev get_request : ClientMetaMessage
get_request = record put_request { command = pos 2 }

key_wire : IsWireKey chunk_key
key_wire = (
  ((refl, (refl, (refl, (refl, tt)))), (refl, tt), (refl, tt)),
  (refl, (refl, (refl, (refl, tt)))),
  (refl, tt),
  (refl, tt),
)

key_size : len_text (to_string chunk_key) ≡ 12
unfolding digits str to_string len_text
key_size = refl

put_request-IsSendable : IsSendable put_request
put_request-IsSendable = (
  pos 3,
  pos 0,
  pos 0,
  pos 0,
  refl,
  (omega arith, (omega arith, (omega arith, (omega arith, (omega arith, (omega arith, tt)))))),
  key_wire,
  omega (arith, key_size),
)

get_request-IsSendable : IsSendable get_request
get_request-IsSendable = (
  pos 3,
  pos 0,
  pos 0,
  pos 0,
  refl,
  (omega arith, (omega arith, (omega arith, (omega arith, (omega arith, (omega arith, tt)))))),
  key_wire,
  omega (arith, key_size),
)

serve-handle_client_example : serve 5 [] (1 ∷ 2 ∷ []) ≡ handle_client [] (1 ∷ 2 ∷ [])
serve-handle_client_example = serve-handle_client 5 [] (1 ∷ 2 ∷ []) (omega arith)

put_then_get_example :
    (put_bytes : List ℕ) × (get_bytes : List ℕ) × (header : List ℕ) × (self' : LmsLocalBackend)
    × (serialize_client put_request ≡ ok put_bytes)
    × (serialize_client get_request ≡ ok get_bytes)
    × (handle_client [] (put_bytes ++ ((7 ∷ 8 ∷ 9 ∷ []) ++ get_bytes))
        ≡ (self', header ++ 7 ∷ 8 ∷ 9 ∷ [], none))
    × (length header ≡ packlength)
    × (deserialize_message header
        ≡ ok (record {
          code = pos 200;
          length = put_request.length;
          fmt = put_request.fmt;
          dtype = put_request.dtype;
          shape = put_request.shape;
        }))
put_then_get_example =
    put_then_get [] put_request get_request (7 ∷ 8 ∷ 9 ∷ []) refl refl refl refl
      put_request-IsSendable get_request-IsSendable

put_cut_example :
    (put_bytes : List ℕ) × (header : List ℕ) × (self' : LmsLocalBackend) × (serialize_client
        put_request
      ≡ ok put_bytes)
    × (handle_client [] (put_bytes ++ 7 ∷ 8 ∷ []) ≡ (self', [], none))
    × (get put_request.key self'
        ≡ some (record {
          payload = none;
          length = put_request.length;
          fmt = put_request.fmt;
          dtype = put_request.dtype;
          shape = put_request.shape;
        }))
    × (handle self' get_request none ≡ (self', header, some type_error))
    × (deserialize_message header
        ≡ ok (record {
          code = pos 200;
          length = put_request.length;
          fmt = put_request.fmt;
          dtype = put_request.dtype;
          shape = put_request.shape;
        }))
put_cut_example =
    put_cut [] put_request get_request (7 ∷ 8 ∷ []) 3 none refl refl (omega arith) refl refl
      put_request-IsSendable
