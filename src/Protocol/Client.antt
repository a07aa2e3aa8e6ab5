-- ===== src/Protocol/Client.antt =====
-- MTDS/v1/protocol.py: the message of a client. The text of its key is padded to a fixed number of
-- bytes.
use mtds.Prelude.{
  ℕ, ◌+◌, ◌*◌, Option, List, ◌∷◌, ◌++◌, length, leb, ◌==◌, Result, ok, raise, ensure, ◌>>=◌, ◌>>◌,
  assertion_error, struct_error,
}
use mtds.Prelude.Int.{ℤ}
use mtds.Keys.{CacheEngineKey}
use mtds.Keys.Text.{to_string, from_string}
use mtds.Memory.Objects.{MemoryFormat, Dtype}
use mtds.Protocol.{fields, pack, unpack_ints, format_of, int_to_dtype}
use mtds.Protocol.Text.{encode, decode, ljust, pack_bytes, len_text, strip}

pub record ClientMetaMessage : Type 0 where
  pub command : ℤ
  pub key : CacheEngineKey
  pub length : ℤ
  pub fmt : MemoryFormat
  pub dtype : Option Dtype
  pub shape : List ℤ

abbrev pub max_key_length : ℕ
max_key_length = 150

unfoldable pub serialize_client : ClientMetaMessage → Result (List ℕ)
unfolding to_string encode ljust pack_bytes len_text
serialize_client self = do
  let key_str = to_string self.key
  ensure (leb (len_text key_str) max_key_length) assertion_error
  zs ← fields self.length self.fmt self.dtype self.shape
  bytes ← pack (self.command ∷ zs)
  ok (bytes ++ pack_bytes max_key_length (ljust max_key_length (encode key_str)))

unfoldable pub client_of_fields : List ℤ → List ℕ → Result ClientMetaMessage
unfolding decode strip from_string
client_of_fields (command ∷ length ∷ fmt ∷ dtype ∷ shape) key = do
  key_str ← decode key
  key' ← from_string (strip key_str)
  fmt' ← format_of fmt
  dtype' ← int_to_dtype dtype
  ok (record {
    command = command;
    key = key';
    length = length;
    fmt = fmt';
    dtype = dtype';
    shape = shape;
  })
client_of_fields zs key = raise struct_error

unfoldable pub deserialize_client : List ℕ → Result ClientMetaMessage
unfolding unpack_ints client_of_fields
deserialize_client s = do
  (zs, key) ← unpack_ints 8 s
  ensure (length key == max_key_length) struct_error
  client_of_fields zs key

unfoldable pub client_packlength : ℕ
client_packlength = 4 * 8 + max_key_length
