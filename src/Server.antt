-- ===== src/Server.antt =====
-- MTDS/v1/server: the store of the remote server, and the thread that answers the commands of one
-- client. A stream is all that the client sends before it closes the connection.
pub mod Requests
pub mod Stream
pub mod Connection
mod Tests
use mtds.Prelude.{
  ℕ, zero, suc, ◌≡◌, ◌↔◌, Bool, true, false, Option, none, some, List, [], ◌∷◌, ◌++◌, map, length,
  take, drop, leb, ◌==◌, if◌then◌else◌, Error, type_error, key_error, Result, ok, raise, arith,
}
use mtds.Prelude.Int.{ℤ, pos, negsuc}
use mtds.Dict.{Eq, Dict, get, contains, assign, delete}
use mtds.Keys.{CacheEngineKey, chunk_key_eq}
use mtds.Memory.Objects.{MemoryFormat, kv_2ltd, Dtype, float16}
use mtds.Protocol.{ServerMetaMessage, serialize_message}
use mtds.Protocol.Client.{ClientMetaMessage, client_packlength, deserialize_client}

-- `payload` is the attribute `data`: None where the connection ended before the data were there.
pub record LmsMemoryObj : Type 0 where
  pub payload : Option (List ℕ)
  pub length : ℤ
  pub fmt : MemoryFormat
  pub dtype : Option Dtype
  pub shape : List ℤ

abbrev pub LmsLocalBackend : Type 0
LmsLocalBackend = Dict CacheEngineKey LmsMemoryObj

unfoldable pub put : LmsLocalBackend → ClientMetaMessage → Option (List ℕ) → LmsLocalBackend
put self client_meta kv_chunk_bytes =
    assign client_meta.key
      (record {
        payload = kv_chunk_bytes;
        length = client_meta.length;
        fmt = client_meta.fmt;
        dtype = client_meta.dtype;
        shape = client_meta.shape;
      })
      self

-- The keys in the order in which they came.
unfoldable pub list_keys : LmsLocalBackend → List CacheEngineKey
list_keys self = map (λ entry. entry.0) self

unfoldable pub remove : CacheEngineKey → LmsLocalBackend → Result LmsLocalBackend
remove key self = if contains key self then ok (delete key self) else raise key_error

-- The answer without data.
unfoldable pub status : ℕ → ServerMetaMessage
status code = record {
  code = pos code;
  length = pos 0;
  fmt = kv_2ltd;
  dtype = some float16;
  shape = pos 0 ∷ pos 0 ∷ pos 0 ∷ pos 0 ∷ [];
}

unfoldable pub found : LmsMemoryObj → ServerMetaMessage
found o = record {
  code = pos 200;
  length = o.length;
  fmt = o.fmt;
  dtype = o.dtype;
  shape = o.shape;
}

-- The store, the bytes that have been sent, and the exception that ends the thread.
abbrev pub Answer : Type 0
Answer = LmsLocalBackend × List ℕ × Option Error

-- The header, and the data behind it; `sendall(None)` is a TypeError.
abbrev pub send_all : LmsLocalBackend → Option (List ℕ) → Result (List ℕ) → Answer
send_all self payload (raise e) = (self, [], some e)
send_all self none (ok header) = (self, header, some type_error)
send_all self (some bytes) (ok header) = (self, header ++ bytes, none)

unfoldable pub send : LmsLocalBackend → ServerMetaMessage → Option (List ℕ) → Answer
send self message payload = send_all self payload (serialize_message message)

abbrev pub is_command : ℤ → ℕ → Bool
is_command (pos n) m = n == m
is_command (negsuc n) m = false

-- One command, where `s` is the data of a PUT. A command that no case names is passed over.
unfoldable pub handle : LmsLocalBackend → ClientMetaMessage → Option (List ℕ) → Answer
unfolding put send
handle self meta s =
    if is_command meta.command 1
    then (put self meta s, [], none)
    else if is_command meta.command 2
    then elim (get meta.key self) [
      | none ↦ send self (status 400) (some [])
      | some o ↦ send self (found o) o.payload
    ]
    else if is_command meta.command 3
    then send self (status (if contains meta.key self then 200 else 400)) (some [])
    else (self, [], none)

-- The next `n` bytes and the rest of the stream; none, where the stream ends before.
unfoldable pub receive_all : ℕ → List ℕ → Option (List ℕ) × List ℕ
receive_all n stream =
    if leb n (length stream) then (some (take n stream), drop n stream) else (none, [])

abbrev pub received_size : ℤ → ℕ
received_size (pos n) = n
received_size (negsuc n) = 0

-- The data of a PUT are received before the command is handled.
unfoldable pub receive_data : ClientMetaMessage → List ℕ → Option (List ℕ) × List ℕ
unfolding receive_all
receive_data meta stream =
    if is_command meta.command 1
    then receive_all (received_size meta.length) stream
    else (none, stream)

-- One round of the loop: it ends with an answer, or goes on with the rest of the stream.
pub data Round : Type 0 where
  done : Answer → Round
  more : LmsLocalBackend → List ℕ → List ℕ → Round

abbrev pub on_answer : List ℕ → Answer → Round
on_answer rest (self, sent, some e) = done (self, sent, some e)
on_answer rest (self, sent, none) = more self sent rest

unfoldable pub on_command : LmsLocalBackend → List ℕ → ClientMetaMessage → Round
unfolding receive_data handle
on_command self stream meta =
    let (s, rest) = receive_data meta stream in on_answer rest (handle self meta s)

abbrev pub on_message : LmsLocalBackend → List ℕ → Result ClientMetaMessage → Round
on_message self stream (raise e) = done (self, [], some e)
on_message self stream (ok meta) = on_command self stream meta

abbrev pub on_header : LmsLocalBackend → Option (List ℕ) × List ℕ → Round
on_header self (none, stream) = done (self, [], none)
on_header self (some header, stream) = on_message self stream (deserialize_client header)

unfoldable pub round : LmsLocalBackend → List ℕ → Round
unfolding receive_all deserialize_client client_packlength on_command
round self stream = on_header self (receive_all client_packlength stream)

abbrev pub behind_answer : List ℕ → Answer → Answer
behind_answer sent (self, later, e) = (self, sent ++ later, e)

abbrev pub resume : (LmsLocalBackend → List ℕ → Answer) → Round → Answer
resume k (done answer) = answer
resume k (more self sent rest) = behind_answer sent (k self rest)

-- The loop over the commands, for at most `fuel` of them.
unfoldable pub serve : ℕ → LmsLocalBackend → List ℕ → Answer
unfolding round
serve zero self stream = (self, [], none)
serve (suc fuel) self stream = resume (serve fuel) (round self stream)

-- Every command takes bytes from the stream.
unfoldable pub handle_client : LmsLocalBackend → List ℕ → Answer
unfolding serve
handle_client self stream = serve (suc (length stream)) self stream
