-- ===== src/Protocol.antt =====
-- MTDS/v1/protocol.py: what the connectors and the server write about a memory object, as bytes.
pub mod Text
pub mod Padding
pub mod Client
pub mod Control
pub mod Words
pub mod Messages
mod Tests
use mtds.Prelude.{
  ℕ, zero, suc, ◌+◌, ◌-◌, ◌*◌, ◌/◌, ◌%◌, ◌^◌, ◌≡◌, Bool, Option, none, some, List, [], ◌∷◌, ◌++◌,
  length, drop, leb, ltb, ◌==◌, if◌then◌else◌, Result, ok, raise, ensure, ◌>>=◌, ◌>>◌,
  assertion_error, struct_error, value_error, key_error,
}
use mtds.Prelude.Int.{ℤ, pos, negsuc}
use mtds.Memory.Objects.{
  MemoryFormat, value, format_of_value, Dtype, float16, bfloat16, float32, float64, uint8,
  float8_e4m3fn, float8_e5m2,
}

-- `torch.half` is `torch.float16`, and its later entry in the table is the one that counts.
unfoldable pub dtype_to_int : Option Dtype → ℤ
dtype_to_int none = pos 0
dtype_to_int (some float16) = pos 2
dtype_to_int (some bfloat16) = pos 3
dtype_to_int (some float32) = pos 4
dtype_to_int (some float64) = pos 5
dtype_to_int (some uint8) = pos 6
dtype_to_int (some float8_e4m3fn) = pos 7
dtype_to_int (some float8_e5m2) = pos 8

unfoldable pub dtype_of_code : ℕ → Result (Option Dtype)
dtype_of_code n =
    if n == 0
    then ok none
    else if n == 1
    then ok (some float16)
    else if n == 2
    then ok (some float16)
    else if n == 3
    then ok (some bfloat16)
    else if n == 4
    then ok (some float32)
    else if n == 5
    then ok (some float64)
    else if n == 6
    then ok (some uint8)
    else if n == 7
    then ok (some float8_e4m3fn)
    else if n == 8
    then ok (some float8_e5m2)
    else raise key_error

-- `INT_TO_DTYPE[n]` and `MemoryFormat(n)`, for any integer.
unfoldable pub int_to_dtype : ℤ → Result (Option Dtype)
int_to_dtype (pos n) = dtype_of_code n
int_to_dtype (negsuc n) = raise key_error

unfoldable pub format_of : ℤ → Result MemoryFormat
format_of (pos n) = format_of_value n
format_of (negsuc n) = raise value_error

-- The format "i" of `struct`: four bytes in two's complement, the low byte first as on the machines
-- that the code runs on.
unfoldable pub word_bytes : ℕ → List ℕ
word_bytes u = u % 256 ∷ u / 256 % 256 ∷ u / 256 / 256 % 256 ∷ u / 256 / 256 / 256 % 256 ∷ []

unfoldable pub pack_int : ℤ → Result (List ℕ)
pack_int (pos n) = do ensure (ltb n (2 ^ 31)) struct_error; ok (word_bytes n)
pack_int (negsuc n) = do ensure (ltb n (2 ^ 31)) struct_error; ok (word_bytes (2 ^ 32 - 1 - n))

unfoldable pub pack : List ℤ → Result (List ℕ)
pack [] = ok []
pack (z ∷ zs) = do bytes ← pack_int z; rest ← pack zs; ok (bytes ++ rest)

unfoldable pub int_of_word : ℕ → ℤ
int_of_word u = if ltb u (2 ^ 31) then pos u else negsuc (2 ^ 32 - 1 - u)

-- The first `n` integers and what is left of the bytes.
unfoldable pub unpack_ints : ℕ → List ℕ → Result (List ℤ × List ℕ)
unpack_ints zero bytes = ok ([], bytes)
unpack_ints (suc n) (a ∷ b ∷ c ∷ d ∷ bytes) = do
  (zs, rest) ← unpack_ints n bytes
  ok (int_of_word (a + 256 * (b + 256 * (c + 256 * d))) ∷ zs, rest)
unpack_ints (suc n) bytes = raise struct_error

-- `struct.unpack` wants the exact length, and `struct.unpack_from` at least it.
unfoldable pub unpack : ℕ → List ℕ → Result (List ℤ)
unpack n bytes = do (zs, rest) ← unpack_ints n bytes; ensure (length rest == 0) struct_error; ok zs

unfoldable pub unpack_from : ℕ → List ℕ → Result (List ℤ)
unpack_from n bytes = do (zs, rest) ← unpack_ints n bytes; ok zs

pub record RemoteMetadata : Type 0 where
  pub length : ℤ
  pub shape : List ℤ
  pub dtype : Option Dtype
  pub fmt : MemoryFormat

pub record ServerMetaMessage : Type 0 where
  pub code : ℤ
  pub length : ℤ
  pub fmt : MemoryFormat
  pub dtype : Option Dtype
  pub shape : List ℤ

-- The fields in the order of the wire; a shape has four dimensions.
unfoldable pub fields : ℤ → MemoryFormat → Option Dtype → List ℤ → Result (List ℤ)
fields length fmt dtype (a ∷ b ∷ c ∷ d ∷ []) =
    ok (length ∷ pos (value fmt) ∷ dtype_to_int dtype ∷ a ∷ b ∷ c ∷ d ∷ [])
fields length fmt dtype shape = raise assertion_error

unfoldable pub serialize : RemoteMetadata → Result (List ℕ)
serialize self = do zs ← fields self.length self.fmt self.dtype self.shape; pack zs

-- `struct.pack_into` at the front of a buffer that has room for it.
unfoldable pub serialize_into : RemoteMetadata → List ℕ → Result (List ℕ)
unfolding serialize
serialize_into self buffer = do
  bytes ← serialize self
  ensure (leb (length bytes) (length buffer)) struct_error
  ok (bytes ++ drop (length bytes) buffer)

unfoldable pub metadata_of_fields : List ℤ → Result RemoteMetadata
metadata_of_fields (length ∷ fmt ∷ dtype ∷ shape) = do
  dtype' ← int_to_dtype dtype
  fmt' ← format_of fmt
  ok (record { length = length; shape = shape; dtype = dtype'; fmt = fmt' })
metadata_of_fields zs = raise struct_error

unfoldable pub deserialize : List ℕ → Result RemoteMetadata
deserialize s = do zs ← unpack_from 7 s; metadata_of_fields zs

unfoldable pub serialize_message : ServerMetaMessage → Result (List ℕ)
serialize_message self = do
  zs ← fields self.length self.fmt self.dtype self.shape
  pack (self.code ∷ zs)

unfoldable pub message_of_fields : List ℤ → Result ServerMetaMessage
message_of_fields (code ∷ length ∷ fmt ∷ dtype ∷ shape) = do
  fmt' ← format_of fmt
  dtype' ← int_to_dtype dtype
  ok (record { code = code; length = length; fmt = fmt'; dtype = dtype'; shape = shape })
message_of_fields zs = raise struct_error

unfoldable pub deserialize_message : List ℕ → Result ServerMetaMessage
deserialize_message s = do zs ← unpack 8 s; message_of_fields zs

unfoldable pub packlength : ℕ
packlength = 4 * 8
