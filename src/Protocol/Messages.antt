-- ===== src/Protocol/Messages.antt =====
-- The metadata and the message of the server: written and read.
use mtds.Prelude.{
  ℕ, ◌≡◌, ◌≢◌, refl, ap, sym, Option, none, some, List, [], ◌∷◌, length, All, ok, raise,
  struct_error, arith,
}
use mtds.Prelude.Int.{ℤ, pos}
use mtds.Memory.Objects.{
  MemoryFormat, value, format_of_value, undefined, kv_2ltd, kv_t2d, kv_2td, binary, binary_buffer,
  kv_mla_fmt, Dtype, float16, bfloat16, float32, float64, uint8, float8_e4m3fn, float8_e5m2,
}
use mtds.Protocol.{
  RemoteMetadata, ServerMetaMessage, dtype_to_int, dtype_of_code, int_to_dtype, format_of, unpack,
  unpack_from, fields, serialize, deserialize, metadata_of_fields, serialize_message,
  deserialize_message, message_of_fields, packlength,
}
use mtds.Protocol.Words.{IsInt32, unpack_ints-pack, unpack-refuses}

pub int_to_dtype-dtype_to_int : (d : Option Dtype) → int_to_dtype (dtype_to_int d) ≡ ok d
unfolding int_to_dtype dtype_to_int dtype_of_code
int_to_dtype-dtype_to_int none = refl
int_to_dtype-dtype_to_int (some float16) = refl
int_to_dtype-dtype_to_int (some bfloat16) = refl
int_to_dtype-dtype_to_int (some float32) = refl
int_to_dtype-dtype_to_int (some float64) = refl
int_to_dtype-dtype_to_int (some uint8) = refl
int_to_dtype-dtype_to_int (some float8_e4m3fn) = refl
int_to_dtype-dtype_to_int (some float8_e5m2) = refl

pub dtype_to_int-IsInt32 : (d : Option Dtype) → IsInt32 (dtype_to_int d)
unfolding dtype_to_int
dtype_to_int-IsInt32 none = omega arith
dtype_to_int-IsInt32 (some float16) = omega arith
dtype_to_int-IsInt32 (some bfloat16) = omega arith
dtype_to_int-IsInt32 (some float32) = omega arith
dtype_to_int-IsInt32 (some float64) = omega arith
dtype_to_int-IsInt32 (some uint8) = omega arith
dtype_to_int-IsInt32 (some float8_e4m3fn) = omega arith
dtype_to_int-IsInt32 (some float8_e5m2) = omega arith

pub format_of-value : (f : MemoryFormat) → format_of (pos (value f)) ≡ ok f
unfolding format_of value format_of_value
format_of-value undefined = refl
format_of-value kv_2ltd = refl
format_of-value kv_t2d = refl
format_of-value kv_2td = refl
format_of-value binary = refl
format_of-value binary_buffer = refl
format_of-value kv_mla_fmt = refl

pub value-IsInt32 : (f : MemoryFormat) → IsInt32 (pos (value f))
unfolding value
value-IsInt32 undefined = omega arith
value-IsInt32 kv_2ltd = omega arith
value-IsInt32 kv_t2d = omega arith
value-IsInt32 kv_2td = omega arith
value-IsInt32 binary = omega arith
value-IsInt32 binary_buffer = omega arith
value-IsInt32 kv_mla_fmt = omega arith

-- Metadata with four dimensions whose integers have 32 bits is written in 28 bytes, and read back as
-- what it was.
pub deserialize-serialize :
    (self : RemoteMetadata) (a b c d : ℤ)
    → self.shape ≡ a ∷ b ∷ c ∷ d ∷ []
    → All IsInt32 (self.length ∷ a ∷ b ∷ c ∷ d ∷ [])
    → (bytes : List ℕ) × (serialize self ≡ ok bytes)
      × (length bytes ≡ 28)
      × (deserialize bytes ≡ ok self)
unfolding serialize deserialize fields metadata_of_fields unpack_from
deserialize-serialize self a b c d e (hl, shape) =
    let zs = self.length ∷ pos (value self.fmt) ∷ dtype_to_int self.dtype ∷ a ∷ b ∷ c ∷ d ∷ [] in
    let (bytes, packed, size, back) =
      unpack_ints-pack zs
        (hl, (value-IsInt32 self.fmt, (dtype_to_int-IsInt32 self.dtype, shape))) in
    (
      bytes,
      rw (e, packed) refl,
      omega (arith, size),
      rw (back, int_to_dtype-dtype_to_int self.dtype, format_of-value self.fmt)
          (ap (λ s. ok (record self { shape = s })) (sym e)),
    )

-- A message of the server with four dimensions whose integers have 32 bits has `packlength` bytes, and
-- is read back as what it was.
pub deserialize_message-serialize_message :
    (self : ServerMetaMessage) (a b c d : ℤ)
    → self.shape ≡ a ∷ b ∷ c ∷ d ∷ []
    → All IsInt32 (self.code ∷ self.length ∷ a ∷ b ∷ c ∷ d ∷ [])
    → (bytes : List ℕ) × (serialize_message self ≡ ok bytes)
      × (length bytes ≡ packlength)
      × (deserialize_message bytes ≡ ok self)
unfolding serialize_message deserialize_message fields message_of_fields unpack packlength
deserialize_message-serialize_message self a b c d e (hc, (hl, shape)) =
    let zs =
      self.code
      ∷ self.length
      ∷ pos (value self.fmt)
      ∷ dtype_to_int self.dtype
      ∷ a
      ∷ b
      ∷ c
      ∷ d
      ∷ [] in
    let (bytes, packed, size, back) =
      unpack_ints-pack zs
        (hc, (hl, (value-IsInt32 self.fmt, (dtype_to_int-IsInt32 self.dtype, shape)))) in
    (
      bytes,
      rw (e, packed) refl,
      omega (arith, size),
      rw (back, int_to_dtype-dtype_to_int self.dtype, format_of-value self.fmt)
          (ap (λ s. ok (record self { shape = s })) (sym e)),
    )

-- The client refuses a message of any other length.
deserialize_message_refuses :
    (bytes : List ℕ) → length bytes ≢ packlength → deserialize_message bytes ≡ raise struct_error
unfolding deserialize_message packlength
deserialize_message_refuses bytes ne = rw (unpack-refuses 8 bytes ne) refl
