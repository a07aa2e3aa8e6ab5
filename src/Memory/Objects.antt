-- ===== src/Memory/Objects.antt =====
-- MTDS/v1/memory_management.py: formats, metadata and memory objects.
use mtds.Prelude.{
  ℕ, zero, suc, ◌+◌, ◌*◌, ◌<◌, ◌≡◌, [], ◌∷◌, Bool, true, false, ◌&&◌, Option, none, some, List,
  ◌==◌, if◌then◌else◌, not,
}
use mtds.Prelude.{Result, ok, raise, value_error}
use mtds.Prelude.Int.{ℤ, pos, ◌+ℤ◌, ◌-ℤ◌, eqb_ℤ}

pub data MemoryFormat : Type 0 where
  undefined kv_2ltd kv_t2d kv_2td binary binary_buffer kv_mla_fmt : MemoryFormat

-- `fmt.value`
unfoldable pub value : MemoryFormat → ℕ
value undefined = 0
value kv_2ltd = 1
value kv_t2d = 2
value kv_2td = 3
value binary = 4
value binary_buffer = 5
value kv_mla_fmt = 6

-- `MemoryFormat(n)`
unfoldable pub format_of_value : ℕ → Result MemoryFormat
format_of_value n =
    if n == 0
    then ok undefined
    else if n == 1
    then ok kv_2ltd
    else if n == 2
    then ok kv_t2d
    else if n == 3
    then ok kv_2td
    else if n == 4
    then ok binary
    else if n == 5
    then ok binary_buffer
    else if n == 6
    then ok kv_mla_fmt
    else raise value_error

unfoldable pub token_dim : MemoryFormat → ℕ
token_dim kv_2ltd = 2
token_dim kv_t2d = 1
token_dim kv_2td = 0
token_dim binary = 0
token_dim binary_buffer = 0
token_dim kv_mla_fmt = 2
token_dim undefined = 0

-- The dtypes of torch that the source names. `torch.half` is `torch.float16`, `torch.float` is
-- `torch.float32` and `torch.double` is `torch.float64`.
pub data Dtype : Type 0 where
  float16 bfloat16 float32 float64 uint8 float8_e4m3fn float8_e5m2 : Dtype

-- A slice of the allocator's buffer, which is a flat tensor of bytes.
pub record Slice : Type 0 where
  pub offset : ℕ
  pub count : ℕ

abbrev pub slices : ℕ → ℕ → ℕ → List Slice
slices zero offset size = []
slices (suc n) offset size =
    record { offset = offset; count = size } ∷ slices n (offset + size) size

-- What the code asks of torch: `torch.Size.numel`, `torch.dtype.itemsize`, and `torch.chunk`, which
-- cuts a slice into equal slices where their number divides its length.
pub record Torch : Type 0 where
  pub numel : List ℕ → ℕ
  pub itemsize : Dtype → ℕ
  pub chunk : Slice → ℕ → List Slice
  pub chunk_lem :
      (offset size n : ℕ)
      → 0 < size
      → 0 < n
      → chunk (record { offset = offset; count = size * n }) n ≡ slices n offset size

-- `cached_positions` is left out: nothing in the memory management reads or writes it.
pub record MemoryObjMetadata : Type 0 where
  pub shape : List ℕ
  pub dtype : Option Dtype
  pub address : ℕ
  pub phy_size : ℕ
  pub ref_count : ℤ
  pub is_pin : Bool
  pub fmt : MemoryFormat

unfoldable pub metadata_size : Torch → MemoryObjMetadata → ℕ
metadata_size torch m =
    if torch.numel m.shape == 0
    then 0
    else elim m.dtype [ none ↦ 0 | some dtype ↦ torch.numel m.shape * torch.itemsize dtype ]

-- `parent_allocator` names the allocator that a last `ref_count_down` gives the object back to.
pub record TensorMemoryObj : Type 0 where
  pub raw_data : Slice
  pub meta : MemoryObjMetadata
  pub valid : Bool
  pub parent_allocator : Option ℕ

unfoldable pub invalidate : TensorMemoryObj → TensorMemoryObj
invalidate o = record o { valid = false }

unfoldable pub ref_count_up : TensorMemoryObj → TensorMemoryObj
ref_count_up o = record o { meta = record o.meta { ref_count = o.meta.ref_count +ℤ pos 1 } }

-- The object after the count went down, and the allocator that has to free it, if any.
unfoldable pub ref_count_down : TensorMemoryObj → TensorMemoryObj × Option ℕ
ref_count_down o =
    let count = o.meta.ref_count -ℤ pos 1 in
    (
      record o { meta = record o.meta { ref_count = count } },
      if eqb_ℤ count (pos 0) && not o.meta.is_pin then o.parent_allocator else none,
    )

unfoldable pub pin : TensorMemoryObj → TensorMemoryObj
pin o = record o { meta = record o.meta { is_pin = true } }

unfoldable pub unpin : TensorMemoryObj → TensorMemoryObj
unpin o = record o { meta = record o.meta { is_pin = false } }
