-- ===== src/Memory/Tensor.antt =====
-- MTDS/v1/memory_management.py: `TensorMemoryAllocator`. A method returns the new allocator beside
-- its result, or raises.
pub mod Owned
pub mod Free
pub mod Align
pub mod Allocate
pub mod Whole
pub mod Run
pub mod Program
use Prim.Native.Nat.{bit_and}
use mtds.Prelude.{
  ℕ, zero, suc, ◌+◌, ◌-◌, ◌*◌, ◌%◌, Bool, true, false, ◌&&◌, ◌||◌, Option, none, some, List, [],
  ◌∷◌, ◌++◌, length, get_elem?, set, ltb, leb, ◌==◌, if◌then◌else◌,
}
use mtds.Prelude.{
  Result, ok, raise, ensure, ◌>>=◌, ◌>>◌, value_error, index_error, assertion_error,
  attribute_error, zero_division, runtime_error,
}
use mtds.Prelude.Int.{ℤ, pos, ◌+ℤ◌, ◌-ℤ◌, eqb_ℤ}
use mtds.Memory.Objects.{
  MemoryFormat, Dtype, Torch, MemoryObjMetadata, Slice, TensorMemoryObj, invalidate,
}
use mtds.Memory.SortedList.{FreeBlock, SortedKeyList}
use mtds.Memory.FreeList.{first_fit, carve, add_free_block}

-- `buffer_size` is `buffer.numel()`; `stats_usage` is what the statistics monitor was last told.
pub record TensorMemoryAllocator : Type 0 where
  pub buffer_size : ℕ
  pub align_bytes : ℕ
  pub explicit_list : List FreeBlock
  pub num_active_allocations : ℕ
  pub total_allocated_size : ℤ
  pub stats_usage : ℤ

unfoldable pub init : ℕ → ℕ → TensorMemoryAllocator
init buffer_size align_bytes = record {
  buffer_size = buffer_size;
  align_bytes = align_bytes;
  explicit_list = record { start = 0; size = buffer_size } ∷ [];
  num_active_allocations = 0;
  total_allocated_size = pos 0;
  stats_usage = pos 0;
}

-- `x & ~m` clears in `x` the bits of `m`.
unfoldable pub compute_aligned_size : ℕ → ℕ → ℕ
compute_aligned_size raw_size align = let x = raw_size + align - 1 in x - bit_and x (align - 1)

-- `raw_size % 0` raises.
unfoldable pub aligned : ℕ → ℕ → Result ℕ
aligned raw_size align =
    if align == 0
    then raise zero_division
    else if raw_size % align == 0
    then ok raw_size
    else ok (compute_aligned_size raw_size align)

unfoldable pub require_dtype : Option Dtype → Result Dtype
require_dtype none = raise assertion_error
require_dtype (some dtype) = ok dtype

-- An object that is handed out, with the bytes `slice` of the buffer.
abbrev pub new_object : Slice → List ℕ → Dtype → ℕ → ℕ → MemoryFormat → Option ℕ → TensorMemoryObj
new_object slice shape dtype address phy_size fmt parent = record {
  raw_data = slice;
  meta = record {
    shape = shape;
    dtype = some dtype;
    address = address;
    phy_size = phy_size;
    ref_count = pos 1;
    is_pin = false;
    fmt = fmt;
  };
  valid = true;
  parent_allocator = parent;
}

-- The new free list, with the debug counters after `n` more allocations of `size` bytes in all.
abbrev pub count_allocated : TensorMemoryAllocator → List FreeBlock → ℕ → ℕ → TensorMemoryAllocator
count_allocated self l n size =
    let total = self.total_allocated_size +ℤ pos size in
    record self {
      explicit_list = l;
      num_active_allocations = self.num_active_allocations + n;
      total_allocated_size = total;
      stats_usage = total;
    }

-- `max(0, ... - n)` is the subtraction of the natural numbers.
abbrev pub count_freed : TensorMemoryAllocator → List FreeBlock → ℕ → ℕ → TensorMemoryAllocator
count_freed self l n size =
    let total = self.total_allocated_size -ℤ pos size in
    record self {
      explicit_list = l;
      num_active_allocations = self.num_active_allocations - n;
      total_allocated_size = total;
      stats_usage = total;
    }

-- The loop over the slices that `torch.chunk` returns.
unfoldable pub wrap_chunks :
    List Slice → ℕ → ℕ → List ℕ → Dtype → MemoryFormat → Option ℕ → List TensorMemoryObj
wrap_chunks [] temp_start size shape dtype fmt parent = []
wrap_chunks (raw_data ∷ rest) temp_start size shape dtype fmt parent =
    new_object raw_data shape dtype temp_start size fmt parent
    ∷ wrap_chunks rest (temp_start + size) size shape dtype fmt parent

unfoldable pub compute_raw_size : Torch → List ℕ → Dtype → ℕ
compute_raw_size torch shape dtype = torch.numel shape * torch.itemsize dtype

module _ (sl : SortedKeyList) where
  module _ (torch : Torch) where
    unfoldable pub allocate :
        TensorMemoryAllocator
        → List ℕ
        → Option Dtype
        → MemoryFormat
        → Option ℕ
        → Result (TensorMemoryAllocator × Option TensorMemoryObj)
    unfolding require_dtype
    allocate self shape dtype? fmt parent = do
      dtype ← require_dtype dtype?
      let raw_size = compute_raw_size torch shape dtype
      aligned_size ← aligned raw_size self.align_bytes
      elim (first_fit aligned_size self.explicit_list) [
        | none ↦ ok (self, none)
        | some block ↦ do
          rest ← carve sl aligned_size block self.explicit_list
          ok (
            count_allocated self rest 1 aligned_size,
            some (
                new_object (record { offset = block.start; count = raw_size }) shape dtype
                  block.start aligned_size fmt parent),
          )
      ]

    -- `torch.chunk` raises where no chunk is asked for.
    unfoldable pub batched_allocate :
        TensorMemoryAllocator
        → List ℕ
        → Option Dtype
        → ℕ
        → MemoryFormat
        → Option ℕ
        → Result (TensorMemoryAllocator × Option (List TensorMemoryObj))
    unfolding require_dtype
    batched_allocate self shape dtype? batch_size fmt parent = do
      dtype ← require_dtype dtype?
      unit_aligned_size ← aligned (compute_raw_size torch shape dtype) self.align_bytes
      let total_aligned_size = unit_aligned_size * batch_size
      elim (first_fit total_aligned_size self.explicit_list) [
        | none ↦ ok (self, none)
        | some block ↦ do
          rest ← carve sl total_aligned_size block self.explicit_list
          ensure (ltb 0 batch_size) runtime_error
          ok (
            count_allocated self rest batch_size total_aligned_size,
            some (
                wrap_chunks
                  (torch.chunk (record { offset = block.start; count = total_aligned_size })
                    batch_size)
                  block.start unit_aligned_size shape dtype fmt parent),
          )
      ]

  unfoldable pub free :
      TensorMemoryAllocator → TensorMemoryObj → Result (TensorMemoryAllocator × TensorMemoryObj)
  free self o =
      if o.valid
      then (do
        l ←
            add_free_block sl self.explicit_list
              (record { start = o.meta.address; size = o.meta.phy_size })
        ok (count_freed self l 1 o.meta.phy_size, invalidate o))
      else ok (self, o)
