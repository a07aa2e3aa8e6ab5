-- ===== src/Memory/Paged.antt =====
-- MTDS/v1/memory_management.py: `PagedTensorMemoryAllocator`. The objects are made once, one for each
-- page, and the queue of free pages and the callers share them: a reference is the place of the
-- object in `objects`, which is the number of its page.
pub mod Pages
pub mod Sound
pub mod Run
pub mod Start
mod Tests
use mtds.Prelude.{
  ℕ, zero, suc, ◌+◌, ◌-◌, ◌*◌, ◌%◌, ◌<◌, ◌≡◌, min, Bool, true, false, ◌&&◌, not, Option, none, some,
  List, [], ◌∷◌, ◌++◌, length, get_elem?, ◌==◌, if◌then◌else◌, Result, ok, raise, ensure, ◌>>=◌,
  ◌>>◌, assertion_error, zero_division, index_error,
}
use mtds.Prelude.Int.{ℤ, pos, ◌+ℤ◌, ◌-ℤ◌, eqb_ℤ}
use mtds.Memory.Objects.{
  MemoryFormat, Dtype, Torch, MemoryObjMetadata, Slice, slices, TensorMemoryObj,
}
use mtds.Memory.Tensor.{require_dtype}

-- What the code asks of `torch.split`: equal slices where their size divides the length.
pub record Splitter : Type 0 where
  pub split : Slice → ℕ → List Slice
  pub split_lem :
      (size n : ℕ)
      → 0 < size
      → 0 < n
      → split (record { offset = 0; count = n * size }) size ≡ slices n 0 size

-- `stats_usage` is what the statistics monitor was last told. The dtype of the constructor is kept in
-- every object and in `bytes_per_element`.
pub record PagedTensorMemoryAllocator : Type 0 where
  pub buffer_size : ℕ
  pub shape : List ℕ
  pub fmt : MemoryFormat
  pub bytes_per_element : ℕ
  pub align_bytes : ℕ
  pub paged_buffers : List Slice
  pub objects : List TensorMemoryObj
  pub free_blocks : List ℕ
  pub num_active_allocations : ℕ
  pub total_allocated_size : ℤ
  pub stats_usage : ℤ

-- `==` of two `torch.Size`.
abbrev pub shape_eq : List ℕ → List ℕ → Bool
shape_eq [] [] = true
shape_eq [] (n ∷ ns) = false
shape_eq (m ∷ ms) [] = false
shape_eq (m ∷ ms) (n ∷ ns) = m == n && shape_eq ms ns

-- A change in place of the object at `i`.
abbrev pub update :
    List TensorMemoryObj → ℕ → (TensorMemoryObj → TensorMemoryObj) → List TensorMemoryObj
update [] i f = []
update (o ∷ os) zero f = f o ∷ os
update (o ∷ os) (suc i) f = o ∷ update os i f

-- The loop of the constructor: the objects of the pages from `idx` on, with their numbers.
unfoldable pub page_objects :
    List ℕ → Dtype → MemoryFormat → Option ℕ → ℕ → List Slice → List TensorMemoryObj × List ℕ
page_objects shape dtype fmt parent idx [] = ([], [])
page_objects shape dtype fmt parent idx (buf ∷ bufs) =
    let (objects, free_blocks) = page_objects shape dtype fmt parent (suc idx) bufs in
    let o : TensorMemoryObj = record {
      raw_data = buf;
      meta = record {
        shape = shape;
        dtype = some dtype;
        address = idx;
        phy_size = 1;
        ref_count = pos 1;
        is_pin = false;
        fmt = fmt;
      };
      valid = true;
      parent_allocator = parent;
    } in
    (o ∷ objects, idx ∷ free_blocks)

module _ (torch : Torch) where
  -- `buffer_size % 0` raises. `name` is the allocator's own name, as the objects' parent.
  unfoldable pub init :
      Splitter → ℕ → List ℕ → Dtype → MemoryFormat → ℕ → Result PagedTensorMemoryAllocator
  init splitter buffer_size shape dtype fmt name =
      let bytes_per_element = torch.itemsize dtype in
      let align_bytes = torch.numel shape * bytes_per_element in
      do
        ensure (not (align_bytes == 0)) zero_division
        ensure (buffer_size % align_bytes == 0) assertion_error
        let paged_buffers = splitter.split (record { offset = 0; count = buffer_size }) align_bytes
        let (objects, free_blocks) = page_objects shape dtype fmt (some name) 0 paged_buffers
        ok (record {
          buffer_size = buffer_size;
          shape = shape;
          fmt = fmt;
          bytes_per_element = bytes_per_element;
          align_bytes = align_bytes;
          paged_buffers = paged_buffers;
          objects = objects;
          free_blocks = free_blocks;
          num_active_allocations = 0;
          total_allocated_size = pos 0;
          stats_usage = pos 0;
        })

  -- What an allocation writes into the object of its page: `raw_data[:size_in_bytes]` is cut only
  -- where the shape is not the allocator's.
  unfoldable pub prepare :
      PagedTensorMemoryAllocator → List ℕ → MemoryFormat → TensorMemoryObj → TensorMemoryObj
  prepare self shape fmt o = record o {
    meta = record o.meta { shape = shape; fmt = fmt; ref_count = pos 1 };
    raw_data = if shape_eq shape self.shape then o.raw_data else record o.raw_data {
      count = min (torch.numel shape * self.bytes_per_element) o.raw_data.count;
    };
  }

  -- `free_blocks.popleft()` and the changes of the object; `none` for the `IndexError`.
  unfoldable pub pop_page :
      PagedTensorMemoryAllocator → List ℕ → MemoryFormat → Option (PagedTensorMemoryAllocator × ℕ)
  pop_page self shape fmt = elim self.free_blocks [
    | [] ↦ none
    | i ∷ rest ↦ some (
      record self { free_blocks = rest; objects = update self.objects i (prepare self shape fmt) },
      i,
    )
  ]

  -- The parameter `parent_allocator` of the method is never read.
  unfoldable pub allocate :
      PagedTensorMemoryAllocator
      → List ℕ
      → Option Dtype
      → MemoryFormat
      → Result (PagedTensorMemoryAllocator × Option ℕ)
  unfolding require_dtype
  allocate self shape dtype? fmt = do
    dtype ← require_dtype dtype?
    elim (pop_page self shape fmt) [
      | none ↦ ok (self, none)
      | some (self', i) ↦
          let total = self'.total_allocated_size +ℤ pos self'.align_bytes in
          ok (
            record self' {
              num_active_allocations = self'.num_active_allocations + 1;
              total_allocated_size = total;
              stats_usage = total;
            },
            some i,
          )
    ]

-- `paged_buffers[page_idx]` where the object was cut.
unfoldable pub refill :
    PagedTensorMemoryAllocator → ℕ → TensorMemoryObj → Result (List TensorMemoryObj)
refill self i o =
    if shape_eq o.meta.shape self.shape
    then ok self.objects
    else elim (get_elem? self.paged_buffers o.meta.address) [
      | none ↦ raise index_error
      | some buf ↦ ok (update self.objects i (λ o. record o { raw_data = buf }))
    ]

-- The page of the object at the end of the queue.
unfoldable pub push_page :
    PagedTensorMemoryAllocator → ℕ → TensorMemoryObj → Result PagedTensorMemoryAllocator
unfolding refill
push_page self i o = do
  objects ← refill self i o
  ok (record self { objects = objects; free_blocks = self.free_blocks ++ i ∷ [] })

-- An object that is not valid is passed over.
unfoldable pub return_page : PagedTensorMemoryAllocator → ℕ → Result PagedTensorMemoryAllocator
unfolding push_page
return_page self i = elim (get_elem? self.objects i) [
  | none ↦ ok self
  | some o ↦ if o.valid then push_page self i o else ok self
]

unfoldable pub return_pages :
    PagedTensorMemoryAllocator → List ℕ → Result PagedTensorMemoryAllocator
unfolding return_page
return_pages self [] = ok self
return_pages self (i ∷ is) = do self' ← return_page self i; return_pages self' is

unfoldable pub count_freed : PagedTensorMemoryAllocator → ℕ → PagedTensorMemoryAllocator
count_freed self n =
    let total = self.total_allocated_size -ℤ pos (self.align_bytes * n) in
    record self {
      total_allocated_size = total;
      num_active_allocations = self.num_active_allocations - n;
      stats_usage = total;
    }

-- `free` leaves the counters alone where the object is not valid.
unfoldable pub free : PagedTensorMemoryAllocator → ℕ → Result PagedTensorMemoryAllocator
unfolding push_page count_freed
free self i = elim (get_elem? self.objects i) [
  | none ↦ ok self
  | some o ↦ if o.valid then (do self' ← push_page self i o; ok (count_freed self' 1)) else ok self
]

-- The counters fall by the number of all objects that are passed, valid or not.
unfoldable pub batched_free :
    PagedTensorMemoryAllocator → List ℕ → Bool → Result PagedTensorMemoryAllocator
unfolding return_pages count_freed
batched_free self is update_stats = do
  self' ← return_pages self is
  ok (if update_stats then count_freed self' (length is) else self')

module _ (torch : Torch) where
  unfoldable pub take_pages :
      PagedTensorMemoryAllocator
      → List ℕ
      → MemoryFormat
      → ℕ
      → List ℕ
      → Result (PagedTensorMemoryAllocator × Option (List ℕ))
  unfolding batched_free
  take_pages self shape fmt zero allocated = ok (self, some allocated)
  take_pages self shape fmt (suc n) allocated = elim (pop_page torch self shape fmt) [
    | none ↦ do self' ← batched_free self allocated false; ok (self', none)
    | some (self', i) ↦ take_pages self' shape fmt n (allocated ++ i ∷ [])
  ]

  unfoldable pub batched_allocate :
      PagedTensorMemoryAllocator
      → List ℕ
      → Option Dtype
      → ℕ
      → MemoryFormat
      → Result (PagedTensorMemoryAllocator × Option (List ℕ))
  unfolding require_dtype
  batched_allocate self shape dtype? batch_size fmt = do
    dtype ← require_dtype dtype?
    (self', pages) ← take_pages self shape fmt batch_size []
    elim pages [
      | none ↦ ok (self', none)
      | some allocated ↦
          let n = self'.num_active_allocations + batch_size in
          let total = pos (n * self'.align_bytes) in
          ok (
            record self' {
              num_active_allocations = n;
              total_allocated_size = total;
              stats_usage = total;
            },
            some allocated,
          )
    ]

unfoldable pub memcheck : PagedTensorMemoryAllocator → Bool
memcheck self =
    let total_free_size = length self.free_blocks * self.align_bytes in
    eqb_ℤ (pos total_free_size +ℤ self.total_allocated_size) (pos self.buffer_size)
