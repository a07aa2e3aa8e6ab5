-- ===== src/Memory/Mixed.antt =====
-- MTDS/v1/memory_management.py: `BytesBufferMemoryObj`, `BufferAllocator` and `MixedMemoryAllocator`
-- without paging. The allocator keeps the memory objects that it has made, and a reference to one is
-- its place among them.
pub mod Counted
pub mod Counting
pub mod Fresh
use mtds.Prelude.{
  ℕ, zero, suc, ◌+◌, Bool, true, false, Option, none, some, List, [], ◌∷◌, ◌++◌, map, take, drop,
  length, get_elem?, set, if◌then◌else◌, Result, ok, raise, ◌>>=◌, value_error, index_error,
}
use mtds.Prelude.Int.{ℤ, pos}
use mtds.Memory.Objects.{
  MemoryFormat, undefined, kv_2ltd, kv_t2d, kv_2td, binary, binary_buffer, kv_mla_fmt, Dtype, Torch,
  MemoryObjMetadata, TensorMemoryObj, ref_count_up, ref_count_down, pin, unpin,
}
use mtds.Memory.SortedList.{SortedKeyList}
use mtds.Memory.Tensor.{
  TensorMemoryAllocator, init as tensor_init, allocate as tensor_allocate,
  batched_allocate as tensor_batched_allocate, free as tensor_free,
}
use mtds.Memory.Batch.{memcheck as tensor_memcheck, batched_free as tensor_batched_free}

pub record BytesBufferMemoryObj : Type 0 where
  pub raw_data : List ℕ
  pub meta : MemoryObjMetadata
  pub valid : Bool

-- `bytearray(n)`
abbrev pub bytearray : ℕ → List ℕ
bytearray zero = []
bytearray (suc n) = 0 ∷ bytearray n

-- The constructor without metadata.
unfoldable pub wrap_bytes : List ℕ → BytesBufferMemoryObj
wrap_bytes raw_bytes = record {
  raw_data = raw_bytes;
  meta = record {
    shape = length raw_bytes ∷ 0 ∷ 0 ∷ 0 ∷ [];
    dtype = none;
    address = 0;
    phy_size = 0;
    ref_count = pos 1;
    is_pin = false;
    fmt = binary_buffer;
  };
  valid = true;
}

-- A reference to a memory object.
pub data MemoryRef : Type 0 where
  tensor_obj bytes_obj : ℕ → MemoryRef

pub record MixedMemoryAllocator : Type 0 where
  pub pin_allocator : TensorMemoryAllocator
  pub objects : List TensorMemoryObj
  pub buffers : List BytesBufferMemoryObj

-- Without paging. The code leaves the alignment to the default of `TensorMemoryAllocator`.
unfoldable pub init : ℕ → ℕ → MixedMemoryAllocator
unfolding tensor_init
init size align_bytes = record {
  pin_allocator = tensor_init size align_bytes;
  objects = [];
  buffers = [];
}

-- The branches of the methods.
pub data Target : Type 0 where
  to_buffer to_pin unsupported : Target

unfoldable pub target : MemoryFormat → Target
target binary_buffer = to_buffer
target kv_2ltd = to_pin
target kv_2td = to_pin
target kv_t2d = to_pin
target kv_mla_fmt = to_pin
target undefined = unsupported
target binary = unsupported

-- `self` as the parent of what the pinned allocator hands out.
abbrev pub itself : Option ℕ
itself = some 0

-- `shape[0]`
unfoldable pub first_dim : List ℕ → Result ℕ
first_dim [] = raise index_error
first_dim (n ∷ ns) = ok n

-- `BufferAllocator.batched_allocate`
unfoldable pub buffer_objects : ℕ → ℕ → List BytesBufferMemoryObj
unfolding wrap_bytes
buffer_objects n zero = []
buffer_objects n (suc batch_size) = wrap_bytes (bytearray n) ∷ buffer_objects n batch_size

-- The references to `n` objects from the place `i` on.
abbrev pub refs_from : (ℕ → MemoryRef) → ℕ → ℕ → List MemoryRef
refs_from ref i zero = []
refs_from ref i (suc n) = ref i ∷ refs_from ref (suc i) n

-- What `TensorMemoryAllocator.batched_free` sees of an object that is not one of its own: the metadata
-- and whether it is valid.
abbrev pub as_tensor_obj : BytesBufferMemoryObj → TensorMemoryObj
as_tensor_obj o = record {
  raw_data = record { offset = 0; count = 0 };
  meta = o.meta;
  valid = o.valid;
  parent_allocator = none;
}

-- Both kinds of objects in one list: the buffers stand behind the objects of the pinned memory.
abbrev pub all_objects : MixedMemoryAllocator → List TensorMemoryObj
all_objects self = self.objects ++ map as_tensor_obj self.buffers

abbrev pub places : ℕ → List MemoryRef → List ℕ
places n [] = []
places n (tensor_obj i ∷ refs) = i ∷ places n refs
places n (bytes_obj i ∷ refs) = (n + i) ∷ places n refs

-- The buffers with the flags that are left to them.
abbrev pub with_valid : List BytesBufferMemoryObj → List TensorMemoryObj → List BytesBufferMemoryObj
with_valid [] seen = []
with_valid (o ∷ os) [] = o ∷ os
with_valid (o ∷ os) (p ∷ ps) = record o { valid = p.valid } ∷ with_valid os ps

-- The new object of the pinned allocator at the end of the store.
abbrev pub keep_object :
    MixedMemoryAllocator
    → TensorMemoryAllocator
    → Option TensorMemoryObj
    → MixedMemoryAllocator × Option MemoryRef
keep_object self pin_allocator none = (record self { pin_allocator = pin_allocator }, none)
keep_object self pin_allocator (some o) = (
  record self { pin_allocator = pin_allocator; objects = self.objects ++ o ∷ [] },
  some (tensor_obj (length self.objects)),
)

abbrev pub keep_objects :
    MixedMemoryAllocator
    → TensorMemoryAllocator
    → Option (List TensorMemoryObj)
    → MixedMemoryAllocator × Option (List MemoryRef)
keep_objects self pin_allocator none = (record self { pin_allocator = pin_allocator }, none)
keep_objects self pin_allocator (some os) = (
  record self { pin_allocator = pin_allocator; objects = self.objects ++ os },
  some (refs_from tensor_obj (length self.objects) (length os)),
)

module _ (sl : SortedKeyList) where
  module _ (torch : Torch) where
    unfoldable pub allocate :
        MixedMemoryAllocator
        → List ℕ
        → Option Dtype
        → MemoryFormat
        → Result (MixedMemoryAllocator × Option MemoryRef)
    unfolding target first_dim wrap_bytes
    allocate self shape dtype fmt = elim (target fmt) [
      | to_buffer ↦ do
        n ← first_dim shape
        ok (
          record self { buffers = self.buffers ++ wrap_bytes (bytearray n) ∷ [] },
          some (bytes_obj (length self.buffers)),
        )
      | to_pin ↦ do
        (pin_allocator, o) ← tensor_allocate sl torch self.pin_allocator shape dtype fmt itself
        ok (keep_object self pin_allocator o)
      | unsupported ↦ raise value_error
    ]

    unfoldable pub batched_allocate :
        MixedMemoryAllocator
        → List ℕ
        → Option Dtype
        → ℕ
        → MemoryFormat
        → Result (MixedMemoryAllocator × Option (List MemoryRef))
    unfolding target first_dim buffer_objects
    batched_allocate self shape dtype batch_size fmt = elim (target fmt) [
      | to_buffer ↦ do
        n ← first_dim shape
        ok (
          record self { buffers = self.buffers ++ buffer_objects n batch_size },
          some (refs_from bytes_obj (length self.buffers) batch_size),
        )
      | to_pin ↦ do
        (pin_allocator, os) ←
            tensor_batched_allocate sl torch self.pin_allocator shape dtype batch_size fmt itself
        ok (keep_objects self pin_allocator os)
      | unsupported ↦ raise value_error
    ]

  -- A place without an object is nobody's reference. Only objects with the format of a buffer are
  -- `BytesBufferMemoryObj`.
  unfoldable pub free : MixedMemoryAllocator → MemoryRef → Result MixedMemoryAllocator
  unfolding target
  free self (bytes_obj i) = ok self
  free self (tensor_obj i) = elim (get_elem? self.objects i) [
    | none ↦ ok self
    | some o ↦ elim (target o.meta.fmt) [
      | to_buffer ↦ ok self
      | to_pin ↦ do
        (pin_allocator, o') ← tensor_free sl self.pin_allocator o
        ok (record self { pin_allocator = pin_allocator; objects = set self.objects i o' })
      | unsupported ↦ raise value_error
    ]
  ]

  -- `memory_objs[0]` raises where the list is empty. Its format decides where the whole list goes.
  unfoldable pub batched_free : MixedMemoryAllocator → List MemoryRef → Result MixedMemoryAllocator
  unfolding target
  batched_free self [] = raise index_error
  batched_free self (bytes_obj i ∷ rest) = ok self
  batched_free self (tensor_obj i ∷ rest) = elim (get_elem? self.objects i) [
    | none ↦ raise index_error
    | some o ↦ elim (target o.meta.fmt) [
      | to_buffer ↦ ok self
      | to_pin ↦ do
        (pin_allocator, objects) ←
            tensor_batched_free sl self.pin_allocator (all_objects self)
              (places (length self.objects) (tensor_obj i ∷ rest)) true
        ok (record self {
          pin_allocator = pin_allocator;
          objects = take (length self.objects) objects;
          buffers = with_valid self.buffers (drop (length self.objects) objects);
        })
      | unsupported ↦ raise value_error
    ]
  ]

  -- `ref_count_down` of an object, which gives it back to its parent where the count reaches 0.
  unfoldable pub release : MixedMemoryAllocator → MemoryRef → Result MixedMemoryAllocator
  unfolding ref_count_down free
  release self (bytes_obj i) = ok self
  release self (tensor_obj i) = elim (get_elem? self.objects i) [
    | none ↦ ok self
    | some o ↦
        let (o', parent) = ref_count_down o in
        let self' = record self { objects = set self.objects i o' } in
        elim parent [ none ↦ ok self' | some _ ↦ free self' (tensor_obj i) ]
  ]

unfoldable pub memcheck : MixedMemoryAllocator → Bool
memcheck self = tensor_memcheck self.pin_allocator

-- A method that changes the object behind a reference in place.
abbrev pub change_object :
    (TensorMemoryObj → TensorMemoryObj) → MixedMemoryAllocator → ℕ → MixedMemoryAllocator
change_object f self i = elim (get_elem? self.objects i) [
  | none ↦ self
  | some o ↦ record self { objects = set self.objects i (f o) }
]

abbrev pub change_buffer :
    (BytesBufferMemoryObj → BytesBufferMemoryObj) → MixedMemoryAllocator → ℕ → MixedMemoryAllocator
change_buffer f self i = elim (get_elem? self.buffers i) [
  | none ↦ self
  | some o ↦ record self { buffers = set self.buffers i (f o) }
]

-- `ref_count_up` of an object: the buffers do not count.
unfoldable pub retain : MixedMemoryAllocator → MemoryRef → MixedMemoryAllocator
unfolding ref_count_up
retain self (tensor_obj i) = change_object ref_count_up self i
retain self (bytes_obj i) = self

abbrev pub set_pin : Bool → BytesBufferMemoryObj → BytesBufferMemoryObj
set_pin b o = record o { meta = record o.meta { is_pin = b } }

unfoldable pub pin_ref : MixedMemoryAllocator → MemoryRef → MixedMemoryAllocator
unfolding pin
pin_ref self (tensor_obj i) = change_object pin self i
pin_ref self (bytes_obj i) = change_buffer (set_pin true) self i

unfoldable pub unpin_ref : MixedMemoryAllocator → MemoryRef → MixedMemoryAllocator
unfolding unpin
unpin_ref self (tensor_obj i) = change_object unpin self i
unpin_ref self (bytes_obj i) = change_buffer (set_pin false) self i

unfoldable pub get_ref_count : MixedMemoryAllocator → MemoryRef → ℤ
get_ref_count self (tensor_obj i) = elim (get_elem? self.objects i) [
  | none ↦ pos 0
  | some o ↦ o.meta.ref_count
]
get_ref_count self (bytes_obj i) = pos 1

-- The buffer of the allocator is a tensor of bytes.
unfoldable pub get_size : MixedMemoryAllocator → MemoryRef → ℕ
get_size self (tensor_obj i) = elim (get_elem? self.objects i) [
  | none ↦ 0
  | some o ↦ o.raw_data.count
]
get_size self (bytes_obj i) = elim (get_elem? self.buffers i) [
  | none ↦ 0
  | some o ↦ length o.raw_data
]

unfoldable pub is_pinned : MixedMemoryAllocator → MemoryRef → Bool
is_pinned self (tensor_obj i) = elim (get_elem? self.objects i) [
  | none ↦ false
  | some o ↦ o.meta.is_pin
]
is_pinned self (bytes_obj i) = elim (get_elem? self.buffers i) [
  | none ↦ false
  | some o ↦ o.meta.is_pin
]
