-- ===== src/Memory/Tensor/Allocate.antt =====
-- `allocate` and `batched_allocate`: they raise nothing where a dtype is given, find the first block
-- that is large enough, and keep the ownership of the bytes.
use mtds.Prelude.{
  ℕ, ◌^◌, ◌<◌, ◌≡◌, refl, true, Option, List, ◌∷◌, some, none, arith, All, ok, Option-cases, inl,
  inr,
}
use mtds.Prelude.Int.{pos-+ℤ}
use mtds.Memory.Objects.{TensorMemoryObj, MemoryFormat, Dtype, Torch}
use mtds.Memory.SortedList.{FreeBlock, SortedKeyList}
use mtds.Memory.Batch.{block_of}
use mtds.Memory.FreeList.{first_fit}
use mtds.Memory.FreeList.Carve.{
  Found, first_fit-Found, first_fit-none, carved, carved-Chain, cover-carved, total_size-carved,
  carve-carved,
}
use mtds.Memory.Tensor.{
  TensorMemoryAllocator, compute_raw_size, aligned, new_object, count_allocated, allocate,
}
use mtds.Memory.Tensor.Owned.{held, held_size, held_count, IsValid}
use mtds.Memory.Tensor.Align.{IsRoundedUp, aligned-IsRoundedUp}

-- The buffer and its alignment stay what they are.
abbrev pub SameBuffer : TensorMemoryAllocator → TensorMemoryAllocator → Type 0
SameBuffer self self' =
    (self'.buffer_size ≡ self.buffer_size) × (self'.align_bytes ≡ self.align_bytes)

-- What a call returns: the first block that is large enough gives its first bytes to a new object,
-- or no block is large enough and nothing changes.
pub data Allocated (raw size : ℕ) (self : TensorMemoryAllocator) (objs : List TensorMemoryObj)
    : TensorMemoryAllocator → Option TensorMemoryObj → Type 0 where
  full : All (λ b. b.size < size) self.explicit_list → Allocated raw size self objs self none
  fits :
      {self' : TensorMemoryAllocator} {o : TensorMemoryObj} (b : FreeBlock)
      → Found size b self.explicit_list
      → o.raw_data ≡ record { offset = b.start; count = raw }
      → block_of o ≡ record { start = b.start; size = size }
      → o.valid ≡ true
      → SameBuffer self self'
      → IsValid self' (o ∷ objs)
      → Allocated raw size self objs self' (some o)

module _ (sl : SortedKeyList) (torch : Torch) (self : TensorMemoryAllocator)
    (objs : List TensorMemoryObj) (v : IsValid self objs) where
  -- The invariant where `n` new objects take `size` bytes of a block.
  carved-IsValid :
      (size : ℕ) (b : FreeBlock) (f : Found size b self.explicit_list) (o : TensorMemoryObj)
      → 0 < size
      → block_of o ≡ record { start = b.start; size = size }
      → o.valid ≡ true
      → IsValid (count_allocated self (carved size b self.explicit_list f) 1 size) (o ∷ objs)
  unfolding held held_size held_count
  carved-IsValid size b f o filled lies valid = record {
    chain = carved-Chain size b self.explicit_list f self.buffer_size v.chain;
    owned = λ a. ground (arith, cover-carved size b self.explicit_list f a, v.owned a);
    sizes = ground (arith, total_size-carved size b self.explicit_list f, v.sizes);
    total = ground (arith, v.total, pos-+ℤ (held_size objs) size);
    active = ground (arith, v.active);
    told = refl;
    filled = (ground arith, v.filled);
  }

  -- The call, once the size is known.
  allocate_fits :
      (shape : List ℕ) (dtype : Dtype) (fmt : MemoryFormat) (parent : Option ℕ) (size : ℕ)
      → aligned (compute_raw_size torch shape dtype) self.align_bytes ≡ ok size
      → 0 < size
      → (self' : TensorMemoryAllocator) × (r : Option TensorMemoryObj) × (allocate sl torch self
            shape
            (some dtype)
            fmt
            parent
          ≡ ok (self', r))
        × Allocated (compute_raw_size torch shape dtype) size self objs self' r
  unfolding allocate
  allocate_fits shape dtype fmt parent size e filled =
      elim (Option-cases (first_fit size self.explicit_list)) [
        | inl miss ↦ (
          self,
          none,
          ground (arith, e, miss),
          full (first_fit-none size self.explicit_list miss),
        )
        | inr (b, hit) ↦
            let raw = compute_raw_size torch shape dtype in
            let f = first_fit-Found size self.explicit_list b hit in
            let o =
              new_object (record { offset = b.start; count = raw }) shape dtype b.start size fmt
                parent in
            (
              count_allocated self (carved size b self.explicit_list f) 1 size,
              some o,
              ground (
                arith,
                e,
                hit,
                carve-carved size b self.explicit_list f sl self.buffer_size v.chain,
              ),
              fits b f refl refl refl (refl, refl) (carved-IsValid size b f o filled refl refl),
            )
      ]

  -- In a state that meets the invariant and with an alignment that is a power of two, an allocation of
  -- one or more bytes with a dtype raises nothing. The size is the object's, rounded up to the alignment
  -- once; the object gets the first bytes of the first free block of that size, and the invariant
  -- holds of the store with the object. Where no free block has that size, the result is `None` and
  -- the allocator is as it was.
  pub allocate-Allocated :
      (shape : List ℕ) (dtype : Dtype) (fmt : MemoryFormat) (parent : Option ℕ) (k : ℕ)
      → self.align_bytes ≡ 2 ^ k
      → 0 < compute_raw_size torch shape dtype
      → (size : ℕ) × IsRoundedUp (compute_raw_size torch shape dtype) (2 ^ k) size
        × (self' : TensorMemoryAllocator) × (r : Option TensorMemoryObj) × (allocate sl torch self
              shape
              (some dtype)
              fmt
              parent
            ≡ ok (self', r))
        × Allocated (compute_raw_size torch shape dtype) size self objs self' r
  allocate-Allocated shape dtype fmt parent k power filled =
      let raw = compute_raw_size torch shape dtype in
      let (size, e, up) = aligned-IsRoundedUp raw k in
      let (self', r, run, out) =
        allocate_fits shape dtype fmt parent size (rw power e) (omega arith) in
      (size, up, self', r, run, out)
