-- ===== src/Memory/Tensor/Free.antt =====
-- `free` keeps the ownership of the bytes, and `memcheck` finds nothing to complain of.
use mtds.Prelude.{ℕ, ◌+◌, ◌-◌, ◌≤◌, ◌≡◌, refl, true, false, List, some, arith, get_elem?, set, ok}
use mtds.Prelude.Int.{pos, ◌-ℤ◌, pos--ℤ, pos-+ℤ}
use mtds.Memory.Objects.{TensorMemoryObj, invalidate}
use mtds.Memory.SortedList.{FreeBlock, SortedKeyList}
use mtds.Memory.Batch.{block_of, total_size, memcheck}
use mtds.Memory.FreeList.Chain.{stop, inside, cover, Chain-separated}
use mtds.Memory.FreeList.Place.{Place, locate}
use mtds.Memory.FreeList.Attach.{placed, placed-Chain, cover-placed, total_size-placed}
use mtds.Memory.FreeList.Refine.{add_free_block-placed}
use mtds.Memory.Tensor.{TensorMemoryAllocator, free, count_freed}
use mtds.Memory.Tensor.Owned.{
  held_size, IsValid, held-invalidate, held_size-invalidate, held_count-invalidate, IsFilled-get,
  IsFilled-invalidate,
}

-- memcheck reports no inconsistency.
pub memcheck-IsValid :
    (self : TensorMemoryAllocator) (objs : List TensorMemoryObj)
    → IsValid self objs
    → memcheck self ≡ true
unfolding memcheck
memcheck-IsValid self objs v = ground (
  arith,
  pos-+ℤ (total_size self.explicit_list) (held_size objs),
  v.total,
  v.sizes,
  Chain-separated self.explicit_list 0 self.buffer_size v.chain,
)

module _ (sl : SortedKeyList) (self : TensorMemoryAllocator) (objs : List TensorMemoryObj)
    (v : IsValid self objs) (i : ℕ) (o : TensorMemoryObj) (at_i : get_elem? objs i ≡ some o)
    (valid : o.valid ≡ true) where
  apart : (a : ℕ) → inside a (block_of o) + cover a self.explicit_list ≤ 1
  apart a = ground (arith, held-invalidate o a objs i at_i valid, v.owned a)

  within : stop (block_of o) ≤ self.buffer_size
  within =
      let last = o.meta.address + o.meta.phy_size - 1 in
      ground (
        arith,
        held-invalidate o last objs i at_i valid,
        v.owned last,
        IsFilled-get o objs i at_i v.filled,
      )

  place : Place (block_of o) self.explicit_list
  place =
      locate (block_of o) self.explicit_list 0 self.buffer_size v.chain
        (IsFilled-get o objs i at_i v.filled) apart

  after : List FreeBlock
  after = placed (block_of o) self.explicit_list place

  after-IsValid : IsValid (count_freed self after 1 o.meta.phy_size) (set objs i (invalidate o))
  unfolding after
  after-IsValid =
      let b = block_of o in
      let l = self.explicit_list in
      let size = held_size-invalidate o objs i at_i valid in
      let size_le : o.meta.phy_size ≤ held_size objs = omega arith in
      let freed : pos (held_size objs) -ℤ pos o.meta.phy_size
          ≡ pos (held_size objs - o.meta.phy_size) =
        pos--ℤ (held_size objs) o.meta.phy_size size_le in
      record {
        chain =
            placed-Chain b l self.buffer_size place (IsFilled-get o objs i at_i v.filled) within
              v.chain;
        owned = λ a.
            ground
              (arith, cover-placed a b l place, held-invalidate o a objs i at_i valid, v.owned a);
        sizes = omega (arith, total_size-placed b l place, size, v.sizes);
        total = ground (arith, v.total, freed, size);
        active = omega (arith, held_count-invalidate o objs i at_i valid, v.active);
        told = refl;
        filled = IsFilled-invalidate o objs i at_i v.filled;
      }

  -- In a state that meets the invariant, freeing a valid object of the store raises nothing, invalidates
  -- it, keeps the buffer and the alignment, and keeps the invariant.
  pub free-IsValid :
      (self' : TensorMemoryAllocator) × (free sl self o ≡ ok (self', invalidate o))
      × IsValid self' (set objs i (invalidate o))
      × (self'.buffer_size ≡ self.buffer_size)
      × (self'.align_bytes ≡ self.align_bytes)
  unfolding free after
  free-IsValid = (
    count_freed self after 1 o.meta.phy_size,
    ground (
      arith,
      add_free_block-placed sl (block_of o) self.explicit_list self.buffer_size place
          (IsFilled-get o objs i at_i v.filled) v.chain,
    ),
    after-IsValid,
    refl,
    refl,
  )

-- An object that is not valid is not freed again.
pub free_twice :
    (sl : SortedKeyList) (self : TensorMemoryAllocator) (o : TensorMemoryObj)
    → o.valid ≡ false
    → free sl self o ≡ ok (self, o)
unfolding free
free_twice sl self o h = ground arith
