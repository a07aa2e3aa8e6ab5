-- ===== src/Memory/Batch.antt =====
-- MTDS/v1/memory_management.py: `TensorMemoryAllocator.batched_free` and `memcheck`. The memory
-- objects live in a store and are named by their positions there, since the same object may stand
-- twice in the list that is freed.
use mtds.Prelude.{
  ℕ, ◌+◌, Bool, true, ◌&&◌, not, Option, none, some, List, [], ◌∷◌, ◌++◌, get_elem?, set, ◌==◌,
  if◌then◌else◌, Result, ok, raise, ◌>>=◌, index_error, attribute_error,
}
use mtds.Prelude.Int.{pos, ◌+ℤ◌, eqb_ℤ}
use mtds.Memory.Objects.{TensorMemoryObj, invalidate}
use mtds.Memory.SortedList.{FreeBlock, can_be_coalesced, SortedKeyList}
use mtds.Memory.FreeList.{add_free_block}
use mtds.Memory.Tensor.{TensorMemoryAllocator, count_freed}

-- The variables of the first loop.
pub record Gathered : Type 0 where
  pub new_free_block : Option FreeBlock
  pub curr_start : ℕ
  pub new_free_blocks : List FreeBlock
  pub num_valid_blocks : ℕ
  pub total_freed_size : ℕ

abbrev pub block_of : TensorMemoryObj → FreeBlock
block_of o = record { start = o.meta.address; size = o.meta.phy_size }

-- One round of the first loop, on an object that is valid.
unfoldable pub gather_valid : TensorMemoryObj → Gathered → Gathered
gather_valid o g = elim g.new_free_block [
  | none ↦ record g {
    new_free_block = some (block_of o);
    curr_start = g.curr_start + o.meta.phy_size;
    num_valid_blocks = g.num_valid_blocks + 1;
    total_freed_size = g.total_freed_size + o.meta.phy_size;
  }
  | some b ↦
      if g.curr_start == o.meta.address
      then record g {
        new_free_block = some (record b { size = b.size + o.meta.phy_size });
        curr_start = g.curr_start + o.meta.phy_size;
        num_valid_blocks = g.num_valid_blocks + 1;
        total_freed_size = g.total_freed_size + o.meta.phy_size;
      }
      else record g {
        new_free_block = some (block_of o);
        curr_start = o.meta.address + o.meta.phy_size;
        new_free_blocks = g.new_free_blocks ++ b ∷ [];
        num_valid_blocks = g.num_valid_blocks + 1;
        total_freed_size = g.total_freed_size + o.meta.phy_size;
      }
]

unfoldable pub load : List TensorMemoryObj → ℕ → Result TensorMemoryObj
load objs i = elim (get_elem? objs i) [ none ↦ raise index_error | some o ↦ ok o ]

unfoldable pub gather :
    List TensorMemoryObj → List ℕ → Gathered → Result (List TensorMemoryObj × Gathered)
gather objs [] g = ok (objs, g)
gather objs (i ∷ rest) g = do
  o ← load objs i
  gather (if o.valid then set objs i (invalidate o) else objs) rest
      (if o.valid then gather_valid o g else g)

-- `SortedList` asks for the `start` of what it looks up, and `None` has none.
unfoldable pub require_block : Option FreeBlock → Result FreeBlock
require_block none = raise attribute_error
require_block (some b) = ok b

unfoldable pub total_size : List FreeBlock → ℕ
total_size [] = 0
total_size (b ∷ bs) = b.size + total_size bs

-- No block ends where the next one starts.
unfoldable pub separated : List FreeBlock → Bool
separated [] = true
separated (b ∷ []) = true
separated (b ∷ c ∷ bs) = not (can_be_coalesced b c) && separated (c ∷ bs)

unfoldable pub memcheck : TensorMemoryAllocator → Bool
unfolding total_size separated can_be_coalesced
memcheck self =
    eqb_ℤ (pos (total_size self.explicit_list) +ℤ self.total_allocated_size) (pos self.buffer_size)
    && separated self.explicit_list

module _ (sl : SortedKeyList) where
  unfoldable pub add_free_blocks : List FreeBlock → List FreeBlock → Result (List FreeBlock)
  add_free_blocks l [] = ok l
  add_free_blocks l (b ∷ bs) = do l' ← add_free_block sl l b; add_free_blocks l' bs

  unfoldable pub batched_free :
      TensorMemoryAllocator
      → List TensorMemoryObj
      → List ℕ
      → Bool
      → Result (TensorMemoryAllocator × List TensorMemoryObj)
  unfolding require_block
  batched_free self objs [] update_stats = raise index_error
  batched_free self objs (i ∷ rest) update_stats = do
    first ← load objs i
    (objs', g) ← gather objs (i ∷ rest) (record {
      new_free_block = none;
      curr_start = first.meta.address;
      new_free_blocks = [];
      num_valid_blocks = 0;
      total_freed_size = 0;
    })
    l ← add_free_blocks self.explicit_list g.new_free_blocks
    last ← require_block g.new_free_block
    l' ← add_free_block sl l last
    ok (
      if update_stats
          then count_freed self l' g.num_valid_blocks g.total_freed_size
          else record self { explicit_list = l' },
      objs',
    )
