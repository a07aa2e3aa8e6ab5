-- ===== src/Memory/FreeList.antt =====
-- MTDS/v1/memory_management.py: the free list of `TensorMemoryAllocator`, where `allocate`,
-- `batched_allocate`, `free` and `batched_free` read and change it. A block in the list is named by
-- its position where the code changes it in place.
pub mod Chain
pub mod Place
pub mod Attach
pub mod Refine
pub mod Carve
use mtds.Prelude.{
  ℕ, zero, suc, ◌+◌, ◌-◌, Bool, true, false, ◌&&◌, Option, none, some, List, [], ◌∷◌, get_elem?,
  set, ltb, leb, if◌then◌else◌, Result, ok, raise, ◌>>=◌, value_error,
}
use mtds.Memory.SortedList.{FreeBlock, can_be_coalesced, SortedKeyList}

unfoldable pub first_fit : ℕ → List FreeBlock → Option FreeBlock
first_fit n [] = none
first_fit n (b ∷ bs) = if leb n b.size then some b else first_fit n bs

-- `explicit_list[index - 1] if index > 0 else None`
unfoldable pub block_before : List FreeBlock → ℕ → Option (ℕ × FreeBlock)
block_before l zero = none
block_before l (suc i) = elim (get_elem? l i) [ none ↦ none | some b ↦ some (i, b) ]

module _ (sl : SortedKeyList) where
  unfoldable pub remove : FreeBlock → List FreeBlock → Result (List FreeBlock)
  remove b l = elim (sl.remove b l) [ none ↦ raise value_error | some rest ↦ ok rest ]

  -- Takes the first `n` bytes of a free block out of the list.
  unfoldable pub carve : ℕ → FreeBlock → List FreeBlock → Result (List FreeBlock)
  unfolding remove
  carve n block l = do
    rest ← remove block l
    ok (
        if ltb n block.size
        then sl.add (record { start = block.start + n; size = block.size - n }) rest
        else rest)

  -- `prev_block` comes with its position in the list, since its size is changed in place.
  unfoldable pub coalesce :
      List FreeBlock
      → FreeBlock
      → Option (ℕ × FreeBlock)
      → Option FreeBlock
      → Result (Bool × List FreeBlock)
  unfolding can_be_coalesced remove
  coalesce l curr none none = ok (false, l)
  coalesce l curr none (some succ) =
      if can_be_coalesced curr succ
      then (do
        rest ← remove succ l
        ok (
          true,
          sl.add (record { start = succ.start - curr.size; size = succ.size + curr.size }) rest,
        ))
      else ok (false, l)
  coalesce l curr (some (i, prev)) none =
      if can_be_coalesced prev curr
      then ok (true, set l i (record prev { size = prev.size + curr.size }))
      else ok (false, l)
  coalesce l curr (some (i, prev)) (some succ) =
      if can_be_coalesced prev curr && can_be_coalesced curr succ
      then (do
        rest ← remove succ (set l i (record prev { size = prev.size + (curr.size + succ.size) }))
        ok (true, rest))
      else if can_be_coalesced prev curr
      then ok (true, set l i (record prev { size = prev.size + curr.size }))
      else if can_be_coalesced curr succ
      then (do
        rest ← remove succ l
        ok (
          true,
          sl.add (record { start = succ.start - curr.size; size = succ.size + curr.size }) rest,
        ))
      else ok (false, l)

  -- The neighbours of a freed block are found, and it joins them or goes into the list alone.
  unfoldable pub add_free_block : List FreeBlock → FreeBlock → Result (List FreeBlock)
  unfolding coalesce block_before
  add_free_block l b =
      let index = sl.bisect_right b l in
      do
        (coalesced, l') ← coalesce l b (block_before l index) (get_elem? l index)
        ok (if coalesced then l' else sl.add b l')
