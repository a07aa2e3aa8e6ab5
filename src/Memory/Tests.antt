-- ===== src/Memory/Tests.antt =====
-- The allocator at concrete inputs: a run of it, and its theorems where their hypotheses hold.
use native.Mathlib.Nat.{mul-div_cancel}
use mtds.Prelude.{
  ℕ, ◌*◌, ◌/◌, ◌^◌, ◌≤◌, ◌<◌, ◌≡◌, ◌⊎◌, refl, Bool, true, false, Result, raise, ◌>>=◌, value_error,
  List, [], ◌∷◌, Option, none, some, ok, arith, set,
}
use mtds.Prelude.Int.{pos, ◌+ℤ◌, ◌-ℤ◌}
use mtds.Memory.Objects.{
  Torch, Dtype, uint8, float16, float32, float64, bfloat16, Slice, slices, TensorMemoryObj, kv_2ltd,
  invalidate,
}
use mtds.Memory.SortedList.{FreeBlock, can_be_coalesced}
use mtds.Memory.SortedList.Insertion.{insertion}
use mtds.Memory.FreeList.{first_fit, remove, carve, coalesce, block_before, add_free_block}
use mtds.Memory.Tensor.{
  TensorMemoryAllocator, init, compute_aligned_size, aligned, require_dtype, new_object,
  compute_raw_size, wrap_chunks, allocate, batched_allocate, free,
}
use mtds.Memory.Batch.{
  memcheck, batched_free, gather, gather_valid, load, require_block, add_free_blocks, total_size,
  separated,
}
use mtds.Memory.FreeList.Chain.{stop}
use mtds.Memory.FreeList.Place.{Place, behind}
use mtds.Memory.FreeList.Attach.{placed}
use mtds.Memory.FreeList.Refine.{add_free_block-placed}
use mtds.Memory.Batch.{block_of}
use mtds.Memory.Tensor.Owned.{IsValid}
use mtds.Memory.Tensor.Align.{IsRoundedUp, aligned-IsRoundedUp}
use mtds.Memory.Tensor.Allocate.{Allocated, allocate-Allocated}
use mtds.Memory.Tensor.Free.{free-IsValid}
use mtds.Memory.Tensor.Program.{reachable_apart, reachable_drained}
use mtds.Memory.Tensor.Run.{Reach, here, next, allocates, frees, reachable_sound}

abbrev numel : List ℕ → ℕ
numel [] = 1
numel (n ∷ ns) = n * numel ns

abbrev itemsize : Dtype → ℕ
itemsize float16 = 2
itemsize bfloat16 = 2
itemsize float32 = 4
itemsize float64 = 8
itemsize _ = 1

abbrev cut : Slice → ℕ → List Slice
cut s n = slices n s.offset (s.count / n)

pub cut_lem :
    (offset size n : ℕ)
    → 0 < size
    → 0 < n
    → cut (record { offset = offset; count = size * n }) n ≡ slices n offset size
cut_lem offset size n h k = rw (mul-div_cancel size k)

abbrev pub torch : Torch
torch = record { numel = numel; itemsize = itemsize; chunk = cut; chunk_lem = cut_lem }

program : Unit {0}
unfolding init compute_aligned_size aligned first_fit require_dtype compute_raw_size carve remove
    coalesce block_before add_free_block can_be_coalesced wrap_chunks allocate batched_allocate free
    invalidate memcheck batched_free gather gather_valid load require_block add_free_blocks
    total_size separated ◌+ℤ◌ ◌-ℤ◌
program = tt

abbrev start : TensorMemoryAllocator
start = record {
  buffer_size = 2048;
  align_bytes = 512;
  explicit_list = record { start = 0; size = 2048 } ∷ [];
  num_active_allocations = 0;
  total_allocated_size = pos 0;
  stats_usage = pos 0;
}

-- 300 bytes take 512, and 1000 bytes 1024.
abbrev small : TensorMemoryObj
small = new_object (record { offset = 0; count = 300 }) (3 ∷ 100 ∷ []) uint8 0 512 kv_2ltd none

abbrev large : TensorMemoryObj
large = new_object (record { offset = 512; count = 1000 }) (500 ∷ []) float16 512 1024 kv_2ltd none

abbrev one : TensorMemoryAllocator
one = record start {
  explicit_list = record { start = 512; size = 1536 } ∷ [];
  num_active_allocations = 1;
  total_allocated_size = pos 512;
  stats_usage = pos 512;
}

abbrev two : TensorMemoryAllocator
two = record start {
  explicit_list = record { start = 1536; size = 512 } ∷ [];
  num_active_allocations = 2;
  total_allocated_size = pos 1536;
  stats_usage = pos 1536;
}

abbrev after : TensorMemoryAllocator
after = record start {
  explicit_list = record { start = 0; size = 512 } ∷ record { start = 1536; size = 512 } ∷ [];
  num_active_allocations = 1;
  total_allocated_size = pos 1024;
  stats_usage = pos 1024;
}

init_run : init 2048 512 ≡ start
unfolding program
init_run = refl

small_run :
    allocate insertion torch start (3 ∷ 100 ∷ []) (some uint8) kv_2ltd none ≡ ok (one, some small)
unfolding program
small_run = refl

large_run :
    allocate insertion torch one (500 ∷ []) (some float16) kv_2ltd none ≡ ok (two, some large)
unfolding program
large_run = refl

free_run : free insertion two small ≡ ok (after, invalidate small)
unfolding program
free_run = refl

-- The last free block joins its two neighbours.
free_last : free insertion after large ≡ ok (start, invalidate large)
unfolding program
free_last = refl

batch_run :
    (batched_free insertion two (large ∷ small ∷ []) (1 ∷ 0 ∷ []) true
      ≡ ok (start, invalidate large ∷ invalidate small ∷ []))
    × (memcheck two ≡ true)
unfolding program
batch_run = (refl, refl)

abbrev require : Option TensorMemoryObj → Result TensorMemoryObj
require none = raise value_error
require (some o) = ok o

-- An object of no bytes, freed after the one before it, leaves an empty block in the list.
abbrev no_bytes : Result Bool
unfolding program
no_bytes = do
  (self₁, o₁) ← allocate insertion torch start (300 ∷ []) (some uint8) kv_2ltd none
  (self₂, o₂) ← allocate insertion torch self₁ (0 ∷ []) (some uint8) kv_2ltd none
  first ← require o₁
  second ← require o₂
  (self₃, _) ← free insertion self₂ first
  (self₄, _) ← free insertion self₃ second
  (self₅, _) ← allocate insertion torch self₄ (300 ∷ []) (some uint8) kv_2ltd none
  ok (memcheck self₅)

no_bytes_run : no_bytes ≡ ok false
unfolding program
no_bytes_run = refl

reached : Reach insertion torch (init 2048 (2 ^ 9)) two (large ∷ small ∷ [])
unfolding program
reached =
    next (next here (allocates small (3 ∷ 100 ∷ []) uint8 kv_2ltd none (omega arith) small_run))
      (allocates large (500 ∷ []) float16 kv_2ltd none (omega arith) large_run)

emptied : Reach insertion torch (init 2048 (2 ^ 9)) start (invalidate large ∷ invalidate small ∷ [])
emptied =
    next (next reached (frees 1 small (invalidate small) refl free_run))
      (frees 0 large (invalidate large) refl free_last)

reachable_sound_example : IsValid two (large ∷ small ∷ []) × (memcheck two ≡ true)
reachable_sound_example = reachable_sound insertion torch 9 2048 (omega arith) reached

two-IsValid : IsValid two (large ∷ small ∷ [])
two-IsValid = (reachable_sound insertion torch 9 2048 (omega arith) reached).0

allocate-Allocated_example :
    (size : ℕ) × IsRoundedUp (compute_raw_size torch (4 ∷ []) float32) (2 ^ 9) size
    × (self' : TensorMemoryAllocator) × (r : Option TensorMemoryObj) × (allocate insertion torch two
          (4 ∷ [])
          (some float32)
          kv_2ltd
          none
        ≡ ok (self', r))
    × Allocated (compute_raw_size torch (4 ∷ []) float32) size two (large ∷ small ∷ []) self' r
unfolding compute_raw_size
allocate-Allocated_example =
    allocate-Allocated insertion torch two (large ∷ small ∷ []) two-IsValid (4 ∷ []) float32 kv_2ltd
      none 9 refl (omega arith)

free-IsValid_example :
    (self' : TensorMemoryAllocator) × (free insertion two small ≡ ok (self', invalidate small))
    × IsValid self' (set (large ∷ small ∷ []) 1 (invalidate small))
    × (self'.buffer_size ≡ 2048)
    × (self'.align_bytes ≡ 512)
free-IsValid_example = free-IsValid insertion two (large ∷ small ∷ []) two-IsValid 1 small refl refl

reachable_drained_example :
    (start.explicit_list ≡ record { start = 0; size = 2048 } ∷ [])
    × (start.total_allocated_size ≡ pos 0)
    × (start.num_active_allocations ≡ 0)
    × (size : ℕ) × IsRoundedUp (compute_raw_size torch (4 ∷ []) float32) (2 ^ 9) size
    × (((allocate insertion torch start (4 ∷ []) (some float32) kv_2ltd none ≡ ok (start, none))
          × (2048 < size))
        ⊎ ((self' : TensorMemoryAllocator) × (o : TensorMemoryObj) × (allocate insertion torch start
                (4 ∷ [])
                (some float32)
                kv_2ltd
                none
              ≡ ok (self', some o))
            × (block_of o ≡ record { start = 0; size = size })))
unfolding invalidate compute_raw_size
reachable_drained_example =
    reachable_drained insertion torch 9 2048 (4 ∷ []) float32 kv_2ltd none (omega arith) emptied
      (refl, (refl, tt)) (omega arith)

reachable_apart_example :
    (stop (block_of small) ≤ large.meta.address) ⊎ (stop (block_of large) ≤ small.meta.address)
reachable_apart_example =
    reachable_apart insertion torch 9 2048 (omega arith) reached 0 1 large small refl refl
      (omega arith) refl refl

aligned-IsRoundedUp_example : (r : ℕ) × (aligned 300 (2 ^ 9) ≡ ok r) × IsRoundedUp 300 (2 ^ 9) r
aligned-IsRoundedUp_example = aligned-IsRoundedUp 300 9

abbrev low : FreeBlock
low = record { start = 0; size = 512 }

abbrev high : FreeBlock
high = record { start = 1536; size = 512 }

between : Place (block_of large) (low ∷ high ∷ [])
between = behind [] low (high ∷ []) refl (omega arith) (omega arith)

add_free_block-placed_example :
    add_free_block insertion (low ∷ high ∷ []) (block_of large)
    ≡ ok (placed (block_of large) (low ∷ high ∷ []) between)
add_free_block-placed_example =
    add_free_block-placed insertion (block_of large) (low ∷ high ∷ []) 2048 between (omega arith)
      (omega arith, omega arith, (omega arith, omega arith, omega arith))
