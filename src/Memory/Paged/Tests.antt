-- ===== src/Memory/Paged/Tests.antt =====
-- The paged allocator at concrete inputs.
use native.Mathlib.Nat.{mul-div_cancel}
use mtds.Prelude.{
  ℕ, ◌+◌, ◌*◌, ◌/◌, ◌≤◌, ◌<◌, ◌≡◌, ◌⊎◌, inl, inr, subst, refl, true, false, List, [], ◌∷◌, ◌++◌,
  none, some, ok, arith, length,
}
use mtds.Prelude.Int.{pos, ◌+ℤ◌, ◌-ℤ◌}
use mtds.Memory.Objects.{uint8, slices, TensorMemoryObj, kv_2ltd}
use mtds.Memory.Tests.{torch}
use mtds.Memory.Tensor.{require_dtype}
use mtds.Memory.Paged.{
  PagedTensorMemoryAllocator, Splitter, page_objects, init, prepare, pop_page, refill, push_page,
  return_page, return_pages, allocate, free, count_freed, batched_free, take_pages,
  batched_allocate, memcheck,
}
use mtds.Memory.Paged.Run.{
  IsSound, allocate-IsSound, batched_allocate-IsSound, batched_free-IsSound,
}
use mtds.Memory.Paged.Start.{
  page_objects-IsOwned, here, next, allocates, frees, reachable_paged, reachable_apart_pages,
}

program : Unit {0}
unfolding page_objects init prepare pop_page refill push_page return_page return_pages allocate free
    count_freed batched_free take_pages batched_allocate memcheck require_dtype ◌+ℤ◌ ◌-ℤ◌
program = tt

abbrev splitter : Splitter
splitter = record {
  split = λ s size. slices (s.count / size) s.offset size;
  split_lem = λ size n h k. rw (mul-div_cancel n h) refl;
}

abbrev page : ℕ → TensorMemoryObj
page i = record {
  raw_data = record { offset = i * 2; count = 2 };
  meta = record {
    shape = 2 ∷ [];
    dtype = some uint8;
    address = i;
    phy_size = 1;
    ref_count = pos 1;
    is_pin = false;
    fmt = kv_2ltd;
  };
  valid = true;
  parent_allocator = some 0;
}

-- Two pages of two bytes.
abbrev start : PagedTensorMemoryAllocator
start = record {
  buffer_size = 4;
  shape = 2 ∷ [];
  fmt = kv_2ltd;
  bytes_per_element = 1;
  align_bytes = 2;
  paged_buffers = slices 2 0 2;
  objects = page 0 ∷ page 1 ∷ [];
  free_blocks = 0 ∷ 1 ∷ [];
  num_active_allocations = 0;
  total_allocated_size = pos 0;
  stats_usage = pos 0;
}

init_run : init torch splitter 4 (2 ∷ []) uint8 kv_2ltd 0 ≡ ok start
unfolding program
init_run = refl

abbrev start-IsSound : IsSound 2 start []
unfolding program
start-IsSound = record {
  pages = record {
    filled = omega arith;
    size = refl;
    buffers = refl;
    owned = page_objects-IsOwned (2 ∷ []) uint8 kv_2ltd (some 0) 2 2;
  };
  active = refl;
  allocated = refl;
}

abbrev cut_page : TensorMemoryObj
cut_page = record (page 0) {
  raw_data = record { offset = 0; count = 1 };
  meta = record (page 0).meta { shape = 1 ∷ [] };
}

abbrev one_out : PagedTensorMemoryAllocator
one_out = record start {
  objects = cut_page ∷ page 1 ∷ [];
  free_blocks = 1 ∷ [];
  num_active_allocations = 1;
  total_allocated_size = pos 2;
  stats_usage = pos 2;
}

cut_run : allocate torch start (1 ∷ []) (some uint8) kv_2ltd ≡ ok (one_out, some 0)
unfolding program
cut_run = refl

one_out-IsSound : IsSound 2 one_out (0 ∷ [])
unfolding program
one_out-IsSound = elim (allocate-IsSound torch 2 start [] (1 ∷ []) uint8 kv_2ltd start-IsSound) [
  | inl (e, empty) ↦ absurd (ground arith)
  | inr (self, i, e, queue, sound) ↦
      subst (λ (s : PagedTensorMemoryAllocator × ℕ). IsSound 2 s.0 (s.1 ∷ []))
        (ground (arith, e, cut_run)) sound
]

allocate-IsSound_example :
    ((allocate torch start (1 ∷ []) (some uint8) kv_2ltd ≡ ok (start, none))
      × (start.free_blocks ≡ []))
    ⊎ ((self' : PagedTensorMemoryAllocator) × (i : ℕ) × (allocate torch start
            (1 ∷ [])
            (some uint8)
            kv_2ltd
          ≡ ok (self', some i))
        × (start.free_blocks ≡ i ∷ self'.free_blocks)
        × IsSound 2 self' (i ∷ []))
allocate-IsSound_example = allocate-IsSound torch 2 start [] (1 ∷ []) uint8 kv_2ltd start-IsSound

batched_allocate-IsSound_example :
    (self' : PagedTensorMemoryAllocator) × (((batched_allocate torch one_out
            (1 ∷ [])
            (some uint8)
            2
            kv_2ltd
          ≡ ok (self', none))
        × IsSound 2 self' (0 ∷ [])
        × (length one_out.free_blocks < 2))
      ⊎ ((is : List ℕ) × (batched_allocate torch one_out (1 ∷ []) (some uint8) 2 kv_2ltd
            ≡ ok (self', some is))
          × IsSound 2 self' (is ++ 0 ∷ [])
          × (length is ≡ 2)))
batched_allocate-IsSound_example =
    batched_allocate-IsSound torch 2 one_out (0 ∷ []) (1 ∷ []) uint8 2 kv_2ltd one_out-IsSound

batched_free-IsSound_example :
    (self' : PagedTensorMemoryAllocator) × (batched_free one_out (0 ∷ []) true ≡ ok self')
    × IsSound 2 self' []
batched_free-IsSound_example = batched_free-IsSound 2 one_out (0 ∷ []) [] one_out-IsSound

reachable_apart_pages_example :
    (cut_page.raw_data.offset + cut_page.raw_data.count ≤ (page 1).raw_data.offset)
    ⊎ ((page 1).raw_data.offset + (page 1).raw_data.count ≤ cut_page.raw_data.offset)
reachable_apart_pages_example =
    reachable_apart_pages torch splitter 2 (2 ∷ []) uint8 kv_2ltd 0 start one_out (0 ∷ [])
      (omega arith) (omega arith) init_run (next here (allocates (1 ∷ []) uint8 kv_2ltd 0 cut_run))
      0 1 cut_page (page 1) refl refl (λ e. absurd (omega (arith, e)))

-- The page that was cut is whole again, at the end of the queue.
abbrev given_back : PagedTensorMemoryAllocator
given_back = record start {
  objects = record cut_page { raw_data = record { offset = 0; count = 2 } } ∷ page 1 ∷ [];
  free_blocks = 1 ∷ 0 ∷ [];
}

free_run : free one_out 0 ≡ ok given_back
unfolding program
free_run = refl

reachable_paged_example : IsSound 2 given_back [] × (memcheck given_back ≡ true)
reachable_paged_example =
    reachable_paged torch 2 start given_back [] start-IsSound
      (next (next here (allocates (1 ∷ []) uint8 kv_2ltd 0 cut_run)) (frees 0 [] free_run))
