-- ===== src/Memory.antt =====
-- MTDS/v1/memory_management.py: the objects that the allocators hand out, the explicit-list
-- allocator of tensors, and the proofs about its free list, its bytes and its statistics.
pub mod Objects
pub mod SortedList
pub mod FreeList
pub mod Tensor
pub mod Batch
pub mod Paged
pub mod Mixed
pub mod Tests
