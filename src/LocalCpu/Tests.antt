-- ===== src/LocalCpu/Tests.antt =====
-- The backend at concrete inputs: a run in which the second allocation evicts the first object.
use mtds.Prelude.{
  ℕ, ◌^◌, ◌≡◌, refl, true, false, List, [], ◌∷◌, some, none, ok, arith, if◌then◌else◌, All,
}
use mtds.Keys.{CacheEngineKey, key_eq, chunk_key_eq, chunk_key_attributes}
use mtds.Memory.Objects.{uint8, kv_2ltd}
use mtds.Memory.SortedList.Insertion.{insertion}
use mtds.Memory.Tensor.{compute_raw_size}
use mtds.Memory.Tests.{torch}
use mtds.Memory.Mixed.{MemoryRef, bytes_obj, wrap_bytes, target, memcheck, init as mixed_init}
use mtds.Memory.Mixed.Fresh.{init-IsCounted}
use mtds.Memory.Mixed.Counting.{fewer}
use mtds.LocalCpu.{LocalCpuBackend, init, submit_put_task, get_blocking}
use mtds.LocalCpu.Methods.{IsSafe}
use mtds.LocalCpu.Run.{Call, IsCall, allocates, puts, releases, gets, run, fresh_run}
use mtds.LocalCpu.Put.{get_blocking_after_put}

abbrev key : ℕ → CacheEngineKey
key n = record { fmt = "vllm"; model_name = "m"; world_size = 1; worker_id = n; chunk_hash = "abc" }

abbrev pub backend : LocalCpuBackend CacheEngineKey
backend = init true false false true true "instance" (mixed_init 2048 (2 ^ 9))

abbrev calls : List (Call CacheEngineKey)
calls =
    allocates (2000 ∷ []) uint8 none true
    ∷ puts (key 1) 0
    ∷ releases 0
    ∷ allocates (1000 ∷ []) uint8 (some kv_2ltd) true
    ∷ gets (key 1)
    ∷ []

calls_allowed : All (IsCall torch) calls
unfolding compute_raw_size target
calls_allowed = (omega arith, (tt, (tt, ((omega arith, refl), (tt, tt)))))

fresh_run_example :
    (self' : LocalCpuBackend CacheEngineKey) × (callers' : List MemoryRef) × (run insertion torch
        (backend, [])
        calls
      ≡ ok (self', callers'))
    × IsSafe 9 callers' self'
    × (memcheck self'.memory_allocator ≡ true)
fresh_run_example =
    fresh_run insertion torch 9 true false false true true "instance" 2048 calls (omega arith)
      calls_allowed

-- A buffer of two bytes that a caller has.
abbrev pub with_buffer : LocalCpuBackend CacheEngineKey
with_buffer = record backend {
  memory_allocator = record (mixed_init 2048 (2 ^ 9)) { buffers = wrap_bytes (7 ∷ 8 ∷ []) ∷ [] };
}

pub with_buffer-IsSafe : IsSafe 9 (bytes_obj 0 ∷ []) with_buffer
unfolding init
with_buffer-IsSafe =
    let c = init-IsCounted 9 2048 (wrap_bytes (7 ∷ 8 ∷ []) ∷ []) (omega arith) in
    fewer 9 with_buffer.memory_allocator (λ i. omega arith) c

with_buffer_hot : with_buffer.use_hot ≡ true
unfolding init
with_buffer_hot = refl

get_blocking_after_put_example :
    (self' : LocalCpuBackend CacheEngineKey) × (submit_put_task insertion with_buffer
        (key 1)
        (bytes_obj 0)
      ≡ ok self')
    × ((j : CacheEngineKey)
        → (get_blocking self' j).1
          ≡ (if key_eq (key 1) j then some (bytes_obj 0) else (get_blocking with_buffer j).1))
get_blocking_after_put_example =
    get_blocking_after_put insertion 9 (bytes_obj 0 ∷ []) with_buffer with_buffer-IsSafe (key 1)
      (bytes_obj 0) tt with_buffer_hot
