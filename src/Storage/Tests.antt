-- ===== src/Storage/Tests.antt =====
-- The storage manager at concrete inputs, with the local CPU backend and one chunk in its cache.
use mtds.Prelude.{◌≡◌, true, false, [], ◌∷◌, some, none}
use mtds.Keys.{CacheEngineKey, chunk_key_eq, chunk_key_attributes}
use mtds.Memory.SortedList.Insertion.{insertion}
use mtds.Memory.Tests.{torch}
use mtds.Memory.Mixed.{MemoryRef, bytes_obj}
use mtds.LocalCpu.Tests.{with_buffer}
use mtds.Storage.{StorageManager, contains, get}
use mtds.Storage.Search.{first_holder, give_back, contains-get}
use mtds.Storage.Local.{CpuState, local_manager, engine_storage}
use mtds.Storage.Serves.{has_chunk, IsGood, local_backend-IsBackend, engine_storage-IsStorage}
use mtds.Engine.Agree.{IsStorage}

abbrev pub low : CacheEngineKey
low = record { fmt = "vllm"; model_name = "m"; world_size = 1; worker_id = 0; chunk_hash = "low" }

abbrev pub one_chunk : CpuState
one_chunk = record with_buffer { hot_cache = (low, bytes_obj 0) ∷ [] }

abbrev manager : StorageManager CpuState CacheEngineKey MemoryRef
manager = local_manager insertion torch

contains-get_example :
    (contains manager one_chunk low (some ("LocalCPUBackend" ∷ [])) true
      ≡ elim (first_holder
          (λ name. has_chunk)
          manager.storage_backends
          one_chunk
          low
          (some ("LocalCPUBackend" ∷ []))) [
            | none ↦ (one_chunk, false)
            | some b ↦ b.contains one_chunk low true
          ])
    × (get manager one_chunk low
        ≡ elim (first_holder (λ name. has_chunk) manager.storage_backends one_chunk low none) [
          | none ↦ (one_chunk, none)
          | some b ↦ give_back (λ name. has_chunk) manager b one_chunk low
        ])
contains-get_example =
    contains-get (λ name. has_chunk) manager one_chunk low (some ("LocalCPUBackend" ∷ [])) true
      (local_backend-IsBackend insertion, tt)

engine_storage-IsStorage_example : IsStorage (engine_storage insertion torch) (IsGood 9) has_chunk
engine_storage-IsStorage_example = engine_storage-IsStorage insertion torch 9
