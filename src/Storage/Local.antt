-- ===== src/Storage/Local.antt =====
-- A storage manager whose only backend is the local CPU backend, behind the interface that the cache
-- engine uses.
use mtds.Prelude.{true, false, some, [], ◌∷◌, Result, ok, ◌>>=◌}
use mtds.Keys.{CacheEngineKey, chunk_key_eq, chunk_key_attributes}
use mtds.Memory.Objects.{kv_2ltd, Torch}
use mtds.Memory.SortedList.{SortedKeyList}
use mtds.Memory.Mixed.{MemoryRef, release}
use mtds.LocalCpu.{LocalCpuBackend}
use mtds.LocalCpu as Cpu
use mtds.Storage.{StorageBackend, StorageManager}
use mtds.Storage as Manager
use mtds.Engine.{EngineStorage}

abbrev pub CpuState : Type 0
CpuState = LocalCpuBackend CacheEngineKey

module _ (sl : SortedKeyList) where
  -- The backend has no puts and no prefetches under way.
  abbrev pub local_backend : StorageBackend CpuState CacheEngineKey MemoryRef
  local_backend = record {
    name = "LocalCPUBackend";
    contains = Cpu.contains;
    exists_in_put_tasks = λ w key. false;
    submit_put_task = Cpu.submit_put_task sl;
    submit_prefetch_task = λ w key. (w, false);
    get_blocking = Cpu.get_blocking;
    get_non_blocking = Cpu.get_non_blocking;
    remove = λ w key. Cpu.remove sl w key true;
    unpin = λ w key. (Cpu.unpin w key).0;
    clear = some (Cpu.clear sl);
  }

  abbrev pub give_up : CpuState → MemoryRef → Result CpuState
  give_up w ref =
      release sl w.memory_allocator ref >>= λ heap. ok (record w { memory_allocator = heap })

module _ (sl : SortedKeyList) (torch : Torch) where
  abbrev pub local_manager : StorageManager CpuState CacheEngineKey MemoryRef
  local_manager = record {
    storage_backends = local_backend sl ∷ [];
    local_contains = λ w key. (Cpu.contains w key false).1;
    write_back = Cpu.write_back;
    allocate =
        λ w shape dtype fmt eviction. Cpu.allocate sl torch w shape dtype (some fmt) eviction;
    ref_count_down = give_up sl;
  }

  -- The manager as the engine uses it, with the default format and eviction.
  abbrev pub engine_storage : EngineStorage CpuState CacheEngineKey MemoryRef
  engine_storage = record {
    contains = Manager.contains local_manager;
    allocate = λ w shape dtype. Cpu.allocate sl torch w shape dtype (some kv_2ltd) true;
    put = Manager.put local_manager;
    get = Manager.get local_manager;
    remove = Manager.remove local_manager;
    batched_unpin = Manager.batched_unpin local_manager;
    clear = Manager.clear local_manager;
    prefetch = λ w key. (Manager.prefetch local_manager (λ key tasks. false) w [] key).0;
    ref_count_down = give_up sl;
  }
