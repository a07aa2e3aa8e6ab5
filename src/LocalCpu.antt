-- ===== src/LocalCpu.antt =====
-- MTDS/v1/storage_backend/local_cpu_backend.py: `LocalCPUBackend` over the mixed allocator, which it
-- shares with its callers. The keys are those of chunks or of layers. A future that has its result is
-- the result.
pub mod Deletes
pub mod Held
pub mod Evict
pub mod Removal
pub mod Methods
pub mod Put
pub mod Batch
pub mod Run
pub mod Tests
use Prim.Native.String.{String}
use mtds.Prelude.{
  ℕ, ◌+◌, Bool, true, false, ◌&&◌, not, Option, none, some, List, [], ◌∷◌, ◌++◌, map, length,
  if◌then◌else◌, Result, ok, raise, ◌>>=◌, key_error,
}
use mtds.Prelude.Int.{ℤ, pos, ◌+ℤ◌, ◌-ℤ◌, ltb_ℤ}
use mtds.Dict.{Eq, Dict, get, contains as has_key, assign, delete, move_to_end}
use mtds.Keys.{KeyAttributes, LayerCacheEngineKey, split_layers}
use mtds.Memory.Objects.{MemoryFormat, kv_2td, kv_t2d, kv_2ltd, Dtype, Torch, MemoryObjMetadata}
use mtds.Memory.SortedList.{SortedKeyList}
use mtds.Memory.Mixed.{
  MixedMemoryAllocator, MemoryRef, allocate as mixed_allocate,
  batched_allocate as mixed_batched_allocate, batched_free as mixed_batched_free, release, retain,
  pin_ref, unpin_ref, get_ref_count, get_size, is_pinned,
}
use mtds.Controller.Kv.{KvMsg}

pub data WorkerMsg : Type 0 where
  kv_admit kv_evict : KvMsg → WorkerMsg

-- `messages` is what the worker was told, where there is one, `removed` the keys that the lookup
-- server was told to remove, and `local_cache_usage` what the statistics monitor was last told.
pub record LocalCpuBackend (K : Type 0) : Type 0 where
  pub hot_cache : Dict K MemoryRef
  pub memory_allocator : MixedMemoryAllocator
  pub use_hot : Bool
  pub layerwise : Bool
  pub enable_blending : Bool
  pub has_lookup_server : Bool
  pub has_worker : Bool
  pub instance_id : String
  pub usage : ℤ
  pub local_cache_usage : ℤ
  pub messages : List WorkerMsg
  pub removed : List K

unfoldable pub init :
    {K : Type 0}
    → Bool
    → Bool
    → Bool
    → Bool
    → Bool
    → String
    → MixedMemoryAllocator
    → LocalCpuBackend K
init use_hot layerwise enable_blending has_lookup_server has_worker instance_id memory_allocator =
    record {
      hot_cache = [];
      memory_allocator = memory_allocator;
      use_hot = use_hot;
      layerwise = layerwise;
      enable_blending = enable_blending;
      has_lookup_server = has_lookup_server;
      has_worker = has_worker;
      instance_id = instance_id;
      usage = pos 0;
      local_cache_usage = pos 0;
      messages = [];
      removed = [];
    }

-- The format where none is given.
unfoldable pub choose_format : Bool → Bool → Option MemoryFormat → MemoryFormat
choose_format layerwise enable_blending (some fmt) = fmt
choose_format layerwise enable_blending none =
    if layerwise then (if enable_blending then kv_2td else kv_t2d) else kv_2ltd

module _ {K : Type 0} ⦃eq : Eq K⦄ where
  unfoldable pub contains : LocalCpuBackend K → K → Bool → LocalCpuBackend K × Bool
  unfolding get pin_ref
  contains self key pin = elim (get key self.hot_cache) [
    | none ↦ (self, false)
    | some ref ↦ (
      if pin then record self { memory_allocator = pin_ref self.memory_allocator ref } else self,
      true,
    )
  ]

  -- `get_non_blocking` returns the same object in a future.
  unfoldable pub get_blocking : LocalCpuBackend K → K → LocalCpuBackend K × Option MemoryRef
  unfolding get retain move_to_end
  get_blocking self key = elim (get key self.hot_cache) [
    | none ↦ (self, none)
    | some ref ↦ (
      record self {
        memory_allocator = retain self.memory_allocator ref;
        hot_cache = move_to_end key self.hot_cache;
      },
      some ref,
    )
  ]

  unfoldable pub get_non_blocking : LocalCpuBackend K → K → LocalCpuBackend K × Option MemoryRef
  unfolding get retain move_to_end
  get_non_blocking self key = elim (get key self.hot_cache) [
    | none ↦ (self, none)
    | some ref ↦ (
      record self {
        memory_allocator = retain self.memory_allocator ref;
        hot_cache = move_to_end key self.hot_cache;
      },
      some ref,
    )
  ]

  unfoldable pub pin : LocalCpuBackend K → K → LocalCpuBackend K × Bool
  unfolding get pin_ref
  pin self key = elim (get key self.hot_cache) [
    | none ↦ (self, false)
    | some ref ↦ (record self { memory_allocator = pin_ref self.memory_allocator ref }, true)
  ]

  unfoldable pub unpin : LocalCpuBackend K → K → LocalCpuBackend K × Bool
  unfolding get unpin_ref
  unpin self key = elim (get key self.hot_cache) [
    | none ↦ (self, false)
    | some ref ↦ (record self { memory_allocator = unpin_ref self.memory_allocator ref }, true)
  ]

  abbrev pub get_keys : LocalCpuBackend K → List K
  get_keys self = map (λ e. e.0) self.hot_cache

  -- `lookup_server.batched_remove`
  abbrev pub tell_removed : LocalCpuBackend K → List K → LocalCpuBackend K
  tell_removed self keys =
      if self.has_lookup_server then record self { removed = self.removed ++ keys } else self

module _ {K : Type 0} ⦃eq : Eq K⦄ ⦃attributes : KeyAttributes K⦄ where
  abbrev pub message_of : LocalCpuBackend K → K → KvMsg
  message_of self key = record {
    instance_id = self.instance_id;
    worker_id = attributes.worker_id key;
    key = attributes.chunk_hash key;
    location = "cpu";
  }

  -- `MTDS_worker.put_msg`, where there is a worker.
  abbrev pub tell_worker : LocalCpuBackend K → WorkerMsg → LocalCpuBackend K
  tell_worker self msg =
      if self.has_worker then record self { messages = self.messages ++ msg ∷ [] } else self

  unfoldable pub write_back : LocalCpuBackend K → K → MemoryRef → LocalCpuBackend K
  unfolding has_key assign retain
  write_back self key memory_obj =
      if self.use_hot && not (has_key key self.hot_cache)
      then tell_worker
          (record self {
            hot_cache = assign key memory_obj self.hot_cache;
            memory_allocator = retain self.memory_allocator memory_obj;
          })
          (kv_admit (message_of self key))
      else self

  module _ (sl : SortedKeyList) where
    -- The object that a key had goes, and its count falls.
    unfoldable pub drop_old : LocalCpuBackend K → K → Result (LocalCpuBackend K)
    unfolding get delete release
    drop_old self key = elim (get key self.hot_cache) [
      | none ↦ ok self
      | some old ↦ do
        heap ← release sl self.memory_allocator old
        ok (record self { hot_cache = delete key self.hot_cache; memory_allocator = heap })
    ]

    unfoldable pub submit_put_task : LocalCpuBackend K → K → MemoryRef → Result (LocalCpuBackend K)
    unfolding drop_old assign retain get_size
    submit_put_task self key memory_obj =
        if self.use_hot
        then (do
          self' ← drop_old self key
          let usage = self'.usage +ℤ pos (get_size self'.memory_allocator memory_obj)
          ok (
              tell_worker
                (record self' {
                  hot_cache = assign key memory_obj self'.hot_cache;
                  memory_allocator = retain self'.memory_allocator memory_obj;
                  usage = usage;
                  local_cache_usage = usage;
                })
                (kv_admit (message_of self' key))))
        else ok self

    unfoldable pub remove : LocalCpuBackend K → K → Bool → Result (LocalCpuBackend K × Bool)
    unfolding get delete release get_size
    remove self key free_obj = elim (get key self.hot_cache) [
      | none ↦ ok (self, false)
      | some memory_obj ↦ do
        heap ←
            (if free_obj
              then release sl self.memory_allocator memory_obj
              else ok self.memory_allocator)
        let usage = self.usage -ℤ pos (get_size heap memory_obj)
        ok (
          tell_worker
              (record self {
                hot_cache = delete key self.hot_cache;
                memory_allocator = heap;
                usage = usage;
                local_cache_usage = usage;
              })
              (kv_evict (message_of self key)),
          true,
        )
    ]

    unfoldable pub remove_all : LocalCpuBackend K → List K → Bool → Result (LocalCpuBackend K)
    unfolding remove
    remove_all self [] free_obj = ok self
    remove_all self (key ∷ keys) free_obj = do
      (self', found) ← remove self key free_obj
      remove_all self' keys free_obj

    -- The loop of `clear` over the keys of the cache.
    unfoldable pub clear_loop :
        Dict K MemoryRef
        → MixedMemoryAllocator
        → List K
        → List K
        → Result (MixedMemoryAllocator × List K)
    unfolding get get_ref_count release
    clear_loop cache heap [] clear_keys = ok (heap, clear_keys)
    clear_loop cache heap (key ∷ keys) clear_keys = elim (get key cache) [
      | none ↦ raise key_error
      | some memory_obj ↦ elim (ltb_ℤ (pos 1) (get_ref_count heap memory_obj)) [
        | true ↦ clear_loop cache heap keys clear_keys
        | false ↦ do
          heap' ← release sl heap memory_obj
          clear_loop cache heap' keys (clear_keys ++ key ∷ [])
      ]
    ]

    unfoldable pub clear : LocalCpuBackend K → Result (LocalCpuBackend K × ℕ)
    unfolding clear_loop remove_all
    clear self =
        if self.use_hot
        then (do
          (heap, clear_keys) ← clear_loop self.hot_cache self.memory_allocator (get_keys self) []
          self' ← remove_all (record self { memory_allocator = heap }) clear_keys true
          ok (tell_removed self' clear_keys, length clear_keys))
        else ok (self, 0)

    module _ (torch : Torch) where
      -- The loop of `allocate` over the keys of the cache.
      unfoldable pub evict_loop :
          List ℕ
          → Option Dtype
          → MemoryFormat
          → Dict K MemoryRef
          → MixedMemoryAllocator
          → List K
          → List K
          → Result (MixedMemoryAllocator × List K × Option MemoryRef)
      unfolding get get_ref_count release mixed_allocate
      evict_loop shape dtype fmt cache heap [] evict_keys = ok (heap, evict_keys, none)
      evict_loop shape dtype fmt cache heap (key ∷ keys) evict_keys = elim (get key cache) [
        | none ↦ raise key_error
        | some old ↦ elim (ltb_ℤ (pos 1) (get_ref_count heap old)) [
          | true ↦ evict_loop shape dtype fmt cache heap keys evict_keys
          | false ↦ do
            heap' ← release sl heap old
            (heap'', memory_obj) ← mixed_allocate sl torch heap' shape dtype fmt
            elim memory_obj [
              | some ref ↦ ok (heap'', evict_keys ++ key ∷ [], some ref)
              | none ↦ evict_loop shape dtype fmt cache heap'' keys (evict_keys ++ key ∷ [])
            ]
        ]
      ]

      unfoldable pub allocate :
          LocalCpuBackend K
          → List ℕ
          → Option Dtype
          → Option MemoryFormat
          → Bool
          → Result (LocalCpuBackend K × Option MemoryRef)
      unfolding choose_format mixed_allocate evict_loop remove_all
      allocate self shape dtype fmt? eviction =
          let fmt = choose_format self.layerwise self.enable_blending fmt? in
          do
            (heap, memory_obj) ← mixed_allocate sl torch self.memory_allocator shape dtype fmt
            let self' = record self { memory_allocator = heap }
            elim memory_obj [
              | some ref ↦ ok (self', some ref)
              | none ↦
                  if eviction
                  then (do
                    (heap', evict_keys, found) ←
                        evict_loop shape dtype fmt self.hot_cache heap (get_keys self) []
                    self'' ← remove_all (record self { memory_allocator = heap' }) evict_keys true
                    ok (tell_removed self'' evict_keys, found))
                  else ok (self', none)
            ]

      -- `source` is the metadata of the object that comes from elsewhere, and `memory_obj` the object
      -- where it is in the store of this allocator; a tensor on the GPU is copied to a new object.
      unfoldable pub write_back_cuda :
          LocalCpuBackend K → K → MemoryObjMetadata → Result (LocalCpuBackend K)
      unfolding has_key mixed_allocate assign retain
      write_back_cuda self key source =
          if self.use_hot && not (has_key key self.hot_cache)
          then (do
            (heap, memory_obj) ←
                mixed_allocate sl torch self.memory_allocator source.shape source.dtype source.fmt
            elim memory_obj [
              | none ↦ ok (record self { memory_allocator = heap })
              | some ref ↦ ok (
                  tell_worker
                    (record self {
                      hot_cache = assign key ref self.hot_cache;
                      memory_allocator = retain heap ref;
                    })
                    (kv_admit (message_of self key)))
            ])
          else ok self
