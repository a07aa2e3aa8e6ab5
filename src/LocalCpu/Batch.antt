-- ===== src/LocalCpu/Batch.antt =====
-- MTDS/v1/storage_backend/local_cpu_backend.py: `LocalCPUBackend.batched_allocate`, which evicts the
-- layers of a chunk together. The keys of the cache are those of layers.
use mtds.Prelude.{
  ℕ, Bool, true, false, ◌&&◌, ◌||◌, not, Option, none, some, List, [], ◌∷◌, ◌++◌, if◌then◌else◌,
  Result, ok, raise, ◌>>=◌, key_error,
}
use mtds.Prelude.Int.{pos, ltb_ℤ}
use mtds.Dict.{Dict, get}
use mtds.Keys.{LayerCacheEngineKey, layer_eq, layer_key_eq, layer_key_attributes, split_layers}
use mtds.Memory.Objects.{MemoryFormat, Dtype, Torch}
use mtds.Memory.SortedList.{SortedKeyList}
use mtds.Memory.Mixed.{
  MixedMemoryAllocator, MemoryRef, batched_allocate as mixed_batched_allocate,
  batched_free as mixed_batched_free, get_ref_count, is_pinned,
}
use mtds.LocalCpu.{LocalCpuBackend, choose_format, remove_all, get_keys, tell_removed}

-- `key in keys`
abbrev pub mem_key : LayerCacheEngineKey → List LayerCacheEngineKey → Bool
mem_key key [] = false
mem_key key (k ∷ keys) = layer_eq k key || mem_key key keys

-- `self.hot_cache[key]` for each of the keys.
unfoldable pub cached_layers :
    Dict LayerCacheEngineKey MemoryRef → List LayerCacheEngineKey → Result (List MemoryRef)
unfolding get
cached_layers cache [] = ok []
cached_layers cache (key ∷ keys) = elim (get key cache) [
  | none ↦ raise key_error
  | some ref ↦ do refs ← cached_layers cache keys; ok (ref ∷ refs)
]

-- The objects that the loop leaves alone.
unfoldable pub in_use : MixedMemoryAllocator → MemoryRef → Bool
unfolding get_ref_count is_pinned
in_use heap ref = ltb_ℤ (pos 1) (get_ref_count heap ref) && not (is_pinned heap ref)

module _ (sl : SortedKeyList) (torch : Torch) where
  unfoldable pub evict_layers :
      List ℕ
      → Option Dtype
      → ℕ
      → MemoryFormat
      → Dict LayerCacheEngineKey MemoryRef
      → MixedMemoryAllocator
      → List LayerCacheEngineKey
      → List LayerCacheEngineKey
      → Result (MixedMemoryAllocator × List LayerCacheEngineKey × Option (List MemoryRef))
  unfolding layer_eq get in_use cached_layers split_layers mixed_batched_free mixed_batched_allocate
  evict_layers shape dtype n fmt cache heap [] evict_keys = ok (heap, evict_keys, none)
  evict_layers shape dtype n fmt cache heap (key ∷ keys) evict_keys =
      elim (mem_key key evict_keys) [
        | true ↦ evict_layers shape dtype n fmt cache heap keys evict_keys
        | false ↦ elim (get key cache) [
          | none ↦ raise key_error
          | some old ↦ elim (in_use heap old) [
            | true ↦ evict_layers shape dtype n fmt cache heap keys evict_keys
            | false ↦ do
              let layers = split_layers key.base n
              old_mem_objs ← cached_layers cache layers
              heap' ← mixed_batched_free sl heap old_mem_objs
              (heap'', memory_objs) ← mixed_batched_allocate sl torch heap' shape dtype n fmt
              elim memory_objs [
                | some refs ↦ ok (heap'', evict_keys ++ layers, some refs)
                | none ↦ evict_layers shape dtype n fmt cache heap'' keys (evict_keys ++ layers)
              ]
          ]
        ]
      ]

  unfoldable pub batched_allocate :
      LocalCpuBackend LayerCacheEngineKey
      → List ℕ
      → Option Dtype
      → ℕ
      → Option MemoryFormat
      → Bool
      → Result (LocalCpuBackend LayerCacheEngineKey × Option (List MemoryRef))
  unfolding choose_format mixed_batched_allocate evict_layers remove_all
  batched_allocate self shape dtype batch_size fmt? eviction =
      let fmt = choose_format self.layerwise self.enable_blending fmt? in
      do
        (heap, memory_objs) ←
            mixed_batched_allocate sl torch self.memory_allocator shape dtype batch_size fmt
        elim memory_objs [
          | some refs ↦ ok (record self { memory_allocator = heap }, some refs)
          | none ↦
              if eviction
              then (do
                (heap', evict_keys, found) ←
                    evict_layers shape dtype batch_size fmt self.hot_cache heap (get_keys self) []
                self' ← remove_all sl (record self { memory_allocator = heap' }) evict_keys false
                ok (tell_removed self' evict_keys, found))
              else ok (record self { memory_allocator = heap }, none)
        ]
