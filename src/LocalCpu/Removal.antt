-- ===== src/LocalCpu/Removal.antt =====
-- The removal of the keys that `allocate` and `clear` have evicted, and the messages about it.
use mtds.Prelude.{
  ℕ, ◌≡◌, refl, Bool, true, false, some, List, [], ◌∷◌, ◌++◌, Option-cases, Bool-cases, inl, inr,
  Result, ok,
}
use mtds.Prelude.Int.{pos, ◌-ℤ◌}
use mtds.Dict.{Eq, Dict, get, delete}
use mtds.Keys.{KeyAttributes}
use mtds.Memory.SortedList.{SortedKeyList}
use mtds.Memory.Mixed.{MixedMemoryAllocator, MemoryRef, get_size}
use mtds.Memory.Mixed.Counted.{IsCounted}
use mtds.LocalCpu.{
  LocalCpuBackend, WorkerMsg, kv_evict, message_of, tell_worker, remove, remove_all,
}
use mtds.LocalCpu.Deletes.{refs}
use mtds.LocalCpu.Held.{IsEvicting, absent-IsEvicting, delete-IsEvicting}

module _ {K : Type 0} ⦃eq : Eq K⦄ ⦃attributes : KeyAttributes K⦄ where
  -- A message changes nothing else.
  pub tell_worker-keeps {κ} :
      (P : Dict K MemoryRef → MixedMemoryAllocator → Type κ) (self : LocalCpuBackend K)
      (msg : WorkerMsg)
      → P self.hot_cache self.memory_allocator
      → P (tell_worker self msg).hot_cache (tell_worker self msg).memory_allocator
  tell_worker-keeps P self msg p = elim (Bool-cases self.has_worker) [
    | inl e ↦ rw e p
    | inr e ↦ rw e p
  ]

  module _ (sl : SortedKeyList) (k : ℕ) (callers : List MemoryRef) where
    abbrev After : List K → Result (LocalCpuBackend K × Bool) → Type 0
    After keys r =
        (self' : LocalCpuBackend K) × (found : Bool) × (r ≡ ok (self', found))
        × IsEvicting k self'.hot_cache self'.memory_allocator keys callers

    remove-found :
        (self : LocalCpuBackend K) (key : K) (keys : List K) (ref : MemoryRef)
        → IsEvicting k self.hot_cache self.memory_allocator (key ∷ keys) callers
        → get key self.hot_cache ≡ some ref
        → After keys (remove sl self key true)
    unfolding remove
    remove-found self key keys ref v hit =
        let (heap, freed, v') =
          delete-IsEvicting k self.hot_cache self.memory_allocator key keys callers v sl ref hit in
        let usage = self.usage -ℤ pos (get_size heap ref) in
        let self' : LocalCpuBackend K = record self {
          hot_cache = delete key self.hot_cache;
          memory_allocator = heap;
          usage = usage;
          local_cache_usage = usage;
        } in
        let msg = kv_evict (message_of self key) in
        (
          tell_worker self' msg,
          true,
          rw (hit, remove) (rw freed refl),
          tell_worker-keeps (λ d h. IsEvicting k d h keys callers) self' msg v',
        )

    remove-IsEvicting :
        (self : LocalCpuBackend K) (key : K) (keys : List K)
        → IsEvicting k self.hot_cache self.memory_allocator (key ∷ keys) callers
        → After keys (remove sl self key true)
    unfolding remove
    remove-IsEvicting self key keys v = elim (Option-cases (get key self.hot_cache)) [
      | inr (ref, hit) ↦ remove-found self key keys ref v hit
      | inl miss ↦ (
        self,
        false,
        rw (miss, remove) refl,
        absent-IsEvicting k self.hot_cache self.memory_allocator key keys callers v miss,
      )
    ]

    -- All the evicted keys leave the cache.
    pub remove_all-IsEvicting :
        (keys : List K) (self : LocalCpuBackend K)
        → IsEvicting k self.hot_cache self.memory_allocator keys callers
        → (self' : LocalCpuBackend K) × (remove_all sl self keys true ≡ ok self')
          × IsCounted k self'.memory_allocator (refs self'.hot_cache ++ callers)
    unfolding remove_all
    remove_all-IsEvicting [] self v = (self, refl, v.counted)
    remove_all-IsEvicting (key ∷ keys) self v =
        let (self', found, run, v') = remove-IsEvicting self key keys v in
        let (self'', run', c) = remove_all-IsEvicting keys self' v' in
        (self'', rw (run, remove_all) run', c)
