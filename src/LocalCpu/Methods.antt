-- ===== src/LocalCpu/Methods.antt =====
-- Every method of the backend raises nothing and keeps what the cache and its callers hold.
use mtds.Prelude.{
  ℕ, ◌<◌, ◌≡◌, refl, sym, ◌∙◌, Bool, true, false, not, ◌&&◌, Option, some, none, List, [], ◌∷◌,
  ◌++◌, arith, Option-cases, Bool-cases, if_true, if_false, inl, inr, length, Result, ok,
}
use mtds.Prelude.Int.{pos, ◌-ℤ◌, ◌+ℤ◌}
use mtds.Dict.{Eq, Dict, get, contains as has_key, assign, delete, move_to_end}
use mtds.Keys.{KeyAttributes}
use mtds.Memory.Objects.{Torch, Dtype, MemoryFormat}
use mtds.Memory.SortedList.{SortedKeyList}
use mtds.Memory.Tensor.{compute_raw_size}
use mtds.Memory.Mixed.{
  MixedMemoryAllocator, MemoryRef, target, to_pin, release, retain, get_size,
  allocate as mixed_allocate,
}
use mtds.Memory.Mixed.Counted.{uses-append, IsCounted}
use mtds.Memory.Mixed.Counting.{
  fewer, release-IsCounted, retain-IsCounted, pin_ref-IsCounted, unpin_ref-IsCounted, IsAmong,
  IsAmong-append,
}
use mtds.LocalCpu.{
  LocalCpuBackend, kv_admit, kv_evict, message_of, tell_worker, tell_removed, contains,
  get_blocking, get_non_blocking, pin, unpin, drop_old, submit_put_task, remove, remove_all, clear,
  allocate, choose_format, write_back, get_keys,
}
use mtds.LocalCpu.Deletes.{refs, among, uses-delete_hit, uses-assign, uses-move_to_end, delete-miss}
use mtds.LocalCpu.Held.{IsEvicting, start-IsEvicting}
use mtds.LocalCpu.Evict.{
  receive, keys-IsHit, evict_loop-IsEvicting, clear_loop-IsEvicting, try_allocate,
}
use mtds.LocalCpu.Removal.{tell_worker-keeps, remove_all-IsEvicting}

module _ {K : Type 0} ⦃eq : Eq K⦄ (k : ℕ) (callers : List MemoryRef) where
  -- Every object that the cache or a caller holds is valid, and has at least as many counts as holders.
  abbrev pub IsSafe : LocalCpuBackend K → Type 0
  IsSafe self = IsCounted k self.memory_allocator (refs self.hot_cache ++ callers)

  module _ (self : LocalCpuBackend K) (s : IsSafe self) (key : K) where
    -- A hit goes to the end of the cache and to the caller.
    pub served :
        (ref : MemoryRef)
        → get key self.hot_cache ≡ some ref
        → IsCounted k
            (retain self.memory_allocator ref)
            (refs (move_to_end key self.hot_cache) ++ ref ∷ callers)
    served ref hit =
        let d = refs self.hot_cache in
        let d' = refs (move_to_end key self.hot_cache) in
        fewer k (retain self.memory_allocator ref)
          (λ i. omega (
            arith,
            uses-append i d callers,
            uses-append i d' (ref ∷ callers),
            uses-move_to_end i key self.hot_cache,
          ))
          (retain-IsCounted k self.memory_allocator (d ++ callers) s ref
            (among key ref self.hot_cache callers hit))

    abbrev Served : LocalCpuBackend K × Option MemoryRef → Type 0
    Served r = IsCounted k r.0.memory_allocator (refs r.0.hot_cache ++ receive r.1 callers)

    pub get_blocking-IsSafe : Served (get_blocking self key)
    unfolding get_blocking
    get_blocking-IsSafe = elim (Option-cases (get key self.hot_cache)) [
      | inl miss ↦ rw (miss, get_blocking) s
      | inr (ref, hit) ↦ rw (hit, get_blocking) (served ref hit)
    ]

    pub get_non_blocking-IsSafe : Served (get_non_blocking self key)
    unfolding get_non_blocking
    get_non_blocking-IsSafe = elim (Option-cases (get key self.hot_cache)) [
      | inl miss ↦ rw (miss, get_non_blocking) s
      | inr (ref, hit) ↦ rw (hit, get_non_blocking) (served ref hit)
    ]

    pub pin-IsSafe : IsSafe (pin self key).0
    unfolding pin
    pin-IsSafe = elim (Option-cases (get key self.hot_cache)) [
      | inl miss ↦ rw (miss, pin) s
      | inr (ref, hit) ↦
          rw (hit, pin)
            (pin_ref-IsCounted k self.memory_allocator (refs self.hot_cache ++ callers) s ref)
    ]

    pub unpin-IsSafe : IsSafe (unpin self key).0
    unfolding unpin
    unpin-IsSafe = elim (Option-cases (get key self.hot_cache)) [
      | inl miss ↦ rw (miss, unpin) s
      | inr (ref, hit) ↦
          rw (hit, unpin)
            (unpin_ref-IsCounted k self.memory_allocator (refs self.hot_cache ++ callers) s ref)
    ]

    pub contains-IsSafe : (pin : Bool) → IsSafe (contains self key pin).0
    unfolding contains
    contains-IsSafe b = elim (Option-cases (get key self.hot_cache)) [
      | inl miss ↦ rw (miss, contains) s
      | inr (ref, hit) ↦ elim (Bool-cases b) [
        | inl pinned ↦
            rw (hit, contains)
              (rw pinned
                (pin_ref-IsCounted k self.memory_allocator (refs self.hot_cache ++ callers) s ref))
        | inr loose ↦ rw (hit, contains) (rw loose s)
      ]
    ]

-- A new entry of an object that somebody holds.
module _ {K : Type 0} ⦃eq : Eq K⦄ (k : ℕ) (callers : List MemoryRef) (cache : Dict K MemoryRef)
    (heap : MixedMemoryAllocator) (key : K) (ref : MemoryRef) where
  pub stored :
      IsCounted k heap (refs cache ++ callers)
      → IsAmong ref callers
      → IsCounted k (retain heap ref) (refs (assign key ref cache) ++ callers)
  stored c held =
      let d' = refs (assign key ref cache) in
      fewer k (retain heap ref)
        (λ i. omega (
          arith,
          uses-append i (refs cache) callers,
          uses-append i d' callers,
          uses-assign i key ref cache,
        ))
        (retain-IsCounted k heap (refs cache ++ callers) c ref
          (IsAmong-append ref (refs cache) callers held))

module _ {K : Type 0} ⦃eq : Eq K⦄ (k : ℕ) (callers : List MemoryRef) where
  tell_removed-IsSafe :
      (self : LocalCpuBackend K) (keys : List K)
      → IsSafe k callers self
      → IsSafe k callers (tell_removed self keys)
  tell_removed-IsSafe self keys s = elim (Bool-cases self.has_lookup_server) [
    | inl e ↦ rw e s
    | inr e ↦ rw e s
  ]

module _ {K : Type 0} ⦃eq : Eq K⦄ ⦃attributes : KeyAttributes K⦄ (k : ℕ) where
  module _ (callers : List MemoryRef) (self : LocalCpuBackend K) (s : IsSafe k callers self)
      (key : K) where
    pub write_back-IsSafe :
        (ref : MemoryRef) → IsAmong ref callers → IsSafe k callers (write_back self key ref)
    unfolding write_back
    write_back-IsSafe ref held =
        elim (Bool-cases (self.use_hot && not (has_key key self.hot_cache))) [
          | inl fresh ↦
              rw (fresh, write_back)
                (tell_worker-keeps (λ d h. IsCounted k h (refs d ++ callers))
                  (record self {
                    hot_cache = assign key ref self.hot_cache;
                    memory_allocator = retain self.memory_allocator ref;
                  })
                  (kv_admit (message_of self key))
                  (stored k callers self.hot_cache self.memory_allocator key ref s held))
          | inr skip ↦ rw (skip, write_back) s
        ]

    module _ (sl : SortedKeyList) where
      -- What a call leaves that raises nothing.
      abbrev pub Safely : Result (LocalCpuBackend K) → Type 0
      Safely r = (self' : LocalCpuBackend K) × (r ≡ ok self') × IsSafe k callers self'

      -- The entry goes, and what it held.
      deleted :
          (ref : MemoryRef)
          → get key self.hot_cache ≡ some ref
          → (heap : MixedMemoryAllocator) × (release sl self.memory_allocator ref ≡ ok heap)
            × IsCounted k heap (refs (delete key self.hot_cache) ++ callers)
      deleted ref hit =
          let d = refs self.hot_cache in
          let d' = refs (delete key self.hot_cache) in
          let (heap, run, c, same) =
            release-IsCounted sl k self.memory_allocator (d' ++ callers) ref (
              fewer k self.memory_allocator
                (λ i. omega (
                  arith,
                  uses-append i d callers,
                  uses-append i d' callers,
                  uses-delete_hit i key ref self.hot_cache hit,
                ))
                s) in
          (heap, run, c)

      -- Only the entry of the key goes.
      pub drop_old-IsSafe :
          (self' : LocalCpuBackend K) × (drop_old sl self key ≡ ok self')
          × IsSafe k callers self'
          × (self'.hot_cache ≡ delete key self.hot_cache)
      unfolding drop_old
      drop_old-IsSafe = elim (Option-cases (get key self.hot_cache)) [
        | inl miss ↦ (self, rw (miss, drop_old) refl, s, sym (delete-miss key self.hot_cache miss))
        | inr (ref, hit) ↦
            let (heap, run, c) = deleted ref hit in
            (
              record self { hot_cache = delete key self.hot_cache; memory_allocator = heap },
              rw (hit, drop_old) (rw run refl),
              c,
              refl,
            )
      ]

      pub submit_put_task-IsSafe :
          (ref : MemoryRef) → IsAmong ref callers → Safely (submit_put_task sl self key ref)
      unfolding submit_put_task
      submit_put_task-IsSafe ref held = elim (Bool-cases self.use_hot) [
        | inr cold ↦ (self, if_false _ cold, s)
        | inl hot ↦
            let (self', run, c, same) = drop_old-IsSafe in
            let usage = self'.usage +ℤ pos (get_size self'.memory_allocator ref) in
            let self'' : LocalCpuBackend K = record self' {
              hot_cache = assign key ref self'.hot_cache;
              memory_allocator = retain self'.memory_allocator ref;
              usage = usage;
              local_cache_usage = usage;
            } in
            let msg = kv_admit (message_of self' key) in
            (
              tell_worker self'' msg,
              if_true _ hot ∙ rw run refl,
              tell_worker-keeps (λ d h. IsCounted k h (refs d ++ callers)) self'' msg
                  (stored k callers self'.hot_cache self'.memory_allocator key ref c held),
            )
      ]

      pub remove-IsSafe :
          (self' : LocalCpuBackend K) × (found : Bool) × (remove sl self key true
            ≡ ok (self', found))
          × IsSafe k callers self'
      unfolding remove
      remove-IsSafe = elim (Option-cases (get key self.hot_cache)) [
        | inl miss ↦ (self, false, rw (miss, remove) refl, s)
        | inr (ref, hit) ↦
            let (heap, run, c) = deleted ref hit in
            let usage = self.usage -ℤ pos (get_size heap ref) in
            let self' : LocalCpuBackend K = record self {
              hot_cache = delete key self.hot_cache;
              memory_allocator = heap;
              usage = usage;
              local_cache_usage = usage;
            } in
            let msg = kv_evict (message_of self key) in
            (
              tell_worker self' msg,
              true,
              rw (hit, remove) (rw run refl),
              tell_worker-keeps (λ d h. IsCounted k h (refs d ++ callers)) self' msg c,
            )
      ]

  module _ (callers : List MemoryRef) (self : LocalCpuBackend K) (s : IsSafe k callers self)
      (sl : SortedKeyList) where
    -- The keys that are evicted leave the cache, and the lookup server is told.
    dropped :
        (heap : MixedMemoryAllocator) (keys : List K) (callers' : List MemoryRef)
        → IsEvicting k self.hot_cache heap keys callers'
        → (self' : LocalCpuBackend K) × (remove_all sl
              (record self { memory_allocator = heap })
              keys
              true
            ≡ ok self')
          × IsSafe k callers' (tell_removed self' keys)
    dropped heap keys callers' v =
        let (self', run, c) =
          remove_all-IsEvicting sl k callers' keys (record self { memory_allocator = heap }) v in
        (self', run, tell_removed-IsSafe k callers' self' keys c)

    pub clear-IsSafe :
        (self' : LocalCpuBackend K) × (n : ℕ) × (clear sl self ≡ ok (self', n))
        × IsSafe k callers self'
    unfolding clear
    clear-IsSafe = elim (Bool-cases self.use_hot) [
      | inr cold ↦ (self, 0, if_false _ cold, s)
      | inl hot ↦
          let (heap, keys, run, v) =
            clear_loop-IsEvicting sl k self.hot_cache (get_keys self) [] self.memory_allocator
              callers (keys-IsHit self.hot_cache)
              (start-IsEvicting k self.hot_cache self.memory_allocator callers s) in
          let (self', run', s') = dropped heap keys callers v in
          (tell_removed self' keys, length keys, if_true _ hot ∙ rw run (rw run' refl), s')
    ]

    module _ (torch : Torch) (shape : List ℕ) (dtype : Dtype) (fmt? : Option MemoryFormat)
        (to : target (choose_format self.layerwise self.enable_blending fmt?) ≡ to_pin)
        (filled : 0 < compute_raw_size torch shape dtype) where
      abbrev pub Gives : Result (LocalCpuBackend K × Option MemoryRef) → Type 0
      Gives result =
          (self' : LocalCpuBackend K) × (r : Option MemoryRef) × (result ≡ ok (self', r))
          × IsSafe k (receive r callers) self'

      abbrev fmt : MemoryFormat
      fmt = choose_format self.layerwise self.enable_blending fmt?

      allocate_full :
          (eviction : Bool)
          → mixed_allocate sl torch self.memory_allocator shape (some dtype) fmt
            ≡ ok (self.memory_allocator, none)
          → Gives (allocate sl torch self shape (some dtype) fmt? eviction)
      unfolding allocate
      allocate_full false full = (self, none, rw (full, allocate) refl, s)
      allocate_full true full =
          let (heap, keys, r, run, v) =
            evict_loop-IsEvicting sl k self.hot_cache torch shape dtype fmt to filled
              (get_keys self) [] self.memory_allocator callers (keys-IsHit self.hot_cache)
              (start-IsEvicting k self.hot_cache self.memory_allocator callers s) in
          let (self', run', s') = dropped heap keys (receive r callers) v in
          (tell_removed self' keys, r, rw (full, allocate) (rw run (rw run' refl)), s')

      pub allocate-IsSafe :
          (eviction : Bool) → Gives (allocate sl torch self shape (some dtype) fmt? eviction)
      unfolding allocate
      allocate-IsSafe eviction =
          elim (try_allocate sl k self.hot_cache torch shape dtype fmt to filled
            self.memory_allocator [] callers
            (start-IsEvicting k self.hot_cache self.memory_allocator callers s)) [
              | inl full ↦ allocate_full eviction full
              | inr (heap, ref, got, v) ↦ (
                record self { memory_allocator = heap },
                some ref,
                rw (got, allocate) refl,
                v.counted,
              )
            ]
