-- ===== src/LocalCpu/Evict.antt =====
-- The loops of `allocate` and `clear` over the keys of the cache, and the removal of the keys that
-- they have evicted: nothing raises, and what is left is held by the cache and the callers.
use mtds.Prelude.{
  ℕ, ◌<◌, ◌≡◌, refl, Option, some, none, List, [], ◌∷◌, ◌++◌, map, arith, Bool-cases, ◌⊎◌, inl, inr,
  length, ok, All,
}
use mtds.Prelude.Int.{pos, ltb_ℤ}
use mtds.Dict.{Eq, Dict, get, beq_refl}
use mtds.Keys.{KeyAttributes}
use mtds.Memory.Objects.{Torch, Dtype, MemoryFormat}
use mtds.Memory.SortedList.{SortedKeyList}
use mtds.Memory.Tensor.{compute_raw_size}
use mtds.Memory.Mixed.{
  MixedMemoryAllocator, MemoryRef, tensor_obj, target, to_pin, get_ref_count,
  allocate as mixed_allocate,
}
use mtds.Memory.Mixed.Counted.{uses-append}
use mtds.Memory.Mixed.Counting.{fewer}
use mtds.Memory.Mixed.Fresh.{Taken, nothing, taken, allocate-Taken}
use mtds.LocalCpu.{clear_loop, evict_loop}
use mtds.LocalCpu.Deletes.{refs, deletes}
use mtds.LocalCpu.Held.{stay, IsEvicting, evict-IsEvicting}

-- The callers after a call that may return an object.
abbrev pub receive : Option MemoryRef → List MemoryRef → List MemoryRef
receive none callers = callers
receive (some ref) callers = ref ∷ callers

module _ {K : Type 0} ⦃eq : Eq K⦄ where
  abbrev pub IsHit : Dict K MemoryRef → K → Type 0
  IsHit cache key = (ref : MemoryRef) × (get key cache ≡ some ref)

  IsHit-more :
      (j : K) (ref : MemoryRef) (cache : Dict K MemoryRef) (keys : List K)
      → All (IsHit cache) keys
      → All (IsHit ((j, ref) ∷ cache)) keys
  unfolding get
  IsHit-more j ref cache [] hits = tt
  IsHit-more j ref cache (key ∷ keys) ((ref', hit), hits) = elim (Bool-cases (eq.beq j key)) [
    | inl same ↦ ((ref, ground (arith, same)), IsHit-more j ref cache keys hits)
    | inr other ↦ ((ref', ground (arith, other, hit)), IsHit-more j ref cache keys hits)
  ]

  -- Every key of the cache has its object.
  pub keys-IsHit : (cache : Dict K MemoryRef) → All (IsHit cache) (map (λ e. e.0) cache)
  unfolding get
  keys-IsHit [] = tt
  keys-IsHit ((j, ref) ∷ cache) = (
    (ref, ground (arith, beq_refl j)),
    IsHit-more j ref cache (map (λ e. e.0) cache) (keys-IsHit cache),
  )

  Taken-IsEvicting :
      (k : ℕ) (cache : Dict K MemoryRef) (heap : MixedMemoryAllocator) (keys : List K)
      (callers : List MemoryRef) {heap' : MixedMemoryAllocator} {r : Option MemoryRef}
      → IsEvicting k cache heap keys callers
      → Taken k heap (stay keys cache callers) heap' r
      → IsEvicting k cache heap' keys (receive r callers)
  Taken-IsEvicting k cache heap keys callers v nothing = v
  Taken-IsEvicting k cache heap keys callers v (taken {self' = heap'} c longer) =
      let new = tensor_obj (length heap.objects) in
      let d = refs (deletes keys cache) in
      record {
        counted =
            fewer k heap'
              (λ i. omega (arith, uses-append i d callers, uses-append i d (new ∷ callers))) c;
        gone = λ key i hit miss.
            let (unheld, bound) = v.gone key i hit miss in
            (
              ground
                  (arith, unheld, bound, uses-append i d callers, uses-append i d (new ∷ callers)),
              omega (arith, bound, longer),
            );
      }

  module _ (sl : SortedKeyList) (k : ℕ) (cache : Dict K MemoryRef) where
    -- The loop of `clear`.
    pub clear_loop-IsEvicting :
        ⦃attributes : KeyAttributes K⦄ (todo done : List K) (heap : MixedMemoryAllocator)
        (callers : List MemoryRef)
        → All (IsHit cache) todo
        → IsEvicting k cache heap done callers
        → (heap' : MixedMemoryAllocator) × (keys : List K) × (clear_loop sl cache heap todo done
            ≡ ok (heap', keys))
          × IsEvicting k cache heap' keys callers
    unfolding clear_loop
    clear_loop-IsEvicting [] done heap callers hits v = (heap, done, refl, v)
    clear_loop-IsEvicting (key ∷ todo) done heap callers ((ref, hit), hits) v =
        elim (Bool-cases (ltb_ℤ (pos 1) (get_ref_count heap ref))) [
          | inl busy ↦
              let (heap', keys, run, v') = clear_loop-IsEvicting todo done heap callers hits v in
              (heap', keys, rw (hit, clear_loop) (rw busy run), v')
          | inr low ↦
              let (heap', freed, v', same) =
                evict-IsEvicting sl k cache heap done callers v key ref hit low in
              let (heap'', keys, run, v'') =
                clear_loop-IsEvicting todo (done ++ key ∷ []) heap' callers hits v' in
              (heap'', keys, rw (hit, clear_loop) (rw low (rw freed run)), v'')
        ]

    module _ (torch : Torch) (shape : List ℕ) (dtype : Dtype) (fmt : MemoryFormat)
        (to : target fmt ≡ to_pin) (filled : 0 < compute_raw_size torch shape dtype) where
      -- The call that follows an eviction finds nothing, or an object for the caller.
      abbrev pub Tried : MixedMemoryAllocator → List K → List MemoryRef → Type 0
      Tried heap keys callers =
          (mixed_allocate sl torch heap shape (some dtype) fmt ≡ ok (heap, none))
          ⊎ ((heap' : MixedMemoryAllocator) × (ref : MemoryRef) × (mixed_allocate sl torch heap
                  shape (some dtype) fmt
                ≡ ok (heap', some ref))
              × IsEvicting k cache heap' keys (ref ∷ callers))

      Taken-Tried :
          (heap : MixedMemoryAllocator) (keys : List K) (callers : List MemoryRef)
          → IsEvicting k cache heap keys callers
          → (heap' : MixedMemoryAllocator) (r : Option MemoryRef)
          → mixed_allocate sl torch heap shape (some dtype) fmt ≡ ok (heap', r)
          → Taken k heap (stay keys cache callers) heap' r
          → Tried heap keys callers
      Taken-Tried heap keys callers v heap' none run nothing = inl run
      Taken-Tried heap keys callers v heap' (some ref) run (taken c longer) = inr (
        heap',
        tensor_obj (length heap.objects),
        run,
        Taken-IsEvicting k cache heap keys callers v (taken c longer),
      )

      pub try_allocate :
          (heap : MixedMemoryAllocator) (keys : List K) (callers : List MemoryRef)
          → IsEvicting k cache heap keys callers
          → Tried heap keys callers
      try_allocate heap keys callers v =
          let (heap', r, run, t) =
            allocate-Taken k heap (stay keys cache callers) v.counted sl torch shape dtype fmt to
              filled in
          Taken-Tried heap keys callers v heap' r run t

      -- The loop of `allocate`.
      pub evict_loop-IsEvicting :
          ⦃attributes : KeyAttributes K⦄ (todo done : List K) (heap : MixedMemoryAllocator)
          (callers : List MemoryRef)
          → All (IsHit cache) todo
          → IsEvicting k cache heap done callers
          → (heap' : MixedMemoryAllocator) × (keys : List K) × (r : Option MemoryRef) × (evict_loop
                sl torch shape
                (some dtype)
                fmt
                cache
                heap
                todo
                done
              ≡ ok (heap', keys, r))
            × IsEvicting k cache heap' keys (receive r callers)
      unfolding evict_loop
      evict_loop-IsEvicting [] done heap callers hits v = (heap, done, none, refl, v)
      evict_loop-IsEvicting (key ∷ todo) done heap callers ((ref, hit), hits) v =
          elim (Bool-cases (ltb_ℤ (pos 1) (get_ref_count heap ref))) [
            | inl busy ↦
                let (heap', keys, r, run, v') =
                  evict_loop-IsEvicting todo done heap callers hits v in
                (heap', keys, r, rw (hit, evict_loop) (rw busy run), v')
            | inr low ↦
                let (heap', freed, v', same) =
                  evict-IsEvicting sl k cache heap done callers v key ref hit low in
                elim (try_allocate heap' (done ++ key ∷ []) callers v') [
                  | inl full ↦
                      let (heap'', keys, r, run, v'') =
                        evict_loop-IsEvicting todo (done ++ key ∷ []) heap' callers hits v' in
                      (heap'', keys, r, rw (hit, evict_loop) (rw low (rw freed (rw full run))), v'')
                  | inr (heap'', new, got, v'') ↦ (
                    heap'',
                    done ++ key ∷ [],
                    some new,
                    rw (hit, evict_loop) (rw low (rw freed (rw got refl))),
                    v'',
                  )
                ]
          ]
