-- ===== src/LocalCpu/Put.antt =====
-- What the cache answers after a put.
use mtds.Prelude.{
  ℕ, ◌≡◌, refl, ◌∙◌, true, some, List, arith, if◌then◌else◌, Option-cases, if_true, inl, inr, ok,
}
use mtds.Prelude.Int.{pos, ◌+ℤ◌}
use mtds.Dict.{Eq, get, assign, get-assign, get-delete}
use mtds.Keys.{KeyAttributes}
use mtds.Memory.SortedList.{SortedKeyList}
use mtds.Memory.Mixed.{MemoryRef, retain, get_size}
use mtds.Memory.Mixed.Counting.{IsAmong}
use mtds.LocalCpu.{
  LocalCpuBackend, kv_admit, message_of, tell_worker, get_blocking, submit_put_task,
}
use mtds.LocalCpu.Removal.{tell_worker-keeps}
use mtds.LocalCpu.Methods.{IsSafe, drop_old-IsSafe}

module _ {K : Type 0} ⦃eq : Eq K⦄ where
  get_blocking_answer :
      (self : LocalCpuBackend K) (key : K) → (get_blocking self key).1 ≡ get key self.hot_cache
  unfolding get_blocking
  get_blocking_answer self key = elim (Option-cases (get key self.hot_cache)) [
    | inl miss ↦ ground (arith, miss)
    | inr (ref, hit) ↦ ground (arith, hit)
  ]

module _ {K : Type 0} ⦃eq : Eq K⦄ ⦃attributes : KeyAttributes K⦄ (sl : SortedKeyList) (k : ℕ)
    (callers : List MemoryRef) (self : LocalCpuBackend K) (s : IsSafe k callers self) where
  -- After a put of an object that the caller holds, a backend that uses its cache raises nothing and
  -- answers the key with that object, and every other key as before.
  pub get_blocking_after_put :
      (key : K) (ref : MemoryRef)
      → IsAmong ref callers
      → self.use_hot ≡ true
      → (self' : LocalCpuBackend K) × (submit_put_task sl self key ref ≡ ok self')
        × ((j : K)
            → (get_blocking self' j).1
              ≡ (if eq.beq key j then some ref else (get_blocking self j).1))
  unfolding submit_put_task
  get_blocking_after_put key ref held hot =
      let (before, run, c, others) = drop_old-IsSafe k callers self s key sl in
      let usage = before.usage +ℤ pos (get_size before.memory_allocator ref) in
      let stored : LocalCpuBackend K = record before {
        hot_cache = assign key ref before.hot_cache;
        memory_allocator = retain before.memory_allocator ref;
        usage = usage;
        local_cache_usage = usage;
      } in
      let msg = kv_admit (message_of before key) in
      (
        tell_worker stored msg,
        if_true _ hot ∙ rw run refl,
        λ j.
            get_blocking_answer (tell_worker stored msg) j
            ∙ (tell_worker-keeps
                (λ d h. get j d ≡ (if eq.beq key j then some ref else (get_blocking self j).1))
                stored msg
                (ground (
                  arith,
                  get-assign key j ref before.hot_cache,
                  others,
                  get-delete key j self.hot_cache,
                  get_blocking_answer self j,
                ))),
      )
