-- ===== src/Storage/Serves.antt =====
-- The local CPU backend keeps to the interfaces of the storage manager and of the cache engine.
use mtds.Prelude.{
  ℕ, ◌≡◌, refl, sym, ◌∙◌, ap, Bool, true, false, none, some, List, [], ◌∷◌, ◌++◌, subst, arith, ok,
  Bool-cases, Option-cases, inl, inr,
}
use mtds.Dict.{
  get as lookup_key, contains as has_key, contains-get, contains-miss, move_to_end, get-move_to_end,
}
use mtds.Keys.{CacheEngineKey, chunk_key_eq, chunk_key_attributes}
use mtds.Memory.Objects.{Torch}
use mtds.Memory.SortedList.{SortedKeyList}
use mtds.Memory.Mixed.{MemoryRef, retain}
use mtds.Memory.Mixed.Counting.{release-IsCounted, fewer}
use mtds.LocalCpu.{LocalCpuBackend}
use mtds.LocalCpu as Cpu
use mtds.Memory.Mixed.Counted.{uses-append}
use mtds.LocalCpu.Deletes.{refs}
use mtds.LocalCpu.Methods.{IsSafe, served, contains-IsSafe, unpin-IsSafe}
use mtds.Storage.{StorageBackend, StorageManager}
use mtds.Storage as Manager
use mtds.Engine.Agree.{IsStorage}
use mtds.Storage.Local.{CpuState, local_backend, local_manager, give_up, engine_storage}
use mtds.Storage.Search.{IsBackend}

abbrev pub has_chunk : CpuState → CacheEngineKey → Bool
has_chunk w key = has_key key w.hot_cache

-- The callers may hold what they hold.
abbrev pub IsGood : ℕ → CpuState → Type 0
IsGood k w = (callers : List MemoryRef) × IsSafe k callers w

module _ (w : CpuState) (key : CacheEngineKey) where
  contains-has_chunk : (pin : Bool) → (Cpu.contains w key pin).1 ≡ has_chunk w key
  unfolding Cpu.contains
  contains-has_chunk pin = elim (Option-cases (lookup_key key w.hot_cache)) [
    | inl miss ↦ ground (arith, miss, contains-get key w.hot_cache)
    | inr (ref, hit) ↦ ground (arith, hit, contains-get key w.hot_cache)
  ]

  contains-cache : (pin : Bool) → (Cpu.contains w key pin).0.hot_cache ≡ w.hot_cache
  unfolding Cpu.contains
  contains-cache pin = elim (Option-cases (lookup_key key w.hot_cache)) [
    | inl miss ↦ ground (arith, miss)
    | inr (ref, hit) ↦ elim (Bool-cases pin) [
      | inl pinned ↦ ground (arith, hit, pinned)
      | inr loose ↦ ground (arith, hit, loose)
    ]
  ]

  unpin-cache : (Cpu.unpin w key).0.hot_cache ≡ w.hot_cache
  unfolding Cpu.unpin
  unpin-cache = elim (Option-cases (lookup_key key w.hot_cache)) [
    | inl miss ↦ ground (arith, miss)
    | inr (ref, hit) ↦ ground (arith, hit)
  ]

  has_chunk-hit :
      has_chunk w key ≡ true → (ref : MemoryRef) × (lookup_key key w.hot_cache ≡ some ref)
  has_chunk-hit e = elim (Option-cases (lookup_key key w.hot_cache)) [
    | inl miss ↦ absurd (ground (arith, e, miss, contains-get key w.hot_cache))
    | inr found ↦ found
  ]

module _ (sl : SortedKeyList) (torch : Torch) (w : CpuState) (key : CacheEngineKey) where
  contains_local :
      (pin : Bool)
      → Manager.contains (local_manager sl torch) w key none pin ≡ Cpu.contains w key pin
  unfolding Manager.contains Manager.contains_in
  contains_local pin = elim (Bool-cases (Cpu.contains w key pin).1) [
    | inl found ↦ ground (arith, found)
    | inr absent ↦ ground (arith, absent)
  ]

  get_local : Manager.get (local_manager sl torch) w key ≡ Cpu.get_blocking w key
  unfolding Manager.get Manager.search
  get_local = elim (Option-cases (Cpu.get_blocking w key).1) [
    | inl miss ↦ ground (arith, miss)
    | inr (ref, hit) ↦ ground (arith, hit)
  ]

  unpin_local :
      Manager.batched_unpin (local_manager sl torch) w (key ∷ []) none ≡ (Cpu.unpin w key).0
  unfolding Manager.batched_unpin Manager.unpin_in Manager.unpin_all
  unpin_local = refl

module _ (sl : SortedKeyList) (torch : Torch) (k : ℕ) where
  local_contains_keeps :
      (w : CpuState) (key : CacheEngineKey) (pin : Bool)
      → IsGood k w
      → IsGood k (Manager.contains (local_manager sl torch) w key none pin).0
        × ((j : CacheEngineKey)
            → has_chunk (Manager.contains (local_manager sl torch) w key none pin).0 j
              ≡ has_chunk w j)
  local_contains_keeps w key pin (callers, s) =
      let same = sym (contains_local sl torch w key pin) in
      (
        subst (λ r. IsGood k r.0) same (callers, contains-IsSafe k callers w s key pin),
        λ j.
            subst (λ r. has_chunk r.0 j ≡ has_chunk w j) same
              (ap (has_key j) (contains-cache w key pin)),
      )

  local_get_miss :
      (w : CpuState) (key : CacheEngineKey)
      → IsGood k w
      → has_chunk w key ≡ false
      → (w' : CpuState) × (Manager.get (local_manager sl torch) w key ≡ (w', none))
  unfolding Cpu.get_blocking
  local_get_miss w key good e =
      let miss = contains-miss key w.hot_cache e in
      (w, get_local sl torch w key ∙ ground (arith, miss))

  -- The caller of a hit gives the object back, and the key is unpinned.
  local_get_hit :
      (w : CpuState) (key : CacheEngineKey)
      → IsGood k w
      → has_chunk w key ≡ true
      → (w' : CpuState) × (o : MemoryRef) × (w'' : CpuState) × (Manager.get
            (local_manager sl torch)
            w
            key
          ≡ (w', some o))
        × (give_up sl w' o ≡ ok w'')
        × IsGood k (Manager.batched_unpin (local_manager sl torch) w'' (key ∷ []) none)
        × ((j : CacheEngineKey)
            → has_chunk (Manager.batched_unpin (local_manager sl torch) w'' (key ∷ []) none) j
              ≡ has_chunk w j)
  unfolding Cpu.get_blocking
  local_get_hit w key (callers, s) e =
      let (ref, hit) = has_chunk-hit w key e in
      let w' : CpuState = record w {
        memory_allocator = retain w.memory_allocator ref;
        hot_cache = move_to_end key w.hot_cache;
      } in
      let d = refs (move_to_end key w.hot_cache) in
      let (heap, run, c, same) = release-IsCounted sl k w'.memory_allocator (d ++ callers) ref (
        fewer k w'.memory_allocator
          (λ i. omega (arith, uses-append i d callers, uses-append i d (ref ∷ callers)))
          (served k callers w s key ref hit)) in
      let w'' : CpuState = record w' { memory_allocator = heap } in
      (
        w',
        ref,
        w'',
        get_local sl torch w key ∙ ground (arith, hit),
        rw run refl,
        subst (IsGood k) (sym (unpin_local sl torch w'' key))
            (callers, unpin-IsSafe k callers w'' c key),
        λ j.
            subst (λ x. has_chunk x j ≡ has_chunk w j) (sym (unpin_local sl torch w'' key))
              (ap (has_key j) (unpin-cache w'' key)
                ∙ (contains-get j (move_to_end key w.hot_cache)
                    ∙ (ap (λ o. elim o as (λ _. Bool) [ none ↦ false | some _ ↦ true ])
                          (get-move_to_end key j w.hot_cache)
                        ∙ sym (contains-get j w.hot_cache)))),
      )

  -- The local CPU backend behind the storage manager keeps to the interface that the engine relies
  -- on, as long as the objects that its cache and its callers hold are counted.
  pub engine_storage-IsStorage : IsStorage (engine_storage sl torch) (IsGood k) has_chunk
  engine_storage-IsStorage = record {
    contains_has = λ w key pin good.
        ap (λ r. r.1) (contains_local sl torch w key pin) ∙ contains-has_chunk w key pin;
    contains_keeps = local_contains_keeps;
    get_miss = local_get_miss;
    get_hit = local_get_hit;
  }

module _ (sl : SortedKeyList) where
  pub local_backend-IsBackend : IsBackend (λ name. has_chunk) (local_backend sl)
  unfolding Cpu.contains Cpu.get_blocking
  local_backend-IsBackend = record {
    contains_miss = λ w key pin e. ground (arith, contains-miss key w.hot_cache e);
    contains_hit = λ w key pin e.
        let (ref, hit) = has_chunk-hit w key e in ((Cpu.contains w key pin).0, ground (arith, hit));
    get_miss = λ w key e. ground (arith, contains-miss key w.hot_cache e);
    get_hit = λ w key e.
        let (ref, hit) = has_chunk-hit w key e in
        ((Cpu.get_blocking w key).0, ref, ground (arith, hit));
  }
