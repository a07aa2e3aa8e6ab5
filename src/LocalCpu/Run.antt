-- ===== src/LocalCpu/Run.antt =====
-- Programs of calls: whatever the callers do with the objects that they have, in any order.
use Prim.Native.String.{String}
use mtds.Prelude.{
  ℕ, zero, suc, ◌+◌, ◌^◌, ◌<◌, ◌≡◌, refl, Bool, true, false, Option, some, none, List, [], ◌∷◌,
  ◌++◌, arith, Option-cases, inl, inr, get_elem?, Result, ok, ◌>>=◌, All,
}
use mtds.Dict.{Eq}
use mtds.Keys.{KeyAttributes}
use mtds.Memory.Objects.{Torch, Dtype, MemoryFormat}
use mtds.Memory.SortedList.{SortedKeyList}
use mtds.Memory.Tensor.{compute_raw_size}
use mtds.Memory.Tensor.Free.{memcheck-IsValid}
use mtds.Memory.Mixed.{
  MemoryRef, tensor_obj, bytes_obj, target, to_pin, release, memcheck, init as mixed_init,
}
use mtds.Memory.Mixed.Counted.{uses, names, uses-append}
use mtds.Memory.Mixed.Counting.{fewer, release-IsCounted, IsAmong}
use mtds.Memory.Mixed.Fresh.{init-IsCounted}
use mtds.LocalCpu.{
  LocalCpuBackend, init, contains, get_blocking, pin, unpin, submit_put_task, remove, clear,
  allocate, choose_format, write_back,
}
use mtds.LocalCpu.Deletes.{refs}
use mtds.LocalCpu.Evict.{receive}
use mtds.LocalCpu.Methods.{
  IsSafe, get_blocking-IsSafe, pin-IsSafe, unpin-IsSafe, contains-IsSafe, write_back-IsSafe,
  submit_put_task-IsSafe, remove-IsSafe, clear-IsSafe, allocate-IsSafe,
}

-- A number names one of the references that the callers have.
pub data Call (K : Type 0) : Type 0 where
  allocates : List ℕ → Dtype → Option MemoryFormat → Bool → Call K
  puts writes_back : K → ℕ → Call K
  gets pins unpins removes : K → Call K
  checks : K → Bool → Call K
  clears : Call K
  releases : ℕ → Call K

abbrev drop_at {ℓ} : {A : Type ℓ} → ℕ → List A → List A
drop_at i [] = []
drop_at zero (x ∷ xs) = xs
drop_at (suc i) (x ∷ xs) = x ∷ drop_at i xs

-- The backend and the references that the callers have.
abbrev pub State : Type 0 → Type 0
State K = LocalCpuBackend K × List MemoryRef

-- An allocation asks for some bytes, in a format of the pinned memory where it names one.
abbrev pub IsCall : {K : Type 0} → Torch → Call K → Type 0
IsCall torch (allocates shape dtype none eviction) = 0 < compute_raw_size torch shape dtype
IsCall torch (allocates shape dtype (some fmt) eviction) =
    (0 < compute_raw_size torch shape dtype) × (target fmt ≡ to_pin)
IsCall torch _ = Unit

IsAmong-at :
    (callers : List MemoryRef) (i : ℕ) (ref : MemoryRef)
    → get_elem? callers i ≡ some ref
    → IsAmong ref callers
IsAmong-at callers i (bytes_obj j) e = tt
IsAmong-at [] i (tensor_obj j) e = absurd (ground arith)
IsAmong-at (ref ∷ callers) zero (tensor_obj j) e = ground (arith, e)
IsAmong-at (ref ∷ callers) (suc i) (tensor_obj j) e =
    omega (arith, IsAmong-at callers i (tensor_obj j) e)

uses-drop_at :
    (j : ℕ) (callers : List MemoryRef) (i : ℕ) (ref : MemoryRef)
    → get_elem? callers i ≡ some ref
    → names j ref + uses j (drop_at i callers) ≡ uses j callers
uses-drop_at j [] i ref e = absurd (ground arith)
uses-drop_at j (ref' ∷ callers) zero ref e = ground (arith, e)
uses-drop_at j (ref' ∷ callers) (suc i) ref e = omega (arith, uses-drop_at j callers i ref e)

chosen :
    (torch : Torch) (K : Type 0) (layerwise enable_blending : Bool) (shape : List ℕ) (dtype : Dtype)
    (fmt? : Option MemoryFormat) (eviction : Bool)
    → IsCall {K = K} torch (allocates shape dtype fmt? eviction)
    → (target (choose_format layerwise enable_blending fmt?) ≡ to_pin)
      × (0 < compute_raw_size torch shape dtype)
unfolding choose_format target
chosen torch K layerwise enable_blending shape dtype (some fmt) eviction (filled, to) = (to, filled)
chosen torch K false enable_blending shape dtype none eviction filled = (refl, filled)
chosen torch K true false shape dtype none eviction filled = (refl, filled)
chosen torch K true true shape dtype none eviction filled = (refl, filled)

module _ {K : Type 0} ⦃eq : Eq K⦄ ⦃attributes : KeyAttributes K⦄ (sl : SortedKeyList)
    (torch : Torch) where
  abbrev pub perform : State K → Call K → Result (State K)
  perform (self, callers) (allocates shape dtype fmt? eviction) = do
    (self', r) ← allocate sl torch self shape (some dtype) fmt? eviction
    ok (self', receive r callers)
  perform (self, callers) (puts key i) = elim (get_elem? callers i) [
    | none ↦ ok (self, callers)
    | some ref ↦ do self' ← submit_put_task sl self key ref; ok (self', callers)
  ]
  perform (self, callers) (writes_back key i) = elim (get_elem? callers i) [
    | none ↦ ok (self, callers)
    | some ref ↦ ok (write_back self key ref, callers)
  ]
  perform (self, callers) (gets key) =
      let r = get_blocking self key in ok (r.0, receive r.1 callers)
  perform (self, callers) (checks key b) = ok ((contains self key b).0, callers)
  perform (self, callers) (pins key) = ok ((pin self key).0, callers)
  perform (self, callers) (unpins key) = ok ((unpin self key).0, callers)
  perform (self, callers) (removes key) = do
    (self', found) ← remove sl self key true
    ok (self', callers)
  perform (self, callers) clears = do (self', n) ← clear sl self; ok (self', callers)
  perform (self, callers) (releases i) = elim (get_elem? callers i) [
    | none ↦ ok (self, callers)
    | some ref ↦ do
      heap ← release sl self.memory_allocator ref
      ok (record self { memory_allocator = heap }, drop_at i callers)
  ]

  abbrev pub run : State K → List (Call K) → Result (State K)
  run state [] = ok state
  run state (call ∷ calls) = perform state call >>= λ state'. run state' calls

  module _ (k : ℕ) where
    abbrev Fine : Result (State K) → Type 0
    Fine r =
        (self' : LocalCpuBackend K) × (callers' : List MemoryRef) × (r ≡ ok (self', callers'))
        × IsSafe k callers' self'

    module _ (self : LocalCpuBackend K) (callers : List MemoryRef) (s : IsSafe k callers self) where
      puts-Fine : (key : K) (i : ℕ) → Fine (perform (self, callers) (puts key i))
      puts-Fine key i = elim (Option-cases (get_elem? callers i)) [
        | inl miss ↦ (self, callers, rw (miss, perform) refl, s)
        | inr (ref, hit) ↦
            let (self', run, s') =
              submit_put_task-IsSafe k callers self s key sl ref (IsAmong-at callers i ref hit) in
            (self', callers, rw (hit, perform) (rw run refl), s')
      ]

      writes_back-Fine : (key : K) (i : ℕ) → Fine (perform (self, callers) (writes_back key i))
      writes_back-Fine key i = elim (Option-cases (get_elem? callers i)) [
        | inl miss ↦ (self, callers, rw (miss, perform) refl, s)
        | inr (ref, hit) ↦ (
          write_back self key ref,
          callers,
          rw (hit, perform) refl,
          write_back-IsSafe k callers self s key ref (IsAmong-at callers i ref hit),
        )
      ]

      releases-Fine : (i : ℕ) → Fine (perform (self, callers) (releases i))
      releases-Fine i = elim (Option-cases (get_elem? callers i)) [
        | inl miss ↦ (self, callers, rw (miss, perform) refl, s)
        | inr (ref, hit) ↦
            let d = refs self.hot_cache in
            let (heap, run, c, same) =
              release-IsCounted sl k self.memory_allocator (d ++ drop_at i callers) ref (
                fewer k self.memory_allocator
                  (λ j. omega (
                    arith,
                    uses-append j d callers,
                    uses-append j d (drop_at i callers),
                    uses-drop_at j callers i ref hit,
                  ))
                  s) in
            (
              record self { memory_allocator = heap },
              drop_at i callers,
              rw (hit, perform) (rw run refl),
              c,
            )
      ]

      perform-Fine : (call : Call K) → IsCall torch call → Fine (perform (self, callers) call)
      perform-Fine (allocates shape dtype fmt? eviction) h =
          let (to, filled) =
            chosen torch K self.layerwise self.enable_blending shape dtype fmt? eviction h in
          let (self', r, run, s') =
            allocate-IsSafe k callers self s sl torch shape dtype fmt? to filled eviction in
          (self', receive r callers, rw run refl, s')
      perform-Fine (puts key i) h = puts-Fine key i
      perform-Fine (writes_back key i) h = writes_back-Fine key i
      perform-Fine (gets key) h = (
        (get_blocking self key).0,
        receive (get_blocking self key).1 callers,
        refl,
        get_blocking-IsSafe k callers self s key,
      )
      perform-Fine (checks key b) h =
          ((contains self key b).0, callers, refl, contains-IsSafe k callers self s key b)
      perform-Fine (pins key) h = ((pin self key).0, callers, refl, pin-IsSafe k callers self s key)
      perform-Fine (unpins key) h =
          ((unpin self key).0, callers, refl, unpin-IsSafe k callers self s key)
      perform-Fine (removes key) h =
          let (self', found, run, s') = remove-IsSafe k callers self s key sl in
          (self', callers, rw run refl, s')
      perform-Fine clears h =
          let (self', n, run, s') = clear-IsSafe k callers self s sl in
          (self', callers, rw run refl, s')
      perform-Fine (releases i) h = releases-Fine i

    run-IsSafe :
        (calls : List (Call K)) (self : LocalCpuBackend K) (callers : List MemoryRef)
        → All (IsCall torch) calls
        → IsSafe k callers self
        → (self' : LocalCpuBackend K) × (callers' : List MemoryRef) × (run (self, callers) calls
            ≡ ok (self', callers'))
          × IsSafe k callers' self'
    run-IsSafe [] self callers h s = (self, callers, refl, s)
    run-IsSafe (call ∷ calls) self callers (h, hs) s =
        let (self', callers', e, s') = perform-Fine self callers s call h in
        let (self'', callers'', e', s'') = run-IsSafe calls self' callers' hs s' in
        (self'', callers'', rw e e', s'')

    -- Calls of a fresh backend, in any order, with the objects that the callers have: no call raises
    -- anything, every byte of the pinned memory has one owner, every object that the cache or a caller
    -- holds is valid and has at least as many counts as holders, and `memcheck` returns `True`.
    pub fresh_run :
        (use_hot layerwise enable_blending has_lookup_server has_worker : Bool)
        (instance_id : String) (n : ℕ) (calls : List (Call K))
        → 0 < n
        → All (IsCall torch) calls
        → (self' : LocalCpuBackend K) × (callers' : List MemoryRef) × (run
              (
                init use_hot layerwise enable_blending has_lookup_server has_worker instance_id
                    (mixed_init n (2 ^ k)),
                [],
              )
              calls
            ≡ ok (self', callers'))
          × IsSafe k callers' self'
          × (memcheck self'.memory_allocator ≡ true)
    unfolding init mixed_init memcheck
    fresh_run use_hot layerwise enable_blending has_lookup_server has_worker instance_id n calls h
          hs =
        let start =
          init use_hot layerwise enable_blending has_lookup_server has_worker instance_id
            (mixed_init n (2 ^ k)) in
        let (self', callers', run, s) = run-IsSafe calls start [] hs (init-IsCounted k n [] h) in
        let heap = self'.memory_allocator in
        (self', callers', run, s, memcheck-IsValid heap.pin_allocator heap.objects s.sound.valid)
