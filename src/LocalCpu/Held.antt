-- ===== src/LocalCpu/Held.antt =====
-- What the cache and the callers hold while keys are evicted: those of `keys` have given up their
-- objects already, though their entries are still in the cache.
use mtds.Prelude.{
  ℕ, ◌+◌, ◌<◌, ◌≤◌, ◌≡◌, refl, ◌∙◌, ap, false, some, none, List, [], ◌∷◌, ◌++◌, arith, Option-cases,
  Bool-cases, inl, inr, subst, length, ok, get_elem?-bound,
}
use mtds.Prelude.Int.{pos, ltb_ℤ}
use mtds.Dict.{Eq, Dict, get, delete, get-delete, beq_refl}
use mtds.Memory.SortedList.{SortedKeyList}
use mtds.Memory.Mixed.{
  MixedMemoryAllocator, MemoryRef, tensor_obj, bytes_obj, release, get_ref_count,
}
use mtds.Memory.Mixed.Counted.{uses, names, uses-append, IsCounted}
use mtds.Memory.Mixed.Counting.{fewer, release_unheld}
use mtds.LocalCpu.Deletes.{
  refs, uses-delete, uses-delete_hit, deletes, deletes-last, get-deletes, get-deletes_gone,
  delete-miss,
}

module _ {K : Type 0} ⦃eq : Eq K⦄ where
  -- Who holds objects once the entries of `keys` are gone.
  abbrev pub stay : List K → Dict K MemoryRef → List MemoryRef → List MemoryRef
  stay keys cache callers = refs (deletes keys cache) ++ callers

  pub record IsEvicting (k : ℕ) (cache : Dict K MemoryRef) (heap : MixedMemoryAllocator)
      (keys : List K) (callers : List MemoryRef) : Type 0 where
    pub counted : IsCounted k heap (stay keys cache callers)
    pub gone :
        (key : K) (i : ℕ)
        → get key cache ≡ some (tensor_obj i)
        → get key (deletes keys cache) ≡ none
        → (uses i (stay keys cache callers) ≡ 0) × (i < length heap.objects)

  pub start-IsEvicting :
      (k : ℕ) (cache : Dict K MemoryRef) (heap : MixedMemoryAllocator) (callers : List MemoryRef)
      → IsCounted k heap (refs cache ++ callers)
      → IsEvicting k cache heap [] callers
  start-IsEvicting k cache heap callers c = record {
    counted = c;
    gone = λ key i hit miss. absurd (ground (arith, hit, miss));
  }

  module _ (keys : List K) (cache : Dict K MemoryRef) (callers : List MemoryRef) (key : K) where
    stay-last :
        (i : ℕ) → uses i (stay (keys ++ key ∷ []) cache callers) ≤ uses i (stay keys cache callers)
    stay-last i = ground (
      arith,
      deletes-last keys key cache,
      uses-append i (refs (delete key (deletes keys cache))) callers,
      uses-append i (refs (deletes keys cache)) callers,
      uses-delete i key (deletes keys cache),
    )

    stay-last_hit :
        (i : ℕ) (ref : MemoryRef)
        → get key (deletes keys cache) ≡ some ref
        → names i ref + uses i (stay (keys ++ key ∷ []) cache callers)
          ≤ uses i (stay keys cache callers)
    stay-last_hit i ref hit = ground (
      arith,
      deletes-last keys key cache,
      uses-append i (refs (delete key (deletes keys cache))) callers,
      uses-append i (refs (deletes keys cache)) callers,
      uses-delete_hit i key ref (deletes keys cache) hit,
    )

  module _ (sl : SortedKeyList) (k : ℕ) (cache : Dict K MemoryRef) (heap : MixedMemoryAllocator)
      (keys : List K) (callers : List MemoryRef) (v : IsEvicting k cache heap keys callers)
      (key : K) where
    -- The object of a key whose count is 1 at most has no other holder.
    alone :
        (i : ℕ)
        → get key cache ≡ some (tensor_obj i)
        → ltb_ℤ (pos 1) (get_ref_count heap (tensor_obj i)) ≡ false
        → (uses i (stay (keys ++ key ∷ []) cache callers) ≡ 0) × (i < length heap.objects)
    unfolding get_ref_count
    alone i hit low = elim (Option-cases (get key (deletes keys cache))) [
      | inl miss ↦
          let (unheld, bound) = v.gone key i hit miss in
          (omega (arith, stay-last keys cache callers key i), bound)
      | inr (ref, still) ↦
          let same : ref ≡ tensor_obj i =
            ground (arith, get-deletes keys key ref cache still, hit) in
          let here : get key (deletes keys cache) ≡ some (tensor_obj i) = still ∙ ap some same in
          let less = stay-last_hit keys cache callers key i (tensor_obj i) here in
          let (o, n, at_i, valid, count, enough) = v.counted.counted i (ground (arith, less)) in
          (ground (arith, low, at_i, count, enough, less), get_elem?-bound heap.objects i o at_i)
    ]

    gone-last :
        ((i : ℕ)
          → get key cache ≡ some (tensor_obj i)
          → (uses i (stay (keys ++ key ∷ []) cache callers) ≡ 0) × (i < length heap.objects))
        → (key' : K) (i : ℕ) → get key' cache ≡ some (tensor_obj i)
        → get key' (deletes (keys ++ key ∷ []) cache) ≡ none
        → (uses i (stay (keys ++ key ∷ []) cache callers) ≡ 0) × (i < length heap.objects)
    gone-last dead key' i hit miss = elim (Bool-cases (eq.beq key key')) [
      | inl e ↦
          let same : key ≡ key' = (eq.beq_iff key key').0 e in
          dead i (ap (λ x. get x cache) same ∙ hit)
      | inr e ↦
          let before : get key' (deletes keys cache) ≡ none = ground (
            arith,
            e,
            deletes-last keys key cache,
            get-delete key key' (deletes keys cache),
            miss,
          ) in
          let (unheld, bound) = v.gone key' i hit before in
          (omega (arith, stay-last keys cache callers key i), bound)
    ]

    -- The next key is evicted.
    pub evict-IsEvicting :
        (ref : MemoryRef)
        → get key cache ≡ some ref
        → ltb_ℤ (pos 1) (get_ref_count heap ref) ≡ false
        → (heap' : MixedMemoryAllocator) × (release sl heap ref ≡ ok heap')
          × IsEvicting k cache heap' (keys ++ key ∷ []) callers
          × (length heap'.objects ≡ length heap.objects)
    unfolding release
    evict-IsEvicting (bytes_obj j) hit low = (
      heap,
      refl,
      record {
        counted = fewer k heap (stay-last keys cache callers key) v.counted;
        gone = gone-last (λ i e. absurd (ground (arith, hit, e)));
      },
      refl,
    )
    evict-IsEvicting (tensor_obj j) hit low =
        let (unheld, bound) = alone j hit low in
        let (heap', run, c, same) =
          release_unheld sl k heap (stay (keys ++ key ∷ []) cache callers) j unheld
            (fewer k heap (stay-last keys cache callers key) v.counted) in
        (
          heap',
          run,
          record {
            counted = c;
            gone = λ key' i hit' miss.
                let (unheld', bound') =
                  gone-last
                    (λ i e.
                      let i_same : i ≡ j = ground (arith, hit, e) in
                      (
                        ap (λ x. uses x (stay (keys ++ key ∷ []) cache callers)) i_same ∙ unheld,
                        omega (arith, bound, i_same),
                      ))
                    key' i hit' miss in
                (unheld', omega (arith, bound', same));
          },
          same,
        )

  -- The entry of an evicted key leaves the cache.
  module _ (k : ℕ) (cache : Dict K MemoryRef) (heap : MixedMemoryAllocator) (key : K)
      (keys : List K) (callers : List MemoryRef)
      (v : IsEvicting k cache heap (key ∷ keys) callers) where
    pub absent-IsEvicting : get key cache ≡ none → IsEvicting k cache heap keys callers
    absent-IsEvicting miss =
        let same = delete-miss key cache miss in
        record {
          counted = subst (λ d. IsCounted k heap (refs (deletes keys d) ++ callers)) same v.counted;
          gone =
              subst
                (λ d.
                  (key' : K) (i : ℕ)
                  → get key' cache ≡ some (tensor_obj i)
                  → get key' (deletes keys d) ≡ none
                  → (uses i (refs (deletes keys d) ++ callers) ≡ 0) × (i < length heap.objects))
                same v.gone;
        }

    deleted-IsEvicting :
        (heap' : MixedMemoryAllocator)
        → IsCounted k heap' (stay keys (delete key cache) callers)
        → length heap'.objects ≡ length heap.objects
        → IsEvicting k (delete key cache) heap' keys callers
    deleted-IsEvicting heap' c same = record {
      counted = c;
      gone = λ key' i hit miss.
          let before : get key' cache ≡ some (tensor_obj i) =
            ground (arith, get-delete key key' cache, hit) in
          let (unheld, bound) = v.gone key' i before miss in (unheld, omega (arith, bound, same));
    }

    -- Its object is released once more, and that changes nothing.
    pub delete-IsEvicting :
        (sl : SortedKeyList) (ref : MemoryRef)
        → get key cache ≡ some ref
        → (heap' : MixedMemoryAllocator) × (release sl heap ref ≡ ok heap')
          × IsEvicting k (delete key cache) heap' keys callers
    unfolding release
    delete-IsEvicting sl (bytes_obj j) hit = (heap, refl, deleted-IsEvicting heap v.counted refl)
    delete-IsEvicting sl (tensor_obj j) hit =
        let deleted : get key (delete key cache) ≡ none =
          ground (arith, get-delete key key cache, beq_refl key) in
        let (unheld, bound) =
          v.gone key j hit (get-deletes_gone keys key (delete key cache) deleted) in
        let (heap', run, c, same) =
          release_unheld sl k heap (stay keys (delete key cache) callers) j unheld v.counted in
        (heap', run, deleted-IsEvicting heap' c same)
