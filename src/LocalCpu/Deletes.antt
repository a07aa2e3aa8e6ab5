-- ===== src/LocalCpu/Deletes.antt =====
-- The objects that the hot cache holds, when its entries come and go.
use mtds.Prelude.{
  ℕ, ◌+◌, ◌≤◌, ◌≡◌, refl, some, none, List, [], ◌∷◌, ◌++◌, arith, Option-cases, Bool-cases, inl,
  inr,
}
use mtds.Dict.{Eq, Dict, get, assign, delete, move_to_end, get-delete}
use mtds.Memory.Mixed.{MemoryRef, tensor_obj, bytes_obj}
use mtds.Memory.Mixed.Counted.{uses, names, uses-append}
use mtds.Memory.Mixed.Counting.{IsAmong}

-- The values of the cache.
abbrev pub refs {κ} : {K : Type κ} → Dict K MemoryRef → List MemoryRef
refs [] = []
refs ((k, ref) ∷ d) = ref ∷ refs d

pub refs-append {κ} :
    {K : Type κ} (i : ℕ) (d e : Dict K MemoryRef)
    → uses i (refs (d ++ e)) ≡ uses i (refs d) + uses i (refs e)
refs-append i [] e = omega arith
refs-append i ((k, ref) ∷ d) e = omega (arith, refs-append i d e)

module _ {K : Type 0} ⦃eq : Eq K⦄ (i : ℕ) where
  pub uses-delete : (k : K) (d : Dict K MemoryRef) → uses i (refs (delete k d)) ≤ uses i (refs d)
  unfolding delete
  uses-delete k [] = omega arith
  uses-delete k ((j, ref) ∷ d) = ground (arith, uses-delete k d)

  -- The deleted entry no longer counts.
  pub uses-delete_hit :
      (k : K) (ref : MemoryRef) (d : Dict K MemoryRef)
      → get k d ≡ some ref
      → names i ref + uses i (refs (delete k d)) ≤ uses i (refs d)
  unfolding delete get
  uses-delete_hit k ref [] e = absurd (ground arith)
  uses-delete_hit k ref ((j, ref') ∷ d) e = elim (Bool-cases (eq.beq j k)) [
    | inl same ↦ ground (arith, same, e, uses-delete k d)
    | inr other ↦ ground (arith, other, e, uses-delete_hit k ref d (ground (arith, other, e)))
  ]

  pub uses-assign :
      (k : K) (ref : MemoryRef) (d : Dict K MemoryRef)
      → uses i (refs (assign k ref d)) ≤ names i ref + uses i (refs d)
  unfolding assign
  uses-assign k ref [] = omega arith
  uses-assign k ref ((j, ref') ∷ d) = ground (arith, uses-assign k ref d)

  pub uses-move_to_end :
      (k : K) (d : Dict K MemoryRef) → uses i (refs (move_to_end k d)) ≤ uses i (refs d)
  unfolding move_to_end
  uses-move_to_end k d = elim (Option-cases (get k d)) [
    | inl miss ↦ ground (arith, miss)
    | inr (ref, hit) ↦
        ground (arith, hit, uses-delete_hit k ref d hit, refs-append i (delete k d) ((k, ref) ∷ []))
  ]

-- What the cache holds is held.
pub among :
    {K : Type 0} ⦃eq : Eq K⦄ (k : K) (ref : MemoryRef) (d : Dict K MemoryRef)
    (callers : List MemoryRef)
    → get k d ≡ some ref
    → IsAmong ref (refs d ++ callers)
among k (bytes_obj j) d callers e = tt
among k (tensor_obj i) d callers e =
    ground (arith, uses-delete_hit i k (tensor_obj i) d e, uses-append i (refs d) callers)

module _ {K : Type 0} ⦃eq : Eq K⦄ where
  -- The entries that are left when those of `keys` go, one after the other.
  abbrev pub deletes : List K → Dict K MemoryRef → Dict K MemoryRef
  deletes [] d = d
  deletes (k ∷ keys) d = deletes keys (delete k d)

  pub deletes-last :
      (keys : List K) (k : K) (d : Dict K MemoryRef)
      → deletes (keys ++ k ∷ []) d ≡ delete k (deletes keys d)
  deletes-last [] k d = refl
  deletes-last (j ∷ keys) k d = deletes-last keys k (delete j d)

  -- What is left was there.
  pub get-deletes :
      (keys : List K) (k : K) (ref : MemoryRef) (d : Dict K MemoryRef)
      → get k (deletes keys d) ≡ some ref
      → get k d ≡ some ref
  get-deletes [] k ref d e = e
  get-deletes (j ∷ keys) k ref d e =
      ground (arith, get-deletes keys k ref (delete j d) e, get-delete j k d)

  pub get-deletes_gone :
      (keys : List K) (k : K) (d : Dict K MemoryRef)
      → get k d ≡ none
      → get k (deletes keys d) ≡ none
  get-deletes_gone [] k d e = e
  get-deletes_gone (j ∷ keys) k d e =
      get-deletes_gone keys k (delete j d) (ground (arith, e, get-delete j k d))

  pub delete-miss : (k : K) (d : Dict K MemoryRef) → get k d ≡ none → delete k d ≡ d
  unfolding get delete
  delete-miss k [] e = refl
  delete-miss k ((j, ref) ∷ d) e = ground (arith, e, delete-miss k d)
