-- ===== src/Memory/Tensor/Whole.antt =====
-- What the ownership of the bytes says of the objects and of the free list.
use mtds.Prelude.{
  ℕ, zero, suc, ◌+◌, ◌≤◌, ◌<◌, ◌≡◌, ◌≢◌, refl, ◌⊎◌, true, false, List, [], ◌∷◌, some, arith,
  get_elem?, All, ap,
}
use mtds.Memory.Objects.{TensorMemoryObj}
use mtds.Memory.SortedList.{FreeBlock}
use mtds.Memory.Batch.{block_of}
use mtds.Memory.FreeList.Chain.{stop, Chain, inside, cover, cover_before, Chain-bounds}
use mtds.Memory.FreeList.Place.{disjoint_order}
use mtds.Memory.Tensor.{TensorMemoryAllocator}
use mtds.Memory.Tensor.Owned.{held, held_size, held_count, IsValid, IsFilled-get}

held_one :
    (a : ℕ) (objs : List TensorMemoryObj) (i : ℕ) (o : TensorMemoryObj)
    → get_elem? objs i ≡ some o
    → o.valid ≡ true
    → inside a (block_of o) ≤ held a objs
unfolding held
held_one a [] i o e v = absurd (ground arith)
held_one a (p ∷ ps) zero o e v = ground arith
held_one a (p ∷ ps) (suc i) o e v = omega (arith, held_one a ps i o e v)

held_two :
    (a : ℕ) (objs : List TensorMemoryObj) (i j : ℕ) (o p : TensorMemoryObj)
    → get_elem? objs i ≡ some o
    → get_elem? objs j ≡ some p
    → i ≢ j
    → o.valid ≡ true
    → p.valid ≡ true
    → inside a (block_of o) + inside a (block_of p) ≤ held a objs
unfolding held
held_two a [] i j o p ei ej ne vo vp = absurd (ground arith)
held_two a (q ∷ qs) zero zero o p ei ej ne vo vp = absurd (ne refl)
held_two a (q ∷ qs) zero (suc j) o p ei ej ne vo vp = ground (arith, held_one a qs j p ej vp)
held_two a (q ∷ qs) (suc i) zero o p ei ej ne vo vp = ground (arith, held_one a qs i o ei vo)
held_two a (q ∷ qs) (suc i) (suc j) o p ei ej ne vo vp =
    omega (arith, held_two a qs i j o p ei ej (λ e. ne (ap suc e)) vo vp)

module _ (self : TensorMemoryAllocator) (objs : List TensorMemoryObj) (v : IsValid self objs) where
  -- Two valid objects of the store lie one behind the other in the buffer.
  pub objects_apart :
      (i j : ℕ) (o p : TensorMemoryObj)
      → get_elem? objs i ≡ some o
      → get_elem? objs j ≡ some p
      → i ≢ j
      → o.valid ≡ true
      → p.valid ≡ true
      → (stop (block_of p) ≤ o.meta.address) ⊎ (stop (block_of o) ≤ p.meta.address)
  objects_apart i j o p ei ej ne vo vp =
      let both = λ (a : ℕ). held_two a objs i j o p ei ej ne vo vp in
      disjoint_order (block_of o) (block_of p) (IsFilled-get o objs i ei v.filled)
        (IsFilled-get p objs j ej v.filled)
        (ground (arith, both o.meta.address, v.owned o.meta.address))
        (ground (arith, both p.meta.address, v.owned p.meta.address))

held_nothing :
    (a : ℕ) (objs : List TensorMemoryObj) → All (λ o. o.valid ≡ false) objs → held a objs ≡ 0
unfolding held
held_nothing a [] h = refl
held_nothing a (o ∷ os) h = ground (arith, held_nothing a os h.1)

one_block :
    (l : List FreeBlock) (n : ℕ)
    → Chain 0 l n
    → 0 < n
    → ((a : ℕ) → a < n → cover a l ≡ 1)
    → l ≡ record { start = 0; size = n } ∷ []
unfolding cover
one_block [] n c h all = absurd (omega (arith, all 0 h))
one_block (b ∷ []) n c h all = ground (arith, all 0, all (stop b))
one_block (b ∷ d ∷ ds) n c h all = absurd (
    ground (
      arith,
      all 0,
      all (stop b),
      cover_before (stop b) ds (suc (stop d)) n c.2.2 (omega arith),
      Chain-bounds ds (suc (stop d)) n c.2.2,
    ))

-- Once every object is freed, the free list is the whole buffer in one block.
pub drained :
    (self : TensorMemoryAllocator) (objs : List TensorMemoryObj)
    → IsValid self objs
    → All (λ o. o.valid ≡ false) objs
    → 0 < self.buffer_size
    → self.explicit_list ≡ record { start = 0; size = self.buffer_size } ∷ []
drained self objs v freed h =
    one_block self.explicit_list self.buffer_size v.chain h
      (λ a lt. ground (arith, v.owned a, held_nothing a objs freed))

pub held_size_nothing :
    (objs : List TensorMemoryObj) → All (λ o. o.valid ≡ false) objs → held_size objs ≡ 0
unfolding held_size
held_size_nothing [] h = refl
held_size_nothing (o ∷ os) h = ground (arith, held_size_nothing os h.1)

pub held_count_nothing :
    (objs : List TensorMemoryObj) → All (λ o. o.valid ≡ false) objs → held_count objs ≡ 0
unfolding held_count
held_count_nothing [] h = refl
held_count_nothing (o ∷ os) h = ground (arith, held_count_nothing os h.1)
