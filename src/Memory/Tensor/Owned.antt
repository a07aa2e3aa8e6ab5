-- ===== src/Memory/Tensor/Owned.antt =====
-- Who owns the bytes of the buffer: the free list and the valid objects of the store, and what the
-- debug counters say of it.
use mtds.Prelude.{
  ℕ, zero, suc, ◌+◌, ◌<◌, ◌≡◌, true, List, [], ◌∷◌, some, ltb, if◌then◌else◌, arith, get_elem?, set,
  All,
}
use mtds.Prelude.Int.{pos}
use mtds.Memory.Objects.{TensorMemoryObj, invalidate}
use mtds.Memory.Batch.{block_of, total_size}
use mtds.Memory.FreeList.Chain.{Chain, inside, cover}
use mtds.Memory.Tensor.{TensorMemoryAllocator}

-- How many of the valid objects hold the byte `a`.
unfoldable pub held : ℕ → List TensorMemoryObj → ℕ
held a [] = 0
held a (o ∷ os) = (if o.valid then inside a (block_of o) else 0) + held a os

unfoldable pub held_size : List TensorMemoryObj → ℕ
held_size [] = 0
held_size (o ∷ os) = (if o.valid then o.meta.phy_size else 0) + held_size os

unfoldable pub held_count : List TensorMemoryObj → ℕ
held_count [] = 0
held_count (o ∷ os) = (if o.valid then 1 else 0) + held_count os

abbrev pub IsFilled : TensorMemoryObj → Type 0
IsFilled o = 0 < o.meta.phy_size

-- Every byte of the buffer has exactly one owner, the free list is in order and joined up, and the
-- counters agree with the valid objects.
pub record IsValid (self : TensorMemoryAllocator) (objs : List TensorMemoryObj) : Type 0 where
  pub chain : Chain 0 self.explicit_list self.buffer_size
  pub owned :
      (a : ℕ) → cover a self.explicit_list + held a objs ≡ (if ltb a self.buffer_size then 1 else 0)
  pub sizes : total_size self.explicit_list + held_size objs ≡ self.buffer_size
  pub total : self.total_allocated_size ≡ pos (held_size objs)
  pub active : self.num_active_allocations ≡ held_count objs
  pub told : self.stats_usage ≡ self.total_allocated_size
  pub filled : All IsFilled objs

module _ (o : TensorMemoryObj) where
  pub held-invalidate :
      (a : ℕ) (objs : List TensorMemoryObj) (i : ℕ)
      → get_elem? objs i ≡ some o
      → o.valid ≡ true
      → held a (set objs i (invalidate o)) + inside a (block_of o) ≡ held a objs
  unfolding held invalidate
  held-invalidate a [] i e v = absurd (ground arith)
  held-invalidate a (p ∷ ps) zero e v = ground arith
  held-invalidate a (p ∷ ps) (suc i) e v = omega (arith, held-invalidate a ps i e v)

  pub held_size-invalidate :
      (objs : List TensorMemoryObj) (i : ℕ)
      → get_elem? objs i ≡ some o
      → o.valid ≡ true
      → held_size (set objs i (invalidate o)) + o.meta.phy_size ≡ held_size objs
  unfolding held_size invalidate
  held_size-invalidate [] i e v = absurd (ground arith)
  held_size-invalidate (p ∷ ps) zero e v = ground arith
  held_size-invalidate (p ∷ ps) (suc i) e v = omega (arith, held_size-invalidate ps i e v)

  pub held_count-invalidate :
      (objs : List TensorMemoryObj) (i : ℕ)
      → get_elem? objs i ≡ some o
      → o.valid ≡ true
      → held_count (set objs i (invalidate o)) + 1 ≡ held_count objs
  unfolding held_count invalidate
  held_count-invalidate [] i e v = absurd (ground arith)
  held_count-invalidate (p ∷ ps) zero e v = ground arith
  held_count-invalidate (p ∷ ps) (suc i) e v = omega (arith, held_count-invalidate ps i e v)

  pub IsFilled-get :
      (objs : List TensorMemoryObj) (i : ℕ)
      → get_elem? objs i ≡ some o
      → All IsFilled objs
      → IsFilled o
  IsFilled-get [] i e f = absurd (ground arith)
  IsFilled-get (p ∷ ps) zero e f = ground arith
  IsFilled-get (p ∷ ps) (suc i) e f = IsFilled-get ps i e f.1

  pub IsFilled-invalidate :
      (objs : List TensorMemoryObj) (i : ℕ)
      → get_elem? objs i ≡ some o
      → All IsFilled objs
      → All IsFilled (set objs i (invalidate o))
  unfolding invalidate
  IsFilled-invalidate [] i e f = tt
  IsFilled-invalidate (p ∷ ps) zero e f = (ground arith, f.1)
  IsFilled-invalidate (p ∷ ps) (suc i) e f = (f.0, IsFilled-invalidate ps i e f.1)
