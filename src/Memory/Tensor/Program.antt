-- ===== src/Memory/Tensor/Program.antt =====
-- What a program over a fresh allocator sees: where its objects lie, and the buffer that it gets back.
use mtds.Prelude.{
  ℕ, ◌^◌, ◌≤◌, ◌<◌, ◌≡◌, ◌≢◌, refl, ap, subst, sym, ◌∙◌, ◌⊎◌, inl, inr, true, false, List, [], ◌∷◌,
  ◌++◌, Option, some, none, get_elem?, All, ok, Bool-cases, arith,
}
use mtds.Prelude.Int.{pos}
use mtds.Memory.Objects.{TensorMemoryObj, MemoryFormat, Dtype, Torch}
use mtds.Memory.SortedList.{SortedKeyList, FreeBlock}
use mtds.Memory.Batch.{block_of}
use mtds.Memory.FreeList.Chain.{stop}
use mtds.Memory.Tensor.{TensorMemoryAllocator, init, compute_raw_size, allocate}
use mtds.Memory.Tensor.Align.{IsRoundedUp}
use mtds.Memory.Tensor.Free.{free-IsValid, free_twice}
use mtds.Memory.Tensor.Allocate.{Allocated, full, fits, allocate-Allocated}
use mtds.Memory.Tensor.Whole.{objects_apart, drained, held_size_nothing, held_count_nothing}
use mtds.Memory.Tensor.Run.{
  Step, allocates, is_full, frees, touches, Reach, here, next, IsSound, init-IsSound, ok_pair,
  Reach-IsSound,
}

Allocated-buffer :
    {raw size : ℕ} {self self' : TensorMemoryAllocator} {objs : List TensorMemoryObj}
    {r : Option TensorMemoryObj}
    → Allocated raw size self objs self' r
    → self'.buffer_size ≡ self.buffer_size
Allocated-buffer (full h) = refl
Allocated-buffer (fits b f raw_data lies valid same v) = same.0

init_size : (n align : ℕ) → (init n align).buffer_size ≡ n
unfolding init
init_size n align = refl

only_block : (b c : FreeBlock) (before rest : List FreeBlock) → c ∷ [] ≡ before ++ b ∷ rest → b ≡ c
only_block b c [] rest e = cc
only_block b c (d ∷ []) rest e = absurd (grind (arith, e))
only_block b c (d ∷ d' ∷ before) rest e = absurd (grind (arith, e))

-- An allocation from a free list of one block.
Allocated-whole :
    (sl : SortedKeyList) (torch : Torch) (shape : List ℕ) (dtype : Dtype) (fmt : MemoryFormat)
    (parent : Option ℕ) (n : ℕ) {raw size : ℕ} {self self' : TensorMemoryAllocator}
    {objs : List TensorMemoryObj} {r : Option TensorMemoryObj}
    → self.explicit_list ≡ record { start = 0; size = n } ∷ []
    → allocate sl torch self shape (some dtype) fmt parent ≡ ok (self', r)
    → Allocated raw size self objs self' r
    → ((allocate sl torch self shape (some dtype) fmt parent ≡ ok (self, none)) × (n < size))
      ⊎ ((self'' : TensorMemoryAllocator) × (o : TensorMemoryObj) × (allocate sl torch self shape
              (some dtype)
              fmt
              parent
            ≡ ok (self'', some o))
          × (block_of o ≡ record { start = 0; size = size }))
Allocated-whole sl torch shape dtype fmt parent n {size = size} whole run (full h) =
    inl (run, (subst (All (λ b. b.size < size)) whole h).0)
Allocated-whole sl torch shape dtype fmt parent n {size = size} {self' = self'} whole run
      (fits {o = o} b f raw_data lies valid same v) =
    let at_front =
      only_block b (record { start = 0; size = n }) f.before f.rest (sym whole ∙ f.parts) in
    inr (self', o, run, lies ∙ ap (λ c. record { start = c.start; size = size }) at_front)

module _ (sl : SortedKeyList) (torch : Torch) (k : ℕ) where
  Step-buffer :
      {self self' : TensorMemoryAllocator} {objs objs' : List TensorMemoryObj}
      → Step sl torch self objs self' objs'
      → IsSound k self objs
      → self'.buffer_size ≡ self.buffer_size
  Step-buffer (allocates {self = self} {objs = objs} o shape dtype fmt parent h e) s =
      let (size, rounded, self'', r, run, out) =
        allocate-Allocated sl torch self objs s.valid shape dtype fmt parent k s.power h in
      ap (λ x. x.buffer_size) (sym (ok_pair (sym run ∙ e)).0) ∙ Allocated-buffer out
  Step-buffer (is_full {self = self} {objs = objs} shape dtype fmt parent h e) s =
      let (size, rounded, self'', r, run, out) =
        allocate-Allocated sl torch self objs s.valid shape dtype fmt parent k s.power h in
      ap (λ x. x.buffer_size) (sym (ok_pair (sym run ∙ e)).0) ∙ Allocated-buffer out
  Step-buffer (frees {self = self} {objs = objs} i o o' at_i e) s = elim (Bool-cases o.valid) [
    | inl valid ↦
        let (self'', run, v, buffer, align) = free-IsValid sl self objs s.valid i o at_i valid in
        ap (λ x. x.buffer_size) (sym (ok_pair (sym run ∙ e)).0) ∙ buffer
    | inr gone ↦ ap (λ x. x.buffer_size) (sym (ok_pair (sym (free_twice sl self o gone) ∙ e)).0)
  ]
  Step-buffer (touches t i o at_i) s = refl

  Reach-buffer :
      {start self : TensorMemoryAllocator} {objs : List TensorMemoryObj}
      → IsSound k start []
      → Reach sl torch start self objs
      → self.buffer_size ≡ start.buffer_size
  Reach-buffer s here = refl
  Reach-buffer s (next r st) = Step-buffer st (Reach-IsSound sl torch k s r) ∙ Reach-buffer s r

  -- After any sequence of allocations of one or more bytes, frees, pins and reference counts on a fresh
  -- allocator whose alignment is a power of two, two valid objects at different places of the store lie
  -- one behind the other in the buffer.
  pub reachable_apart :
      (n : ℕ) {self : TensorMemoryAllocator} {objs : List TensorMemoryObj}
      → 0 < n
      → Reach sl torch (init n (2 ^ k)) self objs
      → (i j : ℕ) (o p : TensorMemoryObj) → get_elem? objs i ≡ some o
      → get_elem? objs j ≡ some p
      → i ≢ j
      → o.valid ≡ true
      → p.valid ≡ true
      → (stop (block_of p) ≤ o.meta.address) ⊎ (stop (block_of o) ≤ p.meta.address)
  reachable_apart n {self} {objs} h r =
      objects_apart self objs (Reach-IsSound sl torch k (init-IsSound k n h) r).valid

  -- After any sequence of allocations of one or more bytes, frees, pins and reference counts on a fresh
  -- allocator of `n` bytes whose alignment is a power of two: where no object is valid any more, the
  -- free list is the whole buffer in one block and the counters are 0; and the next allocation of one
  -- or more bytes gets the first bytes of the buffer, unless the size that it is rounded up to is above
  -- `n`, where it gets None.
  pub reachable_drained :
      (n : ℕ) {self : TensorMemoryAllocator} {objs : List TensorMemoryObj} (shape : List ℕ)
      (dtype : Dtype) (fmt : MemoryFormat) (parent : Option ℕ)
      → 0 < n
      → Reach sl torch (init n (2 ^ k)) self objs
      → All (λ o. o.valid ≡ false) objs
      → 0 < compute_raw_size torch shape dtype
      → (self.explicit_list ≡ record { start = 0; size = n } ∷ [])
        × (self.total_allocated_size ≡ pos 0)
        × (self.num_active_allocations ≡ 0)
        × (size : ℕ) × IsRoundedUp (compute_raw_size torch shape dtype) (2 ^ k) size
        × (((allocate sl torch self shape (some dtype) fmt parent ≡ ok (self, none)) × (n < size))
            ⊎ ((self' : TensorMemoryAllocator) × (o : TensorMemoryObj) × (allocate sl torch self
                    shape
                    (some dtype)
                    fmt
                    parent
                  ≡ ok (self', some o))
                × (block_of o ≡ record { start = 0; size = size })))
  reachable_drained n {self} {objs} shape dtype fmt parent h r freed filled =
      let first = init-IsSound k n h in
      let s = Reach-IsSound sl torch k first r in
      let same : self.buffer_size ≡ n = Reach-buffer first r ∙ init_size n (2 ^ k) in
      let whole : self.explicit_list ≡ record { start = 0; size = n } ∷ [] =
        drained self objs s.valid freed (omega (arith, same, h))
        ∙ ap (λ m. record { start = 0; size = m } ∷ []) same in
      let (size, rounded, self', r', run, out) =
        allocate-Allocated sl torch self objs s.valid shape dtype fmt parent k s.power filled in
      (
        whole,
        s.valid.total ∙ ap pos (held_size_nothing objs freed),
        s.valid.active ∙ held_count_nothing objs freed,
        size,
        rounded,
        Allocated-whole sl torch shape dtype fmt parent n whole run out,
      )
