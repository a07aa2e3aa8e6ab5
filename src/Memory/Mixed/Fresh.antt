-- ===== src/Memory/Mixed/Fresh.antt =====
-- An allocation of pinned memory: a new object that the caller alone holds.
use mtds.Prelude.{
  ℕ, suc, ◌^◌, ◌<◌, ◌≡◌, refl, ◌∙◌, subst, true, Bool-cases, Option, some, none, List, [], ◌∷◌,
  ◌++◌, ◌==◌, inl, inr, arith, get_elem?, length, length-append, get_elem?-append, get_elem?-before,
  get_elem?-bound, All-append, ok, Option-cases, Result-cases, ap,
}
use mtds.Prelude.Int.{pos}
use mtds.Memory.Objects.{TensorMemoryObj, MemoryFormat, Dtype, Torch}
use mtds.Memory.SortedList.{SortedKeyList}
use mtds.Memory.FreeList.{first_fit, carve}
use mtds.Memory.Tensor.{
  TensorMemoryAllocator, compute_raw_size, aligned, allocate as tensor_allocate,
}
use mtds.Memory.Tensor.Owned.{held, held_size, held_count, IsFilled}
use mtds.Memory.Tensor.Allocate.{Allocated, full, fits, allocate-Allocated}
use mtds.Memory.Tensor.Run.{IsSound, init-IsSound, Allocated-IsSound}
use mtds.Memory.Mixed.{
  MixedMemoryAllocator, BytesBufferMemoryObj, init, MemoryRef, tensor_obj, target, to_pin, itself,
  allocate,
}
use mtds.Memory.Mixed.Counted.{uses, IsKv, IsCounted}

-- The new object at the other end of the store.
held-last :
    (a : ℕ) (objs : List TensorMemoryObj) (o : TensorMemoryObj)
    → held a (objs ++ o ∷ []) ≡ held a (o ∷ objs)
unfolding held
held-last a [] o = refl
held-last a (p ∷ ps) o = omega (arith, held-last a ps o)

held_size-last :
    (objs : List TensorMemoryObj) (o : TensorMemoryObj)
    → held_size (objs ++ o ∷ []) ≡ held_size (o ∷ objs)
unfolding held_size
held_size-last [] o = refl
held_size-last (p ∷ ps) o = omega (arith, held_size-last ps o)

held_count-last :
    (objs : List TensorMemoryObj) (o : TensorMemoryObj)
    → held_count (objs ++ o ∷ []) ≡ held_count (o ∷ objs)
unfolding held_count
held_count-last [] o = refl
held_count-last (p ∷ ps) o = omega (arith, held_count-last ps o)

last-IsSound :
    (k : ℕ) (self : TensorMemoryAllocator) (objs : List TensorMemoryObj) (o : TensorMemoryObj)
    → IsSound k self (o ∷ objs)
    → IsSound k self (objs ++ o ∷ [])
last-IsSound k self objs o s = record {
  valid = record {
    chain = s.valid.chain;
    owned = λ a. rw (held-last a objs o) (s.valid.owned a);
    sizes = rw (held_size-last objs o) s.valid.sizes;
    total = rw (held_size-last objs o) s.valid.total;
    active = rw (held_count-last objs o) s.valid.active;
    told = s.valid.told;
    filled = All-append IsFilled objs (o ∷ []) s.valid.filled.1 (s.valid.filled.0, tt);
  };
  power = s.power;
}

-- What the call writes into the new object.
allocate-new :
    (sl : SortedKeyList) (torch : Torch) (self self' : TensorMemoryAllocator) (shape : List ℕ)
    (dtype : Dtype) (fmt : MemoryFormat) (parent : Option ℕ) (o : TensorMemoryObj)
    → tensor_allocate sl torch self shape (some dtype) fmt parent ≡ ok (self', some o)
    → (o.meta.fmt ≡ fmt) × (o.meta.ref_count ≡ pos 1)
unfolding tensor_allocate
allocate-new sl torch self self' shape dtype fmt parent o e =
    elim (Result-cases (aligned (compute_raw_size torch shape dtype) self.align_bytes)) [
      | inr (error, unaligned) ↦ absurd (ground (arith, e, unaligned))
      | inl (size, rounded) ↦ elim (Option-cases (first_fit size self.explicit_list)) [
        | inl miss ↦ absurd (ground (arith, e, rounded, miss))
        | inr (b, hit) ↦ elim (Result-cases (carve sl size b self.explicit_list)) [
          | inr (error, uncut) ↦ absurd (ground (arith, e, rounded, hit, uncut))
          | inl (rest, cut) ↦ ground (arith, e, rounded, hit, cut)
        ]
      ]
    ]

module _ {raw size : ℕ} {self : TensorMemoryAllocator} {objs : List TensorMemoryObj} where
  Allocated-valid :
      {self' : TensorMemoryAllocator} {r : Option TensorMemoryObj}
      → Allocated raw size self objs self' r
      → (o : TensorMemoryObj) → r ≡ some o
      → o.valid ≡ true
  Allocated-valid (full h) o e = absurd (ground arith)
  Allocated-valid (fits {o = o'} b f raw_data lies valid same v) o e = ground (arith, e, valid)

  Allocated-full :
      {self' : TensorMemoryAllocator} {r : Option TensorMemoryObj}
      → Allocated raw size self objs self' r
      → r ≡ none
      → self' ≡ self
  Allocated-full (full h) e = refl
  Allocated-full (fits b f raw_data lies valid same v) e = absurd (ground arith)

-- What an allocation returns: nothing, or an object that nobody held.
pub data Taken (k : ℕ) (self : MixedMemoryAllocator) (holders : List MemoryRef)
    : MixedMemoryAllocator → Option MemoryRef → Type 0 where
  nothing : Taken k self holders self none
  taken :
      {self' : MixedMemoryAllocator}
      → IsCounted k self' (tensor_obj (length self.objects) ∷ holders)
      → length self'.objects ≡ suc (length self.objects)
      → Taken k self holders self' (some (tensor_obj (length self.objects)))

module _ (k : ℕ) (self : MixedMemoryAllocator) (holders : List MemoryRef)
    (c : IsCounted k self holders) where
  -- A place behind the objects has no holders.
  unused : uses (length self.objects) holders ≡ 0
  unused = elim (Bool-cases (0 == uses (length self.objects) holders)) [
    | inl e ↦ ground (arith, e)
    | inr e ↦
        let (o, n, at_i, valid, count, enough) =
          c.counted (length self.objects) (ground (arith, e)) in
        absurd (omega (arith, get_elem?-bound self.objects (length self.objects) o at_i))
  ]

  new-IsCounted :
      (pin' : TensorMemoryAllocator) (o : TensorMemoryObj)
      → IsSound k pin' (o ∷ self.objects)
      → IsKv o
      → o.valid ≡ true
      → o.meta.ref_count ≡ pos 1
      → IsCounted k
          (record self { pin_allocator = pin'; objects = self.objects ++ o ∷ [] })
          (tensor_obj (length self.objects) ∷ holders)
  new-IsCounted pin' o s kv valid count = record {
    sound = last-IsSound k pin' self.objects o s;
    formats = All-append IsKv self.objects (o ∷ []) c.formats (kv, tt);
    counted = λ i held. elim (Bool-cases (i == length self.objects)) [
      | inl e ↦ (
        o,
        1,
        subst (λ j. get_elem? (self.objects ++ o ∷ []) j ≡ some o) (ground (arith, e))
            (get_elem?-append self.objects o []),
        valid,
        count,
        ground (arith, e, unused),
      )
      | inr e ↦
          let (p, n, at_i, valid', count', enough) = c.counted i (ground (arith, e, held)) in
          (
            p,
            n,
            get_elem?-before self.objects (o ∷ []) i p at_i,
            valid',
            count',
            ground (arith, e, enough),
          )
    ];
  }

  module _ (sl : SortedKeyList) (torch : Torch) (shape : List ℕ) (dtype : Dtype)
      (fmt : MemoryFormat) where
    pub allocate-Taken :
        target fmt ≡ to_pin
        → 0 < compute_raw_size torch shape dtype
        → (self' : MixedMemoryAllocator) × (r : Option MemoryRef) × (allocate sl torch self shape
              (some dtype)
              fmt
            ≡ ok (self', r))
          × Taken k self holders self' r
    unfolding allocate
    allocate-Taken to filled =
        let (size, rounded, pin', r, run, out) =
          allocate-Allocated sl torch self.pin_allocator self.objects c.sound.valid shape dtype fmt
            itself k c.sound.power filled in
        elim (Option-cases r) [
          | inl miss ↦
              let run' : tensor_allocate sl torch self.pin_allocator shape (some dtype) fmt itself
                  ≡ ok (self.pin_allocator, none) =
                run
                ∙ (ap (λ x. ok (pin', x)) miss
                    ∙ ap (λ x. ok (x, none)) (Allocated-full out miss)) in
              (self, none, rw (to, allocate) (rw run' refl), nothing)
          | inr (o, hit) ↦
              let run' : tensor_allocate sl torch self.pin_allocator shape (some dtype) fmt itself
                  ≡ ok (pin', some o) =
                run ∙ ap (λ x. ok (pin', x)) hit in
              let (fmt_same, count) =
                allocate-new sl torch self.pin_allocator pin' shape dtype fmt itself o run' in
              (
                record self { pin_allocator = pin'; objects = self.objects ++ o ∷ [] },
                some (tensor_obj (length self.objects)),
                rw (to, allocate) (rw run' refl),
                taken
                    (new-IsCounted pin' o (Allocated-IsSound k out o hit c.sound)
                      (ap target fmt_same ∙ to) (Allocated-valid out o hit) count)
                    (ground (arith, length-append self.objects (o ∷ []))),
              )
        ]

-- Nobody holds anything of a fresh allocator.
pub init-IsCounted :
    (k n : ℕ) (buffers : List BytesBufferMemoryObj)
    → 0 < n
    → IsCounted k (record (init n (2 ^ k)) { buffers = buffers }) []
unfolding init
init-IsCounted k n buffers h = record {
  sound = init-IsSound k n h;
  formats = tt;
  counted = λ i held. absurd (omega arith);
}
