-- ===== src/Memory/Tensor/Run.antt =====
-- A program that allocates, frees, pins and counts references, in any order.
use mtds.Prelude.{
  ℕ, zero, suc, ◌^◌, ◌<◌, ◌≡◌, refl, sym, subst, subst₂, ◌∙◌, true, Bool-cases, inl, inr, Option,
  some, none, List, [], ◌∷◌, set, set-get_elem?, get_elem?, ok, arith, All,
}
use mtds.Memory.Objects.{
  TensorMemoryObj, MemoryFormat, Dtype, Torch, ref_count_up, ref_count_down, pin, unpin,
}
use mtds.Memory.SortedList.{SortedKeyList}
use mtds.Memory.Batch.{memcheck, block_of, total_size}
use mtds.Memory.FreeList.Chain.{cover}
use mtds.Memory.Tensor.{TensorMemoryAllocator, init, compute_raw_size, allocate, free}
use mtds.Memory.Tensor.Owned.{IsValid, held, held_size, held_count, IsFilled}
use mtds.Memory.Tensor.Free.{free-IsValid, free_twice, memcheck-IsValid}
use mtds.Memory.Tensor.Allocate.{Allocated, full, fits, allocate-Allocated}

-- The methods of an object that leave its bytes where they are.
pub data Touch : Type 0 where
  up down pins unpins : Touch

abbrev pub touch : Touch → TensorMemoryObj → TensorMemoryObj
touch up o = ref_count_up o
touch down o = (ref_count_down o).0
touch pins o = pin o
touch unpins o = unpin o

touch-valid : (t : Touch) (o : TensorMemoryObj) → (touch t o).valid ≡ o.valid
unfolding ref_count_up ref_count_down pin unpin
touch-valid up o = refl
touch-valid _ o = refl

block_of-touch : (t : Touch) (o : TensorMemoryObj) → block_of (touch t o) ≡ block_of o
unfolding ref_count_up ref_count_down pin unpin
block_of-touch up o = refl
block_of-touch _ o = refl

module _ (t : Touch) (o : TensorMemoryObj) where
  held-touch :
      (a : ℕ) (objs : List TensorMemoryObj) (i : ℕ)
      → get_elem? objs i ≡ some o
      → held a (set objs i (touch t o)) ≡ held a objs
  unfolding held
  held-touch a [] i e = refl
  held-touch a (p ∷ ps) zero e = ground (arith, touch-valid t o, block_of-touch t o)
  held-touch a (p ∷ ps) (suc i) e = omega (arith, held-touch a ps i e)

  held_size-touch :
      (objs : List TensorMemoryObj) (i : ℕ)
      → get_elem? objs i ≡ some o
      → held_size (set objs i (touch t o)) ≡ held_size objs
  unfolding held_size
  held_size-touch [] i e = refl
  held_size-touch (p ∷ ps) zero e = ground (arith, touch-valid t o, block_of-touch t o)
  held_size-touch (p ∷ ps) (suc i) e = omega (arith, held_size-touch ps i e)

  held_count-touch :
      (objs : List TensorMemoryObj) (i : ℕ)
      → get_elem? objs i ≡ some o
      → held_count (set objs i (touch t o)) ≡ held_count objs
  unfolding held_count
  held_count-touch [] i e = refl
  held_count-touch (p ∷ ps) zero e = ground (arith, touch-valid t o)
  held_count-touch (p ∷ ps) (suc i) e = omega (arith, held_count-touch ps i e)

  IsFilled-touch :
      (objs : List TensorMemoryObj) (i : ℕ)
      → get_elem? objs i ≡ some o
      → All IsFilled objs
      → All IsFilled (set objs i (touch t o))
  IsFilled-touch [] i e f = tt
  IsFilled-touch (p ∷ ps) zero e f = (ground (arith, block_of-touch t o), f.1)
  IsFilled-touch (p ∷ ps) (suc i) e f = (f.0, IsFilled-touch ps i e f.1)

  pub touch-IsValid :
      (self : TensorMemoryAllocator) (objs : List TensorMemoryObj) (i : ℕ)
      → get_elem? objs i ≡ some o
      → IsValid self objs
      → IsValid self (set objs i (touch t o))
  touch-IsValid self objs i e v = record {
    chain = v.chain;
    owned = λ a. rw (held-touch a objs i e) (v.owned a);
    sizes = rw (held_size-touch objs i e) v.sizes;
    total = rw (held_size-touch objs i e) v.total;
    active = rw (held_count-touch objs i e) v.active;
    told = v.told;
    filled = IsFilled-touch objs i e v.filled;
  }

module _ (sl : SortedKeyList) (torch : Torch) where
  -- The allocator and the objects that it has handed out, the newest first.
  pub data Step
      : TensorMemoryAllocator
        → List TensorMemoryObj
        → TensorMemoryAllocator
        → List TensorMemoryObj
        → Type 0 where
    allocates :
        {self self' : TensorMemoryAllocator} {objs : List TensorMemoryObj} (o : TensorMemoryObj)
        (shape : List ℕ) (dtype : Dtype) (fmt : MemoryFormat) (parent : Option ℕ)
        → 0 < compute_raw_size torch shape dtype
        → allocate sl torch self shape (some dtype) fmt parent ≡ ok (self', some o)
        → Step self objs self' (o ∷ objs)
    is_full :
        {self self' : TensorMemoryAllocator} {objs : List TensorMemoryObj} (shape : List ℕ)
        (dtype : Dtype) (fmt : MemoryFormat) (parent : Option ℕ)
        → 0 < compute_raw_size torch shape dtype
        → allocate sl torch self shape (some dtype) fmt parent ≡ ok (self', none)
        → Step self objs self' objs
    frees :
        {self self' : TensorMemoryAllocator} {objs : List TensorMemoryObj} (i : ℕ)
        (o o' : TensorMemoryObj)
        → get_elem? objs i ≡ some o
        → free sl self o ≡ ok (self', o')
        → Step self objs self' (set objs i o')
    touches :
        {self : TensorMemoryAllocator} {objs : List TensorMemoryObj} (t : Touch) (i : ℕ)
        (o : TensorMemoryObj)
        → get_elem? objs i ≡ some o
        → Step self objs self (set objs i (touch t o))

  pub data Reach (start : TensorMemoryAllocator)
      : TensorMemoryAllocator → List TensorMemoryObj → Type 0 where
    here : Reach start start []
    next :
        {self self' : TensorMemoryAllocator} {objs objs' : List TensorMemoryObj}
        → Reach start self objs
        → Step self objs self' objs'
        → Reach start self' objs'

-- The invariant, with an alignment that is a power of two.
pub record IsSound (k : ℕ) (self : TensorMemoryAllocator) (objs : List TensorMemoryObj)
    : Type 0 where
  pub valid : IsValid self objs
  pub power : self.align_bytes ≡ 2 ^ k

pub init-IsSound : (k n : ℕ) → 0 < n → IsSound k (init n (2 ^ k)) []
unfolding init held held_size held_count
init-IsSound k n h = record {
  valid = record {
    chain = omega arith;
    owned = λ a. unfold cover in ground arith;
    sizes = unfold total_size in omega arith;
    total = refl;
    active = refl;
    told = refl;
    filled = tt;
  };
  power = refl;
}

pub ok_pair {ℓ κ} :
    {A : Type ℓ} {B : Type κ} {x y : A × B} → ok x ≡ ok y → (x.0 ≡ y.0) × (x.1 ≡ y.1)
ok_pair e = (cc, cc)

module _ (k : ℕ) {raw size : ℕ} {self : TensorMemoryAllocator} {objs : List TensorMemoryObj} where
  pub Allocated-IsSound :
      {self' : TensorMemoryAllocator} {r : Option TensorMemoryObj}
      → Allocated raw size self objs self' r
      → (o : TensorMemoryObj) → r ≡ some o
      → IsSound k self objs
      → IsSound k self' (o ∷ objs)
  Allocated-IsSound (full h) o e s = cc
  Allocated-IsSound (fits {self' = self'} {o = o'} b f raw_data lies valid same v) o e s = record {
    valid = subst (λ x. IsValid self' (x ∷ objs)) (cc) v;
    power = same.1 ∙ s.power;
  }

  full-IsSound :
      {self' : TensorMemoryAllocator} {r : Option TensorMemoryObj}
      → Allocated raw size self objs self' r
      → r ≡ none
      → IsSound k self objs
      → IsSound k self' objs
  full-IsSound (full h) e s = s
  full-IsSound (fits b f raw_data lies valid same v) e s = cc

module _ (sl : SortedKeyList) (torch : Torch) (k : ℕ) where
  Step-IsSound :
      {self self' : TensorMemoryAllocator} {objs objs' : List TensorMemoryObj}
      → Step sl torch self objs self' objs'
      → IsSound k self objs
      → IsSound k self' objs'
  Step-IsSound (allocates {self = self} {objs = objs} o shape dtype fmt parent h e) s =
      let (size, rounded, self'', r, run, out) =
        allocate-Allocated sl torch self objs s.valid shape dtype fmt parent k s.power h in
      let (same, found) = ok_pair (sym run ∙ e) in
      subst (λ x. IsSound k x (o ∷ objs)) same (Allocated-IsSound k out o found s)
  Step-IsSound (is_full {self = self} {objs = objs} shape dtype fmt parent h e) s =
      let (size, rounded, self'', r, run, out) =
        allocate-Allocated sl torch self objs s.valid shape dtype fmt parent k s.power h in
      let (same, found) = ok_pair (sym run ∙ e) in
      subst (λ x. IsSound k x objs) same (full-IsSound k out found s)
  Step-IsSound (frees {self = self} {objs = objs} i o o' at_i e) s = elim (Bool-cases o.valid) [
    | inl valid ↦
        let (self'', run, v, buffer, align) = free-IsValid sl self objs s.valid i o at_i valid in
        let (same, freed) = ok_pair (sym run ∙ e) in
        subst₂ (λ x y. IsSound k x (set objs i y)) same freed
          (record { valid = v; power = align ∙ s.power })
    | inr gone ↦
        let (same, kept) = ok_pair (sym (free_twice sl self o gone) ∙ e) in
        subst₂ (λ x y. IsSound k x (set objs i y)) same kept (rw (set-get_elem? objs i o at_i) s)
  ]
  Step-IsSound (touches {self = self} {objs = objs} t i o at_i) s = record {
    valid = touch-IsValid t o self objs i at_i s.valid;
    power = s.power;
  }

  pub Reach-IsSound :
      {start self : TensorMemoryAllocator} {objs : List TensorMemoryObj}
      → IsSound k start []
      → Reach sl torch start self objs
      → IsSound k self objs
  Reach-IsSound s here = s
  Reach-IsSound s (next r st) = Step-IsSound st (Reach-IsSound s r)

  -- After any sequence of allocations of one or more bytes, frees, pins and reference counts on a fresh
  -- allocator of one or more bytes whose alignment is a power of two, the invariant holds (every byte
  -- has one owner, the free list is in order and joined up, the counters agree with the valid objects),
  -- and `memcheck` returns True.
  pub reachable_sound :
      (n : ℕ) {self : TensorMemoryAllocator} {objs : List TensorMemoryObj}
      → 0 < n
      → Reach sl torch (init n (2 ^ k)) self objs
      → IsValid self objs × (memcheck self ≡ true)
  reachable_sound n {self} {objs} h r =
      let s = Reach-IsSound (init-IsSound k n h) r in (s.valid, memcheck-IsValid self objs s.valid)
