-- ===== src/Memory/Paged/Start.antt =====
-- A fresh paged allocator, and every state that its callers can bring it to.
use mtds.Prelude.{
  ℕ, zero, suc, ◌+◌, ◌*◌, ◌%◌, ◌<◌, ◌≡◌, refl, ap, sym, ◌∙◌, ◌≢◌, ◌⊎◌, ◌≤◌, subst, true, false,
  ◌&&◌, Option, none, some, List, [], ◌∷◌, ◌++◌, length, get_elem?, ltb, leb, ◌==◌, if◌then◌else◌,
  inl, inr, arith, ok,
}
use mtds.Prelude.Int.{pos}
use mtds.Memory.Objects.{Torch, MemoryFormat, Dtype, slices, TensorMemoryObj}
use mtds.Memory.Paged.{
  PagedTensorMemoryAllocator, Splitter, page_objects, init, allocate, batched_allocate, free,
  batched_free, memcheck,
}
use mtds.Memory.Paged.Pages.{count, IsOwned}
use mtds.Memory.Paged.Sound.{HasPages-order}
use mtds.Memory.Paged.Run.{
  IsSound, allocate-IsSound, batched_allocate-IsSound, free-IsSound, batched_free-IsSound,
  memcheck-IsSound, pages_apart,
}

module _ (shape : List ℕ) (dtype : Dtype) (fmt : MemoryFormat) (parent : Option ℕ) (align : ℕ) where
  length-page_objects :
      (m idx offset : ℕ)
      → (length (page_objects shape dtype fmt parent idx (slices m offset align)).0 ≡ m)
        × (length (page_objects shape dtype fmt parent idx (slices m offset align)).1 ≡ m)
  unfolding page_objects
  length-page_objects zero idx offset = (refl, refl)
  length-page_objects (suc m) idx offset =
      let (l, r) = length-page_objects m (suc idx) (offset + align) in (ap suc l, ap suc r)

  count-page_objects :
      (m idx offset j : ℕ)
      → count j (page_objects shape dtype fmt parent idx (slices m offset align)).1
        ≡ (if leb idx j && ltb j (idx + m) then 1 else 0)
  unfolding page_objects
  count-page_objects zero idx offset j = ground arith
  count-page_objects (suc m) idx offset j =
      ground (arith, count-page_objects m (suc idx) (offset + align) j)

  page_objects-get_elem? :
      (m idx offset k : ℕ) (o : TensorMemoryObj)
      → get_elem? (page_objects shape dtype fmt parent idx (slices m offset align)).0 k ≡ some o
      → (o.valid ≡ true)
        × (o.meta.address ≡ idx + k)
        × (o.raw_data.offset ≡ offset + k * align)
        × (o.raw_data.count ≡ align)
  unfolding page_objects
  page_objects-get_elem? zero idx offset k o e = absurd (ground arith)
  page_objects-get_elem? (suc m) idx offset zero o e = ground arith
  page_objects-get_elem? (suc m) idx offset (suc k) o e =
      ground (arith, page_objects-get_elem? m (suc idx) (offset + align) k o e)

  pub page_objects-IsOwned :
      (n : ℕ)
      → IsOwned shape align n
          (page_objects shape dtype fmt parent 0 (slices n 0 align)).0
          (page_objects shape dtype fmt parent 0 (slices n 0 align)).1
          []
  page_objects-IsOwned n = record {
    all_pages = (length-page_objects n 0 0).0;
    once = λ i. ground (arith, count-page_objects n 0 0 i);
    total = ground (arith, (length-page_objects n 0 0).1);
    fits = λ i o e.
        let (valid, address, start, full) = page_objects-get_elem? n 0 0 i o e in
        record {
          is_valid = valid;
          address = ground (arith, address);
          start = ground (arith, start);
          inside = omega (arith, full);
          uncut = λ same. full;
        };
    whole = λ i o e h. (page_objects-get_elem? n 0 0 i o e).3;
  }

whole_pages : (n align : ℕ) → 0 < align → n * align % align ≡ 0
whole_pages n align h = grind arith

module _ (torch : Torch) (splitter : Splitter) where
  -- The constructor raises nothing for a buffer of `n` pages, and no caller has a page yet.
  pub init-IsSound :
      (n : ℕ) (shape : List ℕ) (dtype : Dtype) (fmt : MemoryFormat) (name : ℕ)
      → 0 < n
      → 0 < torch.numel shape * torch.itemsize dtype
      → (self : PagedTensorMemoryAllocator) × (init torch splitter
            (n * (torch.numel shape * torch.itemsize dtype))
            shape
            dtype
            fmt
            name
          ≡ ok self)
        × IsSound n self []
  unfolding init
  init-IsSound n shape dtype fmt name some_page filled =
      let align = torch.numel shape * torch.itemsize dtype in
      let pages = slices n 0 align in
      let nonzero : (align == 0) ≡ false = ground arith in
      let divides : (n * align % align == 0) ≡ true = ground (arith, whole_pages n align filled) in
      let made = page_objects shape dtype fmt (some name) 0 pages in
      let self : PagedTensorMemoryAllocator = record {
        buffer_size = n * align;
        shape = shape;
        fmt = fmt;
        bytes_per_element = torch.itemsize dtype;
        align_bytes = align;
        paged_buffers = pages;
        objects = made.0;
        free_blocks = made.1;
        num_active_allocations = 0;
        total_allocated_size = pos 0;
        stats_usage = pos 0;
      } in
      (
        self,
        rw (nonzero, divides, splitter.split_lem align n filled some_page) refl,
        record {
          pages = record {
            filled = filled;
            size = refl;
            buffers = refl;
            owned = page_objects-IsOwned shape dtype fmt (some name) align n;
          };
          active = refl;
          allocated = ap pos (omega arith);
        },
      )

ok_injective {ℓ} : {A : Type ℓ} {x y : A} → ok x ≡ ok y → x ≡ y
ok_injective e = cc

-- Calls in any order, beside the pages that the callers have. A reordering brings a page to the
-- front that is to be freed.
pub data Step (torch : Torch)
    : PagedTensorMemoryAllocator × List ℕ → PagedTensorMemoryAllocator × List ℕ → Type 0 where
  allocates :
      {self self' : PagedTensorMemoryAllocator} {live : List ℕ} (shape : List ℕ) (dtype : Dtype)
      (fmt : MemoryFormat) (i : ℕ)
      → allocate torch self shape (some dtype) fmt ≡ ok (self', some i)
      → Step torch (self, live) (self', i ∷ live)
  batch_allocates :
      {self self' : PagedTensorMemoryAllocator} {live : List ℕ} (shape : List ℕ) (dtype : Dtype)
      (k : ℕ) (fmt : MemoryFormat) (is : List ℕ)
      → batched_allocate torch self shape (some dtype) k fmt ≡ ok (self', some is)
      → Step torch (self, live) (self', is ++ live)
  batch_refused :
      {self self' : PagedTensorMemoryAllocator} {live : List ℕ} (shape : List ℕ) (dtype : Dtype)
      (k : ℕ) (fmt : MemoryFormat)
      → batched_allocate torch self shape (some dtype) k fmt ≡ ok (self', none)
      → Step torch (self, live) (self', live)
  frees :
      {self self' : PagedTensorMemoryAllocator} (i : ℕ) (live : List ℕ)
      → free self i ≡ ok self'
      → Step torch (self, i ∷ live) (self', live)
  batch_frees :
      {self self' : PagedTensorMemoryAllocator} (is live : List ℕ)
      → batched_free self is true ≡ ok self'
      → Step torch (self, is ++ live) (self', live)
  reorders :
      (self : PagedTensorMemoryAllocator) (live live' : List ℕ)
      → ((i : ℕ) → count i live ≡ count i live')
      → length live ≡ length live'
      → Step torch (self, live) (self, live')

pub data Reach (torch : Torch) (start : PagedTensorMemoryAllocator)
    : PagedTensorMemoryAllocator × List ℕ → Type 0 where
  here : Reach torch start (start, [])
  next :
      {s s' : PagedTensorMemoryAllocator × List ℕ}
      → Reach torch start s
      → Step torch s s'
      → Reach torch start s'

module _ (torch : Torch) (n : ℕ) where
  Step-IsSound :
      {s s' : PagedTensorMemoryAllocator × List ℕ}
      → Step torch s s'
      → IsSound n s.0 s.1
      → IsSound n s'.0 s'.1
  Step-IsSound (allocates {self} {self'} {live} shape dtype fmt i e) sound =
      elim (allocate-IsSound torch n self live shape dtype fmt sound) [
        | inl (none_left, empty) ↦ absurd (ground (arith, e, none_left))
        | inr (self₁, j, took, queue, sound₁) ↦
            subst (λ (s : PagedTensorMemoryAllocator × ℕ). IsSound n s.0 (s.1 ∷ live))
              (ground (arith, e, took)) sound₁
      ]
  Step-IsSound (batch_allocates {self} {self'} {live} shape dtype k fmt is e) sound =
      let (self₁, done) = batched_allocate-IsSound torch n self live shape dtype k fmt sound in
      elim done [
        | inl (refused, sound₁, short) ↦ absurd (ground (arith, e, refused))
        | inr (js, took, sound₁, size) ↦
            subst (λ (s : PagedTensorMemoryAllocator × List ℕ). IsSound n s.0 (s.1 ++ live))
              (ground (arith, e, took)) sound₁
      ]
  Step-IsSound (batch_refused {self} {self'} {live} shape dtype k fmt e) sound =
      let (self₁, done) = batched_allocate-IsSound torch n self live shape dtype k fmt sound in
      elim done [
        | inl (refused, sound₁, short) ↦
            subst (λ (s : PagedTensorMemoryAllocator). IsSound n s live)
              (ground (arith, e, refused)) sound₁
        | inr (js, took, sound₁, size) ↦ absurd (ground (arith, e, took))
      ]
  Step-IsSound (frees {self} i live e) sound =
      let (self₁, run, sound₁, queue) = free-IsSound n self i live sound in
      subst (λ s. IsSound n s live) (ok_injective (sym run ∙ e)) sound₁
  Step-IsSound (batch_frees {self} is live e) sound =
      let (self₁, run, sound₁) = batched_free-IsSound n self is live sound in
      subst (λ s. IsSound n s live) (ok_injective (sym run ∙ e)) sound₁
  Step-IsSound (reorders self live live' same size) sound = record {
    pages = HasPages-order n self live live' same size sound.pages;
    active = sound.active ∙ size;
    allocated = sound.allocated ∙ ap (λ l. pos (l * self.align_bytes)) size;
  }

  Reach-IsSound :
      {start : PagedTensorMemoryAllocator} {s : PagedTensorMemoryAllocator × List ℕ}
      → IsSound n start []
      → Reach torch start s
      → IsSound n s.0 s.1
  Reach-IsSound first here = first
  Reach-IsSound first (next r step) = Step-IsSound step (Reach-IsSound first r)

  -- From a sound start, whatever the callers do with the pages that they have, every page has one owner, the counters
  -- count the callers' pages, and `memcheck` returns True.
  pub reachable_paged :
      (start self : PagedTensorMemoryAllocator) (live : List ℕ)
      → IsSound n start []
      → Reach torch start (self, live)
      → IsSound n self live × (memcheck self ≡ true)
  reachable_paged start self live first r =
      let sound = Reach-IsSound first r in (sound, memcheck-IsSound n self live sound)

module _ (torch : Torch) (splitter : Splitter) where
  -- Whatever the callers of a fresh allocator of one or more pages, of one or more bytes each, do with
  -- the pages that they have, and whatever shapes they ask for: the objects of two different pages lie
  -- one behind the other in the buffer.
  pub reachable_apart_pages :
      (n : ℕ) (shape : List ℕ) (dtype : Dtype) (fmt : MemoryFormat) (name : ℕ)
      (start self : PagedTensorMemoryAllocator) (live : List ℕ)
      → 0 < n
      → 0 < torch.numel shape * torch.itemsize dtype
      → init torch splitter (n * (torch.numel shape * torch.itemsize dtype)) shape dtype fmt name
        ≡ ok start
      → Reach torch start (self, live)
      → (i j : ℕ) (o p : TensorMemoryObj) → get_elem? self.objects i ≡ some o
      → get_elem? self.objects j ≡ some p
      → i ≢ j
      → (o.raw_data.offset + o.raw_data.count ≤ p.raw_data.offset)
        ⊎ (p.raw_data.offset + p.raw_data.count ≤ o.raw_data.offset)
  reachable_apart_pages n shape dtype fmt name start self live some_page filled made r =
      let (start', made', sound) =
        init-IsSound torch splitter n shape dtype fmt name some_page filled in
      let same = ok_injective (sym made' ∙ made) in
      pages_apart n self live (Reach-IsSound torch n (subst (λ s. IsSound n s []) same sound) r)
