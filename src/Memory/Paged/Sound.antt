-- ===== src/Memory/Paged/Sound.antt =====
-- The operations on the queue keep every page with one owner.
use mtds.Prelude.{
  ℕ, zero, suc, ◌+◌, ◌*◌, ◌<◌, ◌≡◌, refl, ◌∙◌, subst, true, none, some, List, [], ◌∷◌, ◌++◌, length,
  get_elem?, length-append, List-cases, Bool-cases, ◌⊎◌, inl, inr, arith, ok,
}
use mtds.Memory.Objects.{Torch, MemoryFormat, slices, TensorMemoryObj}
use mtds.Memory.Paged.{
  PagedTensorMemoryAllocator, shape_eq, update, prepare, pop_page, refill, push_page, return_page,
  return_pages, batched_free, take_pages,
}
use mtds.Memory.Paged.Pages.{
  count, count-append, Fits, IsOwned, IsOwned-order, IsOwned-pop, IsOwned-push, IsOwned-refill,
  get_elem?-page, get_elem?-update,
}

pub record HasPages (n : ℕ) (self : PagedTensorMemoryAllocator) (live : List ℕ) : Type 0 where
  pub filled : 0 < self.align_bytes
  pub size : self.buffer_size ≡ n * self.align_bytes
  pub buffers : self.paged_buffers ≡ slices n 0 self.align_bytes
  pub owned : IsOwned self.shape self.align_bytes n self.objects self.free_blocks live

-- The counters and the size of a page.
pub record SameCounters (self self' : PagedTensorMemoryAllocator) : Type 0 where
  pub active : self'.num_active_allocations ≡ self.num_active_allocations
  pub allocated : self'.total_allocated_size ≡ self.total_allocated_size
  pub page : self'.align_bytes ≡ self.align_bytes

SameCounters-compose :
    (a b c : PagedTensorMemoryAllocator) → SameCounters a b → SameCounters b c → SameCounters a c
SameCounters-compose a b c f g = record {
  active = g.active ∙ f.active;
  allocated = g.allocated ∙ f.allocated;
  page = g.page ∙ f.page;
}

pub get_elem?-inside :
    {A : Type 0} (xs : List A) (i : ℕ) → i < length xs → (x : A) × (get_elem? xs i ≡ some x)
get_elem?-inside [] i h = absurd (omega arith)
get_elem?-inside (x ∷ xs) zero h = (x, refl)
get_elem?-inside (x ∷ xs) (suc i) h = get_elem?-inside xs i (omega arith)

module _ (torch : Torch) (n : ℕ) where
  prepare-Fits :
      (self : PagedTensorMemoryAllocator) (shape : List ℕ) (fmt : MemoryFormat) (i : ℕ)
      (o : TensorMemoryObj)
      → Fits self.shape self.align_bytes i o
      → o.raw_data.count ≡ self.align_bytes
      → Fits self.shape self.align_bytes i (prepare torch self shape fmt o)
  unfolding prepare
  prepare-Fits self shape fmt i o fits full = record {
    is_valid = fits.is_valid;
    address = fits.address;
    start = ground (arith, fits.start);
    inside = ground (arith, fits.inside);
    uncut = λ e. ground (arith, e, full);
  }

  abbrev pub popped :
      PagedTensorMemoryAllocator → List ℕ → MemoryFormat → ℕ → List ℕ → PagedTensorMemoryAllocator
  popped self shape fmt i rest = record self {
    free_blocks = rest;
    objects = update self.objects i (prepare torch self shape fmt);
  }

  popped-HasPages :
      (self : PagedTensorMemoryAllocator) (live : List ℕ) (shape : List ℕ) (fmt : MemoryFormat)
      (i : ℕ) (rest : List ℕ)
      → self.free_blocks ≡ i ∷ rest
      → HasPages n self live
      → HasPages n (popped self shape fmt i rest) (i ∷ live)
  popped-HasPages self live shape fmt i rest e pages = record {
    filled = pages.filled;
    size = pages.size;
    buffers = pages.buffers;
    owned =
        IsOwned-pop self.shape self.align_bytes n self.objects i rest live
          (prepare torch self shape fmt) (prepare-Fits self shape fmt i)
          (subst (λ free. IsOwned self.shape self.align_bytes n self.objects free live) e
            pages.owned);
  }

  -- A page is free, and it is the first one of the queue that is taken, or none is.
  pub pop_page-cases :
      (self : PagedTensorMemoryAllocator) (live : List ℕ) (shape : List ℕ) (fmt : MemoryFormat)
      → HasPages n self live
      → ((pop_page torch self shape fmt ≡ none) × (self.free_blocks ≡ []))
        ⊎ ((self' : PagedTensorMemoryAllocator) × (i : ℕ) × (pop_page torch self shape fmt
              ≡ some (self', i))
            × (self.free_blocks ≡ i ∷ self'.free_blocks)
            × HasPages n self' (i ∷ live)
            × SameCounters self self')
  unfolding pop_page
  pop_page-cases self live shape fmt pages = elim (List-cases self.free_blocks) [
    | inl empty ↦ inl (ground (arith, empty), empty)
    | inr (i, rest, e) ↦ inr (
      popped self shape fmt i rest,
      i,
      ground (arith, e),
      e,
      popped-HasPages self live shape fmt i rest e pages,
      record { active = refl; allocated = refl; page = refl },
    )
  ]

module _ (n : ℕ) where
  -- The object of a page that a caller has.
  pub live_object :
      (self : PagedTensorMemoryAllocator) (i : ℕ) (live : List ℕ)
      → HasPages n self (i ∷ live)
      → (o : TensorMemoryObj) × (get_elem? self.objects i ≡ some o) × (o.valid ≡ true) × (i < n)
  live_object self i live pages =
      let inside : i < n = ground (arith, pages.owned.once i) in
      let (o, at) = get_elem?-inside self.objects i (ground (arith, pages.owned.all_pages)) in
      (o, at, (pages.owned.fits i o at).is_valid, inside)

  pub push_page-HasPages :
      (self : PagedTensorMemoryAllocator) (i : ℕ) (live : List ℕ) (o : TensorMemoryObj)
      → get_elem? self.objects i ≡ some o
      → i < n
      → HasPages n self (i ∷ live)
      → (self' : PagedTensorMemoryAllocator) × (push_page self i o ≡ ok self')
        × HasPages n self' live
        × SameCounters self self'
        × (self'.free_blocks ≡ self.free_blocks ++ i ∷ [])
  unfolding push_page refill
  push_page-HasPages self i live o at inside pages =
      let fits = pages.owned.fits i o at in
      let pushed : List TensorMemoryObj → PagedTensorMemoryAllocator =
        λ objects. record self { objects = objects; free_blocks = self.free_blocks ++ i ∷ [] } in
      elim (Bool-cases (shape_eq o.meta.shape self.shape)) [
        | inl same ↦ (
          pushed self.objects,
          rw same refl,
          record {
            filled = pages.filled;
            size = pages.size;
            buffers = pages.buffers;
            owned =
                IsOwned-push self.shape self.align_bytes n self.objects i self.free_blocks live o at
                  pages.owned (fits.uncut same);
          },
          record { active = refl; allocated = refl; page = refl },
          refl,
        )
        | inr other ↦
            let whole : TensorMemoryObj → TensorMemoryObj = λ o. record o {
              raw_data = record { offset = i * self.align_bytes; count = self.align_bytes };
            } in
            (
              pushed (update self.objects i whole),
              rw (other, fits.address, pages.buffers, get_elem?-page n self.align_bytes i inside)
                  refl,
              record {
                filled = pages.filled;
                size = pages.size;
                buffers = pages.buffers;
                owned =
                    IsOwned-push self.shape self.align_bytes n (update self.objects i whole) i
                      self.free_blocks live (whole o)
                      (ground (arith, get_elem?-update self.objects i i whole, at))
                      (IsOwned-refill self.shape self.align_bytes n self.objects i self.free_blocks
                        (i ∷ live) pages.owned)
                      refl;
              },
              record { active = refl; allocated = refl; page = refl },
              refl,
            )
      ]

  -- Also where the page is in the queue already.
  pub push_page_again :
      (self : PagedTensorMemoryAllocator) (i : ℕ) (live : List ℕ) (o : TensorMemoryObj)
      → get_elem? self.objects i ≡ some o
      → i < n
      → HasPages n self live
      → (self' : PagedTensorMemoryAllocator) × (push_page self i o ≡ ok self')
        × (self'.free_blocks ≡ self.free_blocks ++ i ∷ [])
  unfolding push_page refill
  push_page_again self i live o at inside pages =
      let fits = pages.owned.fits i o at in
      elim (Bool-cases (shape_eq o.meta.shape self.shape)) [
        | inl same ↦ (record self { free_blocks = self.free_blocks ++ i ∷ [] }, rw same refl, refl)
        | inr other ↦
            let whole : TensorMemoryObj → TensorMemoryObj = λ o. record o {
              raw_data = record { offset = i * self.align_bytes; count = self.align_bytes };
            } in
            (
              record self {
                objects = update self.objects i whole;
                free_blocks = self.free_blocks ++ i ∷ [];
              },
              rw (other, fits.address, pages.buffers, get_elem?-page n self.align_bytes i inside)
                  refl,
              refl,
            )
      ]

  return_page-HasPages :
      (self : PagedTensorMemoryAllocator) (i : ℕ) (live : List ℕ)
      → HasPages n self (i ∷ live)
      → (self' : PagedTensorMemoryAllocator) × (return_page self i ≡ ok self')
        × HasPages n self' live
        × SameCounters self self'
  unfolding return_page
  return_page-HasPages self i live pages =
      let (o, at, valid, inside) = live_object self i live pages in
      let (self', run, pages', same, _) = push_page-HasPages self i live o at inside pages in
      (self', rw (at, valid, return_page) run, pages', same)

  pub return_pages-HasPages :
      (self : PagedTensorMemoryAllocator) (is live : List ℕ)
      → HasPages n self (is ++ live)
      → (self' : PagedTensorMemoryAllocator) × (return_pages self is ≡ ok self')
        × HasPages n self' live
        × SameCounters self self'
  unfolding return_pages
  return_pages-HasPages self [] live pages =
      (self, refl, pages, record { active = refl; allocated = refl; page = refl })
  return_pages-HasPages self (i ∷ is) live pages =
      let (self₁, run₁, pages₁, same₁) = return_page-HasPages self i (is ++ live) pages in
      let (self₂, run₂, pages₂, same₂) = return_pages-HasPages self₁ is live pages₁ in
      (self₂, rw run₁ run₂, pages₂, SameCounters-compose self self₁ self₂ same₁ same₂)

  pub HasPages-order :
      (self : PagedTensorMemoryAllocator) (live live' : List ℕ)
      → ((i : ℕ) → count i live ≡ count i live')
      → length live ≡ length live'
      → HasPages n self live
      → HasPages n self live'
  HasPages-order self live live' same size pages = record {
    filled = pages.filled;
    size = pages.size;
    buffers = pages.buffers;
    owned =
        IsOwned-order self.shape self.align_bytes n self.objects self.free_blocks live live' same
          size pages.owned;
  }

  -- A batch takes one page after the other, or gives all of them back where the queue runs out.
  pub take_pages-cases :
      (torch : Torch) (k : ℕ) (self : PagedTensorMemoryAllocator) (allocated live : List ℕ)
      (shape : List ℕ) (fmt : MemoryFormat)
      → HasPages n self (allocated ++ live)
      → (self' : PagedTensorMemoryAllocator) × SameCounters self self'
        × (((take_pages torch self shape fmt k allocated ≡ ok (self', none))
              × HasPages n self' live
              × (length self.free_blocks < k))
            ⊎ ((is : List ℕ) × (take_pages torch self shape fmt k allocated ≡ ok (self', some is))
                × HasPages n self' (is ++ live)
                × (length is ≡ length allocated + k)))
  unfolding take_pages batched_free
  take_pages-cases torch zero self allocated live shape fmt pages = (
    self,
    record { active = refl; allocated = refl; page = refl },
    inr (allocated, refl, pages, omega arith),
  )
  take_pages-cases torch (suc k) self allocated live shape fmt pages =
      elim (pop_page-cases torch n self (allocated ++ live) shape fmt pages) [
        | inl (none_left, empty) ↦
            let (self', run, back, same) = return_pages-HasPages self allocated live pages in
            (self', same, inl (ground (arith, none_left, run), back, ground (arith, empty)))
        | inr (self₁, i, took, queue, pages₁, same₁) ↦
            let (self', same', done) =
              take_pages-cases torch k self₁ (allocated ++ i ∷ []) live shape fmt (
                HasPages-order self₁ (i ∷ allocated ++ live) ((allocated ++ i ∷ []) ++ live)
                  (λ j. ground (
                    arith,
                    count-append j (allocated ++ i ∷ []) live,
                    count-append j allocated (i ∷ []),
                    count-append j allocated live,
                  ))
                  (ground (
                    arith,
                    length-append (allocated ++ i ∷ []) live,
                    length-append allocated (i ∷ []),
                    length-append allocated live,
                  ))
                  pages₁) in
            (
              self',
              SameCounters-compose self self₁ self' same₁ same',
              elim done [
                | inl (e, back, short) ↦ inl (ground (arith, took, e), back, ground (arith, queue))
                | inr (is, e, pages', size) ↦ inr (
                  is,
                  ground (arith, took, e),
                  pages',
                  ground (arith, size, length-append allocated (i ∷ [])),
                )
              ],
            )
      ]
