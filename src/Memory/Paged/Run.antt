-- ===== src/Memory/Paged/Run.antt =====
-- The paged allocator as its callers see it: allocations, batches and frees in any order.
use mtds.Prelude.{
  ℕ, suc, ◌+◌, ◌-◌, ◌*◌, ◌≤◌, ◌<◌, ◌≡◌, ◌≢◌, refl, ap, sym, ◌∙◌, subst, true, none, some, List, [],
  ◌∷◌, ◌++◌, length, get_elem?, ltb, length-append, Bool-cases, ◌⊎◌, inl, inr, arith, ok,
}
use mtds.Prelude.Int.{pos, ◌+ℤ◌, pos-+ℤ, pos--ℤ}
use mtds.Memory.Objects.{Torch, MemoryFormat, Dtype, TensorMemoryObj}
use mtds.Memory.Tensor.{require_dtype}
use mtds.Memory.Paged.{
  PagedTensorMemoryAllocator, allocate, free, count_freed, batched_free, batched_allocate, memcheck,
}
use mtds.Memory.Paged.Sound.{
  HasPages, get_elem?-inside, pop_page-cases, live_object, push_page-HasPages, push_page_again,
  return_pages-HasPages, take_pages-cases,
}

-- Every page has one owner, and the counters count the pages that the callers have.
pub record IsSound (n : ℕ) (self : PagedTensorMemoryAllocator) (live : List ℕ) : Type 0 where
  pub pages : HasPages n self live
  pub active : self.num_active_allocations ≡ length live
  pub allocated : self.total_allocated_size ≡ pos (length live * self.align_bytes)

module _ (torch : Torch) (n : ℕ) where
  -- In a sound state an allocation with a dtype raises nothing. Where a page is free, the first one of the queue goes
  -- to the caller, and otherwise nothing changes; every page keeps one owner.
  pub allocate-IsSound :
      (self : PagedTensorMemoryAllocator) (live shape : List ℕ) (dtype : Dtype) (fmt : MemoryFormat)
      → IsSound n self live
      → ((allocate torch self shape (some dtype) fmt ≡ ok (self, none)) × (self.free_blocks ≡ []))
        ⊎ ((self' : PagedTensorMemoryAllocator) × (i : ℕ) × (allocate torch self shape
                (some dtype)
                fmt
              ≡ ok (self', some i))
            × (self.free_blocks ≡ i ∷ self'.free_blocks)
            × IsSound n self' (i ∷ live))
  unfolding allocate require_dtype
  allocate-IsSound self live shape dtype fmt sound =
      elim (pop_page-cases torch n self live shape fmt sound.pages) [
        | inl (none_left, empty) ↦ inl (ground (arith, none_left), empty)
        | inr (self₁, i, took, queue, pages, same) ↦
            let total = self₁.total_allocated_size +ℤ pos self₁.align_bytes in
            let self' : PagedTensorMemoryAllocator = record self₁ {
              num_active_allocations = self₁.num_active_allocations + 1;
              total_allocated_size = total;
              stats_usage = total;
            } in
            inr (
              self',
              i,
              ground (arith, took),
              queue,
              record {
                pages = record {
                  filled = pages.filled;
                  size = pages.size;
                  buffers = pages.buffers;
                  owned = pages.owned;
                };
                active = ground (arith, same.active, sound.active);
                allocated =
                    rw (same.allocated, sound.allocated, pos-+ℤ)
                      (ap pos (ground (arith, same.page)));
              },
            )
      ]

  -- In a sound state a batch with a dtype raises nothing: it gets as many pages as it asks for, or the queue has too
  -- few of them and all go back; every page keeps one owner and the counters stay right.
  pub batched_allocate-IsSound :
      (self : PagedTensorMemoryAllocator) (live shape : List ℕ) (dtype : Dtype) (k : ℕ)
      (fmt : MemoryFormat)
      → IsSound n self live
      → (self' : PagedTensorMemoryAllocator) × (((batched_allocate torch self shape
                (some dtype)
                k
                fmt
              ≡ ok (self', none))
            × IsSound n self' live
            × (length self.free_blocks < k))
          ⊎ ((is : List ℕ) × (batched_allocate torch self shape (some dtype) k fmt
                ≡ ok (self', some is))
              × IsSound n self' (is ++ live)
              × (length is ≡ k)))
  unfolding batched_allocate require_dtype
  batched_allocate-IsSound self live shape dtype k fmt sound =
      let (self₁, same, taken) = take_pages-cases n torch k self [] live shape fmt sound.pages in
      elim taken [
        | inl (e, pages, short) ↦ (
          self₁,
          inl (
            ground (arith, e),
            record {
              pages = pages;
              active = same.active ∙ sound.active;
              allocated =
                  same.allocated
                  ∙ (sound.allocated ∙ ap (λ a. pos (length live * a)) (sym same.page));
            },
            short,
          ),
        )
        | inr (is, e, pages, size) ↦
            let m = self₁.num_active_allocations + k in
            let total = pos (m * self₁.align_bytes) in
            let count_all : m ≡ length (is ++ live) =
              ground (arith, same.active, sound.active, size, length-append is live) in
            (
              record self₁ {
                num_active_allocations = m;
                total_allocated_size = total;
                stats_usage = total;
              },
              inr (
                is,
                ground (arith, e),
                record {
                  pages = record {
                    filled = pages.filled;
                    size = pages.size;
                    buffers = pages.buffers;
                    owned = pages.owned;
                  };
                  active = count_all;
                  allocated = ap (λ l. pos (l * self₁.align_bytes)) count_all;
                },
                omega (arith, size),
              ),
            )
      ]

count_freed-queue :
    (self : PagedTensorMemoryAllocator) → (count_freed self 1).free_blocks ≡ self.free_blocks
unfolding count_freed
count_freed-queue self = refl

module _ (n : ℕ) where
  count_freed-IsSound :
      (self : PagedTensorMemoryAllocator) (is live : List ℕ)
      → HasPages n self live
      → self.num_active_allocations ≡ length (is ++ live)
      → self.total_allocated_size ≡ pos (length (is ++ live) * self.align_bytes)
      → IsSound n (count_freed self (length is)) live
  unfolding count_freed
  count_freed-IsSound self is live pages active allocated = record {
    pages = record {
      filled = pages.filled;
      size = pages.size;
      buffers = pages.buffers;
      owned = pages.owned;
    };
    active = ground (arith, active, length-append is live);
    allocated =
        rw
          (
            allocated,
            length-append is live,
            pos--ℤ ((length is + length live) * self.align_bytes) (self.align_bytes * length is)
                (omega arith),
          )
          (ap pos (ground arith));
  }

  -- In a sound state the freeing of a page that a caller has raises nothing; the page goes to the end of
  -- the queue, and the counters follow.
  pub free-IsSound :
      (self : PagedTensorMemoryAllocator) (i : ℕ) (live : List ℕ)
      → IsSound n self (i ∷ live)
      → (self' : PagedTensorMemoryAllocator) × (free self i ≡ ok self')
        × IsSound n self' live
        × (self'.free_blocks ≡ self.free_blocks ++ i ∷ [])
  unfolding free
  free-IsSound self i live sound =
      let (o, at, valid, inside) = live_object n self i live sound.pages in
      let (self₁, run, pages, same, queue) =
        push_page-HasPages n self i live o at inside sound.pages in
      (
        count_freed self₁ 1,
        rw (at, valid, free, run) refl,
        count_freed-IsSound self₁ (i ∷ []) live pages (same.active ∙ sound.active) (
            same.allocated
            ∙ (sound.allocated ∙ ap (λ a. pos (suc (length live) * a)) (sym same.page))),
        count_freed-queue self₁ ∙ queue,
      )

  -- In a sound state the freeing of a batch of pages that the callers have raises nothing; the pages go
  -- back into the queue, the counters follow and every page keeps one owner.
  pub batched_free-IsSound :
      (self : PagedTensorMemoryAllocator) (is live : List ℕ)
      → IsSound n self (is ++ live)
      → (self' : PagedTensorMemoryAllocator) × (batched_free self is true ≡ ok self')
        × IsSound n self' live
  unfolding batched_free
  batched_free-IsSound self is live sound =
      let (self₁, run, pages, same) = return_pages-HasPages n self is live sound.pages in
      (
        count_freed self₁ (length is),
        rw run refl,
        count_freed-IsSound self₁ is live pages (same.active ∙ sound.active) (
            same.allocated
            ∙ (sound.allocated ∙ ap (λ a. pos (length (is ++ live) * a)) (sym same.page))),
      )

  pub memcheck-IsSound :
      (self : PagedTensorMemoryAllocator) (live : List ℕ)
      → IsSound n self live
      → memcheck self ≡ true
  unfolding memcheck
  memcheck-IsSound self live sound =
      let free_count = length self.free_blocks in
      let all_bytes : free_count * self.align_bytes + length live * self.align_bytes
          ≡ self.buffer_size =
        ground (arith, ap (λ m. m * self.align_bytes) sound.pages.owned.total, sound.pages.size) in
      rw (sound.allocated, pos-+ℤ, all_bytes) (ground arith)

past_page : (i d align : ℕ) → i * align + align ≤ (suc i + d) * align
past_page i d align = omega arith

page_below : (i j align : ℕ) → i < j → i * align + align ≤ j * align
page_below i j align h =
    subst (λ k. i * align + align ≤ k * align) (omega arith) (past_page i (j - suc i) align)

module _ (n : ℕ) (self : PagedTensorMemoryAllocator) (live : List ℕ)
    (sound : IsSound n self live) where
  pub pages_apart :
      (i j : ℕ) (o p : TensorMemoryObj)
      → get_elem? self.objects i ≡ some o
      → get_elem? self.objects j ≡ some p
      → i ≢ j
      → (o.raw_data.offset + o.raw_data.count ≤ p.raw_data.offset)
        ⊎ (p.raw_data.offset + p.raw_data.count ≤ o.raw_data.offset)
  pages_apart i j o p ei ej ne =
      let fo = sound.pages.owned.fits i o ei in
      let fp = sound.pages.owned.fits j p ej in
      elim (Bool-cases (ltb i j)) [
        | inl below ↦
            inl (ground (arith, fo.start, fo.inside, fp.start, page_below i j self.align_bytes))
        | inr above ↦ inr (
            ground (
              arith,
              fp.start,
              fp.inside,
              fo.start,
              page_below j i self.align_bytes (ground (arith, ne, above)),
            ))
      ]

append_two : (l : List ℕ) (i : ℕ) → (l ++ i ∷ []) ++ i ∷ [] ≡ l ++ i ∷ i ∷ []
append_two [] i = refl
append_two (j ∷ l) i = ap (◌∷◌ j) (append_two l i)

-- In a sound state, a page that a caller has and frees twice is twice at the end of the queue.
free_twice :
    (n : ℕ) (self : PagedTensorMemoryAllocator) (i : ℕ) (live : List ℕ)
    → IsSound n self (i ∷ live)
    → (self' : PagedTensorMemoryAllocator) × (self'' : PagedTensorMemoryAllocator) × (free self i
        ≡ ok self')
      × (free self' i ≡ ok self'')
      × (self''.free_blocks ≡ self.free_blocks ++ i ∷ i ∷ [])
unfolding free
free_twice n self i live sound =
    let (o, at, valid, inside) = live_object n self i live sound.pages in
    let (self₁, run, sound₁, queue) = free-IsSound n self i live sound in
    let owned = sound₁.pages.owned in
    let (p, at₁) = get_elem?-inside self₁.objects i (ground (arith, owned.all_pages)) in
    let (self₂, run₂, queue₂) = push_page_again n self₁ i live p at₁ inside sound₁.pages in
    (
      self₁,
      count_freed self₂ 1,
      run,
      rw (at₁, (owned.fits i p at₁).is_valid, free, run₂) refl,
      count_freed-queue self₂
          ∙ (queue₂ ∙ (ap (λ l. l ++ i ∷ []) queue ∙ append_two self.free_blocks i)),
    )
