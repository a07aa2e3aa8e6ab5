-- ===== src/Memory/FreeList/Refine.antt =====
-- The search by `bisect_right`, the changes in place and the calls of the sorted list come to the
-- plain insertion of Attach.
use mathlib.Core.List.{append_assoc}
use mtds.Prelude.{
  ℕ, suc, ◌+◌, ◌-◌, ◌≤◌, ◌<◌, ◌≡◌, ap, ◌∙◌, List, [], ◌∷◌, ◌++◌, length, All, length-append,
  get_elem?-append, get_elem?-append_suc, set-append, arith, ok, true,
}
use mtds.Memory.SortedList.{FreeBlock, can_be_coalesced, SortedKeyList, Ascending}
use mtds.Memory.FreeList.{remove, add_free_block}
use mtds.Memory.FreeList.Chain.{stop, Chain, Chain-Ascending, Ascending-weaken}
use mtds.Memory.FreeList.Place.{After, Place, at_front, behind}
use mtds.Memory.FreeList.Attach.{attach, join, placed}

starts_greater :
    (b : FreeBlock) (n : ℕ) (l : List FreeBlock)
    → Ascending n l
    → b.start < n
    → All (λ y. b.start < y.start) l
starts_greater b n [] asc h = tt
starts_greater b n (y ∷ ys) asc h =
    (omega arith, starts_greater b (suc y.start) ys asc.1 (omega arith))

starts_right :
    (b : FreeBlock) (n : ℕ) (l : List FreeBlock)
    → Ascending n l
    → 0 < b.size
    → After b l
    → All (λ y. b.start < y.start) l
starts_right b n [] asc pos after = tt
starts_right b n (y ∷ ys) asc pos after =
    (omega arith, starts_greater b (suc y.start) ys asc.1 (omega arith))

Ascending-le :
    (p : FreeBlock) (n : ℕ) (xs ys : List FreeBlock) → Ascending n (xs ++ p ∷ ys) → n ≤ p.start
Ascending-le p n [] ys asc = asc.0
Ascending-le p n (x ∷ xs) ys asc = omega (arith, Ascending-le p (suc x.start) xs ys asc.1)

starts_left :
    (b p : FreeBlock) (n : ℕ) (xs ys : List FreeBlock)
    → Ascending n (xs ++ p ∷ ys)
    → p.start ≤ b.start
    → All (λ x. x.start ≤ b.start) (xs ++ p ∷ [])
starts_left b p n [] ys asc h = (h, tt)
starts_left b p n (x ∷ xs) ys asc h = (
  omega (arith, Ascending-le p (suc x.start) xs ys asc.1),
  starts_left b p (suc x.start) xs ys asc.1 h,
)

-- A suffix ascends from some key on.
Ascending-suffix :
    (xs zs : List FreeBlock) (n : ℕ) → Ascending n (xs ++ zs) → (k : ℕ) × Ascending k zs
Ascending-suffix [] zs n asc = (n, asc)
Ascending-suffix (x ∷ xs) zs n asc = Ascending-suffix xs zs (suc x.start) asc.1

Ascending-replace :
    (xs zs zs' : List FreeBlock) (lo : ℕ)
    → ((k : ℕ) → Ascending k zs → Ascending k zs')
    → Ascending lo (xs ++ zs)
    → Ascending lo (xs ++ zs')
Ascending-replace [] zs zs' lo f c = f lo c
Ascending-replace (x ∷ xs) zs zs' lo f c = (c.0, Ascending-replace xs zs zs' (suc x.start) f c.1)

module _ (sl : SortedKeyList) (b : FreeBlock) (hi : ℕ) (pos : 0 < b.size) where
  bisect_front : (l : List FreeBlock) → Chain 0 l hi → After b l → sl.bisect_right b l ≡ 0
  bisect_front l c after =
      let asc = Chain-Ascending l 0 hi c in
      sl.bisect_right_lem [] l b asc tt (starts_right b 0 l asc pos after)

  remove_member :
      (xs ys : List FreeBlock) (s : FreeBlock)
      → Ascending 0 (xs ++ s ∷ ys)
      → remove sl s (xs ++ s ∷ ys) ≡ ok (xs ++ ys)
  unfolding remove
  remove_member xs ys s asc = ground (arith, sl.remove_lem xs ys s asc)

  -- The block that a freed block and its successor `s` make.
  abbrev merged : FreeBlock → FreeBlock
  merged s = record { start = b.start; size = b.size + s.size }

  merged_lem :
      (s : FreeBlock)
      → can_be_coalesced b s ≡ true
      → record { start = s.start - b.size; size = s.size + b.size } ≡ merged s
  unfolding can_be_coalesced
  merged_lem s touch = ground arith

  Ascending-lower :
      (k : ℕ) (z s : FreeBlock) (ys : List FreeBlock)
      → k ≤ z.start
      → z.start ≤ s.start
      → Ascending k (s ∷ ys)
      → Ascending k (z ∷ ys)
  Ascending-lower k z s ys h le asc = (h, Ascending-weaken ys _ _ (omega arith) asc.1)

  add-front :
      (l : List FreeBlock) → Chain 0 l hi → After b l → add_free_block sl l b ≡ ok (attach b l)
  unfolding add_free_block attach
  add-front [] c after = rw (bisect_front [] c after) (ap ok (sl.add_lem [] [] b (omega arith, tt)))
  add-front (s ∷ ys) c after =
      let asc = Chain-Ascending (s ∷ ys) 0 hi c in
      rw (bisect_front (s ∷ ys) c after) (
        ground (
          arith,
          remove_member [] ys s asc,
          merged_lem s,
          sl.add_lem [] ys (merged s)
              (Ascending-lower 0 (merged s) s ys (omega arith) (omega arith) asc),
          sl.add_lem [] (s ∷ ys) b (omega arith, (omega arith, asc.1)),
        ))

  bisect_behind :
      (xs : List FreeBlock) (p : FreeBlock) (ys : List FreeBlock)
      → Ascending 0 (xs ++ p ∷ ys)
      → stop p ≤ b.start
      → After b ys
      → sl.bisect_right b (xs ++ p ∷ ys) ≡ suc (length xs)
  bisect_behind xs p ys asc before after =
      let whole : (xs ++ p ∷ []) ++ ys ≡ xs ++ p ∷ ys = append_assoc xs (p ∷ []) ys in
      rw (← whole) (
        sl.bisect_right_lem (xs ++ p ∷ []) ys b (rw whole asc)
          (starts_left b p 0 xs ys asc (omega arith))
          (starts_right b (suc p.start) ys (Ascending-suffix xs (p ∷ ys) 0 asc).1.1 pos after)
        ∙ rw length-append (omega arith))

  add_member :
      (xs : List FreeBlock) (p z : FreeBlock) (ys : List FreeBlock)
      → Ascending 0 (xs ++ p ∷ z ∷ ys)
      → sl.add z (xs ++ p ∷ ys) ≡ xs ++ p ∷ z ∷ ys
  add_member xs p z ys asc =
      rw (← append_assoc xs (p ∷ []) ys, ← append_assoc xs (p ∷ []) (z ∷ ys))
        (sl.add_lem (xs ++ p ∷ []) ys z (rw append_assoc asc))

  remove_second :
      (xs : List FreeBlock) (p s : FreeBlock) (ys : List FreeBlock)
      → Ascending 0 (xs ++ p ∷ s ∷ ys)
      → remove sl s (xs ++ p ∷ s ∷ ys) ≡ ok (xs ++ p ∷ ys)
  remove_second xs p s ys asc =
      rw (← append_assoc xs (p ∷ []) (s ∷ ys), ← append_assoc xs (p ∷ []) ys)
        (remove_member (xs ++ p ∷ []) ys s (rw append_assoc asc))

  -- The free block before `b`, with `n` bytes more.
  abbrev grown : FreeBlock → ℕ → FreeBlock
  grown p n = record p { size = p.size + n }

  module _ (xs : List FreeBlock) (p : FreeBlock) (filled : 0 < p.size)
      (before : stop p ≤ b.start) where
    add-last :
        Ascending 0 (xs ++ p ∷ []) → add_free_block sl (xs ++ p ∷ []) b ≡ ok (xs ++ join p b [])
    unfolding add_free_block join can_be_coalesced
    add-last asc = rw (bisect_behind xs p [] asc before tt) (
        ground (
          arith,
          get_elem?-append xs p [],
          get_elem?-append_suc xs p [],
          set-append xs p (grown p b.size) [],
          add_member xs p b []
              (Ascending-replace xs (p ∷ []) (p ∷ b ∷ []) 0 (λ k c. (c.0, (omega arith, tt))) asc),
        ))

    module _ (s : FreeBlock) (ys : List FreeBlock) (after : stop b ≤ s.start) where
      Ascending-merged : (k : ℕ) → Ascending k (p ∷ s ∷ ys) → Ascending k (p ∷ merged s ∷ ys)
      Ascending-merged k c =
          (c.0, Ascending-lower (suc p.start) (merged s) s ys (omega arith) (omega arith) c.1)

      Ascending-between : (k : ℕ) → Ascending k (p ∷ s ∷ ys) → Ascending k (p ∷ b ∷ s ∷ ys)
      Ascending-between k c = (c.0, (omega arith, (omega arith, c.1.1)))

      add-between :
          Ascending 0 (xs ++ p ∷ s ∷ ys)
          → add_free_block sl (xs ++ p ∷ s ∷ ys) b ≡ ok (xs ++ join p b (s ∷ ys))
      unfolding add_free_block join attach can_be_coalesced
      add-between asc =
          let both = grown p (b.size + s.size) in
          let from = Ascending-replace xs (p ∷ s ∷ ys) in
          rw (bisect_behind xs p (s ∷ ys) asc before after) (
            ground (
              arith,
              get_elem?-append xs p (s ∷ ys),
              get_elem?-append_suc xs p (s ∷ ys),
              set-append xs p (grown p b.size) (s ∷ ys),
              set-append xs p both (s ∷ ys),
              remove_second xs both s ys (from (both ∷ s ∷ ys) 0 (λ k c. c) asc),
              remove_second xs p s ys asc,
              merged_lem s,
              add_member xs p (merged s) ys (from (p ∷ merged s ∷ ys) 0 Ascending-merged asc),
              add_member xs p b (s ∷ ys) (from (p ∷ b ∷ s ∷ ys) 0 Ascending-between asc),
            ))

Chain-filled :
    (xs : List FreeBlock) (p : FreeBlock) (ys : List FreeBlock) (lo hi : ℕ)
    → Chain lo (xs ++ p ∷ ys) hi
    → 0 < p.size
Chain-filled [] p ys lo hi c = c.1
Chain-filled (x ∷ xs) p ys lo hi c = Chain-filled xs p ys (suc (stop x)) hi c.2

-- Where the freed block is not empty and has its place among the free blocks, what `free` does to the
-- list is the plain insertion.
pub add_free_block-placed :
    (sl : SortedKeyList) (b : FreeBlock) (l : List FreeBlock) (hi : ℕ) (w : Place b l)
    → 0 < b.size
    → Chain 0 l hi
    → add_free_block sl l b ≡ ok (placed b l w)
unfolding placed
add_free_block-placed sl b l hi (at_front after) pos c = add-front sl b hi pos l c after
add_free_block-placed sl b l hi (behind xs p [] e before after) pos c =
    let c' = rw e at c in
    rw e (
      add-last sl b hi pos xs p (Chain-filled xs p [] 0 hi c') before
        (Chain-Ascending (xs ++ p ∷ []) 0 hi c'))
add_free_block-placed sl b l hi (behind xs p (s ∷ ys) e before after) pos c =
    let c' = rw e at c in
    rw e (
      add-between sl b hi pos xs p (Chain-filled xs p (s ∷ ys) 0 hi c') before s ys after
        (Chain-Ascending (xs ++ p ∷ s ∷ ys) 0 hi c'))
