-- ===== src/Memory/FreeList/Attach.antt =====
-- What the free list becomes when a block goes back into it, in plain terms: the block joins the
-- neighbours that it touches.
use mtds.Prelude.{ℕ, ◌+◌, ◌≤◌, ◌<◌, ◌≡◌, refl, List, [], ◌∷◌, ◌++◌, if◌then◌else◌, arith}
use mtds.Memory.SortedList.{FreeBlock, can_be_coalesced}
use mtds.Memory.Batch.{total_size}
use mtds.Memory.FreeList.Chain.{
  stop, Chain, inside, cover, Chain-replace, cover-append, total_size-append,
}
use mtds.Memory.FreeList.Place.{After, Place, at_front, behind}

-- `b` in front of the blocks behind it.
unfoldable pub attach : FreeBlock → List FreeBlock → List FreeBlock
unfolding can_be_coalesced
attach b [] = b ∷ []
attach b (s ∷ ys) =
    if can_be_coalesced b s
    then record { start = b.start; size = b.size + s.size } ∷ ys
    else b ∷ s ∷ ys

-- `b` between the block before it and those behind it.
unfoldable pub join : FreeBlock → FreeBlock → List FreeBlock → List FreeBlock
unfolding attach
join p b ys =
    if can_be_coalesced p b
    then attach (record p { size = p.size + b.size }) ys
    else p ∷ attach b ys

unfoldable pub placed : (b : FreeBlock) (l : List FreeBlock) → Place b l → List FreeBlock
unfolding join
placed b l (at_front _) = attach b l
placed b l (behind xs p ys _ _ _) = xs ++ join p b ys

Chain-attach :
    (b : FreeBlock) (ys : List FreeBlock) (lo k hi : ℕ)
    → lo ≤ b.start
    → 0 < b.size
    → stop b ≤ hi
    → After b ys
    → Chain k ys hi
    → Chain lo (attach b ys) hi
unfolding attach
Chain-attach b [] lo k hi h pos le after c = (h, pos, omega arith)
Chain-attach b (s ∷ ys) lo k hi h pos le after c = ground arith

Chain-join :
    (p b : FreeBlock) (ys : List FreeBlock) (lo hi : ℕ)
    → stop p ≤ b.start
    → 0 < b.size
    → stop b ≤ hi
    → After b ys
    → Chain lo (p ∷ ys) hi
    → Chain lo (join p b ys) hi
unfolding join
Chain-join p b [] lo hi before pos le after c = ground arith
Chain-join p b (s ∷ ys) lo hi before pos le after c = ground arith

cover-attach :
    (a : ℕ) (b : FreeBlock) (ys : List FreeBlock) → cover a (attach b ys) ≡ inside a b + cover a ys
unfolding attach cover
cover-attach a b [] = refl
cover-attach a b (s ∷ ys) = ground arith

cover-join :
    (a : ℕ) (p b : FreeBlock) (ys : List FreeBlock)
    → cover a (join p b ys) ≡ inside a b + cover a (p ∷ ys)
unfolding join cover
cover-join a p b [] = ground arith
cover-join a p b (s ∷ ys) = ground arith

total_size-join :
    (p b : FreeBlock) (ys : List FreeBlock)
    → total_size (join p b ys) ≡ b.size + total_size (p ∷ ys)
unfolding join total_size
total_size-join p b [] = ground arith
total_size-join p b (s ∷ ys) = ground arith

pub placed-Chain :
    (b : FreeBlock) (l : List FreeBlock) (hi : ℕ) (w : Place b l)
    → 0 < b.size
    → stop b ≤ hi
    → Chain 0 l hi
    → Chain 0 (placed b l w) hi
unfolding placed
placed-Chain b l hi (at_front after) pos le c = Chain-attach b l 0 0 hi (omega arith) pos le after c
placed-Chain b l hi (behind xs p ys e before after) pos le c =
    Chain-replace xs (p ∷ ys) (join p b ys) 0 hi
      (λ k d. Chain-join p b ys k hi before pos le after d) (rw e at c)

pub cover-placed :
    (a : ℕ) (b : FreeBlock) (l : List FreeBlock) (w : Place b l)
    → cover a (placed b l w) ≡ inside a b + cover a l
unfolding placed
cover-placed a b l (at_front after) = cover-attach a b l
cover-placed a b l (behind xs p ys e before after) =
    rw (e, cover-append) (omega (arith, cover-append a xs (p ∷ ys), cover-join a p b ys))

pub total_size-placed :
    (b : FreeBlock) (l : List FreeBlock) (w : Place b l)
    → total_size (placed b l w) ≡ b.size + total_size l
unfolding placed
total_size-placed b [] (at_front after) = unfold attach total_size in refl
total_size-placed b (s ∷ ys) (at_front after) = unfold attach total_size in ground arith
total_size-placed b l (behind xs p ys e before after) = rw e (
    omega (
      arith,
      total_size-append xs (p ∷ ys),
      total_size-append xs (join p b ys),
      total_size-join p b ys,
    ))
