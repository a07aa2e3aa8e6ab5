-- ===== src/Memory/FreeList/Place.antt =====
-- Where a block that is not free lies among the blocks that are.
use mtds.Prelude.{ℕ, suc, ◌+◌, ◌≤◌, ◌<◌, ◌≡◌, refl, ap, ◌⊎◌, inl, inr, List, [], ◌∷◌, ◌++◌, arith}
use mtds.Memory.SortedList.{FreeBlock}
use mtds.Memory.FreeList.Chain.{stop, Chain, inside, cover}

abbrev pub After : FreeBlock → List FreeBlock → Type 0
After b [] = Unit
After b (y ∷ ys) = stop b ≤ y.start

pub data Place (b : FreeBlock) (l : List FreeBlock) : Type 0 where
  at_front : After b l → Place b l
  behind :
      (xs : List FreeBlock) (p : FreeBlock) (ys : List FreeBlock)
      → l ≡ xs ++ p ∷ ys
      → stop p ≤ b.start
      → After b ys
      → Place b l

-- Two blocks that share no byte lie one behind the other.
pub disjoint_order :
    (b c : FreeBlock)
    → 0 < b.size
    → 0 < c.size
    → inside b.start b + inside b.start c ≤ 1
    → inside c.start b + inside c.start c ≤ 1
    → (stop c ≤ b.start) ⊎ (stop b ≤ c.start)
disjoint_order b c hb hc h k = grind arith

-- A block that shares no byte with the free ones has its place among them.
pub locate :
    (b : FreeBlock) (l : List FreeBlock) (lo hi : ℕ)
    → Chain lo l hi
    → 0 < b.size
    → ((a : ℕ) → inside a b + cover a l ≤ 1)
    → Place b l
unfolding cover
locate b [] lo hi c pos apart = at_front tt
locate b (d ∷ ds) lo hi c pos apart =
    go (disjoint_order b d pos c.1 (omega (arith, apart b.start)) (omega (arith, apart d.start)))
      (locate b ds (suc (stop d)) hi c.2 pos (λ a. omega (arith, apart a)))
  where
    go : (stop d ≤ b.start) ⊎ (stop b ≤ d.start) → Place b ds → Place b (d ∷ ds)
    go (inr h) _ = at_front h
    go (inl h) (at_front after) = behind [] d ds refl h after
    go (inl h) (behind xs p ys e k after) = behind (d ∷ xs) p ys (ap (◌∷◌ d) e) k after
