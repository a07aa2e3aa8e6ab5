-- ===== src/Memory/FreeList/Chain.antt =====
-- The shape of the free list: blocks in order, none empty, none touching the next, and all of them
-- within the buffer; and which bytes they cover.
use mtds.Prelude.{
  ℕ, suc, ◌+◌, ◌≤◌, ◌<◌, ◌≡◌, refl, ◌&&◌, true, List, [], ◌∷◌, ◌++◌, ltb, leb, if◌then◌else◌, arith,
}
use mtds.Memory.SortedList.{FreeBlock, can_be_coalesced, Ascending}
use mtds.Memory.Batch.{total_size, separated}

abbrev pub stop : FreeBlock → ℕ
stop b = b.start + b.size

-- From `lo` on, and up to `hi`.
abbrev pub Chain : ℕ → List FreeBlock → ℕ → Type 0
Chain lo [] hi = lo ≤ suc hi
Chain lo (b ∷ bs) hi = (lo ≤ b.start) × (0 < b.size) × Chain (suc (stop b)) bs hi

-- How many of the blocks hold the byte `a`.
abbrev pub inside : ℕ → FreeBlock → ℕ
inside a b = if leb b.start a && ltb a (stop b) then 1 else 0

unfoldable pub cover : ℕ → List FreeBlock → ℕ
cover a [] = 0
cover a (b ∷ bs) = inside a b + cover a bs

pub Chain-weaken : (l : List FreeBlock) (lo lo' hi : ℕ) → lo' ≤ lo → Chain lo l hi → Chain lo' l hi
Chain-weaken [] lo lo' hi h c = omega arith
Chain-weaken (b ∷ bs) lo lo' hi h c = (omega arith, c.1, c.2)

pub Ascending-weaken :
    (l : List FreeBlock) (lo lo' : ℕ) → lo' ≤ lo → Ascending lo l → Ascending lo' l
Ascending-weaken [] lo lo' h c = tt
Ascending-weaken (b ∷ bs) lo lo' h c = (omega arith, c.1)

pub Chain-Ascending : (l : List FreeBlock) (lo hi : ℕ) → Chain lo l hi → Ascending lo l
Chain-Ascending [] lo hi c = tt
Chain-Ascending (b ∷ bs) lo hi c =
    (c.0, Ascending-weaken bs _ _ (omega arith) (Chain-Ascending bs (suc (stop b)) hi c.2))

-- What holds of every suffix may be put in the place of one.
pub Chain-replace :
    (xs zs zs' : List FreeBlock) (lo hi : ℕ)
    → ((k : ℕ) → Chain k zs hi → Chain k zs' hi)
    → Chain lo (xs ++ zs) hi
    → Chain lo (xs ++ zs') hi
Chain-replace [] zs zs' lo hi f c = f lo c
Chain-replace (x ∷ xs) zs zs' lo hi f c =
    (c.0, c.1, Chain-replace xs zs zs' (suc (stop x)) hi f c.2)

pub cover-append : (a : ℕ) (xs ys : List FreeBlock) → cover a (xs ++ ys) ≡ cover a xs + cover a ys
unfolding cover
cover-append a [] ys = omega arith
cover-append a (x ∷ xs) ys = omega (arith, cover-append a xs ys)

pub total_size-append :
    (xs ys : List FreeBlock) → total_size (xs ++ ys) ≡ total_size xs + total_size ys
unfolding total_size
total_size-append [] ys = omega arith
total_size-append (x ∷ xs) ys = omega (arith, total_size-append xs ys)

pub Chain-separated : (l : List FreeBlock) (lo hi : ℕ) → Chain lo l hi → separated l ≡ true
unfolding separated can_be_coalesced
Chain-separated [] lo hi c = refl
Chain-separated (b ∷ []) lo hi c = refl
Chain-separated (b ∷ d ∷ bs) lo hi c =
    ground (arith, Chain-separated (d ∷ bs) (suc (stop b)) hi c.2)

pub Chain-bounds : (l : List FreeBlock) (lo hi : ℕ) → Chain lo l hi → lo + total_size l ≤ suc hi
unfolding total_size
Chain-bounds [] lo hi c = omega arith
Chain-bounds (b ∷ bs) lo hi c = omega (arith, Chain-bounds bs (suc (stop b)) hi c.2)

-- Nothing is free before the chain starts.
pub cover_before : (a : ℕ) (l : List FreeBlock) (lo hi : ℕ) → Chain lo l hi → a < lo → cover a l ≡ 0
unfolding cover
cover_before a [] lo hi c h = refl
cover_before a (b ∷ bs) lo hi c h =
    ground (arith, cover_before a bs (suc (stop b)) hi c.2 (omega arith))

-- Nothing is free behind the buffer.
pub cover_behind : (a : ℕ) (l : List FreeBlock) (lo hi : ℕ) → Chain lo l hi → hi ≤ a → cover a l ≡ 0
unfolding cover
cover_behind a [] lo hi c h = refl
cover_behind a (b ∷ bs) lo hi c h =
    ground (arith, cover_behind a bs (suc (stop b)) hi c.2 h, Chain-bounds bs (suc (stop b)) hi c.2)
