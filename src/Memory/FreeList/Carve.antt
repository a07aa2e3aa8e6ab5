-- ===== src/Memory/FreeList/Carve.antt =====
-- What the free list becomes when the first bytes of its first block that is large enough are taken.
use mtds.Prelude.{
  ℕ, ◌+◌, ◌-◌, ◌≤◌, ◌<◌, ◌≡◌, ap, List, [], ◌∷◌, ◌++◌, some, none, All, ltb, if◌then◌else◌, arith,
  ok, Bool-cases, inl, inr, leb,
}
use mtds.Memory.SortedList.{FreeBlock, SortedKeyList}
use mtds.Memory.Batch.{total_size}
use mtds.Memory.FreeList.{first_fit, carve}
use mtds.Memory.FreeList.Chain.{
  Chain, inside, cover, Chain-weaken, Chain-replace, Chain-Ascending, cover-append,
  total_size-append,
}

-- What is left of a block, in front of the blocks behind it.
unfoldable pub trim : ℕ → FreeBlock → List FreeBlock → List FreeBlock
trim n b ys = if ltb n b.size then record { start = b.start + n; size = b.size - n } ∷ ys else ys

-- The block found is the first that is large enough.
pub record Found (n : ℕ) (b : FreeBlock) (l : List FreeBlock) : Type 0 where
  pub before : List FreeBlock
  pub rest : List FreeBlock
  pub parts : l ≡ before ++ b ∷ rest
  pub fits : n ≤ b.size
  pub smaller : All (λ c. c.size < n) before

pub first_fit-Found :
    (n : ℕ) (l : List FreeBlock) (b : FreeBlock) → first_fit n l ≡ some b → Found n b l
unfolding first_fit
first_fit-Found n [] b e = absurd (ground arith)
first_fit-Found n (c ∷ cs) b e = elim (Bool-cases (leb n c.size)) [
  | inl fits ↦ record {
    before = [];
    rest = cs;
    parts = ground arith;
    fits = ground arith;
    smaller = tt;
  }
  | inr small ↦
      let f = first_fit-Found n cs b (ground arith) in
      record {
        before = c ∷ f.before;
        rest = f.rest;
        parts = ap (◌∷◌ c) f.parts;
        fits = f.fits;
        smaller = (ground arith, f.smaller);
      }
]

-- No block is large enough exactly where the search finds none.
pub first_fit-none : (n : ℕ) (l : List FreeBlock) → first_fit n l ≡ none → All (λ c. c.size < n) l
unfolding first_fit
first_fit-none n [] e = tt
first_fit-none n (c ∷ cs) e = elim (Bool-cases (leb n c.size)) [
  | inl fits ↦ absurd (ground arith)
  | inr small ↦ (ground arith, first_fit-none n cs (ground arith))
]

module _ (n : ℕ) (b : FreeBlock) (fits : n ≤ b.size) where
  Chain-trim : (ys : List FreeBlock) (lo hi : ℕ) → Chain lo (b ∷ ys) hi → Chain lo (trim n b ys) hi
  unfolding trim
  Chain-trim ys lo hi c = elim (Bool-cases (ltb n b.size)) [
    | inl part ↦ rw part (omega arith, ground arith, Chain-weaken ys _ _ hi (omega arith) c.2)
    | inr whole ↦ rw whole (Chain-weaken ys _ lo hi (omega arith) c.2)
  ]

  cover-trim :
      (a : ℕ) (ys : List FreeBlock)
      → cover a (trim n b ys) + inside a (record { start = b.start; size = n }) ≡ cover a (b ∷ ys)
  unfolding trim cover
  cover-trim a ys = ground arith

  total_size-trim : (ys : List FreeBlock) → total_size (trim n b ys) + n ≡ total_size (b ∷ ys)
  unfolding trim total_size
  total_size-trim ys = ground arith

-- The free list without the first `n` bytes of the block that was found.
unfoldable pub carved : (n : ℕ) (b : FreeBlock) (l : List FreeBlock) → Found n b l → List FreeBlock
carved n b l f = f.before ++ trim n b f.rest

module _ (n : ℕ) (b : FreeBlock) (l : List FreeBlock) (f : Found n b l) where
  open f use {before, rest, parts, fits}

  pub carved-Chain : (hi : ℕ) → Chain 0 l hi → Chain 0 (carved n b l f) hi
  unfolding carved
  carved-Chain hi c =
      Chain-replace before (b ∷ rest) (trim n b rest) 0 hi (λ k d. Chain-trim n b fits rest k hi d)
        (rw parts at c)

  pub cover-carved :
      (a : ℕ)
      → cover a (carved n b l f) + inside a (record { start = b.start; size = n }) ≡ cover a l
  unfolding carved
  cover-carved a =
      rw (parts, cover-append, cover-append) (omega (arith, cover-trim n b fits a rest))

  pub total_size-carved : total_size (carved n b l f) + n ≡ total_size l
  unfolding carved
  total_size-carved =
      rw (parts, total_size-append, total_size-append)
        (omega (arith, total_size-trim n b fits rest))

  -- `remove` and `add` of the sorted list come to this.
  pub carve-carved :
      (sl : SortedKeyList) (hi : ℕ) → Chain 0 l hi → carve sl n b l ≡ ok (carved n b l f)
  unfolding carve carved trim
  carve-carved sl hi c =
      let asc = Chain-Ascending (before ++ b ∷ rest) 0 hi (rw parts at c) in
      let left : FreeBlock = record { start = b.start + n; size = b.size - n } in
      let asc' =
        Chain-Ascending (before ++ trim n b rest) 0 hi (unfold carved in carved-Chain hi c) in
      rw parts (elim (Bool-cases (ltb n b.size)) [
        | inl part ↦ ground (
          arith,
          sl.remove_lem before rest b asc,
          sl.add_lem before rest left (unfold trim in rw (part, trim) at asc'),
        )
        | inr whole ↦ ground (arith, sl.remove_lem before rest b asc)
      ])
