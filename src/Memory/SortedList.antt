-- ===== src/Memory/SortedList.antt =====
-- `sortedcontainers.SortedList(key=lambda x: x.start)`, which MTDS/v1/memory_management.py keeps its
-- free blocks in: a package that the source only calls, so an interface with the documented laws.
pub mod Insertion
use mtds.Prelude.{
  ℕ, suc, ◌+◌, ◌≤◌, ◌<◌, ◌≡◌, Bool, ◌==◌, Option, some, List, [], ◌∷◌, ◌++◌, length, All,
}

pub record FreeBlock : Type 0 where
  pub start : ℕ
  pub size : ℕ

unfoldable pub can_be_coalesced : FreeBlock → FreeBlock → Bool
can_be_coalesced b succ = b.start + b.size == succ.start

-- The keys grow along the list, from `lo` on.
abbrev pub Ascending : ℕ → List FreeBlock → Type 0
Ascending lo [] = Unit
Ascending lo (b ∷ bs) = (lo ≤ b.start) × Ascending (suc b.start) bs

-- `add` puts a block where the order wants it, `remove` takes out a member, and `bisect_right` is the
-- place behind the keys that are not larger. `remove` raises where there is no such member.
pub record SortedKeyList : Type 0 where
  pub add : FreeBlock → List FreeBlock → List FreeBlock
  pub remove : FreeBlock → List FreeBlock → Option (List FreeBlock)
  pub bisect_right : FreeBlock → List FreeBlock → ℕ
  pub add_lem :
      (xs ys : List FreeBlock) (b : FreeBlock)
      → Ascending 0 (xs ++ b ∷ ys)
      → add b (xs ++ ys) ≡ xs ++ b ∷ ys
  pub remove_lem :
      (xs ys : List FreeBlock) (b : FreeBlock)
      → Ascending 0 (xs ++ b ∷ ys)
      → remove b (xs ++ b ∷ ys) ≡ some (xs ++ ys)
  pub bisect_right_lem :
      (xs ys : List FreeBlock) (b : FreeBlock)
      → Ascending 0 (xs ++ ys)
      → All (λ x. x.start ≤ b.start) xs
      → All (λ y. b.start < y.start) ys
      → bisect_right b (xs ++ ys) ≡ length xs
