-- ===== src/Memory/SortedList/Insertion.antt =====
-- A list kept in order by insertion meets the laws of `SortedKeyList`, so they can hold.
use mtds.Prelude.{
  ℕ, suc, ◌≤◌, ◌<◌, ◌≡◌, refl, ◌&&◌, Bool, Option, none, some, List, [], ◌∷◌, ◌++◌, length, All,
  ltb, leb, ◌==◌, if◌then◌else◌, arith,
}
use mathlib.Core.Option
use mtds.Memory.SortedList.{FreeBlock, Ascending, SortedKeyList}

abbrev insert : FreeBlock → List FreeBlock → List FreeBlock
insert b [] = b ∷ []
insert b (x ∷ xs) = if ltb b.start x.start then b ∷ x ∷ xs else x ∷ insert b xs

abbrev same : FreeBlock → FreeBlock → Bool
same b c = b.start == c.start && b.size == c.size

abbrev take_out : FreeBlock → List FreeBlock → Option (List FreeBlock)
take_out b [] = none
take_out b (x ∷ xs) = if same b x then some xs else Option.map (◌∷◌ x) (take_out b xs)

abbrev not_behind : FreeBlock → List FreeBlock → ℕ
not_behind b [] = 0
not_behind b (x ∷ xs) = if leb x.start b.start then suc (not_behind b xs) else 0

Ascending-le :
    (b : FreeBlock) (n : ℕ) (xs ys : List FreeBlock) → Ascending n (xs ++ b ∷ ys) → n ≤ b.start
Ascending-le b n [] ys asc = asc.0
Ascending-le b n (x ∷ xs) ys asc = omega (arith, Ascending-le b (suc x.start) xs ys asc.1)

pub insert_lem :
    (n : ℕ) (xs ys : List FreeBlock) (b : FreeBlock)
    → Ascending n (xs ++ b ∷ ys)
    → insert b (xs ++ ys) ≡ xs ++ b ∷ ys
insert_lem n [] [] b asc = refl
insert_lem n [] (y ∷ ys) b asc = ground arith
insert_lem n (x ∷ xs) ys b asc =
    ground (arith, insert_lem (suc x.start) xs ys b asc.1, Ascending-le b (suc x.start) xs ys asc.1)

pub take_out_lem :
    (n : ℕ) (xs ys : List FreeBlock) (b : FreeBlock)
    → Ascending n (xs ++ b ∷ ys)
    → take_out b (xs ++ b ∷ ys) ≡ some (xs ++ ys)
take_out_lem n [] ys b asc = ground arith
take_out_lem n (x ∷ xs) ys b asc =
    ground
      (arith, take_out_lem (suc x.start) xs ys b asc.1, Ascending-le b (suc x.start) xs ys asc.1)

pub not_behind_lem :
    (xs ys : List FreeBlock) (b : FreeBlock)
    → All (λ x. x.start ≤ b.start) xs
    → All (λ y. b.start < y.start) ys
    → not_behind b (xs ++ ys) ≡ length xs
not_behind_lem [] [] b before behind = refl
not_behind_lem [] (y ∷ ys) b before behind = ground arith
not_behind_lem (x ∷ xs) ys b before behind = ground (arith, not_behind_lem xs ys b before.1 behind)

abbrev pub insertion : SortedKeyList
insertion = record {
  add = insert;
  remove = take_out;
  bisect_right = not_behind;
  add_lem = insert_lem 0;
  remove_lem = take_out_lem 0;
  bisect_right_lem = λ xs ys b asc. not_behind_lem xs ys b;
}
