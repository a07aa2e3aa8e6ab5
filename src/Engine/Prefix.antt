-- ===== src/Engine/Prefix.antt =====
-- The prefix of the tokens whose chunks are stored, and the masks of prefixes.
use mtds.Prelude.{
  ℕ, zero, suc, ◌*◌, ◌≤◌, ◌≡◌, refl, ap, Bool, true, false, List, [], ◌∷◌, ltb, if◌then◌else◌,
  arith, All, Bool-cases, inl, inr,
}
use Prim.Native.String.{String}
use mtds.Keys.{CacheEngineKey}
use mtds.Tokens.{ChunkedTokenDatabase, Chunk, KeyOrHash, key, hash}
use mtds.Tokens.Listed.{CanName, name_of, listed}
use mtds.Engine.{mark, zeros}

-- The first `n` tokens.
abbrev pub prefix_mask : ℕ → List ℕ → List Bool
prefix_mask n tokens = mark 0 n (zeros tokens)

abbrev pub is_stored : (CacheEngineKey → Bool) → KeyOrHash → Bool
is_stored has (key k) = has k
is_stored has (hash h) = false

-- Where the stored chunks stop: the start of the first one that is not stored, or the end.
abbrev pub stored_end : (CacheEngineKey → Bool) → ℕ → List Chunk → ℕ
stored_end has stop [] = stop
stored_end has stop (c ∷ chunks) =
    let rest = stored_end has c.end_idx chunks in if is_stored has c.name then rest else c.start_idx

abbrev pub IsKeyed : Chunk → Type 0
IsKeyed c = (k : CacheEngineKey) × (c.name ≡ key k)

pub listed-IsKeyed :
    (db : ChunkedTokenDatabase) (c : CanName db true) (size total falses i : ℕ) (hs : List String)
    → All IsKeyed (listed (name_of db true c) size total falses i hs)
unfolding listed name_of
listed-IsKeyed db c size total falses i [] = tt
listed-IsKeyed db c size total falses i (h ∷ hs) = elim (Bool-cases (ltb (i * size) falses)) [
  | inl masked ↦ rw masked (listed-IsKeyed db c size total falses (suc i) hs)
  | inr past ↦ rw past ((_, refl), listed-IsKeyed db c size total falses (suc i) hs)
]

-- Marking on from where a prefix stops gives the longer prefix.
pub mark-mark : (a b : ℕ) (mask : List Bool) → a ≤ b → mark a b (mark 0 a mask) ≡ mark 0 b mask
mark-mark a b [] h = refl
mark-mark zero zero (x ∷ mask) h = refl
mark-mark zero (suc b) (x ∷ mask) h = refl
mark-mark (suc a) zero (x ∷ mask) h = absurd (omega arith)
mark-mark (suc a) (suc b) (x ∷ mask) h = ap (◌∷◌ true) (mark-mark a b mask (omega arith))

-- The empty prefix.
pub mark_nothing : (mask : List Bool) → mark 0 0 mask ≡ mask
mark_nothing [] = refl
mark_nothing (x ∷ mask) = refl
