-- ===== src/Tokens/Pieces.antt =====
-- The chunks of `_chunk_tokens` by recursion on the tokens: their number and places, and what they
-- are of a longer list.
use mtds.Prelude.{
  ℕ, zero, suc, ◌+◌, ◌-◌, ◌*◌, ◌≤◌, ◌<◌, ◌≡◌, refl, ap, List, [], ◌∷◌, ◌++◌, length, take, drop,
  ltb, if◌then◌else◌, arith,
}
use mtds.Tokens.{chunks_from}

module _ {ℓ} {A : Type ℓ} where
  drop-nil : (n : ℕ) → ◌≡◌ {A = List A} (drop n []) []
  drop-nil zero = refl
  drop-nil (suc n) = refl

  drop-drop : (n m : ℕ) (xs : List A) → drop m (drop n xs) ≡ drop (n + m) xs
  drop-drop zero m xs = let e : 0 + m ≡ m = omega arith in rw e
  drop-drop (suc n) m [] = rw (drop-nil m, drop-nil (suc n + m))
  drop-drop (suc n) m (x ∷ xs) =
      let e : suc n + m ≡ suc (n + m) = omega arith in rw e (drop-drop n m xs)

  drop-append : (n : ℕ) (xs ys : List A) → n ≤ length xs → drop n (xs ++ ys) ≡ drop n xs ++ ys
  drop-append zero xs ys h = refl
  drop-append (suc n) [] ys h = absurd (omega arith)
  drop-append (suc n) (x ∷ xs) ys h = drop-append n xs ys (omega arith)

  take-append : (n : ℕ) (xs ys : List A) → n ≤ length xs → take n (xs ++ ys) ≡ take n xs
  take-append zero xs ys h = refl
  take-append (suc n) [] ys h = absurd (omega arith)
  take-append (suc n) (x ∷ xs) ys h = ap (◌∷◌ x) (take-append n xs ys (omega arith))

  length-drop : (n : ℕ) (xs : List A) → length (drop n xs) ≡ length xs - n
  length-drop zero xs = omega arith
  length-drop (suc n) [] = omega arith
  length-drop (suc n) (x ∷ xs) = omega (arith, length-drop n xs)

unfoldable pub pieces : ℕ → ℕ → ℕ → List ℕ → List (List ℕ)
pieces zero left size ts = []
pieces (suc fuel) left size ts =
    let rest = pieces fuel (left - size) size (drop size ts) in
    if ltb 0 left then take size ts ∷ rest else []

pub chunks_from-pieces :
    (fuel i stop size : ℕ) (ts : List ℕ)
    → chunks_from fuel i stop size ts ≡ pieces fuel (stop - i) size (drop i ts)
unfolding chunks_from pieces
chunks_from-pieces zero i stop size ts = refl
chunks_from-pieces (suc fuel) i stop size ts =
    let less : stop - (i + size) ≡ stop - i - size = omega arith in
    ground (arith, chunks_from-pieces fuel (i + size) stop size ts, drop-drop i size ts, less)

pub pieces_fuel :
    (f g left size : ℕ) (ts : List ℕ)
    → 0 < size
    → left ≤ f
    → left ≤ g
    → pieces f left size ts ≡ pieces g left size ts
unfolding pieces
pieces_fuel zero zero left size ts pos hf hg = refl
pieces_fuel zero (suc g) left size ts pos hf hg = ground arith
pieces_fuel (suc f) zero left size ts pos hf hg = ground arith
pieces_fuel (suc f) (suc g) left size ts pos hf hg =
    ground
      (arith, pieces_fuel f g (left - size) size (drop size ts) pos (omega arith) (omega arith))

-- Where the first list is a whole number of chunks, its chunks are the first chunks of both.
pub pieces-append :
    (k fuel m size : ℕ) (xs ys : List ℕ)
    → 0 < size
    → length xs ≡ k * size
    → length xs + m ≤ fuel
    → pieces fuel (length xs + m) size (xs ++ ys)
      ≡ pieces (length xs) (length xs) size xs ++ pieces m m size ys
unfolding pieces
pieces-append zero fuel m size [] ys pos e h =
    let none_left : 0 + m ≡ m = omega arith in
    rw none_left (pieces_fuel fuel m m size ys pos (omega arith) (omega arith))
pieces-append zero fuel m size (x ∷ xs) ys pos e h = absurd (omega arith)
pieces-append (suc k) zero m size xs ys pos e h = absurd (omega arith)
pieces-append (suc k) (suc fuel) m size [] ys pos e h = absurd (omega arith)
pieces-append (suc k) (suc fuel) m size (x ∷ xs) ys pos e h = ground (
  arith,
  take-append size zs ys fits,
  drop-append size zs ys fits,
  all,
  same,
  pieces-append k fuel m size rest ys pos (omega (arith, left)) (omega (arith, left)),
  pieces_fuel (length xs) (length rest) (length rest) size rest pos (omega (arith, left))
      (omega arith),
)
  where
    zs : List ℕ
    zs = x ∷ xs

    rest : List ℕ
    rest = drop size zs

    fits : size ≤ length zs
    fits = omega arith

    left : length rest ≡ length zs - size
    left = length-drop size zs

    all : length zs + m - size ≡ length rest + m
    all = omega (arith, left)

    same : length zs - size ≡ length rest
    same = omega (arith, left)
