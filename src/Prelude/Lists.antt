-- ===== src/Prelude/Lists.antt =====
-- Lists measured and indexed by native numbers, and a predicate on all items of a list.
use Prim.Native.Nat.{ℕ, zero, suc, ◌+◌, ◌<◌}
use mathlib.Core.Path.{◌≡◌, refl, ap, subst}
use mathlib.Core.List.{List, [], ◌∷◌, ◌++◌}
use mathlib.Core.Logic.{◌⊎◌, inl, inr}
use mathlib.Core.Option.{Option, none, some}
use mathlib.Core.Bool.{false}
use native.Mathlib.Omega.{arith}
use mtds.Prelude.Tests.{◌==◌}

module _ {ℓ} {A : Type ℓ} where
  abbrev pub length : List A → ℕ
  length [] = 0
  length (x ∷ xs) = suc (length xs)

  abbrev pub get_elem? : List A → ℕ → Option A
  get_elem? [] i = none
  get_elem? (x ∷ xs) zero = some x
  get_elem? (x ∷ xs) (suc i) = get_elem? xs i

  -- A write out of bounds changes nothing.
  abbrev pub set : List A → ℕ → A → List A
  set [] i v = []
  set (x ∷ xs) zero v = v ∷ xs
  set (x ∷ xs) (suc i) v = x ∷ set xs i v

  abbrev pub take : ℕ → List A → List A
  take zero xs = []
  take (suc n) [] = []
  take (suc n) (x ∷ xs) = x ∷ take n xs

  abbrev pub drop : ℕ → List A → List A
  drop zero xs = xs
  drop (suc n) [] = []
  drop (suc n) (x ∷ xs) = drop n xs

  abbrev pub All {κ} : (A → Type κ) → List A → Type κ
  All P [] = Unit
  All P (x ∷ xs) = P x × All P xs

module _ {ℓ} {A : Type ℓ} where
  pub length-append : (xs ys : List A) → length (xs ++ ys) ≡ length xs + length ys
  length-append [] ys = omega arith
  length-append (x ∷ xs) ys = omega (arith, length-append xs ys)

  pub get_elem?-append :
      (xs : List A) (y : A) (ys : List A) → get_elem? (xs ++ y ∷ ys) (length xs) ≡ some y
  get_elem?-append [] y ys = refl
  get_elem?-append (x ∷ xs) y ys = get_elem?-append xs y ys

  pub set-append :
      (xs : List A) (y z : A) (ys : List A) → set (xs ++ y ∷ ys) (length xs) z ≡ xs ++ z ∷ ys
  set-append [] y z ys = refl
  set-append (x ∷ xs) y z ys = ap (◌∷◌ x) (set-append xs y z ys)

  pub All-append {κ} : (P : A → Type κ) (xs ys : List A) → All P xs → All P ys → All P (xs ++ ys)
  All-append P [] ys hx hy = hy
  All-append P (x ∷ xs) ys hx hy = (hx.0, All-append P xs ys hx.1 hy)

  pub get_elem?-append_suc :
      (xs : List A) (y : A) (ys : List A)
      → get_elem? (xs ++ y ∷ ys) (suc (length xs)) ≡ get_elem? ys 0
  get_elem?-append_suc [] y ys = refl
  get_elem?-append_suc (x ∷ xs) y ys = get_elem?-append_suc xs y ys

  pub set-get_elem? : (xs : List A) (i : ℕ) (x : A) → get_elem? xs i ≡ some x → set xs i x ≡ xs
  set-get_elem? [] i x e = refl
  set-get_elem? (y ∷ ys) zero x e = ground arith
  set-get_elem? (y ∷ ys) (suc i) x e = ap (◌∷◌ y) (set-get_elem? ys i x e)

module _ {ℓ} {A : Type ℓ} where
  pub length-set : (xs : List A) (i : ℕ) (x : A) → length (set xs i x) ≡ length xs
  length-set [] i x = refl
  length-set (y ∷ ys) zero x = refl
  length-set (y ∷ ys) (suc i) x = ap suc (length-set ys i x)

  -- A write is read back where there was something.
  pub get_elem?-set :
      (xs : List A) (i : ℕ) (x y : A) → get_elem? xs i ≡ some y → get_elem? (set xs i x) i ≡ some x
  get_elem?-set [] i x y e = absurd (ground arith)
  get_elem?-set (z ∷ zs) zero x y e = refl
  get_elem?-set (z ∷ zs) (suc i) x y e = get_elem?-set zs i x y e

  pub get_elem?-set_other :
      (xs : List A) (i j : ℕ) (x : A) → (j == i) ≡ false → get_elem? (set xs i x) j ≡ get_elem? xs j
  get_elem?-set_other [] i j x other = refl
  get_elem?-set_other (z ∷ zs) zero zero x other = absurd (ground arith)
  get_elem?-set_other (z ∷ zs) zero (suc j) x other = refl
  get_elem?-set_other (z ∷ zs) (suc i) zero x other = refl
  get_elem?-set_other (z ∷ zs) (suc i) (suc j) x other = get_elem?-set_other zs i j x (ground arith)

  pub get_elem?-before :
      (xs ys : List A) (i : ℕ) (x : A) → get_elem? xs i ≡ some x → get_elem? (xs ++ ys) i ≡ some x
  get_elem?-before [] ys i x e = absurd (ground arith)
  get_elem?-before (z ∷ zs) ys zero x e = e
  get_elem?-before (z ∷ zs) ys (suc i) x e = get_elem?-before zs ys i x e

  pub get_elem?-bound : (xs : List A) (i : ℕ) (x : A) → get_elem? xs i ≡ some x → i < length xs
  get_elem?-bound [] i x e = absurd (ground arith)
  get_elem?-bound (z ∷ zs) zero x e = omega arith
  get_elem?-bound (z ∷ zs) (suc i) x e = omega (arith, get_elem?-bound zs i x e)

  pub All-set {κ} :
      (P : A → Type κ) (xs : List A) (i : ℕ) (x : A) → P x → All P xs → All P (set xs i x)
  All-set P [] i x p all = all
  All-set P (y ∷ ys) zero x p all = (p, all.1)
  All-set P (y ∷ ys) (suc i) x p all = (all.0, All-set P ys i x p all.1)

  pub All-get {κ} :
      (P : A → Type κ) (xs : List A) (i : ℕ) (x : A) → get_elem? xs i ≡ some x → All P xs → P x
  All-get P [] i x e all = absurd (ground arith)
  All-get P (y ∷ ys) zero x e all = subst P (ground arith) all.0
  All-get P (y ∷ ys) (suc i) x e all = All-get P ys i x e all.1

pub List-cases {ℓ} : {A : Type ℓ} (l : List A) → (l ≡ []) ⊎ ((x : A) × (xs : List A) × (l ≡ x ∷ xs))
List-cases [] = inl refl
List-cases (x ∷ xs) = inr (x, xs, refl)
