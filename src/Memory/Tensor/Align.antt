-- ===== src/Memory/Tensor/Align.antt =====
-- The rounding of `_Compute_aligned_size`, which the code does with a bit mask.
use Prim.Native.Nat.{bit_and, min, digits, bit_and-bitwise}
use native.Mathlib.Nat.{pow-suc, div-add-mod, mul-mod_right}
use mtds.Prelude.{
  ℕ, zero, suc, ◌+◌, ◌-◌, ◌*◌, ◌/◌, ◌%◌, ◌^◌, ◌≤◌, ◌<◌, ◌≡◌, refl, ok, arith, ◌==◌, Bool-cases, inl,
  inr,
}
use mtds.Memory.Tensor.{compute_aligned_size, aligned}

-- The digits of `bit_and`, with as many rounds as one likes.
abbrev masked : ℕ → ℕ → ℕ → ℕ
masked n a m = digits (λ b. zero) min n a m

masked_rounds : (n k a m : ℕ) → a ≤ n → a ≤ k → masked n a m ≡ masked k a m
masked_rounds zero zero a m p q = refl
masked_rounds zero (suc k) zero m p q = refl
masked_rounds zero (suc k) (suc a) m p q = absurd (omega arith)
masked_rounds (suc n) zero zero m p q = refl
masked_rounds (suc n) zero (suc a) m p q = absurd (omega arith)
masked_rounds (suc n) (suc k) zero m p q = refl
masked_rounds (suc n) (suc k) (suc a) m p q =
    omega (arith, masked_rounds n k (suc a / 2) (m / 2) (omega arith) (omega arith))

bit_and_zero_left : (m : ℕ) → bit_and 0 m ≡ 0
bit_and_zero_left m = bit_and-bitwise 0 m

bit_and_halves : (a m : ℕ) → bit_and a m ≡ bit_and (a / 2) (m / 2) * 2 + min (a % 2) (m % 2)
bit_and_halves zero m = omega (arith, bit_and_zero_left m, bit_and_zero_left (m / 2))
bit_and_halves (suc a) m = omega (
  arith,
  bit_and-bitwise (suc a) m,
  bit_and-bitwise (suc a / 2) (m / 2),
  masked_rounds a (suc a / 2) (suc a / 2) (m / 2) (omega arith) (omega arith),
)

pow_positive : (k : ℕ) → 0 < 2 ^ k
pow_positive zero = omega arith
pow_positive (suc k) = rw pow-suc (omega (arith, pow_positive k))

double_mod : (a p : ℕ) → 0 < p → a % (p * 2) ≡ a / 2 % p * 2 + a % 2
double_mod a p h = grind arith

bit_and_zero_rounds : (n a : ℕ) → a ≤ n → bit_and a 0 ≡ 0
bit_and_zero_rounds n zero h = refl
bit_and_zero_rounds zero (suc a) h = absurd (omega arith)
bit_and_zero_rounds (suc n) (suc a) h =
    omega (arith, bit_and_halves (suc a) 0, bit_and_zero_rounds n (suc a / 2) (omega arith))

-- A mask of `k` ones keeps the rest of the division by 2 ^ k.
pub bit_and_mask : (k a : ℕ) → bit_and a (2 ^ k - 1) ≡ a % 2 ^ k
bit_and_mask zero a = omega (arith, bit_and_zero_rounds a a (omega arith))
bit_and_mask (suc k) a =
    let half : (2 ^ suc k - 1) / 2 ≡ 2 ^ k - 1 = rw pow-suc (omega (arith, pow_positive k)) in
    let odd : (2 ^ suc k - 1) % 2 ≡ 1 = rw pow-suc (omega (arith, pow_positive k)) in
    let step : bit_and (a / 2) ((2 ^ suc k - 1) / 2) ≡ a / 2 % 2 ^ k =
      rw half (bit_and_mask k (a / 2)) in
    rw (bit_and_halves a (2 ^ suc k - 1), step, odd)
      (rw pow-suc (omega (arith, double_mod a (2 ^ k) (pow_positive k))))

-- `r` is the least multiple of `p` that is not below `n`.
pub record IsRoundedUp (n p r : ℕ) : Type 0 where
  pub enough : n ≤ r
  pub least : r < n + p
  pub multiple : r % p ≡ 0

round_up : (n p r : ℕ) → 0 < p → r ≡ (n + p - 1) - (n + p - 1) % p → IsRoundedUp n p r
round_up n p r pos e = record {
  enough = grind arith;
  least = grind arith;
  multiple =
      let whole : r ≡ p * ((n + p - 1) / p) = omega (arith, e, div-add-mod (n + p - 1) p) in
      rw whole (mul-mod_right p ((n + p - 1) / p));
}

-- The mask rounds up to the alignment, which is a power of two.
pub compute_aligned_size-IsRoundedUp :
    (n k : ℕ) → IsRoundedUp n (2 ^ k) (compute_aligned_size n (2 ^ k))
unfolding compute_aligned_size
compute_aligned_size-IsRoundedUp n k =
    round_up n (2 ^ k) (compute_aligned_size n (2 ^ k)) (pow_positive k)
      (rw (bit_and_mask k (n + 2 ^ k - 1)))

-- Sizes that need no rounding are left alone, and the others are rounded up: either way the size
-- that is allocated is the least multiple of the alignment that holds the object.
pub aligned-IsRoundedUp : (n k : ℕ) → (r : ℕ) × (aligned n (2 ^ k) ≡ ok r) × IsRoundedUp n (2 ^ k) r
unfolding aligned
aligned-IsRoundedUp n k = elim (Bool-cases (n % 2 ^ k == 0)) [
  | inl exact ↦ (
    n,
    ground (arith, pow_positive k),
    record { enough = omega arith; least = omega (arith, pow_positive k); multiple = ground arith },
  )
  | inr over ↦ (
    compute_aligned_size n (2 ^ k),
    ground (arith, pow_positive k),
    compute_aligned_size-IsRoundedUp n k,
  )
]
