-- ===== src/Protocol/Words.antt =====
-- The integers of the wire: packed and unpacked.
use mathlib.Core.List.{append-nil}
use mtds.Prelude.{
  ℕ, zero, suc, ◌+◌, ◌-◌, ◌*◌, ◌/◌, ◌%◌, ◌^◌, ◌<◌, ◌≤◌, ◌≡◌, ◌≢◌, refl, sym, ◌∙◌, ap, false, List,
  [], ◌∷◌, ◌++◌, length, ltb, ◌==◌, ok, raise, struct_error, arith, All, Bool-cases, inl, inr,
}
use mtds.Prelude.Int.{ℤ, pos, negsuc}
use mtds.Protocol.{word_bytes, pack_int, pack, int_of_word, unpack_ints, unpack}

-- The integers of 32 bits.
abbrev pub IsInt32 : ℤ → Type 0
IsInt32 (pos n) = n < 2 ^ 31
IsInt32 (negsuc n) = n < 2 ^ 31

joined :
    (u : ℕ)
    → u < 2 ^ 32
    → u % 256
        + 256 * (u / 256 % 256 + 256 * (u / 256 / 256 % 256 + 256 * (u / 256 / 256 / 256 % 256)))
      ≡ u
joined u h = omega arith

abbrev word_of : ℤ → ℕ
word_of (pos n) = n
word_of (negsuc n) = 2 ^ 32 - 1 - n

word_of_small : (z : ℤ) → IsInt32 z → word_of z < 2 ^ 32
word_of_small (pos n) h = omega (arith, h)
word_of_small (negsuc n) h = omega (arith, h)

int_of_word-word_of : (z : ℤ) → IsInt32 z → int_of_word (word_of z) ≡ z
unfolding int_of_word
int_of_word-word_of (pos n) h = ground (arith, h)
int_of_word-word_of (negsuc n) h =
    let high : ltb (2 ^ 32 - 1 - n) (2 ^ 31) ≡ false = ground (arith, h) in
    rw high (ap negsuc (omega (arith, h)))

pack_int-word_of : (z : ℤ) → IsInt32 z → pack_int z ≡ ok (word_bytes (word_of z))
unfolding pack_int
pack_int-word_of (pos n) h = ground (arith, h)
pack_int-word_of (negsuc n) h = ground (arith, h)

pub unpack_ints-pack_ahead :
    (zs : List ℤ) (tail : List ℕ)
    → All IsInt32 zs
    → (bytes : List ℕ) × (pack zs ≡ ok bytes)
      × (length bytes ≡ 4 * length zs)
      × (unpack_ints (length zs) (bytes ++ tail) ≡ ok (zs, tail))
unfolding pack unpack_ints word_bytes
unpack_ints-pack_ahead [] tail h = ([], refl, refl, refl)
unpack_ints-pack_ahead (z ∷ zs) tail (h, hs) =
    let (rest, packed, size, back) = unpack_ints-pack_ahead zs tail hs in
    let u = word_of z in
    (
      word_bytes u ++ rest,
      rw (pack_int-word_of z h, packed) refl,
      omega (arith, size),
      rw (back, joined u (word_of_small z h), int_of_word-word_of z h) refl,
    )

pub unpack_ints-pack :
    (zs : List ℤ)
    → All IsInt32 zs
    → (bytes : List ℕ) × (pack zs ≡ ok bytes)
      × (length bytes ≡ 4 * length zs)
      × (unpack_ints (length zs) bytes ≡ ok (zs, []))
unpack_ints-pack zs small =
    let (bytes, packed, size, back) = unpack_ints-pack_ahead zs [] small in
    (bytes, packed, size, ap (unpack_ints (length zs)) (sym (append-nil bytes)) ∙ back)

unpack_ints-short :
    (n : ℕ) (bytes : List ℕ) → length bytes < 4 * n → unpack_ints n bytes ≡ raise struct_error
unfolding unpack_ints
unpack_ints-short zero bytes h = absurd (omega (arith, h))
unpack_ints-short (suc n) [] h = refl
unpack_ints-short (suc n) (a ∷ []) h = refl
unpack_ints-short (suc n) (a ∷ b ∷ []) h = refl
unpack_ints-short (suc n) (a ∷ b ∷ c ∷ []) h = refl
unpack_ints-short (suc n) (a ∷ b ∷ c ∷ d ∷ bytes) h =
    rw (unpack_ints-short n bytes (omega (arith, h))) refl

unpack_ints-long :
    (n : ℕ) (bytes : List ℕ)
    → 4 * n ≤ length bytes
    → (zs : List ℤ) × (rest : List ℕ) × (unpack_ints n bytes ≡ ok (zs, rest))
      × (length rest + 4 * n ≡ length bytes)
unfolding unpack_ints
unpack_ints-long zero bytes h = ([], bytes, refl, omega arith)
unpack_ints-long (suc n) [] h = absurd (omega (arith, h))
unpack_ints-long (suc n) (a ∷ []) h = absurd (omega (arith, h))
unpack_ints-long (suc n) (a ∷ b ∷ []) h = absurd (omega (arith, h))
unpack_ints-long (suc n) (a ∷ b ∷ c ∷ []) h = absurd (omega (arith, h))
unpack_ints-long (suc n) (a ∷ b ∷ c ∷ d ∷ bytes) h =
    let (zs, rest, e, size) = unpack_ints-long n bytes (omega (arith, h)) in
    (int_of_word (a + 256 * (b + 256 * (c + 256 * d))) ∷ zs, rest, rw e refl, omega (arith, size))

-- `struct.unpack` refuses any other length.
pub unpack-refuses :
    (n : ℕ) (bytes : List ℕ) → length bytes ≢ 4 * n → unpack n bytes ≡ raise struct_error
unfolding unpack
unpack-refuses n bytes ne = elim (Bool-cases (ltb (length bytes) (4 * n))) [
  | inl short ↦ rw (unpack_ints-short n bytes (ground (arith, short))) refl
  | inr enough ↦
      let (zs, rest, e, size) = unpack_ints-long n bytes (ground (arith, enough)) in
      let more : (length rest == 0) ≡ false = ground (arith, size, ne) in rw (e, more) refl
]
