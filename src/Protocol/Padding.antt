-- ===== src/Protocol/Padding.antt =====
-- Texts in the padded field of a message.
use Prim.Native.Nat.{Ordering, compare}
use Prim.Native.Char.{Char, char, code}
use Prim.Native.String.{String}
use mtds.Prelude.{
  ℕ, zero, suc, ◌≤◌, ◌≡◌, refl, sym, ◌∙◌, ap, Bool, true, false, ◌&&◌, some, List, [], ◌∷◌, length,
  leb, ok, arith,
}
use mtds.Protocol.Text.{
  wait, Scalar, is_both?, is_scalar?, to_char, char_of, encode_char, encode, decode_byte,
  decode_from, decode, ljust, pack_bytes, len_text, is_space, lstrip, rstrip, strip,
}

-- The characters of ASCII that are not blank.
abbrev pub is_visible : Char → Bool
is_visible c = leb 33 (code c) && leb (code c) 126

abbrev pub IsVisible : String → Type 0
IsVisible String.[] = Unit
IsVisible (String.◌∷◌ c s) = (is_visible c ≡ true) × IsVisible s

is_both_lem : (o p : Ordering) (s : Scalar Ordering.gt o p) → is_both? o p ≡ some s
is_both_lem Ordering.lt Ordering.lt s = refl
is_both_lem Ordering.lt Ordering.eq s = absurd s
is_both_lem Ordering.lt Ordering.gt s = absurd s
is_both_lem Ordering.eq p s = absurd s
is_both_lem Ordering.gt p s = absurd s

is_scalar_lem : (o p q : Ordering) (s : Scalar o p q) → is_scalar? o p q ≡ some s
is_scalar_lem Ordering.lt p q s = refl
is_scalar_lem Ordering.eq p q s = is_both_lem p q s
is_scalar_lem Ordering.gt p q s = is_both_lem p q s

char_of-code : (c : Char) → char_of (code c) ≡ ok c
unfolding char_of
char_of-code (char n p) =
    ap (to_char n) (is_scalar_lem (compare n 55296) (compare 57343 n) (compare n 1114112) p)

encode_char_visible : (c : Char) → is_visible c ≡ true → encode_char (code c) ≡ code c ∷ []
unfolding encode_char
encode_char_visible c h = ground (arith, h)

decode_byte_visible :
    (c : Char) → is_visible c ≡ true → decode_byte (wait 0 0) (code c) ≡ ok (wait 0 0, some c)
unfolding decode_byte
decode_byte_visible c h = ground (arith, h, char_of-code c)

-- A text with spaces at the end, up to `n` characters.
abbrev pub padded : ℕ → String → String
padded zero s = s
padded (suc n) String.[] = String.◌∷◌ " " (padded n "")
padded (suc n) (String.◌∷◌ c s) = String.◌∷◌ c (padded n s)

is_space_visible : (c : Char) → is_visible c ≡ true → is_space (code c) ≡ false
unfolding is_space
is_space_visible c h = ground (arith, h)

length-encode : (s : String) → IsVisible s → length (encode s) ≡ len_text s
unfolding encode len_text
length-encode String.[] all = refl
length-encode (String.◌∷◌ c s) (h, all) =
    rw (encode_char_visible c h) (ap suc (length-encode s all))

length-ljust : (n : ℕ) (bytes : List ℕ) → length bytes ≤ n → length (ljust n bytes) ≡ n
unfolding ljust
length-ljust zero [] h = refl
length-ljust zero (a ∷ bytes) h = absurd (omega (arith, h))
length-ljust (suc n) [] h = ap suc (length-ljust n [] (omega arith))
length-ljust (suc n) (a ∷ bytes) h = ap suc (length-ljust n bytes (omega (arith, h)))

pack_bytes_full : (bytes : List ℕ) → pack_bytes (length bytes) bytes ≡ bytes
unfolding pack_bytes
pack_bytes_full [] = refl
pack_bytes_full (a ∷ bytes) = ap (◌∷◌ a) (pack_bytes_full bytes)

decode_ascii :
    (c : Char) (bytes : List ℕ) (s : String)
    → decode_byte (wait 0 0) (code c) ≡ ok (wait 0 0, some c)
    → decode_from (wait 0 0) bytes ≡ ok s
    → decode_from (wait 0 0) (code c ∷ bytes) ≡ ok (String.◌∷◌ c s)
unfolding decode_from
decode_ascii c bytes s one rest = rw (one, rest) refl

decode_space : decode_byte (wait 0 0) b' ' ≡ ok (wait 0 0, some " ")
unfolding decode_byte char_of
decode_space = refl

decode_nothing : decode_from (wait 0 0) [] ≡ ok ""
unfolding decode_from
decode_nothing = refl

rstrip_nothing : rstrip "" ≡ ""
unfolding rstrip
rstrip_nothing = refl

decode_padded :
    (n : ℕ) (s : String)
    → IsVisible s
    → decode_from (wait 0 0) (ljust n (encode s)) ≡ ok (padded n s)
unfolding ljust encode
decode_padded zero String.[] all = decode_nothing
decode_padded (suc n) String.[] all =
    decode_ascii " " (ljust n []) (padded n "") decode_space (decode_padded n "" tt)
decode_padded zero (String.◌∷◌ c s) (h, all) =
    rw (encode_char_visible c h)
      (decode_ascii c (encode s) s (decode_byte_visible c h) (decode_padded zero s all))
decode_padded (suc n) (String.◌∷◌ c s) (h, all) = rw (encode_char_visible c h) (
    decode_ascii c (ljust n (encode s)) (padded n s) (decode_byte_visible c h)
      (decode_padded n s all))

lstrip-padded_blank : (n : ℕ) → lstrip (padded n "") ≡ ""
unfolding lstrip is_space
lstrip-padded_blank zero = refl
lstrip-padded_blank (suc n) = lstrip-padded_blank n

rstrip-padded_blank : (n : ℕ) → rstrip (padded n "") ≡ ""
unfolding rstrip is_space
rstrip-padded_blank zero = refl
rstrip-padded_blank (suc n) = rw (rstrip-padded_blank n) refl

rstrip-padded : (n : ℕ) (s : String) → IsVisible s → rstrip (padded n s) ≡ s
unfolding rstrip
rstrip-padded n String.[] all = rstrip-padded_blank n
rstrip-padded zero (String.◌∷◌ c s) (h, all) =
    rw (is_space_visible c h) (ap (String.◌∷◌ c) (rstrip-padded zero s all))
rstrip-padded (suc n) (String.◌∷◌ c s) (h, all) =
    rw (is_space_visible c h) (ap (String.◌∷◌ c) (rstrip-padded n s all))

lstrip-visible :
    (n : ℕ) (c : Char) (s : String)
    → is_visible c ≡ true
    → lstrip (padded n (String.◌∷◌ c s)) ≡ padded n (String.◌∷◌ c s)
unfolding lstrip
lstrip-visible zero c s h = rw (is_space_visible c h) refl
lstrip-visible (suc n) c s h = rw (is_space_visible c h) refl

strip-padded : (n : ℕ) (s : String) → IsVisible s → strip (padded n s) ≡ s
unfolding strip
strip-padded n String.[] all = rw (lstrip-padded_blank n) rstrip_nothing
strip-padded n (String.◌∷◌ c s) (h, all) =
    ap rstrip (lstrip-visible n c s h) ∙ rstrip-padded n (String.◌∷◌ c s) (h, all)

-- The bytes of a visible text that fits: their number, and what is read.
pub padding_lem :
    (n : ℕ) (s : String)
    → IsVisible s
    → len_text s ≤ n
    → (bytes : List ℕ) × (pack_bytes n (ljust n (encode s)) ≡ bytes)
      × (length bytes ≡ n)
      × (decode bytes ≡ ok (padded n s))
      × (strip (padded n s) ≡ s)
unfolding decode
padding_lem n s all h =
    let size = length-ljust n (encode s) (omega (arith, h, length-encode s all)) in
    let bytes = ljust n (encode s) in
    (
      bytes,
      ap (λ k. pack_bytes k bytes) (sym size) ∙ pack_bytes_full bytes,
      size,
      decode_padded n s all,
      strip-padded n s all,
    )
