-- ===== src/Protocol/Text.antt =====
-- The texts that MTDS/v1/protocol.py writes: `str.encode`, `bytes.ljust`, the format "s" of `struct`,
-- `bytes.decode` and `str.strip`. The error of `decode` is a ValueError.
use Prim.Native.Nat.{Ordering, compare}
use Prim.Native.Char.{Char, char, code, IsLt, IsScalar}
use Prim.Native.String.{String}
use mtds.Prelude.{
  ℕ, zero, suc, ◌+◌, ◌-◌, ◌*◌, ◌/◌, ◌%◌, Bool, true, false, ◌&&◌, ◌||◌, Option, none, some, List,
  [], ◌∷◌, ◌++◌, ltb, leb, ◌==◌, if◌then◌else◌, Result, ok, raise, ensure, ◌>>=◌, ◌>>◌, value_error,
}

-- How many bytes the lead has still behind it, the number so far, and the range of the next byte.
pub record Utf8 : Type 0 where
  pub need : ℕ
  pub point : ℕ
  pub low : ℕ
  pub high : ℕ

abbrev pub wait : ℕ → ℕ → Utf8
wait need point = record { need = need; point = point; low = 128; high = 191 }

-- The clauses of the type that says that a number is that of a character.
abbrev Both : Ordering → Ordering → Type 0
Both Ordering.lt o = IsLt o
Both Ordering.eq _ = ⊥
Both Ordering.gt _ = ⊥

abbrev pub Scalar : Ordering → Ordering → Ordering → Type 0
Scalar Ordering.lt _ _ = Unit
Scalar Ordering.eq o p = Both o p
Scalar Ordering.gt o p = Both o p

abbrev pub is_lt? : (o : Ordering) → Option (IsLt o)
is_lt? Ordering.lt = some tt
is_lt? Ordering.eq = none
is_lt? Ordering.gt = none

abbrev pub is_both? : (o p : Ordering) → Option (Both o p)
is_both? Ordering.lt o = is_lt? o
is_both? Ordering.eq _ = none
is_both? Ordering.gt _ = none

abbrev pub is_scalar? : (o p q : Ordering) → Option (Scalar o p q)
is_scalar? Ordering.lt _ _ = some tt
is_scalar? Ordering.eq p q = is_both? p q
is_scalar? Ordering.gt p q = is_both? p q

abbrev pub to_char : (n : ℕ) → Option (IsScalar n) → Result Char
to_char n none = raise value_error
to_char n (some p) = ok (char n p)

-- The character of a number.
unfoldable pub char_of : ℕ → Result Char
char_of n = to_char n (is_scalar? (compare n 55296) (compare 57343 n) (compare n 1114112))

unfoldable pub encode_char : ℕ → List ℕ
encode_char n =
    if ltb n 128
    then n ∷ []
    else if ltb n 2048
    then (192 + n / 64) ∷ (128 + n % 64) ∷ []
    else if ltb n 65536
    then (224 + n / 4096) ∷ (128 + n / 64 % 64) ∷ (128 + n % 64) ∷ []
    else (240 + n / 262144) ∷ (128 + n / 4096 % 64) ∷ (128 + n / 64 % 64) ∷ (128 + n % 64) ∷ []

unfoldable pub encode : String → List ℕ
unfolding encode_char
encode String.[] = []
encode (String.◌∷◌ c s) = encode_char (code c) ++ encode s

-- The first byte of a character of two, three or four bytes.
unfoldable pub lead : ℕ → Result Utf8
lead a =
    if leb 194 a && leb a 223
    then ok (wait 1 (a - 192))
    else if a == 224
    then ok (record { need = 2; point = 0; low = 160; high = 191 })
    else if a == 237
    then ok (record { need = 2; point = 13; low = 128; high = 159 })
    else if leb 225 a && leb a 239
    then ok (wait 2 (a - 224))
    else if a == 240
    then ok (record { need = 3; point = 0; low = 144; high = 191 })
    else if leb 241 a && leb a 243
    then ok (wait 3 (a - 240))
    else if a == 244
    then ok (record { need = 3; point = 4; low = 128; high = 143 })
    else raise value_error

-- One byte: the state behind it, and the character that it ends, if it ends one.
unfoldable pub decode_byte : Utf8 → ℕ → Result (Utf8 × Option Char)
unfolding lead char_of
decode_byte self a =
    if self.need == 0
    then if ltb a 128
      then (do c ← char_of a; ok (wait 0 0, some c))
      else (do next ← lead a; ok (next, none))
    else if leb self.low a && leb a self.high
    then if self.need == 1
      then (do c ← char_of (self.point * 64 + (a - 128)); ok (wait 0 0, some c))
      else ok (wait (self.need - 1) (self.point * 64 + (a - 128)), none)
    else raise value_error

abbrev pub in_front : Option Char → String → String
in_front none s = s
in_front (some c) s = String.◌∷◌ c s

unfoldable pub decode_from : Utf8 → List ℕ → Result String
unfolding decode_byte
decode_from self [] = do ensure (self.need == 0) value_error; ok ""
decode_from self (a ∷ bytes) = do
  (next, c) ← decode_byte self a
  s ← decode_from next bytes
  ok (in_front c s)

unfoldable pub decode : List ℕ → Result String
unfolding decode_from
decode bytes = decode_from (wait 0 0) bytes

-- Spaces at the end, up to `n` bytes.
unfoldable pub ljust : ℕ → List ℕ → List ℕ
ljust zero bytes = bytes
ljust (suc n) [] = b' ' ∷ ljust n []
ljust (suc n) (a ∷ bytes) = a ∷ ljust n bytes

-- The format "<n>s": the first `n` bytes, with zeros behind them where there are fewer.
unfoldable pub pack_bytes : ℕ → List ℕ → List ℕ
pack_bytes zero bytes = []
pack_bytes (suc n) [] = 0 ∷ pack_bytes n []
pack_bytes (suc n) (a ∷ bytes) = a ∷ pack_bytes n bytes

-- `len` of a text
unfoldable pub len_text : String → ℕ
len_text String.[] = 0
len_text (String.◌∷◌ c s) = suc (len_text s)

-- `str.isspace` of one character
unfoldable pub is_space : ℕ → Bool
is_space n =
    leb 9 n && leb n 13
    || leb 28 n && leb n 32
    || n == 133
    || n == 160
    || n == 5760
    || leb 8192 n && leb n 8202
    || leb 8232 n && leb n 8233
    || n == 8239
    || n == 8287
    || n == 12288

unfoldable pub lstrip : String → String
unfolding is_space
lstrip String.[] = ""
lstrip (String.◌∷◌ c s) = let rest = lstrip s in if is_space (code c) then rest else String.◌∷◌ c s

abbrev pub is_empty : String → Bool
is_empty String.[] = true
is_empty (String.◌∷◌ c s) = false

unfoldable pub rstrip : String → String
unfolding is_space
rstrip String.[] = ""
rstrip (String.◌∷◌ c s) =
    let rest = rstrip s in if is_space (code c) && is_empty rest then "" else String.◌∷◌ c rest

unfoldable pub strip : String → String
unfolding lstrip rstrip
strip s = rstrip (lstrip s)
