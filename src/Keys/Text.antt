-- ===== src/Keys/Text.antt =====
-- MTDS/utils.py: the keys as texts. `int` is that of a text of digits: the code reads numbers that it
-- has written with `str`.
use Prim.Native.Char.{Char, code}
use Prim.Native.String.{String, ◌++◌ as concat}
use mtds.Prelude.{
  ℕ, zero, suc, ◌+◌, ◌-◌, ◌*◌, ◌/◌, ◌%◌, Bool, true, false, ◌&&◌, List, [], ◌∷◌, leb, ◌==◌,
  if◌then◌else◌, Result, ok, raise, ◌>>=◌, value_error,
}
use mtds.Keys.{CacheEngineKey, LayerCacheEngineKey}

-- The separator, and the digits.
abbrev pub is_at : Char → Bool
is_at c = code c == b'@'

abbrev pub digit : ℕ → Char
digit zero = "0"
digit (suc zero) = "1"
digit (suc (suc zero)) = "2"
digit (suc (suc (suc zero))) = "3"
digit (suc (suc (suc (suc zero)))) = "4"
digit (suc (suc (suc (suc (suc zero))))) = "5"
digit (suc (suc (suc (suc (suc (suc zero)))))) = "6"
digit (suc (suc (suc (suc (suc (suc (suc zero))))))) = "7"
digit (suc (suc (suc (suc (suc (suc (suc (suc zero)))))))) = "8"
digit _ = "9"

-- The digits of a number in front of `out`, in at most `fuel` rounds.
unfoldable pub digits : ℕ → ℕ → String → String
digits zero n out = out
digits (suc fuel) n out =
    let rest = digits fuel (n / 10) (String.◌∷◌ (digit (n % 10)) out) in
    if n == 0 then out else rest

-- `str(n)`
unfoldable pub str : ℕ → String
unfolding digits
str n = if n == 0 then "0" else digits n n ""

unfoldable pub read_digits : String → ℕ → Result ℕ
read_digits String.[] n = ok n
read_digits (String.◌∷◌ c s) n =
    let rest = read_digits s (n * 10 + (code c - b'0')) in
    if leb b'0' (code c) && leb (code c) b'9' then rest else raise value_error

-- `int(s)`
unfoldable pub int : String → Result ℕ
unfolding read_digits
int String.[] = raise value_error
int (String.◌∷◌ c s) = read_digits (String.◌∷◌ c s) 0

-- `s.split("@")`, where `cur` is the part that is being read.
unfoldable pub split : String → String → List String
split String.[] cur = cur ∷ []
split (String.◌∷◌ c s) cur = elim (is_at c) [
  | true ↦ cur ∷ split s ""
  | false ↦ split s (concat cur (String.◌∷◌ c ""))
]

abbrev pub behind : String → String → String
behind part rest = concat part (String.◌∷◌ "@" rest)

unfoldable pub to_string : CacheEngineKey → String
unfolding str
to_string self = behind self.fmt (
    behind self.model_name
      (behind (str self.world_size) (behind (str self.worker_id) self.chunk_hash)))

unfoldable pub layer_to_string : LayerCacheEngineKey → String
unfolding str
layer_to_string self = behind self.base.fmt (
    behind self.base.model_name (
      behind (str self.base.world_size)
        (behind (str self.base.worker_id) (behind self.base.chunk_hash (str self.layer_id)))))

unfoldable pub key_of_parts : List String → Result CacheEngineKey
unfolding int
key_of_parts (fmt ∷ model_name ∷ world_size ∷ worker_id ∷ chunk_hash ∷ []) = do
  world_size' ← int world_size
  worker_id' ← int worker_id
  ok (record {
    fmt = fmt;
    model_name = model_name;
    world_size = world_size';
    worker_id = worker_id';
    chunk_hash = chunk_hash;
  })
key_of_parts _ = raise value_error

unfoldable pub from_string : String → Result CacheEngineKey
unfolding split key_of_parts
from_string s = key_of_parts (split s "")

unfoldable pub layer_key_of_parts : List String → Result LayerCacheEngineKey
unfolding int key_of_parts
layer_key_of_parts (fmt ∷ model_name ∷ world_size ∷ worker_id ∷ chunk_hash ∷ layer_id ∷ []) = do
  base ← key_of_parts (fmt ∷ model_name ∷ world_size ∷ worker_id ∷ chunk_hash ∷ [])
  layer_id' ← int layer_id
  ok (record { base = base; layer_id = layer_id' })
layer_key_of_parts _ = raise value_error

unfoldable pub layer_from_string : String → Result LayerCacheEngineKey
unfolding split layer_key_of_parts
layer_from_string s = layer_key_of_parts (split s "")
