-- ===== src/Keys/RoundTrip.antt =====
-- Reading keys back from their texts.
use Prim.Native.Char.{code}
use Prim.Native.String.{String, ◌++◌ as concat}
use text.Mathlib.TextLemmas.{nil-append, cons-append, append_assoc, append-nil}
use mtds.Prelude.{
  ℕ, zero, suc, ◌+◌, ◌/◌, ◌%◌, ◌≤◌, ◌<◌, ◌≡◌, refl, sym, ◌∙◌, ap, Bool, true, false, List, [], ◌∷◌,
  ◌==◌, leb, ◌&&◌, Bool-cases, inl, inr, arith, ok, All, if_false,
}
use mtds.Keys.{CacheEngineKey}
use mtds.Keys.Text.{
  is_at, digit, digits, str, read_digits, int, split, behind, to_string, from_string, key_of_parts,
  layer_to_string, layer_from_string, layer_key_of_parts,
}

-- No separator.
abbrev pub IsPlain : String → Type 0
IsPlain String.[] = Unit
IsPlain (String.◌∷◌ c s) = (is_at c ≡ false) × IsPlain s

pub code-digit : (d : ℕ) → d < 10 → code (digit d) ≡ b'0' + d
code-digit zero h = refl
code-digit (suc zero) h = refl
code-digit (suc (suc zero)) h = refl
code-digit (suc (suc (suc zero))) h = refl
code-digit (suc (suc (suc (suc zero)))) h = refl
code-digit (suc (suc (suc (suc (suc zero))))) h = refl
code-digit (suc (suc (suc (suc (suc (suc zero)))))) h = refl
code-digit (suc (suc (suc (suc (suc (suc (suc zero))))))) h = refl
code-digit (suc (suc (suc (suc (suc (suc (suc (suc zero)))))))) h = refl
code-digit (suc (suc (suc (suc (suc (suc (suc (suc (suc zero))))))))) h = refl
code-digit (suc (suc (suc (suc (suc (suc (suc (suc (suc (suc n)))))))))) h = absurd (omega arith)

split-plain :
    (p rest cur : String) → IsPlain p → split (concat p rest) cur ≡ split rest (concat cur p)
unfolding split
split-plain String.[] rest cur plain = rw (nil-append, append-nil) refl
split-plain (String.◌∷◌ c p) rest cur (other, plain) =
    let one = String.◌∷◌ c "" in
    let joined : concat (concat cur one) p ≡ concat cur (String.◌∷◌ c p) =
      append_assoc cur one p
      ∙ ap (concat cur) (cons-append c "" p ∙ ap (String.◌∷◌ c) (nil-append p)) in
    ap (λ s. split s cur) (cons-append c p rest)
    ∙ rw (other, split) (split-plain p rest (concat cur one) plain ∙ ap (split rest) joined)

split-behind : (p rest : String) → IsPlain p → split (behind p rest) "" ≡ p ∷ split rest ""
unfolding split
split-behind p rest plain =
    split-plain p (String.◌∷◌ "@" rest) "" plain ∙ ap (λ q. q ∷ split rest "") (nil-append p)

split_last : (p : String) → IsPlain p → split p "" ≡ p ∷ []
unfolding split
split_last p plain =
    ap (λ s. split s "") (sym (append-nil p))
    ∙ (split-plain p "" "" plain ∙ ap (λ q. q ∷ []) (nil-append p))

-- The last digit behind the digits before it.
read_digit :
    (n : ℕ) (out : String)
    → read_digits (String.◌∷◌ (digit (n % 10)) out) (n / 10) ≡ read_digits out n
unfolding read_digits
read_digit n out =
    let e = code-digit (n % 10) (omega arith) in
    let is_digit : (leb b'0' (code (digit (n % 10))) && leb (code (digit (n % 10))) b'9') ≡ true =
      ground (arith, e) in
    rw is_digit (ap (read_digits out) (omega (arith, e)))

read_digits-digits :
    (fuel n : ℕ) (out : String) → n ≤ fuel → read_digits (digits fuel n out) 0 ≡ read_digits out n
unfolding digits read_digits
read_digits-digits zero n out h = ap (read_digits out) (omega arith)
read_digits-digits (suc fuel) n out h = elim (Bool-cases (n == 0)) [
  | inl e ↦ rw e (ap (read_digits out) (ground (arith, e)))
  | inr e ↦ rw e (
      read_digits-digits fuel (n / 10) (String.◌∷◌ (digit (n % 10)) out) (ground (arith, e))
      ∙ read_digit n out)
]

digits-IsPlain : (fuel n : ℕ) (out : String) → IsPlain out → IsPlain (digits fuel n out)
unfolding digits
digits-IsPlain zero n out plain = plain
digits-IsPlain (suc fuel) n out plain = elim (Bool-cases (n == 0)) [
  | inl e ↦ rw e plain
  | inr e ↦ rw e (
      digits-IsPlain fuel (n / 10) (String.◌∷◌ (digit (n % 10)) out)
        (ground (arith, code-digit (n % 10) (omega arith)), plain))
]

str-IsPlain : (n : ℕ) → IsPlain (str n)
unfolding str
str-IsPlain n = elim (Bool-cases (n == 0)) [
  | inl e ↦ rw e (refl, tt)
  | inr e ↦ rw e (digits-IsPlain n n "" tt)
]

abbrev is_full : String → Bool
is_full String.[] = false
is_full (String.◌∷◌ c s) = true

is_full-digits :
    (fuel n : ℕ) (out : String) → is_full out ≡ true → is_full (digits fuel n out) ≡ true
unfolding digits
is_full-digits zero n out h = h
is_full-digits (suc fuel) n out h = elim (Bool-cases (n == 0)) [
  | inl e ↦ rw e h
  | inr e ↦ rw e (is_full-digits fuel (n / 10) (String.◌∷◌ (digit (n % 10)) out) refl)
]

int_full : (s : String) → is_full s ≡ true → int s ≡ read_digits s 0
unfolding int
int_full String.[] h = absurd (ground arith)
int_full (String.◌∷◌ c s) h = refl

str-suc : (m : ℕ) → str (suc m) ≡ digits m (suc m / 10) (String.◌∷◌ (digit (suc m % 10)) "")
unfolding str digits
str-suc m = let e : (suc m == 0) ≡ false = ground arith in if_false _ e ∙ if_false _ e

-- `int(str(n))`
int-str : (n : ℕ) → int (str n) ≡ ok n
unfolding int str
int-str zero = refl
int-str (suc m) =
    let n = suc m in
    let first = String.◌∷◌ (digit (n % 10)) "" in
    ap int (str-suc m)
    ∙ (int_full (digits m (n / 10) first) (is_full-digits m (n / 10) first refl)
        ∙ (read_digits-digits m (n / 10) first (omega arith) ∙ read_digit n ""))

abbrev joined : String → List String → String
joined p [] = p
joined p (q ∷ parts) = behind p (joined q parts)

split-joined :
    (p : String) (parts : List String)
    → IsPlain p
    → All IsPlain parts
    → split (joined p parts) "" ≡ p ∷ parts
split-joined p [] plain all = split_last p plain
split-joined p (q ∷ parts) plain (plain_q, all) =
    split-behind p (joined q parts) plain ∙ ap (◌∷◌ p) (split-joined q parts plain_q all)

-- The texts of a key that its string keeps as they are.
abbrev pub IsPlainKey : CacheEngineKey → Type 0
IsPlainKey key = IsPlain key.fmt × IsPlain key.model_name × IsPlain key.chunk_hash

key_parts :
    (key : CacheEngineKey)
    → key_of_parts
        (key.fmt ∷ key.model_name ∷ str key.world_size ∷ str key.worker_id ∷ key.chunk_hash ∷ [])
      ≡ ok key
unfolding key_of_parts
key_parts key = ground (arith, int-str key.world_size, int-str key.worker_id)

layer_key_parts :
    (key : CacheEngineKey) (layer_id : ℕ)
    → layer_key_of_parts (
        key.fmt
        ∷ key.model_name
        ∷ str key.world_size
        ∷ str key.worker_id
        ∷ key.chunk_hash
        ∷ str layer_id
        ∷ [])
      ≡ ok (record { base = key; layer_id = layer_id })
unfolding layer_key_of_parts
layer_key_parts key layer_id = ground (arith, key_parts key, int-str layer_id)

-- A key without separators in its texts is read back from its string, and so is the key of a layer.
pub from_string-to_string :
    (key : CacheEngineKey) (layer_id : ℕ)
    → IsPlainKey key
    → (from_string (to_string key) ≡ ok key)
      × (layer_from_string (layer_to_string (record { base = key; layer_id = layer_id }))
          ≡ ok (record { base = key; layer_id = layer_id }))
unfolding from_string to_string layer_from_string layer_to_string
from_string-to_string key layer_id (plain_fmt, plain_model, plain_hash) =
    let w = str key.world_size in
    let i = str key.worker_id in
    let h = key.chunk_hash in
    let l = str layer_id in
    let ws = str-IsPlain key.world_size in
    let is = str-IsPlain key.worker_id in
    let parts =
      split-joined key.fmt (key.model_name ∷ w ∷ i ∷ h ∷ []) plain_fmt
        (plain_model, (ws, (is, (plain_hash, tt)))) in
    let layer_parts =
      split-joined key.fmt (key.model_name ∷ w ∷ i ∷ h ∷ l ∷ []) plain_fmt
        (plain_model, (ws, (is, (plain_hash, (str-IsPlain layer_id, tt))))) in
    (
      ap key_of_parts parts ∙ key_parts key,
      ap layer_key_of_parts layer_parts ∙ layer_key_parts key layer_id,
    )
