-- ===== src/Protocol/Control.antt =====
-- A client's message: written and read.
use Prim.Native.String.{String, ◌++◌ as concat}
use text.Mathlib.TextLemmas.{nil-append, cons-append}
use mtds.Prelude.{
  ℕ, zero, suc, ◌/◌, ◌%◌, ◌≤◌, ◌<◌, Bool-cases, inl, inr, ◌≡◌, refl, sym, ◌∙◌, ap, subst, true,
  List, [], ◌∷◌, ◌++◌, length, length-append, leb, ◌==◌, All, ok, arith,
}
use mtds.Prelude.Int.{ℤ, pos}
use mtds.Keys.{CacheEngineKey}
use mtds.Keys.Text.{str, digits, digit, behind, to_string, from_string}
use mtds.Keys.RoundTrip.{IsPlainKey, code-digit, from_string-to_string}
use mtds.Memory.Objects.{value}
use mtds.Protocol.{fields, pack, unpack_ints, dtype_to_int}
use mtds.Protocol.Words.{IsInt32, unpack_ints-pack_ahead}
use mtds.Protocol.Messages.{
  int_to_dtype-dtype_to_int, dtype_to_int-IsInt32, value-IsInt32, format_of-value,
}
use mtds.Protocol.Text.{encode, decode, strip, pack_bytes, ljust, len_text}
use mtds.Protocol.Padding.{is_visible, IsVisible, padded, padding_lem}
use mtds.Protocol.Client.{
  ClientMetaMessage, max_key_length, serialize_client, client_of_fields, deserialize_client,
  client_packlength,
}

digit-IsVisible : (d : ℕ) → d < 10 → is_visible (digit d) ≡ true
digit-IsVisible d h = ground (arith, code-digit d h)

digits-IsVisible : (fuel n : ℕ) (out : String) → IsVisible out → IsVisible (digits fuel n out)
unfolding digits
digits-IsVisible zero n out all = all
digits-IsVisible (suc fuel) n out all = elim (Bool-cases (n == 0)) [
  | inl e ↦ rw e all
  | inr e ↦ rw e (
      digits-IsVisible fuel (n / 10) (String.◌∷◌ (digit (n % 10)) out)
        (digit-IsVisible (n % 10) (omega arith), all))
]

str-IsVisible : (n : ℕ) → IsVisible (str n)
unfolding str
str-IsVisible n = elim (Bool-cases (n == 0)) [
  | inl e ↦ rw e (refl, tt)
  | inr e ↦ rw e (digits-IsVisible n n "" tt)
]

append-IsVisible : (s t : String) → IsVisible s → IsVisible t → IsVisible (concat s t)
append-IsVisible String.[] t hs ht = subst IsVisible (sym (nil-append t)) ht
append-IsVisible (String.◌∷◌ c s) t (h, hs) ht =
    subst IsVisible (sym (cons-append c s t)) (h, append-IsVisible s t hs ht)

behind-IsVisible :
    (part rest : String) → IsVisible part → IsVisible rest → IsVisible (behind part rest)
behind-IsVisible part rest hp hr = append-IsVisible part (String.◌∷◌ "@" rest) hp (refl, hr)

-- The texts of a key without blanks and without separators.
abbrev pub IsWireKey : CacheEngineKey → Type 0
IsWireKey key =
    IsPlainKey key × IsVisible key.fmt × IsVisible key.model_name × IsVisible key.chunk_hash

to_string-IsVisible : (key : CacheEngineKey) → IsWireKey key → IsVisible (to_string key)
unfolding to_string
to_string-IsVisible key (plain, hf, hm, hh) = behind-IsVisible key.fmt _ hf (
    behind-IsVisible key.model_name _ hm (
      behind-IsVisible (str key.world_size) _ (str-IsVisible key.world_size)
        (behind-IsVisible (str key.worker_id) _ (str-IsVisible key.worker_id) hh)))

serialize_client_lem :
    (self : ClientMetaMessage) (zs : List ℤ) (bytes : List ℕ)
    → len_text (to_string self.key) ≤ max_key_length
    → fields self.length self.fmt self.dtype self.shape ≡ ok zs
    → pack (self.command ∷ zs) ≡ ok bytes
    → serialize_client self
      ≡ ok (bytes ++ pack_bytes max_key_length (ljust max_key_length (encode (to_string self.key))))
unfolding serialize_client
serialize_client_lem self zs bytes fits e packed =
    let short : leb (len_text (to_string self.key)) max_key_length ≡ true = ground (arith, fits) in
    rw (short, e, packed) refl

deserialize_client_lem :
    (bytes key : List ℕ) (zs : List ℤ)
    → unpack_ints 8 bytes ≡ ok (zs, key)
    → length key ≡ max_key_length
    → deserialize_client bytes ≡ client_of_fields zs key
unfolding deserialize_client
deserialize_client_lem bytes key zs e size =
    let full : (length key == max_key_length) ≡ true = ground (arith, size) in rw (e, full) refl

client_of_fields_lem :
    (self : ClientMetaMessage) (key : List ℕ) (s : String)
    → decode key ≡ ok s
    → from_string (strip s) ≡ ok self.key
    → client_of_fields
        (self.command ∷ self.length ∷ pos (value self.fmt) ∷ dtype_to_int self.dtype ∷ self.shape)
        key
      ≡ ok self
unfolding client_of_fields
client_of_fields_lem self key s decoded read =
    rw (decoded, read, format_of-value self.fmt, int_to_dtype-dtype_to_int self.dtype) refl

-- A message of four dimensions whose integers have 32 bits, with a key of visible texts without
-- separators whose string fits, is written in `client_packlength` bytes and read back as what it was.
pub deserialize_client-serialize_client :
    (self : ClientMetaMessage) (a b c d : ℤ)
    → self.shape ≡ a ∷ b ∷ c ∷ d ∷ []
    → All IsInt32 (self.command ∷ self.length ∷ a ∷ b ∷ c ∷ d ∷ [])
    → IsWireKey self.key
    → len_text (to_string self.key) ≤ max_key_length
    → (bytes : List ℕ) × (serialize_client self ≡ ok bytes)
      × (length bytes ≡ client_packlength)
      × (deserialize_client bytes ≡ ok self)
unfolding fields client_packlength
deserialize_client-serialize_client self a b c d e (hc, (hl, shape)) wire fits =
    let front : List ℤ → List ℤ =
      λ s. self.command ∷ self.length ∷ pos (value self.fmt) ∷ dtype_to_int self.dtype ∷ s in
    let zs = front (a ∷ b ∷ c ∷ d ∷ []) in
    let text = to_string self.key in
    let (key, key_packed, key_size, key_back, stripped) =
      padding_lem max_key_length text (to_string-IsVisible self.key wire) fits in
    let (bytes, packed, size, back) =
      unpack_ints-pack_ahead zs key
        (hc, (hl, (value-IsInt32 self.fmt, (dtype_to_int-IsInt32 self.dtype, shape)))) in
    let (read, _) = from_string-to_string self.key 0 wire.0 in
    (
      bytes ++ key,
      serialize_client_lem self _ bytes fits (rw e refl) packed
          ∙ ap (λ k. ok (bytes ++ k)) key_packed,
      omega (arith, length-append bytes key, size, key_size),
      deserialize_client_lem (bytes ++ key) key zs back key_size
          ∙ (ap (λ s. client_of_fields (front s) key) (sym e)
              ∙ client_of_fields_lem self key (padded max_key_length text) key_back
                  (ap from_string stripped ∙ read)),
    )
