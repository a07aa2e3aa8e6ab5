-- ===== src/Evictor.antt =====
-- MTDS/v1/storage_backend/evictor and MTDS/storage_backend/evictor: the LRU evictors of the two
-- generations. The oldest entry of the cache is the first one of the dictionary.
pub mod Lru
pub mod Generations
mod Tests
use mtds.Prelude.{
  ℕ, ◌*◌, Bool, Option, none, some, List, [], ◌∷◌, ltb, if◌then◌else◌, Result, ok, raise, ◌>>=◌,
  key_error, stop_iteration, plain_exception,
}
use mtds.Prelude.Int.{ℤ, pos, ◌+ℤ◌, ◌-ℤ◌, ltb_ℤ}
use mtds.Dict.{Dict, Eq, get, move_to_end}

pub data PutStatus : Type 0 where
  legal illegal : PutStatus

-- `MAX_CACHE_SIZE` is the limit of the configuration in bytes. The counter is a float of Python that
-- holds whole bytes.
pub record LruEvictor : Type 0 where
  pub max_cache_size : ℕ
  pub current_cache_size : ℤ

unfoldable pub init : ℕ → LruEvictor
init max_cache_size = record { max_cache_size = max_cache_size; current_cache_size = pos 0 }

-- The end of a put: the counter that the loop leaves, and the new entry in it.
abbrev pub settle {ℓ} :
    {K : Type ℓ} → LruEvictor → ℕ → ℤ × Result (List K) → LruEvictor × Result (List K × PutStatus)
settle self cache_size (current, raise e) = (record self { current_cache_size = current }, raise e)
settle self cache_size (current, ok evict_keys) =
    (record self { current_cache_size = current +ℤ pos cache_size }, ok (evict_keys, legal))

module _ {ℓ κ} {K : Type ℓ} {V : Type κ} where
  -- `update_on_hit`, and `update_on_get` of the older one.
  unfoldable pub update_on_hit : ⦃eq : Eq K⦄ → K → Dict K V → Result (Dict K V)
  update_on_hit key cache_dict = elim (get key cache_dict) [
    | none ↦ raise key_error
    | some v ↦ ok (move_to_end key cache_dict)
  ]

  -- The loop over the entries, with the counter that it leaves; `next` raises at their end.
  unfoldable pub evict_until : (V → ℕ) → (V → Bool) → ℕ → ℕ → ℤ → Dict K V → ℤ × Result (List K)
  evict_until size is_pinned limit cache_size current [] = (
    current,
    if ltb_ℤ (pos limit) (pos cache_size +ℤ current) then raise stop_iteration else ok [],
  )
  evict_until size is_pinned limit cache_size current ((k, v) ∷ rest) =
      let pinned = is_pinned v in
      let (after, later) =
        evict_until size is_pinned limit cache_size
          (if pinned then current else current -ℤ pos (size v)) rest in
      if ltb_ℤ (pos limit) (pos cache_size +ℤ current)
      then (after, later >>= λ ks. ok (if pinned then ks else k ∷ ks))
      else (current, ok [])

  unfoldable pub update_on_put :
      (V → ℕ) → (V → Bool) → LruEvictor → Dict K V → ℕ → LruEvictor × Result (List K × PutStatus)
  update_on_put size is_pinned self cache_dict cache_size =
      if ltb self.max_cache_size cache_size
      then (self, ok ([], illegal))
      else settle self cache_size (
          evict_until size is_pinned self.max_cache_size cache_size self.current_cache_size
            cache_dict)

-- What the older caches hold.
pub data CachedValue : Type 0 where
  tensor : ℕ → ℕ → CachedValue
  bytearray kv_obj disk_cache_metadata : ℕ → CachedValue
  other : CachedValue

unfoldable pub get_size : CachedValue → Result ℕ
get_size (tensor num_elements element_size) = ok (num_elements * element_size)
get_size (bytearray len) = ok len
get_size (kv_obj size) = ok size
get_size (disk_cache_metadata size) = ok size
get_size other = raise plain_exception

module _ {ℓ} {K : Type ℓ} where
  unfoldable pub evict_all_until : ℕ → ℕ → ℤ → Dict K CachedValue → ℤ × Result (List K)
  evict_all_until limit cache_size current [] = (
    current,
    if ltb_ℤ (pos limit) (pos cache_size +ℤ current) then raise stop_iteration else ok [],
  )
  evict_all_until limit cache_size current ((k, v) ∷ rest) =
      if ltb_ℤ (pos limit) (pos cache_size +ℤ current)
      then elim (get_size v) [
        | raise e ↦ (current, raise e)
        | ok size ↦
            let (after, later) = evict_all_until limit cache_size (current -ℤ pos size) rest in
            (after, later >>= λ ks. ok (k ∷ ks))
      ]
      else (current, ok [])

  unfoldable pub update_on_put_v0 :
      LruEvictor → Dict K CachedValue → ℕ → LruEvictor × Result (List K × PutStatus)
  update_on_put_v0 self cache_dict cache_size =
      if ltb self.max_cache_size cache_size
      then (self, ok ([], illegal))
      else settle self cache_size
          (evict_all_until self.max_cache_size cache_size self.current_cache_size cache_dict)
