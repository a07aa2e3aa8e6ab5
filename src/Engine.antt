-- ===== src/Engine.antt =====
-- MTDS/v1/cache_engine.py: `MTDSEngine` over a storage manager, without the distributed storage
-- manager. The GPU connector, which only copies, and the statistics are left out. A key that the
-- token database names is a `CacheEngineKey`; `process_tokens` is that of the token database.
pub mod Prefix
pub mod Agree
mod Tests
use Prim.Native.String.{String}
use mtds.Prelude.{
  ℕ, zero, suc, ◌+◌, ◌-◌, Bool, true, false, ◌&&◌, not, Option, none, some, List, [], ◌∷◌, ◌++◌,
  length, ltb, leb, if◌then◌else◌, Result, ok, raise, ensure, ◌>>=◌, ◌>>◌, assertion_error,
}
use text.Mathlib.Text.{◌==◌ as str_eq}
use mtds.Keys.{CacheEngineKey, LayerCacheEngineKey, split_layers}
use mtds.Memory.Objects.{Dtype}
use mtds.Tokens.{ChunkedTokenDatabase, Hashing, Chunk, KeyOrHash, key, hash, process_tokens}

-- The storage manager, as the engine uses it: `W` is the state that it shares with the backends and
-- the allocator, `K` its keys and `O` the memory objects.
pub record EngineStorage (W K O : Type 0) : Type 0 where
  pub contains : W → K → Option (List String) → Bool → W × Bool
  pub allocate : W → List ℕ → Option Dtype → Result (W × Option O)
  pub put : W → K → O → Result W
  pub get : W → K → W × Option O
  pub remove : W → K → Option (List String) → Result (W × ℕ)
  pub batched_unpin : W → List K → Option (List String) → W
  pub clear : W → Option (List String) → Result (W × ℕ)
  pub prefetch : W → K → W
  pub ref_count_down : W → O → Result W

-- The lookup server: whether it knows a key, and what it is told.
pub record LookupServer (L : Type 0) : Type 0 where
  pub lookup : L → CacheEngineKey → Bool
  pub insert : L → CacheEngineKey → L

-- `assert isinstance(key, CacheEngineKey)`
unfoldable pub require_key : KeyOrHash → Result CacheEngineKey
require_key (key k) = ok k
require_key (hash h) = raise assertion_error

-- `"p2p" in search_range`
unfoldable pub searches_p2p : Option (List String) → Bool
searches_p2p none = true
searches_p2p (some []) = false
searches_p2p (some (name ∷ names)) =
    let rest = searches_p2p (some names) in if str_eq name "p2p" then true else rest

-- `ret_mask[start:end] = True`
abbrev pub mark : ℕ → ℕ → List Bool → List Bool
mark start stop [] = []
mark zero zero (b ∷ mask) = b ∷ mask
mark zero (suc stop) (b ∷ mask) = true ∷ mark zero stop mask
mark (suc start) zero (b ∷ mask) = b ∷ mask
mark (suc start) (suc stop) (b ∷ mask) = b ∷ mark start stop mask

-- `torch.zeros_like(tokens)`
abbrev pub zeros : List ℕ → List Bool
zeros [] = []
zeros (t ∷ tokens) = false ∷ zeros tokens

module _ {W O : Type 0} (manager : EngineStorage W CacheEngineKey O) where
  module _ {L : Type 0} (server : LookupServer L) where
    -- The loop of `store`. `get_shape` is that of the GPU connector.
    unfoldable pub store_loop : Bool → (ℕ → List ℕ) → Dtype → W → L → List Chunk → Result (W × L)
    unfolding require_key
    store_loop has_server get_shape kv_dtype w l [] = ok (w, l)
    store_loop has_server get_shape kv_dtype w l (c ∷ chunks) = do
      k ← require_key c.name
      let (w', found) = manager.contains w k none false
      elim found [
        | true ↦ store_loop has_server get_shape kv_dtype w' l chunks
        | false ↦ do
          (w'', memory_obj) ←
              manager.allocate w' (get_shape (c.end_idx - c.start_idx)) (some kv_dtype)
          elim memory_obj [
            | none ↦ ok (w'', l)
            | some o ↦ do
              w₃ ← manager.put w'' k o
              store_loop has_server get_shape kv_dtype w₃
                  (if has_server then server.insert l k else l) chunks
          ]
      ]

    -- The loop of `lookup`: `search_local` and `stop`, which is `end`, are its variables.
    unfoldable pub lookup_loop :
        Option (List String) → Bool → Bool → W → L → Bool → ℕ → List Chunk → Result (W × ℕ)
    unfolding require_key
    lookup_loop search_range pin search_p2p w l search_local stop [] = ok (w, stop)
    lookup_loop search_range pin search_p2p w l search_local stop (c ∷ chunks) = do
      k ← require_key c.name
      let (w', found) = if search_local then manager.contains w k search_range pin else (w, false)
      elim found [
        | true ↦ lookup_loop search_range pin search_p2p w' l true c.end_idx chunks
        | false ↦ elim (search_p2p && server.lookup l k) [
          | true ↦ lookup_loop search_range pin search_p2p w' l false c.end_idx chunks
          | false ↦ ok (w', c.start_idx)
        ]
      ]

  -- Where the storage has no object, `issue_get` is what the distributed server finds, if there is
  -- one.
  unfoldable pub get_or_issue :
      (W → CacheEngineKey → W × Option O) → W → CacheEngineKey → W × Option O
  get_or_issue issue_get w k =
      let (w', stored) = manager.get w k in
      elim stored [ none ↦ issue_get w' k | some o ↦ (w', some o) ]

  -- The loop of `retrieve`.
  unfoldable pub retrieve_loop :
      (W → CacheEngineKey → W × Option O) → W → List Bool → List Chunk → Result (W × List Bool)
  unfolding require_key get_or_issue
  retrieve_loop issue_get w ret_mask [] = ok (w, ret_mask)
  retrieve_loop issue_get w ret_mask (c ∷ chunks) = do
    k ← require_key c.name
    let (w', memory_obj) = get_or_issue issue_get w k
    elim memory_obj [
      | none ↦ ok (w', ret_mask)
      | some o ↦ do
        w'' ← manager.ref_count_down w' o
        retrieve_loop issue_get (manager.batched_unpin w'' (k ∷ []) none)
            (mark c.start_idx c.end_idx ret_mask) chunks
    ]

  unfoldable pub prefetch_loop : W → List Chunk → Result W
  unfolding require_key
  prefetch_loop w [] = ok w
  prefetch_loop w (c ∷ chunks) = do
    k ← require_key c.name
    prefetch_loop (manager.prefetch w k) chunks

  unfoldable pub remove_loop : W → Option (List String) → ℕ → List Chunk → Result (W × ℕ)
  unfolding require_key
  remove_loop w locations num_removed [] = ok (w, num_removed)
  remove_loop w locations num_removed (c ∷ chunks) = do
    k ← require_key c.name
    (w', removed) ← manager.remove w k locations
    remove_loop w' locations (num_removed + removed) chunks

  module _ (hashing : Hashing) (db : ChunkedTokenDatabase) where
    unfoldable pub store :
        {L : Type 0}
        → LookupServer L
        → Bool
        → (ℕ → List ℕ)
        → Dtype
        → W
        → L
        → List ℕ
        → Option (List Bool)
        → Result (W × L)
    unfolding process_tokens store_loop
    store server has_server get_shape kv_dtype w l tokens mask = do
      chunks ← process_tokens hashing db tokens mask true
      store_loop server has_server get_shape kv_dtype w l chunks

    unfoldable pub retrieve :
        (W → CacheEngineKey → W × Option O)
        → W
        → List ℕ
        → Option (List Bool)
        → Result (W × List Bool)
    unfolding process_tokens retrieve_loop
    retrieve issue_get w tokens mask = do
      chunks ← process_tokens hashing db tokens mask true
      retrieve_loop issue_get w (zeros tokens) chunks

    unfoldable pub prefetch : W → List ℕ → Option (List Bool) → Result W
    unfolding process_tokens prefetch_loop
    prefetch w tokens mask = do
      chunks ← process_tokens hashing db tokens mask true
      prefetch_loop w chunks

    unfoldable pub lookup :
        {L : Type 0}
        → LookupServer L
        → Bool
        → W
        → L
        → List ℕ
        → Option (List String)
        → Bool
        → Result (W × ℕ)
    unfolding process_tokens lookup_loop searches_p2p
    lookup server enable_p2p w l tokens search_range pin = do
      chunks ← process_tokens hashing db tokens none true
      lookup_loop server search_range pin (enable_p2p && searches_p2p search_range) w l true 0
          chunks

    -- Without tokens, or with none of them, everything is cleared.
    unfoldable pub clear : W → Option (List ℕ) → Option (List String) → Result (W × ℕ)
    unfolding process_tokens remove_loop
    clear w none locations = manager.clear w locations
    clear w (some []) locations = manager.clear w locations
    clear w (some (t ∷ tokens)) locations = do
      chunks ← process_tokens hashing db (t ∷ tokens) none true
      remove_loop w locations 0 chunks
