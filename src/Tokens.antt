-- ===== src/Tokens.antt =====
-- MTDS/v1/token_database.py: `ChunkedTokenDatabase`. A generator is the list of what it yields, or
-- the exception that ends it.
pub mod Pieces
pub mod Listed
pub mod Process
pub mod Prefix
pub mod Tests
use Prim.Native.String.{String}
use mtds.Prelude.{
  ℕ, zero, suc, ◌+◌, ◌-◌, ◌*◌, ◌%◌, min, Bool, true, false, not, Option, none, some, List, [], ◌∷◌,
  ◌++◌, length, take, drop, map, ltb, ◌==◌, if◌then◌else◌, Result, ok, raise, ensure, ◌>>=◌, ◌>>◌,
  value_error, attribute_error, assertion_error, zero_division,
}
use mtds.Keys.{CacheEngineKey}

-- What the code asks of `str.encode`, `array.tobytes` and `hashlib.sha256(...).hexdigest`.
pub record Hashing : Type 0 where
  pub encode : String → List ℕ
  pub tobytes : List ℕ → List ℕ
  pub sha256 : List ℕ → String

pub record EngineMetadata : Type 0 where
  pub model_name : String
  pub world_size : ℕ
  pub worker_id : ℕ
  pub fmt : String

-- `none` is an attribute that has not been set: without a configuration the constructor sets
-- neither of the first two.
pub record ChunkedTokenDatabase : Type 0 where
  pub chunk_size : Option ℕ
  pub save_unfull_chunk : Option Bool
  pub metadata : Option EngineMetadata

-- The configuration gives the first two.
unfoldable pub init : Option (ℕ × Bool) → Option EngineMetadata → ChunkedTokenDatabase
init none metadata = record { chunk_size = none; save_unfull_chunk = none; metadata = metadata }
init (some (chunk_size, save_unfull_chunk)) metadata = record {
  chunk_size = some chunk_size;
  save_unfull_chunk = some save_unfull_chunk;
  metadata = metadata;
}

unfoldable pub attribute {ℓ} : {A : Type ℓ} → Option A → Result A
attribute none = raise attribute_error
attribute (some a) = ok a

-- A key, or with `make_key=False` the hash alone.
pub data KeyOrHash : Type 0 where
  key : CacheEngineKey → KeyOrHash
  hash : String → KeyOrHash

pub record Chunk : Type 0 where
  pub start_idx : ℕ
  pub end_idx : ℕ
  pub name : KeyOrHash

unfoldable pub make_key_by_hash : ChunkedTokenDatabase → String → Result CacheEngineKey
make_key_by_hash db chunk_hash = elim db.metadata [
  | none ↦ raise assertion_error
  | some m ↦ ok (record {
    fmt = m.fmt;
    model_name = m.model_name;
    world_size = m.world_size;
    worker_id = m.worker_id;
    chunk_hash = chunk_hash;
  })
]

-- `tokens[i : i + size]` for `i` in `range(i, end, size)`, in at most `fuel` rounds.
unfoldable pub chunks_from : ℕ → ℕ → ℕ → ℕ → List ℕ → List (List ℕ)
chunks_from zero i stop size tokens = []
chunks_from (suc fuel) i stop size tokens =
    let rest = chunks_from fuel (i + size) stop size tokens in
    if ltb i stop then take size (drop i tokens) ∷ rest else []

-- A step of zero is no range.
unfoldable pub chunk_tokens : ChunkedTokenDatabase → List ℕ → Result (List (List ℕ))
unfolding attribute
chunk_tokens db tokens = do
  save_unfull_chunk ← attribute db.save_unfull_chunk
  size ← attribute db.chunk_size
  ensure (ltb 0 size) value_error
  let stop = if save_unfull_chunk then length tokens else length tokens - length tokens % size
  ok (chunks_from stop 0 stop size tokens)

unfoldable pub count_false : List Bool → ℕ
count_false [] = 0
count_false (true ∷ mask) = count_false mask
count_false (false ∷ mask) = suc (count_false mask)

unfoldable pub num_falses : Option (List Bool) → ℕ
num_falses none = 0
num_falses (some mask) = count_false mask

module _ (hashing : Hashing) where
  unfoldable pub hash_tokens : List ℕ → String → String
  hash_tokens tokens prefix_hash =
      hashing.sha256 (hashing.encode prefix_hash ++ hashing.tobytes tokens)

  unfoldable pub prefix_hashes : String → List (List ℕ) → List String
  prefix_hashes prefix_hash [] = []
  prefix_hashes prefix_hash (chunk ∷ chunks) =
      let next = hash_tokens chunk prefix_hash in next ∷ prefix_hashes next chunks

unfoldable pub name_chunk : ChunkedTokenDatabase → Bool → String → Result KeyOrHash
name_chunk db true hash_val = do k ← make_key_by_hash db hash_val; ok (key k)
name_chunk db false hash_val = ok (hash hash_val)

-- The loop of `process_tokens`.
unfoldable pub emit :
    ChunkedTokenDatabase → Bool → ℕ → ℕ → ℕ → ℕ → List String → Result (List Chunk)
unfolding name_chunk
emit db make_key size total_len falses chunk_id [] = ok []
emit db make_key size total_len falses chunk_id (hash_val ∷ rest) =
    let start_idx = chunk_id * size in
    let end_idx = min (start_idx + size) total_len in
    let later = emit db make_key size total_len falses (suc chunk_id) rest in
    if ltb start_idx falses then later else (do
      name ← name_chunk db make_key hash_val
      chunks ← later
      ok (record { start_idx = start_idx; end_idx = end_idx; name = name } ∷ chunks))

module _ (hashing : Hashing) where
  unfoldable pub process_tokens :
      ChunkedTokenDatabase → List ℕ → Option (List Bool) → Bool → Result (List Chunk)
  unfolding attribute
  process_tokens db tokens mask make_key = do
    size ← attribute db.chunk_size
    ensure (ltb 0 size) zero_division
    ensure (num_falses mask % size == 0) value_error
    chunks ← chunk_tokens db tokens
    emit db make_key size (length tokens) (num_falses mask) 0 (prefix_hashes hashing "" chunks)
