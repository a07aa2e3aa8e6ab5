-- ===== src/Pool.antt =====
-- MTDS/storage_backend/mem_pool: the pool of equal chunks of the older backends.
pub mod Chunks
mod Tests
use mtds.Prelude.{
  ℕ, zero, suc, ◌+◌, ◌*◌, ◌/◌, Bool, not, Option, none, some, List, [], ◌∷◌, ◌++◌, get_elem?, leb,
  ltb, ◌==◌, if◌then◌else◌, Result, ok, raise, ensure, ◌>>=◌, ◌>>◌, assertion_error, index_error,
  zero_division, plain_exception,
}

-- `mem_pool` is the number of its tensors, each with room for `chunk_size` tokens.
pub record LocalPool : Type 0 where
  pub chunk_size : ℕ
  pub max_chunk_num : ℕ
  pub size_per_chunk : ℕ
  pub mem_pool : ℕ
  pub free_pool : List ℕ

-- `data` is the view of the first `num_tok` tokens of the chunk's tensor.
pub record KvObj : Type 0 where
  pub chunk_idx : ℕ
  pub size : ℕ
  pub num_tok : ℕ

unfoldable pub prod : List ℕ → ℕ
prod [] = 1
prod (n ∷ ns) = n * prod ns

-- `limit` is `int(max_local_cache_size * 1024**3)`.
unfoldable pub init_max_chunk_num : ℕ → ℕ → Result ℕ
init_max_chunk_num limit size_per_chunk = do
  ensure (ltb 0 size_per_chunk) zero_division
  ok (limit / size_per_chunk + 1)

-- `[i for i in range(n)]`, from `i` on.
unfoldable pub indices : ℕ → ℕ → List ℕ
indices i zero = []
indices i (suc n) = i ∷ indices (suc i) n

-- `LocalCPUPool` and `LocalGPUPool`: they differ in the device of the tensors.
unfoldable pub init : ℕ → List ℕ → ℕ → Result LocalPool
init limit kv_shape itemsize = elim (get_elem? kv_shape 2) [
  | none ↦ raise index_error
  | some chunk_size ↦ do
    max_chunk_num ← init_max_chunk_num limit (prod kv_shape * itemsize)
    ok (record {
      chunk_size = chunk_size;
      max_chunk_num = max_chunk_num;
      size_per_chunk = prod kv_shape * itemsize;
      mem_pool = max_chunk_num;
      free_pool = indices 0 max_chunk_num;
    })
]

-- `list.pop()`: what is in front of the last item, and the item.
unfoldable pub pop : List ℕ → Option (List ℕ × ℕ)
pop [] = none
pop (i ∷ is) = elim (pop is) [ none ↦ some ([], i) | some (rest, last) ↦ some (i ∷ rest, last) ]

-- The object of the chunk; `mem_pool[chunk_idx]` may raise.
unfoldable pub take_chunk : LocalPool → ℕ → List ℕ → ℕ → Result (LocalPool × KvObj)
take_chunk self num_tok rest chunk_idx = do
  ensure (ltb chunk_idx self.mem_pool) index_error
  ok (
    record self { free_pool = rest },
    record { chunk_idx = chunk_idx; size = self.size_per_chunk; num_tok = num_tok },
  )

-- `LocalPool.allocate`, of a chunk with `num_tok` tokens.
unfoldable pub allocate : LocalPool → ℕ → Result (LocalPool × KvObj)
allocate self num_tok = do
  ensure (leb num_tok self.chunk_size) assertion_error
  elim (pop self.free_pool) [
    | none ↦ raise plain_exception
    | some (rest, chunk_idx) ↦ take_chunk self num_tok rest chunk_idx
  ]

-- `LocalCPUBufferPool.allocate`: without a free chunk it returns None, and the caller waits.
unfoldable pub buffer_allocate : LocalPool → ℕ → Result (LocalPool × Option KvObj)
buffer_allocate self num_tok = do
  ensure (leb num_tok self.chunk_size) assertion_error
  elim (pop self.free_pool) [
    | none ↦ ok (self, none)
    | some (rest, chunk_idx) ↦ do
      (self', o) ← take_chunk self num_tok rest chunk_idx
      ok (self', some o)
  ]

unfoldable pub free : LocalPool → KvObj → LocalPool
free self kv_obj = record self { free_pool = self.free_pool ++ kv_obj.chunk_idx ∷ [] }
