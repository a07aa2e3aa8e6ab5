-- ===== src/Pool/Tests.antt =====
-- The pool at concrete inputs.
use mtds.Prelude.{
  ◌+◌, ◌*◌, ◌≤◌, ◌≡◌, ◌⊎◌, refl, none, [], ◌∷◌, ◌++◌, ok, raise, plain_exception, assertion_error,
  arith,
}
use mtds.Pool.{
  LocalPool, KvObj, pop, take_chunk, allocate, buffer_allocate, free, indices, init,
  init_max_chunk_num, prod,
}
use mtds.Pool.Chunks.{IsShared, allocate-IsShared, free-allocate, init-IsShared, count-indices}

program : Unit {0}
unfolding pop take_chunk allocate buffer_allocate free indices init init_max_chunk_num prod
program = tt

abbrev start : LocalPool
start = record {
  chunk_size = 4;
  max_chunk_num = 3;
  size_per_chunk = 16;
  mem_pool = 3;
  free_pool = 0 ∷ 1 ∷ 2 ∷ [];
}

abbrev one_out : LocalPool
one_out = record start { free_pool = 0 ∷ 1 ∷ [] }

abbrev chunk : KvObj
chunk = record { chunk_idx = 2; size = 16; num_tok = 3 }

init_run : init 40 (2 ∷ 1 ∷ 4 ∷ []) 2 ≡ ok start
unfolding program
init_run = refl

last_chunk : allocate start 3 ≡ ok (one_out, chunk)
unfolding program
last_chunk = refl

too_many_tokens : allocate start 5 ≡ raise assertion_error
unfolding program
too_many_tokens = refl

start-IsShared : IsShared start []
unfolding program
start-IsShared = record { tensors = refl; once = λ i. ground (arith, count-indices 0 3 i) }

init-IsShared_example :
    (self : LocalPool) × (init 40 (2 ∷ 1 ∷ 4 ∷ []) 2 ≡ ok self)
    × IsShared self []
    × (self.max_chunk_num * self.size_per_chunk ≤ 40 + self.size_per_chunk)
unfolding program
init-IsShared_example = init-IsShared 40 4 2 (2 ∷ 1 ∷ 4 ∷ []) refl (omega arith)

allocate-IsShared_example :
    ((allocate start 3 ≡ raise plain_exception) × (pop start.free_pool ≡ none))
    ⊎ ((self' : LocalPool) × (o : KvObj) × (allocate start 3 ≡ ok (self', o))
        × (start.free_pool ≡ self'.free_pool ++ o.chunk_idx ∷ [])
        × IsShared self' (o.chunk_idx ∷ []))
allocate-IsShared_example = allocate-IsShared start [] 3 start-IsShared (omega arith)

free-allocate_example : free one_out chunk ≡ start
free-allocate_example = free-allocate start one_out 3 chunk last_chunk
