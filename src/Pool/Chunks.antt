-- ===== src/Pool/Chunks.antt =====
-- Every chunk of the pool is free or with one object.
use mtds.Prelude.{
  ℕ, zero, suc, ◌+◌, ◌*◌, ◌/◌, ◌≤◌, ◌<◌, ◌≡◌, refl, ap, sym, ◌∙◌, subst, true, ◌&&◌, none, some,
  List, [], ◌∷◌, ◌++◌, get_elem?, leb, ltb, if◌then◌else◌, ok, raise, ◌>>=◌, plain_exception,
  Option-cases, ◌⊎◌, inl, inr, arith,
}
use native.Mathlib.Nat.{div-mul-le_self}
use mtds.Memory.Paged.Pages.{count, count-append}
use mtds.Pool.{
  LocalPool, KvObj, pop, take_chunk, allocate, buffer_allocate, free, indices, init,
  init_max_chunk_num, prod,
}

pub record IsShared (self : LocalPool) (live : List ℕ) : Type 0 where
  pub tensors : self.mem_pool ≡ self.max_chunk_num
  pub once :
      (i : ℕ) → count i self.free_pool + count i live ≡ (if ltb i self.max_chunk_num then 1 else 0)

pop-none : (is : List ℕ) → pop is ≡ none → is ≡ []
unfolding pop
pop-none [] e = refl
pop-none (i ∷ is) e = elim (Option-cases (pop is)) [
  | inl none_left ↦ absurd (ground (arith, none_left))
  | inr ((rest, last), more) ↦ absurd (ground (arith, more))
]

pop-append : (is rest : List ℕ) (last : ℕ) → pop is ≡ some (rest, last) → is ≡ rest ++ last ∷ []
unfolding pop
pop-append [] rest last e = absurd (ground arith)
pop-append (i ∷ is) rest last e = elim (Option-cases (pop is)) [
  | inl none_left ↦ ground (arith, none_left, pop-none is none_left)
  | inr ((rest', last'), more) ↦ ground (arith, more, pop-append is rest' last' more)
]

-- Where every chunk has one owner, an allocation of no more tokens than a chunk has room for takes
-- the last free chunk, and every chunk still has one owner; without a free chunk it raises.
pub allocate-IsShared :
    (self : LocalPool) (live : List ℕ) (num_tok : ℕ)
    → IsShared self live
    → num_tok ≤ self.chunk_size
    → ((allocate self num_tok ≡ raise plain_exception) × (pop self.free_pool ≡ none))
      ⊎ ((self' : LocalPool) × (o : KvObj) × (allocate self num_tok ≡ ok (self', o))
          × (self.free_pool ≡ self'.free_pool ++ o.chunk_idx ∷ [])
          × IsShared self' (o.chunk_idx ∷ live))
unfolding allocate take_chunk
allocate-IsShared self live num_tok shared small = elim (Option-cases (pop self.free_pool)) [
  | inl none_left ↦ inl (ground (arith, none_left), none_left)
  | inr ((rest, i), took) ↦
      let queue = pop-append self.free_pool rest i took in
      let there : count i self.free_pool ≡ suc (count i rest) =
        ap (count i) queue ∙ ground (arith, count-append i rest (i ∷ [])) in
      let inside : i < self.mem_pool = ground (arith, shared.once i, shared.tensors, there) in
      inr (
        record self { free_pool = rest },
        record { chunk_idx = i; size = self.size_per_chunk; num_tok = num_tok },
        ground (arith, took),
        queue,
        record {
          tensors = shared.tensors;
          once =
              λ j. ground (arith, shared.once j, ap (count j) queue, count-append j rest (i ∷ []));
        },
      )
]

-- An object that has a chunk gives it back, and every chunk still has one owner.
pub free-IsShared :
    (self : LocalPool) (o : KvObj) (live : List ℕ)
    → IsShared self (o.chunk_idx ∷ live)
    → IsShared (free self o) live
unfolding free
free-IsShared self o live shared = record {
  tensors = shared.tensors;
  once = λ j. ground (arith, shared.once j, count-append j self.free_pool (o.chunk_idx ∷ []));
}

-- What an allocation hands out and gets back leaves the pool as it was, the order of its free chunks
-- included.
pub free-allocate :
    (self self' : LocalPool) (num_tok : ℕ) (o : KvObj)
    → allocate self num_tok ≡ ok (self', o)
    → free self' o ≡ self
unfolding allocate take_chunk free
free-allocate self self' num_tok o e = elim (Option-cases (pop self.free_pool)) [
  | inl none_left ↦ absurd (ground (arith, none_left))
  | inr ((rest, i), took) ↦
      let queue = pop-append self.free_pool rest i took in
      let back : free (record self { free_pool = rest })
            (record { chunk_idx = i; size = self.size_per_chunk; num_tok = num_tok })
          ≡ self =
        ap (λ l. record self { free_pool = l }) (sym queue) in
      let out : LocalPool × KvObj = (
        record self { free_pool = rest },
        record { chunk_idx = i; size = self.size_per_chunk; num_tok = num_tok },
      ) in
      let same : out ≡ (self', o) = ground (arith, took) in
      subst (λ (r : LocalPool × KvObj). free r.0 r.1 ≡ self) same back
]

-- The buffer pool allocates what the pool allocates, and has None where that raises for want of a
-- chunk.
pub buffer_allocate-allocate :
    (self : LocalPool) (num_tok : ℕ)
    → num_tok ≤ self.chunk_size
    → buffer_allocate self num_tok ≡ elim (pop self.free_pool) [
      | none ↦ ok (self, none)
      | some _ ↦ (do (self', o) ← allocate self num_tok; ok (self', some o))
    ]
unfolding buffer_allocate allocate
buffer_allocate-allocate self num_tok small =
    let fits : leb num_tok self.chunk_size ≡ true = ground (arith, small) in
    elim (Option-cases (pop self.free_pool)) [
      | inl none_left ↦ rw (fits, none_left) refl
      | inr ((rest, i), took) ↦
          let a : allocate self num_tok ≡ take_chunk self num_tok rest i = ground (arith, took) in
          rw (fits, took, a) refl
    ]

pub count-indices :
    (i n j : ℕ) → count j (indices i n) ≡ (if leb i j && ltb j (i + n) then 1 else 0)
unfolding indices
count-indices i zero j = ground arith
count-indices i (suc n) j = ground (arith, count-indices (suc i) n j)

-- A pool whose shape has a third dimension and no zero starts with every chunk free, and with no more
-- bytes than one chunk above the limit.
pub init-IsShared :
    (limit chunk_size itemsize : ℕ) (kv_shape : List ℕ)
    → get_elem? kv_shape 2 ≡ some chunk_size
    → 0 < prod kv_shape * itemsize
    → (self : LocalPool) × (init limit kv_shape itemsize ≡ ok self)
      × IsShared self []
      × (self.max_chunk_num * self.size_per_chunk ≤ limit + self.size_per_chunk)
unfolding init init_max_chunk_num
init-IsShared limit chunk_size itemsize kv_shape e filled =
    let size = prod kv_shape * itemsize in
    let n = limit / size + 1 in
    (
      record {
        chunk_size = chunk_size;
        max_chunk_num = n;
        size_per_chunk = size;
        mem_pool = n;
        free_pool = indices 0 n;
      },
      rw (e, init) (ground (arith, filled)),
      record { tensors = refl; once = λ j. ground (arith, count-indices 0 n j) },
      omega (arith, div-mul-le_self limit size),
    )
