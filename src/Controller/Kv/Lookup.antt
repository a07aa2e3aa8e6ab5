-- ===== src/Controller/Kv/Lookup.antt =====
-- What `lookup` can rely on, and why it does not get that far.
use Prim.Native.String.{String}
use mtds.Prelude.{
  ℕ, ◌≡◌, refl, List, [], ◌∷◌, ok, raise, attribute_error, Option-cases, inl, inr, arith,
}
use mtds.Dict.{get, assign, string_eq, AllValues-get}
use mtds.Tokens.{Hashing, Chunk, hash, process_tokens, chunk_tokens, attribute, num_falses, init}
use mtds.Controller.Kv.{
  KvController, KvChunkMetadata, Pool, KvMsg, Layout, admit, evict, deregister, hash_of,
  first_of_list, scan, lookup,
}
use mtds.Controller.Kv
use mtds.Controller.Kv.Entries.{NonEmpty}
use mtds.Controller.Kv.Pool.{
  HasHolders, admit-HasHolders, evict-HasHolders, deregister_from-HasHolders,
}

-- The worker messages, in any order. A removal of a worker counts whether it raises or not.
pub data Step : Pool → Pool → Type 0 where
  admits : {pool pool' : Pool} (msg : KvMsg) → admit pool msg ≡ ok pool' → Step pool pool'
  evicts : (pool : Pool) (msg : KvMsg) → Step pool (evict pool msg)
  deregisters :
      (pool : Pool) (instance_id : String) (worker_id : ℕ)
      → Step pool (deregister pool instance_id worker_id).0

pub data Reach : Pool → Type 0 where
  here : Reach []
  next : {pool pool' : Pool} → Reach pool → Step pool pool' → Reach pool'

Step-HasHolders : {pool pool' : Pool} → Step pool pool' → HasHolders pool → HasHolders pool'
unfolding deregister
Step-HasHolders (admits {pool} {pool'} msg e) h = admit-HasHolders pool pool' msg e h
Step-HasHolders (evicts pool msg) h = evict-HasHolders pool msg h
Step-HasHolders (deregisters pool instance_id worker_id) h =
    deregister_from-HasHolders instance_id worker_id [] pool tt h

Reach-HasHolders : {pool : Pool} → Reach pool → HasHolders pool
Reach-HasHolders here = tt
Reach-HasHolders (next r s) = Step-HasHolders s (Reach-HasHolders r)

-- A chunk that `process_tokens(make_key=False)` yields.
abbrev pub IsHashed : List Chunk → Type 0
IsHashed [] = Unit
IsHashed (c ∷ cs) = ((h : String) × (c.name ≡ hash h)) × IsHashed cs

first_holder :
    (ms : List KvChunkMetadata) → NonEmpty ms → (m : KvChunkMetadata) × (first_of_list ms ≡ ok m)
unfolding first_of_list
first_holder [] n = absurd n
first_holder (m ∷ ms) n = (m, refl)

scan_total :
    (pool : Pool) (chunks : List Chunk) (layout : Layout)
    → HasHolders pool
    → IsHashed chunks
    → (found : Layout) × (scan pool chunks layout ≡ ok found)
unfolding scan hash_of
scan_total pool [] layout holders hashed = (layout, refl)
scan_total pool (c ∷ cs) layout holders ((h, e), hashed) = elim (Option-cases (get h pool)) [
  | inl miss ↦ (layout, ground (arith, e, miss))
  | inr (ms, hit) ↦
      let (m, first) = first_holder ms (AllValues-get NonEmpty h ms pool hit holders) in
      let (found, rest) =
        scan_total pool cs (assign m.instance_id (m.location, c.end_idx) layout) holders hashed in
      (found, ground (arith, e, hit, first, rest))
]

-- After any worker messages, the scan of a lookup over named hashes raises nothing.
pub scan_safe :
    {pool : Pool} (chunks : List Chunk) (layout : Layout)
    → Reach pool
    → IsHashed chunks
    → (found : Layout) × (scan pool chunks layout ≡ ok found)
scan_safe {pool} chunks layout r hashed = scan_total pool chunks layout (Reach-HasHolders r) hashed

-- The controller makes its token database without a configuration, so that the database has no
-- `save_unfull_chunk`: every lookup raises `AttributeError`, whatever the pool and the tokens.
pub lookup_raises :
    (hashing : Hashing) (pool : Pool) (tokens : List ℕ)
    → lookup hashing (record Kv.init { kv_pool = pool }) tokens ≡ raise attribute_error
unfolding lookup Kv.init process_tokens chunk_tokens attribute num_falses init
lookup_raises hashing pool tokens = refl
