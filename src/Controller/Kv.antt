-- ===== src/Controller/Kv.antt =====
-- MTDS/v1/cache_controller/controllers/kv_controller.py: `KVController`. The calls that only pass a
-- message on to the cluster executor (clear, pin, compress, move, check_finish) change nothing here.
pub mod Entries
pub mod Pool
pub mod Lookup
use Prim.Native.String.{String}
use text.Mathlib.Text.{◌==◌ as str_eq}
use mtds.Prelude.{
  ℕ, Bool, true, false, ◌&&◌, not, Option, none, some, List, [], ◌∷◌, ◌++◌, ◌==◌, if◌then◌else◌,
  Error, Result, ok, raise, ◌>>=◌, key_error, index_error, runtime_error,
}
use mtds.Dict.{Dict, get, contains, assign, delete, string_eq}
use mtds.Tokens.{ChunkedTokenDatabase, Hashing, Chunk, KeyOrHash, key, hash, process_tokens}
use mtds.Tokens

pub record KvChunkMetadata : Type 0 where
  pub instance_id : String
  pub worker_id : ℕ
  pub location : String

abbrev pub Pool : Type 0
Pool = Dict String (List KvChunkMetadata)

pub record KvController : Type 0 where
  pub kv_pool : Pool
  pub token_database : ChunkedTokenDatabase

unfoldable pub init : KvController
unfolding Tokens.init
init = record {
  kv_pool = [];
  token_database = record (Tokens.init none none) { chunk_size = some 256 };
}

-- `KVAdmitMsg` and `KVEvictMsg` have the same fields.
pub record KvMsg : Type 0 where
  pub instance_id : String
  pub worker_id : ℕ
  pub key : String
  pub location : String

abbrev pub metadata_of : KvMsg → KvChunkMetadata
metadata_of msg = record {
  instance_id = msg.instance_id;
  worker_id = msg.worker_id;
  location = msg.location;
}

unfoldable pub lookup_pool : String → Pool → Result (List KvChunkMetadata)
lookup_pool k pool = elim (get k pool) [ none ↦ raise key_error | some ms ↦ ok ms ]

-- The test is on the instance id, as the code has it.
unfoldable pub admit : Pool → KvMsg → Result Pool
unfolding lookup_pool
admit pool msg =
    let pool' = if contains msg.instance_id pool then pool else assign msg.key [] pool in
    do ms ← lookup_pool msg.key pool'; ok (assign msg.key (ms ++ metadata_of msg ∷ []) pool')

unfoldable pub held_by : String → ℕ → KvChunkMetadata → Bool
held_by instance_id worker_id m = str_eq m.instance_id instance_id && m.worker_id == worker_id

unfoldable pub is_chunk_of : KvMsg → KvChunkMetadata → Bool
is_chunk_of msg m =
    str_eq m.instance_id msg.instance_id
    && (m.worker_id == msg.worker_id && str_eq m.location msg.location)

-- `[m for m in ms if not p(m)]`
unfoldable pub without : (KvChunkMetadata → Bool) → List KvChunkMetadata → List KvChunkMetadata
without p [] = []
without p (m ∷ ms) = let rest = without p ms in if p m then rest else m ∷ rest

unfoldable pub store_or_delete : String → List KvChunkMetadata → Pool → Pool
store_or_delete k [] pool = delete k pool
store_or_delete k (m ∷ ms) pool = assign k (m ∷ ms) pool

unfoldable pub evict : Pool → KvMsg → Pool
evict pool msg = elim (get msg.key pool) [
  | none ↦ pool
  | some ms ↦ store_or_delete msg.key (without (is_chunk_of msg) ms) pool
]

-- The loop over the keys, `seen` being the items that are done. A deletion ends it: the next step of
-- the iterator finds that the dictionary has another size, and raises.
unfoldable pub deregister_from : String → ℕ → Pool → Pool → Pool × Option Error
deregister_from instance_id worker_id seen [] = (seen, none)
deregister_from instance_id worker_id seen ((k, ms) ∷ rest) =
    elim (without (held_by instance_id worker_id) ms) [
      | [] ↦ (seen ++ rest, some runtime_error)
      | m ∷ more ↦ deregister_from instance_id worker_id (seen ++ (k, m ∷ more) ∷ []) rest
    ]

unfoldable pub deregister : Pool → String → ℕ → Pool × Option Error
deregister pool instance_id worker_id = deregister_from instance_id worker_id [] pool

abbrev pub Layout : Type 0
Layout = Dict String (String × ℕ)

-- `assert isinstance(key, str)` holds of what `process_tokens(make_key=False)` yields.
unfoldable pub hash_of : KeyOrHash → Result String
hash_of (hash h) = ok h
hash_of (key k) = raise Error.assertion_error

unfoldable pub first_of_list : List KvChunkMetadata → Result KvChunkMetadata
first_of_list [] = raise index_error
first_of_list (m ∷ ms) = ok m

-- The loop of `lookup`: it ends at the first chunk that nobody holds.
unfoldable pub scan : Pool → List Chunk → Layout → Result Layout
scan pool [] layout = ok layout
scan pool (c ∷ cs) layout = do
  h ← hash_of c.name
  elim (get h pool) [
    | none ↦ ok layout
    | some ms ↦ do
      m ← first_of_list ms
      scan pool cs (assign m.instance_id (m.location, c.end_idx) layout)
  ]

unfoldable pub lookup : Hashing → KvController → List ℕ → Result Layout
lookup hashing self tokens = do
  chunks ← process_tokens hashing self.token_database tokens none false
  scan self.kv_pool chunks []
