-- ===== src/Tokens/Tests.antt =====
-- `ChunkedTokenDatabase` at concrete inputs.
use Prim.Native.String.{String}
use mtds.Prelude.{
  ℕ, ◌≡◌, refl, true, false, none, some, List, [], ◌∷◌, ◌++◌, leb, if◌then◌else◌, ok, raise,
  value_error, arith,
}
use mtds.Tokens.{
  Hashing, ChunkedTokenDatabase, Chunk, hash, init, attribute, make_key_by_hash, chunks_from,
  chunk_tokens, count_false, num_falses, hash_tokens, prefix_hashes, name_chunk, emit,
  process_tokens,
}
use mtds.Tokens.Listed.{Tiles}
use mtds.Tokens.Process.{IsReady, stop_of, process-Tiles}
use mtds.Tokens.Prefix.{process_tokens-append}

program : Unit {0}
unfolding init attribute make_key_by_hash chunks_from chunk_tokens count_false num_falses
    hash_tokens prefix_hashes name_chunk emit process_tokens
program = tt

abbrev pub digest : List ℕ → String
digest [] = "none"
digest (b ∷ bs) = if leb 5 b then "high" else "low"

abbrev pub hashing : Hashing
hashing = record { encode = λ s. []; tobytes = λ ts. ts; sha256 = digest }

abbrev db : ChunkedTokenDatabase
db = record { chunk_size = some 2; save_unfull_chunk = some true; metadata = none }

abbrev ready : IsReady db
ready = record { size = 2; save = true; has_size = refl; has_save = refl; filled = omega arith }

abbrev first : Chunk
first = record { start_idx = 0; end_idx = 2; name = hash "low" }

abbrev second : Chunk
second = record { start_idx = 2; end_idx = 4; name = hash "high" }

abbrev last : Chunk
last = record { start_idx = 4; end_idx = 5; name = hash "low" }

chunks_run :
    process_tokens hashing db (1 ∷ 2 ∷ 7 ∷ 8 ∷ 3 ∷ []) none false ≡ ok (first ∷ second ∷ last ∷ [])
unfolding program
chunks_run = refl

masked_run :
    process_tokens hashing db
      (1 ∷ 2 ∷ 7 ∷ 8 ∷ 3 ∷ [])
      (some (false ∷ false ∷ true ∷ true ∷ true ∷ []))
      false
    ≡ ok (second ∷ last ∷ [])
unfolding program
masked_run = refl

uneven_mask :
    process_tokens hashing db (1 ∷ 2 ∷ []) (some (false ∷ true ∷ [])) false ≡ raise value_error
unfolding program
uneven_mask = refl

process-Tiles_example :
    (chunks : List Chunk) × (process_tokens hashing db
        (1 ∷ 2 ∷ 7 ∷ [])
        (some (false ∷ false ∷ true ∷ []))
        false
      ≡ ok chunks)
    × Tiles 2 3 (stop_of true 2 3) (num_falses (some (false ∷ false ∷ true ∷ []))) chunks
unfolding num_falses count_false
process-Tiles_example =
    process-Tiles hashing db ready (1 ∷ 2 ∷ 7 ∷ []) (some (false ∷ false ∷ true ∷ [])) false tt refl

process_tokens-append_example :
    (chunks more : List Chunk) × (process_tokens hashing db (1 ∷ 2 ∷ 7 ∷ 8 ∷ []) none false
      ≡ ok chunks)
    × (process_tokens hashing db ((1 ∷ 2 ∷ 7 ∷ 8 ∷ []) ++ 3 ∷ []) none false ≡ ok (chunks ++ more))
unfolding num_falses
process_tokens-append_example =
    process_tokens-append hashing db ready (1 ∷ 2 ∷ 7 ∷ 8 ∷ []) (3 ∷ []) 2 none false (omega arith)
      tt refl
