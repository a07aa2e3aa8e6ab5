-- ===== src/Tokens/Process.antt =====
-- `process_tokens`: where its chunks lie, and that the chunks of a prefix are found again.
use Prim.Native.String.{String}
use mtds.Prelude.{
  ℕ, ◌-◌, ◌*◌, ◌/◌, ◌%◌, ◌<◌, ◌≡◌, Bool, Option, some, List, length, if◌then◌else◌, ok, arith,
}
use mtds.Tokens.{
  ChunkedTokenDatabase, Chunk, Hashing, prefix_hashes, num_falses, chunk_tokens, attribute,
  process_tokens,
}
use mtds.Tokens.Pieces.{pieces, chunks_from-pieces}
use mtds.Tokens.Listed.{
  CanName, name_of, listed, emit-listed, Fills, pieces-Fills, prefix_hashes-Fills, Tiles,
  listed-Tiles_from,
}

-- A database with both attributes, and a size that is not zero.
pub record IsReady (db : ChunkedTokenDatabase) : Type 0 where
  pub size : ℕ
  pub save : Bool
  pub has_size : db.chunk_size ≡ some size
  pub has_save : db.save_unfull_chunk ≡ some save
  pub filled : 0 < size

-- Where the last chunk ends: a chunk that is not full is kept or dropped.
abbrev pub stop_of : Bool → ℕ → ℕ → ℕ
stop_of save size n = if save then n else n - n % size

module _ (hashing : Hashing) (db : ChunkedTokenDatabase) (ready : IsReady db) where
  open ready use {size, save, has_size, has_save, filled}

  abbrev pub hashes : List ℕ → List String
  hashes tokens =
      prefix_hashes hashing ""
        (pieces (stop_of save size (length tokens)) (stop_of save size (length tokens)) size tokens)

  pub process-listed :
      (tokens : List ℕ) (mask : Option (List Bool)) (make_key : Bool) (c : CanName db make_key)
      → num_falses mask % size ≡ 0
      → process_tokens hashing db tokens mask make_key
        ≡ ok (
            listed (name_of db make_key c) size (length tokens) (num_falses mask) 0 (hashes tokens))
  unfolding process_tokens chunk_tokens attribute
  process-listed tokens mask make_key c whole =
      let stop = stop_of save size (length tokens) in
      rw (has_size, has_save)
        (ground (
          arith,
          filled,
          whole,
          chunks_from-pieces stop 0 stop size tokens,
          emit-listed db make_key c size (length tokens) (num_falses mask) 0 (hashes tokens),
        ))

  pub hashes-Fills :
      (tokens : List ℕ) → Fills size (stop_of save size (length tokens)) (0 * size) (hashes tokens)
  hashes-Fills tokens =
      let stop = stop_of save size (length tokens) in
      prefix_hashes-Fills hashing size stop (0 * size) "" (pieces stop stop size tokens)
        (pieces-Fills stop stop size stop (0 * size) tokens filled (omega arith) (omega arith))

  -- The masked tokens are skipped, and the chunks follow one another from there on: each has `size`
  -- tokens, or ends with the tokens, and the last one reaches the end, or the last full chunk's end
  -- where chunks that are not full are dropped.
  pub process-Tiles :
      (tokens : List ℕ) (mask : Option (List Bool)) (make_key : Bool)
      → CanName db make_key
      → num_falses mask % size ≡ 0
      → (chunks : List Chunk) × (process_tokens hashing db tokens mask make_key ≡ ok chunks)
        × Tiles size (length tokens) (stop_of save size (length tokens)) (num_falses mask) chunks
  process-Tiles tokens mask make_key c whole =
      let stop = stop_of save size (length tokens) in
      let falses = num_falses mask in
      (
        listed (name_of db make_key c) size (length tokens) falses 0 (hashes tokens),
        process-listed tokens mask make_key c whole,
        listed-Tiles_from (name_of db make_key c) size (length tokens) falses stop (falses / size) 0
            (hashes tokens) filled (grind arith) (omega arith) (hashes-Fills tokens),
      )
