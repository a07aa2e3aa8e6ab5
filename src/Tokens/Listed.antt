-- ===== src/Tokens/Listed.antt =====
-- What `process_tokens` yields, where the chunks can be named, and where the chunks lie.
use Prim.Native.String.{String}
use mtds.Prelude.{
  ℕ, zero, suc, ◌+◌, ◌-◌, ◌*◌, ◌≤◌, ◌<◌, ◌≡◌, refl, min, Bool, true, false, some, List, [], ◌∷◌,
  drop, ltb, Bool-cases, inl, inr, subst, if◌then◌else◌, ok, arith,
}
use mtds.Tokens.{
  ChunkedTokenDatabase, EngineMetadata, KeyOrHash, key, hash, Chunk, Hashing, hash_tokens,
  prefix_hashes, make_key_by_hash, name_chunk, emit,
}
use mtds.Tokens.Pieces.{pieces}

-- Keys need the metadata, and hashes need nothing.
abbrev pub CanName : ChunkedTokenDatabase → Bool → Type 0
CanName db true = (m : EngineMetadata) × (db.metadata ≡ some m)
CanName db false = Unit

unfoldable pub name_of :
    (db : ChunkedTokenDatabase) (make_key : Bool) → CanName db make_key → String → KeyOrHash
name_of db false c h = hash h
name_of db true c h = key (record {
  fmt = c.0.fmt;
  model_name = c.0.model_name;
  world_size = c.0.world_size;
  worker_id = c.0.worker_id;
  chunk_hash = h;
})

name_chunk-name_of :
    (db : ChunkedTokenDatabase) (make_key : Bool) (c : CanName db make_key) (h : String)
    → name_chunk db make_key h ≡ ok (name_of db make_key c h)
unfolding name_chunk make_key_by_hash name_of
name_chunk-name_of db false c h = refl
name_chunk-name_of db true c h = rw c.1

module _ (name : String → KeyOrHash) (size total falses : ℕ) where
  unfoldable pub listed : ℕ → List String → List Chunk
  listed i [] = []
  listed i (h ∷ hs) =
      let later = listed (suc i) hs in
      if ltb (i * size) falses
      then later
      else record { start_idx = i * size; end_idx = min (i * size + size) total; name = name h }
        ∷ later

pub emit-listed :
    (db : ChunkedTokenDatabase) (make_key : Bool) (c : CanName db make_key)
    (size total falses i : ℕ) (hs : List String)
    → emit db make_key size total falses i hs
      ≡ ok (listed (name_of db make_key c) size total falses i hs)
unfolding emit listed
emit-listed db make_key c size total falses i [] = refl
emit-listed db make_key c size total falses i (h ∷ hs) = ground (
  arith,
  name_chunk-name_of db make_key c h,
  emit-listed db make_key c size total falses (suc i) hs,
)

-- One item for each step of `size` from `from` on that begins below `stop`.
abbrev pub Fills {ℓ} : {A : Type ℓ} → ℕ → ℕ → ℕ → List A → Type 0
Fills size stop from [] = stop ≤ from
Fills size stop from (x ∷ xs) = (from < stop) × Fills size stop (from + size) xs

pub pieces-Fills :
    (fuel left size stop from : ℕ) (ts : List ℕ)
    → 0 < size
    → left ≤ fuel
    → left ≡ stop - from
    → Fills size stop from (pieces fuel left size ts)
unfolding pieces
pieces-Fills zero left size stop from ts filled h e = omega arith
pieces-Fills (suc fuel) left size stop from ts filled h e = elim (Bool-cases (ltb 0 left)) [
  | inl more ↦ rw more (
    ground arith,
    pieces-Fills fuel (left - size) size stop (from + size) (drop size ts) filled (omega arith)
        (omega arith),
  )
  | inr done ↦ rw done (ground arith)
]

pub prefix_hashes-Fills :
    (hashing : Hashing) (size stop from : ℕ) (prefix : String) (chunks : List (List ℕ))
    → Fills size stop from chunks
    → Fills size stop from (prefix_hashes hashing prefix chunks)
unfolding prefix_hashes
prefix_hashes-Fills hashing size stop from prefix [] f = f
prefix_hashes-Fills hashing size stop from prefix (c ∷ cs) f =
    (f.0, prefix_hashes-Fills hashing size stop (from + size) (hash_tokens hashing c prefix) cs f.1)

-- The chunks follow one another from `from` on, each of `size` tokens or up to the end of the
-- tokens, and the last one reaches `stop`.
abbrev pub Tiles : ℕ → ℕ → ℕ → ℕ → List Chunk → Type 0
Tiles size total stop from [] = stop ≤ from
Tiles size total stop from (c ∷ cs) =
    (c.start_idx ≡ from)
    × (c.end_idx ≡ min (from + size) total)
    × (from < stop)
    × Tiles size total stop (from + size) cs

module _ (name : String → KeyOrHash) (size total falses stop : ℕ) where
  listed-Tiles_on :
      (i : ℕ) (hs : List String)
      → falses ≤ i * size
      → Fills size stop (i * size) hs
      → Tiles size total stop (i * size) (listed name size total falses i hs)
  unfolding listed
  listed-Tiles_on i [] h f = f
  listed-Tiles_on i (x ∷ xs) h f =
      let next : suc i * size ≡ i * size + size = omega arith in
      let rest = listed-Tiles_on (suc i) xs (omega arith) (rw next f.1) in
      let past : ltb (i * size) falses ≡ false = ground arith in
      rw past (refl, refl, f.0, rw next at rest)

  pub listed-Tiles_from :
      (c i : ℕ) (hs : List String)
      → 0 < size
      → falses ≡ c * size
      → i ≤ c
      → Fills size stop (i * size) hs
      → Tiles size total stop falses (listed name size total falses i hs)
  unfolding listed
  listed-Tiles_from c i [] filled e h f = grind arith
  listed-Tiles_from c i (x ∷ xs) filled e h f =
      let next : suc i * size ≡ i * size + size = omega arith in
      elim (Bool-cases (ltb (i * size) falses)) [
        | inl masked ↦
            rw masked (listed-Tiles_from c (suc i) xs filled e (grind arith) (rw next f.1))
        | inr past ↦
            let first : i * size ≡ falses = grind arith in
            subst (λ z. Tiles size total stop z (listed name size total falses i (x ∷ xs))) first
              (listed-Tiles_on i (x ∷ xs) (ground arith) f)
      ]
