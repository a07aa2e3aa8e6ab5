-- ===== src/Controller/Kv/Pool.antt =====
-- What `admit`, `evict` and `deregister` do to the pool.
use Prim.Native.String.{String}
use text.Mathlib.Text.{◌==◌ as str_eq}
use text.Mathlib.TextEquality.{eq_iff}
use mtds.Prelude.{
  ℕ, ◌≡◌, ◌↔◌, refl, subst, false, Option, none, some, List, [], ◌∷◌, ◌++◌, if◌then◌else◌, ok,
  runtime_error, Option-cases, Bool-cases, List-cases, inl, inr, arith,
}
use mtds.Dict.{
  get, contains, assign, string_eq, get-assign, assign-assign, get-delete, AllValues,
  AllValues-assign, AllValues-delete,
}
use mtds.Controller.Kv.{
  KvChunkMetadata, Pool, KvMsg, metadata_of, lookup_pool, admit, held_by, is_chunk_of, without,
  store_or_delete, evict, deregister_from, deregister,
}
use mtds.Controller.Kv.Entries.{
  NonEmpty, IsNamed, Removed, HasOther, IsHeldBy, without-Removed, without-HasOther,
  HasOther-without, is_chunk_of_iff, held_by_iff,
}

-- Every key of the pool has a holder.
abbrev pub HasHolders : Pool → Type 0
HasHolders pool = AllValues NonEmpty pool

-- Unless its instance id is itself a key of the pool, an admission leaves its chunk as the only one
-- of its key, whatever the pool held for the key before; the other keys keep what they have.
pub admit_resets :
    (pool : Pool) (msg : KvMsg)
    → contains msg.instance_id pool ≡ false
    → (pool' : Pool) × (admit pool msg ≡ ok pool')
      × ((j : String)
          → get j pool' ≡ (if str_eq msg.key j then some (metadata_of msg ∷ []) else get j pool))
unfolding admit lookup_pool
admit_resets pool msg fresh =
    let pool₁ = assign msg.key [] pool in
    let here = get-assign msg.key msg.key [] pool in
    (
      assign msg.key (metadata_of msg ∷ []) pool₁,
      rw fresh (ground (arith, here, eq_iff msg.key msg.key)),
      λ j.
          ground (
            arith,
            get-assign msg.key j (metadata_of msg ∷ []) pool₁,
            get-assign msg.key j [] pool,
          ),
    )

-- The holders that a key has left, if any.
abbrev pub kept : Option (List KvChunkMetadata) → Option (List KvChunkMetadata)
kept none = none
kept (some []) = none
kept (some (m ∷ ms)) = some (m ∷ ms)

get-store_or_delete :
    (k j : String) (ms : List KvChunkMetadata) (pool : Pool)
    → get j (store_or_delete k ms pool) ≡ (if str_eq k j then kept (some ms) else get j pool)
unfolding store_or_delete
get-store_or_delete k j [] pool = get-delete k j pool
get-store_or_delete k j (m ∷ ms) pool = get-assign k j (m ∷ ms) pool

-- Where the pool has the key of the message, an eviction takes from it the entries with the worker and
-- the place of the message and leaves the others in their order, and the key goes with its last entry;
-- the other keys keep what they have.
pub get-evict :
    (pool : Pool) (msg : KvMsg) (ms : List KvChunkMetadata)
    → get msg.key pool ≡ some ms
    → (rest : List KvChunkMetadata) × Removed (IsNamed msg) ms rest
      × ((j : String)
          → get j (evict pool msg) ≡ (if str_eq msg.key j then kept (some rest) else get j pool))
unfolding evict
get-evict pool msg ms e = (
  without (is_chunk_of msg) ms,
  without-Removed (is_chunk_of msg) (IsNamed msg) (is_chunk_of_iff msg) ms,
  λ j. rw (e, evict) (get-store_or_delete msg.key j (without (is_chunk_of msg) ms) pool),
)

NonEmpty-snoc : (ms : List KvChunkMetadata) (m : KvChunkMetadata) → NonEmpty (ms ++ m ∷ [])
NonEmpty-snoc [] m = tt
NonEmpty-snoc (n ∷ ms) m = tt

store_or_delete-HasHolders :
    (k : String) (ms : List KvChunkMetadata) (pool : Pool)
    → HasHolders pool
    → HasHolders (store_or_delete k ms pool)
unfolding store_or_delete
store_or_delete-HasHolders k [] pool h = AllValues-delete NonEmpty k pool h
store_or_delete-HasHolders k (m ∷ ms) pool h = AllValues-assign NonEmpty k (m ∷ ms) pool tt h

pub evict-HasHolders : (pool : Pool) (msg : KvMsg) → HasHolders pool → HasHolders (evict pool msg)
unfolding evict
evict-HasHolders pool msg h = elim (Option-cases (get msg.key pool)) [
  | inl miss ↦ rw (miss, evict) h
  | inr (ms, hit) ↦
      rw (hit, evict) (store_or_delete-HasHolders msg.key (without (is_chunk_of msg) ms) pool h)
]

AllValues-append : (xs ys : Pool) → HasHolders xs → HasHolders ys → HasHolders (xs ++ ys)
AllValues-append [] ys hx hy = hy
AllValues-append ((k, ms) ∷ xs) ys hx hy = (hx.0, AllValues-append xs ys hx.1 hy)

pub deregister_from-HasHolders :
    (instance_id : String) (worker_id : ℕ) (seen pool : Pool)
    → HasHolders seen
    → HasHolders pool
    → HasHolders (deregister_from instance_id worker_id seen pool).0
unfolding deregister_from
deregister_from-HasHolders instance_id worker_id seen [] hs hp = hs
deregister_from-HasHolders instance_id worker_id seen ((k, ms) ∷ rest) hs hp =
    elim (List-cases (without (held_by instance_id worker_id) ms)) [
      | inl gone ↦ rw (gone, deregister_from) (AllValues-append seen rest hs hp.1)
      | inr (m, more, left) ↦
          rw (left, deregister_from)
            (deregister_from-HasHolders instance_id worker_id (seen ++ (k, m ∷ more) ∷ []) rest
              (AllValues-append seen ((k, m ∷ more) ∷ []) hs (tt, tt)) hp.1)
    ]

pub admit-HasHolders :
    (pool pool' : Pool) (msg : KvMsg)
    → admit pool msg ≡ ok pool'
    → HasHolders pool
    → HasHolders pool'
unfolding admit lookup_pool
admit-HasHolders pool pool' msg e h = elim (Bool-cases (contains msg.instance_id pool)) [
  | inl known ↦ elim (Option-cases (get msg.key pool)) [
    | inl miss ↦ absurd (ground arith)
    | inr (ms, hit) ↦ subst HasHolders (ground arith) (
        AllValues-assign NonEmpty msg.key (ms ++ metadata_of msg ∷ []) pool
          (NonEmpty-snoc ms (metadata_of msg)) h)
  ]
  | inr fresh ↦
      subst HasHolders
        (ground (
          arith,
          get-assign msg.key msg.key [] pool,
          eq_iff msg.key msg.key,
          assign-assign msg.key (metadata_of msg ∷ []) [] pool,
        ))
        (AllValues-assign NonEmpty msg.key (metadata_of msg ∷ []) pool tt h)
]

-- Every key has something left without the chunks of the worker.
abbrev Survives : String → ℕ → Pool → Type 0
Survives instance_id worker_id pool =
    AllValues (λ ms. NonEmpty (without (held_by instance_id worker_id) ms)) pool

deregister_from_clean :
    (instance_id : String) (worker_id : ℕ) (seen pool : Pool)
    → Survives instance_id worker_id pool
    → (deregister_from instance_id worker_id seen pool).1 ≡ none
unfolding deregister_from
deregister_from_clean instance_id worker_id seen [] sh = refl
deregister_from_clean instance_id worker_id seen ((k, ms) ∷ rest) sh =
    elim (List-cases (without (held_by instance_id worker_id) ms)) [
      | inl gone ↦ absurd (rw gone at sh.0)
      | inr (m, more, left) ↦
          rw (left, deregister_from)
            (deregister_from_clean instance_id worker_id (seen ++ (k, m ∷ more) ∷ []) rest sh.1)
    ]

deregister_from_raises :
    (instance_id : String) (worker_id : ℕ) (seen pool : Pool)
    → (deregister_from instance_id worker_id seen pool).1 ≡ none
    → Survives instance_id worker_id pool
unfolding deregister_from
deregister_from_raises instance_id worker_id seen [] e = tt
deregister_from_raises instance_id worker_id seen ((k, ms) ∷ rest) e =
    elim (List-cases (without (held_by instance_id worker_id) ms)) [
      | inl gone ↦ let bad : some runtime_error ≡ none = rw (gone, deregister_from) at e in cc
      | inr (m, more, left) ↦ (
        rw left tt,
        deregister_from_raises instance_id worker_id (seen ++ (k, m ∷ more) ∷ []) rest
            (rw (left, deregister_from) at e),
      )
    ]

-- Every key has a holder that is another worker.
abbrev pub Shared : String → ℕ → Pool → Type 0
Shared instance_id worker_id pool = AllValues (HasOther (IsHeldBy instance_id worker_id)) pool

Survives-Shared :
    (instance_id : String) (worker_id : ℕ) (pool : Pool)
    → Survives instance_id worker_id pool ↔ Shared instance_id worker_id pool
Survives-Shared instance_id worker_id [] = (λ h. h, λ h. h)
Survives-Shared instance_id worker_id ((k, ms) ∷ rest) =
    let p = held_by instance_id worker_id in
    let decides = held_by_iff instance_id worker_id in
    let later = Survives-Shared instance_id worker_id rest in
    (
      λ h. (without-HasOther p (IsHeldBy instance_id worker_id) decides ms h.0, later.0 h.1),
      λ h. (HasOther-without p (IsHeldBy instance_id worker_id) decides ms h.0, later.1 h.1),
    )

-- The removal of a worker raises nothing exactly where every key of the pool has a holder with another
-- instance or another worker id.
pub deregister_iff :
    (pool : Pool) (instance_id : String) (worker_id : ℕ)
    → ((deregister pool instance_id worker_id).1 ≡ none) ↔ Shared instance_id worker_id pool
unfolding deregister
deregister_iff pool instance_id worker_id =
    let shared = Survives-Shared instance_id worker_id pool in
    (
      λ e. shared.0 (deregister_from_raises instance_id worker_id [] pool e),
      λ h. deregister_from_clean instance_id worker_id [] pool (shared.1 h),
    )
