-- ===== src/Controller/Kv/Entries.antt =====
-- The entries of a key that `evict` and `deregister` take away.
use Prim.Native.String.{String}
use text.Mathlib.TextEquality.{eq_iff}
use mtds.Prelude.{ℕ, ◌≡◌, ◌↔◌, ◌⊎◌, Bool, true, List, [], ◌∷◌, Bool-cases, inl, inr, arith}
use mtds.Controller.Kv.{KvChunkMetadata, KvMsg, held_by, is_chunk_of, without}

abbrev pub NonEmpty : List KvChunkMetadata → Type 0
NonEmpty [] = ⊥
NonEmpty (m ∷ ms) = Unit

-- The worker and the place of the message.
abbrev pub IsNamed : KvMsg → KvChunkMetadata → Type 0
IsNamed msg m =
    (m.instance_id ≡ msg.instance_id) × (m.worker_id ≡ msg.worker_id) × (m.location ≡ msg.location)

-- The second list is the first without the entries of which `P` holds.
pub data Removed (P : KvChunkMetadata → Type 0)
    : List KvChunkMetadata → List KvChunkMetadata → Type 0 where
  nothing : Removed P [] []
  leaves :
      {m : KvChunkMetadata} {ms rest : List KvChunkMetadata}
      → P m
      → Removed P ms rest
      → Removed P (m ∷ ms) rest
  stays :
      {m : KvChunkMetadata} {ms rest : List KvChunkMetadata}
      → (P m → ⊥)
      → Removed P ms rest
      → Removed P (m ∷ ms) (m ∷ rest)

-- Some entry is left without those of which `P` holds.
abbrev pub HasOther : (KvChunkMetadata → Type 0) → List KvChunkMetadata → Type 0
HasOther P [] = ⊥
HasOther P (m ∷ ms) = (P m → ⊥) ⊎ HasOther P ms

module _ (p : KvChunkMetadata → Bool) (P : KvChunkMetadata → Type 0)
    (decides : (m : KvChunkMetadata) → (p m ≡ true) ↔ P m) where
  pub without-Removed : (ms : List KvChunkMetadata) → Removed P ms (without p ms)
  unfolding without
  without-Removed [] = nothing
  without-Removed (m ∷ ms) = elim (Bool-cases (p m)) [
    | inl e ↦ rw e (leaves ((decides m).0 e) (without-Removed ms))
    | inr e ↦ rw e (stays (λ holds. ground (arith, e, (decides m).1 holds)) (without-Removed ms))
  ]

  pub without-HasOther : (ms : List KvChunkMetadata) → NonEmpty (without p ms) → HasOther P ms
  unfolding without
  without-HasOther [] h = h
  without-HasOther (m ∷ ms) h = elim (Bool-cases (p m)) [
    | inl e ↦ inr (without-HasOther ms (rw e at h))
    | inr e ↦ inl (λ holds. ground (arith, e, (decides m).1 holds))
  ]

  pub HasOther-without : (ms : List KvChunkMetadata) → HasOther P ms → NonEmpty (without p ms)
  unfolding without
  HasOther-without [] h = h
  HasOther-without (m ∷ ms) h = elim (Bool-cases (p m)) [
    | inl e ↦ elim h [
      | inl other ↦ absurd (other ((decides m).0 e))
      | inr later ↦ rw e (HasOther-without ms later)
    ]
    | inr e ↦ rw e tt
  ]

pub is_chunk_of_iff :
    (msg : KvMsg) (m : KvChunkMetadata) → (is_chunk_of msg m ≡ true) ↔ IsNamed msg m
unfolding is_chunk_of
is_chunk_of_iff msg m =
    let instance_iff = eq_iff m.instance_id msg.instance_id in
    let location_iff = eq_iff m.location msg.location in
    (
      λ h. ground (arith, instance_iff, location_iff),
      λ h. ground (arith, instance_iff, location_iff),
    )

abbrev pub IsHeldBy : String → ℕ → KvChunkMetadata → Type 0
IsHeldBy instance_id worker_id m = (m.instance_id ≡ instance_id) × (m.worker_id ≡ worker_id)

pub held_by_iff :
    (instance_id : String) (worker_id : ℕ) (m : KvChunkMetadata)
    → (held_by instance_id worker_id m ≡ true) ↔ IsHeldBy instance_id worker_id m
unfolding held_by
held_by_iff instance_id worker_id m =
    let instance_iff = eq_iff m.instance_id instance_id in
    (λ h. ground (arith, instance_iff), λ h. ground (arith, instance_iff))
