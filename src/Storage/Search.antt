-- ===== src/Storage/Search.antt =====
-- The order in which the backends are asked.
use Prim.Native.String.{String}
use text.Mathlib.Text.{◌==◌ as str_eq}
use mtds.Prelude.{
  ◌≡◌, refl, Bool, true, false, Option, none, some, List, [], ◌∷◌, if◌then◌else◌, arith, All,
  Bool-cases, inl, inr,
}
use mtds.Storage.{StorageBackend, StorageManager, search, get, contains_in, contains, in_range}

module _ {W K O : Type 0} where
  -- A backend that has a key says so and returns an object; one that has not changes nothing.
  pub record IsBackend (has : String → W → K → Bool) (b : StorageBackend W K O) : Type 0 where
    pub contains_miss :
        (w : W) (key : K) (pin : Bool)
        → has b.name w key ≡ false
        → b.contains w key pin ≡ (w, false)
    pub contains_hit :
        (w : W) (key : K) (pin : Bool)
        → has b.name w key ≡ true
        → (w' : W) × (b.contains w key pin ≡ (w', true))
    pub get_miss : (w : W) (key : K) → has b.name w key ≡ false → b.get_blocking w key ≡ (w, none)
    pub get_hit :
        (w : W) (key : K)
        → has b.name w key ≡ true
        → (w' : W) × (o : O) × (b.get_blocking w key ≡ (w', some o))

  -- The first backend of the range that has the key.
  abbrev pub first_holder :
      (String → W → K → Bool)
      → List (StorageBackend W K O)
      → W
      → K
      → Option (List String)
      → Option (StorageBackend W K O)
  first_holder has [] w key range = none
  first_holder has (b ∷ bs) w key range =
      let rest = first_holder has bs w key range in
      if in_range range b.name then (if has b.name w key then some b else rest) else rest

  module _ (has : String → W → K → Bool) where
    contains_in-first_holder :
        (bs : List (StorageBackend W K O)) (w : W) (key : K) (range : Option (List String))
        (pin : Bool)
        → All (IsBackend has) bs
        → contains_in bs w key range pin ≡ elim (first_holder has bs w key range) [
          | none ↦ (w, false)
          | some b ↦ b.contains w key pin
        ]
    unfolding contains_in
    contains_in-first_holder [] w key range pin laws = refl
    contains_in-first_holder (b ∷ bs) w key range pin (law, laws) =
        let rest = contains_in-first_holder bs w key range pin laws in
        elim (Bool-cases (in_range range b.name)) [
          | inr outside ↦ ground (arith, outside, rest)
          | inl inside ↦ elim (Bool-cases (has b.name w key)) [
            | inl hit ↦
                let (w', answer) = law.contains_hit w key pin hit in
                ground (arith, inside, hit, answer)
            | inr miss ↦ ground (arith, inside, miss, law.contains_miss w key pin miss, rest)
          ]
        ]

    -- What comes back from a backend: an object of another one is written back to the CPU.
    abbrev pub give_back : StorageManager W K O → StorageBackend W K O → W → K → W × Option O
    give_back self b w key =
        let (w', memory_obj) = b.get_blocking w key in
        elim memory_obj [
          | none ↦ (w', none)
          | some o ↦
              (if str_eq b.name "LocalCPUBackend" then w' else self.write_back w' key o, some o)
        ]

    search-first_holder :
        (self : StorageManager W K O) (bs : List (StorageBackend W K O)) (w : W) (key : K)
        → All (IsBackend has) bs
        → search self bs w key ≡ elim (first_holder has bs w key none) [
          | none ↦ (w, none)
          | some b ↦ give_back self b w key
        ]
    unfolding search
    search-first_holder self [] w key laws = refl
    search-first_holder self (b ∷ bs) w key (law, laws) =
        let rest = search-first_holder self bs w key laws in
        elim (Bool-cases (has b.name w key)) [
          | inl hit ↦ let (w', o, answer) = law.get_hit w key hit in ground (arith, hit, answer)
          | inr miss ↦ ground (arith, miss, law.get_miss w key miss, rest)
        ]

    -- Of backends that keep to their interface, only the first one of the range that has the key is
    -- asked to any effect: `contains` answers and pins as that one does, and `get` returns its
    -- object, which is written back to the CPU if another backend had it. Where none has the key,
    -- `contains` answers `False`, `get` returns `None`, and nothing changes.
    pub contains-get :
        (self : StorageManager W K O) (w : W) (key : K) (range : Option (List String)) (pin : Bool)
        → All (IsBackend has) self.storage_backends
        → (contains self w key range pin
            ≡ elim (first_holder has self.storage_backends w key range) [
              | none ↦ (w, false)
              | some b ↦ b.contains w key pin
            ])
          × (get self w key ≡ elim (first_holder has self.storage_backends w key none) [
            | none ↦ (w, none)
            | some b ↦ give_back self b w key
          ])
    unfolding contains get
    contains-get self w key range pin laws = (
      contains_in-first_holder self.storage_backends w key range pin laws,
      search-first_holder self self.storage_backends w key laws,
    )
