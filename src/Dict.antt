-- ===== src/Dict.antt =====
-- A Python dictionary, an `OrderedDict` too, as the list of its items in their order: a new key goes
-- to the end, and an assignment to a key that is there keeps its place.
use Prim.Native.String.{String}
use text.Mathlib.Text.{◌==◌ as str_eq}
use text.Mathlib.TextEquality.{eq_iff}
use mtds.Prelude.{
  ℕ, ◌≡◌, ◌↔◌, refl, Bool, true, false, ◌&&◌, Option, none, some, List, [], ◌∷◌, ◌++◌,
  if◌then◌else◌, arith, Option-cases, Bool-cases, subst, inl, inr, ◌==◌ as nat_eqb,
}

-- `__eq__` of the keys.
pub record Eq {ℓ} (K : Type ℓ) : Type ℓ where
  pub beq : K → K → Bool
  pub beq_iff : (a b : K) → (beq a b ≡ true) ↔ (a ≡ b)

instance abbrev pub string_eq : Eq String
string_eq = record { beq = str_eq; beq_iff = eq_iff }

-- A worker of an instance.
abbrev pub WorkerKey : Type 0
WorkerKey = String × ℕ

abbrev pub worker_key_eq : WorkerKey → WorkerKey → Bool
worker_key_eq (i, w) (j, v) = str_eq i j && nat_eqb w v

pub worker_key_eq_iff : (a b : WorkerKey) → (worker_key_eq a b ≡ true) ↔ (a ≡ b)
worker_key_eq_iff (i, w) (j, v) = (λ h. ground (arith, eq_iff i j), λ h. ground (arith, eq_iff i j))

instance abbrev pub worker_eq : Eq WorkerKey
worker_eq = record { beq = worker_key_eq; beq_iff = worker_key_eq_iff }

pub beq_refl {ℓ} : {K : Type ℓ} ⦃eq : Eq K⦄ (k : K) → eq.beq k k ≡ true
beq_refl ⦃eq⦄ k = (eq.beq_iff k k).1 refl

abbrev pub Dict {ℓ κ} : Type ℓ → Type κ → Type (ℓ ⊔ κ)
Dict K V = List (K × V)

module _ {ℓ κ} {K : Type ℓ} {V : Type κ} ⦃eq : Eq K⦄ where
  unfoldable pub get : K → Dict K V → Option V
  get k [] = none
  get k ((j, v) ∷ d) = if eq.beq j k then some v else get k d

  unfoldable pub contains : K → Dict K V → Bool
  contains k [] = false
  contains k ((j, v) ∷ d) = if eq.beq j k then true else contains k d

  -- `d[k] = v`
  unfoldable pub assign : K → V → Dict K V → Dict K V
  assign k v [] = (k, v) ∷ []
  assign k v ((j, w) ∷ d) = if eq.beq j k then (j, v) ∷ d else (j, w) ∷ assign k v d

  -- `del d[k]`, and what `pop` leaves.
  unfoldable pub delete : K → Dict K V → Dict K V
  delete k [] = []
  delete k ((j, w) ∷ d) = let rest = delete k d in if eq.beq j k then rest else (j, w) ∷ rest

  unfoldable pub move_to_end : K → Dict K V → Dict K V
  unfolding get delete
  move_to_end k d = elim (get k d) [ none ↦ d | some v ↦ delete k d ++ (k, v) ∷ [] ]

  pub get-assign :
      (k j : K) (v : V) (d : Dict K V)
      → get j (assign k v d) ≡ (if eq.beq k j then some v else get j d)
  unfolding get assign
  get-assign k j v [] = refl
  get-assign k j v ((i, w) ∷ d) =
      ground (arith, eq.beq_iff k j, eq.beq_iff i k, eq.beq_iff i j, get-assign k j v d)

  -- The last assignment to a key is the one that counts.
  pub assign-assign : (k : K) (v w : V) (d : Dict K V) → assign k v (assign k w d) ≡ assign k v d
  unfolding assign
  assign-assign k v w [] = ground (arith, beq_refl k)
  assign-assign k v w ((j, u) ∷ d) = ground (arith, assign-assign k v w d)

  pub get-delete :
      (k j : K) (d : Dict K V) → get j (delete k d) ≡ (if eq.beq k j then none else get j d)
  unfolding get delete
  get-delete k j [] = ground arith
  get-delete k j ((i, w) ∷ d) =
      ground (arith, eq.beq_iff k j, eq.beq_iff i k, eq.beq_iff i j, get-delete k j d)

  pub get-append :
      (j : K) (d e : Dict K V)
      → get j (d ++ e) ≡ elim (get j d) [ none ↦ get j e | some v ↦ some v ]
  unfolding get
  get-append j [] e = refl
  get-append j ((i, w) ∷ d) e = ground (arith, get-append j d e)

  -- A change of the order hides nothing.
  pub get-move_to_end : (k j : K) (d : Dict K V) → get j (move_to_end k d) ≡ get j d
  unfolding move_to_end get
  get-move_to_end k j d = elim (Option-cases (get k d)) [
    | inl miss ↦ rw (miss, move_to_end)
    | inr (v, hit) ↦
        rw (hit, move_to_end)
          (ground
            (arith, hit, get-append j (delete k d) ((k, v) ∷ []), get-delete k j d, eq.beq_iff k j))
  ]

  pub contains-get :
      (k : K) (d : Dict K V) → contains k d ≡ elim (get k d) [ none ↦ false | some _ ↦ true ]
  unfolding contains get
  contains-get k [] = refl
  contains-get k ((j, v) ∷ d) = ground (arith, contains-get k d)

module _ {ℓ κ} {K : Type ℓ} {V : Type κ} ⦃eq : Eq K⦄ where
  pub contains-miss : (k : K) (d : Dict K V) → contains k d ≡ false → get k d ≡ none
  contains-miss k d fresh = elim (Option-cases (get k d)) [
    | inl miss ↦ miss
    | inr (v, hit) ↦ absurd (ground (arith, contains-get k d, hit))
  ]

-- A predicate on every value.
abbrev pub AllValues {ℓ κ μ} : {K : Type ℓ} {V : Type κ} → (V → Type μ) → Dict K V → Type μ
AllValues P [] = Unit
AllValues P ((k, v) ∷ d) = P v × AllValues P d

module _ {ℓ κ μ} {K : Type ℓ} {V : Type κ} ⦃eq : Eq K⦄ (P : V → Type μ) where
  pub AllValues-assign :
      (k : K) (v : V) (d : Dict K V) → P v → AllValues P d → AllValues P (assign k v d)
  unfolding assign
  AllValues-assign k v [] p all = (p, all)
  AllValues-assign k v ((j, w) ∷ d) p all = elim (Bool-cases (eq.beq j k)) [
    | inl same ↦ rw same (p, all.1)
    | inr other ↦ rw other (all.0, AllValues-assign k v d p all.1)
  ]

  pub AllValues-delete : (k : K) (d : Dict K V) → AllValues P d → AllValues P (delete k d)
  unfolding delete
  AllValues-delete k [] all = all
  AllValues-delete k ((j, w) ∷ d) all = elim (Bool-cases (eq.beq j k)) [
    | inl same ↦ rw same (AllValues-delete k d all.1)
    | inr other ↦ rw other (all.0, AllValues-delete k d all.1)
  ]

  pub AllValues-get : (k : K) (v : V) (d : Dict K V) → get k d ≡ some v → AllValues P d → P v
  unfolding get
  AllValues-get k v [] e all = absurd (ground arith)
  AllValues-get k v ((j, w) ∷ d) e all = elim (Bool-cases (eq.beq j k)) [
    | inl same ↦ subst P (ground arith) all.0
    | inr other ↦ AllValues-get k v d (ground arith) all.1
  ]
