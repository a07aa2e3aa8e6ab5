-- ===== src/Memory/Paged/Pages.antt =====
-- Who owns which page: every page is in the queue or with one caller, and its object lies in it.
use mtds.Prelude.{
  ℕ, zero, suc, ◌+◌, ◌*◌, ◌≤◌, ◌<◌, ◌≡◌, refl, ap, true, false, some, List, [], ◌∷◌, ◌++◌, length,
  get_elem?, ltb, ◌==◌, if◌then◌else◌, length-append, Bool-cases, inl, inr, arith, Option-cases,
  subst, subst₂, sym, ◌∙◌, ◌⊎◌,
}
use mathlib.Core.Option
use mtds.Memory.Objects.{slices, TensorMemoryObj}
use mtds.Memory.Paged.{shape_eq, update}

abbrev pub count : ℕ → List ℕ → ℕ
count i [] = 0
count i (j ∷ js) = let rest = count i js in if j == i then suc rest else rest

pub count-append : (i : ℕ) (js ks : List ℕ) → count i (js ++ ks) ≡ count i js + count i ks
count-append i [] ks = omega arith
count-append i (j ∷ js) ks = ground (arith, count-append i js ks)

pub get_elem?-update :
    (os : List TensorMemoryObj) (j i : ℕ) (f : TensorMemoryObj → TensorMemoryObj)
    → get_elem? (update os j f) i
      ≡ (if j == i then Option.map f (get_elem? os i) else get_elem? os i)
get_elem?-update [] j i f = ground arith
get_elem?-update (o ∷ os) zero zero f = refl
get_elem?-update (o ∷ os) zero (suc i) f = ground arith
get_elem?-update (o ∷ os) (suc j) zero f = ground arith
get_elem?-update (o ∷ os) (suc j) (suc i) f = ground (arith, get_elem?-update os j i f)

-- Where an object that stands in the list now has come from.
update-origin :
    (os : List TensorMemoryObj) (i j : ℕ) (f : TensorMemoryObj → TensorMemoryObj)
    (o : TensorMemoryObj)
    → get_elem? (update os i f) j ≡ some o
    → ((i ≡ j) × ((p : TensorMemoryObj) × (get_elem? os j ≡ some p) × (o ≡ f p)))
      ⊎ (((i == j) ≡ false) × (get_elem? os j ≡ some o))
update-origin os i j f o e = elim (Bool-cases (i == j)) [
  | inl same ↦ elim (Option-cases (get_elem? os j)) [
    | inl miss ↦ absurd (ground (arith, get_elem?-update os i j f, same, miss))
    | inr (p, hit) ↦
        inl (ground (arith, same), (p, hit, ground (arith, get_elem?-update os i j f, same, hit)))
  ]
  | inr other ↦ inr (other, ground (arith, get_elem?-update os i j f, other))
]

pub length-update :
    (os : List TensorMemoryObj) (j : ℕ) (f : TensorMemoryObj → TensorMemoryObj)
    → length (update os j f) ≡ length os
length-update [] j f = refl
length-update (o ∷ os) zero f = refl
length-update (o ∷ os) (suc j) f = ap suc (length-update os j f)

get_elem?-slices :
    (n offset size i : ℕ)
    → i < n
    → get_elem? (slices n offset size) i
      ≡ some (record { offset = offset + i * size; count = size })
get_elem?-slices zero offset size i h = absurd (omega arith)
get_elem?-slices (suc n) offset size zero h = ground arith
get_elem?-slices (suc n) offset size (suc i) h =
    ground (arith, get_elem?-slices n (offset + size) size i (omega arith))

pub get_elem?-page :
    (n size i : ℕ)
    → i < n
    → get_elem? (slices n 0 size) i ≡ some (record { offset = i * size; count = size })
get_elem?-page n size i h = ground (arith, get_elem?-slices n 0 size i h)

-- The object of page `i`: it is valid, knows its page, and lies at the start of it. Where it has the
-- shape of the allocator it is the whole page.
pub record Fits (shape : List ℕ) (align i : ℕ) (o : TensorMemoryObj) : Type 0 where
  pub is_valid : o.valid ≡ true
  pub address : o.meta.address ≡ i
  pub start : o.raw_data.offset ≡ i * align
  pub inside : o.raw_data.count ≤ align
  pub uncut : shape_eq o.meta.shape shape ≡ true → o.raw_data.count ≡ align

pub record IsOwned (shape : List ℕ) (align n : ℕ) (objects : List TensorMemoryObj)
    (free live : List ℕ) : Type 0 where
  pub all_pages : length objects ≡ n
  pub once : (i : ℕ) → count i free + count i live ≡ (if ltb i n then 1 else 0)
  pub total : length free + length live ≡ n
  pub fits : (i : ℕ) (o : TensorMemoryObj) → get_elem? objects i ≡ some o → Fits shape align i o
  pub whole :
      (i : ℕ) (o : TensorMemoryObj)
      → get_elem? objects i ≡ some o
      → 0 < count i free
      → o.raw_data.count ≡ align

module _ (shape : List ℕ) (align n : ℕ) (objects : List TensorMemoryObj) where
  -- The order of the callers does not count.
  pub IsOwned-order :
      (free live live' : List ℕ)
      → ((i : ℕ) → count i live ≡ count i live')
      → length live ≡ length live'
      → IsOwned shape align n objects free live
      → IsOwned shape align n objects free live'
  IsOwned-order free live live' same size owned = record {
    all_pages = owned.all_pages;
    once = λ i. ground (arith, owned.once i, same i);
    total = ground (arith, owned.total, size);
    fits = owned.fits;
    whole = owned.whole;
  }

  pub IsOwned-pop :
      (i : ℕ) (rest live : List ℕ) (f : TensorMemoryObj → TensorMemoryObj)
      → ((o : TensorMemoryObj)
          → Fits shape align i o
          → o.raw_data.count ≡ align
          → Fits shape align i (f o))
      → IsOwned shape align n objects (i ∷ rest) live
      → IsOwned shape align n (update objects i f) rest (i ∷ live)
  IsOwned-pop i rest live f keeps owned = record {
    all_pages = ground (arith, length-update objects i f, owned.all_pages);
    once = λ j. ground (arith, owned.once j);
    total = ground (arith, owned.total);
    fits = λ j o e. elim (update-origin objects i j f o e) [
      | inl (same, (p, at, image)) ↦ subst₂ (Fits shape align) same (sym image) (
          keeps p (subst (λ k. Fits shape align k p) (sym same) (owned.fits j p at))
            (owned.whole j p at (ground (arith, same))))
      | inr (other, at) ↦ owned.fits j o at
    ];
    whole = λ j o e h. elim (update-origin objects i j f o e) [
      | inl (same, (p, at, image)) ↦ absurd (ground (arith, same, owned.once j))
      | inr (other, at) ↦ owned.whole j o at (ground (arith, other))
    ];
  }

  pub IsOwned-push :
      (i : ℕ) (free live : List ℕ) (o : TensorMemoryObj)
      → get_elem? objects i ≡ some o
      → IsOwned shape align n objects free (i ∷ live)
      → o.raw_data.count ≡ align
      → IsOwned shape align n objects (free ++ i ∷ []) live
  IsOwned-push i free live o at owned full = record {
    all_pages = owned.all_pages;
    once = λ j. ground (arith, owned.once j, count-append j free (i ∷ []));
    total = ground (arith, owned.total, length-append free (i ∷ []));
    fits = owned.fits;
    whole = λ j p e h. elim (Bool-cases (i == j)) [
      | inl same ↦
          let there : get_elem? objects j ≡ some o =
            subst (λ k. get_elem? objects k ≡ some o) (ground (arith, same)) at in
          ground (arith, there, e, full)
      | inr other ↦ owned.whole j p e (ground (arith, other, count-append j free (i ∷ [])))
    ];
  }

  -- The object gets its whole page back.
  pub IsOwned-refill :
      (i : ℕ) (free live : List ℕ)
      → IsOwned shape align n objects free live
      → IsOwned shape align n
          (update objects i
            (λ o. record o { raw_data = record { offset = i * align; count = align } }))
          free
          live
  IsOwned-refill i free live owned =
      let refill : TensorMemoryObj → TensorMemoryObj =
        λ o. record o { raw_data = record { offset = i * align; count = align } } in
      record {
        all_pages = ground (arith, length-update objects i refill, owned.all_pages);
        once = owned.once;
        total = owned.total;
        fits = λ j o e. elim (update-origin objects i j refill o e) [
          | inl (same, (p, at, image)) ↦ subst₂ (Fits shape align) same (sym image) (record {
            is_valid = (owned.fits j p at).is_valid;
            address = (owned.fits j p at).address ∙ sym same;
            start = refl;
            inside = omega arith;
            uncut = λ e. refl;
          })
          | inr (other, at) ↦ owned.fits j o at
        ];
        whole = λ j o e h. elim (update-origin objects i j refill o e) [
          | inl (same, (p, at, image)) ↦ ap (λ q. q.raw_data.count) image
          | inr (other, at) ↦ owned.whole j o at h
        ];
      }
