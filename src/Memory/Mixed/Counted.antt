-- ===== src/Memory/Mixed/Counted.antt =====
-- Who holds references to the objects of the mixed allocator, and that no object that somebody holds
-- has been freed.
use mtds.Prelude.{
  ℕ, ◌+◌, ◌<◌, ◌≤◌, ◌≡◌, true, some, List, [], ◌∷◌, ◌++◌, ◌==◌, arith, if◌then◌else◌, get_elem?,
  All,
}
use mtds.Prelude.Int.{pos}
use mtds.Memory.Objects.{TensorMemoryObj}
use mtds.Memory.Tensor.Run.{IsSound}
use mtds.Memory.Mixed.{MixedMemoryAllocator, MemoryRef, tensor_obj, bytes_obj, target, to_pin}

abbrev pub names : ℕ → MemoryRef → ℕ
names i (tensor_obj j) = if i == j then 1 else 0
names i (bytes_obj j) = 0

-- How many of the references name the object at `i`.
abbrev pub uses : ℕ → List MemoryRef → ℕ
uses i [] = 0
uses i (ref ∷ refs) = names i ref + uses i refs

pub uses-append : (i : ℕ) (xs ys : List MemoryRef) → uses i (xs ++ ys) ≡ uses i xs + uses i ys
uses-append i [] ys = omega arith
uses-append i (ref ∷ xs) ys = omega (arith, uses-append i xs ys)

-- An object of the pinned memory.
abbrev pub IsKv : TensorMemoryObj → Type 0
IsKv o = target o.meta.fmt ≡ to_pin

-- A valid object with a count of at least `n`.
abbrev pub IsHeld : List TensorMemoryObj → ℕ → ℕ → Type 0
IsHeld objs i n =
    (o : TensorMemoryObj) × (c : ℕ) × (get_elem? objs i ≡ some o)
    × (o.valid ≡ true)
    × (o.meta.ref_count ≡ pos c)
    × (n ≤ c)

-- The invariant of the pinned memory, and every object that is held is valid and has at least as many
-- counts as holders.
pub record IsCounted (k : ℕ) (self : MixedMemoryAllocator) (holders : List MemoryRef) : Type 0 where
  pub sound : IsSound k self.pin_allocator self.objects
  pub formats : All IsKv self.objects
  pub counted : (i : ℕ) → 0 < uses i holders → IsHeld self.objects i (uses i holders)
