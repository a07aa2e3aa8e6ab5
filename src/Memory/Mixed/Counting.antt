-- ===== src/Memory/Mixed/Counting.antt =====
-- What the changes of a reference count do to the holders of the objects.
use mtds.Prelude.{
  ℕ, suc, ◌<◌, ◌≤◌, ◌≡◌, refl, sym, ◌∙◌, true, false, some, List, ◌∷◌, ◌++◌, ◌==◌, arith, get_elem?,
  set, length, Option-cases, Bool-cases, inl, inr, get_elem?-set, get_elem?-set_other, length-set,
  set-get_elem?, subst, ◌-◌, All-set, All-get, Result, ok,
}
use mtds.Prelude.Int.{pos-+ℤ, pos--ℤ}
use mtds.Memory.Objects.{TensorMemoryObj, ref_count_up, ref_count_down, pin, unpin, invalidate}
use mtds.Memory.SortedList.{SortedKeyList}
use mtds.Memory.Tensor.Run.{IsSound, Touch, up, down, pins, unpins, touch, touch-IsValid}
use mtds.Memory.Tensor.Free.{free-IsValid, free_twice}
use mtds.Memory.Mixed.{
  MixedMemoryAllocator, BytesBufferMemoryObj, change_object, change_buffer, set_pin, MemoryRef,
  tensor_obj, bytes_obj, free, release, retain, pin_ref, unpin_ref,
}
use mtds.Memory.Mixed.Counted.{uses, uses-append, IsKv, IsHeld, IsCounted}

module _ (k : ℕ) (self : MixedMemoryAllocator) where
  -- Fewer holders.
  pub fewer :
      {holders less : List MemoryRef}
      → ((i : ℕ) → uses i less ≤ uses i holders)
      → IsCounted k self holders
      → IsCounted k self less
  fewer {holders} {less} le c = record {
    sound = c.sound;
    formats = c.formats;
    counted = λ i held.
        let (o, n, at_i, valid, count, enough) = c.counted i (omega (arith, le i)) in
        (o, n, at_i, valid, count, omega (arith, le i));
  }

IsHeld-set :
    (objs : List TensorMemoryObj) (i j n : ℕ) (o : TensorMemoryObj)
    → (j == i) ≡ false
    → IsHeld objs j n
    → IsHeld (set objs i o) j n
IsHeld-set objs i j n o other (p, c, at_j, valid, count, enough) =
    (p, c, get_elem?-set_other objs i j o other ∙ at_j, valid, count, enough)

-- An object whose methods leave its bytes where they are.
touch-IsSound :
    (t : Touch) (k : ℕ) (self : MixedMemoryAllocator) (i : ℕ) (o : TensorMemoryObj)
    → get_elem? self.objects i ≡ some o
    → IsSound k self.pin_allocator self.objects
    → IsSound k self.pin_allocator (set self.objects i (touch t o))
touch-IsSound t k self i o at_i s = record {
  valid = touch-IsValid t o self.pin_allocator self.objects i at_i s.valid;
  power = s.power;
}

touch-IsKv : (t : Touch) (o : TensorMemoryObj) → IsKv o → IsKv (touch t o)
unfolding ref_count_up ref_count_down pin unpin
touch-IsKv up o h = h
touch-IsKv down o h = h
touch-IsKv pins o h = h
touch-IsKv unpins o h = h

-- What is left of a call that raises nothing.
abbrev pub Leaves : ℕ → MixedMemoryAllocator → List MemoryRef → Result MixedMemoryAllocator → Type 0
Leaves k self holders r =
    (self' : MixedMemoryAllocator) × (r ≡ ok self')
    × IsCounted k self' holders
    × (length self'.objects ≡ length self.objects)

module _ (sl : SortedKeyList) (k : ℕ) (self : MixedMemoryAllocator) (holders : List MemoryRef)
    (c : IsCounted k self holders) (i : ℕ) where
  others :
      (o : TensorMemoryObj)
      → uses i holders ≡ 0
      → (j : ℕ) → 0 < uses j holders
      → IsHeld (set self.objects i o) j (uses j holders)
  others o unheld j held = elim (Bool-cases (j == i)) [
    | inl same ↦ absurd (ground (arith, same, unheld, held))
    | inr other ↦ IsHeld-set self.objects i j (uses j holders) o other (c.counted j held)
  ]

  -- An object that nobody holds is freed.
  free_unheld : uses i holders ≡ 0 → Leaves k self holders (free sl self (tensor_obj i))
  unfolding free
  free_unheld unheld = elim (Option-cases (get_elem? self.objects i)) [
    | inl miss ↦ (self, ground (arith, miss), c, refl)
    | inr (o, at_i) ↦ elim (Bool-cases o.valid) [
      | inl valid ↦
          let (pin', run, v, buffer, align) =
            free-IsValid sl self.pin_allocator self.objects c.sound.valid i o at_i valid in
          (
            record self { pin_allocator = pin'; objects = set self.objects i (invalidate o) },
            ground (arith, at_i, run, All-get IsKv self.objects i o at_i c.formats),
            record {
              sound = record { valid = v; power = align ∙ c.sound.power };
              formats =
                  All-set IsKv self.objects i (invalidate o)
                    (unfold invalidate in All-get IsKv self.objects i o at_i c.formats) c.formats;
              counted = others (invalidate o) unheld;
            },
            length-set self.objects i (invalidate o),
          )
      | inr gone ↦ (
        self,
        ground (
          arith,
          at_i,
          free_twice sl self.pin_allocator o gone,
          set-get_elem? self.objects i o at_i,
          All-get IsKv self.objects i o at_i c.formats,
        ),
        c,
        refl,
      )
    ]
  ]

-- The count of an object goes down, to the number of the holders that stay at least.
module _ (sl : SortedKeyList) (k : ℕ) (self : MixedMemoryAllocator) (holders : List MemoryRef)
    (c : IsCounted k self holders) (i : ℕ)
    (spare : 0 < uses i holders → IsHeld self.objects i (suc (uses i holders))) where
  module _ (o : TensorMemoryObj) (at_i : get_elem? self.objects i ≡ some o) where
    lowered : MixedMemoryAllocator
    lowered = record self { objects = set self.objects i (touch down o) }

    stays-IsHeld :
        0 < uses i holders → IsHeld (set self.objects i (touch down o)) i (uses i holders)
    unfolding ref_count_down
    stays-IsHeld held =
        let (p, n, at_p, valid, count, enough) = spare held in
        (
          touch down o,
          n - 1,
          get_elem?-set self.objects i (touch down o) o at_i,
          ground (arith, at_i, at_p, valid),
          ground (arith, at_i, at_p, count, pos--ℤ n 1 (omega arith)),
          omega arith,
        )

    lowered-IsCounted : IsCounted k lowered holders
    unfolding lowered
    lowered-IsCounted = record {
      sound = touch-IsSound down k self i o at_i c.sound;
      formats =
          All-set IsKv self.objects i (touch down o)
            (touch-IsKv down o (All-get IsKv self.objects i o at_i c.formats)) c.formats;
      counted = λ j held. elim (Bool-cases (j == i)) [
        | inl same ↦
            let e : j ≡ i = ground (arith, same) in
            subst (λ x. IsHeld (set self.objects i (touch down o)) x (uses x holders)) (sym e)
              (stays-IsHeld (subst (λ x. 0 < uses x holders) e held))
        | inr other ↦
            IsHeld-set self.objects i j (uses j holders) (touch down o) other (c.counted j held)
      ];
    }

    -- The parent is asked to free the object only where no holder stays.
    unheld : (name : ℕ) → (ref_count_down o).1 ≡ some name → uses i holders ≡ 0
    unfolding ref_count_down
    unheld name freed = elim (Bool-cases (0 == uses i holders)) [
      | inl none_left ↦ ground (arith, none_left)
      | inr some_left ↦
          let (p, n, at_p, valid, count, enough) = spare (ground (arith, some_left)) in
          absurd (ground (arith, at_i, at_p, count, freed, pos--ℤ n 1 (omega arith)))
    ]

    released : Leaves k self holders (release sl self (tensor_obj i))
    unfolding release lowered
    released = elim (Option-cases (ref_count_down o).1) [
      | inl kept ↦ (
        lowered,
        rw (at_i, release) (rw kept refl),
        lowered-IsCounted,
        length-set self.objects i (touch down o),
      )
      | inr (name, freed) ↦
          let (self', run, c', same) =
            free_unheld sl k lowered holders lowered-IsCounted i (unheld name freed) in
          (
            self',
            rw (at_i, release) (rw freed run),
            c',
            same ∙ length-set self.objects i (touch down o),
          )
    ]

  pub release_spare : Leaves k self holders (release sl self (tensor_obj i))
  unfolding release
  release_spare = elim (Option-cases (get_elem? self.objects i)) [
    | inl miss ↦ (self, ground (arith, miss), c, refl)
    | inr (o, at_i) ↦ released o at_i
  ]

module _ (sl : SortedKeyList) (k : ℕ) (self : MixedMemoryAllocator) (holders : List MemoryRef) where
  -- Whoever holds an object may give it up.
  pub release-IsCounted :
      (ref : MemoryRef)
      → IsCounted k self (ref ∷ holders)
      → Leaves k self holders (release sl self ref)
  unfolding release
  release-IsCounted (bytes_obj i) c = (self, refl, fewer k self (λ j. omega arith) c, refl)
  release-IsCounted (tensor_obj i) c =
      release_spare sl k self holders (fewer k self (λ j. omega arith) c) i
        (λ held. subst (IsHeld self.objects i) (ground arith) (c.counted i (ground arith)))

  -- Nothing happens to the holders where the count of an object that nobody holds goes down.
  pub release_unheld :
      (i : ℕ)
      → uses i holders ≡ 0
      → IsCounted k self holders
      → Leaves k self holders (release sl self (tensor_obj i))
  release_unheld i unheld c = release_spare sl k self holders c i (λ held. absurd (omega arith))

-- Somebody holds the object.
abbrev pub IsAmong : MemoryRef → List MemoryRef → Type 0
IsAmong (tensor_obj i) holders = 0 < uses i holders
IsAmong (bytes_obj i) holders = Unit

pub IsAmong-append :
    (ref : MemoryRef) (xs ys : List MemoryRef) → IsAmong ref ys → IsAmong ref (xs ++ ys)
IsAmong-append (tensor_obj i) xs ys held = omega (arith, uses-append i xs ys)
IsAmong-append (bytes_obj i) xs ys held = tt

-- A method that changes the count to `more` and more.
module _ (t : Touch) (k : ℕ) (self : MixedMemoryAllocator) (i : ℕ) (o : TensorMemoryObj)
    (at_i : get_elem? self.objects i ≡ some o) (holders after : List MemoryRef) where
  touch-IsCounted :
      ((j : ℕ) → (j == i) ≡ false → uses j after ≡ uses j holders)
      → (0 < uses i after → IsHeld (set self.objects i (touch t o)) i (uses i after))
      → IsCounted k self holders
      → IsCounted k (record self { objects = set self.objects i (touch t o) }) after
  touch-IsCounted same here c = record {
    sound = touch-IsSound t k self i o at_i c.sound;
    formats =
        All-set IsKv self.objects i (touch t o)
          (touch-IsKv t o (All-get IsKv self.objects i o at_i c.formats)) c.formats;
    counted = λ j held. elim (Bool-cases (j == i)) [
      | inl e' ↦
          let e : j ≡ i = ground (arith, e') in
          subst (λ x. IsHeld (set self.objects i (touch t o)) x (uses x after)) (sym e)
            (here (subst (λ x. 0 < uses x after) e held))
      | inr other ↦ IsHeld-set self.objects i j (uses j after) (touch t o) other (
          subst (IsHeld self.objects j) (sym (same j other))
            (c.counted j (subst (λ n. 0 < n) (same j other) held)))
    ];
  }

change_object-hit :
    (f : TensorMemoryObj → TensorMemoryObj) (self : MixedMemoryAllocator) (i : ℕ)
    (o : TensorMemoryObj)
    → get_elem? self.objects i ≡ some o
    → change_object f self i ≡ record self { objects = set self.objects i (f o) }
change_object-hit f self i o at_i = ground (arith, at_i)

module _ (k : ℕ) (self : MixedMemoryAllocator) (holders : List MemoryRef)
    (c : IsCounted k self holders) where
  -- Whoever sees a held object may hold it too.
  pub retain-IsCounted :
      (ref : MemoryRef) → IsAmong ref holders → IsCounted k (retain self ref) (ref ∷ holders)
  unfolding retain ref_count_up
  retain-IsCounted (bytes_obj i) among = fewer k self (λ j. omega arith) c
  retain-IsCounted (tensor_obj i) among =
      let (o, n, at_i, valid, count, enough) = c.counted i among in
      subst (λ s. IsCounted k s (tensor_obj i ∷ holders))
        (sym (change_object-hit ref_count_up self i o at_i))
        (touch-IsCounted up k self i o at_i holders (tensor_obj i ∷ holders)
          (λ j other. ground (arith, other))
          (λ held. (
            touch up o,
            suc n,
            get_elem?-set self.objects i (touch up o) o at_i,
            valid,
            ground (arith, count, pos-+ℤ n 1),
            ground arith,
          ))
          c)

  -- A pin is no reference.
  marked-IsCounted :
      (t : Touch) (i : ℕ)
      → ((o : TensorMemoryObj) → (touch t o).valid ≡ o.valid)
      → ((o : TensorMemoryObj) → (touch t o).meta.ref_count ≡ o.meta.ref_count)
      → IsCounted k (change_object (touch t) self i) holders
  marked-IsCounted t i valid_same count_same = elim (Option-cases (get_elem? self.objects i)) [
    | inl miss ↦
        let same : self ≡ change_object (touch t) self i = ground (arith, miss) in
        subst (λ s. IsCounted k s holders) same c
    | inr (o, at_i) ↦
        subst (λ s. IsCounted k s holders) (sym (change_object-hit (touch t) self i o at_i))
          (touch-IsCounted t k self i o at_i holders holders (λ j other. refl)
            (λ held.
              let (p, n, at_p, valid, count, enough) = c.counted i held in
              (
                touch t o,
                n,
                get_elem?-set self.objects i (touch t o) o at_i,
                ground (arith, at_i, at_p, valid, valid_same o),
                ground (arith, at_i, at_p, count, count_same o),
                enough,
              ))
            c)
  ]

  buffer-IsCounted :
      (f : BytesBufferMemoryObj → BytesBufferMemoryObj) (i : ℕ)
      → IsCounted k (change_buffer f self i) holders
  buffer-IsCounted f i = elim (Option-cases (get_elem? self.buffers i)) [
    | inl miss ↦
        let same : self ≡ change_buffer f self i = ground (arith, miss) in
        subst (λ s. IsCounted k s holders) same c
    | inr (o, at_i) ↦
        let changed : record self { buffers = set self.buffers i (f o) } ≡ change_buffer f self i =
          ground (arith, at_i) in
        subst (λ s. IsCounted k s holders) changed
          (record { sound = c.sound; formats = c.formats; counted = c.counted })
  ]

  pub pin_ref-IsCounted : (ref : MemoryRef) → IsCounted k (pin_ref self ref) holders
  unfolding pin_ref pin
  pin_ref-IsCounted (tensor_obj i) = marked-IsCounted pins i (λ o. refl) (λ o. refl)
  pin_ref-IsCounted (bytes_obj i) = buffer-IsCounted (set_pin true) i

  pub unpin_ref-IsCounted : (ref : MemoryRef) → IsCounted k (unpin_ref self ref) holders
  unfolding unpin_ref unpin
  unpin_ref-IsCounted (tensor_obj i) = marked-IsCounted unpins i (λ o. refl) (λ o. refl)
  unpin_ref-IsCounted (bytes_obj i) = buffer-IsCounted (set_pin false) i
