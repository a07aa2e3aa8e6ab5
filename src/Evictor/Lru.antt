-- ===== src/Evictor/Lru.antt =====
-- What the newer evictor drops: the oldest entries that are not pinned, and no more of them than it
-- takes.
use mtds.Prelude.{
  ℕ, ◌+◌, ◌-◌, ◌≤◌, ◌<◌, ◌≡◌, refl, ap, ◌∙◌, Bool, true, false, List, [], ◌∷◌, ◌++◌, ltb,
  if◌then◌else◌, ok, raise, stop_iteration, Bool-cases, inl, inr, arith,
}
use mtds.Prelude.Int.{pos, ◌+ℤ◌, ◌-ℤ◌, ltb_ℤ, pos-+ℤ, pos--ℤ}
use mtds.Dict.{Dict}
use mtds.Evictor.{legal, LruEvictor, evict_until, update_on_put}

-- What the loop has left of `current` bytes after an entry.
abbrev after_entry {κ} : {V : Type κ} → (V → ℕ) → (V → Bool) → ℕ → V → ℕ
after_entry size is_pinned current v = if is_pinned v then current else current - size v

pub over_iff :
    (limit cache_size current : ℕ)
    → ltb_ℤ (pos limit) (pos cache_size +ℤ pos current) ≡ ltb limit (cache_size + current)
over_iff limit cache_size current = rw pos-+ℤ (ground arith)

module _ {ℓ κ} {K : Type ℓ} {V : Type κ} (size : V → ℕ) (is_pinned : V → Bool) where
  -- The bytes of all entries, of those that are pinned, and of those that are not.
  abbrev pub bytes : Dict K V → ℕ
  bytes [] = 0
  bytes ((k, v) ∷ d) = size v + bytes d

  abbrev pub pinned_bytes : Dict K V → ℕ
  pinned_bytes [] = 0
  pinned_bytes ((k, v) ∷ d) = (if is_pinned v then size v else 0) + pinned_bytes d

  abbrev pub loose_bytes : Dict K V → ℕ
  loose_bytes [] = 0
  loose_bytes ((k, v) ∷ d) = (if is_pinned v then 0 else size v) + loose_bytes d

  abbrev pub loose_keys : Dict K V → List K
  loose_keys [] = []
  loose_keys ((k, v) ∷ d) = let ks = loose_keys d in if is_pinned v then ks else k ∷ ks

  bytes_split : (d : Dict K V) → bytes d ≡ pinned_bytes d + loose_bytes d
  bytes_split [] = refl
  bytes_split ((k, v) ∷ d) = ground (arith, bytes_split d)

  module _ (limit cache_size : ℕ) where
    -- `pre` is what the loop went through, where it started with `current` bytes: what is left fits,
    -- and after any shorter prefix it did not.
    pub record Evicts (current : ℕ) (d pre post : Dict K V) : Type (ℓ ⊔ κ) where
      pub split : d ≡ pre ++ post
      pub fits : cache_size + (current - loose_bytes pre) ≤ limit
      pub least :
          (a : Dict K V) (x : K × V) (b : Dict K V)
          → pre ≡ a ++ x ∷ b
          → limit < cache_size + (current - loose_bytes a)

    nothing_before :
        (current : ℕ) (a : Dict K V) (x : K × V) (b : Dict K V)
        → [] ≡ a ++ x ∷ b
        → limit < cache_size + (current - loose_bytes a)
    nothing_before current [] x b e = absurd (ground arith)
    nothing_before current (y ∷ a) x b e = absurd (ground arith)

    stays : (current : ℕ) (d : Dict K V) → cache_size + current ≤ limit → Evicts current d [] d
    stays current d fit = record {
      split = refl;
      fits = omega (arith, fit);
      least = λ a x b e. nothing_before current a x b e;
    }

    least_cons :
        (current : ℕ) (k : K) (v : V) (pre : Dict K V)
        → limit < cache_size + current
        → ((a : Dict K V) (x : K × V) (b : Dict K V)
            → pre ≡ a ++ x ∷ b
            → limit < cache_size + (after_entry size is_pinned current v - loose_bytes a))
        → (a : Dict K V) (x : K × V) (b : Dict K V) → (k, v) ∷ pre ≡ a ++ x ∷ b
        → limit < cache_size + (current - loose_bytes a)
    least_cons current k v pre over least [] x b e = omega (arith, over)
    least_cons current k v pre over least ((j, w) ∷ a) x b e =
        let same : v ≡ w = ground (arith, e) in
        ground (arith, least a x b (ground (arith, e)), same)

    goes_on :
        (current : ℕ) (k : K) (v : V) (d pre post : Dict K V)
        → limit < cache_size + current
        → Evicts (after_entry size is_pinned current v) d pre post
        → Evicts current ((k, v) ∷ d) ((k, v) ∷ pre) post
    goes_on current k v d pre post over rest = record {
      split = ap (◌∷◌ (k, v)) rest.split;
      fits = ground (arith, rest.fits);
      least = least_cons current k v pre over rest.least;
    }

    next_current :
        (current : ℕ) (k : K) (v : V) (d : Dict K V)
        → loose_bytes ((k, v) ∷ d) ≤ current
        → (if is_pinned v then pos current else pos current -ℤ pos (size v))
          ≡ pos (after_entry size is_pinned current v)
    next_current current k v d below = elim (Bool-cases (is_pinned v)) [
      | inl pinned ↦ rw pinned refl
      | inr loose ↦ rw loose (pos--ℤ current (size v) (ground (arith, below, loose)))
    ]

    left_after :
        (current : ℕ) (k : K) (v : V) (n : ℕ)
        → after_entry size is_pinned current v - n
          ≡ current - ((if is_pinned v then 0 else size v) + n)
    left_after current k v n = ground arith

    -- Where the pinned entries leave room, the loop ends with the shortest prefix that makes room.
    pub evict_until-Evicts :
        (current : ℕ) (d : Dict K V)
        → loose_bytes d ≤ current
        → cache_size + (current - loose_bytes d) ≤ limit
        → (pre post : Dict K V) × (evict_until size is_pinned limit cache_size (pos current) d
            ≡ (pos (current - loose_bytes pre), ok (loose_keys pre)))
          × Evicts current d pre post
    unfolding evict_until
    evict_until-Evicts current [] below fit = (
      [],
      [],
      rw (over_iff limit cache_size current) (ground arith),
      stays current [] (omega (arith, fit)),
    )
    evict_until-Evicts current ((k, v) ∷ d) below fit =
        elim (Bool-cases (ltb limit (cache_size + current))) [
          | inl over ↦
              let (pre, post, e, rest) =
                evict_until-Evicts (after_entry size is_pinned current v) d (ground (arith, below))
                  (ground (arith, fit)) in
              (
                (k, v) ∷ pre,
                post,
                rw (over_iff limit cache_size current, over, next_current current k v d below, e)
                    (ap (λ c. (pos c, ok (loose_keys ((k, v) ∷ pre))))
                      (left_after current k v (loose_bytes pre))),
                goes_on current k v d pre post (ground (arith, over)) rest,
              )
          | inr enough ↦ (
            [],
            (k, v) ∷ d,
            rw (over_iff limit cache_size current, enough) (ap (λ c. (pos c, ok [])) (omega arith)),
            stays current ((k, v) ∷ d) (ground (arith, enough)),
          )
        ]

    -- Where they do not, the loop runs through all entries and raises.
    pub evict_until_raises :
        (current : ℕ) (d : Dict K V)
        → loose_bytes d ≤ current
        → limit < cache_size + (current - loose_bytes d)
        → evict_until size is_pinned limit cache_size (pos current) d
          ≡ (pos (current - loose_bytes d), raise stop_iteration)
    unfolding evict_until
    evict_until_raises current [] below short =
        rw (over_iff limit cache_size current) (ground (arith, short))
    evict_until_raises current ((k, v) ∷ d) below short =
        let rest =
          evict_until_raises (after_entry size is_pinned current v) d (ground (arith, below))
            (ground (arith, short)) in
        let over : ltb limit (cache_size + current) ≡ true = ground (arith, short) in
        rw (over_iff limit cache_size current, over, next_current current k v d below, rest)
          (ap (λ c. (pos c, raise stop_iteration)) (left_after current k v (loose_bytes d)))

  bytes-append : (a b : Dict K V) → bytes (a ++ b) ≡ bytes a + bytes b
  bytes-append [] b = omega arith
  bytes-append ((k, v) ∷ a) b = omega (arith, bytes-append a b)

  module _ (self : LruEvictor) (d : Dict K V) (cache_size : ℕ)
      (counted : self.current_cache_size ≡ pos (bytes d)) where
    -- Where the counter is right and the pinned entries leave room for the new one, the put is legal.
    -- It evicts the entries that are not pinned of the shortest run of oldest entries that makes room,
    -- and the counter then is what stays and the new entry, within the limit.
    pub update_on_put-Evicts :
        cache_size + pinned_bytes d ≤ self.max_cache_size
        → (pre post : Dict K V) × (update_on_put size is_pinned self d cache_size ≡ (
          record self { current_cache_size = pos (pinned_bytes pre + bytes post + cache_size) },
          ok (loose_keys pre, legal),
        ))
          × Evicts self.max_cache_size cache_size (bytes d) d pre post
          × (pinned_bytes pre + bytes post + cache_size ≤ self.max_cache_size)
    unfolding update_on_put
    update_on_put-Evicts room =
        let (pre, post, e, evicts) =
          evict_until-Evicts self.max_cache_size cache_size (bytes d) d
            (omega (arith, bytes_split d)) (omega (arith, bytes_split d, room)) in
        let all : bytes d ≡ bytes pre + bytes post =
          ap bytes evicts.split ∙ bytes-append pre post in
        let fit : ltb self.max_cache_size cache_size ≡ false = ground (arith, room) in
        let e' : evict_until size is_pinned self.max_cache_size cache_size self.current_cache_size d
            ≡ (pos (bytes d - loose_bytes pre), ok (loose_keys pre)) =
          rw counted e in
        let left : bytes d - loose_bytes pre + cache_size
            ≡ pinned_bytes pre + bytes post + cache_size =
          omega (arith, all, bytes_split pre) in
        (pre, post, rw (fit, e', pos-+ℤ, left) refl, evicts, omega (arith, left, evicts.fits))

    -- Where the counter is right and the new entry is within the limit, but the pinned entries leave no
    -- room for it, the put raises `StopIteration`, and the counter has lost all that is not pinned.
    pub update_on_put_raises :
        cache_size ≤ self.max_cache_size
        → self.max_cache_size < cache_size + pinned_bytes d
        → update_on_put size is_pinned self d cache_size
          ≡ (record self { current_cache_size = pos (pinned_bytes d) }, raise stop_iteration)
    unfolding update_on_put
    update_on_put_raises legal_size short =
        let e =
          evict_until_raises self.max_cache_size cache_size (bytes d) d
            (omega (arith, bytes_split d)) (omega (arith, bytes_split d, short)) in
        let left : bytes d - loose_bytes d ≡ pinned_bytes d = omega (arith, bytes_split d) in
        let fit : ltb self.max_cache_size cache_size ≡ false = ground (arith, legal_size) in
        let e' : evict_until size is_pinned self.max_cache_size cache_size self.current_cache_size d
            ≡ (pos (bytes d - loose_bytes d), raise stop_iteration) =
          rw counted e in
        rw (fit, e', left) refl
