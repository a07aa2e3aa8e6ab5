-- ===== src/Evictor/Generations.antt =====
-- The older evictor beside the newer one.
use mtds.Prelude.{ℕ, ◌≡◌, refl, ap, false, [], ◌∷◌, ltb, if◌then◌else◌, ok, raise}
use mtds.Prelude.Int.{ℤ, pos, ◌-ℤ◌}
use mtds.Dict.{Dict, AllValues}
use mtds.Evictor.{
  illegal, settle, LruEvictor, CachedValue, get_size, evict_until, update_on_put, evict_all_until,
  update_on_put_v0,
}

abbrev pub IsKnown : CachedValue → Type 0
IsKnown v = (n : ℕ) × (get_size v ≡ ok n)

unfoldable pub size_of : CachedValue → ℕ
size_of v = elim (get_size v) [ ok n ↦ n | raise e ↦ 0 ]

size_of_known : (v : CachedValue) (n : ℕ) → get_size v ≡ ok n → size_of v ≡ n
unfolding size_of
size_of_known v n e = rw (e, size_of) refl

module _ {ℓ} {K : Type ℓ} where
  same_loop :
      (limit cache_size : ℕ) (current : ℤ) (d : Dict K CachedValue)
      → AllValues IsKnown d
      → evict_all_until limit cache_size current d
        ≡ evict_until size_of (λ v. false) limit cache_size current d
  unfolding evict_all_until evict_until
  same_loop limit cache_size current [] known = refl
  same_loop limit cache_size current ((k, v) ∷ d) ((n, e), known) =
      rw (e, size_of_known v n e, same_loop limit cache_size (current -ℤ pos n) d known) refl

  -- Where nothing is pinned and every value has a size, the older evictor does what the newer one does.
  pub update_on_put_v0-update_on_put :
      (self : LruEvictor) (d : Dict K CachedValue) (cache_size : ℕ)
      → AllValues IsKnown d
      → update_on_put_v0 self d cache_size ≡ update_on_put size_of (λ v. false) self d cache_size
  unfolding update_on_put_v0 update_on_put
  update_on_put_v0-update_on_put self d cache_size known =
      let same = same_loop self.max_cache_size cache_size self.current_cache_size d known in
      ap
        (λ r.
          if ltb self.max_cache_size cache_size
          then (self, ok ([], illegal))
          else settle self cache_size r)
        same
