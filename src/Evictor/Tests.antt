-- ===== src/Evictor/Tests.antt =====
-- The evictors at concrete inputs.
use mtds.Prelude.{
  ℕ, ◌+◌, ◌≤◌, ◌≡◌, refl, Bool, true, false, [], ◌∷◌, ok, raise, stop_iteration, arith,
}
use mtds.Prelude.Int.{pos, ◌+ℤ◌, ◌-ℤ◌}
use mtds.Dict.{Dict}
use mtds.Evictor.{
  legal, illegal, LruEvictor, CachedValue, kv_obj, bytearray, get_size, evict_until, update_on_put,
  evict_all_until, update_on_put_v0,
}
use mtds.Evictor.Lru.{
  Evicts, bytes, pinned_bytes, loose_keys, update_on_put-Evicts, update_on_put_raises,
}
use mtds.Evictor.Generations.{size_of, update_on_put_v0-update_on_put}

program : Unit {0}
unfolding get_size evict_until update_on_put evict_all_until update_on_put_v0 ◌+ℤ◌ ◌-ℤ◌
program = tt

-- An entry's size and pin.
abbrev Entry : Type 0
Entry = ℕ × Bool

abbrev size : Entry → ℕ
size e = e.0

abbrev is_pinned : Entry → Bool
is_pinned e = e.1

abbrev cache : Dict ℕ Entry
cache = (1, (30, true)) ∷ (2, (20, false)) ∷ (3, (40, false)) ∷ []

abbrev evictor : LruEvictor
evictor = record { max_cache_size = 100; current_cache_size = pos 90 }

one_evicted :
    update_on_put size is_pinned evictor cache 25
    ≡ (record evictor { current_cache_size = pos 95 }, ok (2 ∷ [], legal))
unfolding program
one_evicted = refl

too_large : update_on_put size is_pinned evictor cache 101 ≡ (evictor, ok ([], illegal))
unfolding program
too_large = refl

update_on_put-Evicts_example :
    (pre post : Dict ℕ Entry) × (update_on_put size is_pinned evictor cache 25 ≡ (
      record evictor {
        current_cache_size = pos (pinned_bytes size is_pinned pre + bytes size is_pinned post + 25);
      },
      ok (loose_keys size is_pinned pre, legal),
    ))
    × Evicts size is_pinned 100 25 90 cache pre post
    × (pinned_bytes size is_pinned pre + bytes size is_pinned post + 25 ≤ 100)
update_on_put-Evicts_example =
    update_on_put-Evicts size is_pinned evictor cache 25 refl (omega arith)

update_on_put_raises_example :
    update_on_put size is_pinned evictor cache 80
    ≡ (record evictor { current_cache_size = pos 30 }, raise stop_iteration)
update_on_put_raises_example =
    update_on_put_raises size is_pinned evictor cache 80 refl (omega arith) (omega arith)

abbrev old_cache : Dict ℕ CachedValue
old_cache = (1, kv_obj 30) ∷ (2, bytearray 60) ∷ []

update_on_put_v0-update_on_put_example :
    update_on_put_v0 evictor old_cache 25 ≡ update_on_put size_of (λ v. false) evictor old_cache 25
unfolding program
update_on_put_v0-update_on_put_example =
    update_on_put_v0-update_on_put evictor old_cache 25 ((30, refl), ((60, refl), tt))
