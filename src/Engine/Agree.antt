-- ===== src/Engine/Agree.antt =====
-- `lookup` and `retrieve` agree: both stop at the first chunk that is not stored.
use mtds.Prelude.{◌≡◌, Bool, true, false, Option, some, none, [], ◌∷◌, ok}
use mtds.Keys.{CacheEngineKey}
use mtds.Engine.{EngineStorage}

-- What the engine relies on: in a good state the manager answers what it has, and a question, or an
-- object that is fetched and given back, changes nothing of that.
pub record IsStorage {W O : Type 0} (manager : EngineStorage W CacheEngineKey O)
    (IsGood : W → Type 0) (has : W → CacheEngineKey → Bool) : Type 0 where
  pub contains_has :
      (w : W) (k : CacheEngineKey) (pin : Bool)
      → IsGood w
      → (manager.contains w k none pin).1 ≡ has w k
  pub contains_keeps :
      (w : W) (k : CacheEngineKey) (pin : Bool)
      → IsGood w
      → IsGood (manager.contains w k none pin).0
        × ((j : CacheEngineKey) → has (manager.contains w k none pin).0 j ≡ has w j)
  pub get_miss :
      (w : W) (k : CacheEngineKey)
      → IsGood w
      → has w k ≡ false
      → (w' : W) × (manager.get w k ≡ (w', none))
  pub get_hit :
      (w : W) (k : CacheEngineKey)
      → IsGood w
      → has w k ≡ true
      → (w' : W) × (o : O) × (w'' : W) × (manager.get w k ≡ (w', some o))
        × (manager.ref_count_down w' o ≡ ok w'')
        × IsGood (manager.batched_unpin w'' (k ∷ []) none)
        × ((j : CacheEngineKey) → has (manager.batched_unpin w'' (k ∷ []) none) j ≡ has w j)

-- No distributed server.
abbrev pub no_peer : {W O : Type 0} → W → CacheEngineKey → W × Option O
no_peer w k = (w, none)
