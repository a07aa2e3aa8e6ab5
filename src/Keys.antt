-- ===== src/Keys.antt =====
-- MTDS/utils.py: the keys of the cache engine.
pub mod Text
pub mod RoundTrip
mod Tests
use Prim.Native.String.{String}
use text.Mathlib.Text.{◌==◌ as str_eq}
use text.Mathlib.TextEquality.{eq_iff}
use mtds.Prelude.{ℕ, zero, suc, ◌≡◌, ◌↔◌, Bool, true, ◌&&◌, List, [], ◌∷◌, ◌==◌, arith}
use mtds.Dict.{Eq}

pub record CacheEngineKey : Type 0 where
  pub fmt : String
  pub model_name : String
  pub world_size : ℕ
  pub worker_id : ℕ
  pub chunk_hash : String

-- `__eq__` of the dataclass.
unfoldable pub key_eq : CacheEngineKey → CacheEngineKey → Bool
key_eq a b =
    str_eq a.fmt b.fmt
    && (str_eq a.model_name b.model_name
        && (a.world_size == b.world_size
            && (a.worker_id == b.worker_id && str_eq a.chunk_hash b.chunk_hash)))

pub key_eq_iff : (a b : CacheEngineKey) → (key_eq a b ≡ true) ↔ (a ≡ b)
unfolding key_eq
key_eq_iff a b = (
  λ h. ground (
    arith,
    eq_iff a.fmt b.fmt,
    eq_iff a.model_name b.model_name,
    eq_iff a.chunk_hash b.chunk_hash,
  ),
  λ h. ground (
    arith,
    eq_iff a.fmt b.fmt,
    eq_iff a.model_name b.model_name,
    eq_iff a.chunk_hash b.chunk_hash,
  ),
)

instance abbrev pub chunk_key_eq : Eq CacheEngineKey
chunk_key_eq = record { beq = key_eq; beq_iff = key_eq_iff }

pub record LayerCacheEngineKey : Type 0 where
  pub base : CacheEngineKey
  pub layer_id : ℕ

-- `__eq__` of the subclass, whose fields are those of its base and the layer.
unfoldable pub layer_eq : LayerCacheEngineKey → LayerCacheEngineKey → Bool
unfolding key_eq
layer_eq a b = key_eq a.base b.base && a.layer_id == b.layer_id

pub layer_eq_iff : (a b : LayerCacheEngineKey) → (layer_eq a b ≡ true) ↔ (a ≡ b)
unfolding layer_eq
layer_eq_iff a b =
    (λ h. ground (arith, key_eq_iff a.base b.base), λ h. ground (arith, key_eq_iff a.base b.base))

instance abbrev pub layer_key_eq : Eq LayerCacheEngineKey
layer_key_eq = record { beq = layer_eq; beq_iff = layer_eq_iff }

-- What the backends read of a key, with or without a layer.
pub record KeyAttributes (K : Type 0) : Type 0 where
  pub worker_id : K → ℕ
  pub chunk_hash : K → String

instance abbrev pub chunk_key_attributes : KeyAttributes CacheEngineKey
chunk_key_attributes = record {
  worker_id = λ key. key.worker_id;
  chunk_hash = λ key. key.chunk_hash;
}

instance abbrev pub layer_key_attributes : KeyAttributes LayerCacheEngineKey
layer_key_attributes = record {
  worker_id = λ key. key.base.worker_id;
  chunk_hash = λ key. key.base.chunk_hash;
}

-- `range(num_layers)`, from `layer_id` on.
unfoldable pub layer_keys : CacheEngineKey → ℕ → ℕ → List LayerCacheEngineKey
layer_keys key layer_id zero = []
layer_keys key layer_id (suc n) =
    record { base = key; layer_id = layer_id } ∷ layer_keys key (suc layer_id) n

unfoldable pub split_layers : CacheEngineKey → ℕ → List LayerCacheEngineKey
split_layers key num_layers = layer_keys key 0 num_layers

unfoldable pub get_first_layer : CacheEngineKey → LayerCacheEngineKey
get_first_layer key = record { base = key; layer_id = 0 }
