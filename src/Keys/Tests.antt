-- ===== src/Keys/Tests.antt =====
-- The texts of keys at concrete inputs.
use mtds.Prelude.{◌≡◌, refl, ok, raise, value_error}
use mtds.Keys.{CacheEngineKey}
use mtds.Keys.Text.{
  digits, str, read_digits, int, split, to_string, from_string, key_of_parts, layer_to_string,
  layer_from_string,
}
use mtds.Keys.RoundTrip.{IsPlainKey, from_string-to_string}

program : Unit {0}
unfolding digits str read_digits int split to_string from_string key_of_parts
program = tt

abbrev key : CacheEngineKey
key = record {
  fmt = "vllm";
  model_name = "org/model";
  world_size = 16;
  worker_id = 0;
  chunk_hash = "a1b2";
}

written : to_string key ≡ "vllm@org/model@16@0@a1b2"
unfolding program
written = refl

-- A name with a separator is refused when it is read.
refused : from_string (to_string (record key { model_name = "a@b" })) ≡ raise value_error
unfolding program
refused = refl

key_plain : IsPlainKey key
key_plain = (
  (refl, (refl, (refl, (refl, tt)))),
  (refl, (refl, (refl, (refl, (refl, (refl, (refl, (refl, (refl, tt))))))))),
  (refl, (refl, (refl, (refl, tt)))),
)

from_string-to_string_example :
    (from_string (to_string key) ≡ ok key)
    × (layer_from_string (layer_to_string (record { base = key; layer_id = 7 }))
        ≡ ok (record { base = key; layer_id = 7 }))
from_string-to_string_example = from_string-to_string key 7 key_plain
