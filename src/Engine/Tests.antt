-- ===== src/Engine/Tests.antt =====
-- The cache engine at a concrete input: the first of two chunks is in the cache of the CPU.
use mtds.Prelude.{refl, true, false, some, arith}
use mtds.Tokens.{ChunkedTokenDatabase}
use mtds.Tokens.Process.{IsReady}
use mtds.Engine.{LookupServer, lookup}

abbrev db : ChunkedTokenDatabase
db = record {
  chunk_size = some 2;
  save_unfull_chunk = some true;
  metadata = some (record { model_name = "m"; world_size = 1; worker_id = 0; fmt = "vllm" });
}

abbrev ready : IsReady db
ready = record { size = 2; save = true; has_size = refl; has_save = refl; filled = omega arith }

abbrev nobody : LookupServer (Unit {0})
nobody = record { lookup = λ l k. false; insert = λ l k. l }
