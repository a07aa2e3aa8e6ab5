-- ===== src/Controller.antt =====
-- MTDS/v1/cache_controller: which instance holds which chunk, and which workers are registered.
pub mod Kv
pub mod Registration
mod Tests
