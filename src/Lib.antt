-- ===== src/Lib.antt =====
-- MTDS keeps the chunks of a language model's KV cache in several tiers (GPU, CPU, disk, remote) and
-- finds them again by the hash of the tokens in front of them. This library models the core of the
-- Python package MTDS/ by functions that return the new state beside their result; where the code can
-- raise, the result says so. The program's numbers are the native ℕ.
--
-- The parts, and how they meet:
--   Prelude     lists, errors and integers that the others share, and the rules for them.
--   Dict        a Python dictionary (an OrderedDict too) as the list of its items in their order.
--   Memory      MTDS/v1/memory_management.py: the objects and their reference counts
--               (Memory/Objects), the sorted list of free blocks (Memory/SortedList is the interface
--               that `sortedcontainers.SortedList` fills, with one instance), the search, the split
--               and `_coalesce` (Memory/FreeList), `TensorMemoryAllocator` (Memory/Tensor) and its
--               batched operations and `memcheck` (Memory/Batch), and
--               `PagedTensorMemoryAllocator` (Memory/Paged). An object is named by its place in
--               the store of all objects, so that the caller and the allocator share it.
--               Memory/Mixed is `MixedMemoryAllocator`, which keeps the objects that it has made and
--               frees one whose last count goes (`release` is `ref_count_down` with that call).
--   Keys        MTDS/utils.py: the keys of the cache engine. Keys/Text has their texts.
--   Tokens      MTDS/v1/token_database.py: `ChunkedTokenDatabase`. Its keys name the memory objects
--               in the storage backends, and its hashes name the chunks in the controller's pool.
--               SHA-256 and the encodings are the parameter `Hashing`.
--   Controller  MTDS/v1/cache_controller/controllers: `KVController` (Controller/Kv) and
--               `RegistrationController` (Controller/Registration).
--   Evictor     MTDS/v1/storage_backend/evictor and MTDS/storage_backend/evictor: the two LRU
--               evictors, over any cache whose values have a size and a pin.
--   Protocol    MTDS/v1/protocol.py: the metadata and the messages of both sides as bytes. Protocol/Text has
--               the texts of the keys as UTF-8, and what Python does to them.
--   Server      MTDS/v1/server: the store of the remote server, and `handle_client` from the bytes of a
--               connection to the bytes that are sent back. The socket is a list of bytes.
--   Pool        MTDS/storage_backend/mem_pool: the chunk pool of the older backends.
--   LocalCpu    MTDS/v1/storage_backend/local_cpu_backend.py: the hot cache over the mixed allocator,
--               with the loops that evict (LocalCpu/Batch is `batched_allocate`). LocalCpu/Run runs
--               programs of calls; its callers have the references that they were given.
--   Storage     MTDS/v1/storage_backend/storage_manager.py: `StorageManager` over an interface of
--               backends. Storage/Local puts the local CPU backend behind it.
--   Engine      MTDS/v1/cache_engine.py: `MTDSEngine` over the token database, an interface of the
--               storage (`EngineStorage`, which Storage/Local fills) and the lookup server.
--
-- Fuel: `chunks_from` takes the end of the tokens as fuel, and every round takes at least one token
-- from them since a step of zero is refused before. `digits` (Keys/Text) takes the number itself, and
-- divides it by ten in every round. `serve` (Server) takes one more than the length of the stream, and
-- every command takes bytes from it. The other loops recurse on the list they go through. A number in
-- the text of a key has plain digits: `int` accepts more, which the code never writes.
--
-- The engine asks its storage for chunks by the keys of Tokens, the storage its backends in their
-- order, and the local CPU backend its allocator for memory; a memory object is held by counts, one
-- for the cache and one for each caller.
--
-- Not modelled here: the locks (each call is one step), the contents of the tensors, the log, and the
-- waits for futures and threads, and the calls of torch, zmq and the cluster executor, which change no
-- state of these parts. Sizes are exact integers, as they are in Python.
pub mod Prelude
pub mod Memory
pub mod Dict
pub mod Keys
pub mod Tokens
pub mod Controller
pub mod Evictor
pub mod Protocol
pub mod Pool
pub mod Server
pub mod LocalCpu
pub mod Storage
pub mod Engine
