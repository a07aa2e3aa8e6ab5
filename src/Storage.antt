-- ===== src/Storage.antt =====
-- MTDS/v1/storage_backend/storage_manager.py: `StorageManager` over its backends. `W` is the state
-- that the backends share with the allocator, `K` the keys and `O` the memory objects. `put_tasks` is
-- never read. A call with a future that has its result is the call that returns it, and `get` is that
-- of a key for which no prefetch is under way.
pub mod Search
pub mod Local
pub mod Serves
pub mod Tests
use Prim.Native.String.{String}
use text.Mathlib.Text.{◌==◌ as str_eq}
use mtds.Prelude.{
  ℕ, ◌+◌, Bool, true, false, ◌||◌, Option, none, some, List, [], ◌∷◌, ◌++◌, if◌then◌else◌, Result,
  ok, raise, ensure, ◌>>=◌, ◌>>◌, assertion_error,
}
use mtds.Memory.Objects.{MemoryFormat, Dtype}

-- `clear` is `none` for a backend without one. A prefetch says whether it has a task.
pub record StorageBackend (W K O : Type 0) : Type 0 where
  pub name : String
  pub contains : W → K → Bool → W × Bool
  pub exists_in_put_tasks : W → K → Bool
  pub submit_put_task : W → K → O → Result W
  pub submit_prefetch_task : W → K → W × Bool
  pub get_blocking : W → K → W × Option O
  pub get_non_blocking : W → K → W × Option O
  pub remove : W → K → Result (W × Bool)
  pub unpin : W → K → W
  pub clear : Option (W → Result (W × ℕ))

-- The backends in their order, and what the manager asks of `local_cpu_backend` and of the objects.
pub record StorageManager (W K O : Type 0) : Type 0 where
  pub storage_backends : List (StorageBackend W K O)
  pub local_contains : W → K → Bool
  pub write_back : W → K → O → W
  pub allocate : W → List ℕ → Option Dtype → MemoryFormat → Bool → Result (W × Option O)
  pub ref_count_down : W → O → Result W

-- `name in names`
abbrev pub mem_name : String → List String → Bool
mem_name name [] = false
mem_name name (n ∷ names) = str_eq n name || mem_name name names

-- A range of `None` is all backends.
abbrev pub in_range : Option (List String) → String → Bool
in_range none name = true
in_range (some names) name = mem_name name names

abbrev pub count_bool : Bool → ℕ
count_bool true = 1
count_bool false = 0

module _ {W K O : Type 0} where
  unfoldable pub any_putting : List (StorageBackend W K O) → W → K → Bool
  any_putting [] w key = false
  any_putting (b ∷ bs) w key = b.exists_in_put_tasks w key || any_putting bs w key

  unfoldable pub submit_all : List (StorageBackend W K O) → W → K → O → Result W
  submit_all [] w key memory_obj = ok w
  submit_all (b ∷ bs) w key memory_obj = do
    w' ← b.submit_put_task w key memory_obj
    submit_all bs w' key memory_obj

  unfoldable pub put : StorageManager W K O → W → K → O → Result W
  unfolding any_putting submit_all
  put self w key memory_obj =
      if any_putting self.storage_backends w key then self.ref_count_down w memory_obj else (do
        w' ← submit_all self.storage_backends w key memory_obj
        self.ref_count_down w' memory_obj)

  unfoldable pub batched_put : StorageManager W K O → W → List K → List O → Result W
  unfolding put
  batched_put self w [] objs = ok w
  batched_put self w (key ∷ keys) [] = ok w
  batched_put self w (key ∷ keys) (o ∷ objs) = do
    w' ← put self w key o
    batched_put self w' keys objs

  -- An object of another backend is written back to the CPU.
  unfoldable pub search : StorageManager W K O → List (StorageBackend W K O) → W → K → W × Option O
  search self [] w key = (w, none)
  search self (b ∷ bs) w key =
      let (w', memory_obj) = b.get_blocking w key in
      elim memory_obj [
        | none ↦ search self bs w' key
        | some o ↦
            (if str_eq b.name "LocalCPUBackend" then w' else self.write_back w' key o, some o)
      ]

  unfoldable pub get : StorageManager W K O → W → K → W × Option O
  unfolding search
  get self w key = search self self.storage_backends w key

  unfoldable pub search_task : List (StorageBackend W K O) → W → K → W × Option O
  search_task [] w key = (w, none)
  search_task (b ∷ bs) w key =
      let (w', task) = b.get_non_blocking w key in
      elim task [ none ↦ search_task bs w' key | some o ↦ (w', some o) ]

  unfoldable pub get_non_blocking : StorageManager W K O → W → K → W × Option O
  unfolding search_task
  get_non_blocking self w key = search_task self.storage_backends w key

  -- The tasks of one layer.
  unfoldable pub layer_tasks : StorageManager W K O → W → List K → Result (W × List O)
  unfolding get_non_blocking
  layer_tasks self w [] = ok (w, [])
  layer_tasks self w (key ∷ keys) =
      let (w', task) = get_non_blocking self w key in
      elim task [
        | none ↦ raise assertion_error
        | some o ↦ do (w'', tasks) ← layer_tasks self w' keys; ok (w'', o ∷ tasks)
      ]

  -- What the generator yields, where its caller does nothing in between.
  unfoldable pub layerwise_batched_get :
      StorageManager W K O → W → List (List K) → Result (W × List (List O))
  unfolding layer_tasks
  layerwise_batched_get self w [] = ok (w, [])
  layerwise_batched_get self w (keys ∷ layers) = do
    (w', tasks) ← layer_tasks self w keys
    (w'', rest) ← layerwise_batched_get self w' layers
    ok (w'', tasks ∷ rest)

  unfoldable pub submit_prefetch : List (StorageBackend W K O) → W → K → W × Bool
  submit_prefetch [] w key = (w, false)
  submit_prefetch (b ∷ bs) w key =
      let (w', started) = b.submit_prefetch_task w key in
      if started then (w', true) else submit_prefetch bs w' key

  -- `prefetch_tasks` as its keys; `mem_key` tests `key in self.prefetch_tasks`.
  unfoldable pub prefetch : StorageManager W K O → (K → List K → Bool) → W → List K → K → W × List K
  unfolding submit_prefetch
  prefetch self mem_key w prefetch_tasks key =
      if self.local_contains w key || mem_key key prefetch_tasks
      then (w, prefetch_tasks)
      else let (w', started) = submit_prefetch self.storage_backends w key in
        (w', if started then prefetch_tasks ++ key ∷ [] else prefetch_tasks)

  unfoldable pub contains_in :
      List (StorageBackend W K O) → W → K → Option (List String) → Bool → W × Bool
  contains_in [] w key search_range pin = (w, false)
  contains_in (b ∷ bs) w key search_range pin = elim (in_range search_range b.name) [
    | false ↦ contains_in bs w key search_range pin
    | true ↦
        let (w', found) = b.contains w key pin in
        elim found [ true ↦ (w', true) | false ↦ contains_in bs w' key search_range pin ]
  ]

  unfoldable pub contains : StorageManager W K O → W → K → Option (List String) → Bool → W × Bool
  unfolding contains_in
  contains self w key search_range pin = contains_in self.storage_backends w key search_range pin

  -- The test is for the name of the CPU backend, whichever backend it is about.
  unfoldable pub remove_from :
      List (StorageBackend W K O) → W → K → Option (List String) → Result (W × ℕ)
  remove_from [] w key locations = ok (w, 0)
  remove_from (b ∷ bs) w key locations = elim (in_range locations "LocalCPUBackend") [
    | false ↦ remove_from bs w key locations
    | true ↦ do
      (w', removed) ← b.remove w key
      (w'', num_removed) ← remove_from bs w' key locations
      ok (w'', count_bool removed + num_removed)
  ]

  unfoldable pub remove : StorageManager W K O → W → K → Option (List String) → Result (W × ℕ)
  unfolding remove_from
  remove self w key locations = remove_from self.storage_backends w key locations

  unfoldable pub unpin_all : StorageBackend W K O → W → List K → W
  unpin_all b w [] = w
  unpin_all b w (key ∷ keys) = unpin_all b (b.unpin w key) keys

  unfoldable pub unpin_in : List (StorageBackend W K O) → W → List K → Option (List String) → W
  unfolding unpin_all
  unpin_in [] w keys locations = w
  unpin_in (b ∷ bs) w keys locations =
      unpin_in bs (if in_range locations b.name then unpin_all b w keys else w) keys locations

  unfoldable pub batched_unpin : StorageManager W K O → W → List K → Option (List String) → W
  unfolding unpin_in
  batched_unpin self w keys locations = unpin_in self.storage_backends w keys locations

  unfoldable pub clear_one : StorageBackend W K O → W → Option (List String) → Result (W × ℕ)
  clear_one b w locations =
      if in_range locations b.name
      then elim b.clear [ none ↦ ok (w, 0) | some f ↦ f w ]
      else ok (w, 0)

  unfoldable pub clear_in : List (StorageBackend W K O) → W → Option (List String) → Result (W × ℕ)
  unfolding clear_one
  clear_in [] w locations = ok (w, 0)
  clear_in (b ∷ bs) w locations = do
    (w', cleared) ← clear_one b w locations
    (w'', num_cleared) ← clear_in bs w' locations
    ok (w'', cleared + num_cleared)

  unfoldable pub clear : StorageManager W K O → W → Option (List String) → Result (W × ℕ)
  unfolding clear_in
  clear self w locations = clear_in self.storage_backends w locations
