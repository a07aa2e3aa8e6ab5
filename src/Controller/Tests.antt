-- ===== src/Controller/Tests.antt =====
-- The controllers at concrete inputs.
use Prim.Native.String.{String}
use mtds.Prelude.{
  ◌≡◌, refl, none, some, List, [], ◌∷◌, ◌++◌, if◌then◌else◌, ok, raise, runtime_error,
  attribute_error, ◌↔◌,
}
use text.Mathlib.Text.{◌==◌ as str_eq}
use mtds.Dict.{get, contains, assign, delete, string_eq, worker_eq}
use mtds.Tokens.Tests
use mtds.Tokens.{Chunk, hash}
use mtds.Controller.Kv.{
  KvChunkMetadata, Pool, KvMsg, Layout, KvController, metadata_of, lookup_pool, admit, held_by,
  is_chunk_of, without, store_or_delete, evict, deregister_from, deregister, hash_of, first_of_list,
  scan, lookup,
}
use mtds.Controller.Kv
use mtds.Controller.Kv.Entries.{IsNamed, Removed}
use mtds.Controller.Kv.Pool.{admit_resets, kept, get-evict, Shared, deregister_iff}
use mtds.Controller.Kv.Lookup.{Reach, here, next, admits, scan_safe, lookup_raises}
use mtds.Controller.Registration.{
  RegistrationController, RegisterMsg, get_socket, get_workers, register, remove, drop_worker,
  drop_socket,
}
use mtds.Controller.Registration
use mtds.Controller.Registration.Rounds.{deregister-register, deregister_stale}

program : Unit {0}
unfolding lookup_pool admit held_by is_chunk_of without store_or_delete evict deregister_from
    deregister hash_of first_of_list scan get contains assign delete get_socket get_workers register
    remove drop_worker drop_socket Registration.store_or_delete Registration.deregister
program = tt

abbrev first_msg : KvMsg
first_msg = record { instance_id = "a"; worker_id = 0; key = "h"; location = "cpu" }

abbrev second_msg : KvMsg
second_msg = record { instance_id = "b"; worker_id = 1; key = "h"; location = "disk" }

abbrev one_holder : Pool
one_holder = ("h", metadata_of first_msg ∷ []) ∷ []

abbrev two_holders : Pool
two_holders = ("h", metadata_of first_msg ∷ metadata_of second_msg ∷ []) ∷ []

-- The second holder takes the place of the first.
second_admit : admit one_holder second_msg ≡ ok (("h", metadata_of second_msg ∷ []) ∷ [])
unfolding program
second_admit = refl

evict_run : evict two_holders first_msg ≡ ("h", metadata_of second_msg ∷ []) ∷ []
unfolding program
evict_run = refl

last_holder : deregister one_holder "a" 0 ≡ ([], some runtime_error)
unfolding program
last_holder = refl

admit_resets_example :
    (pool' : Pool) × (admit one_holder second_msg ≡ ok pool')
    × ((j : String)
        → get j pool'
          ≡ (if str_eq "h" j then some (metadata_of second_msg ∷ []) else get j one_holder))
unfolding program
admit_resets_example = admit_resets one_holder second_msg refl

get-evict_example :
    (rest : List KvChunkMetadata) × Removed
      (IsNamed first_msg)
      (metadata_of first_msg ∷ metadata_of second_msg ∷ [])
      rest
    × ((j : String)
        → get j (evict two_holders first_msg)
          ≡ (if str_eq "h" j then kept (some rest) else get j two_holders))
unfolding program
get-evict_example =
    get-evict two_holders first_msg (metadata_of first_msg ∷ metadata_of second_msg ∷ []) refl

deregister_iff_example : ((deregister two_holders "a" 0).1 ≡ none) ↔ Shared "a" 0 two_holders
deregister_iff_example = deregister_iff two_holders "a" 0

abbrev chunk : Chunk
chunk = record { start_idx = 0; end_idx = 2; name = hash "h" }

abbrev reached : Reach one_holder
unfolding program
reached =
    next here
      (admits (record { instance_id = "a"; worker_id = 0; key = "h"; location = "cpu" }) refl)

scan_safe_example : (found : Layout) × (scan one_holder (chunk ∷ []) [] ≡ ok found)
scan_safe_example = scan_safe (chunk ∷ []) [] reached (("h", refl), tt)

lookup_raises_example :
    lookup Tests.hashing (record Kv.init { kv_pool = one_holder }) (1 ∷ 2 ∷ [])
    ≡ raise attribute_error
lookup_raises_example = lookup_raises Tests.hashing one_holder (1 ∷ 2 ∷ [])

abbrev worker_msg : RegisterMsg
worker_msg = record { instance_id = "a"; worker_id = 0; ip = "10.0.0.1"; port = 80 }

abbrev empty : RegistrationController
empty = record { worker_mapping = []; socket_mapping = []; instance_mapping = []; closed = [] }

abbrev registered : RegistrationController
unfolding program
registered = register empty worker_msg 7

deregister-register_example :
    (self' : RegistrationController) × (Registration.deregister
        (register empty worker_msg 7)
        worker_msg
      ≡ (self', none))
    × ((j : String) → get_workers self' j ≡ get_workers empty j)
    × (get_socket self' "a" 0 ≡ none)
unfolding program
deregister-register_example = deregister-register empty worker_msg 7 refl

deregister_stale_example :
    (self' : RegistrationController) × (Registration.deregister
        (register registered worker_msg 8)
        worker_msg
      ≡ (self', none))
    × (get_workers self' "a" ≡ [] ++ 0 ∷ [])
    × (get_socket self' "a" 0 ≡ none)
unfolding program
deregister_stale_example = deregister_stale registered worker_msg 8 [] refl
