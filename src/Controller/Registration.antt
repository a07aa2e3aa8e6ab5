-- ===== src/Controller/Registration.antt =====
-- MTDS/v1/cache_controller/controllers/registration_controller.py: `RegistrationController`. Its
-- `health` only passes a message on to the cluster executor. A socket is named by a number.
pub mod Rounds
use Prim.Native.String.{String}
use mtds.Prelude.{
  ℕ, Option, none, some, List, [], ◌∷◌, ◌++◌, ◌==◌, if◌then◌else◌, Error, value_error,
}
use mtds.Dict.{Dict, WorkerKey, get, contains, assign, delete, string_eq, worker_eq}
use mathlib.Core.Option

-- `closed` lists the sockets that were handed to `close_zmq_socket`.
pub record RegistrationController : Type 0 where
  pub worker_mapping : Dict String (List ℕ)
  pub socket_mapping : Dict WorkerKey ℕ
  pub instance_mapping : Dict String String
  pub closed : List ℕ

-- `RegisterMsg` and `DeRegisterMsg` have the same fields; the port stands only in the socket's url.
pub record RegisterMsg : Type 0 where
  pub instance_id : String
  pub worker_id : ℕ
  pub ip : String
  pub port : ℕ

unfoldable pub get_socket : RegistrationController → String → ℕ → Option ℕ
get_socket self instance_id worker_id = get (instance_id, worker_id) self.socket_mapping

unfoldable pub get_workers : RegistrationController → String → List ℕ
get_workers self instance_id = Option.get_or (get instance_id self.worker_mapping) []

unfoldable pub get_instance_id : RegistrationController → String → Option String
get_instance_id self ip = get ip self.instance_mapping

-- `socket` is the connection that `get_zmq_socket` makes for the url.
unfoldable pub register : RegistrationController → RegisterMsg → ℕ → RegistrationController
register self msg socket =
    let workers =
      if contains msg.instance_id self.worker_mapping
      then self.worker_mapping
      else assign msg.instance_id [] self.worker_mapping in
    record self {
      instance_mapping = assign msg.ip msg.instance_id self.instance_mapping;
      socket_mapping = assign (msg.instance_id, msg.worker_id) socket self.socket_mapping;
      worker_mapping =
          assign msg.instance_id
            (Option.get_or (get msg.instance_id workers) [] ++ msg.worker_id ∷ []) workers;
    }

-- `list.remove`: the list without the first such item, or an exception.
unfoldable pub remove : ℕ → List ℕ → Option (List ℕ)
remove w [] = none
remove w (v ∷ vs) = if v == w then some vs else Option.map (◌∷◌ v) (remove w vs)

unfoldable pub store_or_delete : String → List ℕ → Dict String (List ℕ) → Dict String (List ℕ)
store_or_delete k [] d = delete k d
store_or_delete k (w ∷ ws) d = assign k (w ∷ ws) d

-- The worker leaves the list of its instance; `none` stands for the `ValueError` of `list.remove`.
unfoldable pub drop_worker : String → ℕ → Dict String (List ℕ) → Option (Dict String (List ℕ))
drop_worker instance_id worker_id d = elim (get instance_id d) [
  | none ↦ some d
  | some ws ↦ Option.map (λ left. store_or_delete instance_id left d) (remove worker_id ws)
]

unfoldable pub drop_socket : RegistrationController → WorkerKey → RegistrationController
drop_socket self k = elim (get k self.socket_mapping) [
  | none ↦ self
  | some socket ↦ record self {
    socket_mapping = delete k self.socket_mapping;
    closed = socket ∷ self.closed;
  }
]

-- The coroutine `kv_controller.deregister(...)` is made and never awaited, so nothing of it runs.
unfoldable pub deregister :
    RegistrationController → RegisterMsg → RegistrationController × Option Error
deregister self msg =
    let self₁ = record self { instance_mapping = delete msg.ip self.instance_mapping } in
    elim (drop_worker msg.instance_id msg.worker_id self.worker_mapping) [
      | none ↦ (self₁, some value_error)
      | some workers ↦ (
        drop_socket (record self₁ { worker_mapping = workers }) (msg.instance_id, msg.worker_id),
        none,
      )
    ]
