-- ===== src/Controller/Registration/Rounds.antt =====
-- Registering a worker, and taking the registration back.
use Prim.Native.String.{String}
use text.Mathlib.Text.{◌==◌ as str_eq}
use text.Mathlib.TextEquality.{eq_iff}
use mathlib.Core.Option
use mtds.Prelude.{
  ℕ, ◌≡◌, refl, none, some, List, [], ◌∷◌, ◌++◌, ◌==◌, if◌then◌else◌, arith, Option-cases,
  Bool-cases, inl, inr,
}
use mtds.Dict.{
  Dict, WorkerKey, get, contains, assign, delete, string_eq, worker_eq, worker_key_eq,
  worker_key_eq_iff, get-assign, get-delete, contains-miss,
}
use mtds.Controller.Registration.{
  RegistrationController, RegisterMsg, get_socket, get_workers, register, remove, store_or_delete,
  drop_worker, drop_socket, deregister,
}

-- The instance of the message has the worker added, and the others have what they had.
get_workers-register :
    (self : RegistrationController) (msg : RegisterMsg) (socket : ℕ) (j : String)
    → get_workers (register self msg socket) j ≡ (
        if str_eq msg.instance_id j
        then get_workers self msg.instance_id ++ msg.worker_id ∷ []
        else get_workers self j)
unfolding get_workers register
get_workers-register self msg socket j =
    elim (Bool-cases (contains msg.instance_id self.worker_mapping)) [
      | inl known ↦ rw known (
          rw
            (get-assign msg.instance_id j
              (Option.get_or (get msg.instance_id self.worker_mapping) [] ++ msg.worker_id ∷ [])
              self.worker_mapping)
            (ground arith))
      | inr fresh ↦
          let none_yet : get_workers self msg.instance_id ≡ [] =
            rw (contains-miss msg.instance_id self.worker_mapping fresh, get_workers) refl in
          let first = assign msg.instance_id [] self.worker_mapping in
          rw
            (
              fresh,
              get-assign msg.instance_id j
                  (Option.get_or (get msg.instance_id first) [] ++ msg.worker_id ∷ []) first,
              get-assign msg.instance_id msg.instance_id [] self.worker_mapping,
              get-assign msg.instance_id j [] self.worker_mapping,
            )
            (ground (arith, none_yet, eq_iff msg.instance_id msg.instance_id))
    ]

-- The entry that a registration leaves for its instance.
register_entry :
    (self : RegistrationController) (msg : RegisterMsg) (socket : ℕ)
    → get msg.instance_id (register self msg socket).worker_mapping
      ≡ some (get_workers self msg.instance_id ++ msg.worker_id ∷ [])
unfolding get_workers register
register_entry self msg socket = elim (Bool-cases (contains msg.instance_id self.worker_mapping)) [
  | inl known ↦ rw known (
      rw
        (get-assign msg.instance_id msg.instance_id
          (Option.get_or (get msg.instance_id self.worker_mapping) [] ++ msg.worker_id ∷ [])
          self.worker_mapping)
        (ground (arith, eq_iff msg.instance_id msg.instance_id)))
  | inr fresh ↦
      let none_yet : get_workers self msg.instance_id ≡ [] =
        rw (contains-miss msg.instance_id self.worker_mapping fresh, get_workers) refl in
      let first = assign msg.instance_id [] self.worker_mapping in
      rw
        (
          fresh,
          get-assign msg.instance_id msg.instance_id
              (Option.get_or (get msg.instance_id first) [] ++ msg.worker_id ∷ []) first,
          get-assign msg.instance_id msg.instance_id [] self.worker_mapping,
        )
        (ground (arith, none_yet, eq_iff msg.instance_id msg.instance_id))
]

listed_store_or_delete :
    (k j : String) (ws : List ℕ) (d : Dict String (List ℕ))
    → Option.get_or (get j (store_or_delete k ws d)) []
      ≡ (if str_eq k j then ws else Option.get_or (get j d) [])
unfolding store_or_delete
listed_store_or_delete k j [] d = rw (get-delete k j d) (ground arith)
listed_store_or_delete k j (w ∷ ws) d = rw (get-assign k j (w ∷ ws) d) (ground arith)

deregister_listed :
    (self : RegistrationController) (msg : RegisterMsg) (ws left : List ℕ)
    → get msg.instance_id self.worker_mapping ≡ some ws
    → remove msg.worker_id ws ≡ some left
    → deregister self msg ≡ (
      drop_socket
          (record self {
            instance_mapping = delete msg.ip self.instance_mapping;
            worker_mapping = store_or_delete msg.instance_id left self.worker_mapping;
          })
          (msg.instance_id, msg.worker_id),
      none,
    )
unfolding deregister drop_worker
deregister_listed self msg ws left listed removed = ground (arith, listed, removed)

drop_socket_workers :
    (self : RegistrationController) (k : WorkerKey)
    → (drop_socket self k).worker_mapping ≡ self.worker_mapping
unfolding drop_socket
drop_socket_workers self k = elim (Option-cases (get k self.socket_mapping)) [
  | inl miss ↦ rw (miss, drop_socket) refl
  | inr (socket, hit) ↦ rw (hit, drop_socket) refl
]

drop_socket_sockets :
    (self : RegistrationController) (k j : WorkerKey)
    → get j (drop_socket self k).socket_mapping
      ≡ (if worker_key_eq k j then none else get j self.socket_mapping)
unfolding drop_socket
drop_socket_sockets self k j = elim (Option-cases (get k self.socket_mapping)) [
  | inl miss ↦ rw (miss, drop_socket) (ground (arith, worker_key_eq_iff k j, miss))
  | inr (socket, hit) ↦ rw (hit, drop_socket) (get-delete k j self.socket_mapping)
]

-- Where the worker is in the list of its instance, a deregistration raises nothing, takes its first
-- entry from the list and its socket away, and changes no other worker's.
pub deregister_known :
    (self : RegistrationController) (msg : RegisterMsg) (ws left : List ℕ)
    → get msg.instance_id self.worker_mapping ≡ some ws
    → remove msg.worker_id ws ≡ some left
    → (self' : RegistrationController) × (deregister self msg ≡ (self', none))
      × ((j : String)
          → get_workers self' j ≡ (if str_eq msg.instance_id j then left else get_workers self j))
      × ((j : String) (v : ℕ)
          → get_socket self' j v ≡ (
              if worker_key_eq (msg.instance_id, msg.worker_id) (j, v)
              then none
              else get_socket self j v))
unfolding get_workers get_socket
deregister_known self msg ws left listed removed =
    let mapping = store_or_delete msg.instance_id left self.worker_mapping in
    let self₁ : RegistrationController = record self {
      instance_mapping = delete msg.ip self.instance_mapping;
      worker_mapping = mapping;
    } in
    let k : WorkerKey = (msg.instance_id, msg.worker_id) in
    (
      drop_socket self₁ k,
      deregister_listed self msg ws left listed removed,
      λ j.
          rw (drop_socket_workers self₁ k)
            (listed_store_or_delete msg.instance_id j left self.worker_mapping),
      λ j v. drop_socket_sockets self₁ k (j, v),
    )

remove-snoc : (w : ℕ) (ws : List ℕ) → remove w ws ≡ none → remove w (ws ++ w ∷ []) ≡ some ws
unfolding remove
remove-snoc w [] e = ground arith
remove-snoc w (v ∷ ws) e = elim (Bool-cases (v == w)) [
  | inl same ↦ absurd (ground (arith, same))
  | inr other ↦ elim (Option-cases (remove w ws)) [
    | inl miss ↦ ground (arith, other, miss, remove-snoc w ws miss)
    | inr (left, hit) ↦ absurd (ground (arith, other, hit))
  ]
]

remove-snoc_listed :
    (w : ℕ) (ws left : List ℕ)
    → remove w ws ≡ some left
    → remove w (ws ++ w ∷ []) ≡ some (left ++ w ∷ [])
unfolding remove
remove-snoc_listed w [] left e = absurd (ground arith)
remove-snoc_listed w (v ∷ ws) left e = elim (Bool-cases (v == w)) [
  | inl same ↦ ground (arith, same)
  | inr other ↦ elim (Option-cases (remove w ws)) [
    | inl miss ↦ absurd (ground (arith, other, miss))
    | inr (rest, hit) ↦ ground (arith, other, hit, remove-snoc_listed w ws rest hit)
  ]
]

-- A worker that is not yet in the list of its instance registers and leaves again: nothing is
-- raised, every instance has the workers it had, and the worker has no socket.
pub deregister-register :
    (self : RegistrationController) (msg : RegisterMsg) (socket : ℕ)
    → remove msg.worker_id (get_workers self msg.instance_id) ≡ none
    → (self' : RegistrationController) × (deregister (register self msg socket) msg ≡ (self', none))
      × ((j : String) → get_workers self' j ≡ get_workers self j)
      × (get_socket self' msg.instance_id msg.worker_id ≡ none)
deregister-register self msg socket new =
    let ws = get_workers self msg.instance_id in
    let (self', done, workers, sockets) =
      deregister_known (register self msg socket) msg (ws ++ msg.worker_id ∷ []) ws
        (register_entry self msg socket) (remove-snoc msg.worker_id ws new) in
    (
      self',
      done,
      λ j.
          ground
            (arith, workers j, get_workers-register self msg socket j, eq_iff msg.instance_id j),
      ground (
        arith,
        sockets msg.instance_id msg.worker_id,
        worker_key_eq_iff (msg.instance_id, msg.worker_id) (msg.instance_id, msg.worker_id),
      ),
    )

-- A worker that registers again while it is in the list stays in the list when it leaves, and has
-- no socket there.
pub deregister_stale :
    (self : RegistrationController) (msg : RegisterMsg) (socket : ℕ) (left : List ℕ)
    → remove msg.worker_id (get_workers self msg.instance_id) ≡ some left
    → (self' : RegistrationController) × (deregister (register self msg socket) msg ≡ (self', none))
      × (get_workers self' msg.instance_id ≡ left ++ msg.worker_id ∷ [])
      × (get_socket self' msg.instance_id msg.worker_id ≡ none)
deregister_stale self msg socket left known =
    let ws = get_workers self msg.instance_id in
    let (self', done, workers, sockets) =
      deregister_known (register self msg socket) msg (ws ++ msg.worker_id ∷ [])
        (left ++ msg.worker_id ∷ []) (register_entry self msg socket)
        (remove-snoc_listed msg.worker_id ws left known) in
    (
      self',
      done,
      ground (arith, workers msg.instance_id, eq_iff msg.instance_id msg.instance_id),
      ground (
        arith,
        sockets msg.instance_id msg.worker_id,
        worker_key_eq_iff (msg.instance_id, msg.worker_id) (msg.instance_id, msg.worker_id),
      ),
    )
