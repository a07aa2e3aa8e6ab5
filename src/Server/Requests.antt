-- ===== src/Server/Requests.antt =====
-- What a client reads after what any client wrote.
use mtds.Prelude.{
  ℕ, ◌≡◌, refl, ◌∙◌, ap, Option, none, some, List, [], ◌∷◌, ◌++◌, length, All, ok, arith,
}
use mtds.Prelude.Int.{ℤ, pos}
use mtds.Dict.{get, get-assign}
use mtds.Keys.{chunk_key_eq, key_eq_iff}
use mtds.Protocol.{serialize_message, deserialize_message, packlength}
use mtds.Protocol.Client.{ClientMetaMessage}
use mtds.Protocol.Words.{IsInt32}
use mtds.Protocol.Messages.{deserialize_message-serialize_message}
use mtds.Server.{LmsMemoryObj, LmsLocalBackend, put, found, send_all, send, handle}

abbrev pub stored : ClientMetaMessage → List ℕ → LmsMemoryObj
stored m s = record {
  payload = some s;
  length = m.length;
  fmt = m.fmt;
  dtype = m.dtype;
  shape = m.shape;
}

send-found :
    (self : LmsLocalBackend) (o : LmsMemoryObj) (header s : List ℕ)
    → serialize_message (found o) ≡ ok header
    → send self (found o) (some s) ≡ (self, header ++ s, none)
unfolding send
send-found self o header s sent = ap (send_all self (some s)) sent

pub handle-get :
    (self : LmsLocalBackend) (g : ClientMetaMessage) (t : Option (List ℕ)) (o : LmsMemoryObj)
    → g.command ≡ pos 2
    → get g.key self ≡ some o
    → handle self g t ≡ send self (found o) o.payload
unfolding handle
handle-get self g t o is_get hit = rw (is_get, hit) refl

-- A GET of the key of the last PUT, with four dimensions whose integers have 32 bits, is answered with
-- a header of `packlength` bytes with the code 200 and the metadata of the PUT, and with the
-- data of the PUT behind it; the PUT itself is not answered.
pub get_after_put :
    (self : LmsLocalBackend) (m g : ClientMetaMessage) (s : List ℕ) (t : Option (List ℕ))
    (a b c d : ℤ)
    → m.command ≡ pos 1
    → g.command ≡ pos 2
    → g.key ≡ m.key
    → m.shape ≡ a ∷ b ∷ c ∷ d ∷ []
    → All IsInt32 (m.length ∷ a ∷ b ∷ c ∷ d ∷ [])
    → (self' : LmsLocalBackend) × (header : List ℕ) × (handle self m (some s) ≡ (self', [], none))
      × (handle self' g t ≡ (self', header ++ s, none))
      × (length header ≡ packlength)
      × (deserialize_message header
          ≡ ok (record {
            code = pos 200;
            length = m.length;
            fmt = m.fmt;
            dtype = m.dtype;
            shape = m.shape;
          }))
unfolding handle put found
get_after_put self m g s t a b c d is_put is_get same e small =
    let o = stored m s in
    let self' = put self m (some s) in
    let hit : get g.key self' ≡ some o =
      get-assign m.key g.key o self ∙ ground (arith, key_eq_iff m.key g.key, same) in
    let (header, sent, size, back) =
      deserialize_message-serialize_message (found o) a b c d e (omega arith, small) in
    (
      self',
      header,
      rw is_put refl,
      handle-get self' g t o is_get hit ∙ send-found self' o header s sent,
      size,
      back,
    )
