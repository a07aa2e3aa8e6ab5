-- ===== src/Server/Connection.antt =====
-- Whole connections: from the bytes that a client sends to the bytes that it receives.
use mathlib.Core.List.{append-nil}
use mtds.Prelude.{
  ℕ, zero, suc, ◌≤◌, ◌<◌, ◌≡◌, refl, sym, ◌∙◌, ap, false, Option, none, some, List, [], ◌∷◌, ◌++◌,
  length, length-append, leb, All, type_error, ok, arith,
}
use mtds.Prelude.Int.{ℤ, pos}
use mtds.Dict.{get, get-assign}
use mtds.Keys.{chunk_key_eq, key_eq_iff}
use mtds.Keys.Text.{to_string}
use mtds.Protocol.{deserialize_message, packlength}
use mtds.Protocol.Words.{IsInt32}
use mtds.Protocol.Client.{
  ClientMetaMessage, max_key_length, serialize_client, client_packlength, deserialize_client,
}
use mtds.Protocol.Text.{len_text}
use mtds.Protocol.Messages.{deserialize_message-serialize_message}
use mtds.Protocol.Control.{IsWireKey, deserialize_client-serialize_client}
use mtds.Server.{
  LmsLocalBackend, put, found, send_all, send, handle, receive_all, receive_data, round, more,
  resume, behind_answer, serve, handle_client,
}
use mtds.Server.Requests.{stored, handle-get, get_after_put}
use mtds.Server.Stream.{receive_all-append, on_command_lem, round_lem, serve-handle_client}

-- A message that the client can send: four dimensions, integers of 32 bits, a key that fits.
abbrev pub IsSendable : ClientMetaMessage → Type 0
IsSendable m =
    (a : ℤ) × (b : ℤ) × (c : ℤ) × (d : ℤ) × (m.shape ≡ a ∷ b ∷ c ∷ d ∷ [])
    × All IsInt32 (m.command ∷ m.length ∷ a ∷ b ∷ c ∷ d ∷ [])
    × IsWireKey m.key
    × (len_text (to_string m.key) ≤ max_key_length)

sendable_lem :
    (m : ClientMetaMessage)
    → IsSendable m
    → (bytes : List ℕ) × (serialize_client m ≡ ok bytes)
      × (length bytes ≡ client_packlength)
      × (deserialize_client bytes ≡ ok m)
sendable_lem m (a, b, c, d, shape, small, wire, fits) =
    deserialize_client-serialize_client m a b c d shape small wire fits

receive_put :
    (m : ClientMetaMessage) (s rest : List ℕ)
    → m.command ≡ pos 1
    → m.length ≡ pos (length s)
    → receive_data m (s ++ rest) ≡ (some s, rest)
unfolding receive_data
receive_put m s rest is_put size = rw (is_put, size) (receive_all-append s rest)

receive_get :
    (g : ClientMetaMessage) (rest : List ℕ) → g.command ≡ pos 2 → receive_data g rest ≡ (none, rest)
unfolding receive_data
receive_get g rest is_get = rw is_get refl

-- A short stream ends the connection without an answer.
serve_nothing : (fuel : ℕ) (self : LmsLocalBackend) → serve fuel self [] ≡ (self, [], none)
unfolding serve round receive_all client_packlength
serve_nothing zero self = refl
serve_nothing (suc fuel) self = refl

serve_more :
    (fuel : ℕ) (self self' : LmsLocalBackend) (stream sent rest : List ℕ)
    → round self stream ≡ more self' sent rest
    → serve (suc fuel) self stream ≡ behind_answer sent (serve fuel self' rest)
unfolding serve
serve_more fuel self self' stream sent rest e = ap (resume (serve fuel)) e

-- A connection of two commands that are answered, the second at the end of the stream.
two_rounds :
    (self self' self'' : LmsLocalBackend) (stream sent rest sent' : List ℕ)
    → 2 ≤ length stream
    → round self stream ≡ more self' sent rest
    → round self' rest ≡ more self'' sent' []
    → handle_client self stream ≡ behind_answer sent (behind_answer sent' (self'', [], none))
two_rounds self self' self'' stream sent rest sent' long first second =
    let fuel = suc (suc (suc (length stream))) in
    sym (serve-handle_client fuel self stream (omega arith))
    ∙ (serve_more (suc (suc (length stream))) self self' stream sent rest first
        ∙ ap (behind_answer sent) (
            serve_more (suc (length stream)) self' self'' rest sent' [] second
            ∙ ap (behind_answer sent') (serve_nothing (suc (length stream)) self'')))

-- A client that sends a PUT with its data and a GET of the same key receives a header with the code 200
-- and the metadata of the PUT, and the data behind it, where both messages can be sent and the
-- length of the PUT is that of its data.
pub put_then_get :
    (self : LmsLocalBackend) (m g : ClientMetaMessage) (s : List ℕ)
    → m.command ≡ pos 1
    → m.length ≡ pos (length s)
    → g.command ≡ pos 2
    → g.key ≡ m.key
    → IsSendable m
    → IsSendable g
    → (put_bytes : List ℕ) × (get_bytes : List ℕ) × (header : List ℕ) × (self' : LmsLocalBackend)
      × (serialize_client m ≡ ok put_bytes)
      × (serialize_client g ≡ ok get_bytes)
      × (handle_client self (put_bytes ++ (s ++ get_bytes)) ≡ (self', header ++ s, none))
      × (length header ≡ packlength)
      × (deserialize_message header
          ≡ ok (record {
            code = pos 200;
            length = m.length;
            fmt = m.fmt;
            dtype = m.dtype;
            shape = m.shape;
          }))
unfolding client_packlength
put_then_get self m g s is_put size is_get same m_sendable g_sendable =
    let (a, b, c, d, shape, (_, small), _, _) = m_sendable in
    let (put_bytes, put_sent, put_size, put_read) = sendable_lem m m_sendable in
    let (get_bytes, get_sent, get_size, get_read) = sendable_lem g g_sendable in
    let (self', header, answer, answer', header_size, header_read) =
      get_after_put self m g s none a b c d is_put is_get same shape small in
    let first =
      round_lem self m put_bytes (s ++ get_bytes) (more self' [] get_bytes) put_size put_read (
        on_command_lem self self' m (s ++ get_bytes) get_bytes [] (some s)
          (receive_put m s get_bytes is_put size) answer) in
    let second =
      ap (round self') (sym (append-nil get_bytes))
      ∙ round_lem self' g get_bytes [] (more self' (header ++ s) []) get_size get_read (
          on_command_lem self' self' g [] [] (header ++ s) none (receive_get g [] is_get)
            answer') in
    (
      put_bytes,
      get_bytes,
      header,
      self',
      put_sent,
      get_sent,
      two_rounds self self' self' (put_bytes ++ (s ++ get_bytes)) [] get_bytes (header ++ s)
            (omega (arith, length-append put_bytes (s ++ get_bytes), put_size)) first second
          ∙ ap (λ sent. (self', sent, none)) (append-nil (header ++ s)),
      header_size,
      header_read,
    )

receive_cut :
    (m : ClientMetaMessage) (part : List ℕ) (n : ℕ)
    → m.command ≡ pos 1
    → m.length ≡ pos n
    → length part < n
    → receive_data m part ≡ (none, [])
unfolding receive_data receive_all
receive_cut m part n is_put size cut =
    let few : leb n (length part) ≡ false = ground (arith, cut) in rw (is_put, size, few) refl

-- Where the connection ends before the data of a PUT are there, the key is stored all the same, with
-- None for its data, and a GET of the key ends with a TypeError behind a header with the code 200.
pub put_cut :
    (self : LmsLocalBackend) (m g : ClientMetaMessage) (part : List ℕ) (n : ℕ) (t : Option (List ℕ))
    → m.command ≡ pos 1
    → m.length ≡ pos n
    → length part < n
    → g.command ≡ pos 2
    → g.key ≡ m.key
    → IsSendable m
    → (put_bytes : List ℕ) × (header : List ℕ) × (self' : LmsLocalBackend) × (serialize_client m
        ≡ ok put_bytes)
      × (handle_client self (put_bytes ++ part) ≡ (self', [], none))
      × (get m.key self'
          ≡ some (record {
            payload = none;
            length = m.length;
            fmt = m.fmt;
            dtype = m.dtype;
            shape = m.shape;
          }))
      × (handle self' g t ≡ (self', header, some type_error))
      × (deserialize_message header
          ≡ ok (record {
            code = pos 200;
            length = m.length;
            fmt = m.fmt;
            dtype = m.dtype;
            shape = m.shape;
          }))
unfolding handle put found send handle_client
put_cut self m g part n t is_put size cut is_get same m_sendable =
    let (a, b, c, d, shape, (_, small), _, _) = m_sendable in
    let (put_bytes, put_sent, put_size, put_read) = sendable_lem m m_sendable in
    let self' = put self m none in
    let o = record (stored m part) { payload = none } in
    let (header, sent, _, read) =
      deserialize_message-serialize_message (found o) a b c d shape (omega arith, small) in
    let hit : get g.key self' ≡ some o =
      get-assign m.key g.key o self ∙ ground (arith, key_eq_iff m.key g.key, same) in
    let first = round_lem self m put_bytes part (more self' [] []) put_size put_read (
      on_command_lem self self' m part [] [] none (receive_cut m part n is_put size cut)
        (rw is_put refl)) in
    (
      put_bytes,
      header,
      self',
      put_sent,
      serve_more (length (put_bytes ++ part)) self self' (put_bytes ++ part) [] [] first
          ∙ ap (behind_answer []) (serve_nothing (length (put_bytes ++ part)) self'),
      get-assign m.key m.key o self ∙ ground (arith, key_eq_iff m.key m.key),
      handle-get self' g t o is_get hit ∙ ap (send_all self' none) sent,
      read,
    )
