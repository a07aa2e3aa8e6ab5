-- ===== src/Server/Stream.antt =====
-- The commands of one connection: how the stream is cut and how far the loop goes.
use mathlib.Core.List.{append-nil}
use mtds.Prelude.{
  ℕ, zero, suc, ◌-◌, ◌≤◌, ◌<◌, ◌≡◌, refl, sym, ◌∙◌, ap, true, Option, none, some, List, [], ◌∷◌,
  ◌++◌, length, length-append, take, drop, leb, Bool-cases, inl, inr, Result, ok, raise, arith,
}
use mtds.Protocol.Client.{ClientMetaMessage, client_packlength, deserialize_client}
use mtds.Server.{
  LmsLocalBackend, Answer, is_command, handle, receive_all, received_size, receive_data, Round,
  done, more, on_answer, on_command, on_message, on_header, round, behind_answer, resume, serve,
  handle_client,
}

take-append : (xs ys : List ℕ) → take (length xs) (xs ++ ys) ≡ xs
take-append [] ys = refl
take-append (x ∷ xs) ys = ap (◌∷◌ x) (take-append xs ys)

drop-append : (xs ys : List ℕ) → drop (length xs) (xs ++ ys) ≡ ys
drop-append [] ys = refl
drop-append (x ∷ xs) ys = drop-append xs ys

length-drop : (n : ℕ) (xs : List ℕ) → length (drop n xs) ≡ length xs - n
length-drop zero xs = omega arith
length-drop (suc n) [] = omega arith
length-drop (suc n) (x ∷ xs) = omega (arith, length-drop n xs)

pub receive_all-append : (xs ys : List ℕ) → receive_all (length xs) (xs ++ ys) ≡ (some xs, ys)
unfolding receive_all
receive_all-append xs ys =
    let enough : leb (length xs) (length (xs ++ ys)) ≡ true = ground (arith, length-append xs ys) in
    rw enough (λ i. (some (take-append xs ys i), drop-append xs ys i))

receive_all_whole : (xs : List ℕ) → receive_all (length xs) xs ≡ (some xs, [])
receive_all_whole xs = ap (receive_all (length xs)) (sym (append-nil xs)) ∙ receive_all-append xs []

receive_all_shrinks : (n : ℕ) (stream : List ℕ) → length (receive_all n stream).1 ≤ length stream
unfolding receive_all
receive_all_shrinks n stream = elim (Bool-cases (leb n (length stream))) [
  | inl e ↦ rw e (omega (arith, length-drop n stream))
  | inr e ↦ rw e (omega arith)
]

receive_data_shrinks :
    (meta : ClientMetaMessage) (stream : List ℕ)
    → length (receive_data meta stream).1 ≤ length stream
unfolding receive_data
receive_data_shrinks meta stream = elim (Bool-cases (is_command meta.command 1)) [
  | inl e ↦ rw e (receive_all_shrinks (received_size meta.length) stream)
  | inr e ↦ rw e (omega arith)
]

-- What is left of the stream behind a round.
abbrev IsShorter : ℕ → Round → Type 0
IsShorter n (done answer) = Unit
IsShorter n (more self sent rest) = length rest < n

on_answer-IsShorter :
    (n : ℕ) (rest : List ℕ) (a : Answer) → length rest < n → IsShorter n (on_answer rest a)
on_answer-IsShorter n rest (self, sent, some e) h = tt
on_answer-IsShorter n rest (self, sent, none) h = h

on_message-IsShorter :
    (n : ℕ) (self : LmsLocalBackend) (stream : List ℕ) (m : Result ClientMetaMessage)
    → length stream < n
    → IsShorter n (on_message self stream m)
unfolding on_command
on_message-IsShorter n self stream (raise e) h = tt
on_message-IsShorter n self stream (ok meta) h =
    let (s, rest) = receive_data meta stream in
    on_answer-IsShorter n rest (handle self meta s)
      (omega (arith, receive_data_shrinks meta stream, h))

round-IsShorter :
    (self : LmsLocalBackend) (stream : List ℕ) → IsShorter (length stream) (round self stream)
unfolding round receive_all client_packlength
round-IsShorter self stream = elim (Bool-cases (leb 182 (length stream))) [
  | inl e ↦ rw e (
      on_message-IsShorter (length stream) self (drop 182 stream)
        (deserialize_client (take 182 stream)) (ground (arith, e, length-drop 182 stream)))
  | inr e ↦ rw e tt
]

resume_agrees :
    (k k' : LmsLocalBackend → List ℕ → Answer) (n : ℕ) (r : Round)
    → IsShorter n r
    → ((self : LmsLocalBackend) (rest : List ℕ) → length rest < n → k self rest ≡ k' self rest)
    → resume k r ≡ resume k' r
resume_agrees k k' n (done answer) h same = refl
resume_agrees k k' n (more self sent rest) h same = ap (behind_answer sent) (same self rest h)

serve_agrees :
    (fuel fuel' : ℕ) (self : LmsLocalBackend) (stream : List ℕ)
    → length stream < fuel
    → length stream < fuel'
    → serve fuel self stream ≡ serve fuel' self stream
unfolding serve
serve_agrees zero fuel' self stream h h' = absurd (omega (arith, h))
serve_agrees (suc fuel) zero self stream h h' = absurd (omega (arith, h'))
serve_agrees (suc fuel) (suc fuel') self stream h h' =
    resume_agrees (serve fuel) (serve fuel') (length stream) (round self stream)
      (round-IsShorter self stream)
      (λ self' rest shorter.
        serve_agrees fuel fuel' self' rest (omega (arith, h, shorter)) (omega (arith, h', shorter)))

-- Any fuel above the length of the stream gives the answer of the whole connection.
pub serve-handle_client :
    (fuel : ℕ) (self : LmsLocalBackend) (stream : List ℕ)
    → length stream < fuel
    → serve fuel self stream ≡ handle_client self stream
unfolding handle_client
serve-handle_client fuel self stream h =
    serve_agrees fuel (suc (length stream)) self stream h (omega arith)

-- A command whose message stands at the front of the stream, with its data behind it.
pub on_command_lem :
    (self self' : LmsLocalBackend) (meta : ClientMetaMessage) (stream rest sent : List ℕ)
    (s : Option (List ℕ))
    → receive_data meta stream ≡ (s, rest)
    → handle self meta s ≡ (self', sent, none)
    → on_command self stream meta ≡ more self' sent rest
unfolding on_command
on_command_lem self self' meta stream rest sent s cut answer =
    ap (λ r. on_answer r.1 (handle self meta r.0)) cut ∙ ap (on_answer rest) answer

pub round_lem :
    (self : LmsLocalBackend) (meta : ClientMetaMessage) (header stream : List ℕ) (r : Round)
    → length header ≡ client_packlength
    → deserialize_client header ≡ ok meta
    → on_command self stream meta ≡ r
    → round self (header ++ stream) ≡ r
unfolding round
round_lem self meta header stream r size read answer =
    ap (λ n. on_header self (receive_all n (header ++ stream))) (sym size)
    ∙ (ap (on_header self) (receive_all-append header stream)
        ∙ (ap (on_message self stream) read ∙ answer))
