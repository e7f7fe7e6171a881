-- ===== src/Session/Screen.antt =====
-- What a client is shown of the terminal: the outputs in the frames of a session.
use terminald.Base.Int.{ℤ}
use terminald.Base.{
  List, [], ◌∷◌, ◌++◌, none, some, ◌≡◌, refl, ap, subst, ◌∙◌, append_assoc, Bytes, Error, Result,
  ok, err, ◌>>=◌,
}
use terminald.Protocol.{
  ClientMessage, resize, input, ServerMessage, output, error, exited, SerdeJson, decode_client,
  decode_server, encode_server,
}
use terminald.Session.{
  text, binary, ping, pong, close, Event, received, next, all_ended, Turn, Action, send, Run,
  attempt, drive_socket, turn, forward, on_message, after_decode,
}

abbrev pub output_of : ServerMessage → Bytes
output_of (output d) = d
output_of (error s) = []
output_of (exited c) = []

-- The bytes of the terminal in messages.
abbrev pub outputs_of : List ServerMessage → Bytes
outputs_of [] = []
outputs_of (m ∷ ms) = output_of m ++ outputs_of ms

abbrev pub decoded_output : Result ServerMessage → Bytes
decoded_output (ok m) = output_of m
decoded_output (err e) = []

abbrev pub shown_by : Action → Bytes
shown_by (send (binary frame)) = decoded_output (decode_server frame)
shown_by _ = []

-- What a client that decodes the frames it is sent shows.
abbrev pub screen : List Action → Bytes
screen [] = []
screen (a ∷ actions) = shown_by a ++ screen actions

-- The messages of the reader task that the loop received.
abbrev pub received_by : Event → List ServerMessage
received_by (received m) = m ∷ []
received_by _ = []

abbrev pub received_of : List Turn → List ServerMessage
received_of [] = []
received_of (t ∷ ts) = received_by t.event ++ received_of ts

-- The first list is a prefix of the second.
abbrev pub IsPrefix {ℓ} : {A : Type ℓ} → List A → List A → Type ℓ
IsPrefix {A = A} xs ys = (rest : List A) × (xs ++ rest ≡ ys)

pub prefix-append {ℓ} :
    {A : Type ℓ} (zs xs ys : List A) → IsPrefix xs ys → IsPrefix (zs ++ xs) (zs ++ ys)
prefix-append zs xs ys (rest, h) = (rest, append_assoc zs xs rest ∙ ap (λ l. zs ++ l) h)

shown_exit : (r : Result ℤ) → decoded_output (r >>= λ code. ok (exited code)) ≡ []
shown_exit (ok c) = refl
shown_exit (err e) = refl

shown-encode_server :
    (m : ServerMessage) → decoded_output (decode_server (encode_server m)) ≡ output_of m
unfolding decode_server encode_server
shown-encode_server (output d) = refl
shown-encode_server (error s) = refl
shown-encode_server (exited c) = shown_exit _

-- A run shows a prefix of `out`, and all of it while the loop goes on.
abbrev pub Shows : Run → Bytes → Type 0
Shows run out = IsPrefix (screen run.actions) out × (run.result ≡ none → screen run.actions ≡ out)

attempt-Shows :
    (a : Action) (answer : Result (Unit {0})) (rest : Run) (b out : Bytes)
    → shown_by a ≡ b
    → Shows rest out
    → Shows (attempt a answer rest) (b ++ out)
attempt-Shows a (ok u) rest b out e (h, all) =
    subst (λ l. Shows (attempt a (ok u) rest) (l ++ out)) e
      (prefix-append (shown_by a) _ _ h, λ going. ap (λ l. shown_by a ++ l) (all going))
attempt-Shows a (err x) rest b out e h =
    subst (λ l. Shows (attempt a (err x) rest) (l ++ out)) e
      (prefix-append (shown_by a) [] out (out, refl), λ going. cc)

stop-Shows :
    (r : Result (Unit {0})) (out : Bytes) → Shows (record { actions = []; result = some r }) out
stop-Shows r out = ((out, refl), λ going. cc)

forward-Shows :
    (m : ServerMessage) (answer : Result (Unit {0})) (rest : Run) (out : Bytes)
    → Shows rest out
    → Shows (forward m answer rest) (output_of m ++ out)
unfolding forward
forward-Shows (output d) answer rest out h =
    attempt-Shows _ answer rest d out (shown-encode_server (output d)) h
forward-Shows (error s) answer rest out h =
    attempt-Shows _ answer rest [] out (shown-encode_server (error s)) h
forward-Shows (exited c) answer rest out h =
    attempt-Shows _ answer _ [] out (shown-encode_server (exited c)) (stop-Shows (ok tt) out)

module _ (json : SerdeJson) (alternate : Error → Bytes) where
  after_decode-Shows :
      (r : Result ClientMessage) (answer : Result (Unit {0})) (rest : Run) (out : Bytes)
      → Shows rest out
      → Shows (after_decode json alternate r answer rest) out
  unfolding after_decode
  after_decode-Shows (ok (input d)) answer rest out h = attempt-Shows _ answer rest [] out refl h
  after_decode-Shows (ok (resize r)) answer rest out h = attempt-Shows _ answer rest [] out refl h
  after_decode-Shows (err e) answer rest out h =
      attempt-Shows _ answer rest [] out (shown-encode_server (error (alternate e))) h

  turn-Shows :
      (e : Event) (answer : Result (Unit {0})) (rest : Run) (ms : List ServerMessage)
      → Shows rest (outputs_of ms)
      → Shows (turn json alternate e answer rest) (outputs_of (received_by e ++ ms))
  unfolding turn on_message
  turn-Shows (received m) answer rest ms h = forward-Shows m answer rest (outputs_of ms) h
  turn-Shows (next (ok (binary f))) answer rest ms h =
      after_decode-Shows (decode_client json f) answer rest (outputs_of ms) h
  turn-Shows (next (ok (text d))) answer rest ms h = attempt-Shows _ answer rest [] _ refl h
  turn-Shows (next (ok (ping d))) answer rest ms h = attempt-Shows _ answer rest [] _ refl h
  turn-Shows (next (ok (pong d))) answer rest ms h = h
  turn-Shows (next (ok close)) answer rest ms h = stop-Shows (ok tt) _
  turn-Shows (next (err e)) answer rest ms h = stop-Shows (err e) _
  turn-Shows all_ended answer rest ms h = stop-Shows (ok tt) _

  pub drive_socket-Shows :
      (ts : List Turn) → Shows (drive_socket json alternate ts) (outputs_of (received_of ts))
  unfolding drive_socket
  drive_socket-Shows [] = (([], refl), λ going. refl)
  drive_socket-Shows (t ∷ ts) =
      turn-Shows t.event t.answer (drive_socket json alternate ts) (received_of ts)
        (drive_socket-Shows ts)

  -- While the loop goes on, the client is shown all that the loop has received of the terminal, in order
  -- and once, whatever the client has sent meanwhile.
  pub drive_socket_shows_all :
      (ts : List Turn)
      → (drive_socket json alternate ts).result ≡ none
      → screen (drive_socket json alternate ts).actions ≡ outputs_of (received_of ts)
  drive_socket_shows_all ts going = (drive_socket-Shows ts).1 going
