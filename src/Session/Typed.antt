-- ===== src/Session/Typed.antt =====
-- What reaches the terminal from a client.
use terminald.Base.{
  List, [], ◌∷◌, ◌++◌, none, some, ◌≡◌, refl, ap, ◌∙◌, map, Bytes, All, Error, Result, ok, err,
}
use terminald.Protocol.{
  ClientMessage, resize, input, IsClientMessage, ServerMessage, output, error, exited, SerdeJson,
  IsSerdeJson, decode_client, encode_client,
}
use terminald.Protocol.Client.{decode_client-encode_client}
use terminald.Session.Screen.{IsPrefix, prefix-append}
use terminald.Session.{
  text, binary, ping, pong, close, Event, received, next, all_ended, Turn, Action, send, write_all,
  resize_to, Run, attempt, drive_socket, turn, forward, on_message, after_decode,
}

-- The turn in which a client's frame arrives and the call that it causes succeeds.
abbrev frame_turn : Result Bytes → Turn
frame_turn (ok frame) = record { event = next (ok (binary frame)); answer = ok tt }
frame_turn (err e) = record { event = next (err e); answer = ok tt }

abbrev pub arrival : SerdeJson → ClientMessage → Turn
arrival json m = frame_turn (encode_client json m)

abbrev pub effect : ClientMessage → Action
effect (input d) = write_all d
effect (resize r) = resize_to r.cols r.rows

-- The calls that reach the terminal.
abbrev terminal_calls : Action → List Action
terminal_calls (send m) = []
terminal_calls (write_all d) = write_all d ∷ []
terminal_calls (resize_to c r) = resize_to c r ∷ []

abbrev pub on_terminal : List Action → List Action
on_terminal [] = []
on_terminal (a ∷ actions) = terminal_calls a ++ on_terminal actions

-- What a turn asks for: the input or size of a client's frame, or a text message.
abbrev pub asked_by : Result ClientMessage → List Action
asked_by (ok m) = effect m ∷ []
asked_by (err e) = []

abbrev pub asked : SerdeJson → Event → List Action
asked json (next (ok (binary frame))) = asked_by (decode_client json frame)
asked json (next (ok (text t))) = write_all t ∷ []
asked json _ = []

abbrev pub all_asked : SerdeJson → List Turn → List Action
all_asked json [] = []
all_asked json (t ∷ ts) = asked json t.event ++ all_asked json ts

-- A run makes a prefix of the calls `calls` on the terminal, and all of them while the loop goes on.
abbrev Makes : Run → List Action → Type 0
Makes run calls =
    IsPrefix (on_terminal run.actions) calls × (run.result ≡ none → on_terminal run.actions ≡ calls)

attempt-Makes :
    (a : Action) (answer : Result (Unit {0})) (rest : Run) (calls : List Action)
    → Makes rest calls
    → Makes (attempt a answer rest) (terminal_calls a ++ calls)
attempt-Makes a (ok u) rest calls (h, all) =
    (prefix-append (terminal_calls a) _ _ h, λ going. ap (λ l. terminal_calls a ++ l) (all going))
attempt-Makes a (err x) rest calls h =
    (prefix-append (terminal_calls a) [] calls (calls, refl), λ going. cc)

stop-Makes :
    (r : Result (Unit {0})) (calls : List Action)
    → Makes (record { actions = []; result = some r }) calls
stop-Makes r calls = ((calls, refl), λ going. cc)

forward-Makes :
    (m : ServerMessage) (answer : Result (Unit {0})) (rest : Run) (calls : List Action)
    → Makes rest calls
    → Makes (forward m answer rest) calls
unfolding forward
forward-Makes (output d) answer rest calls h = attempt-Makes _ answer rest calls h
forward-Makes (error s) answer rest calls h = attempt-Makes _ answer rest calls h
forward-Makes (exited c) answer rest calls h =
    attempt-Makes _ answer _ calls (stop-Makes (ok tt) calls)

module _ (json : SerdeJson) (alternate : Error → Bytes) where
  arrival-decoded :
      (m : ClientMessage) (rest : Run) (frame : Bytes)
      → decode_client json frame ≡ ok m
      → turn json alternate (next (ok (binary frame))) (ok tt) rest
        ≡ record { actions = effect m ∷ rest.actions; result = rest.result }
  unfolding turn on_message after_decode
  arrival-decoded (input d) rest frame h = rw h
  arrival-decoded (resize r) rest frame h = rw h

  -- The loop at a frame of a client's message whose call succeeds.
  pub drive_socket-cons :
      (m : ClientMessage) (ts : List Turn) (frame : Bytes)
      → decode_client json frame ≡ ok m
      → drive_socket json alternate
          (record { event = next (ok (binary frame)); answer = ok tt } ∷ ts)
        ≡ record {
          actions = effect m ∷ (drive_socket json alternate ts).actions;
          result = (drive_socket json alternate ts).result;
        }
  unfolding drive_socket
  drive_socket-cons m ts frame h = arrival-decoded m (drive_socket json alternate ts) frame h

  after_decode-Makes :
      (r : Result ClientMessage) (answer : Result (Unit {0})) (rest : Run) (calls : List Action)
      → Makes rest calls
      → Makes (after_decode json alternate r answer rest) (asked_by r ++ calls)
  unfolding after_decode
  after_decode-Makes (ok (input d)) answer rest calls h = attempt-Makes _ answer rest calls h
  after_decode-Makes (ok (resize r)) answer rest calls h = attempt-Makes _ answer rest calls h
  after_decode-Makes (err e) answer rest calls h = attempt-Makes _ answer rest calls h

  turn-Makes :
      (e : Event) (answer : Result (Unit {0})) (rest : Run) (calls : List Action)
      → Makes rest calls
      → Makes (turn json alternate e answer rest) (asked json e ++ calls)
  unfolding turn on_message
  turn-Makes (received m) answer rest calls h = forward-Makes m answer rest calls h
  turn-Makes (next (ok (binary f))) answer rest calls h =
      after_decode-Makes (decode_client json f) answer rest calls h
  turn-Makes (next (ok (text d))) answer rest calls h = attempt-Makes _ answer rest calls h
  turn-Makes (next (ok (ping d))) answer rest calls h = attempt-Makes _ answer rest calls h
  turn-Makes (next (ok (pong d))) answer rest calls h = h
  turn-Makes (next (ok close)) answer rest calls h = stop-Makes (ok tt) _
  turn-Makes (next (err e)) answer rest calls h = stop-Makes (err e) _
  turn-Makes all_ended answer rest calls h = stop-Makes (ok tt) _

  drive_socket-Makes : (ts : List Turn) → Makes (drive_socket json alternate ts) (all_asked json ts)
  unfolding drive_socket
  drive_socket-Makes [] = (([], refl), λ going. refl)
  drive_socket-Makes (t ∷ ts) =
      turn-Makes t.event t.answer (drive_socket json alternate ts) (all_asked json ts)
        (drive_socket-Makes ts)

  -- Nothing but the input frames, size frames and text messages of the client reaches the terminal, in
  -- the order in which they arrived: frames that do not decode and the terminal's own output do not.
  pub drive_socket_only_asked :
      (ts : List Turn)
      → IsPrefix (on_terminal (drive_socket json alternate ts).actions) (all_asked json ts)
  drive_socket_only_asked ts = (drive_socket-Makes ts).0

  module _ (lawful : IsSerdeJson json) where
    turn-arrival :
        (m : ClientMessage) (rest : Run)
        → IsClientMessage m
        → turn json alternate (arrival json m).event (arrival json m).answer rest
          ≡ record { actions = effect m ∷ rest.actions; result = rest.result }
    turn-arrival m rest h =
        let (frame, encoded, decoded) = decode_client-encode_client json lawful m h in
        ap (λ r. turn json alternate (frame_turn r).event (frame_turn r).answer rest) encoded
        ∙ arrival-decoded m rest frame decoded

    -- What a client types and the sizes it sends reach the terminal: for any client messages, encoded
    -- and sent in order, the loop makes the call of each, in order, makes no other, and goes on.
    pub drive_socket_typed :
        (ms : List ClientMessage)
        → All IsClientMessage ms
        → drive_socket json alternate (map (arrival json) ms)
          ≡ record { actions = map effect ms; result = none }
    unfolding drive_socket
    drive_socket_typed [] h = refl
    drive_socket_typed (m ∷ ms) (h, hs) =
        turn-arrival m _ h
        ∙ ap (λ run. record { actions = effect m ∷ run.actions; result = run.result })
            (drive_socket_typed ms hs)
