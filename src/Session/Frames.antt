-- ===== src/Session/Frames.antt =====
-- The messages that a session sends on its websocket.
use terminald.Base.{List, [], ◌∷◌, Bytes, All, Error, Result, ok, err}
use terminald.Protocol.{
  ClientMessage, resize, input, ServerMessage, output, error, exited, SerdeJson, decode_client,
}
use terminald.Session.{
  text, binary, ping, pong, close, Event, received, next, all_ended, Turn, Action, send, write_all,
  resize_to, Run, attempt, drive_socket, turn, forward, on_message, after_decode,
}

-- What is sent is a binary frame or the answer to a ping.
abbrev pub IsFrame : Action → Type 0
IsFrame (send (binary f)) = Unit {0}
IsFrame (send (pong d)) = Unit {0}
IsFrame (send (ping d)) = ⊥
IsFrame (send (text t)) = ⊥
IsFrame (send close) = ⊥
IsFrame (write_all d) = Unit {0}
IsFrame (resize_to cols rows) = Unit {0}

attempt-IsFrame :
    (a : Action) (answer : Result (Unit {0})) (rest : Run)
    → IsFrame a
    → All IsFrame rest.actions
    → All IsFrame (attempt a answer rest).actions
attempt-IsFrame a (ok u) rest h k = (h, k)
attempt-IsFrame a (err e) rest h k = (h, tt)

forward-IsFrame :
    (m : ServerMessage) (answer : Result (Unit {0})) (rest : Run)
    → All IsFrame rest.actions
    → All IsFrame (forward m answer rest).actions
unfolding forward
forward-IsFrame (output d) answer rest k = attempt-IsFrame _ answer rest tt k
forward-IsFrame (error s) answer rest k = attempt-IsFrame _ answer rest tt k
forward-IsFrame (exited c) answer rest k = attempt-IsFrame _ answer _ tt tt

module _ (json : SerdeJson) (alternate : Error → Bytes) where
  after_decode-IsFrame :
      (r : Result ClientMessage) (answer : Result (Unit {0})) (rest : Run)
      → All IsFrame rest.actions
      → All IsFrame (after_decode json alternate r answer rest).actions
  unfolding after_decode
  after_decode-IsFrame (ok (input d)) answer rest k = attempt-IsFrame _ answer rest tt k
  after_decode-IsFrame (ok (resize r)) answer rest k = attempt-IsFrame _ answer rest tt k
  after_decode-IsFrame (err e) answer rest k = attempt-IsFrame _ answer rest tt k

  turn-IsFrame :
      (e : Event) (answer : Result (Unit {0})) (rest : Run)
      → All IsFrame rest.actions
      → All IsFrame (turn json alternate e answer rest).actions
  unfolding turn on_message
  turn-IsFrame (received m) answer rest k = forward-IsFrame m answer rest k
  turn-IsFrame (next (ok (binary f))) answer rest k =
      after_decode-IsFrame (decode_client json f) answer rest k
  turn-IsFrame (next (ok (text d))) answer rest k = attempt-IsFrame _ answer rest tt k
  turn-IsFrame (next (ok (ping d))) answer rest k = attempt-IsFrame _ answer rest tt k
  turn-IsFrame (next (ok (pong d))) answer rest k = k
  turn-IsFrame (next (ok close)) answer rest k = tt
  turn-IsFrame (next (err e)) answer rest k = tt
  turn-IsFrame all_ended answer rest k = tt

  -- A session sends binary frames and answers to pings, and nothing else.
  pub drive_socket-IsFrame : (ts : List Turn) → All IsFrame (drive_socket json alternate ts).actions
  unfolding drive_socket
  drive_socket-IsFrame [] = tt
  drive_socket-IsFrame (t ∷ ts) =
      turn-IsFrame t.event t.answer (drive_socket json alternate ts) (drive_socket-IsFrame ts)
