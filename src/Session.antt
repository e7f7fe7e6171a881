-- ===== src/Session.antt =====
-- crates/terminald-server/src/session.rs: a websocket session. The reader task turns reads of the PTY
-- into messages, and `drive_socket` serves the socket and the messages, one turn of its `select!` after
-- the other, in whatever order they come. `serde_json` and the `{:#}` form of an error are parameters.
pub mod Reader
pub mod Ending
pub mod Success
pub mod Screen
pub mod Shown
pub mod Typed
pub mod Frames
pub mod Kernel
pub mod System
pub mod Tests
use terminald.Base.Int.{ℤ, negsuc}
use terminald.Base.{
  ℕ, zero, suc, List, [], ◌∷◌, ◌++◌, Option, none, some, Bool, true, false, Bytes, Error, Result,
  ok, err, if◌then◌else◌,
}
use terminald.Protocol.{
  Resize, ClientMessage, resize, input, ServerMessage, output, error, exited, SerdeJson,
  decode_client, encode_server,
}

-- The loop of the reader task: the messages that arrived, how many more the channel takes before its
-- receiver is gone, and whether the loop is left.
pub record Feed : Type 0 where
  pub sent : List ServerMessage
  pub room : ℕ
  pub left : Bool

abbrev pub deliver : ServerMessage → Feed → Feed
deliver m f = record f { sent = m ∷ f.sent }

-- `status.code()`, and `-1` where there is none.
unfoldable pub exit_code : Result (Option ℤ) → ℤ
exit_code (ok (some code)) = code
exit_code (ok none) = negsuc 0
exit_code (err e) = negsuc 0

exit_message : ℕ → ℤ → List ServerMessage
exit_message zero code = []
exit_message (suc room) code = exited code ∷ []

module _ (alternate : Error → Bytes) where
  read_loop : List (Result Bytes) → ℕ → Feed
  read_loop [] room = record { sent = []; room = room; left = false }
  read_loop (ok [] ∷ reads) room = record { sent = []; room = room; left = true }
  read_loop (ok (b ∷ bs) ∷ reads) zero = record { sent = []; room = zero; left = true }
  read_loop (ok (b ∷ bs) ∷ reads) (suc room) = deliver (output (b ∷ bs)) (read_loop reads room)
  read_loop (err e ∷ reads) zero = record { sent = []; room = zero; left = true }
  read_loop (err e ∷ reads) (suc room) = record {
    sent = error (alternate e) ∷ [];
    room = room;
    left = true;
  }

  after_loop : Feed → Result (Option ℤ) → List ServerMessage
  unfolding exit_message exit_code
  after_loop feed status =
      feed.sent ++ (if feed.left then exit_message feed.room (exit_code status) else [])

  -- The reader task: the answers of `read` and of `wait`, to the messages that reach the channel's
  -- receiver while that takes `room` of them.
  unfoldable pub reader_task : List (Result Bytes) → Result (Option ℤ) → ℕ → List ServerMessage
  unfolding read_loop after_loop
  reader_task reads status room = after_loop (read_loop reads room) status

-- A message of the websocket.
pub data WsMessage : Type 0 where
  text binary ping pong : Bytes → WsMessage
  close : WsMessage

-- Which branch of `select!` runs: a message of the reader task, an item of the socket, or the `else`
-- of two streams that have ended.
pub data Event : Type 0 where
  received : ServerMessage → Event
  next : Result WsMessage → Event
  all_ended : Event

-- A turn of the loop: the event, and the answer of the call that the turn makes, if it makes one.
pub record Turn : Type 0 where
  pub event : Event
  pub answer : Result (Unit {0})

pub data Action : Type 0 where
  send : WsMessage → Action
  write_all : Bytes → Action
  resize_to : ℕ → ℕ → Action

-- The calls made and, once the loop is left, the result.
pub record Run : Type 0 where
  pub actions : List Action
  pub result : Option (Result (Unit {0}))

abbrev pub waiting : Run
waiting = record { actions = []; result = none }

abbrev stop : Result (Unit {0}) → Run
stop r = record { actions = []; result = some r }

-- A call under `?`, and the rest of the loop.
abbrev pub attempt : Action → Result (Unit {0}) → Run → Run
attempt action (ok u) rest = record rest { actions = action ∷ rest.actions }
attempt action (err e) rest = record { actions = action ∷ []; result = some (err e) }

-- The message of the reader task is sent first, and `Exited` ends the loop after that.
forward : ServerMessage → Result (Unit {0}) → Run → Run
forward (output d) answer rest = attempt (send (binary (encode_server (output d)))) answer rest
forward (error s) answer rest = attempt (send (binary (encode_server (error s)))) answer rest
forward (exited c) answer rest =
    attempt (send (binary (encode_server (exited c)))) answer (stop (ok tt))

module _ (json : SerdeJson) (alternate : Error → Bytes) where
  -- The frame that answers a frame that does not decode.
  abbrev pub reply : Error → WsMessage
  reply e = binary (encode_server (error (alternate e)))

  after_decode : Result ClientMessage → Result (Unit {0}) → Run → Run
  after_decode (ok (input d)) answer rest = attempt (write_all d) answer rest
  after_decode (ok (resize r)) answer rest = attempt (resize_to r.cols r.rows) answer rest
  after_decode (err e) answer rest = attempt (send (reply e)) answer rest

  on_message : WsMessage → Result (Unit {0}) → Run → Run
  unfolding after_decode
  on_message (binary frame) answer rest = after_decode (decode_client json frame) answer rest
  on_message (text t) answer rest = attempt (write_all t) answer rest
  on_message close answer rest = stop (ok tt)
  on_message (ping d) answer rest = attempt (send (pong d)) answer rest
  on_message (pong d) answer rest = rest

  turn : Event → Result (Unit {0}) → Run → Run
  unfolding forward on_message
  turn (received m) answer rest = forward m answer rest
  turn (next (ok m)) answer rest = on_message m answer rest
  turn (next (err e)) answer rest = stop (err e)
  turn all_ended answer rest = stop (ok tt)

  -- `drive_socket`
  unfoldable pub drive_socket : List Turn → Run
  unfolding turn
  drive_socket [] = waiting
  drive_socket (t ∷ ts) = turn t.event t.answer (drive_socket ts)

-- What a session did: whether the process was terminated, and the result for `handle_socket`.
pub record Session : Type 0 where
  pub actions : List Action
  pub terminated : Bool
  pub result : Option (Result (Unit {0}))

after_drive : List Action → Option (Result (Unit {0})) → Session
after_drive actions none = record { actions = actions; terminated = false; result = none }
after_drive actions (some r) = record { actions = actions; terminated = true; result = some r }

module _ (json : SerdeJson) (alternate : Error → Bytes) where
  -- `run_socket`, with the answer of `PtyProcess::spawn`.
  unfoldable pub run_socket : Result (Unit {0}) → List Turn → Session
  unfolding after_drive
  run_socket (err e) turns = record { actions = []; terminated = false; result = some (err e) }
  run_socket (ok u) turns =
      let run = drive_socket json alternate turns in after_drive run.actions run.result

  printed_by : Result (Unit {0}) → List Bytes
  printed_by (ok u) = []
  printed_by (err e) = alternate e ∷ []

  cleanup_printed : Bool → Result (Unit {0}) → List Bytes
  unfolding printed_by
  cleanup_printed false answer = []
  cleanup_printed true answer = printed_by answer

  printed_of : Session → Result (Unit {0}) → Option (List Bytes)
  unfolding cleanup_printed
  printed_of session answer = elim session.result [
    | none ↦ none
    | some r ↦ some (cleanup_printed session.terminated answer ++ printed_by r)
  ]

  -- `handle_socket`: what it prints once it returns, with the answers of `spawn` and of `terminate`.
  unfoldable pub handle_socket :
      Result (Unit {0}) → List Turn → Result (Unit {0}) → Option (List Bytes)
  unfolding printed_of
  handle_socket spawned turns answer = printed_of (run_socket spawned turns) answer
