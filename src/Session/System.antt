-- ===== src/Session/System.antt =====
-- The two tasks of a session and the channel between them, interleaved in any order: the reader task of
-- `run_socket`, which waits while the channel is full, and the loop of `drive_socket`, which takes nothing
-- from the channel while the handler of an event awaits its call on the socket or the terminal. The
-- channel `mpsc::channel(32)` is a parameter with its documented behaviour.
pub mod Places
pub mod Flow
pub mod Order
pub mod Progress
pub mod Drain
pub mod Tests
use terminald.Base.Int.{ℤ}
use terminald.Base.{
  ℕ, ◌≤◌, List, [], ◌∷◌, ◌++◌, Option, none, some, Bool, true, false, ◌≡◌, ◌≢◌, Bytes, length,
  Error, Result, ok, err,
}
use terminald.Channel.{Channel}
use terminald.Protocol.{ServerMessage, output, error, exited, SerdeJson}
use terminald.Session.{Event, received, next, all_ended, Turn, WsMessage, drive_socket, exit_code}

abbrev pub channel_capacity : ℕ
channel_capacity = 32

-- Where the reader task stands: at the head of its loop, before a `send`, before `wait`, or at its end.
pub data Phase : Type 0 where
  reading : Phase
  sending : ServerMessage → Phase
  exiting : Phase
  done : Phase

-- The `match` on a read.
abbrev pub after_read : (Error → Bytes) → Result Bytes → Phase
after_read alternate (ok []) = exiting
after_read alternate (ok (b ∷ bs)) = sending (output (b ∷ bs))
after_read alternate (err e) = sending (error (alternate e))

abbrev pub bytes_read : Result Bytes → Bytes
bytes_read (ok b) = b
bytes_read (err e) = []

-- Behind a `send` that succeeded, and behind one that failed.
abbrev pub after_send : ServerMessage → Phase
after_send (output d) = reading
after_send (error s) = exiting
after_send (exited c) = done

abbrev pub after_failure : ServerMessage → Phase
after_failure (output d) = exiting
after_failure (error s) = exiting
after_failure (exited c) = done

-- `taken` is all that was read from the terminal, `turns` are those that the loop has made, `handling` is
-- the event whose handler it is in, `child_ended` says whether the process has exited, and `gone` whether
-- the receiver was dropped.
pub record System (Queue : Type 0) : Type 0 where
  pub phase : Phase
  pub taken : Bytes
  pub queue : Queue
  pub turns : List Turn
  pub handling : Option Event
  pub child_ended : Bool
  pub gone : Bool

abbrev pub init : {Queue : Type 0} → Channel ServerMessage Queue → System Queue
init chan = record {
  phase = reading;
  taken = [];
  queue = chan.empty;
  turns = [];
  handling = none;
  child_ended = false;
  gone = false;
}

-- The loop has not been left.
abbrev pub GoesOn : SerdeJson → (Error → Bytes) → List Turn → Type 0
GoesOn json alternate turns = (drive_socket json alternate turns).result ≡ none

abbrev pub take_turn : Event → Result (Unit {0}) → List Turn → List Turn
take_turn event answer turns = turns ++ record { event = event; answer = answer } ∷ []

pub data Step {Queue : Type 0} (json : SerdeJson) (alternate : Error → Bytes)
    (chan : Channel ServerMessage Queue) : System Queue → System Queue → Type 0 where
  reads :
      (s : System Queue) (r : Result Bytes)
      → s.phase ≡ reading
      → Step json alternate chan s
          (record s { phase = after_read alternate r; taken = s.taken ++ bytes_read r })
  -- `wait` blocks until the process has exited, or fails.
  exits : (s : System Queue) → Step json alternate chan s (record s { child_ended = true })
  waits :
      (s : System Queue) (status : Option ℤ)
      → s.phase ≡ exiting
      → s.child_ended ≡ true
      → Step json alternate chan s (record s { phase = sending (exited (exit_code (ok status))) })
  wait_fails :
      (s : System Queue) (e : Error)
      → s.phase ≡ exiting
      → Step json alternate chan s (record s { phase = sending (exited (exit_code (err e))) })
  sends :
      (s : System Queue) (m : ServerMessage) (q : Queue)
      → s.phase ≡ sending m
      → s.gone ≡ false
      → chan.send m s.queue ≡ some q
      → Step json alternate chan s (record s { phase = after_send m; queue = q })
  send_fails :
      (s : System Queue) (m : ServerMessage)
      → s.phase ≡ sending m
      → s.gone ≡ true
      → Step json alternate chan s (record s { phase = after_failure m })
  -- The `select!` takes a message of the channel or of the socket; the handler awaits its call, and
  -- goes on with the answer.
  receives :
      (s : System Queue) (m : ServerMessage) (q : Queue)
      → GoesOn json alternate s.turns
      → s.handling ≡ none
      → chan.recv s.queue ≡ some (m, q)
      → Step json alternate chan s (record s { queue = q; handling = some (received m) })
  serves :
      (s : System Queue) (item : Result WsMessage)
      → GoesOn json alternate s.turns
      → s.handling ≡ none
      → Step json alternate chan s (record s { handling = some (next item) })
  finishes :
      (s : System Queue) (event : Event) (answer : Result (Unit {0}))
      → GoesOn json alternate s.turns
      → s.handling ≡ some event
      → Step json alternate chan s
          (record s { handling = none; turns = take_turn event answer s.turns })
  -- The `else` of the `select!`: the sender is gone, the channel is empty and the socket has ended.
  ends :
      (s : System Queue) (answer : Result (Unit {0}))
      → GoesOn json alternate s.turns
      → s.handling ≡ none
      → s.phase ≡ done
      → chan.recv s.queue ≡ none
      → Step json alternate chan s (record s { turns = take_turn all_ended answer s.turns })
  -- The end of `run_socket`.
  drops :
      (s : System Queue)
      → ¬ GoesOn json alternate s.turns
      → Step json alternate chan s (record s { gone = true })

pub data Reach {Queue : Type 0} (json : SerdeJson) (alternate : Error → Bytes)
    (chan : Channel ServerMessage Queue) : System Queue → Type 0 where
  start : Reach json alternate chan (init chan)
  later :
      {s t : System Queue}
      → Reach json alternate chan s
      → Step json alternate chan s t
      → Reach json alternate chan t
