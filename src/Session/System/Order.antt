-- ===== src/Session/System/Order.antt =====
-- Where the message of the process's exit stands while both tasks run: behind all the others.
use terminald.Base.Int.{ℤ}
use terminald.Base.{
  List, [], ◌∷◌, ◌++◌, append_assoc, none, some, ◌≡◌, ◌≢◌, refl, sym, ◌∙◌, append-nil, Bytes, Error,
  Result, ok, err,
}
use terminald.Channel.{Channel, IsChannel}
use terminald.Protocol.{ServerMessage, output, error, exited, SerdeJson}
use terminald.Session.{received, next, all_ended, Turn, drive_socket}
use terminald.Session.Ending.{exit_ends}
use terminald.Session.Screen.{screen}
use terminald.Session.System.{
  channel_capacity, Phase, reading, sending, exiting, done, after_read, after_send, System, GoesOn,
  take_turn, Step, reads, exits, waits, wait_fails, sends, send_fails, receives, serves, finishes,
  ends, drops, Reach, start, later,
}
use terminald.Session.System.Places.{in_hand}
use terminald.Session.System.Flow.{unshown, IsFlowing, Reach-IsFlowing, system_loses_nothing}

-- No exit is among the messages.
abbrev pub IsOpen : List ServerMessage → Type 0
IsOpen [] = Unit {0}
IsOpen (output d ∷ ms) = IsOpen ms
IsOpen (error s ∷ ms) = IsOpen ms
IsOpen (exited c ∷ ms) = ⊥

-- The last message is an exit, and no other is.
abbrev pub IsEnded : List ServerMessage → Type 0
IsEnded [] = ⊥
IsEnded (output d ∷ ms) = IsEnded ms
IsEnded (error s ∷ ms) = IsEnded ms
IsEnded (exited c ∷ ms) = ms ≡ []

-- What the channel holds at each phase.
abbrev pub IsOrdered : Phase → List ServerMessage → Type 0
IsOrdered reading ms = IsOpen ms
IsOrdered (sending m) ms = IsOpen ms
IsOrdered exiting ms = IsOpen ms
IsOrdered done ms = IsEnded ms

after_read-IsOrdered :
    (alternate : Error → Bytes) (r : Result Bytes) (ms : List ServerMessage)
    → IsOpen ms
    → IsOrdered (after_read alternate r) ms
after_read-IsOrdered alternate (ok []) ms h = h
after_read-IsOrdered alternate (ok (b ∷ bs)) ms h = h
after_read-IsOrdered alternate (err e) ms h = h

append-IsOpen : (ms ns : List ServerMessage) → IsOpen ms → IsOpen ns → IsOpen (ms ++ ns)
append-IsOpen [] ns h k = k
append-IsOpen (output d ∷ ms) ns h k = append-IsOpen ms ns h k
append-IsOpen (error s ∷ ms) ns h k = append-IsOpen ms ns h k
append-IsOpen (exited c ∷ ms) ns h k = absurd h

append-IsEnded : (ms : List ServerMessage) (c : ℤ) → IsOpen ms → IsEnded (ms ++ exited c ∷ [])
append-IsEnded [] c h = refl
append-IsEnded (output d ∷ ms) c h = append-IsEnded ms c h
append-IsEnded (error s ∷ ms) c h = append-IsEnded ms c h
append-IsEnded (exited x ∷ ms) c h = absurd h

after_send-IsOrdered :
    (m : ServerMessage) (ms : List ServerMessage)
    → IsOpen ms
    → IsOrdered (after_send m) (ms ++ m ∷ [])
after_send-IsOrdered (output d) ms h = append-IsOpen ms _ h tt
after_send-IsOrdered (error s) ms h = append-IsOpen ms _ h tt
after_send-IsOrdered (exited c) ms h = append-IsEnded ms c h

-- An exit that is received is the last message, and the task is done.
exit_is_last :
    (p : Phase) (c : ℤ) (ms : List ServerMessage)
    → IsOrdered p (exited c ∷ ms)
    → (p ≡ done) × (ms ≡ [])
exit_is_last reading c ms h = absurd h
exit_is_last (sending m) c ms h = absurd h
exit_is_last exiting c ms h = absurd h
exit_is_last done c ms h = (refl, h)

tail-IsOrdered :
    (p : Phase) (m : ServerMessage) (ms : List ServerMessage)
    → ((c : ℤ) → m ≢ exited c)
    → IsOrdered p (m ∷ ms)
    → IsOrdered p ms
tail-IsOrdered p (exited c) ms other h = absurd (other c refl)
tail-IsOrdered reading (output d) ms other h = h
tail-IsOrdered (sending m) (output d) ms other h = h
tail-IsOrdered exiting (output d) ms other h = h
tail-IsOrdered done (output d) ms other h = h
tail-IsOrdered reading (error s) ms other h = h
tail-IsOrdered (sending m) (error s) ms other h = h
tail-IsOrdered exiting (error s) ms other h = h
tail-IsOrdered done (error s) ms other h = h

module _ {Queue : Type 0} (json : SerdeJson) (alternate : Error → Bytes)
    (chan : Channel ServerMessage Queue) (lawful : IsChannel channel_capacity chan) where
  exit-stops :
      (ts : List Turn) (c : ℤ) (answer : Result (Unit {0}))
      → ¬ GoesOn json alternate (take_turn (received (exited c)) answer ts)
  exit-stops ts c answer on =
      let ended = exit_ends json alternate ts c answer in let clash = sym on ∙ ended.1 in cc

  abbrev pub IsQueued : System Queue → Type 0
  IsQueued s = GoesOn json alternate s.turns → IsOrdered s.phase (unshown json alternate chan s)

  Step-IsQueued :
      {s t : System Queue}
      → Step json alternate chan s t
      → IsFlowing json alternate chan s
      → IsQueued s
      → IsQueued t
  Step-IsQueued (reads s r p) v w on = after_read-IsOrdered alternate r _ (rw p at (w on))
  Step-IsQueued (exits s) v w on = w on
  Step-IsQueued (waits s status p over) v w on = rw p at (w on)
  Step-IsQueued (wait_fails s e p) v w on = rw p at (w on)
  Step-IsQueued (sends s m q p alive sent) v w on =
      rw
        (
          lawful.sends_behind m s.queue q sent,
          ← append_assoc (in_hand s.handling) (chan.contents s.queue) (m ∷ []),
        )
        (after_send-IsOrdered m _ (rw p at (w on)))
  Step-IsQueued (send_fails s m p g) v w on = absurd (v.left g on)
  Step-IsQueued (receives s m q was free got) v w on =
      rw (free, lawful.receives_first m s.queue q got) at (w was)
  Step-IsQueued (serves s item was free) v w on = rw free at (w was)
  Step-IsQueued (finishes s (received m) answer was busy) v w on =
      tail-IsOrdered s.phase m (chan.contents s.queue)
        (λ c e. exit-stops s.turns c answer (rw e at on)) (rw busy at (w was))
  Step-IsQueued (finishes s (next item) answer was busy) v w on = rw busy at (w was)
  Step-IsQueued (finishes s all_ended answer was busy) v w on = rw busy at (w was)
  Step-IsQueued (ends s answer was free p got) v w on =
      absurd (rw (free, p, lawful.waits_when_empty s.queue got) at (w was))
  Step-IsQueued (drops s off) v w on = w on

  pub Reach-IsQueued : {s : System Queue} → Reach json alternate chan s → IsQueued s
  Reach-IsQueued start on = rw lawful.starts_empty tt
  Reach-IsQueued (later reached step) on =
      Step-IsQueued step (Reach-IsFlowing json alternate chan lawful reached)
        (Reach-IsQueued reached) on

  -- The exit of the process is received behind all else: when the loop stands at its `select!` and the
  -- channel gives it the exit, the reader task is done, nothing is behind the exit, and the client has
  -- been shown every byte that was read from the terminal.
  pub exit_shows_all :
      {s : System Queue} (c : ℤ) (q : Queue)
      → Reach json alternate chan s
      → GoesOn json alternate s.turns
      → s.handling ≡ none
      → chan.recv s.queue ≡ some (exited c, q)
      → (s.phase ≡ done)
        × (chan.contents q ≡ [])
        × (screen (drive_socket json alternate s.turns).actions ≡ s.taken)
  exit_shows_all {s = s} c q reached on free got =
      let first = lawful.receives_first (exited c) s.queue q got in
      let last =
        exit_is_last s.phase c (chan.contents q)
          (rw (free, first) at (Reach-IsQueued reached on)) in
      let kept = system_loses_nothing json alternate chan lawful reached on in
      (last.0, last.1, sym (append-nil _) ∙ (rw (free, first, last.0, last.1) at kept))
