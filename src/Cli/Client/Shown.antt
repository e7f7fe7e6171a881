-- ===== src/Cli/Client/Shown.antt =====
-- From the terminal of the server to the standard output of a client: a session of
-- crates/terminald-server/src/session.rs, with its two tasks, and the loop of
-- crates/terminald-cli/src/client.rs over the frames that it sends.
use terminald.Base.Int.{ℤ}
use terminald.Base.{
  ℕ, List, [], ◌∷◌, ◌++◌, append_assoc, append-nil, ◌≡◌, refl, sym, ap, subst, ◌∙◌, ◌⊎◌, inl, inr,
  Bytes, All, All-front, Error, Result, ok, err,
}
use terminald.Decimal.{print_ℤ}
use terminald.Channel.{Channel, IsChannel}
use terminald.Protocol.{ServerMessage, output, error, exited, SerdeJson, decode_server}
use terminald.Session.{WsMessage, Action, send, write_all, resize_to, drive_socket}
use terminald.Session.Screen.{screen, decoded_output, shown_by, IsPrefix, prefix-append}
use terminald.Session.Shown.{IsPrefix-trans, additive-IsPrefix}
use terminald.Session.Frames.{IsFrame, drive_socket-IsFrame}
use terminald.Session.System.{channel_capacity, System, Reach}
use terminald.Session.System.Flow.{system_shows_prefix}
use terminald.Pty.Io.{ReadAnswer, Turn}
use terminald.Pty.Io.Stream.{reads, given, left_by_reads, reads_lose_nothing}
use terminald.Cli.Client.{
  Call, Did, Answers, write_server_output, exit_text, on_server_message, handle_server_frame,
  Message, Arrival, go_on, on_item, read_loop,
}

-- A message of the websocket, as the client's library gives it.
abbrev pub carried : WsMessage → Message
carried (WsMessage.text t) = Message.text t
carried (WsMessage.binary f) = Message.binary f
carried (WsMessage.ping d) = Message.ping d
carried (WsMessage.pong d) = Message.pong d
carried WsMessage.close = Message.close

-- What arrives of an action, and how the standard output answers it.
abbrev pub arrivals : List (Action × Answers) → List Arrival
arrivals [] = []
arrivals ((send m, answers) ∷ sent) =
    record { item = ok (carried m); answers = answers } ∷ arrivals sent
arrivals ((write_all d, answers) ∷ sent) = arrivals sent
arrivals ((resize_to cols rows, answers) ∷ sent) = arrivals sent

abbrev pub actions_of : List (Action × Answers) → List Action
actions_of [] = []
actions_of ((a, answers) ∷ sent) = a ∷ actions_of sent

-- All that the client asks its standard output to take.
abbrev pub stdout : List Call → Bytes
stdout [] = []
stdout (Call.write_all d ∷ calls) = d ++ stdout calls
stdout (Call.flush ∷ calls) = stdout calls

-- A first part of the bytes, or a first part of them and then the line of an exit code.
abbrev pub IsShown : Bytes → Bytes → Type 0
IsShown bytes out =
    IsPrefix out bytes
    ⊎ ((c : ℤ) × (part : Bytes) × (out ≡ part ++ exit_text (print_ℤ c)) × IsPrefix part bytes)

append-IsShown : (d bytes out : Bytes) → IsShown bytes out → IsShown (d ++ bytes) (d ++ out)
append-IsShown d bytes out (inl h) = inl (prefix-append d out bytes h)
append-IsShown d bytes out (inr (c, part, e, h)) =
    inr
      (c, d ++ part, ap (λ l. d ++ l) e ∙ sym (append_assoc d part _), prefix-append d part bytes h)

nothing-IsShown : (bytes : Bytes) → IsShown bytes []
nothing-IsShown bytes = inl (bytes, refl)

first-IsShown : (d bytes : Bytes) → IsShown (d ++ bytes) (d ++ [])
first-IsShown d bytes = append-IsShown d bytes [] (nothing-IsShown bytes)

exit-IsShown : (c : ℤ) (bytes : Bytes) → IsShown bytes (exit_text (print_ℤ c) ++ [])
exit-IsShown c bytes = inr (c, [], append-nil _, (bytes, refl))

-- An output that is written, and the exit code, by how the calls are answered.
output-IsShown :
    (d : Bytes) (written flushed : Result (Unit {0})) (rest : Did (Unit {0})) (bytes : Bytes)
    → IsShown bytes (stdout rest.calls)
    → IsShown (d ++ bytes) (
        stdout
          (go_on
            (on_server_message (ok (output d)) (record { written = written; flushed = flushed }))
            rest).calls)
unfolding go_on on_server_message write_server_output
output-IsShown d (ok u) (ok v) rest bytes h = append-IsShown d bytes _ h
output-IsShown d (ok u) (err e) rest bytes h = first-IsShown d bytes
output-IsShown d (err e) flushed rest bytes h = first-IsShown d bytes

exited-IsShown :
    (c : ℤ) (written flushed : Result (Unit {0})) (rest : Did (Unit {0})) (bytes : Bytes)
    → IsShown bytes (
        stdout
          (go_on
            (on_server_message (ok (exited c)) (record { written = written; flushed = flushed }))
            rest).calls)
unfolding go_on on_server_message write_server_output
exited-IsShown c (ok u) (ok v) rest bytes = exit-IsShown c bytes
exited-IsShown c (ok u) (err e) rest bytes = exit-IsShown c bytes
exited-IsShown c (err e) flushed rest bytes = exit-IsShown c bytes

-- A frame of the server, by the message that it holds and by how its calls are answered.
message-IsShown :
    (r : Result ServerMessage) (answers : Answers) (rest : Did (Unit {0})) (bytes : Bytes)
    → IsShown bytes (stdout rest.calls)
    → IsShown (decoded_output r ++ bytes) (stdout (go_on (on_server_message r answers) rest).calls)
unfolding go_on on_server_message write_server_output
message-IsShown (ok (output d)) answers rest bytes h =
    output-IsShown d answers.written answers.flushed rest bytes h
message-IsShown (ok (error s)) answers rest bytes h = nothing-IsShown bytes
message-IsShown (ok (exited c)) answers rest bytes h =
    exited-IsShown c answers.written answers.flushed rest bytes
message-IsShown (err e) answers rest bytes h = nothing-IsShown bytes

arrivals-IsShown :
    (sent : List (Action × Answers))
    → All IsFrame (actions_of sent)
    → IsShown (screen (actions_of sent)) (stdout (read_loop (arrivals sent)).calls)
unfolding read_loop on_item handle_server_frame
arrivals-IsShown [] h = nothing-IsShown []
arrivals-IsShown ((send (WsMessage.binary f), answers) ∷ sent) (h, hs) =
    message-IsShown (decode_server f) answers (read_loop (arrivals sent)) _
      (arrivals-IsShown sent hs)
arrivals-IsShown ((send (WsMessage.pong d), answers) ∷ sent) (h, hs) = arrivals-IsShown sent hs
arrivals-IsShown ((send (WsMessage.ping d), answers) ∷ sent) (h, hs) = absurd h
arrivals-IsShown ((send (WsMessage.text t), answers) ∷ sent) (h, hs) = absurd h
arrivals-IsShown ((send WsMessage.close, answers) ∷ sent) (h, hs) = absurd h
arrivals-IsShown ((write_all d, answers) ∷ sent) (h, hs) = arrivals-IsShown sent hs
arrivals-IsShown ((resize_to cols rows, answers) ∷ sent) (h, hs) = arrivals-IsShown sent hs

screen-append : (xs ys : List Action) → screen (xs ++ ys) ≡ screen xs ++ screen ys
screen-append [] ys = refl
screen-append (a ∷ xs) ys =
    ap (λ l. shown_by a ++ l) (screen-append xs ys)
    ∙ sym (append_assoc (shown_by a) (screen xs) (screen ys))

IsShown-trans : {a b out : Bytes} → IsShown a out → IsPrefix a b → IsShown b out
IsShown-trans {out = out} (inl h) k = inl (IsPrefix-trans out h k)
IsShown-trans (inr (c, part, e, h)) k = inr (c, part, e, IsPrefix-trans part h k)

module _ {Queue : Type 0} (json : SerdeJson) (alternate : Error → Bytes)
    (chan : Channel ServerMessage Queue) (lawful : IsChannel channel_capacity chan) where
  -- From the terminal to the client's standard output: whatever both tasks of the session did, whatever
  -- the client sent, whichever calls failed, and however many of the session's messages have arrived,
  -- the client has written a first part of what was read from the terminal, and behind that nothing, or
  -- the line of an exit code.
  pub client_shows_prefix :
      {s : System Queue} (sent : List (Action × Answers))
      → Reach json alternate chan s
      → IsPrefix (actions_of sent) (drive_socket json alternate s.turns).actions
      → IsShown s.taken (stdout (read_loop (arrivals sent)).calls)
  client_shows_prefix {s = s} sent reached front =
      let frames =
        All-front IsFrame (actions_of sent) front.0
          (subst (All IsFrame) (sym front.1) (drive_socket-IsFrame json alternate s.turns)) in
      IsShown-trans (arrivals-IsShown sent frames) (
        IsPrefix-trans (screen (actions_of sent))
          (additive-IsPrefix screen screen-append (actions_of sent) front)
          (system_shows_prefix json alternate chan lawful reached))

  -- From `read(2)` at the server to the client's standard output: if the reader task has read by `n` calls
  -- of the terminal's `read`, then, however those were interrupted and whatever both tasks, the client
  -- and the network did since, the client has written a first part of what the system gave, and behind
  -- that nothing, or the line of an exit code.
  pub terminal_reaches_client :
      {s : System Queue} (n : ℕ) (turns : List (Turn ReadAnswer)) (sent : List (Action × Answers))
      → Reach json alternate chan s
      → s.taken ≡ reads n turns
      → IsPrefix (actions_of sent) (drive_socket json alternate s.turns).actions
      → IsShown (given turns) (stdout (read_loop (arrivals sent)).calls)
  terminal_reaches_client n turns sent reached taken front =
      IsShown-trans (rw taken at (client_shows_prefix sent reached front))
        (given (left_by_reads n turns), reads_lose_nothing n turns)
