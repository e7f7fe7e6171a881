-- ===== src/Session/Success.antt =====
-- What a session that ends well has gone through.
use terminald.Base.{
  List, [], ◌∷◌, Option, none, some, Bool, true, false, ◌≡◌, refl, ◌⊎◌, inl, inr, Bytes, Error,
  Result, ok, err,
}
use terminald.Protocol.{
  ClientMessage, resize, input, ServerMessage, output, error, exited, SerdeJson, decode_client,
}
use terminald.Session.{
  text, binary, ping, pong, close, Event, received, next, all_ended, Turn, Action, Run, attempt,
  drive_socket, turn, forward, on_message, after_decode, run_socket, after_drive, handle_socket,
  printed_of, cleanup_printed, printed_by,
}

-- The turns that mean to end a session.
abbrev pub IsEnding : Event → Type 0
IsEnding (received (exited c)) = Unit {0}
IsEnding (next (ok close)) = Unit {0}
IsEnding all_ended = Unit {0}
IsEnding _ = ⊥

abbrev pub HasEnding : List Turn → Type 0
HasEnding [] = ⊥
HasEnding (t ∷ ts) = IsEnding t.event ⊎ HasEnding ts

abbrev Success : Option (Result (Unit {0})) → Type 0
Success o = o ≡ some (ok tt)

attempt_ok :
    (a : Action) (answer : Result (Unit {0})) (rest : Run)
    → Success (attempt a answer rest).result
    → Success rest.result
attempt_ok a (ok u) rest h = h
attempt_ok a (err e) rest h = cc

forward_ok :
    (m : ServerMessage) (answer : Result (Unit {0})) (rest : Run)
    → Success (forward m answer rest).result
    → IsEnding (received m) ⊎ Success rest.result
unfolding forward
forward_ok (output d) answer rest h = inr (attempt_ok _ answer rest h)
forward_ok (error s) answer rest h = inr (attempt_ok _ answer rest h)
forward_ok (exited c) answer rest h = inl tt

after_drive_ok :
    (actions : List Action) (o : Option (Result (Unit {0})))
    → Success (after_drive actions o).result
    → Success o × ((after_drive actions o).terminated ≡ true)
unfolding after_drive
after_drive_ok actions none h = cc
after_drive_ok actions (some r) h = (h, refl)

module _ (json : SerdeJson) (alternate : Error → Bytes) where
  after_decode_ok :
      (r : Result ClientMessage) (answer : Result (Unit {0})) (rest : Run)
      → Success (after_decode json alternate r answer rest).result
      → Success rest.result
  unfolding after_decode
  after_decode_ok (ok (input d)) answer rest h = attempt_ok _ answer rest h
  after_decode_ok (ok (resize r)) answer rest h = attempt_ok _ answer rest h
  after_decode_ok (err e) answer rest h = attempt_ok _ answer rest h

  turn_ok :
      (e : Event) (answer : Result (Unit {0})) (rest : Run)
      → Success (turn json alternate e answer rest).result
      → IsEnding e ⊎ Success rest.result
  unfolding turn on_message
  turn_ok (received m) answer rest h = forward_ok m answer rest h
  turn_ok (next (ok (binary f))) answer rest h =
      inr (after_decode_ok (decode_client json f) answer rest h)
  turn_ok (next (ok (text d))) answer rest h = inr (attempt_ok _ answer rest h)
  turn_ok (next (ok (ping d))) answer rest h = inr (attempt_ok _ answer rest h)
  turn_ok (next (ok (pong d))) answer rest h = inr h
  turn_ok (next (ok close)) answer rest h = inl tt
  turn_ok (next (err e)) answer rest h = cc
  turn_ok all_ended answer rest h = inl tt

  drive_socket_ok :
      (ts : List Turn) → Success (drive_socket json alternate ts).result → HasEnding ts
  unfolding drive_socket
  drive_socket_ok [] h = cc
  drive_socket_ok (t ∷ ts) h = elim (turn_ok t.event t.answer (drive_socket json alternate ts) h) [
    | inl e ↦ inl e
    | inr k ↦ inr (drive_socket_ok ts k)
  ]

  -- A session that ends well had its process spawned, was ended by the process's exit, by a close of
  -- the client or by the end of both streams, and has had the process terminated.
  pub run_socket_ok :
      (spawned : Result (Unit {0})) (ts : List Turn)
      → (run_socket json alternate spawned ts).result ≡ some (ok tt)
      → (spawned ≡ ok tt)
        × HasEnding ts
        × ((run_socket json alternate spawned ts).terminated ≡ true)
  unfolding run_socket
  run_socket_ok (err e) ts h = cc
  run_socket_ok (ok u) ts h =
      let run = drive_socket json alternate ts in
      let (k, ended) = after_drive_ok run.actions run.result h in
      (refl, drive_socket_ok ts k, ended)

  quiet_cleanup :
      (actions : List Action) (terminated : Bool) (o : Option (Result (Unit {0})))
      (answer : Result (Unit {0}))
      → printed_of json alternate
          (record { actions = actions; terminated = terminated; result = o })
          answer
        ≡ some []
      → Success o × (terminated ≡ true → answer ≡ ok tt)
  unfolding printed_of cleanup_printed printed_by
  quiet_cleanup actions b none answer h = cc
  quiet_cleanup actions false (some (ok u)) answer h = (refl, λ e. cc)
  quiet_cleanup actions true (some (ok u)) (ok v) h = (refl, λ e. refl)
  quiet_cleanup actions true (some (ok u)) (err e) h = cc
  quiet_cleanup actions false (some (err x)) answer h = cc
  quiet_cleanup actions true (some (err x)) (ok v) h = cc
  quiet_cleanup actions true (some (err x)) (err e) h = cc

  -- A session of which `handle_socket` prints nothing had its process spawned, was ended by the process's
  -- exit, by a close of the client or by the end of both streams, and had its process terminated without
  -- an error.
  pub handle_socket_quiet :
      (spawned : Result (Unit {0})) (ts : List Turn) (answer : Result (Unit {0}))
      → handle_socket json alternate spawned ts answer ≡ some []
      → (spawned ≡ ok tt) × HasEnding ts × (answer ≡ ok tt)
  unfolding handle_socket
  handle_socket_quiet spawned ts answer h =
      let session = run_socket json alternate spawned ts in
      let (ended, clean) =
        quiet_cleanup session.actions session.terminated session.result answer h in
      let (started, ending, terminated) = run_socket_ok spawned ts ended in
      (started, ending, clean terminated)
