-- ===== src/Session/Kernel.antt =====
-- What `write(2)` takes of a client's input: the calls that a session makes on its terminal, each with
-- the answers of the system to it.
use terminald.Base.{
  List, [], ◌∷◌, ◌++◌, append_assoc, append-nil, Option, none, some, Bool, true, false, ◌≡◌, refl,
  sym, ap, subst, ◌∙◌, Bytes, Error, Result, ok, err, if◌then◌else◌,
}
use terminald.Pty.Io.{WriteAnswer, Written}
use terminald.Pty.Io.Writing.{write_all-IsWritten}
use terminald.Protocol.{
  ClientMessage, resize, input, output, error, exited, SerdeJson, decode_client,
}
use terminald.Session.{
  text, binary, ping, pong, close, Event, received, next, all_ended, Turn, Action, send, write_all,
  resize_to, attempt, waiting, drive_socket, turn, forward, on_message, after_decode,
}
use terminald.Session.Screen.{IsPrefix, prefix-append}
use terminald.Session.Typed.{asked, asked_by, all_asked}

-- What a session writes to the terminal.
abbrev pub written : List Action → Bytes
written [] = []
written (write_all d ∷ actions) = d ++ written actions
written (send m ∷ actions) = written actions
written (resize_to cols rows ∷ actions) = written actions

pub written-append : (xs ys : List Action) → written (xs ++ ys) ≡ written xs ++ written ys
written-append [] ys = refl
written-append (write_all d ∷ xs) ys =
    ap (λ l. d ++ l) (written-append xs ys) ∙ sym (append_assoc d (written xs) (written ys))
written-append (send m ∷ xs) ys = written-append xs ys
written-append (resize_to c r ∷ xs) ys = written-append xs ys

abbrev write_in : List Action → Option Bytes
write_in [] = none
write_in (write_all d ∷ actions) = some d
write_in (send m ∷ actions) = write_in actions
write_in (resize_to cols rows ∷ actions) = write_in actions

-- The bytes of the `write_all` that the loop makes at an event.
abbrev pub asks : SerdeJson → (Error → Bytes) → Event → Option Bytes
asks json alternate e =
    write_in (drive_socket json alternate (record { event = e; answer = ok tt } ∷ [])).actions

abbrev WriteTurns : Type 0
WriteTurns = List (terminald.Pty.Io.Turn WriteAnswer)

-- A turn of the loop, with the system's answers to the `write_all` that it may make. The turn's own
-- answer is that of its other calls.
pub record Served : Type 0 where
  pub turn : Turn
  pub writes : List (terminald.Pty.Io.Turn WriteAnswer)

abbrev pub turns_of : List Served → List Turn
turns_of [] = []
turns_of (s ∷ ss) = s.turn ∷ turns_of ss

abbrev taken_for : Option Bytes → WriteTurns → Bytes
taken_for none writes = []
taken_for (some d) writes = (terminald.Pty.Io.write_all d writes).taken

-- What the call of a turn returns, if it does.
abbrev returned : Option Bytes → WriteTurns → Result (Unit {0}) → Option (Result (Unit {0}))
returned none writes answer = some answer
returned (some d) writes answer = (terminald.Pty.Io.write_all d writes).result

abbrev is_none : Option (Result (Unit {0})) → Bool
is_none none = true
is_none (some r) = false

abbrev loop_goes_on :
    (Result (Unit {0}) → Option (Result (Unit {0}))) → Option (Result (Unit {0})) → Bool
loop_goes_on ends none = false
loop_goes_on ends (some answer) = is_none (ends answer)

-- All that the system takes, up to the end of the loop or to a write that does not return.
abbrev pub kernel : SerdeJson → (Error → Bytes) → List Served → Bytes
kernel json alternate [] = []
kernel json alternate (s ∷ ss) =
    let rest = kernel json alternate ss in
    taken_for (asks json alternate s.turn.event) s.writes
    ++ (if loop_goes_on
          (λ answer. (drive_socket json alternate (record s.turn { answer = answer } ∷ [])).result)
          (returned (asks json alternate s.turn.event) s.writes s.turn.answer)
        then rest
        else [])

either-IsPrefix :
    (b : Bool) (rest out : Bytes) → IsPrefix rest out → IsPrefix (if b then rest else []) out
either-IsPrefix true rest out h = h
either-IsPrefix false rest out h = (out, refl)

-- A write that fails, or is still waiting.
unfinished-IsPrefix :
    (d : Bytes) (writes : WriteTurns) (out : Bytes)
    → IsPrefix ((terminald.Pty.Io.write_all d writes).taken ++ []) (d ++ out)
unfinished-IsPrefix d writes out =
    let (left, parts, all) = write_all-IsWritten d writes in
    (
      left ++ out,
      append_assoc (terminald.Pty.Io.write_all d writes).taken [] (left ++ out)
          ∙ sym (append_assoc (terminald.Pty.Io.write_all d writes).taken left out)
          ∙ ap (λ l. l ++ out) (sym parts),
    )

-- A write, by what it returns.
returned-IsPrefix :
    (d : Bytes) (writes : WriteTurns) (answer : Option (Result (Unit {0}))) (rest out : Bytes)
    → (terminald.Pty.Io.write_all d writes).result ≡ answer
    → IsPrefix rest out
    → IsPrefix
        ((terminald.Pty.Io.write_all d writes).taken
          ++ (if loop_goes_on (λ r. (attempt (write_all d) r waiting).result) answer
              then rest
              else []))
        (d ++ out)
returned-IsPrefix d writes (some (ok u)) rest out e h =
    let (left, parts, all) = write_all-IsWritten d writes in
    let whole : d ≡ (terminald.Pty.Io.write_all d writes).taken =
      parts ∙ ap (λ l. (terminald.Pty.Io.write_all d writes).taken ++ l) (all e) ∙ append-nil _ in
    subst (λ l. IsPrefix ((terminald.Pty.Io.write_all d writes).taken ++ rest) (l ++ out))
      (sym whole) (prefix-append (terminald.Pty.Io.write_all d writes).taken rest out h)
returned-IsPrefix d writes (some (err x)) rest out e h = unfinished-IsPrefix d writes out
returned-IsPrefix d writes none rest out e h = unfinished-IsPrefix d writes out

wrote-IsPrefix :
    (d : Bytes) (writes : WriteTurns) (rest out : Bytes)
    → IsPrefix rest out
    → IsPrefix
        ((terminald.Pty.Io.write_all d writes).taken
          ++ (if loop_goes_on
                (λ r. (attempt (write_all d) r waiting).result)
                (terminald.Pty.Io.write_all d writes).result
              then rest
              else []))
        (d ++ out)
wrote-IsPrefix d writes rest out h = returned-IsPrefix d writes _ rest out refl h

module _ (json : SerdeJson) (alternate : Error → Bytes) where
  decoded-IsPrefix :
      (r : Result ClientMessage) (writes : WriteTurns) (answer : Result (Unit {0}))
      (rest out : Bytes)
      → IsPrefix rest out
      → IsPrefix
          (taken_for (write_in (after_decode json alternate r (ok tt) waiting).actions) writes
            ++ (if loop_goes_on
                  (λ a. (after_decode json alternate r a waiting).result)
                  (returned
                    (write_in (after_decode json alternate r (ok tt) waiting).actions)
                    writes
                    answer)
                then rest
                else []))
          (written (asked_by r) ++ out)
  unfolding after_decode
  decoded-IsPrefix (ok (input d)) writes answer rest out h =
      rw (append-nil d) (wrote-IsPrefix d writes rest out h)
  decoded-IsPrefix (ok (resize r)) writes answer rest out h = either-IsPrefix _ rest out h
  decoded-IsPrefix (err x) writes answer rest out h = either-IsPrefix _ rest out h

  served-IsPrefix :
      (e : Event) (answer : Result (Unit {0})) (writes : WriteTurns) (rest out : Bytes)
      → IsPrefix rest out
      → IsPrefix
          (taken_for (asks json alternate e) writes
            ++ (if loop_goes_on
                  (λ a. (turn json alternate e a waiting).result)
                  (returned (asks json alternate e) writes answer)
                then rest
                else []))
          (written (asked json e) ++ out)
  unfolding drive_socket turn on_message forward after_decode
  served-IsPrefix (received (output d)) answer writes rest out h = either-IsPrefix _ rest out h
  served-IsPrefix (received (error t)) answer writes rest out h = either-IsPrefix _ rest out h
  served-IsPrefix (received (exited c)) answer writes rest out h = either-IsPrefix _ rest out h
  served-IsPrefix (next (ok (binary f))) answer writes rest out h =
      decoded-IsPrefix (decode_client json f) writes answer rest out h
  served-IsPrefix (next (ok (text d))) answer writes rest out h =
      rw (append-nil d) (wrote-IsPrefix d writes rest out h)
  served-IsPrefix (next (ok (ping d))) answer writes rest out h = either-IsPrefix _ rest out h
  served-IsPrefix (next (ok (pong d))) answer writes rest out h = either-IsPrefix true rest out h
  served-IsPrefix (next (ok close)) answer writes rest out h = either-IsPrefix false rest out h
  served-IsPrefix (next (err x)) answer writes rest out h = either-IsPrefix false rest out h
  served-IsPrefix all_ended answer writes rest out h = either-IsPrefix false rest out h

  -- Whatever the system does with the writes of a session, what it takes is a first part of what the
  -- socket's frames and texts ask to write, in order.
  pub kernel_takes_prefix :
      (ss : List Served)
      → IsPrefix (kernel json alternate ss) (written (all_asked json (turns_of ss)))
  unfolding drive_socket
  kernel_takes_prefix [] = ([], refl)
  kernel_takes_prefix (s ∷ ss) =
      rw (written-append (asked json s.turn.event) (all_asked json (turns_of ss))) (
        served-IsPrefix s.turn.event s.turn.answer s.writes (kernel json alternate ss) _
          (kernel_takes_prefix ss))
