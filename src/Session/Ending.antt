-- ===== src/Session/Ending.antt =====
-- The end of a session's loop at the exit of the process.
use terminald.Base.Int.{ℤ}
use terminald.Base.{
  List, [], ◌∷◌, ◌++◌, none, some, ◌≡◌, refl, sym, ap, ◌∙◌, append_assoc, ◌⊎◌, inl, inr, Bytes,
  Error, Result, ok, err,
}
use terminald.Protocol.{
  ClientMessage, resize, input, ServerMessage, output, error, exited, SerdeJson, decode_client,
  encode_server,
}
use terminald.Session.{
  text, binary, ping, pong, close, Event, received, next, all_ended, Turn, Action, send, Run,
  attempt, waiting, drive_socket, turn, forward, on_message, after_decode,
}

abbrev pub exit_turn : ℤ → Result (Unit {0}) → Turn
exit_turn c answer = record { event = received (exited c); answer = answer }

-- A turn goes on to the rest of the loop and has its result, or ends the loop whatever the rest is.
abbrev Step : (Run → Run) → Type 0
Step f =
    ((rest : Run) → (f rest).result ≡ rest.result)
    ⊎ ((r : Result (Unit {0})) × (s : Run) × (s.result ≡ some r) × ((rest : Run) → f rest ≡ s))

stopped :
    (r : Result (Unit {0}))
    → (q : Result (Unit {0})) × (s : Run) × (s.result ≡ some q)
      × ((rest : Run) → record { actions = []; result = some r } ≡ s)
stopped r = (r, record { actions = []; result = some r }, refl, λ rest. refl)

attempt-Step : (a : Action) (answer : Result (Unit {0})) → Step (attempt a answer)
attempt-Step a (ok u) = inl (λ rest. refl)
attempt-Step a (err e) =
    inr (err e, record { actions = a ∷ []; result = some (err e) }, refl, λ rest. refl)

forward-Step : (m : ServerMessage) (answer : Result (Unit {0})) → Step (forward m answer)
unfolding forward
forward-Step (output d) answer = attempt-Step _ answer
forward-Step (error s) answer = attempt-Step _ answer
forward-Step (exited c) (ok tt) = inr (
  ok tt,
  record { actions = send (binary (encode_server (exited c))) ∷ []; result = some (ok tt) },
  refl,
  λ rest. refl,
)
forward-Step (exited c) (err e) = attempt-Step _ (err e)

module _ (json : SerdeJson) (alternate : Error → Bytes) where
  after_decode-Step :
      (r : Result ClientMessage) (answer : Result (Unit {0}))
      → Step (after_decode json alternate r answer)
  unfolding after_decode
  after_decode-Step (ok (input d)) answer = attempt-Step _ answer
  after_decode-Step (ok (resize r)) answer = attempt-Step _ answer
  after_decode-Step (err e) answer = attempt-Step _ answer

  turn-Step : (e : Event) (answer : Result (Unit {0})) → Step (turn json alternate e answer)
  unfolding turn on_message
  turn-Step (received m) answer = forward-Step m answer
  turn-Step (next (ok (binary f))) answer = after_decode-Step (decode_client json f) answer
  turn-Step (next (ok (text d))) answer = attempt-Step _ answer
  turn-Step (next (ok (ping d))) answer = attempt-Step _ answer
  turn-Step (next (ok (pong d))) answer = inl (λ rest. refl)
  turn-Step (next (ok close)) answer = inr (stopped (ok tt))
  turn-Step (next (err e)) answer = inr (stopped (err e))
  turn-Step all_ended answer = inr (stopped (ok tt))

  Step-ended :
      (f : Run → Run)
      → Step f
      → (rest other : Run) (r : Result (Unit {0})) → (f rest).result ≡ some r
      → (rest.result ≡ some r → other ≡ rest)
      → f other ≡ f rest
  Step-ended f (inl same) rest other r h k = ap f (k (sym (same rest) ∙ h))
  Step-ended f (inr (_, s, _, const)) rest other r h k = const other ∙ sym (const rest)

  drive_socket-append :
      (ts more : List Turn) (r : Result (Unit {0}))
      → (drive_socket json alternate ts).result ≡ some r
      → drive_socket json alternate (ts ++ more) ≡ drive_socket json alternate ts
  unfolding drive_socket
  drive_socket-append [] more r h = cc
  drive_socket-append (t ∷ ts) more r h =
      Step-ended (turn json alternate t.event t.answer) (turn-Step t.event t.answer)
        (drive_socket json alternate ts) (drive_socket json alternate (ts ++ more)) r h
        (drive_socket-append ts more r)

  ended-Step :
      (f : Run → Run)
      → Step f
      → (rest : Run) → (r : Result (Unit {0})) × (rest.result ≡ some r)
      → (r : Result (Unit {0})) × ((f rest).result ≡ some r)
  ended-Step f (inl same) rest (r, h) = (r, same rest ∙ h)
  ended-Step f (inr (r, s, e, const)) rest h = (r, ap (λ run. run.result) (const rest) ∙ e)

  forward_ends :
      (c : ℤ) (answer : Result (Unit {0})) (rest : Run)
      → (r : Result (Unit {0})) × ((forward (exited c) answer rest).result ≡ some r)
  unfolding forward
  forward_ends c (ok tt) rest = (ok tt, refl)
  forward_ends c (err e) rest = (err e, refl)

  pub exit_ends :
      (ts : List Turn) (c : ℤ) (answer : Result (Unit {0}))
      → (r : Result (Unit {0})) × ((drive_socket json alternate
            (ts ++ exit_turn c answer ∷ [])).result
          ≡ some r)
  unfolding drive_socket turn
  exit_ends [] c answer = forward_ends c answer waiting
  exit_ends (t ∷ ts) c answer =
      ended-Step (turn json alternate t.event t.answer) (turn-Step t.event t.answer) _
        (exit_ends ts c answer)

  -- Once the loop has received `Exited`, it is left: there is a result, and neither the result nor the
  -- calls made depend on what would come after.
  pub drive_socket_exit :
      (ts more : List Turn) (c : ℤ) (answer : Result (Unit {0}))
      → (r : Result (Unit {0})) × ((drive_socket json alternate
            (ts ++ exit_turn c answer ∷ more)).result
          ≡ some r)
        × (drive_socket json alternate (ts ++ exit_turn c answer ∷ more)
            ≡ drive_socket json alternate (ts ++ exit_turn c answer ∷ []))
  drive_socket_exit ts more c answer =
      let (r, e) = exit_ends ts c answer in
      let same : drive_socket json alternate (ts ++ exit_turn c answer ∷ more)
          ≡ drive_socket json alternate (ts ++ exit_turn c answer ∷ []) =
        ap (drive_socket json alternate) (sym (append_assoc ts (exit_turn c answer ∷ []) more))
        ∙ drive_socket-append (ts ++ exit_turn c answer ∷ []) more r e in
      (r, ap (λ run. run.result) same ∙ e, same)

  -- A loop that goes on, goes on behind a turn that would not end it.
  pub drive_socket_goes_on :
      (ts : List Turn) (t : Turn)
      → (drive_socket json alternate (t ∷ [])).result ≡ none
      → (drive_socket json alternate ts).result ≡ none
      → (drive_socket json alternate (ts ++ t ∷ [])).result ≡ none
  unfolding drive_socket
  drive_socket_goes_on [] t on h = on
  drive_socket_goes_on (u ∷ ts) t on h = elim (turn-Step u.event u.answer) [
    | inl same ↦ same _ ∙ drive_socket_goes_on ts t on (sym (same _) ∙ h)
    | inr (r, run, stopped, const) ↦ absurd (
        let clash = sym h ∙ ap (λ x. x.result) (const (drive_socket json alternate ts)) ∙ stopped in
        cc)
  ]
