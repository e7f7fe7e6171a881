-- ===== src/Pty/Termination/Ending.antt =====
-- What `terminate_child_process_group_blocking` sends, and when it succeeds.
use terminald.Base.{
  ℕ, List, [], ◌∷◌, ◌++◌, append_assoc, append-nil, Option, none, some, Bool, true, false, ◌≡◌, ◌≢◌,
  refl, sym, ap, ◌∙◌, ◌⊎◌, inl, inr, arith, String, Result, ok, err,
}
use terminald.Pty.Termination.{
  Signal, sigterm, sigkill, Os, Call, signalled, waited, State, M, ◌>>=◌, poll,
  terminate_process_group, kill_process_group, wait, wait_answer, child_id,
  wait_for_child_exit_blocking, reap, kill_and_reap, terminate_running, unless_exited,
  terminate_child_process_group_blocking, pty_terminate_grace_period,
}
use terminald.Pty.Termination.Signals.{
  signals, reaped, signals-append, reaped-append, Holds, Then, Holds-Then, Holds-mono, Then-cases,
  Polls, Quiet, poll-Polls, wait_for_child_exit-Quiet, signals_polled, reaped_polled,
}

-- Nothing, `SIGTERM`, or `SIGTERM` and then `SIGKILL`, to the process group of a child.
abbrev pub IsEscalation : ℕ → List (ℕ × Signal) → Type 0
IsEscalation child sent =
    (sent ≡ []) ⊎ (sent ≡ (child, sigterm) ∷ []) ⊎ (sent ≡ (child, sigterm) ∷ (child, sigkill) ∷ [])

-- The signals sent are an escalation, to the process group of the child. After a success the child has been waited for, and the signals
-- are none or both.
abbrev pub Ends :
    {World : Type 0} → Os World → State World → Result (Unit {0}) → State World → Type 0
Ends sys s r u =
    (sent : List (ℕ × Signal)) × (signals u.log ≡ signals s.log ++ sent)
    × IsEscalation sys.id sent
    × (r ≡ ok tt
        → (reaped u.log ≡ true)
          × ((sent ≡ []) ⊎ (sent ≡ (sys.id, sigterm) ∷ (sys.id, sigkill) ∷ [])))

signals_waited : (l : List Call) (b : Bool) → signals (l ++ waited b ∷ []) ≡ signals l
signals_waited l b = signals-append l (waited b ∷ []) ∙ append-nil (signals l)

reaped_waited : (l : List Call) → reaped (l ++ waited true ∷ []) ≡ true
reaped_waited l = reaped-append l (waited true ∷ []) ∙ ground arith

signals_signalled :
    (l : List Call) (c : ℕ) (g : Signal)
    → signals (l ++ signalled c g ∷ []) ≡ signals l ++ (c, g) ∷ []
signals_signalled l c g = signals-append l (signalled c g ∷ [])

reaped_signalled :
    (l : List Call) (c : ℕ) (g : Signal) → reaped l ≡ true → reaped (l ++ signalled c g ∷ []) ≡ true
reaped_signalled l c g h = reaped-append l (signalled c g ∷ []) ∙ rw h

-- These signals are sent, and success means that the child has been waited for.
abbrev Sends :
    {World : Type 0} → List (ℕ × Signal) → State World → Result (Unit {0}) → State World → Type 0
Sends sent s r u = (signals u.log ≡ signals s.log ++ sent) × (r ≡ ok tt → reaped u.log ≡ true)

-- One signal is sent, whatever the system answers.
abbrev Signals :
    {World : Type 0} → ℕ → Signal → State World → Result (Unit {0}) → State World → Type 0
Signals child g s r u = u.log ≡ s.log ++ signalled child g ∷ []

module _ {World : Type 0} (sys : Os World) where
  wait-Sends : (what : String) (s : State World) → Holds (Sends [] s) (wait sys what s)
  unfolding wait wait_answer
  wait-Sends what s = by_answer (sys.wait s.world)
    where
      by_answer : (a : Option (Result ℕ × World)) → Holds (Sends [] s) (wait_answer sys what s a)
      by_answer none = tt
      by_answer (some (ok status, w)) =
          (signals_waited s.log true ∙ sym (append-nil (signals s.log)), λ _. reaped_waited s.log)
      by_answer (some (err e, w)) =
          (signals_waited s.log false ∙ sym (append-nil (signals s.log)), λ h. cc)

  reap-Sends :
      (exited : Bool) (s : State World)
      → (exited ≡ true → reaped s.log ≡ true)
      → Holds (Sends [] s) (reap sys exited s)
  unfolding reap
  reap-Sends true s h = (sym (append-nil (signals s.log)), λ _. h refl)
  reap-Sends false s h = wait-Sends _ s

  term-Signals :
      (child : ℕ) (s : State World)
      → Holds (Signals child sigterm s) (terminate_process_group sys child s)
  unfolding terminate_process_group
  term-Signals child s = refl

  kill-Signals :
      (child : ℕ) (s : State World)
      → Holds (Signals child sigkill s) (kill_process_group sys child s)
  unfolding kill_process_group
  kill-Signals child s = refl

  -- What follows a signal adds its own.
  Sends-after :
      (s t : State World) (child : ℕ) (g : Signal) (sent : List (ℕ × Signal))
      → t.log ≡ s.log ++ signalled child g ∷ []
      → (r : Result (Unit {0})) (u : State World) → Sends sent t r u
      → Sends ((child, g) ∷ sent) s r u
  Sends-after s t child g sent logged r u (same, ends) = (
    same
        ∙ ap (λ l. signals l ++ sent) logged
        ∙ ap (λ l. l ++ sent) (signals_signalled s.log child g)
        ∙ append_assoc (signals s.log) ((child, g) ∷ []) sent,
    ends,
  )

  kill_and_reap-Sends :
      (child : ℕ) (exited : Bool) (s : State World)
      → (exited ≡ true → reaped s.log ≡ true)
      → Holds (Sends ((child, sigkill) ∷ []) s) (kill_and_reap sys child exited s)
  unfolding kill_and_reap
  kill_and_reap-Sends child exited s h =
      Holds-Then (Signals child sigkill s) (Sends ((child, sigkill) ∷ []) s) (λ _. reap sys exited)
        (kill_process_group sys child s) (kill-Signals child s)
        λ r t logged.
          Then-cases (Sends ((child, sigkill) ∷ []) s) (λ _. reap sys exited) r t
            (λ _.
              Holds-mono (Sends [] t) (Sends ((child, sigkill) ∷ []) s) (reap sys exited t)
                (Sends-after s t child sigkill [] logged)
                (reap-Sends exited t (λ e. rw logged (reaped_signalled s.log child sigkill (h e)))))
            (λ e. (rw logged (signals_signalled s.log child sigkill), λ k. cc))

  -- The signals from the first `SIGTERM` on, and what success means.
  abbrev Runs : ℕ → State World → Result (Unit {0}) → State World → Type 0
  Runs child s r u =
      Sends ((child, sigterm) ∷ (child, sigkill) ∷ []) s r u
      ⊎ ((r ≢ ok tt) × (signals u.log ≡ signals s.log ++ (child, sigterm) ∷ []))

  -- The same behind `SIGTERM`.
  abbrev Killed : ℕ → State World → Result (Unit {0}) → State World → Type 0
  Killed child t r u =
      Sends ((child, sigkill) ∷ []) t r u ⊎ ((r ≢ ok tt) × (signals u.log ≡ signals t.log))

  after_wait-Killed :
      (child : ℕ) (t : State World) (r : Result Bool) (u : State World)
      → Quiet t r u
      → Then (Killed child t) (kill_and_reap sys child) r u
  after_wait-Killed child t (err e) u (same, _) = inr ((λ k. cc), same)
  after_wait-Killed child t (ok exited) u (same, found_end) =
      Holds-mono (Sends ((child, sigkill) ∷ []) u) (Killed child t)
        (kill_and_reap sys child exited u)
        (λ q v (sent, ends). inl (sent ∙ ap (λ l. l ++ (child, sigkill) ∷ []) same, ends))
        (kill_and_reap-Sends child exited u (λ e. found_end (ap ok e)))

  wait_and_kill-Killed :
      (fuel child : ℕ) (t : State World)
      → Holds (Killed child t) (
          (wait_for_child_exit_blocking sys fuel pty_terminate_grace_period
              >>= kill_and_reap sys child)
            t)
  wait_and_kill-Killed fuel child t =
      Holds-Then (Quiet t) (Killed child t) (kill_and_reap sys child)
        (wait_for_child_exit_blocking sys fuel pty_terminate_grace_period t)
        (wait_for_child_exit-Quiet sys fuel pty_terminate_grace_period t)
        (after_wait-Killed child t)

  Killed-Runs :
      (child : ℕ) (s t : State World)
      → t.log ≡ s.log ++ signalled child sigterm ∷ []
      → (r : Result (Unit {0})) (u : State World) → Killed child t r u
      → Runs child s r u
  Killed-Runs child s t logged r u (inl sends) =
      inl (Sends-after s t child sigterm ((child, sigkill) ∷ []) logged r u sends)
  Killed-Runs child s t logged r u (inr (bad, same)) =
      inr (bad, same ∙ ap signals logged ∙ signals_signalled s.log child sigterm)

  terminate_running-Runs :
      (fuel child : ℕ) (s : State World) → Holds (Runs child s) (terminate_running sys fuel child s)
  unfolding terminate_running
  terminate_running-Runs fuel child s =
      Holds-Then (Signals child sigterm s) (Runs child s) rest (terminate_process_group sys child s)
        (term-Signals child s)
        λ r t logged.
          Then-cases (Runs child s) rest r t
            (λ _.
              Holds-mono (Killed child t) (Runs child s) (rest tt t) (Killed-Runs child s t logged)
                (wait_and_kill-Killed fuel child t))
            (λ e. inr ((λ k. cc), ap signals logged ∙ signals_signalled s.log child sigterm))
    where
      rest : Unit {0} → M World (Unit {0})
      rest _ = wait_for_child_exit_blocking sys fuel pty_terminate_grace_period >>= λ exited.
          kill_and_reap sys child exited

  Runs-Ends :
      (s u : State World)
      → signals u.log ≡ signals s.log
      → (r : Result (Unit {0})) (v : State World) → Runs sys.id u r v
      → Ends sys s r v
  Runs-Ends s u same r v (inl (sent, ends)) = (
    (sys.id, sigterm) ∷ (sys.id, sigkill) ∷ [],
    sent ∙ ap (λ l. l ++ (sys.id, sigterm) ∷ (sys.id, sigkill) ∷ []) same,
    inr (inr refl),
    λ k. (ends k, inr refl),
  )
  Runs-Ends s u same r v (inr (bad, sent)) = (
    (sys.id, sigterm) ∷ [],
    sent ∙ ap (λ l. l ++ (sys.id, sigterm) ∷ []) same,
    inr (inl refl),
    λ k. absurd (bad k),
  )

  after_poll-Ends :
      (fuel : ℕ) (s : State World) (r : Result Bool) (u : State World)
      → Polls s r u
      → Then (Ends sys s) (unless_exited sys fuel) r u
  unfolding unless_exited child_id
  after_poll-Ends fuel s (err e) u h =
      ([], rw (h, append-nil) (signals_polled s.log false), inl refl, λ k. cc)
  after_poll-Ends fuel s (ok true) u h = (
    [],
    rw (h, append-nil) (signals_polled s.log true),
    inl refl,
    λ k. (rw h (reaped_polled s.log), inl refl),
  )
  after_poll-Ends fuel s (ok false) u h =
      Holds-mono (Runs sys.id u) (Ends sys s) (terminate_running sys fuel sys.id u)
        (Runs-Ends s u (rw h (signals_polled s.log false))) (terminate_running-Runs fuel sys.id u)

  -- Ending a child sends its process group nothing, `SIGTERM`, or `SIGTERM` and then `SIGKILL`, on every
  -- path. A success means that a call found the child's end, and that no signal was sent (it had ended
  -- before) or both were.
  pub terminate_child-Ends :
      (fuel : ℕ) (s : State World)
      → Holds (Ends sys s) (terminate_child_process_group_blocking sys fuel s)
  unfolding terminate_child_process_group_blocking
  terminate_child-Ends fuel s =
      Holds-Then (Polls s) (Ends sys s) (unless_exited sys fuel)
        (poll sys "check PTY child status before terminate" s)
        (poll-Polls sys "check PTY child status before terminate" s) (after_poll-Ends fuel s)
