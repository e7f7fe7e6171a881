-- ===== src/Pty/Spawn/Setup.antt =====
-- What a child that was started has been given.
use Prim.Native.Nat.{bit_or}
use terminald.Base.{
  ℕ, List, [], ◌∷◌, ◌++◌, Option, none, some, ◌≡◌, refl, ap, subst, false, ◌⊎◌, inl, inr, Bytes,
  All, codes, os, ok, err, Option-cases, >>=-eq-ok, with_context, with_context-eq-ok,
  with_shown_context, with_shown_context-eq-ok, text,
}
use terminald.Pty.{PtySize, Winsize}
use terminald.Pty.Spawn.{
  first_winsize, ChildCall, setsid, set_controlling_terminal, dup2, setenv, ChildSetup, checked,
  make, child_setup, o_nonblock, answered, System, Handle, set_nonblocking, spawn_blocking, spawn,
}

-- A new session with the terminal as its controlling terminal, the terminal as standard input, output
-- and error, and its type in the environment.
abbrev pub whole_setup : List ChildCall
whole_setup =
    setsid
    ∷ set_controlling_terminal
    ∷ dup2 0
    ∷ dup2 1
    ∷ dup2 2
    ∷ setenv (codes "TERM") (codes "xterm-256color")
    ∷ []

abbrev pub Succeeds : (ChildCall → Option ℕ) → ChildCall → Type 0
Succeeds answer c = answer c ≡ none

-- The setup made all of the calls, or those up to the first that failed.
abbrev pub Follows : (ChildCall → Option ℕ) → List ChildCall → ChildSetup → Type 0
Follows answer calls setup =
    (All (Succeeds answer) calls × (setup.calls ≡ calls) × (setup.failed ≡ none))
    ⊎ ((made : List ChildCall) × (c : ChildCall) × (rest : List ChildCall) × (e : ℕ) × (calls
          ≡ made ++ c ∷ rest)
        × All (Succeeds answer) made
        × (answer c ≡ some e)
        × (setup.calls ≡ made ++ c ∷ [])
        × (setup.failed ≡ some e))

module _ (answer : ChildCall → Option ℕ) where
  checked-Follows :
      (c : ChildCall) (calls : List ChildCall) (rest : ChildSetup) (o : Option ℕ)
      → answer c ≡ o
      → Follows answer calls rest
      → Follows answer (c ∷ calls) (checked c o rest)
  checked-Follows c calls rest none e (inl (good, made, fine)) =
      inl ((e, good), ap (◌∷◌ c) made, fine)
  checked-Follows c calls rest none e (inr (made, d, more, n, split, good, bad, done, failed)) =
      inr (c ∷ made, d, more, n, ap (◌∷◌ c) split, (e, good), bad, ap (◌∷◌ c) done, failed)
  checked-Follows c calls rest (some n) e h = inr ([], c, calls, n, refl, tt, e, refl, refl)

  make-Follows :
      (c : ChildCall) (calls : List ChildCall) (rest : ChildSetup)
      → Follows answer calls rest
      → Follows answer (c ∷ calls) (make answer c rest)
  make-Follows c calls rest h = checked-Follows c calls rest (answer c) refl h

  -- Whatever the system answers, a child makes the calls of the setup in order up to the first that
  -- fails, with whose errno the setup fails, and all of them if none does.
  pub child_setup-Follows : Follows answer whole_setup (child_setup answer)
  unfolding child_setup
  child_setup-Follows = make-Follows _ _ _ (
      make-Follows _ _ _ (
        make-Follows _ _ _
          (make-Follows _ _ _ (make-Follows _ _ _ (make-Follows _ [] _ (inl (tt, refl, refl)))))))

  child_setup-Succeeds :
      (child_setup answer).failed ≡ none
      → Follows answer whole_setup (child_setup answer)
      → All (Succeeds answer) whole_setup
  child_setup-Succeeds h (inl (good, _, _)) = good
  child_setup-Succeeds h (inr (made, d, more, n, split, good, bad, done, failed)) = cc

ok_injective : {A : Type 0} {a b : A} → ok a ≡ ok b → a ≡ b
ok_injective h = cc

-- `Command::spawn` reports the error of `pre_exec`.
pub record IsCommand (sys : System) : Type 0 where
  pub reports :
      (program : Bytes) (args : List Bytes) (setup : ChildSetup) (e : ℕ)
      → setup.failed ≡ some e
      → sys.spawn_command program args setup ≡ err (os e)

module _ (sys : System) (lawful : IsCommand sys) where
  setup_of_child :
      (program : Bytes) (args : List Bytes) (child : ℕ)
      → sys.spawn_command program args (child_setup sys.child_call) ≡ ok child
      → (child_setup sys.child_call).failed ≡ none
  setup_of_child program args child h = elim (Option-cases (child_setup sys.child_call).failed) [
    | inl e ↦ e
    | inr (n, e) ↦ let refused = lawful.reports program args (child_setup sys.child_call) n e in cc
  ]

  answered_ok : (o : Option ℕ) → answered o ≡ ok tt → o ≡ none
  answered_ok none h = refl
  answered_ok (some e) h = cc

  nonblocking_sound :
      (fd : ℕ)
      → set_nonblocking sys fd ≡ ok tt
      → (flags : ℕ) × (sys.getfl fd ≡ ok flags) × (sys.setfl fd (bit_or flags o_nonblock) ≡ none)
  unfolding set_nonblocking
  nonblocking_sound fd h =
      let (flags, got, set) =
        >>=-eq-ok (with_context (sys.getfl fd) "get PTY master flags")
          (λ flags.
            with_context (answered (sys.setfl fd (bit_or flags o_nonblock)))
              "set PTY master nonblocking")
          h in
      (flags, with_context-eq-ok _ _ got, answered_ok _ (with_context-eq-ok _ _ set))

  -- The terminal has the rows and columns of the size.
  abbrev pub HasSize : PtySize → Winsize → Type 0
  HasSize size w = (w.ws_row ≡ size.rows) × (w.ws_col ≡ size.cols)

  -- What a process that was started has: a program to run, a terminal of the size asked for whose
  -- master does not block and keeps its other flags, and a child that was spawned with the whole setup.
  abbrev pub IsStarted : List Bytes → PtySize → Handle → Type 0
  IsStarted argv size p =
      (program : Bytes) × (args : List Bytes) × (argv ≡ program ∷ args)
      × ((w : Winsize) × HasSize size w × (sys.openpty w ≡ ok p.io))
      × ((flags : ℕ) × (sys.getfl p.io ≡ ok flags)
          × (sys.setfl p.io (bit_or flags o_nonblock) ≡ none))
      × All (Succeeds sys.child_call) whole_setup
      × (sys.spawn_command program args (child_setup sys.child_call) ≡ ok p.child)

  gives_IsStarted :
      (program : Bytes) (args : List Bytes) (size : PtySize) (p : Handle) (master child : ℕ)
      → sys.openpty (first_winsize size) ≡ ok master
      → set_nonblocking sys master ≡ ok tt
      → sys.spawn_command program args (child_setup sys.child_call) ≡ ok child
      → record { io = master; child = child; cleanup_started = false } ≡ p
      → IsStarted (program ∷ args) size p
  gives_IsStarted program args size p master child opened nonblocking started made =
      let failed = setup_of_child program args child started in
      subst (IsStarted (program ∷ args) size) made (
        program,
        args,
        refl,
        (first_winsize size, (refl, refl), opened),
        nonblocking_sound master nonblocking,
        child_setup-Succeeds sys.child_call failed (child_setup-Follows sys.child_call),
        started,
      )

  -- A process that `spawn` returns is started with all that it needs, for every way in which a call of
  -- the system can fail.
  pub spawn-IsStarted :
      (argv : List Bytes) (size : PtySize) (p : Handle)
      → spawn sys argv size ≡ ok p
      → IsStarted argv size p
  unfolding spawn spawn_blocking
  spawn-IsStarted [] size p h = cc
  spawn-IsStarted (program ∷ args) size p h =
      let (master, opened, h1) =
        >>=-eq-ok (with_context (sys.openpty (first_winsize size)) "open PTY") _ h in
      let (u, nonblocking, h2) = >>=-eq-ok (set_nonblocking sys master) _ h1 in
      let (v, registered, h3) =
        >>=-eq-ok (with_context (sys.register master) "register PTY master") _ h2 in
      let (child, spawned, made) =
        >>=-eq-ok
          (with_shown_context (sys.spawn_command program args (child_setup sys.child_call))
            "spawn PTY command " (text program))
          _ h3 in
      gives_IsStarted program args size p master child (with_context-eq-ok _ _ opened) nonblocking
        (with_shown_context-eq-ok _ _ _ spawned) (ok_injective made)
