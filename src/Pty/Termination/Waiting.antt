-- ===== src/Pty/Termination/Waiting.antt =====
-- `PtyHandle::wait` and `PtyHandle::child_id` of crates/terminald-pty/src/process.rs, and what is left to
-- do for a cleanup behind a `wait` that succeeded.
use terminald.Base.{
  ℕ, List, [], ◌∷◌, ◌++◌, append-nil, Option, none, some, Bool, true, false, ◌≡◌, refl, subst, ap,
  ◌∙◌, message, String, Result, ok, err, if◌then◌else◌,
}
use terminald.Pty.Termination.{
  Signal, Os, polled, waited, State, Process, contextual, ended, poll, unless_exited,
  terminate_child_process_group_blocking, terminate, drop_process, best_effort, forget,
  locked_terminate, with_child,
}
use terminald.Pty.Termination.Signals.{signals, signals-append}
use terminald.Pty.Termination.Cleanup.{Op, terminates, drops, run}

module _ {World : Type 0} (sys : Os World) where
  locked_answer : Process World → Option (Result ℕ × World) → Option (Result ℕ × Process World)
  locked_answer p none = none
  locked_answer p (some (r, w)) = some (
    contextual "wait for PTY child" r,
    record p { child = record { world = w; log = p.child.log ++ waited (ended r) ∷ [] } },
  )

  -- `child.wait()`, which holds the mutex while it blocks; `none` is a `wait` that never returns.
  locked_wait : Process World → Option (Result ℕ × Process World)
  unfolding locked_answer
  locked_wait p = locked_answer p (sys.wait p.child.world)

  -- `PtyHandle::wait`, and `PtyProcess::wait`, which calls it.
  unfoldable pub handle_wait : Process World → Option (Result ℕ × Process World)
  unfolding locked_wait
  handle_wait p =
      if p.poisoned then some (err (message "PTY child lock poisoned"), p) else locked_wait p

  -- `PtyHandle::child_id`, and `PtyProcess::child_id`.
  unfoldable pub handle_child_id : Process World → Result ℕ
  handle_child_id p = if p.poisoned then err (message "PTY child lock poisoned") else ok sys.id

-- A child that was waited for is known to have exited.
pub record IsReaping {World : Type 0} (sys : Os World) : Type 0 where
  pub remembers :
      (w v : World) (status : ℕ)
      → sys.wait w ≡ some (ok status, v)
      → (known : ℕ) × ((sys.try_wait v).0 ≡ ok (some known))

contextual_ok :
    {A : Type 0} (what : String) (r : Result A) {a : A} → contextual what r ≡ ok a → r ≡ ok a
contextual_ok what (ok x) e = cc
contextual_ok what (err x) e = cc

module _ {World : Type 0} (sys : Os World) (fuel : ℕ) where
  abbrev process : Bool → Bool → State World → Process World
  process started poisoned child = record {
    cleanup_started = started;
    poisoned = poisoned;
    child = child;
  }

  -- The flag is set: nothing is left to do.
  run_started :
      (ops : List Op) (poisoned : Bool) (s : State World)
      → run sys fuel ops (process true poisoned s) ≡ some (process true poisoned s)
  unfolding run terminate drop_process best_effort forget
  run_started [] poisoned s = refl
  run_started (terminates ∷ ops) poisoned s = run_started ops poisoned s
  run_started (drops spawned ∷ ops) poisoned s = run_started ops poisoned s

  -- The state behind the one poll that finds the end of the child.
  abbrev polled_once : State World → State World
  polled_once s = record { world = (sys.try_wait s.world).1; log = s.log ++ polled true ∷ [] }

  terminate_exited :
      (s : State World) (known : ℕ)
      → (sys.try_wait s.world).0 ≡ ok (some known)
      → terminate_child_process_group_blocking sys fuel s ≡ some (ok tt, polled_once s)
  unfolding terminate_child_process_group_blocking poll unless_exited
  terminate_exited s known e = rw e refl

  -- The calls return, and leave the process with these signals.
  abbrev pub EndsWith : List (ℕ × Signal) → Option (Process World) → Type 0
  EndsWith sent o = (q : Process World) × (o ≡ some q) × (signals q.child.log ≡ sent)

  polled_once-EndsWith :
      (ops : List Op) (s : State World)
      → EndsWith (signals s.log) (run sys fuel ops (process true false (polled_once s)))
  polled_once-EndsWith ops s = (
    process true false (polled_once s),
    run_started ops false (polled_once s),
    signals-append s.log (polled true ∷ []) ∙ append-nil (signals s.log),
  )

  run_exited :
      (ops : List Op) (s : State World) (known : ℕ)
      → (sys.try_wait s.world).0 ≡ ok (some known)
      → EndsWith (signals s.log) (run sys fuel ops (process false false s))
  unfolding run terminate drop_process best_effort forget locked_terminate with_child
  run_exited [] s known exited = (process false false s, refl, refl)
  run_exited (terminates ∷ ops) s known exited =
      rw (run, terminate_exited s known exited) (polled_once-EndsWith ops s)
  run_exited (drops true ∷ ops) s known exited =
      rw (run, terminate_exited s known exited) (polled_once-EndsWith ops s)
  run_exited (drops false ∷ ops) s known exited =
      (process true false s, run_started ops false s, refl)

  abbrev waited_for : State World → World → Result ℕ → State World
  waited_for s w r = record { world = w; log = s.log ++ waited (ended r) ∷ [] }

  signals-waited_for :
      (s : State World) (w : World) (r : Result ℕ) → signals (waited_for s w r).log ≡ signals s.log
  signals-waited_for s w r = signals-append s.log (waited _ ∷ []) ∙ append-nil (signals s.log)

  module _ (lawful : IsReaping sys) (ops : List Op) (status : ℕ) where
    -- The clean-up behind the answer of a `wait` that succeeded.
    run_answered :
        (started : Bool) (s : State World) (q : Process World) (o : Option (Result ℕ × World))
        → sys.wait s.world ≡ o
        → locked_answer sys (process started false s) o ≡ some (ok status, q)
        → EndsWith (signals s.log) (run sys fuel ops q)
    unfolding locked_answer
    run_answered started s q none a e = cc
    run_answered true s q (some (r, w)) a e =
        let same : process true false (waited_for s w r) ≡ q = cc in
        subst (λ x. EndsWith (signals s.log) (run sys fuel ops x)) same
          (
            process true false (waited_for s w r),
            run_started ops false (waited_for s w r),
            signals-waited_for s w r,
          )
    run_answered false s q (some (r, w)) a e =
        let same : process false false (waited_for s w r) ≡ q = cc in
        let succeeded : contextual "wait for PTY child" r ≡ ok status = cc in
        let found = a ∙ ap (λ x. some (x, w)) (contextual_ok "wait for PTY child" r succeeded) in
        let (known, exited) = lawful.remembers s.world w status found in
        let cleaned = run_exited ops (waited_for s w r) known exited in
        subst (λ x. EndsWith (signals s.log) (run sys fuel ops x)) same
          (subst (λ l. EndsWith l (run sys fuel ops (process false false (waited_for s w r))))
            (signals-waited_for s w r) cleaned)

    -- By the flag and the mutex.
    run_waited :
        (started poisoned : Bool) (s : State World) (q : Process World)
        → handle_wait sys (process started poisoned s) ≡ some (ok status, q)
        → EndsWith (signals s.log) (run sys fuel ops q)
    unfolding handle_wait locked_wait
    run_waited started true s q e = cc
    run_waited started false s q e = run_answered started s q (sys.wait s.world) refl e

    -- Behind a `wait` that succeeded, every sequence of calls of `terminate` and drops of the process
    -- returns, with any fuel, and none of them sends a signal.
    pub waited_sends_nothing :
        (p q : Process World)
        → handle_wait sys p ≡ some (ok status, q)
        → (r : Process World) × (run sys fuel ops q ≡ some r)
          × (signals r.child.log ≡ signals p.child.log)
    waited_sends_nothing p q e = run_waited p.cleanup_started p.poisoned p.child q e
