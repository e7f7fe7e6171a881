-- ===== src/Pty/Termination.antt =====
-- How a child is ended: `signal_process_group`, `wait_for_child_exit_blocking` and
-- `terminate_child_process_group_blocking`, and the flag `cleanup_started` under which `terminate` and
-- `drop` share one cleanup. The system is a parameter whose state each call may change; the calls made
-- are logged. The polling loop takes fuel, and `none` is fuel that has run out, or a `wait` that never
-- returns.
pub mod Signals
pub mod Ending
pub mod Clock
pub mod Cleanup
pub mod Waiting
pub mod Tests
use terminald.Base.{
  ℕ, zero, suc, ◌+◌, List, [], ◌∷◌, ◌++◌, Option, none, some, Bool, true, false, not, Bytes, Error,
  message, os, text, context, context_with, Result, ok, err, String, leb, ◌==◌, if◌then◌else◌,
}
use terminald.Decimal.{print_ℕ}
use terminald.Pty.{esrch}

pub data Signal : Type 0 where
  sigterm sigkill : Signal

-- The calls that end a child. `try_wait` and `wait` answer with the exit status, `kill` with an errno or
-- nothing, and times are in milliseconds. `wait` blocks: `none` is a `wait` that never returns. The id of
-- a child does not change.
pub record Os (World : Type 0) : Type 0 where
  pub id : ℕ
  pub try_wait : World → Result (Option ℕ) × World
  pub kill : ℕ → Signal → World → Option ℕ × World
  pub wait : World → Option (Result ℕ × World)
  pub now : World → ℕ × World
  pub sleep : ℕ → World → World

-- A call that was made: `polled` and `waited` with whether they found the child's end, `signalled` with
-- the process group.
pub data Call : Type 0 where
  polled : Bool → Call
  signalled : ℕ → Signal → Call
  waited : Bool → Call
  slept : ℕ → Call

pub record State (World : Type 0) : Type 0 where
  pub world : World
  pub log : List Call

abbrev pub M : Type 0 → Type 0 → Type 0
M World A = State World → Option (Result A × State World)

module _ {World : Type 0} where
  abbrev pub continue_with : {A B : Type 0} → (A → M World B) → Result A → M World B
  continue_with f (ok a) s = f a s
  continue_with f (err e) s = some (err e, s)

  infixl 5 ◌>>=◌ ◌>>◌
  abbrev pub ◌>>=◌ : {A B : Type 0} → M World A → (A → M World B) → M World B
  ◌>>=◌ m f s = elim (m s) [ none ↦ none | some (r, t) ↦ continue_with f r t ]

  abbrev pub ◌>>◌ : {B : Type 0} → M World (Unit {0}) → M World B → M World B
  m >> k = m >>= λ _. k

  abbrev pub pure : {A : Type 0} → A → M World A
  pure a s = some (ok a, s)

  abbrev pub fail : {A : Type 0} → Error → M World A
  fail e s = some (err e, s)

abbrev pub pty_terminate_grace_period : ℕ
pty_terminate_grace_period = 200

abbrev pub pty_terminate_poll_interval : ℕ
pty_terminate_poll_interval = 10

abbrev found : Result (Option ℕ) → Bool
found (ok (some status)) = true
found (ok none) = false
found (err e) = false

abbrev ended : Result ℕ → Bool
ended (ok status) = true
ended (err e) = false

abbrev contextual {ℓ} : {A : Type ℓ} → String → Result A → Result A
contextual what (ok a) = ok a
contextual what (err e) = err (context what e)

signal_result : String → ℕ → Option ℕ → Result (Unit {0})
signal_result action child none = ok tt
signal_result action child (some e) =
    if e == esrch then ok tt else err (context_with action (text (print_ℕ child)) (os e))

module _ {World : Type 0} (sys : Os World) where
  -- `child.try_wait().context(what)?.is_some()`
  pub poll : String → M World Bool
  poll what s =
      let (r, w) = sys.try_wait s.world in
      some (
        contextual what (elim r [ ok o ↦ ok (found (ok o)) | err e ↦ err e ]),
        record { world = w; log = s.log ++ polled (found r) ∷ [] },
      )

  -- `signal_process_group`
  pub signal_process_group : ℕ → Signal → String → M World (Unit {0})
  unfolding signal_result
  signal_process_group child signal action s =
      let (e, w) = sys.kill child signal s.world in
      some (
        signal_result action child e,
        record { world = w; log = s.log ++ signalled child signal ∷ [] },
      )

  pub terminate_process_group : ℕ → M World (Unit {0})
  unfolding signal_process_group
  terminate_process_group child = signal_process_group child sigterm "terminate PTY process group "

  pub kill_process_group : ℕ → M World (Unit {0})
  unfolding signal_process_group
  kill_process_group child = signal_process_group child sigkill "kill PTY process group "

  -- `Instant::now`
  pub now : M World ℕ
  now s = let (t, w) = sys.now s.world in some (ok t, record s { world = w })

  -- `thread::sleep`
  pub sleep : ℕ → M World (Unit {0})
  sleep d s = some (ok tt, record { world = sys.sleep d s.world; log = s.log ++ slept d ∷ [] })

  wait_answer :
      String → State World → Option (Result ℕ × World) → Option (Result (Unit {0}) × State World)
  wait_answer what s none = none
  wait_answer what s (some (r, w)) = some (
    contextual what (elim r [ ok status ↦ ok tt | err e ↦ err e ]),
    record { world = w; log = s.log ++ waited (ended r) ∷ [] },
  )

  -- `child.wait().context(what)?`
  pub wait : String → M World (Unit {0})
  unfolding wait_answer
  wait what s = wait_answer what s (sys.wait s.world)

  pub child_id : M World ℕ
  child_id s = some (ok sys.id, s)

  -- A round of `wait_for_child_exit_blocking` behind the poll; `again` is the next round.
  pub at_time : ℕ → M World Bool → ℕ → M World Bool
  at_time deadline again t =
      if leb deadline t then pure false else (sleep pty_terminate_poll_interval >> again)

  pub after_poll : ℕ → M World Bool → Bool → M World Bool
  after_poll deadline again exited = if exited then pure true else (now >>= at_time deadline again)

  -- Its loop; the result says whether the child has exited.
  pub poll_until : ℕ → ℕ → M World Bool
  poll_until zero deadline = λ s. none
  poll_until (suc fuel) deadline =
      poll "check PTY child status after terminate"
      >>= after_poll deadline (poll_until fuel deadline)

  pub wait_for_child_exit_blocking : ℕ → ℕ → M World Bool
  wait_for_child_exit_blocking fuel timeout = do start ← now; poll_until fuel (start + timeout)

  -- `terminate_child_process_group_blocking`, from its end to its beginning.
  pub reap : Bool → M World (Unit {0})
  reap exited = if exited then pure tt else wait "wait for PTY child after terminate"

  pub kill_and_reap : ℕ → Bool → M World (Unit {0})
  kill_and_reap child exited = do kill_process_group child; reap exited

  pub terminate_running : ℕ → ℕ → M World (Unit {0})
  terminate_running fuel child = do
    terminate_process_group child
    exited ← wait_for_child_exit_blocking fuel pty_terminate_grace_period
    kill_and_reap child exited

  pub unless_exited : ℕ → Bool → M World (Unit {0})
  unless_exited fuel exited = if exited then pure tt else (child_id >>= terminate_running fuel)

  pub terminate_child_process_group_blocking : ℕ → M World (Unit {0})
  terminate_child_process_group_blocking fuel =
      poll "check PTY child status before terminate" >>= unless_exited fuel

-- What the clones of a handle share: the flag, the mutex (poisoned or not) and the child.
pub record Process (World : Type 0) : Type 0 where
  pub cleanup_started : Bool
  pub poisoned : Bool
  pub child : State World

-- `start_cleanup`: `swap` returns the old flag.
abbrev pub start_cleanup : Bool → Bool × Bool
start_cleanup started = (not started, true)

module _ {World : Type 0} where
  with_child :
      Process World
      → Option (Result (Unit {0}) × State World)
      → Option (Result (Unit {0}) × Process World)
  with_child p none = none
  with_child p (some (r, s)) = some (r, record p { child = s })

  forget : Option (Result (Unit {0}) × Process World) → Option (Process World)
  forget none = none
  forget (some (r, p)) = some p

module _ {World : Type 0} (sys : Os World) where
  locked_terminate : ℕ → Process World → Option (Result (Unit {0}) × Process World)
  unfolding with_child
  locked_terminate fuel p =
      if p.poisoned
      then some (err (message "PTY child lock poisoned"), p)
      else with_child p (terminate_child_process_group_blocking sys fuel p.child)

  -- `PtyProcess::terminate`
  unfoldable pub terminate : ℕ → Process World → Option (Result (Unit {0}) × Process World)
  unfolding locked_terminate
  terminate fuel p =
      let (first, flag) = start_cleanup p.cleanup_started in
      if first then locked_terminate fuel (record p { cleanup_started = flag }) else some (ok tt, p)

  -- `terminate_blocking_best_effort`; `spawned` is whether the cleanup thread could be started.
  best_effort : ℕ → Bool → Process World → Option (Result (Unit {0}) × Process World)
  unfolding locked_terminate
  best_effort fuel spawned p =
      let (first, flag) = start_cleanup p.cleanup_started in
      if first
      then if spawned
        then locked_terminate fuel (record p { cleanup_started = flag })
        else some (ok tt, record p { cleanup_started = flag })
      else some (ok tt, p)

  -- `Drop for PtyProcess`: the result of the cleanup, of the poisoned mutex too, is dropped.
  unfoldable pub drop_process : ℕ → Bool → Process World → Option (Process World)
  unfolding best_effort forget
  drop_process fuel spawned p = forget (best_effort fuel spawned p)
