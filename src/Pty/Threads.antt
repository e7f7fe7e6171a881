-- ===== src/Pty/Threads.antt =====
-- Any number of calls on the clones of a handle of crates/terminald-pty/src/process.rs, of `wait`, of
-- `child_id`, of `terminate` and of a drop, each in a thread of its own: they share the flag
-- `cleanup_started`, the mutex of the child and the child. A move is one atomic action of one thread.
pub mod Local
pub mod Moves
pub mod Safety
pub mod Tests
use terminald.Base.{
  ℕ, ◌==◌, List, [], ◌∷◌, ◌++◌, Option, none, some, Bool, true, false, ◌≡◌, ◌≢◌, if◌then◌else◌,
}
use terminald.Pty.Termination.{Signal, sigterm, sigkill}

-- What the thread that cleans up does next, behind `lock`.
pub data Stage : Type 0 where
  -- The first `try_wait`, SIGTERM, the polling loop, SIGKILL with whether the child was found to have
  -- exited, and the last `wait`.
  checking terminating polling : Stage
  killing : Bool → Stage
  reaping : Stage

pub data Thread : Type 0 where
  idle wants_to_wait waiting wants_to_end returned : Thread
  ending : Stage → Thread

-- A signal to the process group, and whether the child had been reaped before it.
pub record Sent : Type 0 where
  pub signal : Signal
  pub late : Bool

pub record Shared : Type 0 where
  pub cleanup_started : Bool
  pub holder : Option ℕ
  pub reaped : Bool
  pub sent : List Sent

abbrev pub sends : Signal → Shared → Shared
sends signal l = record l { sent = l.sent ++ record { signal = signal; late = l.reaped } ∷ [] }

abbrev pub unlocks : Shared → Shared
unlocks l = record l { holder = none }

-- The actions of thread `i`: its place and the shared state before, and both behind it. First those of
-- `wait` and `child_id`.
pub data WaitMove (i : ℕ) : Thread → Shared → Thread → Shared → Type 0 where
  wait_called : (l : Shared) → WaitMove i idle l wants_to_wait l
  wait_locks :
      (l : Shared)
      → l.holder ≡ none
      → WaitMove i wants_to_wait l waiting (record l { holder = some i })
  wait_returns :
      (l : Shared) → WaitMove i waiting l returned (record l { holder = none; reaped = true })
  wait_fails : (l : Shared) → WaitMove i waiting l returned (unlocks l)
  -- `child_id` locks, reads and unlocks.
  child_id_returns : (l : Shared) → l.holder ≡ none → WaitMove i idle l returned l

-- Those of `terminate`, up to the lock: the flag is swapped, and the thread returns if it was set.
pub data EndMove (i : ℕ) : Thread → Shared → Thread → Shared → Type 0 where
  end_called :
      (l : Shared)
      → l.cleanup_started ≡ false
      → EndMove i idle l wants_to_end (record l { cleanup_started = true })
  end_skipped : (l : Shared) → l.cleanup_started ≡ true → EndMove i idle l returned l
  end_locks :
      (l : Shared)
      → l.holder ≡ none
      → EndMove i wants_to_end l (ending checking) (record l { holder = some i })

-- Those of a drop: it swaps the flag, and the thread that it starts locks as `terminate` does, or cannot
-- be started.
pub data DropMove (i : ℕ) : Thread → Shared → Thread → Shared → Type 0 where
  drop_called :
      (l : Shared)
      → l.cleanup_started ≡ false
      → DropMove i idle l wants_to_end (record l { cleanup_started = true })
  drop_skipped : (l : Shared) → l.cleanup_started ≡ true → DropMove i idle l returned l
  drop_given_up :
      (l : Shared)
      → l.cleanup_started ≡ false
      → DropMove i idle l returned (record l { cleanup_started = true })

-- Those of `terminate_child_process_group_blocking`, which the lock is held for.
pub data CleanMove (i : ℕ) : Thread → Shared → Thread → Shared → Type 0 where
  -- The first `try_wait`, which remembers the status of a child that was reaped.
  found_exited :
      (l : Shared)
      → CleanMove i (ending checking) l returned (record l { holder = none; reaped = true })
  found_running :
      (l : Shared) → l.reaped ≡ false → CleanMove i (ending checking) l (ending terminating) l
  check_fails : (l : Shared) → CleanMove i (ending checking) l returned (unlocks l)
  terminates : (l : Shared) → CleanMove i (ending terminating) l (ending polling) (sends sigterm l)
  terminate_fails :
      (l : Shared) → CleanMove i (ending terminating) l returned (unlocks (sends sigterm l))
  -- A round of the polling loop, its two ends, and a `try_wait` that fails.
  sleeps : (l : Shared) → l.reaped ≡ false → CleanMove i (ending polling) l (ending polling) l
  sees_exit :
      (l : Shared)
      → CleanMove i (ending polling) l (ending (killing true)) (record l { reaped = true })
  gives_up :
      (l : Shared) → l.reaped ≡ false → CleanMove i (ending polling) l (ending (killing false)) l
  poll_fails : (l : Shared) → CleanMove i (ending polling) l returned (unlocks l)
  kills_exited :
      (l : Shared) → CleanMove i (ending (killing true)) l returned (unlocks (sends sigkill l))
  kills_running :
      (l : Shared) → CleanMove i (ending (killing false)) l (ending reaping) (sends sigkill l)
  kill_fails :
      (l : Shared) (exited : Bool)
      → CleanMove i (ending (killing exited)) l returned (unlocks (sends sigkill l))
  reaps :
      (l : Shared)
      → CleanMove i (ending reaping) l returned (record l { holder = none; reaped = true })
  reap_fails : (l : Shared) → CleanMove i (ending reaping) l returned (unlocks l)

pub data Move (i : ℕ) : Thread → Shared → Thread → Shared → Type 0 where
  waits : {p q : Thread} {l m : Shared} → WaitMove i p l q m → Move i p l q m
  ends : {p q : Thread} {l m : Shared} → EndMove i p l q m → Move i p l q m
  drops : {p q : Thread} {l m : Shared} → DropMove i p l q m → Move i p l q m
  cleans : {p q : Thread} {l m : Shared} → CleanMove i p l q m → Move i p l q m

abbrev pub update {ℓ} : {A : Type ℓ} → (ℕ → A) → ℕ → A → ℕ → A
update f i a j = if i == j then a else f j

pub record Clones : Type 0 where
  pub threads : ℕ → Thread
  pub shared : Shared

-- The thread `i` moves, and no other.
pub data Step (s : Clones) : Clones → Type 0 where
  moves :
      (i : ℕ) (q : Thread) (l : Shared)
      → Move i (s.threads i) s.shared q l
      → Step s (record { threads = update s.threads i q; shared = l })

-- Behind `spawn`.
abbrev pub spawned : Clones
spawned = record {
  threads = λ i. idle;
  shared = record { cleanup_started = false; holder = none; reaped = false; sent = [] };
}

pub data Reach : Clones → Type 0 where
  start : Reach spawned
  later : {s t : Clones} → Reach s → Step s t → Reach t
