-- ===== src/Pty/Locking.antt =====
-- `PtyHandle::wait` and `PtyProcess::terminate` of crates/terminald-pty/src/process.rs as two threads
-- that share the child's mutex: `wait` holds it until the child has exited, `terminate` while it signals.
-- A step is taken by one of them or by the child. The flag `cleanup_started` may be set already, and the
-- mutex may be poisoned.
pub mod Exclusion
pub mod Tests
use terminald.Base.{Bool, true, false, ◌≡◌}

pub data Holder : Type 0 where
  nobody waiter terminator : Holder

-- `wait` before its call, before it has the mutex, inside of `child.wait()`, returned
-- with the status, and returned with an error.
pub data WaitPhase : Type 0 where
  not_waiting wants_to_wait waiting waited wait_failed : WaitPhase

-- `terminate`, in the same way; `skipped` is its return at a flag that is set.
pub data EndPhase : Type 0 where
  not_ending wants_to_end ending ended skipped : EndPhase

pub record Shared : Type 0 where
  pub exited : Bool
  pub signalled : Bool
  pub cleanup_started : Bool
  pub poisoned : Bool
  pub holder : Holder
  pub wait_phase : WaitPhase
  pub end_phase : EndPhase

pub data Step : Shared → Shared → Type 0 where
  -- `spawn_blocking`, then `lock`, then `child.wait()`, which returns when the child has exited.
  wait_called :
      (s : Shared) → s.wait_phase ≡ not_waiting → Step s (record s { wait_phase = wants_to_wait })
  wait_locks :
      (s : Shared)
      → s.wait_phase ≡ wants_to_wait
      → s.holder ≡ nobody
      → s.poisoned ≡ false
      → Step s (record s { wait_phase = waiting; holder = waiter })
  wait_returns :
      (s : Shared)
      → s.wait_phase ≡ waiting
      → s.exited ≡ true
      → Step s (record s { wait_phase = waited; holder = nobody })
  wait_fails :
      (s : Shared)
      → s.wait_phase ≡ waiting
      → Step s (record s { wait_phase = wait_failed; holder = nobody })
  wait_poisoned :
      (s : Shared)
      → s.wait_phase ≡ wants_to_wait
      → s.holder ≡ nobody
      → s.poisoned ≡ true
      → Step s (record s { wait_phase = wait_failed })
  -- `terminate` swaps the flag and returns if it was set; else `lock`, any number of signals, and its
  -- return, with success or an error.
  terminate_called :
      (s : Shared)
      → s.end_phase ≡ not_ending
      → s.cleanup_started ≡ false
      → Step s (record s { end_phase = wants_to_end; cleanup_started = true })
  terminate_skipped :
      (s : Shared)
      → s.end_phase ≡ not_ending
      → s.cleanup_started ≡ true
      → Step s (record s { end_phase = skipped })
  terminate_locks :
      (s : Shared)
      → s.end_phase ≡ wants_to_end
      → s.holder ≡ nobody
      → s.poisoned ≡ false
      → Step s (record s { end_phase = ending; holder = terminator })
  terminate_poisoned :
      (s : Shared)
      → s.end_phase ≡ wants_to_end
      → s.holder ≡ nobody
      → s.poisoned ≡ true
      → Step s (record s { end_phase = ended })
  terminate_signals : (s : Shared) → s.end_phase ≡ ending → Step s (record s { signalled = true })
  terminate_returns :
      (s : Shared) → s.end_phase ≡ ending → Step s (record s { end_phase = ended; holder = nobody })
  -- The child exits, by itself or by a signal.
  child_exits : (s : Shared) → Step s (record s { exited = true })

pub data Reach (s : Shared) : Shared → Type 0 where
  here : Reach s s
  and_then : {t u : Shared} → Reach s t → Step t u → Reach s u

-- After `spawn`.
abbrev pub spawned : Shared
spawned = record {
  exited = false;
  signalled = false;
  cleanup_started = false;
  poisoned = false;
  holder = nobody;
  wait_phase = not_waiting;
  end_phase = not_ending;
}
