-- ===== src/Pty/Threads/Tests.antt =====
-- A call of `terminate` and a drop that run at once.
use terminald.Base.{ℕ, some, true, ◌≡◌, refl}
use terminald.Pty.Threads.{
  ends, cleans, Thread, ending, polling, checking, terminating, wants_to_end, returned, Shared,
  end_called, end_skipped, end_locks, found_running, terminates, update, Clones, moves, spawned,
  Reach, start, later,
}
use terminald.Pty.Threads.Local.{IsInside, IsCleaning, IsEscalation, terminated}
use terminald.Pty.Threads.Safety.{threads_escalate_once}

abbrev first : ℕ
first = 1

abbrev second : ℕ
second = 2

abbrev flagged : Shared
flagged = record spawned.shared { cleanup_started = true }

abbrev locked : Shared
locked = record flagged { holder = some first }

abbrev asked : Shared
asked = record locked { sent = terminated }

abbrev acts : Clones → ℕ → Thread → Shared → Clones
acts s i q l = record { threads = update s.threads i q; shared = l }

-- Thread 1 gets the flag and the mutex, thread 2 finds the flag set, and thread 1 sends SIGTERM.
abbrev first_called : Clones
first_called = acts spawned first wants_to_end flagged

abbrev second_called : Clones
second_called = acts first_called second returned flagged

abbrev first_checks : Clones
first_checks = acts second_called first (ending checking) locked

abbrev first_terminates : Clones
first_terminates = acts first_checks first (ending terminating) locked

abbrev first_polls : Clones
first_polls = acts first_terminates first (ending polling) asked

first_polls_reached : Reach first_polls
first_polls_reached =
    later
      (later
        (later
          (later
            (later start (moves first wants_to_end flagged (ends (end_called spawned.shared refl))))
            (moves second returned flagged (ends (end_skipped flagged refl))))
          (moves first (ending checking) locked (ends (end_locks flagged refl))))
        (moves first (ending terminating) locked (cleans (found_running locked refl))))
      (moves first (ending polling) asked (cleans (terminates locked)))

threads_escalate_once_example :
    (IsInside (ending polling) → IsInside returned → first ≡ second)
    × (IsCleaning (ending polling) → IsCleaning returned → first ≡ second)
    × IsEscalation asked.sent
threads_escalate_once_example = threads_escalate_once first second first_polls_reached
