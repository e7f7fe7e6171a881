-- ===== src/Pty/Termination/Tests.antt =====
-- A child that ignores `SIGTERM` at a simulated system, and one that is waited for.
use terminald.Base.{
  ℕ, ◌+◌, List, [], ◌∷◌, Option, none, some, true, false, ◌≡◌, refl, arith, Result, ok, Bool,
  if◌then◌else◌,
}
use native.Mathlib.Nat.{le_refl}
use terminald.Pty.Termination.{
  Signal, sigterm, sigkill, Os, State, Process, terminate_child_process_group_blocking, poll,
  unless_exited, child_id, terminate_running, terminate_process_group, kill_process_group,
  signal_process_group, signal_result, wait_for_child_exit_blocking, poll_until, after_poll,
  at_time, now, sleep, kill_and_reap, reap, wait, wait_answer, waited,
}
use terminald.Pty.Termination.Signals.{signals}
use terminald.Pty.Termination.Ending.{Ends, IsEscalation}
use terminald.Pty.Termination.Clock.{IsClock, IsKilling, terminate_child_total}
use terminald.Pty.Termination.Waiting.{
  handle_wait, handle_child_id, IsReaping, waited_sends_nothing,
}
use terminald.Pty.Termination.Cleanup.{Op, terminates, drops, run, run_escalates_once}

-- The time, and whether the child was killed.
abbrev World : Type 0
World = ℕ × Bool

abbrev after_signal : Signal → World → World
after_signal sigterm w = w
after_signal sigkill (t, killed) = (t, true)

abbrev wait_for_killed : World → Option (Result ℕ × World)
wait_for_killed (t, killed) = if killed then some (ok 9, (t, killed)) else none

-- It ends by SIGKILL only: without that, a `wait` never returns.
abbrev stubborn : Os (ℕ × Bool)
stubborn = record {
  id = 42;
  try_wait = λ w. (ok none, w);
  kill = λ child signal w. (none, after_signal signal w);
  wait = wait_for_killed;
  now = λ w. (w.0, w);
  sleep = λ d w. (w.0 + d, w.1);
}

stubborn-IsClock : IsClock stubborn (λ w. w.0)
stubborn-IsClock = record {
  reads = λ w. refl;
  now_forward = λ w. le_refl w.0;
  poll_forward = λ w. le_refl w.0;
  sleeps = λ d w. le_refl (w.0 + d);
}

stubborn-IsKilling : IsKilling stubborn
stubborn-IsKilling = record { kills = λ w sent. ((ok 9, (w.0, true)), refl) }

abbrev start : State (ℕ × Bool)
start = record { world = (1000, false); log = [] }

abbrev live : Process (ℕ × Bool)
live = record { cleanup_started = false; poisoned = false; child = start }

abbrev signals_after : Option (Result (Unit {0}) × State (ℕ × Bool)) → List (ℕ × Signal)
signals_after none = []
signals_after (some (r, u)) = signals u.log

abbrev time_after : Option (Result (Unit {0}) × State (ℕ × Bool)) → ℕ
time_after none = 0
time_after (some (r, u)) = u.world.0

-- The grace period is waited for, and both signals are sent.
stubborn_child :
    (signals_after (terminate_child_process_group_blocking stubborn 21 start)
      ≡ (42, sigterm) ∷ (42, sigkill) ∷ [])
    × (time_after (terminate_child_process_group_blocking stubborn 21 start) ≡ 1200)
unfolding terminate_child_process_group_blocking poll unless_exited child_id terminate_running
    terminate_process_group kill_process_group signal_process_group signal_result
    wait_for_child_exit_blocking poll_until after_poll at_time now sleep kill_and_reap reap wait
    wait_answer
stubborn_child = (refl, refl)

terminate_child_total_example :
    (r : Result (Unit {0})) × (u : State (ℕ × Bool)) × (terminate_child_process_group_blocking
        stubborn 21 start
      ≡ some (r, u))
    × Ends stubborn start r u
terminate_child_total_example =
    terminate_child_total stubborn (λ w. w.0) stubborn-IsClock stubborn-IsKilling 21 start
      (omega arith)

abbrev both : List Op
both = terminates ∷ drops true ∷ []

run_escalates_once_example :
    (q : Process (ℕ × Bool)) × (run stubborn 21 both live ≡ some q)
    × IsEscalation 42 (signals q.child.log)
run_escalates_once_example =
    run_escalates_once stubborn (λ w. w.0) stubborn-IsClock stubborn-IsKilling 21 (omega arith) both
      live refl refl

-- A child that exits with status 9 as soon as it is waited for.
abbrev obedient : Os Bool
obedient = record {
  id = 42;
  try_wait = λ w. (ok (if w then some 9 else none), w);
  kill = λ child signal w. (none, w);
  wait = λ w. some (ok 9, true);
  now = λ w. (0, w);
  sleep = λ d w. w;
}

obedient-IsReaping : IsReaping obedient
obedient-IsReaping = record {
  remembers = λ w v status e. (9, let exited : true ≡ v = cc in rw (← exited) refl);
}

abbrev running : Process Bool
running = record {
  cleanup_started = false;
  poisoned = false;
  child = record { world = false; log = [] };
}

abbrev waited_for : Process Bool
waited_for = record running { child = record { world = true; log = waited true ∷ [] } }

-- The session ends behind the exit of its process.
waited_sends_nothing_example :
    (r : Process Bool) × (run obedient 0 both waited_for ≡ some r) × (signals r.child.log ≡ [])
unfolding handle_wait
waited_sends_nothing_example =
    waited_sends_nothing obedient 0 obedient-IsReaping both 9 running waited_for refl

its_id : handle_child_id obedient running ≡ ok 42
unfolding handle_child_id
its_id = refl
