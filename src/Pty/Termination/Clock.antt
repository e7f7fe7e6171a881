-- ===== src/Pty/Termination/Clock.antt =====
-- The grace period ends: 21 rounds of polling are enough, since every pause takes its 10 milliseconds. The
-- last `wait` ends, since it is behind SIGKILL.
use terminald.Base.{
  ℕ, zero, suc, ◌+◌, ◌*◌, ◌≤◌, ◌<◌, [], ◌∷◌, ◌++◌, Option, none, some, Bool, true, false, ◌≡◌, refl,
  arith, String, Result, ok, err, leb, ◌==◌, ap, ◌⊎◌, Bool-cases, inl, inr,
}
use terminald.Pty.{esrch}
use terminald.Pty.Termination.Signals.{Holds}
use terminald.Pty.Termination.Ending.{Ends, terminate_child-Ends}
use terminald.Pty.Termination.{
  Os, State, M, slept, continue_with, poll, terminate_process_group, kill_process_group,
  signal_process_group, signal_result, sigkill, now, sleep, wait, wait_answer, child_id, at_time,
  after_poll, poll_until, wait_for_child_exit_blocking, reap, kill_and_reap, terminate_running,
  unless_exited, terminate_child_process_group_blocking, pty_terminate_poll_interval,
  pty_terminate_grace_period,
}

-- `Instant::now` reads a clock that no poll turns back, and `thread::sleep` takes at least its time.
pub record IsClock {World : Type 0} (sys : Os World) (time : World → ℕ) : Type 0 where
  pub reads : (w : World) → (sys.now w).0 ≡ time (sys.now w).1
  pub now_forward : (w : World) → time w ≤ time (sys.now w).1
  pub poll_forward : (w : World) → time w ≤ time (sys.try_wait w).1
  pub sleeps : (d : ℕ) (w : World) → time w + d ≤ time (sys.sleep d w)

abbrev IsDelivered : Option ℕ → Type 0
IsDelivered e = (e ≡ none) ⊎ (e ≡ some esrch)

-- SIGKILL ends a process: behind a `kill` of the child's group that delivers it, or that finds no
-- process left, a `wait` for the child returns.
pub record IsKilling {World : Type 0} (sys : Os World) : Type 0 where
  pub kills :
      (w : World)
      → IsDelivered (sys.kill sys.id sigkill w).0
      → (a : Result ℕ × World) × (sys.wait (sys.kill sys.id sigkill w).1 ≡ some a)

-- The run ends, and in a state with the property.
abbrev pub Total :
    {World A : Type 0} → (State World → Type 0) → Option (Result A × State World) → Type 0
Total P none = ⊥
Total P (some (r, u)) = P u

Total-then :
    {World A B : Type 0} (P Q : State World → Type 0) (f : A → M World B)
    (o : Option (Result A × State World))
    → Total P o
    → ((a : A) (t : State World) → P t → Total Q (f a t))
    → ((t : State World) → P t → Q t)
    → Total Q (elim o [ none ↦ none | some (r, t) ↦ continue_with f r t ])
Total-then P Q f none h good bad = h
Total-then P Q f (some (ok a, t)) h good bad = good a t h
Total-then P Q f (some (err e, t)) h good bad = bad t h

abbrev pub Anything : {World : Type 0} → State World → Type 0
Anything t = Unit {0}

abbrev NotBefore : {World : Type 0} → (World → ℕ) → ℕ → State World → Type 0
NotBefore time t s = t ≤ time s.world

module _ {World : Type 0} (sys : Os World) (time : World → ℕ) (clock : IsClock sys time)
    (killing : IsKilling sys) where
  poll-NotBefore :
      (what : String) (t : ℕ) (s : State World)
      → NotBefore time t s
      → Total (NotBefore time t) (poll sys what s)
  unfolding poll
  poll-NotBefore what t s h = omega (arith, clock.poll_forward s.world)

  module _ (deadline : ℕ) (again : M World Bool) where
    -- The next round ends if there is time that has passed in it.
    after_poll_ends :
        (k : ℕ) (exited : Bool) (s : State World)
        → deadline ≤ time s.world + 10 * k
        → ((j : ℕ) (u : State World)
            → k ≡ suc j
            → deadline ≤ time u.world + 10 * j
            → Total Anything (again u))
        → Total Anything (after_poll sys deadline again exited s)
    unfolding after_poll now at_time sleep
    after_poll_ends k true s h next = tt
    after_poll_ends zero false s h next =
        let (t, w) = sys.now s.world in
        let over : leb deadline t ≡ true =
          ground (arith, clock.reads s.world, clock.now_forward s.world) in
        rw over tt
    after_poll_ends (suc k) false s h next =
        let (t, w) = sys.now s.world in
        elim (Bool-cases (leb deadline t)) [
          | inl over ↦ rw over tt
          | inr more ↦ rw more (
              next k
                (record {
                  world = sys.sleep pty_terminate_poll_interval w;
                  log = s.log ++ slept pty_terminate_poll_interval ∷ [];
                })
                refl
                (omega
                  (arith, clock.now_forward s.world, clock.sleeps pty_terminate_poll_interval w)))
        ]

  poll_until_ends :
      (fuel k deadline : ℕ) (s : State World)
      → k < fuel
      → deadline ≤ time s.world + 10 * k
      → Total Anything (poll_until sys fuel deadline s)
  unfolding poll_until
  poll_until_ends zero k deadline s lt h = absurd (omega arith)
  poll_until_ends (suc fuel) k deadline s lt h =
      Total-then (NotBefore time (time s.world)) Anything
        (after_poll sys deadline (poll_until sys fuel deadline))
        (poll sys "check PTY child status after terminate" s)
        (poll-NotBefore "check PTY child status after terminate" (time s.world) s (omega arith))
        (λ exited t later.
          after_poll_ends deadline (poll_until sys fuel deadline) k exited t (omega arith)
            (λ j u e hj. poll_until_ends fuel j deadline u (omega arith) hj))
        (λ t p. tt)

  wait_for_child_exit_ends :
      (fuel : ℕ) (s : State World)
      → 20 < fuel
      → Total Anything (wait_for_child_exit_blocking sys fuel pty_terminate_grace_period s)
  unfolding wait_for_child_exit_blocking now
  wait_for_child_exit_ends fuel s h =
      let (t, w) = sys.now s.world in
      poll_until_ends fuel 20 (t + pty_terminate_grace_period) (record s { world = w }) h
        (omega (arith, clock.reads s.world))

  reap_ends :
      (t : State World) (a : Result ℕ × World)
      → sys.wait t.world ≡ some a
      → Total Anything (reap sys false t)
  unfolding reap wait wait_answer
  reap_ends t a e = rw e tt

  after_kill_ends :
      (action : String) (e : Option ℕ) (t : State World)
      → (IsDelivered e → Total Anything (reap sys false t))
      → Total Anything (continue_with (λ _. reap sys false) (signal_result action sys.id e) t)
  unfolding signal_result
  after_kill_ends action none t next = next (inl refl)
  after_kill_ends action (some e) t next = elim (Bool-cases (e == esrch)) [
    | inl gone ↦ let same : e ≡ esrch = ground arith in rw gone (next (inr (ap some same)))
    | inr failed ↦ rw failed tt
  ]

  kill_and_reap_ends :
      (exited : Bool) (s : State World) → Total Anything (kill_and_reap sys sys.id exited s)
  unfolding kill_and_reap kill_process_group signal_process_group
  kill_and_reap_ends true s =
      Total-then Anything Anything (λ _. reap sys true) (kill_process_group sys sys.id s) tt
        (λ _ t _. unfold reap in tt) (λ t p. tt)
  kill_and_reap_ends false s =
      let (e, w) = sys.kill sys.id sigkill s.world in
      after_kill_ends "kill PTY process group " e _
        (λ sent. let (a, back) = killing.kills s.world sent in reap_ends _ a back)

  terminate_running_ends :
      (fuel : ℕ) (s : State World)
      → 20 < fuel
      → Total Anything (terminate_running sys fuel sys.id s)
  unfolding terminate_running
  terminate_running_ends fuel s h =
      Total-then Anything Anything _ (terminate_process_group sys sys.id s)
        (unfold terminate_process_group in tt)
        (λ _ t _.
          Total-then Anything Anything (kill_and_reap sys sys.id)
            (wait_for_child_exit_blocking sys fuel pty_terminate_grace_period t)
            (wait_for_child_exit_ends fuel t h) (λ exited u _. kill_and_reap_ends exited u)
            (λ u p. tt))
        (λ t p. tt)

  unless_exited_ends :
      (fuel : ℕ) (exited : Bool) (s : State World)
      → 20 < fuel
      → Total Anything (unless_exited sys fuel exited s)
  unfolding unless_exited child_id
  unless_exited_ends fuel true s h = tt
  unless_exited_ends fuel false s h = terminate_running_ends fuel s h

  pub terminate_child_ends :
      (fuel : ℕ) (s : State World)
      → 20 < fuel
      → Total Anything (terminate_child_process_group_blocking sys fuel s)
  unfolding terminate_child_process_group_blocking
  terminate_child_ends fuel s h =
      Total-then Anything Anything (unless_exited sys fuel)
        (poll sys "check PTY child status before terminate" s) (unfold poll in tt)
        (λ exited t _. unless_exited_ends fuel exited t h) (λ t p. tt)

  -- At a clock that does not go back and advances by a sleep, at a system where a `wait` behind SIGKILL
  -- returns (no other `wait` need return), and with fuel for more than 20 rounds of polling, ending a
  -- child returns, with a result and a log as in `Ends`: the signals sent to its process group are none,
  -- SIGTERM, or SIGTERM and then SIGKILL, and after a success the child has been waited for.
  pub terminate_child_total :
      (fuel : ℕ) (s : State World)
      → 20 < fuel
      → (r : Result (Unit {0})) × (u : State World) × (terminate_child_process_group_blocking sys
            fuel s
          ≡ some (r, u))
        × Ends sys s r u
  terminate_child_total fuel s h =
      returned (terminate_child_process_group_blocking sys fuel s) refl
        (terminate_child_ends fuel s h) (terminate_child-Ends sys fuel s)
    where
      returned :
          (o : Option (Result (Unit {0}) × State World))
          → terminate_child_process_group_blocking sys fuel s ≡ o
          → Total Anything o
          → Holds (Ends sys s) o
          → (r : Result (Unit {0})) × (u : State World) × (terminate_child_process_group_blocking
                sys fuel s
              ≡ some (r, u))
            × Ends sys s r u
      returned none e t h = absurd t
      returned (some (r, u)) e t h = (r, u, e, h)
