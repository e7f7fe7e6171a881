-- ===== src/Pty/Threads/Moves.antt =====
-- What one move of a thread does to what that thread knows, to what the others know, to the flag and
-- to the signals.
use terminald.Base.{ℕ, [], ◌∷◌, ◌++◌, Bool, true, false, ◌≡◌, ◌≢◌, ◌⊎◌, inl, inr, refl, ap}
use terminald.Pty.Termination.{sigterm, sigkill}
use terminald.Pty.Threads.{
  waits, ends, drops, cleans, Thread, Shared, sends, Move, wait_called, wait_locks, wait_returns,
  wait_fails, child_id_returns, end_called, end_skipped, end_locks, drop_called, drop_skipped,
  drop_given_up, found_exited, found_running, check_fails, terminates, terminate_fails, sleeps,
  sees_exit, gives_up, poll_fails, kills_exited, kills_running, kill_fails, reaps, reap_fails,
}
use terminald.Pty.Threads.Local.{
  terminated, IsEscalation, IsCleaning, Knows, outside-Knows, idler-Knows, other_outside,
  free_outside, fresh_idle,
}

-- No signal is sent before the flag is set.
abbrev pub IsQuiet : Shared → Type 0
IsQuiet l = l.cleanup_started ≡ false → l.sent ≡ []

sends_sigterm : (l : Shared) → l.sent ≡ [] → l.reaped ≡ false → (sends sigterm l).sent ≡ terminated
sends_sigterm l none_sent running = rw (none_sent, running) refl

sends_sigkill :
    (l : Shared)
    → l.sent ≡ terminated
    → (late : Bool) × ((sends sigkill l).sent
        ≡ terminated ++ record { signal = sigkill; late = late } ∷ [])
sends_sigkill l sent =
    (l.reaped, ap (λ s. s ++ record { signal = sigkill; late = l.reaped } ∷ []) sent)

module _ {i : ℕ} where
  -- The thread that moves.
  pub Move-Knows :
      {p q : Thread} {l m : Shared} → Move i p l q m → IsQuiet l → Knows i p l → Knows i q m
  Move-Knows (waits (wait_called l)) quiet k = tt
  Move-Knows (waits (wait_locks l free)) quiet k = refl
  Move-Knows (waits (wait_returns l)) quiet k = tt
  Move-Knows (waits (wait_fails l)) quiet k = tt
  Move-Knows (waits (child_id_returns l free)) quiet k = tt
  Move-Knows (ends (end_called l fresh)) quiet k = (refl, quiet fresh)
  Move-Knows (drops (drop_called l fresh)) quiet k = (refl, quiet fresh)
  Move-Knows (ends (end_skipped l started)) quiet k = tt
  Move-Knows (drops (drop_skipped l started)) quiet k = tt
  Move-Knows (drops (drop_given_up l fresh)) quiet k = tt
  Move-Knows (ends (end_locks l free)) quiet k = (refl, k.0, k.1)
  Move-Knows (cleans (found_exited l)) quiet k = tt
  Move-Knows (cleans (found_running l running)) quiet (held, started, before) =
      (held, started, (before, running))
  Move-Knows (cleans (check_fails l)) quiet k = tt
  Move-Knows (cleans (terminates l)) quiet (held, started, (none_sent, running)) =
      (held, started, sends_sigterm l none_sent running)
  Move-Knows (cleans (terminate_fails l)) quiet k = tt
  Move-Knows (cleans (sleeps l running)) quiet k = k
  Move-Knows (cleans (sees_exit l)) quiet k = k
  Move-Knows (cleans (gives_up l running)) quiet k = k
  Move-Knows (cleans (poll_fails l)) quiet k = tt
  Move-Knows (cleans (kills_exited l)) quiet k = tt
  Move-Knows (cleans (kills_running l)) quiet (held, started, sent) =
      (held, started, (sends_sigkill l sent))
  Move-Knows (cleans (kill_fails l exited)) quiet k = tt
  Move-Knows (cleans (reaps l)) quiet k = tt
  Move-Knows (cleans (reap_fails l)) quiet k = tt

  -- A thread that does not move.
  pub Move-others :
      {p q : Thread} {l m : Shared} (j : ℕ) (r : Thread)
      → Move i p l q m
      → Knows i p l
      → j ≢ i
      → (IsCleaning p → ¬ IsCleaning r)
      → Knows j r l
      → Knows j r m
  Move-others j r (waits (wait_called l)) k o c h = h
  Move-others j r (waits (wait_locks l free)) k o c h =
      outside-Knows j r l _ (free_outside j r l free h) refl refl h
  Move-others j r (waits (wait_returns l)) k o c h =
      outside-Knows j r l _ (other_outside i j r l o k h) refl refl h
  Move-others j r (waits (wait_fails l)) k o c h =
      outside-Knows j r l _ (other_outside i j r l o k h) refl refl h
  Move-others j r (waits (child_id_returns l free)) k o c h = h
  Move-others j r (ends (end_called l fresh)) k o c h =
      idler-Knows j r l _ (fresh_idle j r l fresh h) (λ e. refl) h
  Move-others j r (drops (drop_called l fresh)) k o c h =
      idler-Knows j r l _ (fresh_idle j r l fresh h) (λ e. refl) h
  Move-others j r (ends (end_skipped l started)) k o c h = h
  Move-others j r (drops (drop_skipped l started)) k o c h = h
  Move-others j r (drops (drop_given_up l fresh)) k o c h =
      idler-Knows j r l _ (fresh_idle j r l fresh h) (λ e. refl) h
  Move-others j r (ends (end_locks l free)) k o c h =
      outside-Knows j r l _ (free_outside j r l free h) refl refl h
  Move-others j r (cleans (found_exited l)) k o c h =
      outside-Knows j r l _ (other_outside i j r l o k.0 h) refl refl h
  Move-others j r (cleans (found_running l running)) k o c h = h
  Move-others j r (cleans (check_fails l)) k o c h =
      outside-Knows j r l _ (other_outside i j r l o k.0 h) refl refl h
  Move-others j r (cleans (terminates l)) k o c h = idler-Knows j r l _ (c tt) (λ e. refl) h
  Move-others j r (cleans (terminate_fails l)) k o c h =
      idler-Knows j r l _ (c tt) (λ e. absurd (other_outside i j r l o k.0 h e)) h
  Move-others j r (cleans (sleeps l running)) k o c h = h
  Move-others j r (cleans (sees_exit l)) k o c h =
      outside-Knows j r l _ (other_outside i j r l o k.0 h) refl refl h
  Move-others j r (cleans (gives_up l running)) k o c h = h
  Move-others j r (cleans (poll_fails l)) k o c h =
      outside-Knows j r l _ (other_outside i j r l o k.0 h) refl refl h
  Move-others j r (cleans (kills_exited l)) k o c h =
      idler-Knows j r l _ (c tt) (λ e. absurd (other_outside i j r l o k.0 h e)) h
  Move-others j r (cleans (kills_running l)) k o c h = idler-Knows j r l _ (c tt) (λ e. refl) h
  Move-others j r (cleans (kill_fails l exited)) k o c h =
      idler-Knows j r l _ (c tt) (λ e. absurd (other_outside i j r l o k.0 h e)) h
  Move-others j r (cleans (reaps l)) k o c h =
      outside-Knows j r l _ (other_outside i j r l o k.0 h) refl refl h
  Move-others j r (cleans (reap_fails l)) k o c h =
      outside-Knows j r l _ (other_outside i j r l o k.0 h) refl refl h

  -- A move changes no signal, or the mover cleans up and adds the next of the escalation.
  pub Move-sent :
      {p q : Thread} {l m : Shared}
      → Move i p l q m
      → Knows i p l
      → (m.sent ≡ l.sent)
        ⊎ ((l.cleanup_started ≡ true) × (m.cleanup_started ≡ true) × IsEscalation m.sent)
  Move-sent (waits (wait_called l)) k = inl refl
  Move-sent (waits (wait_locks l free)) k = inl refl
  Move-sent (waits (wait_returns l)) k = inl refl
  Move-sent (waits (wait_fails l)) k = inl refl
  Move-sent (waits (child_id_returns l free)) k = inl refl
  Move-sent (ends (end_called l fresh)) k = inl refl
  Move-sent (drops (drop_called l fresh)) k = inl refl
  Move-sent (ends (end_skipped l started)) k = inl refl
  Move-sent (drops (drop_skipped l started)) k = inl refl
  Move-sent (drops (drop_given_up l fresh)) k = inl refl
  Move-sent (ends (end_locks l free)) k = inl refl
  Move-sent (cleans (found_exited l)) k = inl refl
  Move-sent (cleans (found_running l running)) k = inl refl
  Move-sent (cleans (check_fails l)) k = inl refl
  Move-sent (cleans (terminates l)) (held, started, (none_sent, running)) =
      inr (started, started, inr (inl (sends_sigterm l none_sent running)))
  Move-sent (cleans (terminate_fails l)) (held, started, (none_sent, running)) =
      inr (started, started, inr (inl (sends_sigterm l none_sent running)))
  Move-sent (cleans (sleeps l running)) k = inl refl
  Move-sent (cleans (sees_exit l)) k = inl refl
  Move-sent (cleans (gives_up l running)) k = inl refl
  Move-sent (cleans (poll_fails l)) k = inl refl
  Move-sent (cleans (kills_exited l)) (held, started, sent) =
      inr (started, started, inr (inr (sends_sigkill l sent)))
  Move-sent (cleans (kills_running l)) (held, started, sent) =
      inr (started, started, inr (inr (sends_sigkill l sent)))
  Move-sent (cleans (kill_fails l exited)) (held, started, sent) =
      inr (started, started, inr (inr (sends_sigkill l sent)))
  Move-sent (cleans (reaps l)) k = inl refl
  Move-sent (cleans (reap_fails l)) k = inl refl

  -- The flag lets the first thread in, and is never reset.
  pub Move-IsCleaning :
      {p q : Thread} {l m : Shared}
      → Move i p l q m
      → (IsCleaning q → IsCleaning p ⊎ (l.cleanup_started ≡ false))
        × (m.cleanup_started ≡ false → l.cleanup_started ≡ false)
  Move-IsCleaning (waits (wait_called l)) = ((λ e. absurd e), λ e. e)
  Move-IsCleaning (waits (wait_locks l free)) = ((λ e. absurd e), λ e. e)
  Move-IsCleaning (waits (wait_returns l)) = ((λ e. absurd e), λ e. e)
  Move-IsCleaning (waits (wait_fails l)) = ((λ e. absurd e), λ e. e)
  Move-IsCleaning (waits (child_id_returns l free)) = ((λ e. absurd e), λ e. e)
  Move-IsCleaning (ends (end_called l fresh)) = ((λ e. inr fresh), λ e. fresh)
  Move-IsCleaning (drops (drop_called l fresh)) = ((λ e. inr fresh), λ e. fresh)
  Move-IsCleaning (ends (end_skipped l started)) = ((λ e. absurd e), λ e. e)
  Move-IsCleaning (drops (drop_skipped l started)) = ((λ e. absurd e), λ e. e)
  Move-IsCleaning (drops (drop_given_up l fresh)) = ((λ e. absurd e), λ e. fresh)
  Move-IsCleaning (ends (end_locks l free)) = ((λ e. inl tt), λ e. e)
  Move-IsCleaning (cleans (found_exited l)) = ((λ e. inl tt), λ e. e)
  Move-IsCleaning (cleans (found_running l running)) = ((λ e. inl tt), λ e. e)
  Move-IsCleaning (cleans (check_fails l)) = ((λ e. inl tt), λ e. e)
  Move-IsCleaning (cleans (terminates l)) = ((λ e. inl tt), λ e. e)
  Move-IsCleaning (cleans (terminate_fails l)) = ((λ e. inl tt), λ e. e)
  Move-IsCleaning (cleans (sleeps l running)) = ((λ e. inl tt), λ e. e)
  Move-IsCleaning (cleans (sees_exit l)) = ((λ e. inl tt), λ e. e)
  Move-IsCleaning (cleans (gives_up l running)) = ((λ e. inl tt), λ e. e)
  Move-IsCleaning (cleans (poll_fails l)) = ((λ e. inl tt), λ e. e)
  Move-IsCleaning (cleans (kills_exited l)) = ((λ e. inl tt), λ e. e)
  Move-IsCleaning (cleans (kills_running l)) = ((λ e. inl tt), λ e. e)
  Move-IsCleaning (cleans (kill_fails l exited)) = ((λ e. inl tt), λ e. e)
  Move-IsCleaning (cleans (reaps l)) = ((λ e. inl tt), λ e. e)
  Move-IsCleaning (cleans (reap_fails l)) = ((λ e. inl tt), λ e. e)
