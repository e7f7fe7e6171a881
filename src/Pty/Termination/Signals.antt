-- ===== src/Pty/Termination/Signals.antt =====
-- Which signals are sent when a child is ended, and that the child has been waited for.
use terminald.Base.{
  ℕ, zero, suc, ◌+◌, List, [], ◌∷◌, ◌++◌, append-nil, Option, none, some, Bool, true, false, ◌||◌,
  ◌≡◌, refl, ap, ◌∙◌, inl, inr, arith, Error, String, Result, ok, err, leb, Bool-cases,
}
use terminald.Pty.Termination.{
  Signal, Os, Call, polled, signalled, waited, slept, State, M, continue_with, poll, now, sleep,
  poll_until, at_time, after_poll, wait_for_child_exit_blocking, pty_terminate_poll_interval, found,
  contextual,
}

-- The signals of a log, in order.
abbrev pub signals : List Call → List (ℕ × Signal)
signals [] = []
signals (signalled child signal ∷ log) = (child, signal) ∷ signals log
signals (polled b ∷ log) = signals log
signals (waited b ∷ log) = signals log
signals (slept d ∷ log) = signals log

-- A call of the log found the end of the child.
abbrev pub reaped : List Call → Bool
reaped [] = false
reaped (signalled child signal ∷ log) = reaped log
reaped (polled b ∷ log) = b || reaped log
reaped (waited b ∷ log) = b || reaped log
reaped (slept d ∷ log) = reaped log

pub signals-append : (l m : List Call) → signals (l ++ m) ≡ signals l ++ signals m
signals-append [] m = refl
signals-append (signalled c s ∷ l) m = ap (◌∷◌ (c, s)) (signals-append l m)
signals-append (polled b ∷ l) m = signals-append l m
signals-append (waited b ∷ l) m = signals-append l m
signals-append (slept d ∷ l) m = signals-append l m

pub reaped-append : (l m : List Call) → reaped (l ++ m) ≡ (reaped l || reaped m)
reaped-append [] m = refl
reaped-append (signalled c s ∷ l) m = reaped-append l m
reaped-append (polled true ∷ l) m = refl
reaped-append (polled false ∷ l) m = reaped-append l m
reaped-append (waited true ∷ l) m = refl
reaped-append (waited false ∷ l) m = reaped-append l m
reaped-append (slept d ∷ l) m = reaped-append l m

module _ {World : Type 0} where
  -- What holds of the result and the state after a run that ends.
  abbrev pub Holds :
      {A : Type 0} → (Result A → State World → Type 0) → Option (Result A × State World) → Type 0
  Holds Q none = Unit {0}
  Holds Q (some (r, u)) = Q r u

  abbrev pub Then :
      {A B : Type 0}
      → (Result B → State World → Type 0)
      → (A → M World B)
      → Result A
      → State World
      → Type 0
  Then Q f (ok a) u = Holds Q (f a u)
  Then Q f (err e) u = Q (err e) u

  pub Holds-bind :
      {A B : Type 0} (Q : Result B → State World → Type 0) (f : A → M World B)
      (o : Option (Result A × State World))
      → Holds (Then Q f) o
      → Holds Q (elim o [ none ↦ none | some (r, t) ↦ continue_with f r t ])
  Holds-bind Q f none h = tt
  Holds-bind Q f (some (ok a, t)) h = h
  Holds-bind Q f (some (err e, t)) h = h

  pub Holds-mono :
      {A : Type 0} (P Q : Result A → State World → Type 0) (o : Option (Result A × State World))
      → ((r : Result A) (u : State World) → P r u → Q r u)
      → Holds P o
      → Holds Q o
  Holds-mono P Q none f h = tt
  Holds-mono P Q (some (r, u)) f h = f r u h

  -- The rule for two steps: a postcondition of the first one that leads on.
  pub Holds-Then :
      {A B : Type 0} (P : Result A → State World → Type 0) (Q : Result B → State World → Type 0)
      (f : A → M World B) (o : Option (Result A × State World))
      → Holds P o
      → ((r : Result A) (t : State World) → P r t → Then Q f r t)
      → Holds Q (elim o [ none ↦ none | some (r, t) ↦ continue_with f r t ])
  Holds-Then P Q f o h next = Holds-bind Q f o (Holds-mono P (Then Q f) o next h)

  pub Then-cases :
      {A B : Type 0} (Q : Result B → State World → Type 0) (f : A → M World B) (r : Result A)
      (t : State World)
      → ((a : A) → Holds Q (f a t))
      → ((e : Error) → Q (err e) t)
      → Then Q f r t
  Then-cases Q f (ok a) t good bad = good a
  Then-cases Q f (err e) t good bad = bad e

-- A poll is logged with what it found.
abbrev pub Polls : {World : Type 0} → State World → Result Bool → State World → Type 0
Polls s (ok b) u = u.log ≡ s.log ++ polled b ∷ []
Polls s (err e) u = u.log ≡ s.log ++ polled false ∷ []

-- No signal is sent, and `true` means that the child has been waited for.
abbrev pub Quiet : {World : Type 0} → State World → Result Bool → State World → Type 0
Quiet s r u = (signals u.log ≡ signals s.log) × (r ≡ ok true → reaped u.log ≡ true)

pub signals_polled : (l : List Call) (b : Bool) → signals (l ++ polled b ∷ []) ≡ signals l
signals_polled l b = signals-append l (polled b ∷ []) ∙ append-nil (signals l)

signals_slept : (l : List Call) (d : ℕ) → signals (l ++ slept d ∷ []) ≡ signals l
signals_slept l d = signals-append l (slept d ∷ []) ∙ append-nil (signals l)

pub reaped_polled : (l : List Call) → reaped (l ++ polled true ∷ []) ≡ true
reaped_polled l = reaped-append l (polled true ∷ []) ∙ ground arith

module _ {World : Type 0} (sys : Os World) where
  pub poll-Polls : (what : String) (s : State World) → Holds (Polls s) (poll sys what s)
  unfolding poll
  poll-Polls what s = by_answer (sys.try_wait s.world)
    where
      by_answer :
          (a : Result (Option ℕ) × World)
          → Holds (Polls s) (
              let (r, w) = a in
              some (
                contextual what (elim r [ ok o ↦ ok (found (ok o)) | err e ↦ err e ]),
                record { world = w; log = s.log ++ polled (found r) ∷ [] },
              ))
      by_answer (ok o, w) = refl
      by_answer (err e, w) = refl

  Quiet-trans :
      (s t : State World)
      → signals t.log ≡ signals s.log
      → (r : Result Bool) (u : State World) → Quiet t r u
      → Quiet s r u
  Quiet-trans s t e r u (same, found_end) = (same ∙ e, found_end)

  abbrev after_sleep : State World → State World
  after_sleep s = record {
    world = sys.sleep pty_terminate_poll_interval s.world;
    log = s.log ++ slept pty_terminate_poll_interval ∷ [];
  }

  module _ (deadline : ℕ) (again : M World Bool)
      (quiet : (s : State World) → Holds (Quiet s) (again s)) where
    at_time-Quiet : (t : ℕ) (s : State World) → Holds (Quiet s) (at_time sys deadline again t s)
    unfolding at_time sleep
    at_time-Quiet t s = elim (Bool-cases (leb deadline t)) [
      | inl over ↦ rw over (refl, λ h. cc)
      | inr more ↦ rw more (
          Holds-mono (Quiet (after_sleep s)) (Quiet s) (again (after_sleep s))
            (Quiet-trans s (after_sleep s) (signals_slept s.log pty_terminate_poll_interval))
            (quiet (after_sleep s)))
    ]

    after_poll-Quiet :
        (s : State World) (r : Result Bool) (u : State World)
        → Polls s r u
        → Then (Quiet s) (after_poll sys deadline again) r u
    unfolding after_poll now
    after_poll-Quiet s (err e) u h = (rw h (signals_polled s.log false), λ k. cc)
    after_poll-Quiet s (ok true) u h =
        (rw h (signals_polled s.log true), λ k. rw h (reaped_polled s.log))
    after_poll-Quiet s (ok false) u h =
        let same : signals u.log ≡ signals s.log = rw h (signals_polled s.log false) in
        let (t, w) = sys.now u.world in
        let v : State World = record u { world = w } in
        Holds-mono (Quiet v) (Quiet s) (at_time sys deadline again t v) (Quiet-trans s v same)
          (at_time-Quiet t v)

  pub poll_until-Quiet :
      (fuel deadline : ℕ) (s : State World) → Holds (Quiet s) (poll_until sys fuel deadline s)
  unfolding poll_until
  poll_until-Quiet zero deadline s = tt
  poll_until-Quiet (suc fuel) deadline s =
      Holds-Then (Polls s) (Quiet s) (after_poll sys deadline (poll_until sys fuel deadline))
        (poll sys "check PTY child status after terminate" s)
        (poll-Polls "check PTY child status after terminate" s)
        (after_poll-Quiet deadline (poll_until sys fuel deadline) (poll_until-Quiet fuel deadline)
          s)

  pub wait_for_child_exit-Quiet :
      (fuel timeout : ℕ) (s : State World)
      → Holds (Quiet s) (wait_for_child_exit_blocking sys fuel timeout s)
  unfolding wait_for_child_exit_blocking now
  wait_for_child_exit-Quiet fuel timeout s =
      let (t, w) = sys.now s.world in poll_until-Quiet fuel (t + timeout) (record s { world = w })
