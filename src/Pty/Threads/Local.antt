-- ===== src/Pty/Threads/Local.antt =====
-- What a thread knows of the shared state at its place, and that the moves of the others leave it true.
use terminald.Base.{ℕ, List, [], ◌∷◌, ◌++◌, none, some, Bool, true, false, ◌≡◌, ◌≢◌, ◌⊎◌}
use terminald.Pty.Termination.{sigterm, sigkill}
use terminald.Pty.Threads.{
  Stage, checking, terminating, polling, killing, reaping, Thread, idle, wants_to_wait, waiting,
  wants_to_end, returned, ending, Sent, Shared,
}

-- SIGTERM, to a child that had not been reaped.
abbrev pub terminated : List Sent
terminated = record { signal = sigterm; late = false } ∷ []

-- Nothing, or SIGTERM to a child that had not been reaped, and then nothing or SIGKILL.
abbrev pub IsEscalation : List Sent → Type 0
IsEscalation sent =
    (sent ≡ [])
    ⊎ (sent ≡ terminated)
    ⊎ ((late : Bool) × (sent ≡ terminated ++ record { signal = sigkill; late = late } ∷ []))

-- The thread is behind `lock`.
abbrev pub IsInside : Thread → Type 0
IsInside waiting = Unit {0}
IsInside (ending stage) = Unit {0}
IsInside _ = ⊥

-- The thread got the flag and has not returned.
abbrev pub IsCleaning : Thread → Type 0
IsCleaning wants_to_end = Unit {0}
IsCleaning (ending stage) = Unit {0}
IsCleaning _ = ⊥

-- The signals before each stage of the cleanup.
abbrev pub Before : Stage → Shared → Type 0
Before checking l = l.sent ≡ []
Before terminating l = (l.sent ≡ []) × (l.reaped ≡ false)
Before polling l = l.sent ≡ terminated
Before (killing exited) l = l.sent ≡ terminated
Before reaping l =
    (late : Bool) × (l.sent ≡ terminated ++ record { signal = sigkill; late = late } ∷ [])

abbrev pub Knows : ℕ → Thread → Shared → Type 0
Knows i idle l = Unit {0}
Knows i wants_to_wait l = Unit {0}
Knows i returned l = Unit {0}
Knows i waiting l = l.holder ≡ some i
Knows i wants_to_end l = (l.cleanup_started ≡ true) × (l.sent ≡ [])
Knows i (ending stage) l = (l.holder ≡ some i) × (l.cleanup_started ≡ true) × Before stage l

pub inside-holder : (i : ℕ) (p : Thread) (l : Shared) → IsInside p → Knows i p l → l.holder ≡ some i
inside-holder i waiting l h k = k
inside-holder i (ending stage) l h k = k.0
inside-holder i idle l h k = absurd h
inside-holder i wants_to_wait l h k = absurd h
inside-holder i wants_to_end l h k = absurd h
inside-holder i returned l h k = absurd h

pub cleaning_started :
    (i : ℕ) (p : Thread) (l : Shared) → IsCleaning p → Knows i p l → l.cleanup_started ≡ true
cleaning_started i waiting l h k = absurd h
cleaning_started i (ending stage) l h k = k.1
cleaning_started i idle l h k = absurd h
cleaning_started i wants_to_wait l h k = absurd h
cleaning_started i wants_to_end l h k = k.0
cleaning_started i returned l h k = absurd h

-- A thread outside of the mutex knows the flag and the signals only.
pub outside-Knows :
    (i : ℕ) (p : Thread) (l m : Shared)
    → ¬ IsInside p
    → m.cleanup_started ≡ l.cleanup_started
    → m.sent ≡ l.sent
    → Knows i p l
    → Knows i p m
outside-Knows i waiting l m out e f k = absurd (out tt)
outside-Knows i (ending stage) l m out e f k = absurd (out tt)
outside-Knows i idle l m out e f k = tt
outside-Knows i wants_to_wait l m out e f k = tt
outside-Knows i wants_to_end l m out e f k = (rw e k.0, rw f k.1)
outside-Knows i returned l m out e f k = tt

-- A thread that is not cleaning up knows at most that it holds the mutex.
pub idler-Knows :
    (i : ℕ) (p : Thread) (l m : Shared)
    → ¬ IsCleaning p
    → (IsInside p → m.holder ≡ l.holder)
    → Knows i p l
    → Knows i p m
idler-Knows i waiting l m off e k = rw (e tt) k
idler-Knows i (ending stage) l m off e k = absurd (off tt)
idler-Knows i idle l m off e k = tt
idler-Knows i wants_to_wait l m off e k = tt
idler-Knows i wants_to_end l m off e k = absurd (off tt)
idler-Knows i returned l m off e k = tt

-- Where another thread holds the mutex, or none does, a thread is outside.
pub other_outside :
    (i j : ℕ) (r : Thread) (l : Shared) → j ≢ i → l.holder ≡ some i → Knows j r l → ¬ IsInside r
other_outside i j r l other held k inside = let mine = inside-holder j r l inside k in other (cc)

pub free_outside : (j : ℕ) (r : Thread) (l : Shared) → l.holder ≡ none → Knows j r l → ¬ IsInside r
free_outside j r l free k inside = let mine = inside-holder j r l inside k in cc

-- Before the flag is set, nobody cleans up.
pub fresh_idle :
    (j : ℕ) (r : Thread) (l : Shared) → l.cleanup_started ≡ false → Knows j r l → ¬ IsCleaning r
fresh_idle j r l fresh k cleaning = let started = cleaning_started j r l cleaning k in cc
