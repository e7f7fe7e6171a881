-- ===== src/Pty/Locking/Exclusion.antt =====
-- What the mutex excludes, and what it holds up.
use terminald.Base.{Bool, true, false, ◌≡◌, ◌≢◌, refl, ◌⊎◌, inl, inr}
use terminald.Pty.Locking.{
  waiter, terminator, waiting, wait_failed, EndPhase, not_ending, wants_to_end, ending, ended,
  skipped, Shared, Step, wait_called, wait_locks, wait_returns, wait_fails, wait_poisoned,
  terminate_called, terminate_skipped, terminate_locks, terminate_poisoned, terminate_signals,
  terminate_returns, child_exits, Reach, here, and_then, spawned,
}

-- Who is inside holds the mutex.
pub record IsExclusive (s : Shared) : Type 0 where
  pub waits : s.wait_phase ≡ waiting → s.holder ≡ waiter
  pub ends : s.end_phase ≡ ending → s.holder ≡ terminator

Step-IsExclusive : {s t : Shared} → Step s t → IsExclusive s → IsExclusive t
Step-IsExclusive (wait_called s p) v = record { waits = λ e. cc; ends = v.ends }
Step-IsExclusive (wait_locks s p free sound) v = record {
  waits = λ e. refl;
  ends = λ e. let h = v.ends e in cc;
}
Step-IsExclusive (wait_returns s p x) v = record {
  waits = λ e. cc;
  ends = λ e. let h = v.ends e in let k = v.waits p in cc;
}
Step-IsExclusive (wait_fails s p) v = record {
  waits = λ e. cc;
  ends = λ e. let h = v.ends e in let k = v.waits p in cc;
}
Step-IsExclusive (wait_poisoned s p free bad) v = record { waits = λ e. cc; ends = v.ends }
Step-IsExclusive (terminate_called s p first) v = record { waits = v.waits; ends = λ e. cc }
Step-IsExclusive (terminate_skipped s p later) v = record { waits = v.waits; ends = λ e. cc }
Step-IsExclusive (terminate_locks s p free sound) v = record {
  waits = λ e. let h = v.waits e in cc;
  ends = λ e. refl;
}
Step-IsExclusive (terminate_poisoned s p free bad) v = record { waits = v.waits; ends = λ e. cc }
Step-IsExclusive (terminate_signals s p) v = record { waits = v.waits; ends = v.ends }
Step-IsExclusive (terminate_returns s p) v = record {
  waits = λ e. let h = v.waits e in let k = v.ends p in cc;
  ends = λ e. cc;
}
Step-IsExclusive (child_exits s) v = record { waits = v.waits; ends = v.ends }

Reach-IsExclusive : {s t : Shared} → Reach s t → IsExclusive s → IsExclusive t
Reach-IsExclusive here v = v
Reach-IsExclusive (and_then r st) v = Step-IsExclusive st (Reach-IsExclusive r v)

spawned-IsExclusive : IsExclusive spawned
spawned-IsExclusive = record { waits = λ e. cc; ends = λ e. cc }

-- `terminate` is before the mutex, or has returned at a flag that was set.
abbrev pub Outside : EndPhase → Type 0
Outside e = (e ≡ not_ending) ⊎ (e ≡ wants_to_end) ⊎ (e ≡ skipped)

-- `wait` waits for a child that runs, and `terminate` has not got hold of the mutex.
pub record IsHeldUp (s : Shared) : Type 0 where
  pub runs : s.exited ≡ false
  pub waits : s.wait_phase ≡ waiting
  pub held : s.holder ≡ waiter
  pub outside : Outside s.end_phase

abbrev HeldUp : Bool → Shared → Type 0
HeldUp before t =
    (t.exited ≡ true) ⊎ (t.wait_phase ≡ wait_failed) ⊎ (IsHeldUp t × (t.signalled ≡ before))

not_inside : {e : EndPhase} → Outside e → e ≢ ending
not_inside (inl a) b = cc
not_inside (inr (inl a)) b = cc
not_inside (inr (inr a)) b = cc

not_returned : {e : EndPhase} → Outside e → e ≢ ended
not_returned (inl a) b = cc
not_returned (inr (inl a)) b = cc
not_returned (inr (inr a)) b = cc

-- A step of a thread, or the exit of the child.
Step-IsHeldUp :
    (before : Bool) {s t : Shared} → Step s t → IsHeldUp s → s.signalled ≡ before → HeldUp before t
Step-IsHeldUp before (wait_called s p) v q = absurd (let w = v.waits in cc)
Step-IsHeldUp before (wait_locks s p free sound) v q = absurd (let w = v.waits in cc)
Step-IsHeldUp before (wait_returns s p x) v q = inl x
Step-IsHeldUp before (wait_fails s p) v q = inr (inl refl)
Step-IsHeldUp before (wait_poisoned s p free bad) v q = inr (inl refl)
Step-IsHeldUp before (terminate_called s p first) v q =
    inr
      (inr (record { runs = v.runs; waits = v.waits; held = v.held; outside = inr (inl refl) }, q))
Step-IsHeldUp before (terminate_skipped s p later) v q =
    inr
      (inr (record { runs = v.runs; waits = v.waits; held = v.held; outside = inr (inr refl) }, q))
Step-IsHeldUp before (terminate_locks s p free sound) v q = absurd (let h = v.held in cc)
Step-IsHeldUp before (terminate_poisoned s p free bad) v q = absurd (let h = v.held in cc)
Step-IsHeldUp before (terminate_signals s p) v q = absurd (not_inside v.outside p)
Step-IsHeldUp before (terminate_returns s p) v q = absurd (not_inside v.outside p)
Step-IsHeldUp before (child_exits s) v q = inl refl

-- A child that has exited stays so.
Step-exited : {s t : Shared} → Step s t → s.exited ≡ true → t.exited ≡ true
Step-exited (wait_called s p) x = x
Step-exited (wait_locks s p free sound) x = x
Step-exited (wait_returns s p y) x = x
Step-exited (wait_fails s p) x = x
Step-exited (wait_poisoned s p free bad) x = x
Step-exited (terminate_called s p first) x = x
Step-exited (terminate_skipped s p later) x = x
Step-exited (terminate_locks s p free sound) x = x
Step-exited (terminate_poisoned s p free bad) x = x
Step-exited (terminate_signals s p) x = x
Step-exited (terminate_returns s p) x = x
Step-exited (child_exits s) x = refl

-- A `wait` that failed does not wait again.
Step-failed : {s t : Shared} → Step s t → s.wait_phase ≡ wait_failed → t.wait_phase ≡ wait_failed
Step-failed (wait_called s p) x = cc
Step-failed (wait_locks s p free sound) x = cc
Step-failed (wait_returns s p y) x = cc
Step-failed (wait_fails s p) x = refl
Step-failed (wait_poisoned s p free bad) x = refl
Step-failed (terminate_called s p first) x = x
Step-failed (terminate_skipped s p later) x = x
Step-failed (terminate_locks s p free sound) x = x
Step-failed (terminate_poisoned s p free bad) x = x
Step-failed (terminate_signals s p) x = x
Step-failed (terminate_returns s p) x = x
Step-failed (child_exits s) x = x

Reach-HeldUp : {s t : Shared} → Reach s t → IsHeldUp s → HeldUp s.signalled t
Reach-HeldUp here v = inr (inr (v, refl))
Reach-HeldUp {s = s} (and_then r st) v = elim (Reach-HeldUp r v) [
  | inl x ↦ inl (Step-exited st x)
  | inr (inl x) ↦ inr (inl (Step-failed st x))
  | inr (inr (w, q)) ↦ Step-IsHeldUp s.signalled st w q
]

-- The mutex keeps `terminate` from its work: from a state in which `wait` holds it for a child that
-- runs and `terminate` is not inside, in whatever order the threads go on, as long as the child has not
-- exited and `wait` has not failed, `wait` waits, no signal is sent, and `terminate` has not returned
-- but at a flag that was set.
pub terminate_held_up :
    (s t : Shared)
    → IsHeldUp s
    → Reach s t
    → t.exited ≡ false
    → t.wait_phase ≢ wait_failed
    → (t.wait_phase ≡ waiting) × (t.signalled ≡ s.signalled) × (t.end_phase ≢ ended)
terminate_held_up s t v r runs sound = elim (Reach-HeldUp r v) [
  | inl x ↦ absurd (cc)
  | inr (inl x) ↦ absurd (sound x)
  | inr (inr (w, q)) ↦ (w.waits, q, not_returned w.outside)
]

-- From the start of a process on, `wait` and `terminate` are never both inside of the mutex.
pub Reach-excludes : (t : Shared) → Reach spawned t → t.wait_phase ≡ waiting → t.end_phase ≢ ending
Reach-excludes t r w e =
    let v = Reach-IsExclusive r spawned-IsExclusive in let h = v.waits w in let k = v.ends e in cc
