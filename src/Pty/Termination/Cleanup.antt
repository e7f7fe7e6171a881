-- ===== src/Pty/Termination/Cleanup.antt =====
-- `terminate` and `drop` share one cleanup: the flag lets one of them through.
use terminald.Base.{
  ℕ, ◌<◌, List, [], ◌∷◌, ◌++◌, Option, none, some, Bool, true, false, not, ◌≡◌, refl, ap, ◌∙◌, ◌⊎◌,
  inl, inr, arith, Result, ok, if◌then◌else◌,
}
use terminald.Pty.Termination.{
  Os, State, Process, terminate, drop_process, best_effort, forget, locked_terminate, with_child,
  terminate_child_process_group_blocking,
}
use terminald.Pty.Termination.Signals.{signals, Holds}
use terminald.Pty.Termination.Clock.{IsClock, IsKilling, Total, Anything, terminate_child_ends}
use terminald.Pty.Termination.Ending.{Ends, IsEscalation, terminate_child-Ends}

-- A call on a process: `drops` with whether the cleanup thread can be started.
pub data Op : Type 0 where
  terminates : Op
  drops : Bool → Op

-- The calls in the order in which their `swap` of the flag happens; a cleanup runs to its end under
-- the child's mutex. `none` is fuel that has run out, or a `wait` that never returns.
unfoldable pub run :
    {World : Type 0} → Os World → ℕ → List Op → Process World → Option (Process World)
run sys fuel [] p = some p
run sys fuel (terminates ∷ ops) p = elim (terminate sys fuel p) [
  | none ↦ none
  | some (r, q) ↦ run sys fuel ops q
]
run sys fuel (drops spawned ∷ ops) p = elim (drop_process sys fuel spawned p) [
  | none ↦ none
  | some q ↦ run sys fuel ops q
]

module _ {World : Type 0} (sys : Os World) (time : World → ℕ) (clock : IsClock sys time)
    (killing : IsKilling sys) (fuel : ℕ) (enough : 20 < fuel) where
  -- The signals so far are an escalation, and there are none before the cleanup has started.
  abbrev pub IsClean : Process World → Type 0
  IsClean p =
      ((p.cleanup_started ≡ false) × (signals p.child.log ≡ []))
      ⊎ ((p.cleanup_started ≡ true) × IsEscalation sys.id (signals p.child.log))

  abbrev CleanResult : Option (Result (Unit {0}) × Process World) → Type 0
  CleanResult none = ⊥
  CleanResult (some (r, q)) = IsClean q

  with_child-Clean :
      (p : Process World) (o : Option (Result (Unit {0}) × State World))
      → p.cleanup_started ≡ true
      → signals p.child.log ≡ []
      → Total Anything o
      → Holds (Ends sys p.child) o
      → CleanResult (with_child p o)
  unfolding with_child
  with_child-Clean p none started quiet t h = t
  with_child-Clean p (some (r, u)) started quiet t (sent, same, escalation, _) =
      let all : signals u.log ≡ sent = same ∙ ap (λ l. l ++ sent) quiet in
      inr (started, rw all escalation)

  if-Clean :
      (b : Bool) (x y : Option (Result (Unit {0}) × Process World))
      → (b ≡ true → CleanResult x)
      → (b ≡ false → CleanResult y)
      → CleanResult (if b then x else y)
  if-Clean true x y hx hy = hx refl
  if-Clean false x y hx hy = hy refl

  locked_terminate-Clean :
      (p : Process World)
      → p.cleanup_started ≡ true
      → signals p.child.log ≡ []
      → CleanResult (locked_terminate sys fuel p)
  unfolding locked_terminate
  locked_terminate-Clean p started quiet =
      if-Clean p.poisoned _ (with_child p (terminate_child_process_group_blocking sys fuel p.child))
        (λ _. inr (started, inl quiet))
        (λ _.
          with_child-Clean p (terminate_child_process_group_blocking sys fuel p.child) started quiet
            (terminate_child_ends sys time clock killing fuel p.child enough)
            (terminate_child-Ends sys fuel p.child))

  not_started :
      (p : Process World) → IsClean p → not p.cleanup_started ≡ true → signals p.child.log ≡ []
  not_started p (inl (off, quiet)) h = quiet
  not_started p (inr (on, _)) h = absurd (ground arith)

  terminate-Clean : (p : Process World) → IsClean p → CleanResult (terminate sys fuel p)
  unfolding terminate
  terminate-Clean p clean =
      let q : Process World = record p { cleanup_started = true } in
      if-Clean (not p.cleanup_started) (locked_terminate sys fuel q) (some (ok tt, p))
        (λ first. locked_terminate-Clean q refl (not_started p clean first)) (λ _. clean)

  best_effort-Clean :
      (spawned : Bool) (p : Process World)
      → IsClean p
      → CleanResult (best_effort sys fuel spawned p)
  unfolding best_effort
  best_effort-Clean spawned p clean =
      let q : Process World = record p { cleanup_started = true } in
      if-Clean (not p.cleanup_started)
        (if spawned then locked_terminate sys fuel q else some (ok tt, q)) (some (ok tt, p))
        (λ first.
          if-Clean spawned (locked_terminate sys fuel q) (some (ok tt, q))
            (λ _. locked_terminate-Clean q refl (not_started p clean first))
            (λ _. inr (refl, inl (not_started p clean first))))
        (λ _. clean)

  abbrev CleanRun : Option (Process World) → Type 0
  CleanRun none = ⊥
  CleanRun (some q) = IsClean q

  forget-Clean :
      (o : Option (Result (Unit {0}) × Process World)) → CleanResult o → CleanRun (forget o)
  unfolding forget
  forget-Clean none h = h
  forget-Clean (some (r, q)) h = h

  drop-Clean :
      (spawned : Bool) (p : Process World) → IsClean p → CleanRun (drop_process sys fuel spawned p)
  unfolding drop_process
  drop-Clean spawned p clean =
      forget-Clean (best_effort sys fuel spawned p) (best_effort-Clean spawned p clean)

  after_drop-Clean :
      (ops : List Op) (o : Option (Process World))
      → CleanRun o
      → ((q : Process World) → IsClean q → CleanRun (run sys fuel ops q))
      → CleanRun (elim o [ none ↦ none | some q ↦ run sys fuel ops q ])
  after_drop-Clean ops none h rest = h
  after_drop-Clean ops (some q) h rest = rest q h

  next-Clean :
      (ops : List Op) (o : Option (Result (Unit {0}) × Process World))
      → CleanResult o
      → ((q : Process World) → IsClean q → CleanRun (run sys fuel ops q))
      → CleanRun (elim o [ none ↦ none | some (r, q) ↦ run sys fuel ops q ])
  next-Clean ops none h rest = h
  next-Clean ops (some (r, q)) h rest = rest q h

  run-Clean : (ops : List Op) (p : Process World) → IsClean p → CleanRun (run sys fuel ops p)
  unfolding run
  run-Clean [] p clean = clean
  run-Clean (terminates ∷ ops) p clean =
      next-Clean ops (terminate sys fuel p) (terminate-Clean p clean) (run-Clean ops)
  run-Clean (drops spawned ∷ ops) p clean =
      after_drop-Clean ops (drop_process sys fuel spawned p) (drop-Clean spawned p clean)
        (run-Clean ops)

  Clean-IsEscalation : (q : Process World) → IsClean q → IsEscalation sys.id (signals q.child.log)
  Clean-IsEscalation q (inl (_, quiet)) = inl quiet
  Clean-IsEscalation q (inr (_, escalation)) = escalation

  Clean-returns :
      (o : Option (Process World)) → CleanRun o → (q : Process World) × (o ≡ some q) × IsClean q
  Clean-returns none h = absurd h
  Clean-returns (some q) h = (q, refl, h)

  -- At a clock and a system as in `terminate_child_total`, with fuel for more than 20 rounds, every
  -- sequence of calls of `terminate` and drops of a process that has no signal yet and whose cleanup has
  -- not started returns, and the child's process group is sent nothing, SIGTERM, or SIGTERM and then
  -- SIGKILL: no signal comes twice, and no other group is sent any.
  pub run_escalates_once :
      (ops : List Op) (p : Process World)
      → p.cleanup_started ≡ false
      → signals p.child.log ≡ []
      → (q : Process World) × (run sys fuel ops p ≡ some q)
        × IsEscalation sys.id (signals q.child.log)
  run_escalates_once ops p fresh quiet =
      let (q, returned, clean) =
        Clean-returns (run sys fuel ops p) (run-Clean ops p (inl (fresh, quiet))) in
      (q, returned, Clean-IsEscalation q clean)
