-- ===== src/Pty/Threads/Safety.antt =====
-- What holds in every state of the threads.
use terminald.Base.{ℕ, ◌==◌, ==_iff, ◌≡◌, ◌≢◌, inl, inr, refl, sym, subst, ◌∙◌, arith, Bool-cases}
use terminald.Pty.Threads.{
  Thread, Shared, Move, update, Clones, Step, moves, spawned, Reach, start, later,
}
use terminald.Pty.Threads.Local.{
  IsEscalation, IsInside, IsCleaning, Knows, inside-holder, fresh_idle,
}
use terminald.Pty.Threads.Moves.{IsQuiet, Move-Knows, Move-others, Move-sent, Move-IsCleaning}

update-all {ℓ} :
    {A : Type ℓ} (P : ℕ → A → Type 0) (f : ℕ → A) (i : ℕ) (a : A)
    → P i a
    → ((j : ℕ) → j ≢ i → P j (f j))
    → (j : ℕ) → P j (update f i a j)
update-all P f i a mine others j = elim (Bool-cases (i == j)) [
  | inl same ↦ rw same (subst (λ k. P k a) ((==_iff i j).0 same) mine)
  | inr other ↦ rw other (others j (λ e. ground arith))
]

pub record IsSafe (s : Clones) : Type 0 where
  pub knows : (i : ℕ) → Knows i (s.threads i) s.shared
  pub single : (i j : ℕ) → IsCleaning (s.threads i) → IsCleaning (s.threads j) → i ≡ j
  pub quiet : IsQuiet s.shared
  pub escalated : IsEscalation s.shared.sent

spawned-IsSafe : IsSafe spawned
spawned-IsSafe = record {
  knows = λ i. tt;
  single = λ i j h k. absurd h;
  quiet = λ e. refl;
  escalated = inl refl;
}

module _ (s : Clones) (v : IsSafe s) (i : ℕ) (q : Thread) (m : Shared)
    (move : Move i (s.threads i) s.shared q m) where
  moves-Knows : (j : ℕ) → Knows j (update s.threads i q j) m
  moves-Knows =
      update-all (λ j r. Knows j r m) s.threads i q (Move-Knows move v.quiet (v.knows i))
        (λ j other.
          Move-others j (s.threads j) move (v.knows i) other (λ h k. other (sym (v.single i j h k)))
            (v.knows j))

  -- If the thread that moves cleans up now, no other does.
  moves-alone : (j : ℕ) → j ≢ i → IsCleaning q → ¬ IsCleaning (s.threads j)
  moves-alone j other h k = elim ((Move-IsCleaning move).0 h) [
    | inl before ↦ other (sym (v.single i j before k))
    | inr fresh ↦ fresh_idle j (s.threads j) s.shared fresh (v.knows j) k
  ]

  moves-single :
      (a b : ℕ) → IsCleaning (update s.threads i q a) → IsCleaning (update s.threads i q b) → a ≡ b
  moves-single a b =
      update-all (λ a x. IsCleaning x → IsCleaning (update s.threads i q b) → a ≡ b) s.threads i q
        (λ h k.
          update-all (λ b y. IsCleaning y → i ≡ b) s.threads i q (λ k. refl)
            (λ b other k. absurd (moves-alone b other h k)) b k)
        (λ a other h k.
          update-all (λ b y. IsCleaning y → a ≡ b) s.threads i q
            (λ k. absurd (moves-alone a other k h)) (λ b apart k. v.single a b h k) b k)
        a

  moves-IsSafe : IsSafe (record { threads = update s.threads i q; shared = m })
  moves-IsSafe = elim (Move-sent move (v.knows i)) [
    | inl same ↦ record {
      knows = moves-Knows;
      single = moves-single;
      quiet = λ e. same ∙ v.quiet ((Move-IsCleaning move).1 e);
      escalated = rw same v.escalated;
    }
    | inr (_, started, escalation) ↦ record {
      knows = moves-Knows;
      single = moves-single;
      quiet = λ e. cc;
      escalated = escalation;
    }
  ]

Step-IsSafe : {s t : Clones} → Step s t → IsSafe s → IsSafe t
Step-IsSafe {s = s} (moves i q l move) v = moves-IsSafe s v i q l move

pub Reach-IsSafe : {s : Clones} → Reach s → IsSafe s
Reach-IsSafe start = spawned-IsSafe
Reach-IsSafe (later reached step) = Step-IsSafe step (Reach-IsSafe reached)

-- However many calls of `wait`, `child_id`, `terminate` and drops run at once, in whatever order they are
-- interleaved and whatever fails: no two are inside of the mutex, no two clean up, and the process group
-- is sent nothing, SIGTERM, or SIGTERM and then SIGKILL, the SIGTERM while the child is not yet reaped.
pub threads_escalate_once :
    {s : Clones} (i j : ℕ)
    → Reach s
    → (IsInside (s.threads i) → IsInside (s.threads j) → i ≡ j)
      × (IsCleaning (s.threads i) → IsCleaning (s.threads j) → i ≡ j)
      × IsEscalation s.shared.sent
threads_escalate_once {s = s} i j reached =
    let v = Reach-IsSafe reached in
    (
      (λ h k.
          let mine = inside-holder i (s.threads i) s.shared h (v.knows i) in
          let other = inside-holder j (s.threads j) s.shared k (v.knows j) in cc),
      v.single i j,
      v.escalated,
    )
