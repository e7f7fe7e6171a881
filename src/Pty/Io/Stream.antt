-- ===== src/Pty/Io/Stream.antt =====
-- Successive calls of `read` on a terminal: where each leaves the answers of the system, and that the bytes
-- they return are all that `read(2)` gave.
use terminald.Base.{
  ℕ, zero, suc, List, [], ◌∷◌, ◌++◌, append_assoc, Option, none, some, Bool, false, ◌≡◌, refl, ap,
  ◌∙◌, Bytes, context, Result, ok, err, Bool-cases, inl, inr, if◌then◌else◌,
}
use terminald.Pty.{kind, is_would_block, is_pty_eof}
use terminald.Pty.Io.{ReadAnswer, got, read_failed, Turn, read_pty, read_case, read_turn, read}

-- The round of a turn ends with another round.
abbrev goes_on : Option ReadAnswer → Bool
goes_on none = false
goes_on (some (got b)) = false
goes_on (some (read_failed e)) = is_would_block (kind e)

abbrev round_again : Result (Unit {0}) → Option ReadAnswer → Bool
round_again (err e) answer = false
round_again (ok u) answer = goes_on answer

-- The turns that are left when a call of `read` returns.
abbrev pub left_by_read : List (Turn ReadAnswer) → List (Turn ReadAnswer)
left_by_read [] = []
left_by_read (t ∷ ts) =
    let rest = left_by_read ts in if round_again t.ready (read_pty t.answers) then rest else ts

-- The bytes that a result of `read` holds.
abbrev pub bytes_of : Option (Result Bytes) → Bytes
bytes_of none = []
bytes_of (some (ok b)) = b
bytes_of (some (err e)) = []

abbrev pub bytes_given : Option ReadAnswer → Bytes
bytes_given none = []
bytes_given (some (got b)) = b
bytes_given (some (read_failed e)) = []

-- All that `read(2)` puts into buffers: a round whose wait for readiness fails does not call it.
abbrev given_in : Result (Unit {0}) → Option ReadAnswer → Bytes
given_in (err e) answer = []
given_in (ok u) answer = bytes_given answer

abbrev pub given : List (Turn ReadAnswer) → Bytes
given [] = []
given (t ∷ ts) = given_in t.ready (read_pty t.answers) ++ given ts

-- The bytes of `n` calls of `read`, one after the other, and the turns behind them.
abbrev pub reads : ℕ → List (Turn ReadAnswer) → Bytes
reads zero ts = []
reads (suc n) ts = bytes_of (read ts) ++ reads n (left_by_read ts)

abbrev pub left_by_reads : ℕ → List (Turn ReadAnswer) → List (Turn ReadAnswer)
left_by_reads zero ts = ts
left_by_reads (suc n) ts = left_by_reads n (left_by_read ts)

-- One call, by the first turn: `again` are the bytes of the next round, `rest` the turns behind it.
first_round :
    (ready : Result (Unit {0})) (answer : Option ReadAnswer) (ts : List (Turn ReadAnswer))
    → bytes_of (read ts) ++ given (left_by_read ts) ≡ given ts
    → bytes_of (elim ready [
      | err e ↦ some (err (context "wait for PTY readable" e))
      | ok u ↦ read_case answer (read ts)
    ])
        ++ given (if round_again ready answer then left_by_read ts else ts)
      ≡ given_in ready answer ++ given ts
unfolding read_case
first_round (err e) answer ts h = refl
first_round (ok u) none ts h = refl
first_round (ok u) (some (got b)) ts h = refl
first_round (ok u) (some (read_failed e)) ts h = elim (Bool-cases (is_would_block (kind e))) [
  | inl block ↦ rw block h
  | inr no_block ↦ elim (Bool-cases (is_pty_eof e)) [
    | inl eof ↦ rw (no_block, eof) refl
    | inr no_eof ↦ rw (no_block, no_eof) refl
  ]
]

one_read : (ts : List (Turn ReadAnswer)) → bytes_of (read ts) ++ given (left_by_read ts) ≡ given ts
unfolding read read_turn
one_read [] = refl
one_read (t ∷ ts) = first_round t.ready (read_pty t.answers) ts (one_read ts)

-- Calls of `read` lose nothing and add nothing: however often each waits again, is interrupted or fails,
-- the bytes of any number of calls and what the system gives behind them are all that it gives.
pub reads_lose_nothing :
    (n : ℕ) (ts : List (Turn ReadAnswer)) → reads n ts ++ given (left_by_reads n ts) ≡ given ts
reads_lose_nothing zero ts = refl
reads_lose_nothing (suc n) ts =
    append_assoc (bytes_of (read ts)) (reads n (left_by_read ts)) _
    ∙ ap (λ l. bytes_of (read ts) ++ l) (reads_lose_nothing n (left_by_read ts))
    ∙ one_read ts
