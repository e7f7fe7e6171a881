-- ===== src/Pty/Io/Reading.antt =====
-- What `read` returns, and which errors never reach its caller.
use terminald.Base.{
  ℕ, List, [], ◌∷◌, Option, none, some, ◌≡◌, ◌≢◌, refl, sym, ◌⊎◌, inl, inr, arith, Bytes, Error, os,
  context, Result, ok, err, Bool-cases,
}
use terminald.Pty.{kind, is_would_block, is_pty_eof, eio, eintr, eagain}
use terminald.Pty.Io.{ReadAnswer, got, read_failed, Turn, read_pty, read_case, read_turn, read}

-- The errors that end a call of `read` as errors.
abbrev pub IsReadError : Error → Type 0
IsReadError e =
    ((n : ℕ) × (e ≡ context "read PTY master" (os n)) × (n ≢ eintr) × (n ≢ eagain) × (n ≢ eio))
    ⊎ ((cause : Error) × (e ≡ context "wait for PTY readable" cause))

-- Bytes are those of an answer of the system; no bytes are one too, or stand for EIO.
abbrev pub IsRead : List (Turn ReadAnswer) → Bytes → Type 0
IsRead [] b = ⊥
IsRead (t ∷ ts) b =
    (read_pty t.answers ≡ some (got b))
    ⊎ ((read_pty t.answers ≡ some (read_failed eio)) × (b ≡ []))
    ⊎ IsRead ts b

read_pty_failed :
    (answers : List ReadAnswer) (e : ℕ) → read_pty answers ≡ some (read_failed e) → e ≢ eintr
unfolding read_pty
read_pty_failed [] e h = cc
read_pty_failed (got b ∷ more) e h = cc
read_pty_failed (read_failed n ∷ more) e h = ground (arith, read_pty_failed more e)

module _ (e : Error) (again : Option (Result Bytes))
    (later : again ≡ some (err e) → IsReadError e) where
  failed_error :
      (n : ℕ) → n ≢ eintr → read_case (some (read_failed n)) again ≡ some (err e) → IsReadError e
  unfolding read_case
  failed_error n no_intr h = elim (Bool-cases (is_would_block (kind n))) [
    | inl block ↦ later (rw block at h)
    | inr no_block ↦ elim (Bool-cases (is_pty_eof n)) [
      | inl eof ↦ cc (rw (no_block, eof) at h)
      | inr no_eof ↦
          let same : context "read PTY master" (os n) ≡ e = cc (rw (no_block, no_eof) at h) in
          inl (n, sym same, no_intr, ground arith, ground arith)
    ]
  ]

  read_case_error :
      (answers : List ReadAnswer) (o : Option ReadAnswer)
      → read_pty answers ≡ o
      → read_case o again ≡ some (err e)
      → IsReadError e
  read_case_error answers none p h = unfold read_case in cc
  read_case_error answers (some (got b)) p h = unfold read_case in cc
  read_case_error answers (some (read_failed n)) p h =
      failed_error n (read_pty_failed answers n p) h

  read_turn_error :
      (ready : Result (Unit {0})) (answers : List ReadAnswer)
      → read_turn (record { ready = ready; answers = answers }) again ≡ some (err e)
      → IsReadError e
  unfolding read_turn
  read_turn_error (err cause) answers h = inr (cause, cc)
  read_turn_error (ok u) answers h = read_case_error answers (read_pty answers) refl h

-- An error that `read` returns is no interruption, no sign that the call would block, and not the EIO
-- of a terminal that the child has closed.
pub read_error :
    (turns : List (Turn ReadAnswer)) (e : Error) → read turns ≡ some (err e) → IsReadError e
unfolding read
read_error [] e h = cc
read_error (t ∷ ts) e h = read_turn_error e (read ts) (read_error ts e) t.ready t.answers h

failed_ok :
    (n : ℕ) (b : Bytes) (again : Option (Result Bytes))
    → read_case (some (read_failed n)) again ≡ some (ok b)
    → (again ≡ some (ok b)) ⊎ ((n ≡ eio) × (b ≡ []))
unfolding read_case
failed_ok n b again h = elim (Bool-cases (is_would_block (kind n))) [
  | inl block ↦ inl (rw block at h)
  | inr no_block ↦ elim (Bool-cases (is_pty_eof n)) [
    | inl eof ↦ inr (ground arith, cc (rw (no_block, eof) at h))
    | inr no_eof ↦ cc (rw (no_block, no_eof) at h)
  ]
]

read_turn_ok :
    (ready : Result (Unit {0})) (answers : List ReadAnswer) (b : Bytes)
    (again : Option (Result Bytes))
    → read_turn (record { ready = ready; answers = answers }) again ≡ some (ok b)
    → (read_pty answers ≡ some (got b))
      ⊎ ((read_pty answers ≡ some (read_failed eio)) × (b ≡ []))
      ⊎ (again ≡ some (ok b))
unfolding read_turn
read_turn_ok (err cause) answers b again h = cc
read_turn_ok (ok u) answers b again h = case_ok (read_pty answers) refl h
  where
    case_ok :
        (o : Option ReadAnswer)
        → read_pty answers ≡ o
        → read_case o again ≡ some (ok b)
        → (read_pty answers ≡ some (got b))
          ⊎ ((read_pty answers ≡ some (read_failed eio)) × (b ≡ []))
          ⊎ (again ≡ some (ok b))
    case_ok none p h = cc
    case_ok (some (got c)) p h = inl (cc)
    case_ok (some (read_failed n)) p h = elim (failed_ok n b again h) [
      | inl more ↦ inr (inr more)
      | inr (eof, none_read) ↦ inr (inl (cc, none_read))
    ]

-- The bytes that `read` returns are those of an answer of the system. No bytes are the end of the
-- stream: an answer of zero bytes, or EIO.
pub read_ok :
    (turns : List (Turn ReadAnswer)) (b : Bytes) → read turns ≡ some (ok b) → IsRead turns b
unfolding read
read_ok [] b h = cc
read_ok (t ∷ ts) b h = elim (read_turn_ok t.ready t.answers b (read ts) h) [
  | inl now ↦ inl now
  | inr (inl eof) ↦ inr (inl eof)
  | inr (inr more) ↦ inr (inr (read_ok ts b more))
]
