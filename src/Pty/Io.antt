-- ===== src/Pty/Io.antt =====
-- `PtyHandle::read`, `write_all` and `resize`. Each round of a loop is a turn of the system: how the
-- wait for readiness ended, and the answers of `read(2)` or `write(2)` in that round, which the inner
-- loop repeats on EINTR. `none` is a call that still waits when the turns run out.
pub mod Reading
pub mod Stream
pub mod Writing
pub mod Tests
use terminald.Base.{
  ℕ, zero, suc, ◌+◌, List, [], ◌∷◌, ◌++◌, Option, none, some, Bool, true, false, Bytes, length,
  take, drop, Error, message, os, context, Result, ok, err, ltb, ◌==◌, if◌then◌else◌,
}
use terminald.Pty.{PtySize, Winsize, winsize_of, kind, is_interrupted, is_would_block, is_pty_eof}

-- `got` is a count of zero or more bytes, which are now in the buffer.
pub data ReadAnswer : Type 0 where
  got : Bytes → ReadAnswer
  read_failed : ℕ → ReadAnswer

pub data WriteAnswer : Type 0 where
  wrote : ℕ → WriteAnswer
  write_failed : ℕ → WriteAnswer

pub record Turn (A : Type 0) : Type 0 where
  pub ready : Result (Unit {0})
  pub answers : List A

-- `read_pty`
unfoldable pub read_pty : List ReadAnswer → Option ReadAnswer
read_pty [] = none
read_pty (got b ∷ more) = some (got b)
read_pty (read_failed e ∷ more) =
    if is_interrupted (kind e) then read_pty more else some (read_failed e)

-- `write_pty`
unfoldable pub write_pty : List WriteAnswer → Option WriteAnswer
write_pty [] = none
write_pty (wrote n ∷ more) = some (wrote n)
write_pty (write_failed e ∷ more) =
    if is_interrupted (kind e) then write_pty more else some (write_failed e)

-- The `match` of `read`; `again` is the next round.
read_case : Option ReadAnswer → Option (Result Bytes) → Option (Result Bytes)
read_case none again = none
read_case (some (got b)) again = some (ok b)
read_case (some (read_failed e)) again =
    if is_would_block (kind e)
    then again
    else if is_pty_eof e
    then some (ok [])
    else some (err (context "read PTY master" (os e)))

read_turn : Turn ReadAnswer → Option (Result Bytes) → Option (Result Bytes)
unfolding read_case read_pty
read_turn t again = elim t.ready [
  | err e ↦ some (err (context "wait for PTY readable" e))
  | ok u ↦ read_case (read_pty t.answers) again
]

-- `PtyHandle::read`: the bytes are `buf[..n]`.
unfoldable pub read : List (Turn ReadAnswer) → Option (Result Bytes)
unfolding read_turn
read [] = none
read (t ∷ ts) = read_turn t (read ts)

-- How a call of `write_all` ended, and the bytes that `write(2)` took.
pub record Written : Type 0 where
  pub result : Option (Result (Unit {0}))
  pub taken : Bytes

abbrev ended : Result (Unit {0}) → Written
ended r = record { result = some r; taken = [] }

abbrev waiting : Written
waiting = record { result = none; taken = [] }

-- The `match` of `write_all`; `next` is the rest of the loop from a number of bytes written.
write_case : Bytes → ℕ → Option WriteAnswer → (ℕ → Written) → Written
write_case data_bytes written none next = waiting
write_case data_bytes written (some (wrote zero)) next =
    ended (err (message "write PTY master returned zero bytes"))
write_case data_bytes written (some (wrote (suc n))) next =
    let rest = next (written + suc n) in
    record rest { taken = take (suc n) (drop written data_bytes) ++ rest.taken }
write_case data_bytes written (some (write_failed e)) next =
    if is_would_block (kind e)
    then next written
    else ended (err (context "write PTY master" (os e)))

write_turn : Bytes → ℕ → Turn WriteAnswer → (ℕ → Written) → Written
unfolding write_case write_pty
write_turn data_bytes written t next = elim t.ready [
  | err e ↦ ended (err (context "wait for PTY writable" e))
  | ok u ↦ write_case data_bytes written (write_pty t.answers) next
]

-- `while written < data.len()`
write_from : Bytes → List (Turn WriteAnswer) → ℕ → Written
unfolding write_turn
write_from data_bytes [] written =
    if ltb written (length data_bytes) then waiting else ended (ok tt)
write_from data_bytes (t ∷ ts) written =
    if ltb written (length data_bytes)
    then write_turn data_bytes written t (write_from data_bytes ts)
    else ended (ok tt)

-- `PtyHandle::write_all`
unfoldable pub write_all : Bytes → List (Turn WriteAnswer) → Written
unfolding write_from
write_all data_bytes turns = write_from data_bytes turns 0

-- `PtyHandle::resize`; `ioctl` is the answer of `ioctl(fd, TIOCSWINSZ, &size)`, `some` for an errno.
unfoldable pub resize : (Winsize → Option ℕ) → ℕ → ℕ → Result (Unit {0})
resize ioctl cols rows = elim (ioctl (winsize_of (record { cols = cols; rows = rows }))) [
  | none ↦ ok tt
  | some e ↦ err (context "resize PTY" (os e))
]
