-- ===== src/Pty/Io/Tests.antt =====
-- Reads and writes of a terminal that interrupts, blocks and closes.
use terminald.Base.{List, [], ◌∷◌, ◌++◌, some, ◌≡◌, refl, codes, message, ok, err}
use terminald.Pty.{eio, eintr, eagain}
use terminald.Pty.Io.Stream.{reads, given, left_by_reads, reads_lose_nothing}
use terminald.Pty.Io.{
  ReadAnswer, got, read_pty, read_failed, WriteAnswer, wrote, write_failed, Turn, read, write_all,
}
use terminald.Pty.Io.Writing.{IsWritten, write_all-IsWritten}
use terminald.Pty.Io.Reading.{IsRead, read_ok}

-- The system takes one byte, interrupts, would block, and takes the rest.
abbrev slow : List (Turn WriteAnswer)
slow =
    record { ready = ok tt; answers = wrote 1 ∷ [] }
    ∷ record { ready = ok tt; answers = write_failed eintr ∷ write_failed eagain ∷ [] }
    ∷ record { ready = ok tt; answers = wrote 2 ∷ [] }
    ∷ []

slow_write : write_all (codes "abc") slow ≡ record { result = some (ok tt); taken = codes "abc" }
unfolding write_all
slow_write = refl

zero_write :
    (write_all (codes "abc") (record { ready = ok tt; answers = wrote 0 ∷ [] } ∷ [])).result
    ≡ some (err (message "write PTY master returned zero bytes"))
unfolding write_all
zero_write = refl

abbrev closed : List (Turn ReadAnswer)
closed =
    record { ready = ok tt; answers = read_failed eagain ∷ [] }
    ∷ record { ready = ok tt; answers = read_failed eintr ∷ read_failed eio ∷ [] }
    ∷ []

closed_is_eof : read closed ≡ some (ok [])
unfolding read
closed_is_eof = refl

abbrev broken : List (Turn ReadAnswer)
broken = record { ready = ok tt; answers = read_failed 9 ∷ [] } ∷ []

write_all-IsWritten_example : IsWritten (codes "abc") (write_all (codes "abc") slow)
write_all-IsWritten_example = write_all-IsWritten (codes "abc") slow

read_ok_example : IsRead closed []
read_ok_example = read_ok closed [] closed_is_eof

-- A prompt in a read that was interrupted, a round that would block, and more output.
abbrev chatty : List (Turn ReadAnswer)
chatty =
    record { ready = ok tt; answers = read_failed eintr ∷ got (codes "$ ") ∷ [] }
    ∷ record { ready = ok tt; answers = read_failed eagain ∷ [] }
    ∷ record { ready = ok tt; answers = got (codes "bye") ∷ [] }
    ∷ []

reads_lose_nothing_example : reads 2 chatty ++ given (left_by_reads 2 chatty) ≡ given chatty
reads_lose_nothing_example = reads_lose_nothing 2 chatty

chatty_reads : reads 2 chatty ≡ codes "$ bye"
unfolding read read_pty
chatty_reads = refl
