-- ===== src/Cli/Typed/Tests.antt =====
-- A client that resizes and types `ls`, at a terminal that takes a byte at a time.
use terminald.Base.{List, [], ◌∷◌, ◌≡◌, refl, arith, map, codes, ok}
use terminald.Pty.{eintr}
use terminald.Pty.Io.{WriteAnswer, wrote, write_failed, write_pty}
use terminald.Protocol.{ClientMessage, resize, input}
use terminald.Protocol.Tests.{two_numbers, two_numbers-IsSerdeJson}
use terminald.Session.Kernel.{kernel}
use terminald.Cli.Client.{writer_task}
use terminald.Cli.Client.Input.{sends}
use terminald.Cli.Client.Tasks.Delivery.{all_typed}
use terminald.Cli.Typed.Written.{message_in, arriving, IsTaken, typed_is_written}

abbrev byte_at_a_time : List (terminald.Pty.Io.Turn WriteAnswer)
byte_at_a_time =
    record { ready = ok tt; answers = write_failed eintr ∷ wrote 1 ∷ [] }
    ∷ record { ready = ok tt; answers = wrote 1 ∷ [] }
    ∷ []

abbrev typing : List (ClientMessage × List (terminald.Pty.Io.Turn WriteAnswer))
typing = (resize (record { cols = 100; rows = 40 }), []) ∷ (input (codes "ls"), byte_at_a_time) ∷ []

byte_at_a_time-IsTaken : IsTaken (input (codes "ls"), byte_at_a_time)
unfolding write_pty
byte_at_a_time-IsTaken = (((refl, (0, refl)), ((refl, (0, refl)), tt)), omega arith)

typed_is_written_example :
    kernel two_numbers
      (λ e. [])
      (arriving (writer_task two_numbers (map sends (map message_in typing))).frames typing)
    ≡ all_typed (map message_in typing)
typed_is_written_example =
    typed_is_written two_numbers two_numbers-IsSerdeJson (λ e. []) typing
      ((omega arith, omega arith), ((omega arith, (omega arith, tt)), tt)) (tt, ((λ e. cc), tt))
      (tt, (byte_at_a_time-IsTaken, tt))
