-- ===== src/Session/Tests.antt =====
-- A session in which a client types, sends a bad frame and sees the shell exit.
use terminald.Base.Int.{pos}
use terminald.Base.{
  List, [], ◌∷◌, ◌++◌, none, some, ◌≡◌, refl, map, codes, Bytes, Error, os, ok, err,
}
use terminald.Protocol.{
  ClientMessage, resize, input, output, error, exited, decode_client, encode_server,
}
use terminald.Protocol.Tests.{two_numbers}
use terminald.Session.{
  text, binary, received, next, Turn, send, write_all, reader_task, drive_socket, run_socket,
  handle_socket, exit_code, turn, forward, on_message, after_decode, read_loop, after_loop,
  exit_message, after_drive,
}
use terminald.Pty.Io.{wrote, write_failed}
use terminald.Session.Kernel.{Served, kernel}
use terminald.Session.Reader.{reader_task_feed}
use terminald.Session.Ending.{exit_turn}
use terminald.Session.Success.{HasEnding, handle_socket_quiet}
use terminald.Session.Screen.{IsPrefix, received_of}

abbrev plain : Error → Bytes
plain e = codes "error"

-- Two reads and then EIO, of a shell that ends with status 3.
reader_task_feed_example :
    reader_task plain
      (map ok (codes "$ " ∷ codes "bye" ∷ []) ++ err (os 9) ∷ [])
      (ok (some (pos 3)))
      32
    ≡ output (codes "$ ") ∷ output (codes "bye") ∷ error (codes "error") ∷ exited (pos 3) ∷ []
reader_task_feed_example =
    reader_task_feed plain (codes "$ " ∷ codes "bye" ∷ []) (err (os 9)) [] (ok (some (pos 3)))
      (pos 3) 32 ((λ e. cc), ((λ e. cc), tt)) tt refl

abbrev prompt : Turn
prompt = record { event = received (output (codes "$ ")); answer = ok tt }

abbrev bad_frame : Turn
bad_frame = record { event = next (ok (binary (9 ∷ []))); answer = ok tt }

abbrev typed : Turn
typed = record { event = next (ok (binary (1 ∷ codes "exit"))); answer = ok tt }

abbrev first_turns : List Turn
first_turns = prompt ∷ bad_frame ∷ typed ∷ []

first_turns_go_on : (drive_socket two_numbers plain first_turns).result ≡ none
unfolding drive_socket turn forward on_message after_decode decode_client
first_turns_go_on = refl

-- The bad frame is answered and the loop goes on.
first_turns_actions :
    (drive_socket two_numbers plain first_turns).actions
    ≡ send (binary (2 ∷ codes "$ "))
      ∷ send (binary (3 ∷ codes "error"))
      ∷ write_all (codes "exit")
      ∷ []
unfolding drive_socket turn forward on_message after_decode decode_client encode_server
first_turns_actions = refl

abbrev whole : List Turn
whole = prompt ∷ bad_frame ∷ typed ∷ exit_turn (pos 3) (ok tt) ∷ []

whole_quiet : handle_socket two_numbers plain (ok tt) whole (ok tt) ≡ some []
unfolding handle_socket run_socket drive_socket turn forward on_message after_decode decode_client
    encode_server after_drive
whole_quiet = refl

handle_socket_quiet_example :
    (ok (tt {0}) ≡ ok (tt {0})) × HasEnding whole × (ok (tt {0}) ≡ ok (tt {0}))
handle_socket_quiet_example =
    handle_socket_quiet two_numbers plain (ok tt) whole (ok tt) whole_quiet

-- The first of two reads has been received.
received_first : IsPrefix (received_of first_turns) (
    reader_task plain (map ok (codes "$ " ∷ codes "bye" ∷ []) ++ ok [] ∷ []) (ok (some (pos 3))) 32)
unfolding reader_task read_loop after_loop exit_message
received_first = (output (codes "bye") ∷ exited (exit_code (ok (some (pos 3)))) ∷ [], refl)

abbrev typed_messages : List ClientMessage
typed_messages = resize (record { cols = 80; rows = 24 }) ∷ input (codes "ls") ∷ []

-- A text of two bytes, of which the system takes one before it fails, and a text behind it.
abbrev failing : List Served
failing =
    record {
      turn = record { event = next (ok (text (codes "ab"))); answer = ok tt };
      writes =
          record { ready = ok tt; answers = wrote 1 ∷ [] }
          ∷ record { ready = ok tt; answers = write_failed 9 ∷ [] }
          ∷ [];
    }
    ∷ record {
      turn = record { event = next (ok (text (codes "c"))); answer = ok tt };
      writes = record { ready = ok tt; answers = wrote 1 ∷ [] } ∷ [];
    }
    ∷ []

kernel_stops : kernel two_numbers plain failing ≡ codes "a"
unfolding terminald.Pty.Io.write_all drive_socket turn on_message
kernel_stops = refl
