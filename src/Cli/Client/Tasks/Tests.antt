-- ===== src/Cli/Client/Tasks/Tests.antt =====
-- A client that types `ls` while its window is made larger.
use terminald.Base.{List, [], ◌∷◌, none, refl, arith, codes, ok, Result}
use terminald.Channel.{Channel}
use terminald.Channel.Tests.{bounded_list, bounded_list-IsChannel}
use terminald.Pty.{eintr}
use terminald.Pty.Io.{wrote, write_failed}
use terminald.Protocol.{Resize, encode_client}
use terminald.Protocol.Tests.{two_numbers, two_numbers-IsSerdeJson}
use terminald.Session.{WsMessage, next, Turn, drive_socket}
use terminald.Session.Screen.{IsPrefix}
use terminald.Session.Typed.{on_terminal}
use terminald.Cli.Client.{Event, stdin, writer_task, on_event}
use terminald.Cli.Client.Tasks.{
  watches, writes, resize_capacity, watching, sending, Tasks, init, Goes, signalled, sends, reads,
  Reach, start, later,
}
use terminald.Session.Kernel.{written, Served, kernel}
use terminald.Cli.Client.Tasks.Calls.{sizes_given}
use terminald.Cli.Client.Tasks.Terminal.{client_reaches_terminal, typing_reaches_write}

abbrev channel : Channel Resize (List Resize)
channel = bounded_list resize_capacity

abbrev larger : Resize
larger = record { cols = 120; rows = 50 }

abbrev typed : Event × Result (Unit {0})
typed = (stdin (ok (codes "ls")), ok tt)

abbrev seen : Tasks (List Resize)
seen = record (init channel) { watcher = sending larger; seen = larger ∷ [] }

abbrev queued : Tasks (List Resize)
queued = record seen { watcher = watching; queue = larger ∷ [] }

abbrev typed_first : Tasks (List Resize)
typed_first = record queued { events = typed ∷ [] }

at_start : Goes two_numbers (init channel)
unfolding writer_task
at_start = (refl, refl)

typed_first_reached : Reach two_numbers channel typed_first
typed_first_reached =
    later
      (later
        (later start
          (watches (signalled (init channel) (ok (120, 50)) refl (omega arith, omega arith))))
        (watches (sends seen larger (larger ∷ []) refl at_start refl)))
      (writes (reads queued (ok (codes "ls")) (ok tt) at_start (omega arith, (omega arith, tt))))

abbrev arrives : Turn
arrives = record { event = next (ok (WsMessage.binary (1 ∷ codes "ls"))); answer = ok tt }

-- The frame of the input, which is the first that is sent.
typed_frames : IsPrefix ((1 ∷ codes "ls") ∷ []) (writer_task two_numbers (typed ∷ [])).frames
unfolding writer_task on_event encode_client
typed_frames = ([], refl)

client_reaches_terminal_example :
    IsPrefix
      (written (on_terminal (drive_socket two_numbers (λ e. []) (arrives ∷ [])).actions))
      (codes "ls")
    × IsPrefix
        (sizes_given (on_terminal (drive_socket two_numbers (λ e. []) (arrives ∷ [])).actions))
        (larger ∷ [])
client_reaches_terminal_example =
    client_reaches_terminal two_numbers two_numbers-IsSerdeJson channel
      (bounded_list-IsChannel resize_capacity) (λ e. []) none (arrives ∷ []) typed_first_reached tt
      (tt, tt) typed_frames

-- The system takes one byte of the two, interrupts, and takes the other.
abbrev served : Served
served = record {
  turn = arrives;
  writes =
      record { ready = ok tt; answers = wrote 1 ∷ [] }
      ∷ record { ready = ok tt; answers = write_failed eintr ∷ wrote 1 ∷ [] }
      ∷ [];
}

typing_reaches_write_example : IsPrefix (kernel two_numbers (λ e. []) (served ∷ [])) (codes "ls")
typing_reaches_write_example =
    typing_reaches_write two_numbers two_numbers-IsSerdeJson channel
      (bounded_list-IsChannel resize_capacity) (λ e. []) none (served ∷ []) typed_first_reached tt
      (tt, tt) typed_frames
