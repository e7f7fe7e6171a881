-- ===== src/Cli/Typed/Written.antt =====
-- From the standard input of a client to `write(2)` at the terminal of the server, when no call fails:
-- crates/terminald-cli/src/client.rs, crates/terminald-server/src/session.rs and
-- crates/terminald-pty/src/process.rs.
use terminald.Base.{
  ◌≤◌, List, [], ◌∷◌, ◌++◌, length, append-nil, ◌≡◌, refl, sym, ap, ◌∙◌, map, Bytes, All, Error, ok,
}
use terminald.Pty.Io.{WriteAnswer, write_all}
use terminald.Pty.Io.Writing.{IsProductive, write_all-IsWritten, write_all_succeeds}
use terminald.Protocol.{
  ClientMessage, resize, input, IsClientMessage, SerdeJson, IsSerdeJson, decode_client,
}
use terminald.Protocol.Client.{decode_client-encode_client}
use terminald.Session.{drive_socket}
use terminald.Session.Kernel.{Served, kernel}
use terminald.Cli.Client.{writer_task}
use terminald.Cli.Client.Input.{HoldsBytes, sends, writer_task-cons}
use terminald.Cli.Client.Tasks.Delivery.{typed_by, all_typed}
use terminald.Cli.Typed.{delivered}

abbrev WriteTurns : Type 0
WriteTurns = List (terminald.Pty.Io.Turn WriteAnswer)

-- A message that is typed, with the turns of the system for its write.
abbrev Typing : Type 0
Typing = ClientMessage × WriteTurns

abbrev pub message_in : Typing → ClientMessage
message_in (m, writes) = m

-- The frames as they arrive, each with the system's turns for its write.
abbrev pub arriving : List Bytes → List Typing → List Served
arriving (frame ∷ frames) ((m, writes) ∷ typing) =
    record { turn = delivered frame; writes = writes } ∷ arriving frames typing
arriving [] typing = []
arriving (frame ∷ frames) [] = []

-- The system is ready, and takes at least one byte in each of as many turns as there are bytes.
abbrev pub IsTaken : Typing → Type 0
IsTaken (input d, writes) = All IsProductive writes × (length d ≤ length writes)
IsTaken (resize size, writes) = Unit {0}

write_all-taken :
    (d : Bytes) (writes : WriteTurns)
    → All IsProductive writes
    → length d ≤ length writes
    → (write_all d writes).taken ≡ d
write_all-taken d writes h fits =
    let (left, parts, all) = write_all-IsWritten d writes in
    sym (
      parts
      ∙ ap (λ l. (write_all d writes).taken ++ l) (all (write_all_succeeds d writes h fits))
      ∙ append-nil _)

module _ (json : SerdeJson) (lawful : IsSerdeJson json) (alternate : Error → Bytes) where
  kernel-cons :
      (m : ClientMessage) (writes : WriteTurns) (frame : Bytes) (ss : List Served)
      → decode_client json frame ≡ ok m
      → IsTaken (m, writes)
      → kernel json alternate (record { turn = delivered frame; writes = writes } ∷ ss)
        ≡ typed_by m ++ kernel json alternate ss
  unfolding drive_socket
  kernel-cons (input d) writes frame ss decoded (h, fits) =
      rw (decoded, write_all_succeeds d writes h fits, write_all-taken d writes h fits) refl
  kernel-cons (resize size) writes frame ss decoded h = rw decoded refl

  -- What is typed at a client is written to the terminal of the server: for any non-empty reads and any
  -- sizes of the Rust type, sent and received in order, if the system is ready for each write and takes
  -- at least one byte in each of as many turns as the write has bytes, then all that it takes is what was
  -- typed, in order and each byte once, however the writes are divided.
  pub typed_is_written :
      (typing : List Typing)
      → All IsClientMessage (map message_in typing)
      → All HoldsBytes (map message_in typing)
      → All IsTaken typing
      → kernel json alternate
          (arriving (writer_task json (map sends (map message_in typing))).frames typing)
        ≡ all_typed (map message_in typing)
  unfolding writer_task
  typed_is_written [] h k t = refl
  typed_is_written ((m, writes) ∷ typing) (h, hs) (k, ks) (t, ts) =
      let (frame, encoded, decoded) = decode_client-encode_client json lawful m h in
      let sent = writer_task-cons json lawful m (map message_in typing) frame k encoded in
      ap (λ s. kernel json alternate (arriving s.frames ((m, writes) ∷ typing))) sent
      ∙ kernel-cons m writes frame
          (arriving (writer_task json (map sends (map message_in typing))).frames typing) decoded t
      ∙ ap (λ l. typed_by m ++ l) (typed_is_written typing hs ks ts)
