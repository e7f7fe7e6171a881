-- ===== src/Cli/Typed.antt =====
-- From the standard input of a client to the terminal of the server: the writer task of
-- crates/terminald-cli/src/client.rs and the loop of crates/terminald-server/src/session.rs.
pub mod Written
pub mod Tests
use terminald.Base.{List, [], ◌∷◌, none, ◌≡◌, refl, ap, ◌∙◌, map, Bytes, All, Error, ok}
use terminald.Protocol.{ClientMessage, IsClientMessage, SerdeJson, IsSerdeJson}
use terminald.Protocol.Client.{decode_client-encode_client}
use terminald.Session.{binary, next, Turn, drive_socket}
use terminald.Session.Typed.{effect, drive_socket-cons}
use terminald.Cli.Client.{writer_task}
use terminald.Cli.Client.Input.{HoldsBytes, sends, writer_task-cons}

-- A frame that arrives, with a call on the terminal that succeeds.
abbrev pub delivered : Bytes → Turn
delivered frame = record { event = next (ok (binary frame)); answer = ok tt }

module _ (json : SerdeJson) (lawful : IsSerdeJson json) (alternate : Error → Bytes) where
  -- What is typed at a client, and each change of its size, reaches the terminal of the server: for any
  -- non-empty reads and any sizes, sent by the writer task and received in order, the loop makes the
  -- call of each on the terminal, in order, makes no other and goes on.
  pub writer_task-drive_socket :
      (ms : List ClientMessage)
      → All IsClientMessage ms
      → All HoldsBytes ms
      → drive_socket json alternate (map delivered (writer_task json (map sends ms)).frames)
        ≡ record { actions = map effect ms; result = none }
  unfolding drive_socket writer_task
  writer_task-drive_socket [] h k = refl
  writer_task-drive_socket (m ∷ ms) (h, hs) (k, ks) =
      let (frame, encoded, decoded) = decode_client-encode_client json lawful m h in
      let sent = writer_task-cons json lawful m ms frame k encoded in
      ap (λ s. drive_socket json alternate (map delivered s.frames)) sent
      ∙ drive_socket-cons json alternate m (map delivered (writer_task json (map sends ms)).frames)
          frame decoded
      ∙ ap (λ run. record { actions = effect m ∷ run.actions; result = run.result })
          (writer_task-drive_socket ms hs ks)
