-- ===== src/Cli/Client/Input.antt =====
-- What a server makes of the frames that a client sends.
use terminald.Base.{List, [], ◌∷◌, none, some, ◌≡◌, ◌≢◌, refl, map, Bytes, All, Result, ok}
use terminald.Protocol.{
  ClientMessage, resize, input, IsClientMessage, SerdeJson, IsSerdeJson, decode_client,
  encode_client,
}
use terminald.Protocol.Client.{decode_client-encode_client}
use terminald.Cli.Client.{Event, stdin, resized, Sent, on_event, writer_task}

-- The event of a message; the user does not end the input.
abbrev pub event_of : ClientMessage → Event
event_of (input d) = stdin (ok d)
event_of (resize size) = resized (some size)

abbrev pub HoldsBytes : ClientMessage → Type 0
HoldsBytes (input d) = d ≢ []
HoldsBytes (resize size) = Unit {0}

abbrev pub sends : ClientMessage → Event × Result (Unit {0})
sends m = (event_of m, ok tt)

module _ (json : SerdeJson) (lawful : IsSerdeJson json) where
  on_event_sends :
      (m : ClientMessage) (frame : Bytes) (rest : Sent)
      → HoldsBytes m
      → encode_client json m ≡ ok frame
      → on_event json (event_of m) (ok tt) rest
        ≡ record { frames = frame ∷ rest.frames; result = rest.result }
  unfolding on_event
  on_event_sends (input []) frame rest h e = absurd (h refl)
  on_event_sends (input (b ∷ bs)) frame rest h e = rw e
  on_event_sends (resize size) frame rest h e = rw e

  -- The writer task at the event of a message whose send succeeds.
  pub writer_task-cons :
      (m : ClientMessage) (ms : List ClientMessage) (frame : Bytes)
      → HoldsBytes m
      → encode_client json m ≡ ok frame
      → writer_task json (map sends (m ∷ ms)) ≡ record {
        frames = frame ∷ (writer_task json (map sends ms)).frames;
        result = (writer_task json (map sends ms)).result;
      }
  unfolding writer_task
  writer_task-cons m ms frame h e = on_event_sends m frame (writer_task json (map sends ms)) h e

  -- The frames of the writer task for any reads of standard input and changes of size are decoded by
  -- the server to these, in order; none is lost and the task goes on.
  pub writer_task-decode_client :
      (ms : List ClientMessage)
      → All IsClientMessage ms
      → All HoldsBytes ms
      → (map (decode_client json) (writer_task json (map sends ms)).frames ≡ map ok ms)
        × ((writer_task json (map sends ms)).result ≡ none)
  unfolding writer_task
  writer_task-decode_client [] h k = (refl, refl)
  writer_task-decode_client (m ∷ ms) (h, hs) (k, ks) =
      let (frame, encoded, decoded) = decode_client-encode_client json lawful m h in
      let (frames, going) = writer_task-decode_client ms hs ks in
      let step = on_event_sends m frame (writer_task json (map sends ms)) k encoded in
      rw (step, decoded, frames, going) (refl, refl)
