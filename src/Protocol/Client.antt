-- ===== src/Protocol/Client.antt =====
-- What the server reads of what a client sends.
use terminald.Base.{[], ◌∷◌, ◌≡◌, ◌↔◌, refl, arith, Bytes, All, Error, formatted, ok, err}
use terminald.Decimal.{print_ℕ}
use terminald.Protocol.{
  SerdeJson, IsSerdeJson, ClientMessage, resize, input, IsClientMessage, IsByte, client_resize,
  client_input, decode_client, encode_client, decode_server,
}

-- The frames that stand for a message.
abbrev pub FrameOf : SerdeJson → ClientMessage → Bytes → Type 0
FrameOf json (resize r) frame =
    (payload : Bytes) × (frame ≡ client_resize ∷ payload) × (json.from_slice payload ≡ ok r)
FrameOf json (input d) frame = frame ≡ client_input ∷ d

module _ (json : SerdeJson) where
  decode_client_sound :
      (m : ClientMessage) (frame : Bytes) → decode_client json frame ≡ ok m → FrameOf json m frame
  unfolding decode_client
  decode_client_sound (resize r) [] e = cc
  decode_client_sound (input d) [] e = cc
  decode_client_sound (resize r) (kind ∷ payload) e = (payload, ground arith, ground arith)
  decode_client_sound (input d) (kind ∷ payload) e = ground arith

  decode_client_complete :
      (m : ClientMessage) (frame : Bytes) → FrameOf json m frame → decode_client json frame ≡ ok m
  unfolding decode_client
  decode_client_complete (resize r) frame (payload, e, read) = ground arith
  decode_client_complete (input d) frame e = ground arith

  -- The server decodes a frame to a message exactly when the frame is one of that message: the prefix
  -- of its kind with a payload that reads as the size, or with the input as it is.
  pub decode_client_iff :
      (m : ClientMessage) (frame : Bytes) → (decode_client json frame ≡ ok m) ↔ FrameOf json m frame
  decode_client_iff m frame = (decode_client_sound m frame, decode_client_complete m frame)

module _ (json : SerdeJson) (lawful : IsSerdeJson json) where
  -- Every client message has a frame, and the server decodes the frame to the message.
  pub decode_client-encode_client :
      (m : ClientMessage)
      → IsClientMessage m
      → (frame : Bytes) × (encode_client json m ≡ ok frame) × (decode_client json frame ≡ ok m)
  unfolding decode_client encode_client
  decode_client-encode_client (resize r) h =
      let (s, printed, read) = lawful.prints r h in (client_resize ∷ s, ground arith, ground arith)
  decode_client-encode_client (input d) h = (client_input ∷ d, refl, refl)

  FrameOf-IsClientMessage :
      (m : ClientMessage) (frame : Bytes)
      → All IsByte frame
      → FrameOf json m frame
      → IsClientMessage m
  FrameOf-IsClientMessage (resize r) frame h (payload, e, read) = lawful.reads payload r read
  FrameOf-IsClientMessage (input d) frame h e = (rw e at h).1

  -- A message decoded from bytes is a value of the Rust type: a size is two `u16`, the input is bytes.
  pub decode_client-IsClientMessage :
      (m : ClientMessage) (frame : Bytes)
      → All IsByte frame
      → decode_client json frame ≡ ok m
      → IsClientMessage m
  decode_client-IsClientMessage m frame h e =
      FrameOf-IsClientMessage m frame h (decode_client_sound json m frame e)

-- No message of a client is taken for one of the server: a client that is sent it refuses it.
pub decode_server-encode_client :
    (json : SerdeJson) (m : ClientMessage) (frame : Bytes)
    → encode_client json m ≡ ok frame
    → (e : Error) × (decode_server frame ≡ err e)
unfolding decode_server encode_client
decode_server-encode_client json (resize r) frame h =
    (formatted "unknown server frame prefix " (print_ℕ client_resize), ground arith)
decode_server-encode_client json (input d) frame h =
    (formatted "unknown server frame prefix " (print_ℕ client_input), ground arith)
