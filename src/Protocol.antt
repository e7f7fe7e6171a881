-- ===== src/Protocol.antt =====
-- crates/terminald-protocol: the frames of the websocket (message.rs, resize.rs). A frame is a prefix
-- byte and a payload. `serde_json`, which prints and reads a `Resize`, is a parameter.
pub mod Client
pub mod Server
pub mod Tests
use terminald.Base.Int.{ℤ, IsI32}
use terminald.Base.{
  ℕ, ◌^◌, ◌<◌, [], ◌∷◌, ◌++◌, ◌≡◌, Bytes, All, Error, message, formatted, Result, ok, err, ◌>>=◌,
  with_context, ◌==◌, if◌then◌else◌,
}
use terminald.Decimal.{print_ℕ, print_ℤ, parse_i32}
use terminald.Utf8.{from_utf8_lossy, IsUtf8}

abbrev pub client_resize : ℕ
client_resize = 0

abbrev pub client_input : ℕ
client_input = 1

abbrev pub server_output : ℕ
server_output = 2

abbrev pub server_error : ℕ
server_error = 3

abbrev pub server_exited : ℕ
server_exited = 4

pub record Resize : Type 0 where
  pub cols : ℕ
  pub rows : ℕ

-- The values of the struct: both fields are `u16`.
abbrev pub IsResize : Resize → Type 0
IsResize r = (r.cols < 2 ^ 16) × (r.rows < 2 ^ 16)

pub data ClientMessage : Type 0 where
  resize : Resize → ClientMessage
  input : Bytes → ClientMessage

abbrev pub IsByte : ℕ → Type 0
IsByte b = b < 256

-- The values of the Rust type.
abbrev pub IsClientMessage : ClientMessage → Type 0
IsClientMessage (resize r) = IsResize r
IsClientMessage (input d) = All IsByte d

pub data ServerMessage : Type 0 where
  output : Bytes → ServerMessage
  error : Bytes → ServerMessage
  exited : ℤ → ServerMessage

-- The values of the Rust type: a `String` holds UTF-8, and an exit code is an `i32`.
abbrev pub IsServerMessage : ServerMessage → Type 0
IsServerMessage (output d) = All IsByte d
IsServerMessage (error s) = IsUtf8 s
IsServerMessage (exited c) = IsI32 c

-- `serde_json` with the derived `Serialize` and `Deserialize` of `Resize`.
pub record SerdeJson : Type 0 where
  pub from_slice : Bytes → Result Resize
  pub to_vec : Resize → Result Bytes

-- What is documented of them: a struct of two numbers is printed, the print is read back, and what is
-- read has fields in the range of their types.
pub record IsSerdeJson (json : SerdeJson) : Type 0 where
  pub prints :
      (r : Resize) → IsResize r → (s : Bytes) × (json.to_vec r ≡ ok s) × (json.from_slice s ≡ ok r)
  pub reads : (s : Bytes) (r : Resize) → json.from_slice s ≡ ok r → IsResize r

module _ (json : SerdeJson) where
  -- `Resize::from_payload`
  unfoldable pub from_payload : Bytes → Result Resize
  from_payload payload = json.from_slice payload

  -- `Resize::to_payload`
  unfoldable pub to_payload : Resize → Result Bytes
  to_payload r = json.to_vec r

  decode_resize : Bytes → Result ClientMessage
  unfolding from_payload
  decode_resize payload =
      with_context (from_payload payload >>= λ r. ok (resize r)) "invalid resize payload"

  -- `ClientMessage::decode`
  unfoldable pub decode_client : Bytes → Result ClientMessage
  unfolding decode_resize
  decode_client [] = err (message "empty client frame")
  decode_client (kind ∷ payload) =
      if kind == client_resize
      then decode_resize payload
      else if kind == client_input
      then ok (input payload)
      else err (formatted "unknown client frame prefix " (print_ℕ kind))

  -- `ClientMessage::encode`
  unfoldable pub encode_client : ClientMessage → Result Bytes
  unfolding to_payload
  encode_client (resize r) = to_payload r >>= λ payload. ok (client_resize ∷ payload)
  encode_client (input d) = ok (client_input ∷ d)

decode_exited : Bytes → Result ServerMessage
decode_exited payload = do
  code ← with_context (parse_i32 (from_utf8_lossy payload)) "invalid exit code payload"
  ok (exited code)

-- `ServerMessage::decode`
unfoldable pub decode_server : Bytes → Result ServerMessage
unfolding decode_exited
decode_server [] = err (message "empty server frame")
decode_server (kind ∷ payload) =
    if kind == server_output
    then ok (output payload)
    else if kind == server_error
    then ok (error (from_utf8_lossy payload))
    else if kind == server_exited
    then decode_exited payload
    else err (formatted "unknown server frame prefix " (print_ℕ kind))

-- `ServerMessage::encode`
unfoldable pub encode_server : ServerMessage → Bytes
encode_server (output d) = server_output ∷ d
encode_server (error s) = server_error ∷ s
encode_server (exited c) = server_exited ∷ print_ℤ c
