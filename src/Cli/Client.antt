-- ===== src/Cli/Client.antt =====
-- crates/terminald-cli/src/client.rs: the frames a client sends, what it writes to its standard output,
-- its header and the URL it connects to. The crate `url` is a parameter.
pub mod Output
pub mod Shown
pub mod Tasks
pub mod Tests
pub mod Input
pub mod Url
pub mod Header
use terminald.Base.{
  List, [], ◌∷◌, ◌++◌, Option, none, some, Bool, true, false, String, Bytes, codes, Error, message,
  formatted, foreign, Result, ok, err, ◌>>=◌, with_context, if◌then◌else◌,
}
use terminald.Decimal.{print_ℤ}
use terminald.Text.{ends_with, bytes_eq}
use terminald.Http.{Base64}
use terminald.Auth.{Credential, to_basic_pair}
use terminald.Protocol.{
  Resize, ClientMessage, resize, input, ServerMessage, output, error, exited, SerdeJson,
  decode_server, encode_client,
}

-- The calls on the standard output.
pub data Call : Type 0 where
  write_all : Bytes → Call
  flush : Call

-- The calls made, and the result.
pub record Did (A : Type 0) : Type 0 where
  pub calls : List Call
  pub result : Result A

-- The answers of `write_all` and of `flush`, of which a frame causes one each.
pub record Answers : Type 0 where
  pub written : Result (Unit {0})
  pub flushed : Result (Unit {0})

abbrev flush_after : Bytes → Result (Unit {0}) → Result (Unit {0}) → Did (Unit {0})
flush_after bytes (ok u) flushed = record { calls = write_all bytes ∷ flush ∷ []; result = flushed }
flush_after bytes (err e) flushed = record { calls = write_all bytes ∷ []; result = err e }

-- `write_server_output`
unfoldable pub write_server_output : Bytes → Answers → Did (Unit {0})
write_server_output bytes answers = flush_after bytes answers.written answers.flushed

-- A call under `?`, and the value returned behind it.
abbrev returning : {A : Type 0} → Did (Unit {0}) → A → Did A
returning did a = record { calls = did.calls; result = did.result >>= λ u. ok a }

abbrev pub exit_text : Bytes → Bytes
exit_text code = codes "\r\nRemote exited with code " ++ (code ++ codes "\r\n")

on_server_message : Result ServerMessage → Answers → Did Bool
unfolding write_server_output
on_server_message (ok (output d)) answers = returning (write_server_output d answers) false
on_server_message (ok (error s)) answers = record { calls = []; result = err (formatted "" s) }
on_server_message (ok (exited c)) answers =
    returning (write_server_output (exit_text (print_ℤ c)) answers) true
on_server_message (err e) answers = record { calls = []; result = err e }

-- `handle_server_frame`: whether the client stops.
unfoldable pub handle_server_frame : Bytes → Answers → Did Bool
unfolding on_server_message
handle_server_frame frame answers = on_server_message (decode_server frame) answers

-- A message of the websocket, as `tungstenite` has it.
pub data Message : Type 0 where
  text binary ping pong frame : Bytes → Message
  close : Message

pub record Arrival : Type 0 where
  pub item : Result Message
  pub answers : Answers

-- The rest of the loop behind a call, unless that stops it or fails.
go_on : Did Bool → Did (Unit {0}) → Did (Unit {0})
go_on did rest = elim did.result [
  | err e ↦ record { calls = did.calls; result = err e }
  | ok stops ↦
      if stops
      then record { calls = did.calls; result = ok tt }
      else record { calls = did.calls ++ rest.calls; result = rest.result }
]

on_item : Result Message → Answers → Did (Unit {0}) → Did (Unit {0})
unfolding go_on handle_server_frame
on_item (err e) answers rest = record { calls = []; result = err e }
on_item (ok (binary f)) answers rest = go_on (handle_server_frame f answers) rest
on_item (ok (text t)) answers rest = go_on (returning (write_server_output t answers) false) rest
on_item (ok close) answers rest = record { calls = []; result = ok tt }
on_item (ok (ping d)) answers rest = rest
on_item (ok (pong d)) answers rest = rest
on_item (ok (frame d)) answers rest = rest

-- The loop of `run` over the messages of the reader; the stream ends after the last.
unfoldable pub read_loop : List Arrival → Did (Unit {0})
unfolding on_item
read_loop [] = record { calls = []; result = ok tt }
read_loop (a ∷ arrivals) = on_item a.item a.answers (read_loop arrivals)

-- The branches of `select!` in the writer task: a read of standard input, or a new size, where `none`
-- is a channel that is closed.
pub data Event : Type 0 where
  stdin : Result Bytes → Event
  resized : Option Resize → Event

-- The frames sent and, once the task is over, its result.
pub record Sent : Type 0 where
  pub frames : List Bytes
  pub result : Option (Result (Unit {0}))

abbrev pub over : Result (Unit {0}) → Sent
over r = record { frames = []; result = some r }

abbrev pub send_frame : Bytes → Result (Unit {0}) → Sent → Sent
send_frame f (ok u) rest = record rest { frames = f ∷ rest.frames }
send_frame f (err e) rest = record { frames = f ∷ []; result = some (err e) }

abbrev pub send_encoded : Result Bytes → Result (Unit {0}) → Sent → Sent
send_encoded (ok f) answer rest = send_frame f answer rest
send_encoded (err e) answer rest = over (err e)

module _ (json : SerdeJson) where
  on_event : Event → Result (Unit {0}) → Sent → Sent
  on_event (stdin (err e)) answer rest = over (err e)
  on_event (stdin (ok [])) answer rest = over (ok tt)
  on_event (stdin (ok (b ∷ bs))) answer rest =
      send_encoded (encode_client json (input (b ∷ bs))) answer rest
  on_event (resized none) answer rest = over (ok tt)
  on_event (resized (some size)) answer rest =
      send_encoded (encode_client json (resize size)) answer rest

  -- The writer task: each event has the answer of the `send` that it causes.
  unfoldable pub writer_task : List (Event × Result (Unit {0})) → Sent
  unfolding on_event
  writer_task [] = record { frames = []; result = none }
  writer_task ((e, answer) ∷ events) = on_event e answer (writer_task events)

-- `basic_auth_header`
unfoldable pub basic_auth_header : Base64 → Option Credential → Option Bytes
basic_auth_header base64 none = none
basic_auth_header base64 (some c) = some (codes "Basic " ++ base64.encode (to_basic_pair c))

-- The methods of `url::Url` that are called; the setter of a scheme may refuse.
pub record UrlCrate (U : Type 0) : Type 0 where
  pub parse : Bytes → Result U
  pub path : U → Bytes
  pub set_path : U → Bytes → U
  pub join : U → Bytes → Result U
  pub scheme : U → Bytes
  pub set_scheme : U → Bytes → Option U

module _ {U : Type 0} (url : UrlCrate U) where
  pub with_slash : U → U
  with_slash base =
      if ends_with (url.path base) (b'/' ∷ [])
      then base
      else url.set_path base (url.path base ++ b'/' ∷ [])

  ws_scheme : Option U → String → Result U
  ws_scheme none what = err (message what)
  ws_scheme (some u) what = ok u

  to_ws : U → Bytes → Result U
  unfolding ws_scheme
  to_ws u scheme =
      if bytes_eq scheme (codes "http")
      then ws_scheme (url.set_scheme u (codes "ws")) "set ws scheme"
      else if bytes_eq scheme (codes "https")
      then ws_scheme (url.set_scheme u (codes "wss")) "set wss scheme"
      else if bytes_eq scheme (codes "ws")
      then ok u
      else if bytes_eq scheme (codes "wss")
      then ok u
      else err (formatted "unsupported connect URL scheme " scheme)

  -- `resolve_ws_url`
  unfoldable pub resolve_ws_url : Bytes → Result U
  unfolding with_slash to_ws
  resolve_ws_url connect = do
    base ← with_context (url.parse connect) "parse connect URL"
    u ← with_context (url.join (with_slash base) (codes "ws")) "resolve websocket URL"
    to_ws u (url.scheme u)
