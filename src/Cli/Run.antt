-- ===== src/Cli/Run.antt =====
-- `run` of crates/terminald-cli/src/client.rs, with the guard of terminal.rs around it. The terminal and
-- the websocket library are parameters; what the writer task sends meanwhile is in `writer_task`.
pub mod Order
use terminald.Base.{List, [], ◌∷◌, ◌++◌, Option, none, some, Bytes, Error, Result, ok, err, context}
use terminald.Http.{Base64}
use terminald.Protocol.{Resize, resize, SerdeJson, encode_client}
use terminald.Cli.Args.{ClientConfig}
use terminald.Cli.Client.{
  Call, Did, Arrival, read_loop, UrlCrate, resolve_ws_url, basic_auth_header,
}

-- What `run` asks the terminal and the websocket library, with their answers.
pub record Outside (U : Type 0) : Type 0 where
  pub enable_raw_mode : Result (Unit {0})
  pub into_client_request : U → Result (Unit {0})
  pub parse_header : Bytes → Result Bytes
  pub connect_async : U → Option Bytes → Result (Unit {0})
  pub size : Option Resize
  pub send : Bytes → Result (Unit {0})
  pub arrivals : List Arrival

pub data RunCall (U : Type 0) : Type 0 where
  enable disable : RunCall U
  connect : U → Option Bytes → RunCall U
  send_frame : Bytes → RunCall U
  stdout : Call → RunCall U

pub record Ran (U : Type 0) : Type 0 where
  pub calls : List (RunCall U)
  pub result : Result (Unit {0})

abbrev fails : {U : Type 0} → Error → Ran U
fails e = record { calls = []; result = err e }

abbrev after : {U : Type 0} → RunCall U → Ran U → Ran U
after c ran = record ran { calls = c ∷ ran.calls }

abbrev on_stdout : {U : Type 0} → List Call → List (RunCall U)
on_stdout [] = []
on_stdout (c ∷ cs) = stdout c ∷ on_stdout cs

module _ {U : Type 0} (url : UrlCrate U) (json : SerdeJson) (base64 : Base64)
    (outside : Outside U) where
  prints : Did (Unit {0}) → Ran U
  prints did = record { calls = on_stdout did.calls; result = did.result }

  after_send : Bytes → Result (Unit {0}) → Ran U
  unfolding prints
  after_send frame (err e) = after (send_frame frame) (fails e)
  after_send frame (ok u) = after (send_frame frame) (prints (read_loop outside.arrivals))

  first_frame : Result Bytes → Ran U
  unfolding after_send
  first_frame (err e) = fails e
  first_frame (ok frame) = after_send frame (outside.send frame)

  -- The current size is sent first, if there is one.
  first_size : Option Resize → Ran U
  unfolding first_frame
  first_size none = prints (read_loop outside.arrivals)
  first_size (some size) = first_frame (encode_client json (resize size))

  after_connect : U → Option Bytes → Result (Unit {0}) → Ran U
  unfolding first_size
  after_connect u header (err e) =
      after (connect u header) (fails (context "connect to terminald server" e))
  after_connect u header (ok connected) = after (connect u header) (first_size outside.size)

  parsed : Option Bytes → Result (Option Bytes)
  parsed none = ok none
  parsed (some header) = elim (outside.parse_header header) [ err e ↦ err e | ok h ↦ ok (some h) ]

  with_header : U → Result (Option Bytes) → Ran U
  unfolding after_connect
  with_header u (err e) = fails e
  with_header u (ok header) = after_connect u header (outside.connect_async u header)

  with_request : U → ClientConfig → Result (Unit {0}) → Ran U
  unfolding with_header parsed
  with_request u config (err e) = fails e
  with_request u config (ok request) =
      with_header u (parsed (basic_auth_header base64 config.credential))

  with_url : ClientConfig → Result U → Ran U
  unfolding with_request
  with_url config (err e) = fails e
  with_url config (ok u) = with_request u config (outside.into_client_request u)

  -- `RawTerminalGuard`: what it guards runs if raw mode is on, and its drop comes last on every path.
  guarded : Result (Unit {0}) → Ran U → Ran U
  guarded (err e) body = after enable (fails (context "enable terminal raw mode" e))
  guarded (ok on) body = record {
    calls = enable ∷ body.calls ++ disable ∷ [];
    result = body.result;
  }

  -- `run`
  unfoldable pub run : ClientConfig → Ran U
  unfolding guarded with_url
  run config = guarded outside.enable_raw_mode (with_url config (resolve_ws_url url config.connect))
