-- ===== src/Cli/Tests.antt =====
-- The unit tests of the command line, and the theorems at concrete inputs.
use terminald.Base.Int.{negsuc}
use terminald.Base.{
  Error, message, List, [], ◌∷◌, ◌++◌, none, some, true, ◌≡◌, ◌↔◌, refl, arith, map, Bytes, codes,
  v4, foreign, Result, ok, err, if◌then◌else◌,
}
use terminald.Text.{bytes_eq, strip_suffix, split_once, ends_with}
use terminald.Auth.{Credential, new, to_basic_pair, basic, validate_headers}
use terminald.Auth.Credentials.{IsCredential}
use terminald.Auth.Tests.{ascii_http, ascii_http-IsHttp, runs, runs-IsBase64, alice, headers_for}
use terminald.Server.{ServerConfig}
use terminald.Protocol.{ClientMessage, resize, input, output, exited}
use terminald.Protocol.Tests.{two_numbers, two_numbers-IsSerdeJson}
use terminald.Cli.Credentials.{CredentialArgs, resolve, line_of, holds_line_end}
use terminald.Cli.Credentials.File.{Holds, resolve_iff}
use terminald.Cli.Args.{ServerArgs, Cli, server_mode, base_config, server_config, into_mode}
use terminald.Cli.Args.Mode.{server_args, Configures, into_mode_server}
use terminald.Cli.Client.{
  Answers, write_all, flush, read_loop, writer_task, basic_auth_header, UrlCrate, resolve_ws_url,
  write_server_output,
}
use terminald.Cli.Args.{ClientConfig}
use terminald.Cli.Run.{Outside, enable, disable, connect, run}
use terminald.Cli.Run.Order.{IsOutside, IsOrderly, run-IsOrderly}
use terminald.Cli.Client.Output.{arrives, all_printed, last_words, read_loop_prints}
use terminald.Cli.Client.Input.{sends}
use terminald.Session.{drive_socket}
use terminald.Session.Typed.{effect}
use terminald.Cli.Typed.{delivered, writer_task-drive_socket}
use terminald.Cli.Client.Header.{basic_auth_header-validate_headers}
use terminald.Cli.Client.Url.{IsUrl, Resolves, Joins, resolve_ws_url_iff}

-- A file system with one file, which ends in CR LF.
abbrev one_file : Bytes → Result Bytes
one_file path =
    if bytes_eq path (codes "cred") then ok (codes "u:p\r\n") else err (foreign (codes "not found"))

abbrev from_file : CredentialArgs
from_file = record { credential = none; credential_file = some (codes "cred") }

abbrev user : Credential
user = record { username = codes "u"; password = codes "p" }

resolve_iff_example :
    (resolve one_file from_file ≡ ok (some user))
    ↔ (IsCredential user × Holds one_file from_file (some (codes "cred")) (to_basic_pair user))
resolve_iff_example = resolve_iff one_file from_file user

abbrev command_line : Cli
command_line = record {
  command = none;
  port = 7681;
  host = v4 0 0 0 0;
  auth = from_file;
  unix_socket = none;
  server_command = codes "bash" ∷ [];
}

abbrev made_config : ServerConfig
made_config = record (base_config (v4 0 0 0 0) 7681 none (codes "bash" ∷ [])) { auth = basic user }

from_file_resolves : resolve one_file from_file ≡ ok (some user)
unfolding resolve line_of holds_line_end bytes_eq strip_suffix new split_once
from_file_resolves = refl

command_line_mode : into_mode one_file command_line ≡ ok (server_mode made_config)
unfolding into_mode server_config
command_line_mode = rw from_file_resolves

into_mode_server_example :
    (args : ServerArgs) × (server_args command_line none ≡ some args)
    × Configures one_file args made_config
into_mode_server_example = into_mode_server one_file command_line made_config command_line_mode

abbrev quiet : Answers
quiet = record { written = ok tt; flushed = ok tt }

server_output_flushes_immediately :
    write_server_output (codes "a") quiet
    ≡ record { calls = write_all (codes "a") ∷ flush ∷ []; result = ok tt }
unfolding write_server_output
server_output_flushes_immediately = refl

read_loop_prints_example :
    read_loop (
      map (λ d. arrives (output d)) (codes "$ " ∷ codes "bye" ∷ [])
      ++ arrives (exited (negsuc 0)) ∷ [])
    ≡ record {
      calls = all_printed (codes "$ " ∷ codes "bye" ∷ []) ++ (last_words (exited (negsuc 0))).calls;
      result = ok tt;
    }
read_loop_prints_example =
    read_loop_prints (codes "$ " ∷ codes "bye" ∷ []) (exited (negsuc 0)) [] (omega arith) tt

abbrev plain : Error → Bytes
plain e = codes "error"

abbrev typed : List ClientMessage
typed = resize (record { cols = 100; rows = 40 }) ∷ input (codes "l") ∷ input (codes "s") ∷ []

basic_auth_header-validate_headers_example :
    (validate_headers ascii_http runs (basic alice) (headers_for alice) ≡ true) ↔ (alice ≡ alice)
unfolding basic_auth_header
basic_auth_header-validate_headers_example =
    basic_auth_header-validate_headers ascii_http ascii_http-IsHttp runs runs-IsBase64 alice alice
      (headers_for alice) refl refl refl

-- A URL as its scheme and what stands behind it.
abbrev Parts : Type 0
Parts = Bytes × Bytes

abbrev parts : UrlCrate Parts
parts = record {
  parse = λ text. ok (codes "https", text);
  path = λ u. u.1;
  set_path = λ u path. (u.0, path);
  join = λ u path. ok (u.0, u.1 ++ path);
  scheme = λ u. u.0;
  set_scheme = λ u s. some (s, u.1);
}

parts-IsUrl : IsUrl parts
parts-IsUrl = record {
  sets_scheme = λ u v s h. cc;
  takes_ws = λ u e. ((codes "ws", u.1), refl);
  takes_wss = λ u e. ((codes "wss", u.1), refl);
}

resolves_client_urls :
    resolve_ws_url parts (codes "/example") ≡ ok (codes "wss", codes "/example/ws")
unfolding resolve_ws_url bytes_eq ends_with
resolves_client_urls = refl

resolve_ws_url_iff_example :
    Resolves parts (codes "/example") (codes "wss") ↔ Joins parts (codes "/example") (codes "wss")
resolve_ws_url_iff_example = resolve_ws_url_iff parts parts-IsUrl (codes "/example") (codes "wss")

-- A server that refuses the connection.
abbrev refused : Outside Parts
refused = record {
  enable_raw_mode = ok tt;
  into_client_request = λ u. ok tt;
  parse_header = λ h. ok h;
  connect_async = λ u header. err (message "connection refused");
  size = some (record { cols = 80; rows = 24 });
  send = λ frame. ok tt;
  arrivals = [];
}

refused-IsOutside : IsOutside refused
refused-IsOutside = record { keeps = λ h v e. cc }

abbrev alice_config : ClientConfig
alice_config = record { connect = codes "/example"; credential = some alice }

raw_mode_is_left :
    (run parts two_numbers runs refused alice_config).calls
    ≡ enable
      ∷ connect (codes "wss", codes "/example/ws") (basic_auth_header runs (some alice))
      ∷ disable
      ∷ []
unfolding run resolve_ws_url basic_auth_header bytes_eq ends_with
raw_mode_is_left = refl

run-IsOrderly_example :
    IsOrderly parts two_numbers runs refused alice_config
      (run parts two_numbers runs refused alice_config)
run-IsOrderly_example = run-IsOrderly parts two_numbers runs refused refused-IsOutside alice_config

writer_task-drive_socket_example :
    drive_socket two_numbers plain
      (map delivered (writer_task two_numbers (map sends typed)).frames)
    ≡ record { actions = map effect typed; result = none }
writer_task-drive_socket_example =
    writer_task-drive_socket two_numbers two_numbers-IsSerdeJson plain typed
      ((omega arith, omega arith), ((omega arith, tt), ((omega arith, tt), tt)))
      (tt, ((λ e. cc), ((λ e. cc), tt)))
