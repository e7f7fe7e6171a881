-- ===== src/Cli/Args.antt =====
-- crates/terminald-cli/src/args.rs and main.rs: what a parsed command line asks for. `clap`, which fills
-- the records and their defaults and refuses conflicting options, is not modelled.
pub mod Mode
use terminald.Base.{
  ℕ, List, [], ◌∷◌, Option, none, some, Bytes, IpAddr, Error, message, Result, ok, err, ◌>>=◌, max,
}
use terminald.Auth.{Credential, AuthConfig, basic}
use terminald.Server.{ServerConfig, new}
use terminald.Cli.Credentials.{CredentialArgs, resolve}

pub record ServerArgs : Type 0 where
  pub port : ℕ
  pub host : IpAddr
  pub auth : CredentialArgs
  pub unix_socket : Option Bytes
  pub command : List Bytes

pub record ClientArgs : Type 0 where
  pub connect : Bytes
  pub auth : CredentialArgs

pub data Subcommands : Type 0 where
  server : ServerArgs → Subcommands
  client : ClientArgs → Subcommands
  version : Subcommands

pub record Cli : Type 0 where
  pub command : Option Subcommands
  pub port : ℕ
  pub host : IpAddr
  pub auth : CredentialArgs
  pub unix_socket : Option Bytes
  pub server_command : List Bytes

pub record ClientConfig : Type 0 where
  pub connect : Bytes
  pub credential : Option Credential

-- `CommandMode`: its constructors carry a word more than those of `Subcommands`.
pub data CommandMode : Type 0 where
  server_mode : ServerConfig → CommandMode
  client_mode : ClientConfig → CommandMode
  version_mode : CommandMode

-- The configuration before the credential is set.
abbrev pub base_config : IpAddr → ℕ → Option Bytes → List Bytes → ServerConfig
base_config host port unix_socket command = record (new port command) {
  host = host;
  unix_socket = unix_socket;
}

with_credential : ServerConfig → Option Credential → ServerConfig
with_credential config none = config
with_credential config (some c) = record config { auth = basic c }

module _ (read_to_string : Bytes → Result Bytes) where
  unfoldable pub server_config :
      IpAddr → ℕ → CredentialArgs → Option Bytes → List Bytes → Result ServerConfig
  unfolding with_credential
  server_config host port auth unix_socket [] = err (message "command is required")
  server_config host port auth unix_socket (arg ∷ args) =
      resolve read_to_string auth >>= λ credential.
      ok (with_credential (base_config host port unix_socket (arg ∷ args)) credential)

  as_server : Result ServerConfig → Result CommandMode
  as_server config = config >>= λ c. ok (server_mode c)

  mode_of : Cli → Option Subcommands → Result CommandMode
  unfolding as_server
  mode_of cli (some (server args)) =
      as_server (server_config args.host args.port args.auth args.unix_socket args.command)
  mode_of cli (some (client args)) = resolve read_to_string args.auth >>= λ credential.
      ok (client_mode (record { connect = args.connect; credential = credential }))
  mode_of cli (some version) = ok version_mode
  mode_of cli none =
      as_server (server_config cli.host cli.port cli.auth cli.unix_socket cli.server_command)

  -- `Cli::into_mode`
  unfoldable pub into_mode : Cli → Result CommandMode
  unfolding mode_of
  into_mode cli = mode_of cli cli.command

-- `run` of main.rs; the server and the client are parameters, and the version is printed.
unfoldable pub run :
    (Bytes → Result Bytes)
    → (ServerConfig → Result (Unit {0}))
    → (ClientConfig → Result (Unit {0}))
    → Cli
    → Result (Unit {0})
run read_to_string serve run_client cli = into_mode read_to_string cli >>= λ mode. elim mode [
  | server_mode config ↦ serve config
  | client_mode config ↦ run_client config
  | version_mode ↦ ok tt
]

abbrev pub min_runtime_worker_threads : ℕ
min_runtime_worker_threads = 8

-- `runtime_worker_threads`, with what `available_parallelism` finds.
unfoldable pub runtime_worker_threads : Result ℕ → ℕ
runtime_worker_threads (ok n) = max n min_runtime_worker_threads
runtime_worker_threads (err e) = max 1 min_runtime_worker_threads
