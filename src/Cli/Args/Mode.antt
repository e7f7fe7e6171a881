-- ===== src/Cli/Args/Mode.antt =====
-- What the command line settles.
use terminald.Base.{
  ℕ, ◌≤◌, List, [], ◌∷◌, Option, none, some, ◌≡◌, ◌≢◌, refl, ap, sym, subst, ◌∙◌, arith, Bytes,
  Error, Result, ok, err, >>=-eq-ok,
}
use terminald.Auth.{Credential}
use terminald.Assets.{embedded}
use terminald.Server.{ServerConfig}
use terminald.Cli.Credentials.{resolve}
use terminald.Cli.Args.{
  ServerArgs, Subcommands, server, client, version, Cli, server_mode, client_mode, server_config,
  base_config, with_credential, as_server, mode_of, into_mode, runtime_worker_threads,
}

-- The arguments of the server: those of the subcommand, or without one those of the command line.
abbrev pub server_args : Cli → Option Subcommands → Option ServerArgs
server_args cli (some (server args)) = some args
server_args cli (some (client args)) = none
server_args cli (some version) = none
server_args cli none = some (record {
  port = cli.port;
  host = cli.host;
  auth = cli.auth;
  unix_socket = cli.unix_socket;
  command = cli.server_command;
})

-- The configuration has the values of the arguments, a command, and the credential if there is one.
abbrev pub Configures : (Bytes → Result Bytes) → ServerArgs → ServerConfig → Type 0
Configures read args config =
    (args.command ≢ [])
    × (config.command ≡ args.command)
    × (config.port ≡ args.port)
    × (config.host ≡ args.host)
    × (config.unix_socket ≡ args.unix_socket)
    × (config.assets ≡ embedded)
    × (resolve read args.auth ≡ ok config.auth.credential)

module _ (read : Bytes → Result Bytes) where
  -- With the credential set, or left out if there is none.
  with_credential-Configures :
      (args : ServerArgs) (config : ServerConfig) (a : Bytes) (more : List Bytes)
      (c : Option Credential)
      → args.command ≡ a ∷ more
      → resolve read args.auth ≡ ok c
      → with_credential (base_config args.host args.port args.unix_socket (a ∷ more)) c ≡ config
      → Configures read args config
  unfolding with_credential
  with_credential-Configures args config a more none e r m =
      subst (Configures read args) m ((λ empty. cc), sym e, refl, refl, refl, refl, r)
  with_credential-Configures args config a more (some c) e r m =
      subst (Configures read args) m ((λ empty. cc), sym e, refl, refl, refl, refl, r)

  server_config_sound :
      (args : ServerArgs) (config : ServerConfig) (command : List Bytes)
      → args.command ≡ command
      → server_config read args.host args.port args.auth args.unix_socket command ≡ ok config
      → Configures read args config
  unfolding server_config
  server_config_sound args config [] e h = cc
  server_config_sound args config (a ∷ more) e h =
      let (c, resolved, made) =
        >>=-eq-ok (resolve read args.auth)
          (λ c.
            ok (with_credential (base_config args.host args.port args.unix_socket (a ∷ more)) c))
          h in
      with_credential-Configures args config a more c e resolved (cc)

  as_server_sound :
      (args : ServerArgs) (config : ServerConfig)
      → as_server read
          (server_config read args.host args.port args.auth args.unix_socket args.command)
        ≡ ok (server_mode config)
      → Configures read args config
  unfolding as_server
  as_server_sound args config h =
      let (c, made, same) =
        >>=-eq-ok (server_config read args.host args.port args.auth args.unix_socket args.command)
          (λ c. ok (server_mode c)) h in
      let equal : c ≡ config = cc in
      server_config_sound args config args.command refl (made ∙ ap ok equal)

  mode_of_sound :
      (cli : Cli) (command : Option Subcommands) (config : ServerConfig)
      → mode_of read cli command ≡ ok (server_mode config)
      → (args : ServerArgs) × (server_args cli command ≡ some args) × Configures read args config
  unfolding mode_of
  mode_of_sound cli (some (server args)) config h = (args, refl, as_server_sound args config h)
  mode_of_sound cli (some (client args)) config h =
      let (c, resolved, made) =
        >>=-eq-ok (resolve read args.auth)
          (λ credential.
            ok (client_mode (record { connect = args.connect; credential = credential })))
          h in
      cc
  mode_of_sound cli (some version) config h = cc
  mode_of_sound cli none config h = (_, refl, as_server_sound _ config h)

  -- A command line that starts a server configures it from the arguments of the subcommand, or of the
  -- command line without one: there is a command, the address, the port, the socket and the command
  -- are those given, and authentication is on exactly if a credential was resolved, with that one.
  pub into_mode_server :
      (cli : Cli) (config : ServerConfig)
      → into_mode read cli ≡ ok (server_mode config)
      → (args : ServerArgs) × (server_args cli cli.command ≡ some args)
        × Configures read args config
  unfolding into_mode
  into_mode_server cli config h = mode_of_sound cli cli.command config h

-- The runtime has 8 worker threads at least, and no fewer than the processors that were found.
pub runtime_worker_threads_floor :
    (n : ℕ) (e : Error)
    → (8 ≤ runtime_worker_threads (ok n))
      × (n ≤ runtime_worker_threads (ok n))
      × (8 ≤ runtime_worker_threads (err e))
unfolding runtime_worker_threads
runtime_worker_threads_floor n e = (omega arith, omega arith, omega arith)
