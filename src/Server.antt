-- ===== src/Server.antt =====
-- crates/terminald-server/src/server.rs: the configuration, and where `serve` listens. Binding a
-- socket and serving on a listener are parameters.
pub mod Listening
pub mod Tests
use terminald.Base.{
  ℕ, List, Option, none, some, Bytes, IpAddr, v4, text, address, Result, ok, err, ◌>>=◌,
  with_context, with_shown_context,
}
use terminald.Auth.{AuthConfig, disabled}
use terminald.Assets.{AssetConfig, embedded}

pub record ServerConfig : Type 0 where
  pub unix_socket : Option Bytes
  pub host : IpAddr
  pub port : ℕ
  pub command : List Bytes
  pub auth : AuthConfig
  pub assets : AssetConfig

-- `ServerConfig::new`; `Ipv4Addr::UNSPECIFIED` is 0.0.0.0.
abbrev pub new : ℕ → List Bytes → ServerConfig
new port command = record {
  unix_socket = none;
  host = v4 0 0 0 0;
  port = port;
  command = command;
  auth = disabled;
  assets = embedded;
}

-- `UnixListener::bind`, `TcpListener::bind` and `axum::serve` with the router of this configuration.
-- A listener is a number, such as its file descriptor.
pub record Network : Type 0 where
  pub bind_unix : Bytes → Result ℕ
  pub bind_tcp : IpAddr → ℕ → Result ℕ
  pub run : ℕ → ServerConfig → Result (Unit {0})

serve_unix : Network → ServerConfig → Bytes → Result (Unit {0})
serve_unix net config path = do
  listener ← with_shown_context (net.bind_unix path) "bind terminald Unix socket " (text path)
  with_context (net.run listener config) "serve terminald Unix HTTP server"

serve_tcp : Network → ServerConfig → Result (Unit {0})
serve_tcp net config = do
  listener ←
      with_shown_context (net.bind_tcp config.host config.port) "bind terminald server on "
        (address config.host config.port)
  with_context (net.run listener config) "serve terminald HTTP server"

serve_on : Network → ServerConfig → Option Bytes → Result (Unit {0})
unfolding serve_unix serve_tcp
serve_on net config none = serve_tcp net config
serve_on net config (some path) = serve_unix net config path

unfoldable pub serve : Network → ServerConfig → Result (Unit {0})
unfolding serve_on
serve net config = serve_on net config config.unix_socket
