-- ===== src/Server/Listening.antt =====
-- Which socket the server binds.
use terminald.Base.{
  ℕ, Option, none, some, ◌≡◌, Bytes, IpAddr, Result, ok, >>=-eq-ok, with_context-eq-ok,
  with_shown_context-eq-ok,
}
use terminald.Server.{ServerConfig, Network, serve, serve_on}

-- With a Unix socket in the configuration the server binds no TCP socket: what `TcpListener::bind`
-- would do does not bear on the result.
pub serve_unix_only :
    (net : Network) (bind : IpAddr → ℕ → Result ℕ) (config : ServerConfig) (path : Bytes)
    → config.unix_socket ≡ some path
    → serve net config ≡ serve (record net { bind_tcp = bind }) config
unfolding serve
serve_unix_only net bind config path h = rw h

-- Without one it binds no Unix socket.
pub serve_tcp_only :
    (net : Network) (bind : Bytes → Result ℕ) (config : ServerConfig)
    → config.unix_socket ≡ none
    → serve net config ≡ serve (record net { bind_unix = bind }) config
unfolding serve
serve_tcp_only net bind config h = rw h

-- The listener is bound to the Unix socket if there is one, else to the host and port.
abbrev pub BoundTo : Network → ServerConfig → Option Bytes → ℕ → Type 0
BoundTo net config (some path) listener = net.bind_unix path ≡ ok listener
BoundTo net config none listener = net.bind_tcp config.host config.port ≡ ok listener

serve_on_bound :
    (net : Network) (config : ServerConfig) (o : Option Bytes)
    → serve_on net config o ≡ ok tt
    → (listener : ℕ) × BoundTo net config o listener × (net.run listener config ≡ ok tt)
unfolding serve_on
serve_on_bound net config none h =
    let (l, bound, ran) = >>=-eq-ok _ _ h in
    (l, with_shown_context-eq-ok _ _ _ bound, with_context-eq-ok _ _ ran)
serve_on_bound net config (some path) h =
    let (l, bound, ran) = >>=-eq-ok _ _ h in
    (l, with_shown_context-eq-ok _ _ _ bound, with_context-eq-ok _ _ ran)

-- A server that returns with success has bound one listener and served on it: the Unix socket if one
-- is configured, the host and port otherwise.
pub serve_bound :
    (net : Network) (config : ServerConfig)
    → serve net config ≡ ok tt
    → (listener : ℕ) × BoundTo net config config.unix_socket listener
      × (net.run listener config ≡ ok tt)
unfolding serve
serve_bound net config h = serve_on_bound net config config.unix_socket h
