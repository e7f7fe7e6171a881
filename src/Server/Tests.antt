-- ===== src/Server/Tests.antt =====
-- The theorems on `serve` at a network that works.
use terminald.Base.{ℕ, [], ◌∷◌, some, ◌≡◌, refl, codes, IpAddr, v4, message, Result, ok, err}
use terminald.Server.{ServerConfig, Network, new}

abbrev working : Network
working = record {
  bind_unix = λ path. ok 3;
  bind_tcp = λ host port. ok 4;
  run = λ listener config. ok tt;
}

abbrev refuse_tcp : IpAddr → ℕ → Result ℕ
refuse_tcp host port = err (message "address in use")

abbrev on_tcp : ServerConfig
on_tcp = new 7681 (codes "sh" ∷ [])

abbrev on_socket : ServerConfig
on_socket = record on_tcp { unix_socket = some (codes "/run/t.sock") }

default_host : on_tcp.host ≡ v4 0 0 0 0
default_host = refl
