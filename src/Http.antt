-- ===== src/Http.antt =====
-- HTTP as the server's code sees it. The crates `http`, `axum` and `base64` are parameters: a header
-- map is seen through its `get`, and what the code relies on is stated in `IsHttp` and `IsBase64`.
use terminald.Base.{ℕ, ◌≤◌, List, Option, some, ◌≡◌, Bytes, All, String}

-- `HeaderMap`, as the function from a header's name to its first value.
abbrev pub HeaderMap : Type 0
HeaderMap = String → Option Bytes

pub data Method : Type 0 where
  get : Method
  other : Bytes → Method

-- `Request<Body>`: the path is that of the URI, not decoded, and the body is not read.
pub record Request : Type 0 where
  pub method : Method
  pub path : Bytes
  pub headers : HeaderMap

-- The responses that handlers build, with the headers that they set.
pub record Response : Type 0 where
  pub status : ℕ
  pub headers : List (String × Bytes)
  pub body : Bytes

-- Visible ASCII.
abbrev pub IsVisible : ℕ → Type 0
IsVisible b = (0x20 ≤ b) × (b ≤ 0x7e)

-- `HeaderValue::to_str`.
pub record HttpCrate : Type 0 where
  pub to_str : Bytes → Option Bytes

-- It gives the value as it is, and does so for visible ASCII.
pub record IsHttp (http : HttpCrate) : Type 0 where
  pub same : (v s : Bytes) → http.to_str v ≡ some s → s ≡ v
  pub visible : (v : Bytes) → All IsVisible v → http.to_str v ≡ some v

-- The engine `STANDARD` of the crate `base64`.
pub record Base64 : Type 0 where
  pub encode : Bytes → Bytes
  pub decode : Bytes → Option Bytes

-- The code is visible ASCII and can be decoded.
pub record IsBase64 (base64 : Base64) : Type 0 where
  pub decodes : (s : Bytes) → base64.decode (base64.encode s) ≡ some s
  pub encode_visible : (s : Bytes) → All IsVisible (base64.encode s)
