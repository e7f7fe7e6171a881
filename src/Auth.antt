-- ===== src/Auth.antt =====
-- crates/terminald-server/src/auth.rs: basic authentication. The loop of `constant_time_eq` is
-- `compare_rounds`; the rejection is the response of `IntoResponse for AuthRejection`.
pub mod Compare
pub mod Credentials
pub mod Pairs
pub mod Access
pub mod Tests
use Prim.Native.Nat.{bit_or, bit_xor}
use terminald.Base.{
  ℕ, zero, suc, max, List, [], ◌∷◌, ◌++◌, Option, none, some, Bool, true, false, Bytes, codes,
  length, ◌==◌, if◌then◌else◌,
}
use terminald.Text.{split_once, strip_prefix}
use terminald.Http.{HeaderMap, Request, Response, HttpCrate, Base64}

abbrev pub challenge : Bytes
challenge = codes "Basic realm=\"terminald\""

pub record Credential : Type 0 where
  pub username : Bytes
  pub password : Bytes

of_parts : Option (Bytes × Bytes) → Option Credential
of_parts none = none
of_parts (some (username, password)) = some (record { username = username; password = password })

-- `Credential::new`
unfoldable pub new : Bytes → Option Credential
unfolding of_parts
new value = of_parts (split_once b':' value)

-- `Credential::to_basic_pair`
unfoldable pub to_basic_pair : Credential → Bytes
to_basic_pair c = c.username ++ b':' ∷ c.password

-- `Credential::encoded`
unfoldable pub encoded : Base64 → Credential → Bytes
encoded base64 c = base64.encode (c.username ++ b':' ∷ c.password)

pub record AuthConfig : Type 0 where
  pub credential : Option Credential

-- `AuthConfig::disabled`
abbrev pub disabled : AuthConfig
disabled = record { credential = none }

-- `AuthConfig::basic`
abbrev pub basic : Credential → AuthConfig
basic c = record { credential = some c }

-- `AuthConfig::is_enabled`
unfoldable pub is_enabled : AuthConfig → Bool
is_enabled config = elim config.credential [ none ↦ false | some c ↦ true ]

-- `slice.get(index).copied().unwrap_or_default()`
unfoldable pub byte_at : Bytes → ℕ → ℕ
byte_at [] i = 0
byte_at (b ∷ bs) zero = b
byte_at (b ∷ bs) (suc i) = byte_at bs i

-- `for index in 0..max_len`, with the rounds left.
compare_rounds : ℕ → ℕ → Bytes → Bytes → ℕ → ℕ
unfolding byte_at
compare_rounds zero index left right diff = diff
compare_rounds (suc rounds) index left right diff =
    compare_rounds rounds (suc index) left right
      (bit_or diff (bit_xor (byte_at left index) (byte_at right index)))

unfoldable pub constant_time_eq : Bytes → Bytes → Bool
unfolding compare_rounds
constant_time_eq left right =
    compare_rounds (max (length left) (length right)) 0 left right
      (bit_xor (length left) (length right))
    == 0

module _ (http : HttpCrate) (base64 : Base64) where
  validate_encoded : Credential → Option Bytes → Bool
  validate_encoded c none = false
  validate_encoded c (some code) = constant_time_eq code (encoded base64 c)

  validate_text : Credential → Option Bytes → Bool
  unfolding validate_encoded
  validate_text c none = false
  validate_text c (some value) = validate_encoded c (strip_prefix (codes "Basic ") value)

  validate_value : Credential → Option Bytes → Bool
  unfolding validate_text
  validate_value c none = false
  validate_value c (some value) = validate_text c (http.to_str value)

  validate_credential : Option Credential → HeaderMap → Bool
  unfolding validate_value
  validate_credential none headers = true
  validate_credential (some c) headers = validate_value c (headers "authorization")

  -- `AuthConfig::validate_headers`; each early return is a case of a helper above.
  unfoldable pub validate_headers : AuthConfig → HeaderMap → Bool
  unfolding validate_credential
  validate_headers config headers = validate_credential config.credential headers

-- `Result<(), AuthRejection>`
pub data Authorization : Type 0 where
  authorized : Authorization
  rejected : Authorization

-- `AuthConfig::authorize_request`
unfoldable pub authorize_request : HttpCrate → Base64 → AuthConfig → Request → Authorization
authorize_request http base64 config request =
    if validate_headers http base64 config request.headers then authorized else rejected

-- `AuthRejection::into_response`
abbrev pub rejection_response : Response
rejection_response = record {
  status = 401;
  headers = ("www-authenticate", challenge) ∷ [];
  body = [];
}
