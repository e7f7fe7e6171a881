-- ===== src/Auth/Access.antt =====
-- Who is let in.
use terminald.Base.{
  ◌++◌, Option, none, some, true, ◌≡◌, ◌↔◌, refl, sym, ap, ◌∙◌, ◌⊎◌, inl, inr, arith, Bytes, All,
  All-append, codes,
}
use terminald.Text.{strip_prefix}
use terminald.Text.Split.{strip_prefix_sound}
use terminald.Http.{HeaderMap, HttpCrate, IsHttp, Base64, IsBase64, IsVisible, Request}
use terminald.Auth.{
  Credential, AuthConfig, encoded, to_basic_pair, validate_headers, validate_credential,
  validate_value, validate_text, validate_encoded, authorize_request, authorized,
}
use terminald.Auth.Credentials.{IsCredential, to_basic_pair_injective}
use terminald.Auth.Compare.{constant_time_eq_iff}

-- The header value that names a credential.
abbrev pub authorization_value : Base64 → Credential → Bytes
authorization_value base64 c = codes "Basic " ++ base64.encode (to_basic_pair c)

-- The configuration asks for nothing, or the first `Authorization` header names its credential.
abbrev pub Grants : Base64 → AuthConfig → HeaderMap → Type 0
Grants base64 config headers =
    (config.credential ≡ none)
    ⊎ ((c : Credential) × (config.credential ≡ some c)
        × (headers "authorization" ≡ some (authorization_value base64 c)))

module _ (http : HttpCrate) (lawful : IsHttp http) (base64 : Base64) (coder : IsBase64 base64) where
  basic_IsVisible : All IsVisible (codes "Basic ")
  basic_IsVisible = omega arith

  authorization_value-IsVisible : (c : Credential) → All IsVisible (authorization_value base64 c)
  authorization_value-IsVisible c =
      All-append IsVisible (codes "Basic ") _ basic_IsVisible
        (coder.encode_visible (to_basic_pair c))

  validate_value_complete :
      (c : Credential) → validate_value http base64 c (some (authorization_value base64 c)) ≡ true
  unfolding validate_value strip_prefix encoded to_basic_pair
  validate_value_complete c =
      rw (lawful.visible _ (authorization_value-IsVisible c)) ((constant_time_eq_iff _ _).1 refl)

  validate_encoded_sound :
      (c : Credential) (o : Option Bytes)
      → validate_encoded http base64 c o ≡ true
      → o ≡ some (base64.encode (to_basic_pair c))
  unfolding validate_encoded encoded to_basic_pair
  validate_encoded_sound c none h = cc
  validate_encoded_sound c (some code) h = ap some ((constant_time_eq_iff _ _).0 h)

  validate_text_sound :
      (c : Credential) (o : Option Bytes)
      → validate_text http base64 c o ≡ true
      → o ≡ some (authorization_value base64 c)
  unfolding validate_text
  validate_text_sound c none h = cc
  validate_text_sound c (some value) h =
      ap some (strip_prefix_sound (codes "Basic ") value (validate_encoded_sound c _ h))

  validate_value_sound :
      (c : Credential) (o : Option Bytes)
      → validate_value http base64 c o ≡ true
      → o ≡ some (authorization_value base64 c)
  unfolding validate_value
  validate_value_sound c none h = cc
  validate_value_sound c (some value) h =
      ap some (sym (lawful.same value _ (validate_text_sound c (http.to_str value) h)))

  credential_sound :
      (o : Option Credential) (headers : HeaderMap)
      → validate_credential http base64 o headers ≡ true
      → Grants base64 (record { credential = o }) headers
  unfolding validate_credential
  credential_sound none headers h = inl refl
  credential_sound (some c) headers h = inr (c, refl, validate_value_sound c _ h)

  credential_complete :
      (o : Option Credential) (headers : HeaderMap)
      → Grants base64 (record { credential = o }) headers
      → validate_credential http base64 o headers ≡ true
  unfolding validate_credential
  credential_complete none headers g = refl
  credential_complete (some c) headers (inl e) = cc
  credential_complete (some c) headers (inr (d, e, value)) =
      let same : c ≡ d = cc in rw (same, value) (validate_value_complete d)

  -- Headers are accepted exactly when authentication is off, or when the first `Authorization` header
  -- is `Basic ` with the code of the configured credential.
  pub validate_headers_iff :
      (config : AuthConfig) (headers : HeaderMap)
      → (validate_headers http base64 config headers ≡ true) ↔ Grants base64 config headers
  unfolding validate_headers
  validate_headers_iff config headers =
      (credential_sound config.credential headers, credential_complete config.credential headers)

  -- The same for a request.
  pub authorize_request_iff :
      (config : AuthConfig) (request : Request)
      → (authorize_request http base64 config request ≡ authorized)
        ↔ Grants base64 config request.headers
  unfolding authorize_request
  authorize_request_iff config request = (
    λ h. (validate_headers_iff config request.headers).0 (ground arith),
    λ g. rw ((validate_headers_iff config request.headers).1 g),
  )

module _ (base64 : Base64) (coder : IsBase64 base64) where
  -- The header value tells credentials apart.
  pub authorization_value_injective :
      (c d : Credential)
      → IsCredential c
      → IsCredential d
      → authorization_value base64 c ≡ authorization_value base64 d
      → c ≡ d
  authorization_value_injective c d hc hd e =
      let codes_agree : base64.encode (to_basic_pair c) ≡ base64.encode (to_basic_pair d) = cc in
      let read : some (to_basic_pair c) ≡ some (to_basic_pair d) =
        sym (coder.decodes (to_basic_pair c))
        ∙ ap base64.decode codes_agree
        ∙ coder.decodes (to_basic_pair d) in
      to_basic_pair_injective c d hc hd (cc)
