-- ===== src/Cli/Client/Header.antt =====
-- Which server lets a client in.
use terminald.Base.{some, true, ◌≡◌, ◌↔◌, refl, ap, ◌∙◌, inl, inr}
use terminald.Http.{HeaderMap, HttpCrate, IsHttp, Base64, IsBase64}
use terminald.Auth.{Credential, basic, validate_headers}
use terminald.Auth.Credentials.{IsCredential}
use terminald.Auth.Access.{
  authorization_value, authorization_value_injective, Grants, validate_headers_iff,
}
use terminald.Cli.Client.{basic_auth_header}

module _ (http : HttpCrate) (lawful : IsHttp http) (base64 : Base64) (coder : IsBase64 base64) where
  granted :
      (c d : Credential) (headers : HeaderMap)
      → IsCredential c
      → IsCredential d
      → headers "authorization" ≡ some (authorization_value base64 c)
      → Grants base64 (basic d) headers
      → c ≡ d
  granted c d headers hc hd h (inl e) = cc
  granted c d headers hc hd h (inr (x, same, value)) =
      authorization_value_injective base64 coder c d hc hd cc

  -- A server with a credential lets a client in exactly when the client was given the same credential:
  -- the header that the one makes is the header that the other asks for.
  pub basic_auth_header-validate_headers :
      (c d : Credential) (headers : HeaderMap)
      → IsCredential c
      → IsCredential d
      → headers "authorization" ≡ basic_auth_header base64 (some c)
      → (validate_headers http base64 (basic d) headers ≡ true) ↔ (c ≡ d)
  unfolding basic_auth_header
  basic_auth_header-validate_headers c d headers hc hd h =
      let iff = validate_headers_iff http lawful base64 coder (basic d) headers in
      (
        λ accepted. granted c d headers hc hd h (iff.0 accepted),
        λ same. iff.1 (inr (d, refl, h ∙ ap (λ x. some (authorization_value base64 x)) same)),
      )
