-- ===== src/Routes/Tests.antt =====
-- Requests at a concrete server: the unit tests of routes.rs, and the theorems at concrete inputs.
use terminald.Base.{
  if◌then◌else◌, [], ◌∷◌, Option, none, true, false, ◌≡◌, ◌≢◌, ◌↔◌, refl, inl, inr, Bytes, codes,
}
use terminald.Http.{HeaderMap, get, Request, Response}
use terminald.Auth.{
  basic, disabled, authorized, authorize_request, validate_headers, rejection_response,
}
use terminald.Auth.Tests.{ascii_http, ascii_http-IsHttp, runs, runs-IsBase64, alice}
use terminald.Auth.Access.{Grants}
use terminald.Assets.Tests.{index_files, no_file, site}
use terminald.Assets.{has_parent_segment}
use terminald.Text.{bytes_eq, ends_with}
use terminald.Routes.{
  AppState, Services, status_response, reply, redirect, socket, authorize, page, dispatch,
  is_extensionless_without_trailing_slash,
}
use terminald.Routes.Gate.{IsSocketPath, dispatch_unauthorized, dispatch_socket_iff}
use terminald.Routes.Segments.{IsPagePath, IsBare}
use terminald.Routes.Pages.{dispatch_redirect_followed, dispatch_redirect_iff}

abbrev no_headers : HeaderMap
no_headers name = none

abbrev accept_upgrade : Request → Option Response
accept_upgrade request = none

abbrev services : Services
services = record {
  http = ascii_http;
  base64 = runs;
  fs = no_file;
  files = index_files;
  upgrade_rejection = accept_upgrade;
  render = λ e. [];
}

abbrev open_state : AppState
open_state = record { auth = disabled; assets = site; command = codes "sh" ∷ [] }

abbrev closed_state : AppState
closed_state = record open_state { auth = basic alice }

abbrev get_request : Bytes → Request
get_request path = record { method = get; path = path; headers = no_headers }

extensionless_paths :
    (is_extensionless_without_trailing_slash (codes "/session") get ≡ true)
    × (is_extensionless_without_trailing_slash (codes "/a.js") get ≡ false)
    × (is_extensionless_without_trailing_slash (codes "/base/ws") get ≡ false)
unfolding is_extensionless_without_trailing_slash
extensionless_paths = (refl, refl, refl)

-- `//evil.test/x` is redirected to a location that a browser reads as a host and a path.
names_a_host :
    dispatch services open_state (get_request (codes "//evil.test/x"))
    ≡ redirect (codes "//evil.test/x/")
unfolding dispatch authorize page authorize_request validate_headers bytes_eq ends_with
    is_extensionless_without_trailing_slash
names_a_host = refl

no_grant : ¬ Grants runs (basic alice) no_headers
no_grant (inl e) = cc
no_grant (inr (c, e, v)) = cc

dispatch_unauthorized_example :
    dispatch services closed_state (get_request (codes "/ws")) ≡ reply rejection_response
dispatch_unauthorized_example =
    dispatch_unauthorized services closed_state (get_request (codes "/ws")) ascii_http-IsHttp
      runs-IsBase64 no_grant

dispatch_socket_iff_example :
    (dispatch services open_state (get_request (codes "/app/ws")) ≡ socket (codes "sh" ∷ [])) ↔ (
      (authorize services open_state (get_request (codes "/app/ws")) ≡ authorized)
      × (codes "sh" ∷ [] ≡ open_state.command)
      × IsSocketPath (codes "/app/ws")
      × (accept_upgrade (get_request (codes "/app/ws")) ≡ none))
dispatch_socket_iff_example =
    dispatch_socket_iff services open_state (get_request (codes "/app/ws")) (codes "sh" ∷ [])

-- The location names another host.
open_redirect :
    dispatch services open_state (get_request (codes "//evil.test/x"))
    ≡ redirect (codes "//evil.test/x/")
unfolding dispatch authorize page authorize_request validate_headers bytes_eq ends_with
    is_extensionless_without_trailing_slash
open_redirect = refl

dispatch_redirect_iff_example :
    (dispatch services open_state (get_request (codes "//evil.test/x"))
      ≡ redirect (codes "//evil.test/x/"))
    ↔ ((authorize services open_state (get_request (codes "//evil.test/x")) ≡ authorized)
        × IsPagePath (codes "//evil.test/x")
        × (get ≡ get)
        × IsBare (codes "//evil.test/x")
        × (codes "//evil.test/x/" ≡ codes "//evil.test/x/"))
dispatch_redirect_iff_example =
    dispatch_redirect_iff services open_state (get_request (codes "//evil.test/x"))
      (codes "//evil.test/x/")

session_redirect :
    dispatch services open_state (get_request (codes "/session")) ≡ redirect (codes "/session/")
unfolding dispatch authorize page authorize_request validate_headers bytes_eq ends_with
    is_extensionless_without_trailing_slash
session_redirect = refl

dispatch_redirect_followed_example :
    (dispatch services open_state (get_request (codes "/session/")) ≡ (
      if has_parent_segment (codes "/session")
      then reply (status_response 404)
      else dispatch services open_state (get_request (codes "/"))))
    × ((next : Bytes)
        → dispatch services open_state (get_request (codes "/session/")) ≢ redirect next)
dispatch_redirect_followed_example =
    dispatch_redirect_followed services open_state (get_request (codes "/session"))
      (codes "/session/") session_redirect
