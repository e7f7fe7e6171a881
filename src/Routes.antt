-- ===== src/Routes.antt =====
-- crates/terminald-server/src/routes.rs: how a request is dispatched. `axum` hands every path to
-- `dispatch`; its websocket handshake and the text of an error are parameters.
pub mod Paths
pub mod Gate
pub mod Segments
pub mod Pages
pub mod Tests
use terminald.Base.{
  ℕ, List, [], ◌∷◌, ◌++◌, Option, none, some, Bool, true, false, not, ◌&&◌, ◌||◌, Bytes, codes,
  contains, Error, Result, ok, err, if◌then◌else◌,
}
use terminald.Text.{bytes_eq, ends_with, last_segment}
use terminald.Http.{HttpCrate, Base64, Method, get, other, Request, Response}
use terminald.Auth.{
  AuthConfig, Authorization, authorized, rejected, authorize_request, rejection_response,
}
use terminald.Assets.{AssetConfig, Asset, asset_response, FileSystem, EmbeddedFiles, load}
use terminald.Server.{ServerConfig}

pub record AppState : Type 0 where
  pub auth : AuthConfig
  pub assets : AssetConfig
  pub command : List Bytes

-- The state that `app` gives its router.
abbrev pub app : ServerConfig → AppState
app config = record { auth = config.auth; assets = config.assets; command = config.command }

-- What `dispatch` uses and does not define: `WebSocketUpgrade::from_request_parts` (`some` is its
-- rejection), and `format!("{error:#}")`.
pub record Services : Type 0 where
  pub http : HttpCrate
  pub base64 : Base64
  pub fs : FileSystem
  pub files : EmbeddedFiles
  pub upgrade_rejection : Request → Option Response
  pub render : Error → Bytes

-- `reply` is a response that is built here, `redirect` is `Redirect::permanent`, and `socket` is an
-- upgraded connection whose socket is handled with the command.
pub data Outcome : Type 0 where
  reply : Response → Outcome
  redirect : Bytes → Outcome
  socket : List Bytes → Outcome

abbrev pub status_response : ℕ → Response
status_response code = record { status = code; headers = []; body = [] }

unfoldable pub path_final_segment_has_extension : Bytes → Bool
unfolding last_segment
path_final_segment_has_extension path = contains b'.' (last_segment b'/' path)

abbrev is_get : Method → Bool
is_get get = true
is_get (other m) = false

unfoldable pub is_extensionless_without_trailing_slash : Bytes → Method → Bool
unfolding bytes_eq ends_with path_final_segment_has_extension
is_extensionless_without_trailing_slash path method =
    is_get method
    && not (bytes_eq path (codes "/"))
    && not (ends_with path (codes "/"))
    && not (ends_with path (codes "/ws"))
    && not (ends_with path (codes "/auth/check"))
    && not (path_final_segment_has_extension path)

-- `auth_check`
abbrev auth_check : Authorization → Outcome
auth_check authorized = reply (status_response 204)
auth_check rejected = reply rejection_response

abbrev gate : Authorization → Outcome → Outcome
gate authorized outcome = outcome
gate rejected outcome = reply rejection_response

unfoldable pub upgrade : Option Response → List Bytes → Outcome
upgrade none command = socket command
upgrade (some rejection) command = reply rejection

unfoldable pub answer : (Error → Bytes) → Result (Option Asset) → Outcome
answer render (ok (some asset)) = reply (asset_response asset)
answer render (ok none) = reply (status_response 404)
answer render (err e) = reply (record { status = 500; headers = []; body = render e })

module _ (services : Services) where
  unfoldable pub authorize : AppState → Request → Authorization
  authorize state request = authorize_request services.http services.base64 state.auth request

  unfoldable pub page : AppState → Request → Outcome
  page state request =
      if is_extensionless_without_trailing_slash request.path request.method
      then redirect (request.path ++ codes "/")
      else answer services.render (load services.fs services.files state.assets request.path)

  unfoldable pub dispatch : AppState → Request → Outcome
  dispatch state request =
      if ends_with request.path (codes "/auth/check") || bytes_eq request.path (codes "/auth/check")
      then auth_check (authorize state request)
      else if ends_with request.path (codes "/ws") || bytes_eq request.path (codes "/ws")
      then gate (authorize state request)
          (upgrade (services.upgrade_rejection request) state.command)
      else gate (authorize state request) (page state request)
