-- ===== src/Assets.antt =====
-- crates/terminald-server/src/assets.rs: which file answers a request. Paths are their bytes. The
-- files embedded by `rust_embed` and the contents of the file system are parameters.
pub mod Paths
pub mod Loading
pub mod Index
pub mod Tests
use terminald.Base.{
  ℕ, List, [], ◌∷◌, ◌++◌, Option, none, some, Bool, true, false, not, ◌&&◌, ◌||◌, Bytes, codes,
  drop, contains, Error, message, context, Result, ok, err, String, if◌then◌else◌,
}
use terminald.Text.{bytes_eq, starts_with, ends_with, split, last_segment, trim_start_matches, find}
use terminald.Http.{Response}

-- `Arc<PathBuf>` is its bytes.
pub record AssetConfig : Type 0 where
  pub external_dist : Option Bytes
  pub use_embedded_dist : Bool

-- `AssetConfig::embedded`
abbrev pub embedded : AssetConfig
embedded = record { external_dist = none; use_embedded_dist = true }

-- `AssetConfig::with_external_dist`
abbrev pub with_external_dist : Bytes → AssetConfig
with_external_dist path = record { external_dist = some path; use_embedded_dist = true }

-- `AssetConfig::embedded_fallback_only`
abbrev pub embedded_fallback_only : AssetConfig
embedded_fallback_only = record { external_dist = none; use_embedded_dist = false }

pub record Asset : Type 0 where
  pub bytes : Bytes
  pub content_type : Bytes

-- `Asset::into_response`
abbrev pub asset_response : Asset → Response
asset_response asset = record {
  status = 200;
  headers = ("content-type", asset.content_type) ∷ [];
  body = asset.bytes;
}

-- `tokio::fs::read`, where an error is `none`.
abbrev pub FileSystem : Type 0
FileSystem = Bytes → Option Bytes

-- `EmbeddedAssets::get`, which `rust_embed` generates from the folder `assets`.
abbrev pub EmbeddedFiles : Type 0
EmbeddedFiles = Bytes → Option Bytes

-- `segments.any(|segment| segment == "..")`
any_parent : List Bytes → Bool
unfolding bytes_eq
any_parent [] = false
any_parent (p ∷ ps) = bytes_eq p (codes "..") || any_parent ps

unfoldable pub has_parent_segment : Bytes → Bool
unfolding any_parent split
has_parent_segment path = any_parent (split b'/' path)

unfoldable pub path_has_extension : Bytes → Bool
unfolding last_segment
path_has_extension path = contains b'.' (last_segment b'/' path)

abbrev is_empty : Bytes → Bool
is_empty [] = true
is_empty (b ∷ bs) = false

from_assets : Bytes → Option ℕ → Bytes
from_assets path none = path
from_assets path (some index) = drop index path

relative_of_trimmed : Bytes → Bytes
unfolding path_has_extension find from_assets
relative_of_trimmed path =
    if is_empty path || not (path_has_extension path)
    then codes "index.html"
    else from_assets path (find (codes "assets/") path)

unfoldable pub asset_relative_path : Bytes → Bytes
unfolding relative_of_trimmed trim_start_matches
asset_relative_path request_path = relative_of_trimmed (trim_start_matches b'/' request_path)

-- `path.rsplit('.').next()` against the known extensions.
unfoldable pub content_type : Bytes → Bytes
unfolding last_segment bytes_eq
content_type path =
    if bytes_eq (last_segment b'.' path) (codes "html")
    then codes "text/html; charset=utf-8"
    else if bytes_eq (last_segment b'.' path) (codes "css")
    then codes "text/css; charset=utf-8"
    else if bytes_eq (last_segment b'.' path) (codes "js")
    then codes "text/javascript; charset=utf-8"
    else codes "application/octet-stream"

-- `PathBuf::join`: an absolute path replaces the root, and no second separator is written.
unfoldable pub join : Bytes → Bytes → Bytes
unfolding starts_with ends_with
join root path =
    if starts_with path (codes "/")
    then path
    else if is_empty root || ends_with root (codes "/")
    then root ++ path
    else root ++ b'/' ∷ path

unfoldable pub embedded_lookup_candidates : Bytes → List Bytes
embedded_lookup_candidates path = (codes "dist/" ++ path) ∷ path ∷ []

-- `candidates.filter(…).find(|candidate| exists(candidate))`
first_candidate : Bool → (Bytes → Bool) → List Bytes → Option Bytes
unfolding starts_with
first_candidate use_dist exists [] = none
first_candidate use_dist exists (c ∷ cs) =
    if (use_dist || not (starts_with c (codes "dist/"))) && exists c
    then some c
    else first_candidate use_dist exists cs

unfoldable pub select_embedded_candidate : Bytes → Bool → (Bytes → Bool) → Option Bytes
unfolding embedded_lookup_candidates first_candidate
select_embedded_candidate path use_dist exists =
    first_candidate use_dist exists (embedded_lookup_candidates path)

abbrev is_some : Option Bytes → Bool
is_some none = false
is_some (some b) = true

embedded_file : Bytes → Option Bytes → Result (Option Asset)
unfolding content_type
embedded_file path none = err (context "load embedded asset" (message "embedded asset disappeared"))
embedded_file path (some bytes) =
    ok (some (record { bytes = bytes; content_type = content_type path }))

embedded_choice : EmbeddedFiles → Bytes → Option Bytes → Result (Option Asset)
unfolding embedded_file
embedded_choice files path none = ok none
embedded_choice files path (some candidate) = embedded_file path (files candidate)

unfoldable pub embedded_asset : EmbeddedFiles → Bytes → Bool → Result (Option Asset)
unfolding embedded_choice select_embedded_candidate
embedded_asset files path use_dist =
    embedded_choice files path (select_embedded_candidate path use_dist (λ c. is_some (files c)))

external_file : Bytes → Option Bytes → Result (Option Asset) → Result (Option Asset)
unfolding content_type
external_file relative none fallback = fallback
external_file relative (some bytes) fallback =
    ok (some (record { bytes = bytes; content_type = content_type relative }))

external_asset : FileSystem → Option Bytes → Bytes → Result (Option Asset) → Result (Option Asset)
unfolding external_file join
external_asset fs none relative fallback = fallback
external_asset fs (some root) relative fallback =
    external_file relative (fs (join root relative)) fallback

-- `AssetConfig::load`
unfoldable pub load : FileSystem → EmbeddedFiles → AssetConfig → Bytes → Result (Option Asset)
unfolding has_parent_segment asset_relative_path external_asset embedded_asset
load fs files config request_path =
    if has_parent_segment request_path
    then ok none
    else external_asset fs config.external_dist (asset_relative_path request_path)
        (embedded_asset files (asset_relative_path request_path) config.use_embedded_dist)
