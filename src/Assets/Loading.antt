-- ===== src/Assets/Loading.antt =====
-- Which file a request is answered with, and what the file system is asked for.
use terminald.Base.{
  List, [], ◌∷◌, ◌++◌, All, ◌≢◌, Option, none, some, Bool, true, false, not, ◌||◌, ◌≡◌, refl, ◌⊎◌,
  inl, inr, arith, Bytes, codes, Result, ok, if◌then◌else◌, Bool-cases,
}
use terminald.Text.{starts_with, ends_with, split}
use terminald.Text.Split.{bytes_eq_refl}
use terminald.Text.Find.{starts_with-append, ends_with_sound}
use terminald.Assets.{
  AssetConfig, Asset, FileSystem, EmbeddedFiles, any_parent, has_parent_segment,
  asset_relative_path, content_type, join, is_empty, embedded_asset, external_file, external_asset,
  load,
}
use terminald.Assets.Paths.{IsContained, asset_relative_path-IsContained}

-- A path that is not absolute and has no segment `..`.
abbrev pub IsRelative : Bytes → Type 0
IsRelative path =
    ((t : Bytes) → path ≢ b'/' ∷ t) × All (λ segment. segment ≢ codes "..") (split b'/' path)

-- A root behind which a path needs no separator: the working directory, or one that ends in a slash.
abbrev pub IsOpenRoot : Bytes → Type 0
IsOpenRoot root = (root ≡ []) ⊎ ((folder : Bytes) × (root ≡ folder ++ b'/' ∷ []))

-- The path is that of a file below the root: a relative path behind it and a separator.
abbrev pub IsBelow : Bytes → Bytes → Type 0
IsBelow root path =
    (relative : Bytes) × IsRelative relative
    × ((path ≡ root ++ b'/' ∷ relative) ⊎ (IsOpenRoot root × (path ≡ root ++ relative)))

no_parent :
    (segments : List Bytes)
    → any_parent segments ≡ false
    → All (λ segment. segment ≢ codes "..") segments
unfolding any_parent
no_parent [] h = tt
no_parent (p ∷ ps) h =
    (λ e. let same = rw (e, bytes_eq_refl (codes "..")) at h in cc, no_parent ps (ground arith))

contained-IsRelative : (path : Bytes) → IsContained path → IsRelative path
unfolding has_parent_segment
contained-IsRelative path (relative, inside) = (
  λ t e. let slash = rw (e, starts_with-append (codes "/") t) at relative in cc,
  no_parent (split b'/' path) inside,
)

open_root : (root : Bytes) → (is_empty root || ends_with root (codes "/")) ≡ true → IsOpenRoot root
open_root [] h = inl refl
open_root (c ∷ root) h = inr (ends_with_sound (c ∷ root) (codes "/") h)

join-IsBelow : (root relative : Bytes) → IsContained relative → IsBelow root (join root relative)
unfolding join
join-IsBelow root relative h = (
  relative,
  contained-IsRelative relative h,
  elim (Bool-cases (is_empty root || ends_with root (codes "/"))) [
    | inl e ↦ inr (open_root root e, rw (h.0, e))
    | inr n ↦ inl (rw (h.0, n))
  ],
)

module _ (files : EmbeddedFiles) (config : AssetConfig) where
  external_asset_same :
      (fs fs' : FileSystem) (o : Option Bytes) (relative : Bytes) (r : Result (Option Asset))
      → IsContained relative
      → ((root path : Bytes) → o ≡ some root → IsBelow root path → fs path ≡ fs' path)
      → external_asset fs o relative r ≡ external_asset fs' o relative r
  unfolding external_asset
  external_asset_same fs fs' none relative r h agree = refl
  external_asset_same fs fs' (some root) relative r h agree =
      rw (agree root (join root relative) refl (join-IsBelow root relative h))

  -- `load` reads only below the external root: two file systems that agree there answer alike. Below is
  -- behind the root and a separator, by a path that is not absolute and has no segment `..`.
  pub load_reads_below :
      (fs fs' : FileSystem) (path : Bytes)
      → ((root file : Bytes)
          → config.external_dist ≡ some root
          → IsBelow root file
          → fs file ≡ fs' file)
      → load fs files config path ≡ load fs' files config path
  unfolding load
  load_reads_below fs fs' path agree = elim (Bool-cases (has_parent_segment path)) [
    | inl e ↦ rw e
    | inr n ↦ rw n (
        external_asset_same fs fs' config.external_dist (asset_relative_path path) _
          (asset_relative_path-IsContained path n) agree)
  ]

  -- A path with a `..` segment is not found, and nothing is read for it.
  pub load_parent :
      (fs : FileSystem) (path : Bytes)
      → has_parent_segment path ≡ true
      → load fs files config path ≡ ok none
  unfolding load
  load_parent fs path h = rw h

abbrev or_else : Option Bytes → Option Bytes → Option Bytes
or_else none y = y
or_else (some b) y = some b

abbrev external_source : FileSystem → Option Bytes → Bytes → Option Bytes
external_source fs none relative = none
external_source fs (some root) relative = fs (join root relative)

-- The file below the external root, else that of the generated folder, else the embedded one.
abbrev pub source_of : FileSystem → EmbeddedFiles → AssetConfig → Bytes → Option Bytes
source_of fs files config relative = or_else (external_source fs config.external_dist relative) (
    or_else (if config.use_embedded_dist then files (codes "dist/" ++ relative) else none) (
      if config.use_embedded_dist || not (starts_with relative (codes "dist/"))
      then files relative
      else none))

abbrev pub served : Bytes → Option Bytes → Option Asset
served relative none = none
served relative (some bytes) = some (record { bytes = bytes; content_type = content_type relative })

external_file_lem :
    (relative : Bytes) (o x : Option Bytes)
    → external_file relative o (ok (served relative x)) ≡ ok (served relative (or_else o x))
unfolding external_file
external_file_lem relative none x = refl
external_file_lem relative (some bytes) x = refl

external_asset_lem :
    (fs : FileSystem) (o : Option Bytes) (relative : Bytes) (x : Option Bytes)
    → external_asset fs o relative (ok (served relative x))
      ≡ ok (served relative (or_else (external_source fs o relative) x))
unfolding external_asset
external_asset_lem fs none relative x = refl
external_asset_lem fs (some root) relative x =
    external_file_lem relative (fs (join root relative)) x

module _ (files : EmbeddedFiles) where
  starts_with_dist : (path : Bytes) → starts_with (codes "dist/" ++ path) (codes "dist/") ≡ true
  unfolding starts_with
  starts_with_dist path = refl

  embedded_asset_lem :
      (path : Bytes) (use_dist : Bool)
      → embedded_asset files path use_dist
        ≡ ok (
            served path (
              or_else
                (if use_dist then files (codes "dist/" ++ path) else none)
                (if use_dist || not (starts_with path (codes "dist/")) then files path else none)))
  unfolding embedded_asset
  embedded_asset_lem path true = ground arith
  embedded_asset_lem path false = ground arith

  -- `load` answers a path with no `..` segment with the first of three sources: the file below the
  -- external root, the one of the generated folder (if it is used), the embedded one. It never fails.
  pub load_order :
      (fs : FileSystem) (config : AssetConfig) (path : Bytes)
      → has_parent_segment path ≡ false
      → let relative = asset_relative_path path in
        load fs files config path ≡ ok (served relative (source_of fs files config relative))
  unfolding load
  load_order fs config path h =
      rw (h, embedded_asset_lem (asset_relative_path path) config.use_embedded_dist)
        (external_asset_lem fs config.external_dist (asset_relative_path path) _)
