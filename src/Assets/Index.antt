-- ===== src/Assets/Index.antt =====
-- A path with a slash at its end leads to the index page.
use terminald.Base.{
  [], ◌∷◌, ◌++◌, false, ◌≡◌, refl, sym, ap, ◌∙◌, ◌⊎◌, inl, inr, arith, Bytes, codes, ◌==◌, ok,
  Bool-cases,
}
use terminald.Text.{trim_start_matches}
use terminald.Text.Split.{last_segment-append}
use terminald.Assets.{
  AssetConfig, FileSystem, EmbeddedFiles, has_parent_segment, path_has_extension,
  relative_of_trimmed, asset_relative_path, load,
}
use terminald.Assets.Paths.{has_parent_segment-append}
use terminald.Assets.Loading.{served, source_of, load_order}

trim_slash :
    (s : Bytes)
    → (trim_start_matches b'/' (s ++ codes "/") ≡ [])
      ⊎ ((t : Bytes) × (trim_start_matches b'/' (s ++ codes "/") ≡ t ++ codes "/"))
unfolding trim_start_matches
trim_slash [] = inl refl
trim_slash (c ∷ s) = elim (Bool-cases (c == b'/')) [
  | inl e ↦ rw e (trim_slash s)
  | inr n ↦ inr (c ∷ s, rw n)
]

no_extension_slash : (t : Bytes) → path_has_extension (t ++ codes "/") ≡ false
unfolding path_has_extension
no_extension_slash t = rw last_segment-append

relative_slash : (t : Bytes) → relative_of_trimmed (t ++ codes "/") ≡ codes "index.html"
unfolding relative_of_trimmed
relative_slash t = let e = no_extension_slash t in ground arith

-- A path with a slash at its end leads to the index page.
asset_relative_path_slash : (s : Bytes) → asset_relative_path (s ++ codes "/") ≡ codes "index.html"
unfolding asset_relative_path
asset_relative_path_slash s = elim (trim_slash s) [
  | inl e ↦ rw e
  | inr (t, e) ↦ rw e (relative_slash t)
]

pub has_parent_segment_trailing :
    (path : Bytes)
    → has_parent_segment path ≡ false
    → has_parent_segment (path ++ codes "/") ≡ false
has_parent_segment_trailing path h =
    has_parent_segment-append path [] ∙ rw h (unfold has_parent_segment in refl)

-- Every such path with no `..` segment is answered as `/` is.
pub load_slash :
    (fs : FileSystem) (files : EmbeddedFiles) (config : AssetConfig) (path : Bytes)
    → has_parent_segment path ≡ false
    → load fs files config (path ++ codes "/") ≡ load fs files config (codes "/")
load_slash fs files config path h =
    load_order files fs config (path ++ codes "/") (has_parent_segment_trailing path h)
    ∙ ap (λ r. ok (served r (source_of fs files config r)))
        (asset_relative_path_slash path ∙ sym (asset_relative_path_slash []))
    ∙ sym (load_order files fs config (codes "/") (unfold has_parent_segment in refl))
