-- ===== src/Assets/Tests.antt =====
-- The unit tests of assets.rs, and the theorems at concrete inputs.
use terminald.Base.{
  ℕ, ◌∷◌, none, some, Bool, true, false, ◌||◌, ◌≡◌, refl, sym, ap, ◌∙◌, arith, inl, inr, Bool-cases,
  Bytes, codes, ok, if◌then◌else◌,
}
use terminald.Text.{bytes_eq, ends_with}
use terminald.Text.Find.{ends_with_complete}
use terminald.Assets.{
  AssetConfig, FileSystem, EmbeddedFiles, with_external_dist, has_parent_segment,
  asset_relative_path, select_embedded_candidate, load,
}
use terminald.Assets.Loading.{served, source_of, IsOpenRoot, IsBelow, load_reads_below, load_order}
use terminald.Text.Split.{bytes_eq_sound}

abbrev pub two_files : Bytes → Bool
two_files c = bytes_eq c (codes "dist/index.html") || bytes_eq c (codes "index.html")

selects_generated_dist_asset_before_fallback_asset :
    select_embedded_candidate (codes "index.html") true two_files ≡ some (codes "dist/index.html")
unfolding select_embedded_candidate bytes_eq
selects_generated_dist_asset_before_fallback_asset = refl

can_select_fallback_without_generated_dist :
    select_embedded_candidate (codes "index.html") false two_files ≡ some (codes "index.html")
unfolding select_embedded_candidate bytes_eq
can_select_fallback_without_generated_dist = refl

-- A folder whose name ends in `assets` is cut in the middle of the segment.
cut_in_a_segment : asset_relative_path (codes "/my-assets/a.js") ≡ codes "assets/a.js"
unfolding asset_relative_path
cut_in_a_segment = refl

abbrev pub index_files : EmbeddedFiles
index_files path = if two_files path then some (codes "page") else none

abbrev pub no_file : FileSystem
no_file path = none

-- A file of a folder beside the root, whose name begins like the root's.
abbrev pub outside_only : FileSystem
outside_only path = if bytes_eq path (codes "/srv-secret/key") then some (codes "secret") else none

abbrev pub site : AssetConfig
site = with_external_dist (codes "/srv")

rejects_traversal :
    load outside_only index_files site (codes "/assets/../../srv-secret/key") ≡ ok none
unfolding load
rejects_traversal = refl

abbrev fifth_byte : Bytes → ℕ
fifth_byte (a ∷ b ∷ c ∷ d ∷ e ∷ s) = e
fifth_byte _ = 0

srv_is_closed : ¬ IsOpenRoot (codes "/srv")
unfolding ends_with bytes_eq
srv_is_closed (inl e) = cc
srv_is_closed (inr (folder, e)) =
    let ends = ends_with_complete (codes "/srv") folder (codes "/") e in cc

sibling_not_below :
    (file : Bytes) → IsBelow (codes "/srv") file → file ≡ codes "/srv-secret/key" → ⊥
sibling_not_below file (relative, _, inl e) h = omega (arith, ap fifth_byte (sym e ∙ h))
sibling_not_below file (relative, _, inr (no_separator, _)) h = srv_is_closed no_separator

pub outside_agrees :
    (root file : Bytes)
    → site.external_dist ≡ some root
    → IsBelow root file
    → no_file file ≡ outside_only file
outside_agrees root file e below = elim (Bool-cases (bytes_eq file (codes "/srv-secret/key"))) [
  | inl hit ↦
      let srv : codes "/srv" ≡ root = cc in
      absurd (sibling_not_below file (rw (← srv) at below) (bytes_eq_sound file _ hit))
  | inr miss ↦ rw miss
]

load_reads_below_example :
    load no_file index_files site (codes "/x/y.js")
    ≡ load outside_only index_files site (codes "/x/y.js")
load_reads_below_example =
    load_reads_below index_files site no_file outside_only (codes "/x/y.js") outside_agrees

load_order_example :
    load no_file index_files site (codes "/")
    ≡ ok (served (codes "index.html") (source_of no_file index_files site (codes "index.html")))
unfolding asset_relative_path has_parent_segment
load_order_example = load_order index_files no_file site (codes "/") refl
