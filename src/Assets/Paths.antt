-- ===== src/Assets/Paths.antt =====
-- Where the path of a request leads.
use terminald.Base.{
  ℕ, List, [], ◌∷◌, ◌++◌, append_assoc, Option, none, some, false, not, ◌||◌, ◌≡◌, refl, sym, ◌∙◌,
  inl, inr, arith, Bytes, codes, take, take-append-drop, ◌==◌, Bool-cases,
}
use terminald.Text.{starts_with, split, trim_start_matches, find}
use terminald.Text.Split.{split-append, last_segment-append}
use terminald.Text.Find.{find_sound, trim_start_matches_head}
use terminald.Assets.{
  any_parent, has_parent_segment, path_has_extension, is_empty, from_assets, relative_of_trimmed,
  asset_relative_path, content_type,
}

any_parent-append : (ps qs : List Bytes) → any_parent (ps ++ qs) ≡ (any_parent ps || any_parent qs)
unfolding any_parent
any_parent-append [] qs = refl
any_parent-append (p ∷ ps) qs = ground (arith, any_parent-append ps qs)

-- The segments of both sides of a separator count.
pub has_parent_segment-append :
    (s t : Bytes)
    → has_parent_segment (s ++ b'/' ∷ t) ≡ (has_parent_segment s || has_parent_segment t)
unfolding has_parent_segment
has_parent_segment-append s t = rw split-append (any_parent-append (split b'/' s) (split b'/' t))

has_parent_segment_slash : (s : Bytes) → has_parent_segment (b'/' ∷ s) ≡ has_parent_segment s
unfolding has_parent_segment
has_parent_segment_slash s = refl

has_parent_segment-trim :
    (s : Bytes)
    → has_parent_segment s ≡ false
    → has_parent_segment (trim_start_matches b'/' s) ≡ false
unfolding trim_start_matches
has_parent_segment-trim [] h = h
has_parent_segment-trim (c ∷ s) h = elim (Bool-cases (c == b'/')) [
  | inl e ↦
      let slash : c ≡ b'/' = ground arith in
      rw e (has_parent_segment-trim s (rw (slash, has_parent_segment_slash) at h))
  | inr n ↦ rw n h
]

-- A path below a root: not absolute, and with no segment that goes up.
abbrev pub IsContained : Bytes → Type 0
IsContained path = (starts_with path (codes "/") ≡ false) × (has_parent_segment path ≡ false)

below_of_append :
    (path s t : Bytes)
    → path ≡ s ++ b'/' ∷ t
    → has_parent_segment path ≡ false
    → has_parent_segment t ≡ false
below_of_append path s t e h = ground (arith, has_parent_segment-append s t)

below_assets :
    (t : Bytes) → has_parent_segment t ≡ false → has_parent_segment (codes "assets/" ++ t) ≡ false
below_assets t h =
    let plain : has_parent_segment (codes "assets") ≡ false = unfold has_parent_segment in refl in
    has_parent_segment-append (codes "assets") t ∙ rw (plain, h)

-- What stands behind the first `assets/` of a contained path is contained.
from_assets-IsContained :
    (path : Bytes) (o : Option ℕ)
    → find (codes "assets/") path ≡ o
    → IsContained path
    → IsContained (from_assets path o)
unfolding from_assets
from_assets-IsContained path none e h = h
from_assets-IsContained path (some i) e h =
    let (t, at_index) = find_sound (codes "assets/") path i e in
    let whole : path ≡ (take i path ++ codes "assets") ++ b'/' ∷ t =
      sym (take-append-drop i path)
      ∙ rw at_index (sym (append_assoc (take i path) (codes "assets") (b'/' ∷ t))) in
    rw at_index (unfold starts_with in refl, below_assets t (below_of_append path _ t whole h.1))

relative_of_trimmed-IsContained :
    (path : Bytes) → IsContained path → IsContained (relative_of_trimmed path)
unfolding relative_of_trimmed
relative_of_trimmed-IsContained path h =
    elim (Bool-cases (is_empty path || not (path_has_extension path))) [
      | inl e ↦ rw e (unfold starts_with has_parent_segment in (refl, refl))
      | inr n ↦ rw n (from_assets-IsContained path (find (codes "assets/") path) refl h)
    ]

-- A request path with no `..` segment leads to a file below the root: the relative path is not
-- absolute and has no `..` segment, also where the path is cut in the middle of a segment.
pub asset_relative_path-IsContained :
    (path : Bytes) → has_parent_segment path ≡ false → IsContained (asset_relative_path path)
unfolding asset_relative_path
asset_relative_path-IsContained path h =
    relative_of_trimmed-IsContained (trim_start_matches b'/' path)
      (trim_start_matches_head b'/' path, has_parent_segment-trim path h)

-- The content type depends on the text behind the last dot alone.
pub content_type-append :
    (s extension : Bytes) → content_type (s ++ b'.' ∷ extension) ≡ content_type extension
unfolding content_type
content_type-append s extension = rw last_segment-append
