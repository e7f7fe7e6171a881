-- ===== src/Text/Split.antt =====
-- Separators: what `split_once`, `split` and `rsplit().next()` return.
use terminald.Base.{
  ℕ, List, [], ◌∷◌, ◌++◌, none, some, true, false, ◌≡◌, ◌≢◌, refl, ap, ◌∙◌, arith, Bytes, contains,
}
use terminald.Text.{bytes_eq, split_once, split, cons_head, last, last_segment, strip_prefix}

pub bytes_eq_sound : (s t : Bytes) → bytes_eq s t ≡ true → s ≡ t
unfolding bytes_eq
bytes_eq_sound [] [] h = refl
bytes_eq_sound [] (d ∷ t) h = cc
bytes_eq_sound (c ∷ s) [] h = cc
bytes_eq_sound (c ∷ s) (d ∷ t) h = ground (arith, bytes_eq_sound s t)

pub bytes_eq_refl : (s : Bytes) → bytes_eq s s ≡ true
unfolding bytes_eq
bytes_eq_refl [] = refl
bytes_eq_refl (c ∷ s) = ground (arith, bytes_eq_refl s)

pub strip_prefix-append : (p s : Bytes) → strip_prefix p (p ++ s) ≡ some s
unfolding strip_prefix
strip_prefix-append [] s = refl
strip_prefix-append (c ∷ p) s = ground (arith, strip_prefix-append p s)

pub strip_prefix_sound : (p s : Bytes) {t : Bytes} → strip_prefix p s ≡ some t → s ≡ p ++ t
unfolding strip_prefix
strip_prefix_sound [] s h = cc
strip_prefix_sound (p ∷ ps) [] h = cc
strip_prefix_sound (p ∷ ps) (c ∷ s) {t} h = ground (arith, strip_prefix_sound ps s {t = t})

-- The first part lacks the separator, and the two parts with it between them are the text.
pub split_once_sound :
    (sep : ℕ) (s a b : Bytes)
    → split_once sep s ≡ some (a, b)
    → (contains sep a ≡ false) × (s ≡ a ++ sep ∷ b)
unfolding split_once
split_once_sound sep [] a b h = cc
split_once_sound sep (c ∷ s) [] b h = ground arith
split_once_sound sep (c ∷ s) (x ∷ a) b h = ground (arith, split_once_sound sep s a b)

pub split_once_complete :
    (sep : ℕ) (a b : Bytes) → contains sep a ≡ false → split_once sep (a ++ sep ∷ b) ≡ some (a, b)
unfolding split_once
split_once_complete sep [] b h = ground arith
split_once_complete sep (c ∷ a) b h = ground (arith, split_once_complete sep a b)

pub split_once-none : (sep : ℕ) (s : Bytes) → split_once sep s ≡ none → contains sep s ≡ false
unfolding split_once
split_once-none sep [] h = refl
split_once-none sep (c ∷ s) h = ground (arith, split_once-none sep s)

pub split_once_lacks : (sep : ℕ) (s : Bytes) → contains sep s ≡ false → split_once sep s ≡ none
unfolding split_once
split_once_lacks sep [] h = refl
split_once_lacks sep (c ∷ s) h = ground (arith, split_once_lacks sep s)

split-ne-nil : (sep : ℕ) (s : Bytes) → split sep s ≢ []
unfolding split
split-ne-nil sep [] = ground arith
split-ne-nil sep (c ∷ s) = ground arith

cons_head-append :
    (c : ℕ) (ps qs : List Bytes) → ps ≢ [] → cons_head c (ps ++ qs) ≡ cons_head c ps ++ qs
unfolding cons_head
cons_head-append c [] qs h = absurd (h refl)
cons_head-append c (p ∷ ps) qs h = refl

-- A separator in the text divides the segments.
pub split-append : (sep : ℕ) (s t : Bytes) → split sep (s ++ sep ∷ t) ≡ split sep s ++ split sep t
unfolding split
split-append sep [] t = ground arith
split-append sep (c ∷ s) t = ground (
  arith,
  split-append sep s t,
  cons_head-append c (split sep s) (split sep t) (split-ne-nil sep s),
)

last-append : (ps qs : List Bytes) → qs ≢ [] → last (ps ++ qs) ≡ last qs
unfolding last
last-append [] qs h = refl
last-append (p ∷ []) [] h = absurd (h refl)
last-append (p ∷ []) (q ∷ qs) h = refl
last-append (p ∷ r ∷ ps) qs h = last-append (r ∷ ps) qs h

-- What stands before a separator does not bear on the last segment.
pub last_segment-append :
    (sep : ℕ) (s t : Bytes) → last_segment sep (s ++ sep ∷ t) ≡ last_segment sep t
unfolding last_segment
last_segment-append sep s t =
    ap last (split-append sep s t) ∙ last-append (split sep s) (split sep t) (split-ne-nil sep t)

-- A text with no separator is one segment.
pub split_of_lacks : (sep : ℕ) (s : Bytes) → contains sep s ≡ false → split sep s ≡ s ∷ []
unfolding split
split_of_lacks sep [] h = refl
split_of_lacks sep (c ∷ s) h = ground (arith, split_of_lacks sep s)

pub last_segment_of_lacks : (sep : ℕ) (s : Bytes) → contains sep s ≡ false → last_segment sep s ≡ s
unfolding last_segment last
last_segment_of_lacks sep s h = rw (split_of_lacks sep s h) refl
