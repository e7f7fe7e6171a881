-- ===== src/Text.antt =====
-- The functions of `str` that the crates call, over the UTF-8 bytes of a text. The patterns that the
-- source searches for are ASCII, so a match of bytes is a match of characters.
pub mod Split
pub mod Find
use terminald.Base.{
  ℕ, suc, List, [], ◌∷◌, ◌++◌, Option, none, some, Bool, true, false, ◌&&◌, ◌||◌, Bytes, ◌==◌,
  if◌then◌else◌,
}

-- `==` of two byte strings.
unfoldable pub bytes_eq : Bytes → Bytes → Bool
bytes_eq [] [] = true
bytes_eq [] (d ∷ t) = false
bytes_eq (c ∷ s) [] = false
bytes_eq (c ∷ s) (d ∷ t) = c == d && bytes_eq s t

-- `s.strip_prefix(p)` is `strip_prefix p s`.
unfoldable pub strip_prefix : Bytes → Bytes → Option Bytes
strip_prefix [] s = some s
strip_prefix (p ∷ ps) [] = none
strip_prefix (p ∷ ps) (c ∷ s) = if c == p then strip_prefix ps s else none

unfoldable pub starts_with : Bytes → Bytes → Bool
starts_with s [] = true
starts_with [] (p ∷ ps) = false
starts_with (c ∷ s) (p ∷ ps) = c == p && starts_with s ps

unfoldable pub ends_with : Bytes → Bytes → Bool
unfolding bytes_eq
ends_with [] t = bytes_eq [] t
ends_with (c ∷ s) t = bytes_eq (c ∷ s) t || ends_with s t

cons_some : ℕ → Option Bytes → Option Bytes
cons_some c none = none
cons_some c (some s) = some (c ∷ s)

unfoldable pub strip_suffix : Bytes → Bytes → Option Bytes
unfolding bytes_eq cons_some
strip_suffix [] t = if bytes_eq [] t then some [] else none
strip_suffix (c ∷ s) t = if bytes_eq (c ∷ s) t then some [] else cons_some c (strip_suffix s t)

cons_first : ℕ → Option (Bytes × Bytes) → Option (Bytes × Bytes)
cons_first c none = none
cons_first c (some (a, b)) = some (c ∷ a, b)

-- `s.split_once(sep)`: the text before the first separator and the text behind it.
unfoldable pub split_once : ℕ → Bytes → Option (Bytes × Bytes)
unfolding cons_first
split_once sep [] = none
split_once sep (c ∷ s) = if c == sep then some ([], s) else cons_first c (split_once sep s)

cons_head : ℕ → List Bytes → List Bytes
cons_head c [] = (c ∷ []) ∷ []
cons_head c (p ∷ ps) = (c ∷ p) ∷ ps

-- `s.split(sep)`: there is always at least one segment.
unfoldable pub split : ℕ → Bytes → List Bytes
unfolding cons_head
split sep [] = [] ∷ []
split sep (c ∷ s) = let rest = split sep s in if c == sep then [] ∷ rest else cons_head c rest

last : List Bytes → Bytes
last [] = []
last (p ∷ []) = p
last (p ∷ q ∷ ps) = last (q ∷ ps)

-- `s.rsplit(sep).next()`: the last segment, which always exists.
unfoldable pub last_segment : ℕ → Bytes → Bytes
unfolding last split
last_segment sep s = last (split sep s)

unfoldable pub trim_start_matches : ℕ → Bytes → Bytes
trim_start_matches b [] = []
trim_start_matches b (c ∷ s) = if c == b then trim_start_matches b s else c ∷ s

next_index : Option ℕ → Option ℕ
next_index none = none
next_index (some i) = some (suc i)

-- `s.find(p)` is `find p s`: the index of the first match.
unfoldable pub find : Bytes → Bytes → Option ℕ
unfolding starts_with next_index
find p [] = if starts_with [] p then some 0 else none
find p (c ∷ s) = if starts_with (c ∷ s) p then some 0 else next_index (find p s)
