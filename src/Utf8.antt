-- ===== src/Utf8.antt =====
-- UTF-8 as the standard library reads and writes it: `char::encode_utf8` and `String::from_utf8_lossy`.
pub mod Sequence
pub mod Lossy
use terminald.Base.{
  ℕ, ◌+◌, ◌/◌, ◌%◌, ◌≤◌, ◌<◌, List, [], ◌∷◌, ◌++◌, flat_map, Option, none, some, Bool, ◌&&◌, ◌≡◌,
  ◌⊎◌, Bytes, All, ltb, leb, ◌==◌, if◌then◌else◌,
}

-- The code points that a `char` may be.
abbrev pub IsScalar : ℕ → Type 0
IsScalar c = (c < 0xd800) ⊎ ((0xe000 ≤ c) × (c < 0x11_0000))

unfoldable pub encode_char : ℕ → Bytes
encode_char c =
    if ltb c 0x80
    then c ∷ []
    else if ltb c 0x800
    then (0xc0 + c / 64) ∷ (0x80 + c % 64) ∷ []
    else if ltb c 0x1_0000
    then (0xe0 + c / 4096) ∷ (0x80 + c / 64 % 64) ∷ (0x80 + c % 64) ∷ []
    else (0xf0 + c / 0x4_0000)
      ∷ (0x80 + c / 4096 % 64)
      ∷ (0x80 + c / 64 % 64)
      ∷ (0x80 + c % 64)
      ∷ []

-- The bytes of a `str` with these characters.
abbrev pub encode_all : List ℕ → Bytes
encode_all [] = []
encode_all (c ∷ cs) = encode_char c ++ encode_all cs

-- What every `str` and `String` holds.
abbrev pub IsUtf8 : Bytes → Type 0
IsUtf8 s = (cs : List ℕ) × All IsScalar cs × (s ≡ encode_all cs)

pub record Range : Type 0 where
  pub low : ℕ
  pub high : ℕ

abbrev pub InRange : Range → ℕ → Type 0
InRange r b = (r.low ≤ b) × (b ≤ r.high)

abbrev range : ℕ → ℕ → Range
range l h = record { low = l; high = h }

abbrev continuation : Range
continuation = range 0x80 0xbf

-- The bytes that must follow a first byte of 0x80 or more; `none` where no sequence begins so.
unfoldable pub following : ℕ → Option (List Range)
following b =
    if ltb b 0xc2
    then none
    else if ltb b 0xe0
    then some (continuation ∷ [])
    else if b == 0xe0
    then some (range 0xa0 0xbf ∷ continuation ∷ [])
    else if b == 0xed
    then some (range 0x80 0x9f ∷ continuation ∷ [])
    else if ltb b 0xf0
    then some (continuation ∷ continuation ∷ [])
    else if b == 0xf0
    then some (range 0x90 0xbf ∷ continuation ∷ continuation ∷ [])
    else if ltb b 0xf4
    then some (continuation ∷ continuation ∷ continuation ∷ [])
    else if b == 0xf4
    then some (range 0x80 0x8f ∷ continuation ∷ continuation ∷ [])
    else none

-- U+FFFD.
abbrev pub replacement : Bytes
replacement = 0xef ∷ 0xbf ∷ 0xbd ∷ []

-- `rest` is the decoder on the bytes behind this one, given the ranges still due and the bytes held.
expect : Option (List Range) → ℕ → (List Range → Bytes → Bytes) → Bytes
expect none b rest = replacement ++ rest [] []
expect (some rs) b rest = rest rs (b ∷ [])

begin : ℕ → (List Range → Bytes → Bytes) → Bytes
unfolding expect following
begin b rest = if ltb b 0x80 then b ∷ rest [] [] else expect (following b) b rest

finish : List Range → Bytes → (List Range → Bytes → Bytes) → Bytes
finish [] held rest = held ++ rest [] []
finish (r ∷ rs) held rest = rest (r ∷ rs) held

-- A byte out of range ends the sequence, which becomes one U+FFFD, and begins the next one.
advance : Range → List Range → ℕ → Bytes → (List Range → Bytes → Bytes) → Bytes
unfolding begin finish
advance r rs b held rest =
    if leb r.low b && leb b r.high
    then finish rs (held ++ b ∷ []) rest
    else replacement ++ begin b rest

decode : Bytes → List Range → Bytes → Bytes
unfolding advance begin
decode [] [] held = []
decode [] (r ∷ rs) held = replacement
decode (b ∷ s) [] held = begin b (decode s)
decode (b ∷ s) (r ∷ rs) held = advance r rs b held (decode s)

-- `String::from_utf8_lossy(s).into_owned()`.
unfoldable pub from_utf8_lossy : Bytes → Bytes
unfolding decode
from_utf8_lossy s = decode s [] []
