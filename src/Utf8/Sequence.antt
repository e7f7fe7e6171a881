-- ===== src/Utf8/Sequence.antt =====
-- One sequence of bytes: a first byte and bytes in the ranges that it asks for encode a character.
use terminald.Base.{
  ℕ, ◌+◌, ◌-◌, ◌*◌, ◌/◌, ◌%◌, ◌≤◌, ◌<◌, List, [], ◌∷◌, ◌++◌, some, ◌≡◌, ◌≢◌, ◌⊎◌, inl, inr, arith,
  Bytes, ◌==◌, if◌then◌else◌, dec_lt,
}
use terminald.Utf8.{IsScalar, encode_char, Range, InRange, following}

-- Whatever bytes in the ranges follow, the held bytes with them are a character.
abbrev pub Completes : List Range → Bytes → Type 0
Completes [] held = (c : ℕ) × IsScalar c × (held ≡ encode_char c)
Completes (r ∷ rs) held = (b : ℕ) → InRange r b → Completes rs (held ++ b ∷ [])

two_bytes :
    (a b : ℕ)
    → 0xc2 ≤ a
    → a < 0xe0
    → 0x80 ≤ b
    → b ≤ 0xbf
    → let c = (a - 0xc0) * 64 + (b - 0x80) in IsScalar c × (a ∷ b ∷ [] ≡ encode_char c)
unfolding encode_char
two_bytes a b h1 h2 h3 h4 = (inl (omega arith), ground arith)

three_bytes :
    (a b d : ℕ)
    → 0xe0 ≤ a
    → a < 0xf0
    → 0x80 ≤ b
    → b ≤ 0xbf
    → 0x80 ≤ d
    → d ≤ 0xbf
    → ((a ≢ 0xe0) ⊎ (0xa0 ≤ b))
    → ((a ≢ 0xed) ⊎ (b ≤ 0x9f))
    → let c = (a - 0xe0) * 4096 + (b - 0x80) * 64 + (d - 0x80) in
      IsScalar c × (a ∷ b ∷ d ∷ [] ≡ encode_char c)
unfolding encode_char
three_bytes a b d h1 h2 h3 h4 h5 h6 h7 h8 = (below_or_above (dec_lt a 0xee), ground arith)
  where
    below_or_above : Dec (a < 0xee) → IsScalar ((a - 0xe0) * 4096 + (b - 0x80) * 64 + (d - 0x80))
    below_or_above (yes p) = inl (omega arith)
    below_or_above (no n) = inr (omega arith, omega arith)

four_bytes :
    (a b d e : ℕ)
    → 0xf0 ≤ a
    → a ≤ 0xf4
    → 0x80 ≤ b
    → b ≤ 0xbf
    → 0x80 ≤ d
    → d ≤ 0xbf
    → 0x80 ≤ e
    → e ≤ 0xbf
    → ((a ≢ 0xf0) ⊎ (0x90 ≤ b))
    → ((a ≢ 0xf4) ⊎ (b ≤ 0x8f))
    → let c = (a - 0xf0) * 0x4_0000 + (b - 0x80) * 4096 + (d - 0x80) * 64 + (e - 0x80) in
      IsScalar c × (a ∷ b ∷ d ∷ e ∷ [] ≡ encode_char c)
unfolding encode_char
four_bytes a b d e h1 h2 h3 h4 h5 h6 h7 h8 h9 h10 = (inr (omega arith, omega arith), ground arith)

-- What a first byte asks for completes it to a character.
pub following-Completes : (a : ℕ) (rs : List Range) → following a ≡ some rs → Completes rs (a ∷ [])
unfolding following
following-Completes a [] h = absurd (ground arith)
following-Completes a (r ∷ []) h = λ b hb.
    let (s, e) = two_bytes a b (ground arith) (ground arith) (ground arith) (ground arith) in
    ((a - 0xc0) * 64 + (b - 0x80), s, e)
following-Completes a (r ∷ q ∷ []) h = λ b hb d hd.
    let (s, e) =
      three_bytes a b d (ground arith) (ground arith) (ground arith) (ground arith) (ground arith)
        (ground arith) (ground arith) (ground arith) in
    ((a - 0xe0) * 4096 + (b - 0x80) * 64 + (d - 0x80), s, e)
following-Completes a (r ∷ q ∷ p ∷ []) h = λ b hb d hd f hf.
    let (s, e) =
      four_bytes a b d f (ground arith) (ground arith) (ground arith) (ground arith) (ground arith)
        (ground arith) (ground arith) (ground arith) (ground arith) (ground arith) in
    ((a - 0xf0) * 0x4_0000 + (b - 0x80) * 4096 + (d - 0x80) * 64 + (f - 0x80), s, e)
following-Completes a (r ∷ q ∷ p ∷ o ∷ rs) h = absurd (ground arith)

-- The bytes are those that the ranges ask for.
abbrev pub Fits : List Range → Bytes → Type 0
Fits [] [] = Unit {0}
Fits [] (b ∷ bs) = ⊥
Fits (r ∷ rs) [] = ⊥
Fits (r ∷ rs) (b ∷ bs) = InRange r b × Fits rs bs

-- The bytes are a first byte and what it asks for.
abbrev pub IsSequence : Bytes → Type 0
IsSequence s =
    (a : ℕ) × (r : Range) × (rs : List Range) × (bs : Bytes) × (s ≡ a ∷ bs)
    × (0x80 ≤ a)
    × (following a ≡ some (r ∷ rs))
    × Fits (r ∷ rs) bs

abbrev continuation : Range
continuation = record { low = 0x80; high = 0xbf }

abbrev second : ℕ → Range
second a =
    if a == 0xe0
    then record { low = 0xa0; high = 0xbf }
    else if a == 0xed
    then record { low = 0x80; high = 0x9f }
    else if a == 0xf0
    then record { low = 0x90; high = 0xbf }
    else if a == 0xf4
    then record { low = 0x80; high = 0x8f }
    else continuation

module _ (c : ℕ) (scalar : IsScalar c) where
  two_byte-IsSequence : 0x80 ≤ c → c < 0x800 → IsSequence (encode_char c)
  unfolding encode_char following
  two_byte-IsSequence lo hi = (
    0xc0 + c / 64,
    continuation,
    [],
    (0x80 + c % 64) ∷ [],
    ground arith,
    omega arith,
    ground arith,
    ((omega arith, omega arith), tt),
  )

  three_byte_second :
      0x800 ≤ c → c < 0x1_0000 → InRange (second (0xe0 + c / 4096)) (0x80 + c / 64 % 64)
  three_byte_second lo hi = (ground arith, ground arith)

  three_byte-IsSequence : 0x800 ≤ c → c < 0x1_0000 → IsSequence (encode_char c)
  unfolding encode_char following
  three_byte-IsSequence lo hi = (
    0xe0 + c / 4096,
    second (0xe0 + c / 4096),
    continuation ∷ [],
    (0x80 + c / 64 % 64) ∷ (0x80 + c % 64) ∷ [],
    ground arith,
    omega arith,
    ground arith,
    (three_byte_second lo hi, ((omega arith, omega arith), tt)),
  )

  four_byte_second : 0x1_0000 ≤ c → InRange (second (0xf0 + c / 0x4_0000)) (0x80 + c / 4096 % 64)
  four_byte_second lo = (ground arith, ground arith)

  four_byte-IsSequence : 0x1_0000 ≤ c → IsSequence (encode_char c)
  unfolding encode_char following
  four_byte-IsSequence lo = (
    0xf0 + c / 0x4_0000,
    second (0xf0 + c / 0x4_0000),
    continuation ∷ continuation ∷ [],
    (0x80 + c / 4096 % 64) ∷ (0x80 + c / 64 % 64) ∷ (0x80 + c % 64) ∷ [],
    ground arith,
    omega arith,
    ground arith,
    (four_byte_second lo, ((omega arith, omega arith), ((omega arith, omega arith), tt))),
  )

  -- A character is one byte or such a sequence.
  pub encode_char_shape : ((c < 0x80) × (encode_char c ≡ c ∷ [])) ⊎ IsSequence (encode_char c)
  unfolding encode_char
  encode_char_shape = elim (dec_lt c 0x80) [
    | yes p ↦ inl (p, ground arith)
    | no p ↦ elim (dec_lt c 0x800) [
      | yes q ↦ inr (unfold encode_char in two_byte-IsSequence (omega arith) q)
      | no q ↦ elim (dec_lt c 0x1_0000) [
        | yes r ↦ inr (three_byte-IsSequence (omega arith) r)
        | no r ↦ inr (four_byte-IsSequence (omega arith))
      ]
    ]
  ]
