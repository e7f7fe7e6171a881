-- ===== src/Utf8/Lossy.antt =====
-- `from_utf8_lossy` keeps text as it is, and makes text of any bytes.
use terminald.Base.{
  ℕ, ◌<◌, List, [], ◌∷◌, ◌++◌, append_assoc, Option, none, some, true, false, ◌&&◌, ◌≡◌, refl, ap,
  ◌∙◌, ◌⊎◌, inl, inr, arith, Bytes, All, ltb, leb, Bool-cases,
}
use terminald.Utf8.{
  IsScalar, encode_char, encode_all, IsUtf8, Range, InRange, following, replacement, expect, begin,
  finish, advance, decode, from_utf8_lossy,
}
use terminald.Utf8.Sequence.{Completes, following-Completes, Fits, IsSequence, encode_char_shape}

module _ (s : Bytes) where
  decode-InRange :
      (r : Range) (rs : List Range) (b : ℕ) (bs held : Bytes)
      → InRange r b
      → decode (b ∷ bs) (r ∷ rs) held ≡ finish rs (held ++ b ∷ []) (decode bs)
  unfolding decode
  decode-InRange r rs b bs held h =
      let fits : (leb r.low b && leb b r.high) ≡ true = ground arith in rw fits

  decode-Fits :
      (r : Range) (rs : List Range) (bs held : Bytes)
      → Fits (r ∷ rs) bs
      → decode (bs ++ s) (r ∷ rs) held ≡ held ++ (bs ++ decode s [] [])
  unfolding finish
  decode-Fits r rs [] held h = absurd h
  decode-Fits r [] (b ∷ []) held (hb, _) =
      decode-InRange r [] b s held hb ∙ append_assoc held (b ∷ []) (decode s [] [])
  decode-Fits r [] (b ∷ d ∷ bs) held (_, h) = absurd h
  decode-Fits r (q ∷ rs) (b ∷ bs) held (hb, hs) =
      decode-InRange r (q ∷ rs) b (bs ++ s) held hb
      ∙ decode-Fits q rs bs (held ++ b ∷ []) hs
      ∙ append_assoc held (b ∷ []) (bs ++ decode s [] [])

  decode-IsSequence : (t : Bytes) → IsSequence t → decode (t ++ s) [] [] ≡ t ++ decode s [] []
  unfolding decode
  decode-IsSequence t (a, r, rs, bs, e, high, asks, fits) =
      let no_ascii : ltb a 0x80 ≡ false = ground arith in
      rw (e, no_ascii, asks) (decode-Fits r rs bs (a ∷ []) fits)

  -- The decoder passes over an encoded character.
  decode-encode_char :
      (c : ℕ) → IsScalar c → decode (encode_char c ++ s) [] [] ≡ encode_char c ++ decode s [] []
  decode-encode_char c h = elim (encode_char_shape c h) [
    | inl (small, e) ↦ rw e (unfold decode in ground arith)
    | inr seq ↦ decode-IsSequence (encode_char c) seq
  ]

decode-encode_all : (cs : List ℕ) → All IsScalar cs → decode (encode_all cs) [] [] ≡ encode_all cs
decode-encode_all [] h = unfold decode in refl
decode-encode_all (c ∷ cs) (hc, hs) =
    decode-encode_char (encode_all cs) c hc ∙ ap (◌++◌ (encode_char c)) (decode-encode_all cs hs)

-- Text is read as it is.
pub from_utf8_lossy_id : (s : Bytes) → IsUtf8 s → from_utf8_lossy s ≡ s
unfolding from_utf8_lossy
from_utf8_lossy_id s (cs, h, e) = rw e (decode-encode_all cs h)

pub encode_all-append : (cs ds : List ℕ) → encode_all (cs ++ ds) ≡ encode_all cs ++ encode_all ds
encode_all-append [] ds = refl
encode_all-append (c ∷ cs) ds = rw (encode_all-append cs ds, append_assoc)

encode_char-IsUtf8 : (c : ℕ) (s : Bytes) → IsScalar c → IsUtf8 s → IsUtf8 (encode_char c ++ s)
encode_char-IsUtf8 c s h (cs, hs, e) = (c ∷ cs, (h, hs), ap (◌++◌ (encode_char c)) e)

ascii-IsUtf8 : (b : ℕ) (s : Bytes) → b < 0x80 → IsUtf8 s → IsUtf8 (b ∷ s)
ascii-IsUtf8 b s h t =
    let one : encode_char b ≡ b ∷ [] = unfold encode_char in ground arith in
    rw one at (encode_char-IsUtf8 b s (inl (omega arith)) t)

-- ASCII is UTF-8.
pub IsAscii-IsUtf8 : (s : Bytes) → All (λ b. b < 0x80) s → IsUtf8 s
IsAscii-IsUtf8 [] h = ([], tt, refl)
IsAscii-IsUtf8 (b ∷ s) (hb, hs) = ascii-IsUtf8 b s hb (IsAscii-IsUtf8 s hs)

replacement-IsUtf8 : (s : Bytes) → IsUtf8 s → IsUtf8 (replacement ++ s)
unfolding encode_char
replacement-IsUtf8 s h = encode_char-IsUtf8 0xfffd s (inr (omega arith, omega arith)) h

-- What the decoder knows of the bytes behind the one at hand.
abbrev KeepsText : (List Range → Bytes → Bytes) → Type 0
KeepsText rest =
    (rs : List Range) (held : Bytes) → (rs ≡ []) ⊎ Completes rs held → IsUtf8 (rest rs held)

module _ (rest : List Range → Bytes → Bytes) (keeps : KeepsText rest) where
  expect-IsUtf8 : (o : Option (List Range)) (b : ℕ) → following b ≡ o → IsUtf8 (expect o b rest)
  unfolding expect
  expect-IsUtf8 none b e = replacement-IsUtf8 _ (keeps [] [] (inl refl))
  expect-IsUtf8 (some rs) b e = keeps rs (b ∷ []) (inr (following-Completes b rs e))

  begin-IsUtf8 : (b : ℕ) → IsUtf8 (begin b rest)
  unfolding begin
  begin-IsUtf8 b = elim (Bool-cases (ltb b 0x80)) [
    | inl small ↦ rw small (ascii-IsUtf8 b _ (ground arith) (keeps [] [] (inl refl)))
    | inr big ↦ rw big (expect-IsUtf8 (following b) b refl)
  ]

  finish-IsUtf8 :
      (rs : List Range) (held : Bytes) → Completes rs held → IsUtf8 (finish rs held rest)
  unfolding finish
  finish-IsUtf8 [] held (c, h, e) = rw e (encode_char-IsUtf8 c _ h (keeps [] [] (inl refl)))
  finish-IsUtf8 (r ∷ rs) held h = keeps (r ∷ rs) held (inr h)

  advance-IsUtf8 :
      (r : Range) (rs : List Range) (b : ℕ) (held : Bytes)
      → Completes (r ∷ rs) held
      → IsUtf8 (advance r rs b held rest)
  unfolding advance
  advance-IsUtf8 r rs b held h = elim (Bool-cases (leb r.low b && leb b r.high)) [
    | inl fits ↦ rw fits (finish-IsUtf8 rs (held ++ b ∷ []) (h b (ground arith, ground arith)))
    | inr other ↦ rw other (replacement-IsUtf8 _ (begin-IsUtf8 b))
  ]

decode-KeepsText : (s : Bytes) → KeepsText (decode s)
unfolding decode
decode-KeepsText [] [] held h = ([], tt, refl)
decode-KeepsText [] (r ∷ rs) held h = replacement-IsUtf8 [] ([], tt, refl)
decode-KeepsText (b ∷ s) [] held h = begin-IsUtf8 (decode s) (decode-KeepsText s) b
decode-KeepsText (b ∷ s) (r ∷ rs) held (inl e) = cc
decode-KeepsText (b ∷ s) (r ∷ rs) held (inr h) =
    advance-IsUtf8 (decode s) (decode-KeepsText s) r rs b held h

-- Any bytes are read as text.
pub from_utf8_lossy-IsUtf8 : (s : Bytes) → IsUtf8 (from_utf8_lossy s)
unfolding from_utf8_lossy
from_utf8_lossy-IsUtf8 s = decode-KeepsText s [] [] (inl refl)
