-- ===== src/Decimal/Parse.antt =====
-- What `parse::<i32>` accepts, and the number that it returns.
use terminald.Base.Int.{ℤ, pos, negate, IsI32}
use terminald.Base.{
  ℕ, zero, suc, ◌+◌, ◌-◌, ◌*◌, ◌^◌, ◌≤◌, [], ◌∷◌, ◌≡◌, ◌≢◌, ◌⊎◌, inl, inr, arith, Bytes, All, Error,
  ok, >>=-eq-ok, ◌==◌, Bool-cases,
}
use terminald.Decimal.{scan, magnitude, positive, negative, parse_i32, too_large, too_small}
use terminald.Decimal.Print.{IsDigit}

-- The number that digits spell behind `n`, with no bound.
abbrev pub value : ℕ → Bytes → ℕ
value n [] = n
value n (c ∷ s) = value (n * 10 + (c - b'0')) s

-- One or more digits.
abbrev pub IsNatural : Bytes → Type 0
IsNatural s = (s ≢ []) × All IsDigit s

-- The text is an optional sign with digits behind it, and stands for the number.
abbrev pub Spells : Bytes → ℤ → Type 0
Spells s z =
    ((t : Bytes) × (s ≡ b'-' ∷ t) × IsNatural t × (z ≡ negate (value 0 t)))
    ⊎ ((t : Bytes) × (s ≡ b'+' ∷ t) × IsNatural t × (z ≡ pos (value 0 t)))
    ⊎ (IsNatural s × (z ≡ pos (value 0 s)))

scan_sound :
    (limit : ℕ) (beyond : Error) (s : Bytes) (n r : ℕ)
    → n ≤ limit
    → scan limit beyond s n ≡ ok r
    → All IsDigit s × (r ≡ value n s) × (r ≤ limit)
unfolding scan
scan_sound limit beyond [] n r fits h = ground arith
scan_sound limit beyond (c ∷ s) n r fits h =
    ground (arith, scan_sound limit beyond s (n * 10 + (c - b'0')) r)

magnitude_sound :
    (limit : ℕ) (beyond : Error) (s : Bytes) (r : ℕ)
    → magnitude limit beyond s ≡ ok r
    → IsNatural s × (r ≡ value 0 s) × (r ≤ limit)
unfolding magnitude
magnitude_sound limit beyond [] r h = cc
magnitude_sound limit beyond (c ∷ s) r h =
    let (ds, e, b) = scan_sound limit beyond (c ∷ s) 0 r (omega arith) h in (((λ p. cc), ds), e, b)

negate-IsI32 : (n : ℕ) → n ≤ 2 ^ 31 → IsI32 (negate n)
negate-IsI32 zero h = omega arith
negate-IsI32 (suc n) h = h

positive_sound :
    (s : Bytes) (z : ℤ) → positive s ≡ ok z → IsNatural s × (z ≡ pos (value 0 s)) × IsI32 z
unfolding positive
positive_sound s z h =
    let (n, e, k) = >>=-eq-ok (magnitude (2 ^ 31 - 1) too_large s) (λ n. ok (pos n)) h in
    let (nat, exact, fits) = magnitude_sound (2 ^ 31 - 1) too_large s n e in
    (nat, ground arith, ground arith)

negative_sound :
    (s : Bytes) (z : ℤ) → negative s ≡ ok z → IsNatural s × (z ≡ negate (value 0 s)) × IsI32 z
unfolding negative
negative_sound s z h =
    let (n, e, k) = >>=-eq-ok (magnitude (2 ^ 31) too_small s) (λ n. ok (negate n)) h in
    let (nat, exact, fits) = magnitude_sound (2 ^ 31) too_small s n e in
    let z_eq : negate n ≡ z = cc in (nat, cc, rw (← z_eq) (negate-IsI32 n fits))

-- An accepted text spells an `i32`, and the result is the number that it spells.
pub parse_i32_sound : (s : Bytes) (z : ℤ) → parse_i32 s ≡ ok z → Spells s z × IsI32 z
unfolding parse_i32
parse_i32_sound [] z h = cc
parse_i32_sound (c ∷ s) z h = elim (Bool-cases (c == b'-')) [
  | inl minus ↦
      let (nat, e, fits) = negative_sound s z (rw minus at h) in
      (inl (s, ground arith, nat, e), fits)
  | inr no_minus ↦ elim (Bool-cases (c == b'+')) [
    | inl plus ↦
        let (nat, e, fits) = positive_sound s z (rw (no_minus, plus) at h) in
        (inr (inl (s, ground arith, nat, e)), fits)
    | inr no_plus ↦
        let (nat, e, fits) = positive_sound (c ∷ s) z (rw (no_minus, no_plus) at h) in
        (inr (inr (nat, e)), fits)
  ]
]
