-- ===== src/Decimal/Print.antt =====
-- An `i32` is read back from its text.
use terminald.Base.Int.{ℤ, pos, negsuc, IsI32}
use terminald.Base.{
  ℕ, zero, suc, ◌+◌, ◌-◌, ◌/◌, ◌%◌, ◌^◌, ◌≤◌, ◌<◌, [], ◌∷◌, ◌++◌, append_assoc, append-nil, ◌≡◌,
  refl, ◌∙◌, inl, inr, arith, Bytes, All, All-append, Error, ok, ltb, Bool-cases,
}
use terminald.Decimal.{
  digits, print_ℕ, print_ℤ, scan, magnitude, positive, negative, parse_i32, too_large, too_small,
}

abbrev pub IsDigit : ℕ → Type 0
IsDigit c = (b'0' ≤ c) × (c ≤ b'9')

abbrev IsNumeral : Bytes → Type 0
IsNumeral s = (c : ℕ) × (t : Bytes) × (s ≡ c ∷ t) × IsDigit c × All IsDigit t

IsNumeral-append : (s : Bytes) (d : ℕ) → IsNumeral s → IsDigit d → IsNumeral (s ++ d ∷ [])
IsNumeral-append s d (c, t, e, hc, ht) hd =
    (c, t ++ d ∷ [], rw e, hc, All-append IsDigit t (d ∷ []) ht (hd, tt))

digits-IsNumeral : (fuel n : ℕ) → n < fuel → IsNumeral (digits fuel n)
unfolding digits
digits-IsNumeral zero n h = absurd (omega arith)
digits-IsNumeral (suc fuel) n h = elim (Bool-cases (ltb n 10)) [
  | inl small ↦ (b'0' + n, [], rw small, (omega arith, ground arith), tt)
  | inr big ↦ rw big (
      IsNumeral-append _ _ (digits-IsNumeral fuel (n / 10) (ground arith))
        (omega arith, omega arith))
]

module _ (limit : ℕ) (beyond : Error) where
  scan_digit :
      (n : ℕ) (s : Bytes)
      → n ≤ limit
      → scan limit beyond ((b'0' + n % 10) ∷ s) (n / 10) ≡ scan limit beyond s n
  unfolding scan
  scan_digit n s h = ground arith

  scan_small :
      (n : ℕ) (s : Bytes)
      → n < 10
      → n ≤ limit
      → scan limit beyond ((b'0' + n) ∷ s) 0 ≡ scan limit beyond s n
  unfolding scan
  scan_small n s small h = ground arith

  scan-digits :
      (fuel n : ℕ) (rest : Bytes)
      → n < fuel
      → n ≤ limit
      → scan limit beyond (digits fuel n ++ rest) 0 ≡ scan limit beyond rest n
  unfolding digits
  scan-digits zero n rest h k = absurd (omega arith)
  scan-digits (suc fuel) n rest h k = elim (Bool-cases (ltb n 10)) [
    | inl small ↦ rw small (scan_small n rest (ground arith) k)
    | inr big ↦
        rw (big, append_assoc)
          (scan-digits fuel (n / 10) ((b'0' + n % 10) ∷ rest) (ground arith) (omega arith)
            ∙ scan_digit n rest k)
  ]

  magnitude-scan : (s : Bytes) → IsNumeral s → magnitude limit beyond s ≡ scan limit beyond s 0
  unfolding magnitude
  magnitude-scan s (c, t, e, _, _) = rw e

  magnitude-print_ℕ : (n : ℕ) → n ≤ limit → magnitude limit beyond (print_ℕ n) ≡ ok n
  unfolding print_ℕ
  magnitude-print_ℕ n h =
      let scanned : scan limit beyond (digits (suc n) n ++ []) 0 ≡ ok n =
        unfold scan in scan-digits (suc n) n [] (omega arith) h in
      magnitude-scan _ (digits-IsNumeral (suc n) n (omega arith))
      ∙ rw (append-nil (digits (suc n) n)) at scanned

pub print_ℕ-IsDigit : (n : ℕ) → All IsDigit (print_ℕ n)
unfolding print_ℕ
print_ℕ-IsDigit n =
    let (c, t, e, hc, ht) = digits-IsNumeral (suc n) n (omega arith) in rw e (hc, ht)

-- A text that begins with a digit has no sign.
parse_unsigned : (s : Bytes) → IsNumeral s → parse_i32 s ≡ positive s
unfolding parse_i32
parse_unsigned s (c, t, e, hc, ht) = rw e (ground arith)

parse_signed : (s : Bytes) → parse_i32 (b'-' ∷ s) ≡ negative s
unfolding parse_i32
parse_signed s = refl

-- Every `i32` is read back from its text.
pub parse_i32-print_ℤ : (z : ℤ) → IsI32 z → parse_i32 (print_ℤ z) ≡ ok z
unfolding print_ℤ
parse_i32-print_ℤ (pos n) h =
    parse_unsigned (print_ℕ n) (unfold print_ℕ in digits-IsNumeral (suc n) n (omega arith))
    ∙ unfold positive in rw (magnitude-print_ℕ (2 ^ 31 - 1) too_large n h)
parse_i32-print_ℤ (negsuc n) h =
    parse_signed (print_ℕ (suc n))
    ∙ unfold negative in rw (magnitude-print_ℕ (2 ^ 31) too_small (suc n) h)
