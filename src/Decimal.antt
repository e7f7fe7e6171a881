-- ===== src/Decimal.antt =====
-- `ToString` and `FromStr` of the integers that the crates print and read (`i32` exit codes, the `u8`
-- prefix in an error text), as the standard library documents them.
pub mod Print
pub mod Parse
use terminald.Base.Int.{ℤ, pos, negsuc, negate}
use terminald.Base.{
  ℕ, zero, suc, ◌+◌, ◌-◌, ◌*◌, ◌/◌, ◌%◌, ◌^◌, [], ◌∷◌, ◌++◌, Bool, true, false, ◌||◌, Bytes, Error,
  message, Result, ok, err, ◌>>=◌, ltb, ◌==◌, if◌then◌else◌,
}

-- The digits of `n`; each round divides by ten, so `n + 1` rounds are enough.
digits : ℕ → ℕ → Bytes
digits zero n = []
digits (suc fuel) n =
    let front = digits fuel (n / 10) in
    if ltb n 10 then (b'0' + n) ∷ [] else front ++ (b'0' + n % 10) ∷ []

-- `n.to_string()` of an unsigned number.
unfoldable pub print_ℕ : ℕ → Bytes
unfolding digits
print_ℕ n = digits (suc n) n

-- `n.to_string()` of a signed number.
unfoldable pub print_ℤ : ℤ → Bytes
unfolding print_ℕ
print_ℤ (pos n) = print_ℕ n
print_ℤ (negsuc n) = b'-' ∷ print_ℕ (suc n)

abbrev pub invalid_digit : Error
invalid_digit = message "invalid digit found in string"

abbrev pub too_large : Error
too_large = message "number too large to fit in target type"

abbrev pub too_small : Error
too_small = message "number too small to fit in target type"

-- `limit` is the greatest magnitude; each round multiplies and adds with a check.
scan : ℕ → Error → Bytes → ℕ → Result ℕ
scan limit beyond [] n = ok n
scan limit beyond (c ∷ s) n =
    if ltb c b'0' || ltb b'9' c
    then err invalid_digit
    else if ltb limit (n * 10)
    then err beyond
    else if ltb limit (n * 10 + (c - b'0'))
    then err beyond
    else scan limit beyond s (n * 10 + (c - b'0'))

-- A sign alone is no number.
magnitude : ℕ → Error → Bytes → Result ℕ
unfolding scan
magnitude limit beyond [] = err invalid_digit
magnitude limit beyond (c ∷ s) = scan limit beyond (c ∷ s) 0

positive : Bytes → Result ℤ
unfolding magnitude
positive s = magnitude (2 ^ 31 - 1) too_large s >>= λ n. ok (pos n)

negative : Bytes → Result ℤ
unfolding magnitude
negative s = magnitude (2 ^ 31) too_small s >>= λ n. ok (negate n)

-- `s.parse::<i32>()`.
unfoldable pub parse_i32 : Bytes → Result ℤ
unfolding positive negative
parse_i32 [] = err (message "cannot parse integer from empty string")
parse_i32 (c ∷ s) =
    if c == b'-' then negative s else if c == b'+' then positive s else positive (c ∷ s)
