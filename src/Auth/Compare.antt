-- ===== src/Auth/Compare.antt =====
-- The comparison that takes the same number of rounds for all inputs of these lengths decides equality.
use Prim.Native.Nat.{bit_or, bit_xor}
use terminald.Base.{
  ℕ, zero, suc, max, [], ◌∷◌, ◌≡◌, ◌↔◌, refl, sym, ◌∙◌, true, arith, Bytes, length, ==_iff,
}
use terminald.Bits.{bit_or-eq-zero, bit_xor-eq-zero, bit_xor_self}
use terminald.Auth.{compare_rounds, constant_time_eq}

-- A round in which the bytes differ is never made up for.
compare_rounds-eq-zero : (k i : ℕ) (l r : Bytes) (d : ℕ) → compare_rounds k i l r d ≡ 0 → d ≡ 0
unfolding compare_rounds
compare_rounds-eq-zero zero i l r d h = h
compare_rounds-eq-zero (suc k) i l r d h =
    (bit_or-eq-zero d _ (compare_rounds-eq-zero k (suc i) l r _ h)).0

compare_rounds-cons :
    (k i x y : ℕ) (l r : Bytes) (d : ℕ)
    → compare_rounds k (suc i) (x ∷ l) (y ∷ r) d ≡ compare_rounds k i l r d
unfolding compare_rounds
compare_rounds-cons zero i x y l r d = refl
compare_rounds-cons (suc k) i x y l r d = compare_rounds-cons k (suc i) x y l r _

compare_rounds_sound :
    (l r : Bytes) (d : ℕ) → length l ≡ length r → compare_rounds (length l) 0 l r d ≡ 0 → l ≡ r
unfolding compare_rounds
compare_rounds_sound [] [] d e h = refl
compare_rounds_sound [] (y ∷ r) d e h = absurd (omega arith)
compare_rounds_sound (x ∷ l) [] d e h = absurd (omega arith)
compare_rounds_sound (x ∷ l) (y ∷ r) d e h =
    let rest = sym (compare_rounds-cons (length l) 0 x y l r (bit_or d (bit_xor x y))) ∙ h in
    let same : x ≡ y =
      bit_xor-eq-zero x y (bit_or-eq-zero d _ (compare_rounds-eq-zero (length l) 0 l r _ rest)).1 in
    cc (same, compare_rounds_sound l r (bit_or d (bit_xor x y)) (omega arith) rest)

compare_rounds_self : (k i : ℕ) (l : Bytes) → compare_rounds k i l l 0 ≡ 0
unfolding compare_rounds
compare_rounds_self zero i l = refl
compare_rounds_self (suc k) i l = rw bit_xor_self (compare_rounds_self k (suc i) l)

constant_time_eq_sound : (l r : Bytes) → constant_time_eq l r ≡ true → l ≡ r
unfolding constant_time_eq
constant_time_eq_sound l r h =
    let k = max (length l) (length r) in
    let zero_diff = (==_iff _ 0).0 h in
    let same : length l ≡ length r =
      bit_xor-eq-zero _ _ (compare_rounds-eq-zero k 0 l r _ zero_diff) in
    let rounds : k ≡ length l = omega arith in
    compare_rounds_sound l r _ same (rw rounds at zero_diff)

constant_time_eq_refl : (l : Bytes) → constant_time_eq l l ≡ true
unfolding constant_time_eq
constant_time_eq_refl l = rw (bit_xor_self, compare_rounds_self)

-- `constant_time_eq` holds of two byte strings exactly when they are equal, also where one is a
-- prefix of the other and the missing bytes read as 0.
pub constant_time_eq_iff : (l r : Bytes) → (constant_time_eq l r ≡ true) ↔ (l ≡ r)
constant_time_eq_iff l r = (constant_time_eq_sound l r, λ e. rw (← e) (constant_time_eq_refl l))
