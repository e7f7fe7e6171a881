-- ===== src/Text/Find.antt =====
-- Prefixes, suffixes and substrings: what the searches find.
use terminald.Base.{
  ℕ, zero, suc, [], ◌∷◌, ◌++◌, none, some, true, false, ◌≡◌, refl, ap, inl, inr, arith, Bytes, drop,
  Bool-cases,
}
use terminald.Text.{bytes_eq, starts_with, ends_with, strip_suffix, trim_start_matches, find}
use terminald.Text.Split.{bytes_eq_sound, bytes_eq_refl}

pub starts_with_sound : (s p : Bytes) → starts_with s p ≡ true → (t : Bytes) × (s ≡ p ++ t)
unfolding starts_with
starts_with_sound s [] h = (s, refl)
starts_with_sound [] (p ∷ ps) h = (p ∷ ps, cc)
starts_with_sound (c ∷ s) (p ∷ ps) h =
    let (t, e) = starts_with_sound s ps (ground arith) in (t, ground arith)

pub starts_with-append : (p t : Bytes) → starts_with (p ++ t) p ≡ true
unfolding starts_with
starts_with-append [] t = refl
starts_with-append (c ∷ p) t = ground (arith, starts_with-append p t)

pub ends_with-append : (s t : Bytes) → ends_with (s ++ t) t ≡ true
unfolding ends_with
ends_with-append [] [] = refl
ends_with-append [] (d ∷ t) = ground (arith, bytes_eq_refl (d ∷ t))
ends_with-append (c ∷ s) t = ground (arith, ends_with-append s t)

pub ends_with_complete : (s p t : Bytes) → s ≡ p ++ t → ends_with s t ≡ true
ends_with_complete s p t e = rw e (ends_with-append p t)

pub ends_with_sound : (s t : Bytes) → ends_with s t ≡ true → (p : Bytes) × (s ≡ p ++ t)
unfolding ends_with
ends_with_sound [] t h = ([], bytes_eq_sound [] t h)
ends_with_sound (c ∷ s) t h = elim (Bool-cases (bytes_eq (c ∷ s) t)) [
  | inl e ↦ ([], bytes_eq_sound (c ∷ s) t e)
  | inr n ↦ let (p, e) = ends_with_sound s t (ground arith) in (c ∷ p, ap (◌∷◌ c) e)
]

pub strip_suffix_sound : (s t : Bytes) {p : Bytes} → strip_suffix s t ≡ some p → s ≡ p ++ t
unfolding strip_suffix
strip_suffix_sound [] t h = ground (arith, bytes_eq_sound [] t)
strip_suffix_sound (c ∷ s) t {p = []} h = ground (arith, bytes_eq_sound (c ∷ s) t)
strip_suffix_sound (c ∷ s) t {p = x ∷ p} h = ground (arith, strip_suffix_sound s t {p = p})

pub strip_suffix-none : (s t : Bytes) → strip_suffix s t ≡ none → ends_with s t ≡ false
unfolding strip_suffix ends_with
strip_suffix-none [] t h = ground arith
strip_suffix-none (c ∷ s) t h = ground (arith, strip_suffix-none s t)

-- The match stands where `find` says.
pub find_sound : (p s : Bytes) (i : ℕ) → find p s ≡ some i → (t : Bytes) × (drop i s ≡ p ++ t)
unfolding find
find_sound p [] zero h = starts_with_sound [] p (ground arith)
find_sound p [] (suc i) h = absurd (ground arith)
find_sound p (c ∷ s) zero h = starts_with_sound (c ∷ s) p (ground arith)
find_sound p (c ∷ s) (suc i) h = find_sound p s i (ground arith)

pub trim_start_matches_head :
    (b : ℕ) (s : Bytes) → starts_with (trim_start_matches b s) (b ∷ []) ≡ false
unfolding trim_start_matches starts_with
trim_start_matches_head b [] = refl
trim_start_matches_head b (c ∷ s) = ground (arith, trim_start_matches_head b s)
