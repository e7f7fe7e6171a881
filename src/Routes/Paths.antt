-- ===== src/Routes/Paths.antt =====
-- Where paths that end in a slash are dispatched.
use terminald.Base.{
  ℕ, [], ◌∷◌, ◌++◌, false, ◌||◌, ◌≡◌, ◌≢◌, refl, sym, ap, ◌∙◌, inl, inr, arith, Bytes, codes,
  Bool-cases,
}
use terminald.Text.{bytes_eq, ends_with}
use terminald.Text.Split.{bytes_eq_sound}
use terminald.Text.Find.{ends_with_sound, ends_with-append}
use terminald.Http.{Method}
use terminald.Routes.{is_extensionless_without_trailing_slash}

abbrev last_byte : Bytes → ℕ
last_byte [] = 0
last_byte (b ∷ []) = b
last_byte (b ∷ c ∷ s) = last_byte (c ∷ s)

last_byte-append : (s : Bytes) (c : ℕ) (t : Bytes) → last_byte (s ++ c ∷ t) ≡ last_byte (c ∷ t)
last_byte-append [] c t = refl
last_byte-append (b ∷ []) c t = refl
last_byte-append (b ∷ d ∷ s) c t = last_byte-append (d ∷ s) c t

-- A path with a slash at its end does not end in a text with another byte at its end.
ends_with_slash :
    (path t : Bytes) (c : ℕ)
    → last_byte (c ∷ t) ≢ b'/'
    → ends_with (path ++ codes "/") (c ∷ t) ≡ false
ends_with_slash path t c h = elim (Bool-cases (ends_with (path ++ codes "/") (c ∷ t))) [
  | inl e ↦
      let (p, whole) = ends_with_sound (path ++ codes "/") (c ∷ t) e in
      absurd (
        h (sym (last_byte-append p c t) ∙ sym (ap last_byte whole) ∙ last_byte-append path b'/' []))
  | inr n ↦ n
]

bytes_eq_slash :
    (path t : Bytes) (c : ℕ)
    → last_byte (c ∷ t) ≢ b'/'
    → bytes_eq (path ++ codes "/") (c ∷ t) ≡ false
bytes_eq_slash path t c h = elim (Bool-cases (bytes_eq (path ++ codes "/") (c ∷ t))) [
  | inl e ↦
      let whole = bytes_eq_sound (path ++ codes "/") (c ∷ t) e in
      absurd (h (sym (ap last_byte whole) ∙ last_byte-append path b'/' []))
  | inr n ↦ n
]

pub no_auth_check_slash :
    (path : Bytes)
    → (ends_with (path ++ codes "/") (codes "/auth/check")
        || bytes_eq (path ++ codes "/") (codes "/auth/check"))
      ≡ false
no_auth_check_slash path = rw (
  ends_with_slash path (codes "auth/check") b'/' (λ h. omega arith),
  bytes_eq_slash path (codes "auth/check") b'/' (λ h. omega arith),
)

pub no_socket_slash :
    (path : Bytes)
    → (ends_with (path ++ codes "/") (codes "/ws") || bytes_eq (path ++ codes "/") (codes "/ws"))
      ≡ false
no_socket_slash path = rw (
  ends_with_slash path (codes "ws") b'/' (λ h. omega arith),
  bytes_eq_slash path (codes "ws") b'/' (λ h. omega arith),
)

pub no_redirect_slash :
    (path : Bytes) (method : Method)
    → is_extensionless_without_trailing_slash (path ++ codes "/") method ≡ false
unfolding is_extensionless_without_trailing_slash
no_redirect_slash path method = ground (arith, ends_with-append path (codes "/"))
