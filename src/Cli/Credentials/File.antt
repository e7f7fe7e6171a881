-- ===== src/Cli/Credentials/File.antt =====
-- What a credential file may hold.
use terminald.Base.{
  ℕ, [], ◌∷◌, ◌++◌, Option, none, some, true, false, ◌||◌, ◌≡◌, ◌↔◌, refl, sym, ap, subst, ◌∙◌, ◌⊎◌,
  ◌≢◌, All, inl, inr, append-nil, append_assoc, arith, Bytes, length, length-append, contains,
  Bool-cases, Option-cases, text, Result, ok, >>=-eq-ok, with_shown_context,
  with_shown_context-eq-ok,
}
use terminald.Text.{strip_suffix}
use terminald.Text.Find.{strip_suffix_sound, strip_suffix-none, ends_with-append}
use terminald.Auth.{Credential, new, to_basic_pair}
use terminald.Auth.Credentials.{IsCredential, new-to_basic_pair, new_sound}
use terminald.Cli.Credentials.{
  CredentialArgs, resolve, value_of, parse, checked_new, check_line, line_of, first_of,
  holds_line_end,
}

abbrev pub IsLineEnd : Bytes → Type 0
IsLineEnd e = (e ≡ []) ⊎ (e ≡ b'\n' ∷ []) ⊎ (e ≡ b'\r' ∷ b'\n' ∷ [])

-- A byte that neither ends a line nor a C string.
abbrev pub IsLineByte : ℕ → Type 0
IsLineByte b = (b ≢ b'\r') × (b ≢ b'\n') × (b ≢ 0)

-- Where the text of a credential came from: the argument, or a file that holds it on its only line.
abbrev pub Holds : (Bytes → Result Bytes) → CredentialArgs → Option Bytes → Bytes → Type 0
Holds read args none line = args.credential ≡ some line
Holds read args (some path) line =
    All IsLineByte line × (e : Bytes) × IsLineEnd e × (read path ≡ ok (line ++ e))

line-IsLineByte : (line : Bytes) → holds_line_end line ≡ false → All IsLineByte line
unfolding holds_line_end
line-IsLineByte [] h = tt
line-IsLineByte (b ∷ line) h = (
  ((λ e. ground arith), (λ e. ground arith), (λ e. ground arith)),
  line-IsLineByte line (ground arith),
)

holds_line_end-IsLineByte : (line : Bytes) → All IsLineByte line → holds_line_end line ≡ false
unfolding holds_line_end
holds_line_end-IsLineByte [] h = refl
holds_line_end-IsLineByte (b ∷ line) ((cr, lf, nul), h) =
    ground (arith, holds_line_end-IsLineByte line h)

contains-append : (b : ℕ) (s t : Bytes) → contains b (s ++ t) ≡ (contains b s || contains b t)
contains-append b [] t = refl
contains-append b (c ∷ s) t = ground (arith, contains-append b s t)

line_of_cases :
    (value : Bytes) (o q : Option Bytes)
    → strip_suffix value (b'\r' ∷ b'\n' ∷ []) ≡ o
    → strip_suffix value (b'\n' ∷ []) ≡ q
    → (e : Bytes) × IsLineEnd e × (value ≡ first_of o q value ++ e)
unfolding first_of
line_of_cases value (some p) q h k =
    (b'\r' ∷ b'\n' ∷ [], inr (inr refl), strip_suffix_sound value _ h)
line_of_cases value none (some p) h k = (b'\n' ∷ [], inr (inl refl), strip_suffix_sound value _ k)
line_of_cases value none none h k = ([], inl refl, sym (append-nil value))

line_of_sound : (value : Bytes) → (e : Bytes) × IsLineEnd e × (value ≡ line_of value ++ e)
unfolding line_of
line_of_sound value = line_of_cases value _ _ refl refl

append_cancel_right : (s p t : Bytes) → s ++ t ≡ p ++ t → s ≡ p
append_cancel_right [] [] t h = refl
append_cancel_right [] (c ∷ p) t h = absurd (omega (arith, ap length h, length-append p t))
append_cancel_right (c ∷ s) [] t h = absurd (omega (arith, ap length h, length-append s t))
append_cancel_right (c ∷ s) (d ∷ p) t h =
    let heads : c ≡ d = cc in
    let tails : s ++ t ≡ p ++ t = cc in let same = append_cancel_right s p t tails in cc

strip_suffix-append : (s t : Bytes) → strip_suffix (s ++ t) t ≡ some s
strip_suffix-append s t = elim (Option-cases (strip_suffix (s ++ t) t)) [
  | inl e ↦ let n = strip_suffix-none (s ++ t) t e in let y = ends_with-append s t in cc
  | inr (p, e) ↦ e ∙ ap some (sym (append_cancel_right s p t (strip_suffix_sound (s ++ t) t e)))
]

-- A text that lacks a byte does not end in a text that holds it.
no_suffix :
    (b : ℕ) (s t : Bytes) → contains b s ≡ false → contains b t ≡ true → strip_suffix s t ≡ none
no_suffix b s t h k = elim (Option-cases (strip_suffix s t)) [
  | inl e ↦ e
  | inr (p, e) ↦
      let whole = ap (contains b) (strip_suffix_sound s t e) ∙ contains-append b p t in
      absurd (ground (arith, whole))
]

-- A line with a line end that lacks CR and LF itself is taken back.
not_crlf :
    (line : Bytes)
    → contains b'\r' line ≡ false
    → strip_suffix (line ++ b'\n' ∷ []) (b'\r' ∷ b'\n' ∷ []) ≡ none
not_crlf line h = elim (Option-cases (strip_suffix (line ++ b'\n' ∷ []) (b'\r' ∷ b'\n' ∷ []))) [
  | inl e ↦ e
  | inr (p, e) ↦
      let same =
        strip_suffix_sound (line ++ b'\n' ∷ []) _ e
        ∙ sym (append_assoc p (b'\r' ∷ []) (b'\n' ∷ [])) in
      let shorter = append_cancel_right line (p ++ b'\r' ∷ []) (b'\n' ∷ []) same in
      let whole = ap (contains b'\r') shorter ∙ contains-append b'\r' p (b'\r' ∷ []) in
      absurd (ground (arith, whole))
]

line_of_complete :
    (line e : Bytes)
    → contains b'\r' line ≡ false
    → contains b'\n' line ≡ false
    → IsLineEnd e
    → line_of (line ++ e) ≡ line
unfolding line_of first_of
line_of_complete line e cr lf (inl h) = rw (
  h,
  append-nil line,
  no_suffix b'\r' line (b'\r' ∷ b'\n' ∷ []) cr refl,
  no_suffix b'\n' line (b'\n' ∷ []) lf refl,
)
line_of_complete line e cr lf (inr (inl h)) =
    rw (h, not_crlf line cr, strip_suffix-append line (b'\n' ∷ []))
line_of_complete line e cr lf (inr (inr h)) = rw (h, strip_suffix-append line (b'\r' ∷ b'\n' ∷ []))

check_line_sound :
    (line : Bytes) (v : Option Bytes)
    → check_line line ≡ ok v
    → (holds_line_end line ≡ false) × (v ≡ some line)
unfolding check_line
check_line_sound line v h = elim (Bool-cases (holds_line_end line)) [
  | inl e ↦ let refused = rw e at h in cc
  | inr n ↦ let passed = rw n at h in (n, cc)
]

parse_sound :
    (v : Option Bytes) (c : Credential)
    → parse v ≡ ok (some c)
    → (line : Bytes) × (v ≡ some line) × (new line ≡ some c)
unfolding parse checked_new
parse_sound none c h = cc
parse_sound (some line) c h = (line, refl, checked (new line) h)
  where
    checked : (o : Option Credential) → checked_new o ≡ ok (some c) → o ≡ some c
    checked none e = cc
    checked (some d) e = cc

module _ (read : Bytes → Result Bytes) where
  value_of_sound :
      (args : CredentialArgs) (path : Option Bytes) (line : Bytes)
      → value_of read args.credential path ≡ ok (some line)
      → Holds read args path line
  unfolding value_of
  value_of_sound args none line h = cc
  value_of_sound args (some path) line h =
      let (value, was_read, checked) =
        >>=-eq-ok (with_shown_context (read path) "read credential file " (text path))
          (λ v. check_line (line_of v)) h in
      let (clean, same) = check_line_sound (line_of value) (some line) checked in
      let lines : line_of value ≡ line = cc in
      let (e, ends, whole) = line_of_sound value in
      (
        line-IsLineByte line (ap holds_line_end (sym lines) ∙ clean),
        e,
        ends,
        with_shown_context-eq-ok _ _ _ was_read ∙ ap ok (whole ∙ ap (λ l. l ++ e) lines),
      )

  value_of_complete :
      (args : CredentialArgs) (path : Option Bytes) (line : Bytes)
      → Holds read args path line
      → value_of read args.credential path ≡ ok (some line)
  unfolding value_of check_line
  value_of_complete args none line h = ap ok h
  value_of_complete args (some path) line (good, e, ends, was_read) =
      let clean = holds_line_end-IsLineByte line good in
      rw (was_read, line_of_complete line e (ground arith) (ground arith) ends) (checks clean)
    where
      checks : holds_line_end line ≡ false → check_line line ≡ ok (some line)
      checks h = rw h

  -- The arguments give a credential exactly when the argument `--credential` is the text of its pair,
  -- or, if a file is named, when the file holds that text as its only line, with the line end `\n` or
  -- `\r\n` or none, and no byte of the text is CR, LF or NUL. The user name then has no colon.
  pub resolve_iff :
      (args : CredentialArgs) (c : Credential)
      → (resolve read args ≡ ok (some c))
        ↔ (IsCredential c × Holds read args args.credential_file (to_basic_pair c))
  unfolding resolve parse checked_new
  resolve_iff args c = (
    λ h.
        let (v, found, parsed) =
          >>=-eq-ok (value_of read args.credential args.credential_file) parse h in
        let (line, is_line, is_new) = parse_sound v c parsed in
        let (good, pair) = new_sound line c is_new in
        (
          good,
          subst (Holds read args args.credential_file) (sym pair)
              (value_of_sound args args.credential_file line (found ∙ ap ok is_line)),
        ),
    λ (good, holds).
        rw (value_of_complete args args.credential_file (to_basic_pair c) holds) (parses good),
  )
    where
      parses : IsCredential c → parse (some (to_basic_pair c)) ≡ ok (some c)
      parses good = rw (new-to_basic_pair c good)
