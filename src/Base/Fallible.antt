-- ===== src/Base/Fallible.antt =====
-- `anyhow::Result`: an error is what the source builds it from. `{error:#}` is not computed here.
use Prim.Native.Nat.{ℕ}
use Prim.Native.String.{String}
use mathlib.Core.Path.{◌≡◌, refl}
use mathlib.Core.List.{List}
use terminald.Base.Lists.{Bytes}

-- `message` is `anyhow!`/`bail!` with a literal, `formatted` with a literal and the text of a value
-- behind it, `os` is `io::Error::last_os_error()` with its errno, `foreign` is an error that another
-- library returns, with its text, and `context` and `context_with` are `.context` and `.with_context`.
pub data IpAddr : Type 0 where
  v4 : ℕ → ℕ → ℕ → ℕ → IpAddr
  v6 : List ℕ → IpAddr

-- A value in an error text: its bytes, or a socket address.
pub data Shown : Type 0 where
  text : Bytes → Shown
  address : IpAddr → ℕ → Shown

pub data Error : Type 0 where
  message : String → Error
  formatted : String → Bytes → Error
  os : ℕ → Error
  foreign : Bytes → Error
  context : String → Error → Error
  context_with : String → Shown → Error → Error

pub data Result {ℓ} (A : Type ℓ) : Type ℓ where
  ok : A → Result A
  err : Error → Result A

infixl 5 ◌>>=◌
abbrev pub ◌>>=◌ {ℓ κ} : {A : Type ℓ} {B : Type κ} → Result A → (A → Result B) → Result B
err failed >>= f = err failed
ok value >>= f = f value

-- `Result::context` and `with_context`.
abbrev pub with_context {ℓ} : {A : Type ℓ} → Result A → String → Result A
with_context (ok a) s = ok a
with_context (err e) s = err (context s e)

abbrev pub with_shown_context {ℓ} : {A : Type ℓ} → Result A → String → Shown → Result A
with_shown_context (ok a) s v = ok a
with_shown_context (err e) s v = err (context_with s v e)

-- A chain that succeeds has succeeded at its first part, with the value that the rest is run on.
pub >>=-eq-ok {ℓ κ} :
    {A : Type ℓ} {B : Type κ} (first : Result A) (rest : A → Result B) {y : B}
    → (first >>= rest) ≡ ok y
    → (x : A) × (first ≡ ok x) × (rest x ≡ ok y)
>>=-eq-ok (err failed) rest h = cc
>>=-eq-ok (ok x) rest h = (x, refl, h)

-- What is wrapped with a context has succeeded if the whole has.
pub with_context-eq-ok {ℓ} :
    {A : Type ℓ} (m : Result A) (s : String) {a : A} → with_context m s ≡ ok a → m ≡ ok a
with_context-eq-ok (ok x) s h = h
with_context-eq-ok (err e) s h = cc

pub with_shown_context-eq-ok {ℓ} :
    {A : Type ℓ} (m : Result A) (s : String) (v : Shown) {a : A}
    → with_shown_context m s v ≡ ok a
    → m ≡ ok a
with_shown_context-eq-ok (ok x) s v h = h
with_shown_context-eq-ok (err e) s v h = cc
