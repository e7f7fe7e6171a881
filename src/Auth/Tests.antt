-- ===== src/Auth/Tests.antt =====
-- Authentication at concrete inputs, with a stand-in for `base64` that leaves visible text as it is.
use terminald.Base.{
  ℕ, zero, suc, ◌==◌, ◌∙◌, [], ◌∷◌, ◌++◌, ◌+◌, Option, none, some, Bool, true, false, ◌≡◌, ◌↔◌,
  refl, arith, Bytes, All, codes, leb, ◌&&◌, if◌then◌else◌,
}
use text.Mathlib.Text.{◌==◌ as str_eq}
use native.Mathlib.Nat.{add-zero, zero-add}
use terminald.Text.{split_once}
use terminald.Http.{HeaderMap, HttpCrate, IsHttp, Base64, IsBase64, IsVisible}
use terminald.Auth.{Credential, basic, new, constant_time_eq, validate_headers}
use terminald.Auth.Compare.{constant_time_eq_iff}
use terminald.Auth.Access.{Grants, authorization_value, validate_headers_iff}

-- `to_str` of visible ASCII, and no other text.
abbrev pub all_visible : Bytes → Bool
all_visible [] = true
all_visible (b ∷ s) = leb 0x20 b && leb b 0x7e && all_visible s

abbrev pub visible_text : Bytes → Option Bytes
visible_text s = if all_visible s then some s else none

abbrev pub ascii_http : HttpCrate
ascii_http = record { to_str = visible_text }

all_visible_complete : (s : Bytes) → All IsVisible s → all_visible s ≡ true
all_visible_complete [] h = refl
all_visible_complete (b ∷ s) h = ground (arith, all_visible_complete s h.1)

visible_text_same : (v s : Bytes) → visible_text v ≡ some s → s ≡ v
visible_text_same v s h = ground arith

pub ascii_http-IsHttp : IsHttp ascii_http
ascii_http-IsHttp = record {
  same = visible_text_same;
  visible = λ v h. rw (all_visible_complete v h);
}

-- A number is coded as a run of `a` with `b` behind it.
abbrev pub run_code : ℕ → Bytes → Bytes
run_code zero rest = b'b' ∷ rest
run_code (suc n) rest = b'a' ∷ run_code n rest

abbrev pub run_encode : Bytes → Bytes
run_encode [] = []
run_encode (n ∷ s) = run_code n (run_encode s)

abbrev pub cons_code : ℕ → Option Bytes → Option Bytes
cons_code n none = none
cons_code n (some s) = some (n ∷ s)

abbrev pub run_decode : ℕ → Bytes → Option Bytes
run_decode n [] = some []
run_decode n (c ∷ s) =
    let more = run_decode (suc n) s in
    let next = cons_code n (run_decode 0 s) in if c == b'a' then more else next

abbrev pub runs : Base64
runs = record { encode = run_encode; decode = run_decode 0 }

shift : (k n : ℕ) → suc k + n ≡ k + suc n
shift k n = omega arith

run_decode-run_code :
    (k n : ℕ) (s : Bytes) → run_decode k (run_code n s) ≡ cons_code (k + n) (run_decode 0 s)
run_decode-run_code k zero s = rw (add-zero k)
run_decode-run_code k (suc n) s = run_decode-run_code (suc k) n s ∙ rw (shift k n)

run_decode-run_encode : (s : Bytes) → run_decode 0 (run_encode s) ≡ some s
run_decode-run_encode [] = refl
run_decode-run_encode (n ∷ s) =
    run_decode-run_code 0 n (run_encode s) ∙ rw (run_decode-run_encode s, zero-add n)

run_code-IsVisible : (n : ℕ) (s : Bytes) → All IsVisible s → All IsVisible (run_code n s)
run_code-IsVisible zero s h = ((omega arith, omega arith), h)
run_code-IsVisible (suc n) s h = ((omega arith, omega arith), run_code-IsVisible n s h)

run_encode-IsVisible : (s : Bytes) → All IsVisible (run_encode s)
run_encode-IsVisible [] = tt
run_encode-IsVisible (n ∷ s) = run_code-IsVisible n (run_encode s) (run_encode-IsVisible s)

pub runs-IsBase64 : IsBase64 runs
runs-IsBase64 = record { decodes = run_decode-run_encode; encode_visible = run_encode-IsVisible }

abbrev pub alice : Credential
alice = record { username = 3 ∷ []; password = b':' ∷ 5 ∷ [] }

-- The headers of a request that names the credential.
abbrev pub headers_for : Credential → HeaderMap
headers_for c name = if str_eq name "authorization" then some (authorization_value runs c) else none

-- A password may hold a colon, a user name may not.
first_colon : new (codes "a:b:c") ≡ some (record { username = codes "a"; password = codes "b:c" })
unfolding new split_once
first_colon = refl

shorter_differs : constant_time_eq (codes "ab") (codes "ab" ++ 0 ∷ []) ≡ false
unfolding constant_time_eq
shorter_differs = refl

constant_time_eq_iff_example :
    (constant_time_eq (codes "ab") (codes "ac") ≡ true) ↔ (codes "ab" ≡ codes "ac")
constant_time_eq_iff_example = constant_time_eq_iff (codes "ab") (codes "ac")

validate_headers_iff_example :
    (validate_headers ascii_http runs (basic alice) (headers_for alice) ≡ true)
    ↔ Grants runs (basic alice) (headers_for alice)
validate_headers_iff_example =
    validate_headers_iff ascii_http ascii_http-IsHttp runs runs-IsBase64 (basic alice)
      (headers_for alice)
