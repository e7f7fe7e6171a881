-- ===== src/Auth/Pairs.antt =====
-- `Credential::new` and `to_basic_pair` as one equality of types: the credentials whose user name holds no
-- colon are the texts with a colon.
use mathlib.Core.Bool.{Bool-set}
use mathlib.Core.Equiv.{◌≃◌, iso_to_equiv}
use mathlib.Core.HLevel.{Σ_prop_path}
use mathlib.Core.Path.{transport, transport⁻¹, transport_refl, coe-coe}
use terminald.Base.{
  ℕ, [], ◌∷◌, ◌++◌, some, true, false, inl, inr, Option-cases, ◌≡◌, refl, sym, ap, ◌∙◌, arith,
  Bytes, contains,
}
use terminald.Auth.{Credential, new, to_basic_pair}
use terminald.Auth.Credentials.{IsCredential, new-to_basic_pair, new_sound, new-none_iff}

-- The credentials that `Credential::new` makes.
abbrev pub WellFormed : Type 0
WellFormed = (c : Credential) × IsCredential c

-- The texts that it takes.
abbrev pub PairText : Type 0
PairText = (value : Bytes) × (contains b':' value ≡ true)

contains-append : (b : ℕ) (xs ys : Bytes) → contains b (xs ++ b ∷ ys) ≡ true
contains-append b [] ys = ground arith
contains-append b (x ∷ xs) ys = rw (contains-append b xs ys) (ground arith)

abbrev to_text : WellFormed → PairText
to_text (c, h) = (c.username ++ b':' ∷ c.password, contains-append b':' c.username c.password)

reads : (t : PairText) → (c : Credential) × (new t.0 ≡ some c)
reads (value, h) = elim (Option-cases (new value)) [
  | inl refused ↦ absurd (let lacks = (new-none_iff value).0 refused in cc)
  | inr found ↦ found
]

abbrev of_text : PairText → WellFormed
of_text t = ((reads t).0, (new_sound t.0 (reads t).0 (reads t).1).0)

same_text : (s t : PairText) → s.0 ≡ t.0 → s ≡ t
same_text s t e = Σ_prop_path (λ value. Bool-set (contains b':' value) true) e

same_credential : (c d : WellFormed) → c.0 ≡ d.0 → c ≡ d
same_credential c d e = Σ_prop_path (λ x. Bool-set (contains b':' x.username) false) e

to_text-pair : (c : WellFormed) → (to_text c).0 ≡ to_basic_pair c.0
unfolding to_basic_pair
to_text-pair c = refl

to_text-of_text : (t : PairText) → to_text (of_text t) ≡ t
to_text-of_text t =
    same_text (to_text (of_text t)) t
      (to_text-pair (of_text t) ∙ (new_sound t.0 (reads t).0 (reads t).1).1)

of_text-to_text : (c : WellFormed) → of_text (to_text c) ≡ c
of_text-to_text c =
    let read : some (of_text (to_text c)).0 ≡ some c.0 =
      sym (reads (to_text c)).1 ∙ ap new (to_text-pair c) ∙ new-to_basic_pair c.0 c.1 in
    same_credential (of_text (to_text c)) c (cc)

texts : WellFormed ≃ PairText
texts =
    iso_to_equiv
      (record { fun = to_text; inv = of_text; rinv = to_text-of_text; linv = of_text-to_text })

ua {ℓ} : {A B : Type ℓ} → A ≃ B → A ≡ B
ua {A = A} {B = B} e = λ i. V i A B e

transport-ua {ℓ} : {A B : Type ℓ} (e : A ≃ B) (a : A) → transport (ua e) a ≡ e.0 a
unfolding ua transport
transport-ua e a = transport_refl (e.0 a)

back_and_forth {ℓ} : {A B : Type ℓ} (p : A ≡ B) (b : B) → transport p (transport⁻¹ p b) ≡ b
unfolding transport transport⁻¹
back_and_forth p b = coe-coe (λ i. p i) 1 0 1 b

-- The credentials whose user name holds no colon and the texts with a colon are equal types, by an
-- equality along which a credential goes to the text of its pair, and a text to what it is read as.
pub credentials_are_texts :
    (p : WellFormed ≡ PairText) × ((c : WellFormed) → (transport p c).0 ≡ to_basic_pair c.0)
    × ((t : PairText) → new t.0 ≡ some (transport⁻¹ p t).0)
unfolding texts
credentials_are_texts =
    let p : WellFormed ≡ PairText = ua texts in
    let forth : (c : WellFormed) → (transport p c).0 ≡ to_basic_pair c.0 =
      λ c. ap (λ t. t.0) (transport-ua texts c) ∙ to_text-pair c in
    (
      p,
      forth,
      λ t.
          let c = transport⁻¹ p t in
          ap new (sym (ap (λ s. s.0) (back_and_forth p t)) ∙ forth c) ∙ new-to_basic_pair c.0 c.1,
    )
