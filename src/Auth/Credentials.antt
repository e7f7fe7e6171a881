-- ===== src/Auth/Credentials.antt =====
-- `Credential::new` reads what `to_basic_pair` prints.
use terminald.Base.{Option, none, some, false, ◌≡◌, ◌↔◌, refl, sym, ap, ◌∙◌, arith, Bytes, contains}
use terminald.Text.{split_once}
use terminald.Text.Split.{split_once_sound, split_once_complete, split_once-none, split_once_lacks}
use terminald.Auth.{Credential, new, of_parts, to_basic_pair}

-- The credentials that `Credential::new` makes: the user name holds no colon.
abbrev pub IsCredential : Credential → Type 0
IsCredential c = contains b':' c.username ≡ false

-- A credential is read from the text of its pair, if its user name holds no colon.
pub new-to_basic_pair : (c : Credential) → IsCredential c → new (to_basic_pair c) ≡ some c
unfolding new to_basic_pair
new-to_basic_pair c h = rw (split_once_complete b':' c.username c.password h)

of_parts_sound :
    (value : Bytes) (c : Credential) (o : Option (Bytes × Bytes))
    → split_once b':' value ≡ o
    → of_parts o ≡ some c
    → IsCredential c × (to_basic_pair c ≡ value)
unfolding of_parts to_basic_pair
of_parts_sound value c none e h = cc
of_parts_sound value c (some (u, p)) e h =
    let (lacks, parts) = split_once_sound b':' value u p e in (ground arith, ground arith)

-- A text that is read as a credential is the text of its pair, and the credential is well-formed: the
-- text was divided at its first colon.
pub new_sound :
    (value : Bytes) (c : Credential)
    → new value ≡ some c
    → IsCredential c × (to_basic_pair c ≡ value)
unfolding new
new_sound value c h = of_parts_sound value c (split_once b':' value) refl h

of_parts-none : (o : Option (Bytes × Bytes)) → of_parts o ≡ none → o ≡ none
unfolding of_parts
of_parts-none none h = refl
of_parts-none (some (u, p)) h = cc

-- A text is refused exactly when it holds no colon.
pub new-none_iff : (value : Bytes) → (new value ≡ none) ↔ (contains b':' value ≡ false)
unfolding new
new-none_iff value = (
  λ h. split_once-none b':' value (of_parts-none (split_once b':' value) h),
  λ h. rw (split_once_lacks b':' value h),
)

-- Two well-formed credentials with the same pair are one.
pub to_basic_pair_injective :
    (c d : Credential) → IsCredential c → IsCredential d → to_basic_pair c ≡ to_basic_pair d → c ≡ d
to_basic_pair_injective c d hc hd e =
    let read : some c ≡ some d = sym (new-to_basic_pair c hc) ∙ ap new e ∙ new-to_basic_pair d hd in
    cc
