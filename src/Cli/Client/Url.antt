-- ===== src/Cli/Client/Url.antt =====
-- Which URL a client connects to.
use terminald.Base.{
  [], ◌∷◌, ◌++◌, ◌≢◌, some, ◌≡◌, refl, sym, ap, ◌∙◌, ◌↔◌, subst, ◌⊎◌, inl, inr, Bytes, codes,
  String, ok, Bool-cases, Option-cases, >>=-eq-ok, with_context-eq-ok, with_context,
}
use terminald.Text.{bytes_eq, ends_with}
use terminald.Text.Find.{ends_with_complete, ends_with_sound}
use terminald.Text.Split.{bytes_eq_sound}
use terminald.Cli.Client.{UrlCrate, resolve_ws_url, to_ws, ws_scheme, with_slash}

-- What is documented of the setters.
pub record IsUrl {U : Type 0} (url : UrlCrate U) : Type 0 where
  pub sets_scheme : (u v : U) (s : Bytes) → url.set_scheme u s ≡ some v → url.scheme v ≡ s
  -- One special scheme may take the place of another.
  pub takes_ws :
      (u : U) → url.scheme u ≡ codes "http" → (v : U) × (url.set_scheme u (codes "ws") ≡ some v)
  pub takes_wss :
      (u : U) → url.scheme u ≡ codes "https" → (v : U) × (url.set_scheme u (codes "wss") ≡ some v)

-- The scheme of the connection for the scheme of the URL that was given.
abbrev pub Becomes : Bytes → Bytes → Type 0
Becomes from to =
    ((from ≡ codes "http") × (to ≡ codes "ws"))
    ⊎ ((from ≡ codes "https") × (to ≡ codes "wss"))
    ⊎ ((from ≡ codes "ws") × (to ≡ codes "ws"))
    ⊎ ((from ≡ codes "wss") × (to ≡ codes "wss"))

module _ {U : Type 0} (url : UrlCrate U) where
  -- A URL of the scheme `to` is what the client connects to.
  abbrev pub Resolves : Bytes → Bytes → Type 0
  Resolves connect to = (v : U) × (resolve_ws_url url connect ≡ ok v) × (url.scheme v ≡ to)

  -- The URL `folder` is `base` if its path ends in a slash, and else has the path with a slash.
  abbrev pub IsFolderOf : U → U → Type 0
  IsFolderOf base folder =
      (((p : Bytes) × (url.path base ≡ p ++ b'/' ∷ [])) × (folder ≡ base))
      ⊎ (((p : Bytes) → url.path base ≢ p ++ b'/' ∷ [])
          × (folder ≡ url.set_path base (url.path base ++ b'/' ∷ [])))

  -- The given URL parses and joins with `ws`, behind a slash, and its scheme becomes `to`.
  abbrev pub Joins : Bytes → Bytes → Type 0
  Joins connect to =
      (base folder u : U) × (url.parse connect ≡ ok base)
      × IsFolderOf base folder
      × (url.join folder (codes "ws") ≡ ok u)
      × Becomes (url.scheme u) to

  with_slash-IsFolderOf : (base : U) → IsFolderOf base (with_slash url base)
  unfolding with_slash
  with_slash-IsFolderOf base = elim (Bool-cases (ends_with (url.path base) (b'/' ∷ []))) [
    | inl e ↦ inl (ends_with_sound (url.path base) (b'/' ∷ []) e, rw e refl)
    | inr n ↦ inr (
      λ p same.
          let ends = ends_with_complete (url.path base) p (b'/' ∷ []) same in
          let clash = sym n ∙ ends in cc,
      rw n refl,
    )
  ]

  folder_of : (base folder : U) → IsFolderOf base folder → folder ≡ with_slash url base
  unfolding with_slash
  folder_of base folder (inl ((p, slash), same)) =
      let ends = ends_with_complete (url.path base) p (b'/' ∷ []) slash in rw ends same
  folder_of base folder (inr (other, same)) =
      elim (Bool-cases (ends_with (url.path base) (b'/' ∷ []))) [
        | inl e ↦
            let (p, slash) = ends_with_sound (url.path base) (b'/' ∷ []) e in absurd (other p slash)
        | inr n ↦ rw n same
      ]

module _ {U : Type 0} (url : UrlCrate U) (lawful : IsUrl url) where
  ws_scheme_sound :
      (u v : U) (s : Bytes) (what : String)
      → ws_scheme url (url.set_scheme u s) what ≡ ok v
      → url.scheme v ≡ s
  unfolding ws_scheme
  ws_scheme_sound u v s what h = elim (Option-cases (url.set_scheme u s)) [
    | inl e ↦ let refused = rw e at h in cc
    | inr (w, e) ↦
        let set = rw e at h in let same : w ≡ v = cc in lawful.sets_scheme u v s (e ∙ ap some same)
  ]

  to_ws_sound :
      (u v : U) (scheme : Bytes)
      → url.scheme u ≡ scheme
      → to_ws url u scheme ≡ ok v
      → Becomes scheme (url.scheme v)
  unfolding to_ws
  to_ws_sound u v scheme k h = elim (Bool-cases (bytes_eq scheme (codes "http"))) [
    | inl e ↦ inl (bytes_eq_sound scheme _ e, ws_scheme_sound u v _ "set ws scheme" (rw e at h))
    | inr n ↦ elim (Bool-cases (bytes_eq scheme (codes "https"))) [
      | inl e ↦
          inr (
            inl
              (bytes_eq_sound scheme _ e, ws_scheme_sound u v _ "set wss scheme" (rw (n, e) at h)))
      | inr m ↦ elim (Bool-cases (bytes_eq scheme (codes "ws"))) [
        | inl e ↦
            let given = bytes_eq_sound scheme _ e in
            let kept : u ≡ v = let r = rw (n, m, e) at h in cc in
            inr (inr (inl (given, ap url.scheme (sym kept) ∙ k ∙ given)))
        | inr l ↦ elim (Bool-cases (bytes_eq scheme (codes "wss"))) [
          | inl e ↦
              let given = bytes_eq_sound scheme _ e in
              let kept : u ≡ v = let r = rw (n, m, l, e) at h in cc in
              inr (inr (inr (given, ap url.scheme (sym kept) ∙ k ∙ given)))
          | inr o ↦ let r = rw (n, m, l, o) at h in cc
        ]
      ]
    ]
  ]

  -- A URL that the client connects to is the join of `ws` with the given URL, which was first made to
  -- end in a slash, under a scheme of a websocket: `ws` for `http` and `ws`, and `wss` for `https` and
  -- `wss`, so a secure URL never becomes an insecure one.
  pub resolve_ws_url_sound :
      (connect : Bytes) (v : U)
      → resolve_ws_url url connect ≡ ok v
      → (base u : U) × (url.parse connect ≡ ok base)
        × (url.join (with_slash url base) (codes "ws") ≡ ok u)
        × Becomes (url.scheme u) (url.scheme v)
  unfolding resolve_ws_url
  resolve_ws_url_sound connect v h =
      let (base, parsed, rest) =
        >>=-eq-ok (with_context (url.parse connect) "parse connect URL") _ h in
      let (u, joined, made) =
        >>=-eq-ok
          (with_context (url.join (with_slash url base) (codes "ws")) "resolve websocket URL")
          (λ u. to_ws url u (url.scheme u)) rest in
      (
        base,
        u,
        with_context-eq-ok _ _ parsed,
        with_context-eq-ok _ _ joined,
        to_ws_sound u v (url.scheme u) refl made,
      )

  to_ws_complete :
      (u : U) (scheme to : Bytes)
      → url.scheme u ≡ scheme
      → Becomes scheme to
      → (v : U) × (to_ws url u scheme ≡ ok v) × (url.scheme v ≡ to)
  unfolding to_ws ws_scheme bytes_eq
  to_ws_complete u scheme to k (inl (from, into)) =
      let (v, set) = lawful.takes_ws u (k ∙ from) in
      (v, rw (from, set) refl, lawful.sets_scheme u v _ set ∙ sym into)
  to_ws_complete u scheme to k (inr (inl (from, into))) =
      let (v, set) = lawful.takes_wss u (k ∙ from) in
      (v, rw (from, set) refl, lawful.sets_scheme u v _ set ∙ sym into)
  to_ws_complete u scheme to k (inr (inr (inl (from, into)))) =
      (u, rw from refl, k ∙ from ∙ sym into)
  to_ws_complete u scheme to k (inr (inr (inr (from, into)))) =
      (u, rw from refl, k ∙ from ∙ sym into)

  resolve_ws_url_complete : (connect to : Bytes) → Joins url connect to → Resolves url connect to
  unfolding resolve_ws_url
  resolve_ws_url_complete connect to (base, folder, u, parsed, slashed, joined, becomes) =
      let (v, made, same) = to_ws_complete u (url.scheme u) to refl becomes in
      let behind = ap (λ x. url.join x (codes "ws")) (sym (folder_of url base folder slashed)) in
      (v, rw (parsed, behind ∙ joined, made) refl, same)

  -- The client finds a URL to connect to exactly when the given one parses, joins with `ws` behind a
  -- slash, and has a scheme of the web: `http` and `ws` become `ws`, and `https` and `wss` become `wss`,
  -- so a secure URL never becomes an insecure one, and every other scheme is refused.
  pub resolve_ws_url_iff : (connect to : Bytes) → Resolves url connect to ↔ Joins url connect to
  resolve_ws_url_iff connect to = (
    λ (v, resolved, same).
        let (base, u, parsed, joined, becomes) = resolve_ws_url_sound connect v resolved in
        (
          base,
          with_slash url base,
          u,
          parsed,
          with_slash-IsFolderOf url base,
          joined,
          subst (Becomes (url.scheme u)) same becomes,
        ),
    resolve_ws_url_complete connect to,
  )
